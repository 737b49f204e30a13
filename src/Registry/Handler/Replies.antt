-- ===== src/Registry/Handler/Replies.antt =====
-- How a read that has public sources is answered, and that what the edge published is served.
use zed_infra.Base.{
  String, true, false, not, ◌&&◌, Option, none, some, List, ◌≡◌, ◌⊎◌, inl, inr, refl, arith, ◌==◌,
  Bool-cases,
}
use zed_infra.Origin.{origin_is_unavailable}
use zed_infra.Route.{fallback_read, classify_registry_request, RegistryPath, parse_registry_path}
use zed_infra.Route.Coordinates.{
  IsReading, of_package, of_version, no_package, no_version, fallback_read-IsReading,
}
use zed_infra.Publish.Bucket.{Bucket}
use zed_infra.Publish.Upload.{UploadRequest}
use zed_infra.Registry.{
  Request, Response, Source, restricted, failed, absent, answered, is_down, with_edge,
  response_for_method, not_public, no_fallback, refuse_read, try_origin, invalid_state, origin_or,
  or_next, or_else_next,
}
use zed_infra.Registry.Handler.{
  Services, r2_published_fallback, public_reply, fallback_reply, is_status, read_reply,
  after_origin, registry_fetch, dispatch, ask_origin,
}

-- The origin has no answer that counts.
pub data IsMissed (origin : Option Response) : Type 0 where
  no_answer : is_down origin ≡ true → IsMissed origin
  not_found : is_status 404 origin ≡ true → IsMissed origin

abbrev pub IsSilent : Source → Type 0
IsSilent (answered r) = ⊥
IsSilent source = Unit

module _ (b : Bucket) (env : Services b) (s : b.Store) (request : Request)
    (origin : Option Response) where
  pub data IsAnswered (route : RegistryPath) : Response → Type 0 where
    withheld :
        r2_published_fallback b env s route ≡ restricted
        → IsAnswered route (response_for_method request.method not_public)
    by_bucket :
        (r : Response)
        → r2_published_fallback b env s route ≡ answered r
        → IsAnswered route (response_for_method request.method r)
    by_native :
        (r : Response)
        → (r2_published_fallback b env s route ≡ absent)
          ⊎ (r2_published_fallback b env s route ≡ failed)
        → env.native route ≡ answered r
        → IsAnswered route (response_for_method request.method r)
    by_github :
        (r : Response)
        → (r2_published_fallback b env s route ≡ absent)
          ⊎ (r2_published_fallback b env s route ≡ failed)
        → IsSilent (env.native route)
        → env.github route ≡ answered r
        → IsAnswered route (response_for_method request.method r)
    by_nobody :
        (r2_published_fallback b env s route ≡ absent)
          ⊎ (r2_published_fallback b env s route ≡ failed)
        → IsSilent (env.native route)
        → IsSilent (env.github route)
        → IsAnswered route (origin_or no_fallback request.method origin)

  pub data IsReadReply : Option RegistryPath → Response → Type 0 where
    by_origin :
        {path : Option RegistryPath} (r : Response)
        → origin ≡ some r
        → origin_is_unavailable r.status ≡ false
        → (r.status == 404) ≡ false
        → IsReadReply path (with_edge r "origin" request.method)
    unread : IsMissed origin → IsReadReply none invalid_state
    by_source :
        {reply : Response} (route : RegistryPath)
        → IsMissed origin
        → IsAnswered route reply
        → IsReadReply (some route) reply

  github_last :
      (route : RegistryPath) (source : Source)
      → env.github route ≡ source
      → (r2_published_fallback b env s route ≡ absent)
        ⊎ (r2_published_fallback b env s route ≡ failed)
      → IsSilent (env.native route)
      → IsAnswered route
          (or_else_next request.method source (origin_or no_fallback request.method origin))
  unfolding or_else_next
  github_last route (answered r) e quiet silent = by_github r quiet silent e
  github_last route restricted e quiet silent = by_nobody quiet silent (rw e tt)
  github_last route failed e quiet silent = by_nobody quiet silent (rw e tt)
  github_last route absent e quiet silent = by_nobody quiet silent (rw e tt)

  abbrev IsQuiet : RegistryPath → Type 0
  IsQuiet route =
      (r2_published_fallback b env s route ≡ absent)
      ⊎ (r2_published_fallback b env s route ≡ failed)

  abbrev last_reply : RegistryPath → Response
  last_reply route =
      or_else_next request.method (env.github route) (origin_or no_fallback request.method origin)

  native_next :
      (route : RegistryPath) (source : Source)
      → env.native route ≡ source
      → IsQuiet route
      → IsAnswered route (or_else_next request.method source (last_reply route))
  unfolding or_else_next
  native_next route (answered r) e quiet = by_native r quiet e
  native_next route restricted e quiet = github_last route _ refl quiet (rw e tt)
  native_next route failed e quiet = github_last route _ refl quiet (rw e tt)
  native_next route absent e quiet = github_last route _ refl quiet (rw e tt)

  bucket_first :
      (route : RegistryPath) (source : Source)
      → r2_published_fallback b env s route ≡ source
      → IsAnswered route (
          or_next request.method source
            (or_else_next request.method (env.native route) (last_reply route)))
  unfolding or_next
  bucket_first route (answered r) e = by_bucket r e
  bucket_first route restricted e = withheld e
  bucket_first route failed e = native_next route _ refl (inr e)
  bucket_first route absent e = native_next route _ refl (inl e)

  public_reply-IsAnswered :
      (route : RegistryPath) → IsAnswered route (public_reply b env s request.method route origin)
  unfolding public_reply
  public_reply-IsAnswered route = bucket_first route _ refl

  fallback_reply-IsReadReply :
      (segments : List String) (path : Option RegistryPath)
      → IsReading segments path
      → IsMissed origin
      → IsReadReply path (fallback_reply b env s request path origin)
  unfolding fallback_reply
  fallback_reply-IsReadReply segments path (of_package org name e c) missed =
      by_source _ missed (public_reply-IsAnswered _)
  fallback_reply-IsReadReply segments path (of_version org name release e c) missed =
      by_source _ missed (public_reply-IsAnswered _)
  fallback_reply-IsReadReply segments path (no_package org name e c) missed = unread missed
  fallback_reply-IsReadReply segments path (no_version org name release e c) missed = unread missed

missed :
    (origin : Option Response)
    → (not (is_down origin) && not (is_status 404 origin)) ≡ false
    → IsMissed origin
missed origin h = elim (Bool-cases (is_down origin)) [
  | inl e ↦ no_answer e
  | inr e ↦ not_found (ground arith)
]

module _ (b : Bucket) (env : Services b) (s : b.Store) (request : Request) where
  answers :
      (path : Option RegistryPath) (origin : Option Response)
      → (not (is_down origin) && not (is_status 404 origin)) ≡ true
      → IsReadReply b env s request origin path (origin_or refuse_read request.method origin)
  unfolding is_down is_status origin_or
  answers path none h = cc h
  answers path (some r) h =
      let up : origin_is_unavailable r.status ≡ false = ground arith in
      let other : (r.status == 404) ≡ false = ground arith in rw up (by_origin r refl up other)

  read_reply-IsReadReply :
      (segments : List String) (path : Option RegistryPath) (origin : Option Response)
      → IsReading segments path
      → parse_registry_path request.pathname ≡ path
      → IsReadReply b env s request origin path (read_reply b env s fallback_read request origin)
  unfolding read_reply
  read_reply-IsReadReply segments path origin reading parsed =
      elim (Bool-cases (not (is_down origin) && not (is_status 404 origin))) [
        | inl e ↦ rw (e, read_reply) (answers path origin e)
        | inr e ↦
            rw (e, read_reply, parsed)
              (fallback_reply-IsReadReply b env s request origin segments path reading
                (missed origin e))
      ]

  -- A request whose action is `fallback_read` is answered by the origin unless that is down or says
  -- 404. Otherwise, for coordinates that `parseRegistryPath` reads, the bucket answers first: where
  -- it refuses an object as not public the reply is `not_found`, whatever the public registries
  -- have; where it has nothing or fails, the native registry answers, then GitHub, then the
  -- origin's 404 or, with the origin down, a 503. For other coordinates the reply is a 500.
  pub registry_fetch-IsReadReply :
      (upload : UploadRequest)
      → (classify_registry_request request.method request.pathname).action ≡ fallback_read
      → IsReadReply b env s request
          (try_origin env.origin request)
          (parse_registry_path request.pathname)
          (registry_fetch b env s request upload).reply
  unfolding registry_fetch dispatch ask_origin after_origin
  registry_fetch-IsReadReply upload h =
      let (path, _, reading) = fallback_read-IsReading request.method request.pathname h in
      rw (h, dispatch) (read_reply-IsReadReply _ _ _ reading refl)
