-- ===== src/Cdn/Service/Disclosed.antt =====
-- What the mirror reads and answers.
use zed_infra.Base.{
  String, Bool, true, not, ◌&&◌, ◌||◌, false, ===_iff, arith, and-true, Option, none, some, List,
  [], ◌∷◌, ◌≡◌, ◌⊎◌, inl, inr, refl, All, ok, err, Bool-cases, Option-cases, Result-cases, ◌===◌,
}
use zed_infra.Visibility.{non_public_object, require_public_object}
use zed_infra.Origin.{Headers}
use zed_infra.Registry.{Response}
use zed_infra.Cdn.{CdnPath, key_of}
use zed_infra.Cdn.Mirror.{CdnObject, CdnRequest, cdn_problem, get_r2, object_reply, not_disclosed}
use zed_infra.Cdn.Service.{
  CdnServices, healthy, Served, local_reply, from_sources, requested, is_bucket_key, serve,
  serve_path, cdn_fetch,
}
use zed_infra.Cdn.Service.Allowed.{IsAllowedFor, from_sources-All}

module _ (env : CdnServices) where
  -- What is answered of an object that the bucket has.
  pub data IsBucketReply (request : CdnRequest) (key : String) (object : CdnObject)
      : Response → Type 0 where
    withheld :
        require_public_object object.custom_metadata ≡ err non_public_object
        → IsBucketReply request key object (not_disclosed request.method)
    disclosed :
        require_public_object object.custom_metadata ≡ ok tt
        → IsBucketReply request key object (object_reply request key object)

  abbrev IsRead : CdnRequest → Type 0
  IsRead request = (request.method ≡ "GET") ⊎ (request.method ≡ "HEAD")

  -- What is answered without the bucket and without a source.
  pub data IsLocal (request : CdnRequest) (r : Response) : Type 0 where
    asks_methods : request.method ≡ "OPTIONS" → r.status ≡ 204 → IsLocal request r
    refused :
        (request.method === "GET") ≡ false
        → (request.method === "HEAD") ≡ false
        → r.status ≡ 405
        → IsLocal request r
    asks_health :
        IsRead request
        → (request.pathname ≡ "/") ⊎ (request.pathname ≡ "/healthz")
        → r ≡ healthy request.method
        → IsLocal request r
    asks_mirrors :
        IsRead request
        → request.pathname ≡ "/.well-known/zpkg-mirrors.json"
        → r ≡ env.bootstrap request.method
        → IsLocal request r
    no_path :
        IsRead request → requested request.pathname ≡ none → r.status ≡ 404 → IsLocal request r

  -- The bucket is not bound, or has no object at the key.
  pub data IsMissing (request : CdnRequest) (key : String) : Type 0 where
    no_bucket : env.artifacts ≡ none → IsMissing request key
    no_object :
        (get_object : String → Headers → Option CdnObject)
        → env.artifacts ≡ some get_object
        → get_object key request.headers ≡ none
        → IsMissing request key

  -- What the sources are asked after: a key of another kind, which the bucket is not asked for, or
  -- one at which it has nothing.
  pub data IsAfterBucket (request : CdnRequest) (key : String) : List String → Type 0 where
    other_key : is_bucket_key key ≡ false → IsAfterBucket request key []
    not_held :
        is_bucket_key key ≡ true → IsMissing request key → IsAfterBucket request key (key ∷ [])

  pub data IsServed (request : CdnRequest) : Served → Type 0 where
    locally : (r : Response) → IsLocal request r → IsServed request (local_reply r)
    by_bucket :
        (path : CdnPath) (get_object : String → Headers → Option CdnObject) (object : CdnObject)
        (r : Response)
        → IsRead request
        → requested request.pathname ≡ some path
        → is_bucket_key (key_of path) ≡ true
        → env.artifacts ≡ some get_object
        → get_object (key_of path) request.headers ≡ some object
        → IsBucketReply request (key_of path) object r
        → IsServed request (record { reply = ok r; keys = key_of path ∷ []; fetched = [] })
    by_sources :
        (path : CdnPath) (served : Served)
        → IsRead request
        → requested request.pathname ≡ some path
        → IsAfterBucket request (key_of path) served.keys
        → served ≡ from_sources env path request.method served.keys
        → All (IsAllowedFor env path) served.fetched
        → IsServed request served

  not_in_bucket :
      (artifacts : Option (String → Headers → Option CdnObject)) (request : CdnRequest)
      (key : String)
      → env.artifacts ≡ artifacts
      → get_r2 artifacts request key ≡ none
      → IsMissing request key
  unfolding get_r2
  not_in_bucket none request key e h = no_bucket e
  not_in_bucket (some get_object) request key e h =
      elim (Option-cases (get_object key request.headers)) [
        | inl missing ↦ no_object get_object e missing
        | inr (object, found) ↦ elim (Result-cases (require_public_object object.custom_metadata)) [
          | inl (non_public_object, f) ↦ cc (let k = rw (found, f, get_r2) at h in k)
          | inr (tt, f) ↦ cc (let k = rw (found, f, get_r2) at h in k)
        ]
      ]

  in_bucket :
      (artifacts : Option (String → Headers → Option CdnObject)) (request : CdnRequest)
      (key : String) {r : Response}
      → get_r2 artifacts request key ≡ some r
      → (get_object : String → Headers → Option CdnObject) × (object : CdnObject) × (artifacts
          ≡ some get_object)
        × (get_object key request.headers ≡ some object)
        × IsBucketReply request key object r
  unfolding get_r2
  in_bucket none request key h = cc h
  in_bucket (some get_object) request key {r} h =
      elim (Option-cases (get_object key request.headers)) [
        | inl e ↦ cc (let k = rw (e, get_r2) at h in k)
        | inr (object, e) ↦ elim (Result-cases (require_public_object object.custom_metadata)) [
          | inl (non_public_object, f) ↦
              let same : not_disclosed request.method ≡ r =
                cc (let k = rw (e, f, get_r2) at h in k) in
              (get_object, object, refl, e, rw (← same) (withheld f))
          | inr (tt, f) ↦
              let same : object_reply request key object ≡ r =
                cc (let k = rw (e, f, get_r2) at h in k) in
              (get_object, object, refl, e, rw (← same) (disclosed f))
        ]
      ]

  serve-IsServed :
      (request : CdnRequest) (path : CdnPath)
      → IsRead request
      → requested request.pathname ≡ some path
      → IsServed request (serve env request path)
  unfolding serve
  serve-IsServed request path reads e = elim (Bool-cases (is_bucket_key (key_of path))) [
    | inr other ↦
        rw (other, serve)
          (by_sources path _ reads e (other_key other) refl
            (from_sources-All env path request.method []))
    | inl key ↦ elim (Option-cases (get_r2 env.artifacts request (key_of path))) [
      | inl missing ↦
          rw (key, missing, serve)
            (by_sources path _ reads e
              (not_held key (not_in_bucket env.artifacts request _ refl missing)) refl
              (from_sources-All env path request.method (key_of path ∷ [])))
      | inr (r, found) ↦
          let (get_object, object, there, got, reply) =
            in_bucket env.artifacts request (key_of path) found in
          rw (key, found, serve) (by_bucket path get_object object r reads e key there got reply)
    ]
  ]

  at_home :
      (request : CdnRequest)
      → (request.pathname === "/" || request.pathname === "/healthz") ≡ true
      → (request.pathname ≡ "/") ⊎ (request.pathname ≡ "/healthz")
  at_home request h =
      ground (arith, ===_iff request.pathname "/", ===_iff request.pathname "/healthz")

  reading :
      (request : CdnRequest)
      → (not (request.method === "GET") && not (request.method === "HEAD")) ≡ false
      → IsRead request
  reading request h = ground (arith, ===_iff request.method "GET", ===_iff request.method "HEAD")

  not-true : (b : Bool) → not b ≡ true → b ≡ false
  not-true b h = ground arith

  serve_path-IsServed :
      (request : CdnRequest) → IsRead request → IsServed request (serve_path env request)
  unfolding serve_path cdn_problem
  serve_path-IsServed request reads =
      elim (Bool-cases (request.pathname === "/" || request.pathname === "/healthz")) [
        | inl home ↦
            rw (home, serve_path) (locally _ (asks_health reads (at_home request home) refl))
        | inr away ↦ elim (Bool-cases (request.pathname === "/.well-known/zpkg-mirrors.json")) [
          | inl mirrors ↦
              rw (away, mirrors, serve_path)
                (locally _ (asks_mirrors reads ((===_iff _ _).0 mirrors) refl))
          | inr other ↦ elim (Option-cases (requested request.pathname)) [
            | inl e ↦ rw (away, other, e, serve_path) (locally _ (no_path reads e refl))
            | inr (path, e) ↦ rw (away, other, e, serve_path) (serve-IsServed request path reads e)
          ]
        ]
      ]

  -- A request that is no GET or HEAD is answered with 204 or 405, a GET or HEAD of the health check
  -- or of the list of mirrors with these, and one of no known path with 404, all without the bucket
  -- and the sources. Otherwise, if the key of the path is an artifact's or a metadata key and the
  -- bucket has an object there, the answer is from the bucket, with nothing fetched: the object, or
  -- the 404 of a missing one where its metadata does not permit disclosure. The sources are asked
  -- exactly if the key is of another kind, which is not read, or the bucket is unbound or has
  -- nothing there; the answer is theirs, and all they fetch are URLs that are allowed for the path.
  pub cdn_fetch-IsServed : (request : CdnRequest) → IsServed request (cdn_fetch env request)
  unfolding cdn_fetch cdn_problem
  cdn_fetch-IsServed request = elim (Bool-cases (request.method === "OPTIONS")) [
    | inl asks ↦ rw (asks, cdn_fetch) (locally _ (asks_methods ((===_iff _ _).0 asks) refl))
    | inr other ↦
        elim (Bool-cases (not (request.method === "GET") && not (request.method === "HEAD"))) [
          | inl writes ↦
              let (get, head) = and-true (not (request.method === "GET")) _ writes in
              rw (other, writes, cdn_fetch)
                (locally _ (refused (not-true _ get) (not-true _ head) refl))
          | inr reads ↦
              rw (other, reads, cdn_fetch) (serve_path-IsServed request (reading request reads))
        ]
  ]
