-- ===== src/Registry/Handler/Run.antt =====
-- What a request at the registry's hostname does: to the origin, and to the bucket.
use zed_infra.Base.{
  String, true, false, Option, none, some, [], ◌++◌, ◌≡◌, inl, inr, refl, ◌===◌, ===_iff,
  Bool-cases, Option-cases,
}
use zed_infra.Route.{
  RouteDecision, RegistryAction, preflight, health, origin_read, origin_write, fallback_read,
  deny_method, deny_route, classify_registry_request, RegistryPath, get_version, get_package,
  get_artifact, parse_registry_path,
}
use zed_infra.Publish.{Route}
use zed_infra.Publish.Bucket.{Bucket, StoredObject}
use zed_infra.Publish.Upload.{Env, UploadRequest, edge_publish_enabled}
use zed_infra.Publish.Claim.{handle_edge_publish}
use zed_infra.Publish.Claim.Kept.{IsVersionKey, version_kept}
use zed_infra.Publish.Claim.Handled.{handle_edge_publish-Steps}
use zed_infra.Registry.{
  Request, Response, try_origin, probe, deny, problem_response, json_response, is_down,
}
use zed_infra.Registry.Handler.{
  Services, Handled, asked, version_route, write_route, edge_reply, edge_handled, after_origin,
  ask_origin, publish_or_ask, handle_write, dispatch, registry_fetch,
}

-- The actions that are answered with no call of the origin.
pub data IsLocal (reply : Response) : RegistryAction → Type 0 where
  no_route : reply.status ≡ 404 → IsLocal reply deny_route
  no_method : reply.status ≡ 405 → IsLocal reply deny_method
  asks_before : reply.status ≡ 204 → IsLocal reply preflight

-- The actions that go to the origin, unless a write is one that edge publishing takes or probes for.
pub data IsForwarded (env : Env) (request : Request) : RegistryAction → Type 0 where
  health_check : IsForwarded env request health
  plain_read : IsForwarded env request origin_read
  public_read : IsForwarded env request fallback_read
  other_write : write_route request ≡ none → IsForwarded env request origin_write
  publishing_off : edge_publish_enabled env ≡ false → IsForwarded env request origin_write

module _ (b : Bucket) where
  open b use {Store, lookup}

  pub data IsRun (env : Services b) (s : Store) (request : Request) (upload : UploadRequest)
      : RegistryAction → Handled b → Type 0 where
    local :
        {action : RegistryAction} (h : Handled b)
        → IsLocal h.reply action
        → h.calls ≡ []
        → h.store ≡ s
        → IsRun env s request upload action h
    relayed :
        {action : RegistryAction} (h : Handled b)
        → IsForwarded env.publishing request action
        → h.calls ≡ asked env.origin request
        → h.store ≡ s
        → h.reply ≡ after_origin b env s action request (try_origin env.origin request)
        → IsRun env s request upload action h
    probed :
        {action : RegistryAction} (h : Handled b) (route : Route)
        → action ≡ origin_write
        → write_route request ≡ some route
        → edge_publish_enabled env.publishing ≡ true
        → is_down (try_origin env.origin probe) ≡ false
        → h.calls ≡ (asked env.origin probe ++ asked env.origin request)
        → h.store ≡ s
        → h.reply ≡ after_origin b env s origin_write request (try_origin env.origin request)
        → IsRun env s request upload action h
    taken :
        {action : RegistryAction} (h : Handled b) (route : Route)
        → action ≡ origin_write
        → request.method ≡ "PUT"
        → parse_registry_path request.pathname
          ≡ some (get_version route.org route.name route.version)
        → edge_publish_enabled env.publishing ≡ true
        → is_down (try_origin env.origin probe) ≡ true
        → h.calls ≡ asked env.origin probe
        → h.store ≡ (handle_edge_publish b env.upload_runtime env.publishing upload route s).0
        → h.reply
          ≡ edge_reply env.ghcr
              (handle_edge_publish b env.upload_runtime env.publishing upload route s).1
        → IsRun env s request upload action h

  version_route-eq-some :
      (path : Option RegistryPath) {route : Route}
      → version_route path ≡ some route
      → path ≡ some (get_version route.org route.name route.version)
  unfolding version_route
  version_route-eq-some none h = cc h
  version_route-eq-some (some (get_version org name release)) h = cc h
  version_route-eq-some (some (get_artifact digest)) h = cc h
  version_route-eq-some (some (get_package org name)) h = cc h
  version_route-eq-some (some RegistryPath.healthz) h = cc h

  write_route-eq-some :
      (request : Request) {route : Route}
      → write_route request ≡ some route
      → (request.method ≡ "PUT")
        × (parse_registry_path request.pathname
            ≡ some (get_version route.org route.name route.version))
  unfolding write_route
  write_route-eq-some request h = elim (Bool-cases (request.method === "PUT")) [
    | inl e ↦ ((===_iff _ _).0 e, version_route-eq-some _ (rw e at h))
    | inr e ↦ cc (let k = rw e at h in k)
  ]

  asked_for :
      (env : Services b) (s : Store) (action : RegistryAction) (request : Request)
      (upload : UploadRequest)
      → IsForwarded env.publishing request action
      → IsRun env s request upload action (ask_origin b env s action request [])
  unfolding ask_origin
  asked_for env s action request upload forward = relayed _ forward refl refl refl

  publish_or_ask-IsRun :
      (env : Services b) (s : Store) (request : Request) (upload : UploadRequest) (route : Route)
      → write_route request ≡ some route
      → edge_publish_enabled env.publishing ≡ true
      → IsRun env s request upload origin_write (publish_or_ask b env s request upload route)
  unfolding publish_or_ask ask_origin edge_handled
  publish_or_ask-IsRun env s request upload route e on =
      let (method, path) = write_route-eq-some request e in
      elim (Bool-cases (is_down (try_origin env.origin probe))) [
        | inl down ↦
            rw (down, publish_or_ask) (taken _ route refl method path on down refl refl refl)
        | inr up ↦ rw (up, publish_or_ask) (probed _ route refl e on up refl refl refl)
      ]

  handle_write-IsRun :
      (env : Services b) (s : Store) (request : Request) (upload : UploadRequest)
      → IsRun env s request upload origin_write (handle_write b env s request upload)
  unfolding handle_write
  handle_write-IsRun env s request upload = elim (Option-cases (write_route request)) [
    | inl e ↦ rw (e, handle_write) (asked_for env s origin_write request upload (other_write e))
    | inr (route, e) ↦ elim (Bool-cases (edge_publish_enabled env.publishing)) [
      | inr off ↦
          rw (e, off, handle_write)
            (asked_for env s origin_write request upload (publishing_off off))
      | inl on ↦ rw (e, on, handle_write) (publish_or_ask-IsRun env s request upload route e on)
    ]
  ]

  dispatch-IsRun :
      (env : Services b) (s : Store) (request : Request) (upload : UploadRequest)
      (d : RouteDecision) (action : RegistryAction)
      → d.action ≡ action
      → IsRun env s request upload action (dispatch b env s request upload d)
  unfolding dispatch deny problem_response json_response
  dispatch-IsRun env s request upload d deny_route e =
      rw (e, dispatch) (local _ (no_route (rw (e, deny) refl)) refl refl)
  dispatch-IsRun env s request upload d deny_method e =
      rw (e, dispatch) (local _ (no_method (rw (e, deny) refl)) refl refl)
  dispatch-IsRun env s request upload d preflight e =
      rw (e, dispatch) (local _ (asks_before refl) refl refl)
  dispatch-IsRun env s request upload d origin_write e =
      rw (e, dispatch) (handle_write-IsRun env s request upload)
  dispatch-IsRun env s request upload d health e =
      rw (e, dispatch) (asked_for env s health request upload health_check)
  dispatch-IsRun env s request upload d origin_read e =
      rw (e, dispatch) (asked_for env s origin_read request upload plain_read)
  dispatch-IsRun env s request upload d fallback_read e =
      rw (e, dispatch) (asked_for env s fallback_read request upload public_read)

  -- A request runs as its classification says. Denied or a preflight, it is answered with 404, 405
  -- or 204, asks the origin nothing and leaves the bucket. A health check, a read, and a write that
  -- is no PUT of a version or comes while edge publishing is off are sent once to the origin, if
  -- one is configured, and leave the bucket. A PUT of a version with edge publishing on probes the
  -- origin first: if the origin is up, the request is sent to it after the probe and the bucket is
  -- left; if it is down, the probe is all that the origin was asked, and the bucket and the reply
  -- are those of `handleEdgePublish`.
  pub registry_fetch-IsRun :
      (env : Services b) (s : Store) (request : Request) (upload : UploadRequest)
      → IsRun env s request upload
          (classify_registry_request request.method request.pathname).action
          (registry_fetch b env s request upload)
  unfolding registry_fetch
  registry_fetch-IsRun env s request upload =
      dispatch-IsRun env s request upload
        (classify_registry_request request.method request.pathname) _ refl

  -- No request changes or removes the object at the key of a version.
  pub registry_fetch-version_kept :
      (env : Services b) (s : Store) (request : Request) (upload : UploadRequest) {k : String}
      {o : StoredObject}
      → IsVersionKey k
      → lookup k s ≡ some o
      → lookup k (registry_fetch b env s request upload).store ≡ some o
  registry_fetch-version_kept env s request upload {k} {o} key there =
      kept_by (registry_fetch-IsRun env s request upload)
    where
      kept_by :
          {action : RegistryAction} {h : Handled b}
          → IsRun env s request upload action h
          → lookup k h.store ≡ some o
      kept_by (local h l c e) = rw e there
      kept_by (relayed h f c e r) = rw e there
      kept_by (probed h route a w on up c e r) = rw e there
      kept_by (taken h route a m p on d c e r) =
          let (after, steps) =
            handle_edge_publish-Steps b env.upload_runtime env.publishing upload route s [] in
          rw e (version_kept b env.upload_runtime steps key there)
