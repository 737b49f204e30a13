-- ===== src/Registry/Handler.antt =====
-- registry-proxy/src/index.js: `fetch`, with the bucket that it may write and the requests that it
-- sends to the origin.
pub mod Run
pub mod Replies
pub mod Served
use zed_infra.Base.{
  ℕ, String, Bool, true, false, not, ◌&&◌, ◌||◌, Option, none, some, List, [], ◌∷◌, ◌++◌, ◌==◌,
  ◌===◌, map, Result, ok, err, if◌then◌else◌,
}
use zed_infra.Json.{Json, Items, Fields, nil, item, end, field, obj, arr, str}
use zed_infra.Visibility.{NonPublic}
use zed_infra.Origin.{Headers, origin_is_unavailable}
use zed_infra.Route.{
  RegistryAction, preflight, health, origin_read, origin_write, fallback_read, deny_method,
  deny_route, RouteDecision, classify_registry_request, RegistryPath, healthz, get_artifact,
  get_version, get_package, parse_registry_path,
}
use zed_infra.Publish.{Problem, Route}
use zed_infra.Publish.Bucket.{Bucket}
use zed_infra.Publish.Upload.{Env, UploadRequest, UploadRuntime, edge_publish_enabled}
use zed_infra.Publish.Claim.{Published, handle_edge_publish}
use zed_infra.Publish.Document.{R2Object, ReadRuntime, items_of, text_field, r2_version_metadata}
use zed_infra.Publish.Listing.{Page, PackageMetadata, r2_package_metadata}
use zed_infra.Registry.{
  Content, empty, value, published, Response, Request, json_response, cors_headers, Source,
  restricted, absent, answered, OriginServer, CdnBinding, forwarded, try_origin, probe, is_down,
  cdn_artifact, with_edge, refuse_write, refuse_read, no_fallback, invalid_state, deny,
  health_reply, origin_or, or_next, or_else_next,
}

-- The object that `r2PackageMetadata` answers, with its properties in their order.
unfoldable pub listing_json : PackageMetadata → Json
listing_json m = obj (
    field "org" (str m.org) (
      field "name" (str m.name) (
        field "vcs" (str m.vcs) (
          field "repo_url" (str m.repo_url) (
            field "latest" (str m.latest) (
              field "tags" (arr nil) (
                field "versions" (arr (items_of (map str m.versions)))
                  (text_field "description" m.description end))))))))

unfoldable pub found_json : Result NonPublic (Option Json) → Source
unfolding json_response
found_json (err e) = restricted
found_json (ok none) = absent
found_json (ok (some v)) = answered (json_response (value v) 200 "edge-r2" [])

unfoldable pub found_listing : Result NonPublic (Option PackageMetadata) → Source
unfolding json_response listing_json
found_listing (err e) = restricted
found_listing (ok none) = absent
found_listing (ok (some m)) = answered (json_response (value (listing_json m)) 200 "edge-r2" [])

result_status : Result Problem Published → ℕ
result_status (ok p) = 201
result_status (err p) = p.status

-- The answer of an edge publish; a header tells what became of the copy in the second registry.
unfoldable pub edge_reply : (Published → String) → Result Problem Published → Response
unfolding json_response result_status
edge_reply ghcr result =
    json_response (published result) (result_status result) "edge-r2" (annotations result)
  where
    annotations : Result Problem Published → Headers
    annotations (ok p) = ("x-zpkg-ghcr", ghcr p) ∷ []
    annotations (err p) = []

unfoldable pub version_route : Option RegistryPath → Option Route
version_route none = none
version_route (some (get_version org name version)) =
    some (record { org = org; name = name; version = version })
version_route (some path) = none

-- The route of a publish: what `parseRegistryPath` reads of the path of a version.
unfoldable pub write_route : Request → Option Route
unfolding version_route parse_registry_path
write_route request =
    if request.method === "PUT" then version_route (parse_registry_path request.pathname) else none

-- The requests that reach the origin.
unfoldable pub asked : Option OriginServer → Request → List Request
unfolding forwarded
asked none request = []
asked (some origin) request = forwarded origin request ∷ []

response_or : Response → Option Response → Response
response_or d none = d
response_or d (some r) = r

unfoldable pub is_status : ℕ → Option Response → Bool
is_status n none = false
is_status n (some r) = r.status == n

module _ (b : Bucket) where
  open b use {Store}

  -- The bindings, the bucket's reads, the second registry's answer to a publish, and the public
  -- registries, native and GitHub's.
  pub record Services : Type 0 where
    pub publishing : Env
    pub upload_runtime : UploadRuntime
    pub reader : ReadRuntime
    pub origin : Option OriginServer
    pub cdn : Option CdnBinding
    pub get_object : Store → String → Option R2Object
    pub list_page : Store → String → Option String → Option Page
    pub ghcr : Published → String
    pub native : RegistryPath → Source
    pub github : RegistryPath → Source

  -- The reply, the bucket afterwards, and what the origin was asked.
  pub record Handled : Type 0 where
    pub reply : Response
    pub store : Store
    pub calls : List Request

  abbrev pub bound_bucket : Services → Store → Option (String → Option R2Object)
  bound_bucket env s = if env.publishing.artifacts_bound then some (env.get_object s) else none

  unfoldable pub r2_published_fallback : Services → Store → RegistryPath → Source
  unfolding found_json found_listing
  r2_published_fallback env s (get_version org name version) = found_json (
      r2_version_metadata env.reader (bound_bucket env s)
        (record { org = org; name = name; version = version }))
  r2_published_fallback env s (get_package org name) =
      if env.publishing.artifacts_bound
      then found_listing
          (r2_package_metadata env.reader (env.list_page s) (env.get_object s) org name)
      else absent
  r2_published_fallback env s route = absent

  -- The public sources in their order, and the origin's own 404 after them.
  unfoldable pub public_reply :
      Services → Store → String → RegistryPath → Option Response → Response
  unfolding or_next or_else_next origin_or no_fallback r2_published_fallback
  public_reply env s method route origin = or_next method (r2_published_fallback env s route) (
      or_else_next method (env.native route)
        (or_else_next method (env.github route) (origin_or no_fallback method origin)))

  -- Only packages and versions have public sources.
  unfoldable pub fallback_reply :
      Services → Store → Request → Option RegistryPath → Option Response → Response
  unfolding invalid_state public_reply
  fallback_reply env s request (some (get_version org name version)) origin =
      public_reply env s request.method (get_version org name version) origin
  fallback_reply env s request (some (get_package org name)) origin =
      public_reply env s request.method (get_package org name) origin
  fallback_reply env s request path origin = invalid_state

  artifact_of : Services → Request → Option RegistryPath → Option Response
  unfolding cdn_artifact
  artifact_of env request (some (get_artifact digest)) = cdn_artifact env.cdn request digest
  artifact_of env request path = none

  -- A read, once the origin was asked: its answer, unless it is down or, where there is a fallback,
  -- has no such thing.
  unfoldable pub read_reply :
      Services → Store → RegistryAction → Request → Option Response → Response
  unfolding is_down is_status response_or artifact_of with_edge refuse_read origin_or fallback_reply
  read_reply env s action request origin =
      if not (is_down origin) && not (is_status 404 origin)
      then origin_or refuse_read request.method origin
      else elim action [
        | origin_read ↦
            if is_down origin
            then response_or refuse_read
                (artifact_of env request (parse_registry_path request.pathname))
            else origin_or refuse_read request.method origin
        | _ ↦ fallback_reply env s request (parse_registry_path request.pathname) origin
      ]

  -- what is done once the origin was asked for the request itself
  unfoldable pub after_origin :
      Services → Store → RegistryAction → Request → Option Response → Response
  unfolding origin_or refuse_write health_reply read_reply
  after_origin env s origin_write request origin = origin_or refuse_write request.method origin
  after_origin env s health request origin = health_reply request.method origin
  after_origin env s action request origin = read_reply env s action request origin

  unfoldable pub ask_origin : Services → Store → RegistryAction → Request → List Request → Handled
  unfolding after_origin try_origin asked
  ask_origin env s action request before = record {
    reply = after_origin env s action request (try_origin env.origin request);
    store = s;
    calls = before ++ asked env.origin request;
  }

  unfoldable pub edge_handled : Services → Store × Result Problem Published → Handled
  unfolding edge_reply asked
  edge_handled env (after, result) = record {
    reply = edge_reply env.ghcr result;
    store = after;
    calls = asked env.origin probe;
  }

  -- A publish whose origin is down goes to the bucket; the origin has only been probed.
  unfoldable pub publish_or_ask : Services → Store → Request → UploadRequest → Route → Handled
  unfolding ask_origin is_down edge_handled try_origin
  publish_or_ask env s request upload route =
      if is_down (try_origin env.origin probe)
      then edge_handled env (handle_edge_publish b env.upload_runtime env.publishing upload route s)
      else ask_origin env s origin_write request (asked env.origin probe)

  unfoldable pub handle_write : Services → Store → Request → UploadRequest → Handled
  unfolding write_route edge_publish_enabled publish_or_ask ask_origin
  handle_write env s request upload = elim (write_route request) [
    | none ↦ ask_origin env s origin_write request []
    | some route ↦
        if edge_publish_enabled env.publishing
        then publish_or_ask env s request upload route
        else ask_origin env s origin_write request []
  ]

  abbrev pub kept : Store → Response → Handled
  kept s reply = record { reply = reply; store = s; calls = [] }

  -- `fetch` once the request is classified
  unfoldable pub dispatch : Services → Store → Request → UploadRequest → RouteDecision → Handled
  unfolding deny cors_headers handle_write ask_origin
  dispatch env s request upload decision = elim decision.action [
    | deny_route ↦ kept s (deny decision)
    | deny_method ↦ kept s (deny decision)
    | preflight ↦
        kept s (record { status = 204; headers = cors_headers decision.allow; body = empty })
    | origin_write ↦ handle_write env s request upload
    | action ↦ ask_origin env s action request []
  ]

  -- `fetch`; the request is also given as `handleEdgePublish` reads it.
  unfoldable pub registry_fetch : Services → Store → Request → UploadRequest → Handled
  unfolding classify_registry_request dispatch
  registry_fetch env s request upload =
      dispatch env s request upload (classify_registry_request request.method request.pathname)
