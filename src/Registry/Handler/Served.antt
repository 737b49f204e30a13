-- ===== src/Registry/Handler/Served.antt =====
-- A publish and a later read of its version, both while the origin is down.
use zed_infra.Base.{
  ℕ, ◌≤◌, String, true, none, some, List, [], ◌≡◌, refl, arith, length, ok, ◌∙◌, ap, fun_ext,
  if◌then◌else◌,
}
use zed_infra.Json.{Json}
use zed_infra.Route.{
  origin_write, fallback_read, classify_registry_request, get_version, parse_registry_path,
}
use zed_infra.Publish.{Route, max_publish_meta_bytes}
use zed_infra.Publish.Bucket.{Bucket}
use zed_infra.Publish.Upload.{Env, UploadRequest, Submission, prepare, edge_publish_enabled}
use zed_infra.Publish.Admission.{prepare-IsAccepted}
use zed_infra.Publish.Claim.{handle_edge_publish}
use zed_infra.Publish.Document.{concat, to_json, r2_version_metadata}
use zed_infra.Publish.Document.ReadBack.{r2_get, handle_edge_publish-r2_version_metadata}
use zed_infra.Registry.{
  Request, value, json_response, response_for_method, answered, or_next, try_origin, probe, is_down,
}
use zed_infra.Registry.Handler.{
  Services, found_json, bound_bucket, version_route, write_route, r2_published_fallback,
  public_reply, fallback_reply, read_reply, after_origin, ask_origin, edge_handled, publish_or_ask,
  handle_write, dispatch, registry_fetch,
}

enabled-bound : (env : Env) → edge_publish_enabled env ≡ true → env.artifacts_bound ≡ true
unfolding edge_publish_enabled
enabled-bound env h = ground arith

module _ (b : Bucket) (env : Services b) (path : String) (route : Route)
    (parsed : parse_registry_path path
      ≡ some (get_version route.org route.name route.version)) where
  open b use {Store, lookup}

  written :
      (s : Store) (request : Request) (upload : UploadRequest)
      → request.pathname ≡ path
      → request.method ≡ "PUT"
      → (classify_registry_request request.method request.pathname).action ≡ origin_write
      → edge_publish_enabled env.publishing ≡ true
      → is_down (try_origin env.origin probe) ≡ true
      → (registry_fetch b env s request upload).store
        ≡ (handle_edge_publish b env.upload_runtime env.publishing upload route s).0
  unfolding registry_fetch dispatch handle_write publish_or_ask edge_handled write_route
      version_route
  written s request upload at put action on down =
      let e : write_route request ≡ some route = rw (put, at, parsed, write_route) refl in
      rw (action, dispatch, handle_write, e, on, publish_or_ask, down) refl

  bucket_there :
      (s : Store)
      → env.publishing.artifacts_bound ≡ true
      → bound_bucket b env s ≡ some (env.get_object s)
  bucket_there s h = ap (λ t. if t then some (env.get_object s) else none) h

  in_bucket :
      (s : Store) {v : Json}
      → r2_version_metadata env.reader (bound_bucket b env s) route ≡ ok (some v)
      → r2_published_fallback b env s (get_version route.org route.name route.version)
        ≡ answered (json_response (value v) 200 "edge-r2" [])
  unfolding r2_published_fallback found_json
  in_bucket s found = ap found_json found

  served :
      (s : Store) (request : Request) (upload : UploadRequest) {v : Json}
      → request.pathname ≡ path
      → (classify_registry_request request.method request.pathname).action ≡ fallback_read
      → is_down (try_origin env.origin request) ≡ true
      → r2_version_metadata env.reader (bound_bucket b env s) route ≡ ok (some v)
      → (registry_fetch b env s request upload).reply
        ≡ response_for_method request.method (json_response (value v) 200 "edge-r2" [])
  unfolding registry_fetch dispatch ask_origin after_origin read_reply fallback_reply public_reply
      or_next
  served s request upload {v} at action down found =
      rw
        (
          action,
          dispatch,
          read_reply,
          down,
          at,
          parsed,
          fallback_reply,
          public_reply,
          in_bucket s found,
        )
        refl

  module _ (stringify : Json → List ℕ) (chunked : List ℕ → List (List ℕ))
      (reads : (s : Store) (k : String)
        → env.get_object s k ≡ r2_get stringify chunked (lookup k s))
      (whole : (bytes : List ℕ) → concat (chunked bytes) ≡ bytes) where
    -- A publish is served while the origin stays down. Let an admitted PUT of a free version find the
    -- origin down, let the bucket's `get` answer with what was stored, and let the runtime read back
    -- the text of the version's document, which is within the size limit. Then a later read of
    -- that version which finds the origin down is answered with exactly that document.
    pub registry_fetch-registry_fetch :
        (s : Store) (put get : Request) (upload again : UploadRequest) (sub : Submission)
        (text : String)
        → put.pathname ≡ path
        → put.method ≡ "PUT"
        → (classify_registry_request put.method put.pathname).action ≡ origin_write
        → get.pathname ≡ path
        → (classify_registry_request get.method get.pathname).action ≡ fallback_read
        → is_down (try_origin env.origin probe) ≡ true
        → is_down (try_origin env.origin get) ≡ true
        → prepare env.upload_runtime env.publishing upload route ≡ ok sub
        → lookup sub.version_key s ≡ none
        → length (stringify (to_json sub.document)) ≤ max_publish_meta_bytes
        → env.reader.utf8 (stringify (to_json sub.document)) ≡ some text
        → env.reader.parse_json text ≡ some (to_json sub.document)
        → (registry_fetch b env (registry_fetch b env s put upload).store get again).reply
          ≡ response_for_method get.method
              (json_response (value (to_json sub.document)) 200 "edge-r2" [])
    registry_fetch-registry_fetch s put get upload again sub text p m w g r down down_again prepared
          free small decoded read =
        let enabled =
          (prepare-IsAccepted env.upload_runtime env.publishing upload route prepared).enabled in
        let bound = enabled-bound env.publishing enabled in
        let after = (handle_edge_publish b env.upload_runtime env.publishing upload route s).0 in
        let found =
          handle_edge_publish-r2_version_metadata stringify chunked env.reader sub text whole small
            decoded read b env.upload_runtime env.publishing upload route s prepared free in
        let gets : env.get_object after ≡ (λ k. r2_get stringify chunked (lookup k after)) =
          fun_ext (reads after) in
        let here : r2_version_metadata env.reader (bound_bucket b env after) route
            ≡ ok (some (to_json sub.document)) =
          ap (λ g. r2_version_metadata env.reader g route) (bucket_there after bound ∙ ap some gets)
          ∙ found in
        rw (written s put upload p m w enabled down) (served after get again g r down_again here)
