-- ===== src/Tests/Registries.antt =====
-- The registry's handler while the origin is down: a publish to an empty bucket, and a read of it.
use zed_infra.Base.{ℕ, none, some, List, [], ◌∷◌, ◌≡◌, refl, append-nil, arith}
use zed_infra.Json.{Json}
use zed_infra.Route.{classify_registry_request, parse_registry_path}
use zed_infra.Publish.Claim.{document_object}
use zed_infra.Publish.Document.{concat, to_json}
use zed_infra.Publish.Document.ReadBack.{r2_get}
use zed_infra.Registry.{
  is_down, Request, value, absent, json_response, response_for_method, try_origin,
}
use zed_infra.Registry.Handler.{Services, registry_fetch}
use zed_infra.Registry.Handler.Run.{IsRun, registry_fetch-IsRun, registry_fetch-version_kept}
use zed_infra.Registry.Handler.Replies.{IsReadReply, registry_fetch-IsReadReply}
use zed_infra.Registry.Handler.Served.{registry_fetch-registry_fetch}
use zed_infra.Tests.Publishes.{
  memory, upload_runtime, env, request, route, sub, empty, claimed, sample_prepared, sample_there,
  key-IsVersionKey,
}
use zed_infra.Tests.Routes.{version_path, sample_read, sample_put, sample_parsed}

abbrev stringify : Json → List ℕ
stringify v = 5 ∷ []

abbrev chunked : List ℕ → List (List ℕ)
chunked bytes = bytes ∷ []

chunked-concat : (bytes : List ℕ) → concat (chunked bytes) ≡ bytes
chunked-concat bytes = append-nil bytes

abbrev services : Services memory
services = record {
  publishing = env;
  upload_runtime = upload_runtime;
  reader = record {
    utf8 = λ bytes. some "document";
    parse_json = λ text. some (to_json sub.document);
  };
  origin = none;
  cdn = none;
  get_object = λ s k. r2_get stringify chunked (s k);
  list_page = λ s prefix cursor. none;
  ghcr = λ p. "not_configured";
  native = λ route. absent;
  github = λ route. absent;
}

abbrev put : Request
put = record { method = "PUT"; pathname = version_path; url = version_path; headers = [] }

abbrev read : Request
read = record { method = "GET"; pathname = version_path; url = version_path; headers = [] }

registry_fetch-IsRun_example :
    IsRun memory services empty put request
      (classify_registry_request "PUT" version_path).action
      (registry_fetch memory services empty put request)
registry_fetch-IsRun_example = registry_fetch-IsRun memory services empty put request

registry_fetch-version_kept_example :
    (registry_fetch memory services claimed put request).store sub.version_key
    ≡ some (document_object sub)
registry_fetch-version_kept_example =
    registry_fetch-version_kept memory services claimed put request key-IsVersionKey sample_there

registry_fetch-IsReadReply_example :
    IsReadReply memory services empty read
      (try_origin none read)
      (parse_registry_path version_path)
      (registry_fetch memory services empty read request).reply
registry_fetch-IsReadReply_example =
    registry_fetch-IsReadReply memory services empty read request sample_read

registry_fetch-registry_fetch_example :
    (registry_fetch memory services
      (registry_fetch memory services empty put request).store
      read
      request).reply
    ≡ response_for_method "GET" (json_response (value (to_json sub.document)) 200 "edge-r2" [])
unfolding try_origin is_down
registry_fetch-registry_fetch_example =
    registry_fetch-registry_fetch memory services version_path route sample_parsed stringify chunked
      (λ s k. refl) chunked-concat empty put read request request sub "document" refl refl
      sample_put refl sample_read refl refl sample_prepared refl (omega arith) refl refl
