-- ===== src/Registry.antt =====
-- workers/registry-proxy/src/index.js: the handler of the registry's hostname, which asks the origin
-- and, where that is down, the bucket and the public sources. `jsonResponse` and the names of the
-- hop-by-hop headers are from workers/shared/github-fallback.js.
pub mod Handler
pub mod Sidecar
pub mod Release
use zed_infra.Base.{
  ℕ, String, Bool, true, false, not, ◌&&◌, ◌||◌, Option, none, some, List, [], ◌∷◌, ◌++◌, leb, ◌==◌,
  ◌===◌, ◌⧺◌, join, strip_slashes, Result, ok, err, if◌then◌else◌,
}
use zed_infra.Json.{Json, str, bool, arr, obj, nil, item, end, field}
use zed_infra.Visibility.{NonPublic}
use zed_infra.Origin.{
  Headers, hop_by_hop, header_get, header_set, delete_all, origin_is_unavailable,
}
use zed_infra.Route.{
  RegistryAction, preflight, health, origin_read, origin_write, fallback_read, deny_method,
  deny_route, RouteDecision, classify_registry_request, RegistryPath, get_artifact, get_version,
  get_package, parse_registry_path,
}
use zed_infra.Publish.{Problem, Route}
use zed_infra.Publish.Claim.{Published}

-- A body: none, bytes, a JSON value, or what an edge publish answers.
pub data Content : Type 0 where
  empty : Content
  bytes : List ℕ → Content
  value : Json → Content
  published : Result Problem Published → Content

pub record Response : Type 0 where
  pub status : ℕ
  pub headers : Headers
  pub body : Content

-- `url` is the path with the query.
pub record Request : Type 0 where
  pub method : String
  pub pathname : String
  pub url : String
  pub headers : Headers

-- `new Headers({...})`: a later entry replaces an earlier one of its name.
unfoldable pub set_all : Headers → Headers → Headers
unfolding header_set
set_all [] hs = hs
set_all ((k, v) ∷ more) hs = set_all more (header_set k v hs)

-- `jsonResponse`
unfoldable pub json_response : Content → ℕ → String → Headers → Response
json_response body status source extra = record {
  status = status;
  headers =
      set_all
        (("content-type", "application/json; charset=utf-8")
          ∷ ("x-content-type-options", "nosniff")
          ∷ ("cache-control", if leb 400 status then "no-store" else "public, max-age=60")
          ∷ ("x-zed-source", if source === "" then "github" else source)
          ∷ extra)
        [];
  body = body;
}

unfoldable pub cors_headers : List String → Headers
unfolding join
cors_headers allow =
    ("access-control-allow-origin", "*")
    ∷ ("access-control-allow-methods", methods allow)
    ∷ ("access-control-allow-headers", "authorization,content-type")
    ∷ ("access-control-max-age", "600")
    ∷ []
  where
    methods : List String → String
    methods [] = "GET,HEAD,OPTIONS"
    methods (m ∷ ms) = join "," (m ∷ ms)

-- `problem`
unfoldable pub problem_response : ℕ → String → String → Headers → Response
unfolding json_response
problem_response status code message extra =
    json_response
      (value (
        obj
          (field "ok" (bool false) (field "error" (str code) (field "message" (str message) end)))))
      status "edge" (extra ++ cors_headers [])

unfoldable pub for_head : String → Content → Content
for_head method body = if method === "HEAD" then empty else body

unfoldable pub with_edge : Response → String → String → Response
unfolding header_set for_head
with_edge r source method = record {
  status = r.status;
  headers = header_set "x-zed-edge" "registry" (header_set "x-zed-source" source r.headers);
  body = for_head method r.body;
}

unfoldable pub response_for_method : String → Response → Response
unfolding for_head
response_for_method method r = record {
  status = r.status;
  headers = r.headers;
  body = for_head method r.body;
}

-- What a public source answers: `failed` where it throws another error than `NonPublicObjectError`.
pub data Source : Type 0 where
  restricted failed absent : Source
  answered : Response → Source

unfoldable pub conditional_headers : Headers → Headers
conditional_headers headers =
    selected ("range" ∷ "if-none-match" ∷ "if-match" ∷ "if-modified-since" ∷ "if-range" ∷ [])
  where
    keep : String → Option String → Headers → Headers
    keep name none hs = hs
    keep name (some v) hs = if v === "" then hs else (name, v) ∷ hs

    selected : List String → Headers
    selected [] = []
    selected (name ∷ names) = keep name (header_get name headers) (selected names)

-- `originIsUnavailable` of an answer, and where there is none
unfoldable pub is_down : Option Response → Bool
is_down none = true
is_down (some r) = origin_is_unavailable r.status

-- The origin that `ORIGIN_URL` names, and `fetch` of it, which is none where it throws or times out.
pub record OriginServer : Type 0 where
  pub base : String
  pub host : String
  pub fetch : Request → Option Response

-- What `tryOrigin` sends.
unfoldable pub forwarded : OriginServer → Request → Request
unfolding header_set delete_all
forwarded origin request = record {
  method = request.method;
  pathname = request.pathname;
  url = origin.base ⧺ request.url;
  headers = header_set "host" origin.host (delete_all hop_by_hop request.headers);
}

unfoldable pub try_origin : Option OriginServer → Request → Option Response
unfolding forwarded
try_origin none request = none
try_origin (some origin) request = origin.fetch (forwarded origin request)

abbrev pub probe : Request
probe = record { method = "GET"; pathname = "/healthz"; url = "/healthz"; headers = [] }

-- The service binding `CDN`, which is none where its `fetch` throws, and `CDN_PUBLIC_URL`.
pub record CdnBinding : Type 0 where
  pub public_url : Option String
  pub fetch : Request → Option Response

abbrev pub url_or : String → Option String → String
url_or d none = d
url_or d (some s) = if s === "" then d else s

-- What `cdnArtifact` asks for, in one of the two formats.
unfoldable pub artifact_request : CdnBinding → Request → String → String → Request
unfolding strip_slashes conditional_headers
artifact_request cdn request sha256 extension = record {
  method = request.method;
  pathname = "/artifacts/" ⧺ sha256 ⧺ "." ⧺ extension;
  url =
      strip_slashes (url_or "https://cdn.zpkg.net" cdn.public_url)
      ⧺ "/artifacts/"
      ⧺ sha256
      ⧺ "."
      ⧺ extension;
  headers = conditional_headers request.headers;
}

-- the loop over the formats
unfoldable pub first_artifact : CdnBinding → Request → String → List String → Option Response
unfolding artifact_request
first_artifact cdn request sha256 [] = none
first_artifact cdn request sha256 (extension ∷ extensions) =
    let rest = first_artifact cdn request sha256 extensions in
    elim (cdn.fetch (artifact_request cdn request sha256 extension)) [
      | none ↦ none
      | some r ↦ if r.status == 404 then rest else some r
    ]

unfoldable pub cdn_artifact : Option CdnBinding → Request → String → Option Response
unfolding first_artifact
cdn_artifact none request sha256 = none
cdn_artifact (some cdn) request sha256 = first_artifact cdn request sha256 ("tar.gz" ∷ "zip" ∷ [])

abbrev pub retry_later : Headers
retry_later = ("retry-after", "30") ∷ []

unfoldable pub degraded_health : Response
unfolding json_response
degraded_health =
    json_response
      (value (
        obj (
          field "ok" (bool true) (
            field "db" (bool false) (
              field "degraded" (bool true) (
                field "source" (str "edge-fallback") (
                  field "fallbacks"
                    (arr (
                      item (str "github-public")
                        (item (str "npm-public") (item (str "crates-io-public") nil))))
                    end)))))))
      200 "edge-fallback" []

unfoldable pub refuse_write : Response
unfolding problem_response
refuse_write =
    problem_response 503 "registry_origin_unavailable"
      "registry writes require the zed-api-server origin" retry_later

unfoldable pub refuse_read : Response
unfolding problem_response
refuse_read =
    problem_response 503 "registry_origin_unavailable" "registry read origin is unavailable"
      retry_later

unfoldable pub not_public : Response
unfolding problem_response
not_public = problem_response 404 "not_found" "no such public package" []

unfoldable pub no_fallback : Response
unfolding problem_response
no_fallback =
    problem_response 503 "registry_origin_unavailable"
      "origin is unavailable and no independently public fallback was found" retry_later

unfoldable pub invalid_state : Response
unfolding problem_response
invalid_state =
    problem_response 500 "invalid_edge_state" "registry edge reached an invalid state" []

unfoldable pub deny : RouteDecision → Response
unfolding problem_response join
deny decision = elim decision.action [
  | deny_method ↦
      problem_response 405 "method_not_allowed" "method is not valid for this registry route"
        (("allow", join ", " decision.allow) ∷ [])
  | _ ↦ problem_response 404 "not_registry_route" "use api.zpkg.net for non-registry APIs" []
]

-- the answer to a health check, by the origin's
unfoldable pub health_reply : String → Option Response → Response
unfolding is_down with_edge response_for_method degraded_health
health_reply method none = response_for_method method degraded_health
health_reply method (some r) =
    if not (origin_is_unavailable r.status) && r.status == 200
    then with_edge r "origin" method
    else response_for_method method degraded_health

-- the last step of a read with fallbacks: the origin's 404, or none
unfoldable pub origin_or : Response → String → Option Response → Response
unfolding with_edge
origin_or d method none = d
origin_or d method (some r) =
    if origin_is_unavailable r.status then d else with_edge r "origin" method

-- what a source says, or what comes next
unfoldable pub or_next : String → Source → Response → Response
unfolding response_for_method not_public
or_next method restricted next = response_for_method method not_public
or_next method failed next = next
or_next method absent next = next
or_next method (answered r) next = response_for_method method r

-- A source that answers for errors of every kind as for none.
unfoldable pub or_else_next : String → Source → Response → Response
unfolding response_for_method
or_else_next method (answered r) next = response_for_method method r
or_else_next method source next = next
