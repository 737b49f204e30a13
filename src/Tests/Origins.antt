-- ===== src/Tests/Origins.antt =====
-- A proxy that relays what its origin says.
use zed_infra.Base.{refl, ◌>>=◌, ◌>>◌, reject_if, require, strip_prefix, includes}
use zed_infra.Json.{Json, undefined, str, arr, item, nil, as_arr, as_str}
use zed_infra.Origin.{create_origin_proxy, compile_edge_owned_paths, normalize_retry_after_seconds}
use zed_infra.Base.{false, Option, some, [], ◌∷◌, ◌≡◌, ok}
use zed_infra.Origin.{
  websocket, Headers, forwarded_headers, ProxyRequest, OriginResponse, Reply, ProxyConfig,
  proxy_fetch,
}
use zed_infra.Origin.Forwarded.{IsForwarded, forwarded_headers-IsForwarded}
use zed_infra.Origin.Decided.{IsAnswer, proxy_fetch-IsAnswer}

abbrev client_headers : Headers
client_headers = ("connection", "x") ∷ ("authorization", "Bearer y") ∷ ("te", "trailers") ∷ []

abbrev config : ProxyConfig
config = record { label = "app"; retry_after = 30; edge_owned_paths = "/health" ∷ [] }

abbrev not_found : ProxyRequest → Option OriginResponse
not_found sent = some (record { status = 404; has_web_socket = false; headers = []; body = [] })

abbrev client_request : ProxyRequest
client_request = record {
  method = "GET";
  url = "https://app.zpkg.net/health";
  pathname = "/health";
  headers = client_headers;
}

forwarded_headers-IsForwarded_example :
    IsForwarded websocket client_headers (forwarded_headers websocket client_headers)
forwarded_headers-IsForwarded_example =
    forwarded_headers-IsForwarded websocket client_headers (λ e. cc e)

proxy_fetch-IsAnswer_example :
    (reply : Reply) × (proxy_fetch config not_found client_request ≡ ok reply)
    × IsAnswer config not_found client_request reply
proxy_fetch-IsAnswer_example = proxy_fetch-IsAnswer config not_found client_request

abbrev owned_paths : Json
owned_paths = arr (item (str "/health") nil)

sample_config : create_origin_proxy "app" undefined owned_paths ≡ ok config
unfolding create_origin_proxy compile_edge_owned_paths normalize_retry_after_seconds ◌>>=◌ ◌>>◌
    reject_if require as_arr as_str strip_prefix includes
sample_config = refl
