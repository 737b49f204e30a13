-- ===== src/Origin.antt =====
-- workers/shared/origin-transition.js and origin-proxy.js: what the proxy in front of an origin
-- sends to it, and what it answers. `originIsUnavailable` and the hop-by-hop headers are from
-- github-fallback.js.
pub mod Forwarded
pub mod Decided
pub mod Configured
use zed_infra.Base.{
  contains, ℕ, String, Bool, true, false, not, ◌&&◌, ◌||◌, Option, none, some, List, [], ◌∷◌, leb,
  ◌==◌, ◌===◌, includes, strip_prefix, member, any, Result, ok, err, reject_if, require, ◌>>=◌,
  ◌>>◌, if◌then◌else◌,
}
use zed_infra.Http.{to_lower}
use zed_infra.Json.{Json, undefined, int, arr, nil, as_arr, as_str}

pub data RequestMode : Type 0 where
  http websocket reject : RequestMode

-- `unavailable` and `forward` are the decisions "unavailable" and "http".
pub data ResponseDecision : Type 0 where
  forward upgrade unavailable : ResponseDecision

-- The `TypeError`s.
pub data TypeFault : Type 0 where
  rejected_reached_origin bad_paths bad_retry_after : TypeFault

unfoldable pub request_mode : String → Option String → RequestMode
request_mode method none = http
request_mode method (some protocol) =
    if method === "GET" && to_lower protocol === "websocket" then websocket else reject

unfoldable pub origin_is_unavailable : ℕ → Bool
origin_is_unavailable status =
    (status == 0)
    || (status == 502)
    || (status == 503)
    || (status == 504)
    || (status == 521)
    || (status == 522)
    || (status == 523)
    || (status == 524)

is_websocket : RequestMode → Bool
is_websocket websocket = true
is_websocket mode = false

-- the first two cases of the `switch`
decide : RequestMode → ℕ → Bool → Bool → ResponseDecision
unfolding is_websocket
decide mode status has_web_socket edge_owned_not_found =
    if status == 101
    then (if is_websocket mode && has_web_socket then upgrade else unavailable)
    else (if origin_is_unavailable status || (status == 404) && edge_owned_not_found
        then unavailable
        else forward)

unfoldable pub response_decision : RequestMode → ℕ → Bool → Bool → Result TypeFault ResponseDecision
unfolding decide
response_decision reject status socket owned = err rejected_reached_origin
response_decision http status socket owned = ok (decide http status socket owned)
response_decision websocket status socket owned = ok (decide websocket status socket owned)

-- `Headers`: names are in lower case.
abbrev pub Headers : Type 0
Headers = List (String × String)

abbrev pub hop_by_hop : List String
hop_by_hop =
    "connection" ∷ "keep-alive" ∷ "proxy-authenticate" ∷ "proxy-authorization" ∷ "te" ∷ "trailer"
    ∷ "transfer-encoding" ∷ "upgrade" ∷ []

unfoldable pub header_get : String → Headers → Option String
header_get k [] = none
header_get k ((j, v) ∷ hs) = let rest = header_get k hs in if j === k then some v else rest

unfoldable pub header_delete : String → Headers → Headers
header_delete k [] = []
header_delete k ((j, v) ∷ hs) =
    let rest = header_delete k hs in if j === k then rest else (j, v) ∷ rest

unfoldable pub header_set : String → String → Headers → Headers
header_set k v hs = (k, v) ∷ header_delete k hs

unfoldable pub delete_all : List String → Headers → Headers
delete_all [] hs = hs
delete_all (k ∷ ks) hs = delete_all ks (header_delete k hs)

unfoldable pub forwarded_headers : RequestMode → Headers → Headers
forwarded_headers websocket hs =
    header_set "connection" "Upgrade" (header_set "upgrade" "websocket" (delete_all hop_by_hop hs))
forwarded_headers mode hs = delete_all hop_by_hop hs

-- an absolute path with no query and no fragment
pub path_form : Json → Bool
unfolding as_str
path_form v = elim (as_str v) [
  | none ↦ false
  | some path ↦ begins path && not (includes b'?' path) && not (includes b'#' path)
]
  where
    begins : String → Bool
    begins path = elim (strip_prefix "/" path) [ none ↦ false | some rest ↦ true ]

texts : List Json → List String
texts [] = []
texts (v ∷ vs) = elim (as_str v) [ none ↦ texts vs | some s ↦ s ∷ texts vs ]

unfoldable pub compile_edge_owned_paths : Json → Result TypeFault (List String)
unfolding path_form texts
compile_edge_owned_paths paths = do
  listed ← require (as_arr paths) bad_paths
  reject_if (any (λ path. not (path_form path)) listed) bad_paths
  ok (texts listed)

retry_range : Json → Option ℕ
retry_range (int n) = if leb 1 n && leb n 86400 then some n else none
retry_range v = none

unfoldable pub normalize_retry_after_seconds : Json → Result TypeFault ℕ
unfolding retry_range
normalize_retry_after_seconds v = require (retry_range v) bad_retry_after

unfoldable pub guidance_for : ℕ → String
guidance_for retry_after =
    if leb 7200 retry_after
    then "Please come back in about two hours."
    else if leb 3600 retry_after
    then "Please come back in about an hour."
    else "Please try again shortly."

wants_html : Option String → Bool
unfolding contains
wants_html none = false
wants_html (some accept) = contains "text/html" accept

-- A request, and what is sent of it with redirects left to the client.
pub record ProxyRequest : Type 0 where
  pub method : String
  pub url : String
  pub pathname : String
  pub headers : Headers

pub record OriginResponse : Type 0 where
  pub status : ℕ
  pub has_web_socket : Bool
  pub headers : Headers
  pub body : List ℕ

-- The page or the JSON of a 503, by what it is made of.
pub record Outage : Type 0 where
  pub origin_status : ℕ
  pub retry_after : ℕ
  pub guidance : String
  pub html : Bool

pub data Reply : Type 0 where
  bad_request : Reply
  handed_over : OriginResponse → Reply
  origin_down : Outage → Reply
  relayed : OriginResponse → Reply

pub record ProxyConfig : Type 0 where
  pub label : String
  pub retry_after : ℕ
  pub edge_owned_paths : List String

-- a default, for `undefined` alone
given_or : Json → Json → Json
given_or d undefined = d
given_or d v = v

-- `createOriginProxy`, up to the handler that it returns
unfoldable pub create_origin_proxy : String → Json → Json → Result TypeFault ProxyConfig
unfolding given_or
create_origin_proxy label retry_after paths = do
  edge_owned_paths ← compile_edge_owned_paths (given_or (arr nil) paths)
  seconds ← normalize_retry_after_seconds (given_or (int 30) retry_after)
  ok (record { label = label; retry_after = seconds; edge_owned_paths = edge_owned_paths })

unfoldable pub unavailable_reply : ProxyConfig → ProxyRequest → ℕ → Reply
unfolding wants_html
unavailable_reply config request status = origin_down (record {
  origin_status = status;
  retry_after = config.retry_after;
  guidance = guidance_for config.retry_after;
  html = wants_html (header_get "accept" request.headers);
})

-- the headers of `out`
pub relayed_response : ProxyConfig → OriginResponse → OriginResponse
relayed_response config r = record {
  status = r.status;
  has_web_socket = false;
  headers =
      header_set "x-zed-edge" config.label
        (header_set "x-content-type-options" "nosniff" r.headers);
  body = r.body;
}

-- the second `switch`
answer : ProxyConfig → ProxyRequest → OriginResponse → ResponseDecision → Reply
unfolding relayed_response
answer config request r upgrade = handed_over r
answer config request r unavailable = unavailable_reply config request r.status
answer config request r forward = relayed (relayed_response config r)

unfoldable pub forwarded_request : RequestMode → ProxyRequest → ProxyRequest
forwarded_request mode request = record {
  method = request.method;
  url = request.url;
  pathname = request.pathname;
  headers = forwarded_headers mode request.headers;
}

received : ProxyConfig → ProxyRequest → RequestMode → Option OriginResponse → Result TypeFault Reply
unfolding answer
received config request mode none = ok (unavailable_reply config request 0)
received config request mode (some r) = do
  decision ←
      response_decision mode r.status r.has_web_socket
        (member request.pathname config.edge_owned_paths)
  ok (answer config request r decision)

-- the handler, for the mode of its request
fetch_in :
    RequestMode
    → ProxyConfig
    → (ProxyRequest → Option OriginResponse)
    → ProxyRequest
    → Result TypeFault Reply
unfolding received
fetch_in reject config fetch request = ok bad_request
fetch_in mode config fetch request =
    received config request mode (fetch (forwarded_request mode request))

-- The handler, for the runtime's `fetch`, which is none where it throws, times out or is aborted.
unfoldable pub proxy_fetch :
    ProxyConfig → (ProxyRequest → Option OriginResponse) → ProxyRequest → Result TypeFault Reply
unfolding fetch_in
proxy_fetch config fetch request =
    fetch_in (request_mode request.method (header_get "upgrade" request.headers)) config fetch
      request
