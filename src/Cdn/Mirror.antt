-- ===== src/Cdn/Mirror.antt =====
-- cdn-proxy/src/index.js: `fetch` with the bucket's objects and the public sources, and the redirects
-- that it follows.
pub mod Redirected
use zed_infra.Base.{
  ℕ, suc, zero, ◌+◌, ◌*◌, ◌-◌, ◌/◌, ◌%◌, String, Bool, true, false, not, ◌&&◌, ◌||◌, Option, none,
  some, List, [], ◌∷◌, ◌++◌, leb, ltb, ◌==◌, ◌===◌, ◌⧺◌, contains, member, Result, ok, err,
  if◌then◌else◌,
}
use zed_infra.Http.{to_lower}
use zed_infra.Json.{Json, str, bool, obj, field, end, as_nat}
use zed_infra.Visibility.{require_public_object}
use zed_infra.Capability.{Url}
use zed_infra.Origin.{Headers, header_get, header_set, origin_is_unavailable}
use zed_infra.Registry.{Content, empty, bytes, value, Response, set_all, response_for_method}
use zed_infra.Cdn.{
  CdnPath, release_feed, github_object, package_object, content_object, metadata_object, key_of,
  is_artifact_key, is_metadata_key, canonical_cdn_key, parse_cdn_path, github_fallback_urls_for_cdn,
  strip_suffix,
}

abbrev pub security_headers : Headers
security_headers =
    ("x-content-type-options", "nosniff")
    ∷ ("content-security-policy", "default-src 'none'; sandbox")
    ∷ ("referrer-policy", "no-referrer")
    ∷ ("access-control-allow-origin", "*")
    ∷ ("access-control-allow-methods", "GET, HEAD, OPTIONS")
    ∷ ("access-control-allow-headers", "range, if-none-match")
    ∷ ("access-control-expose-headers", "content-length, content-range, etag")
    ∷ []

abbrev pub immutable : String
immutable = "public, max-age=31536000, immutable"

abbrev pub metadata_cache : String
metadata_cache = "public, max-age=60, stale-while-revalidate=600"

abbrev pub max_public_artifact_bytes : ℕ
max_public_artifact_bytes = 110 * 1024 * 1024

abbrev pub max_public_metadata_bytes : ℕ
max_public_metadata_bytes = 1024 * 1024

-- `problem`, with the method of a reply that may have a body
unfoldable pub cdn_problem : ℕ → String → String → Headers → Response
unfolding set_all
cdn_problem status code message extra = record {
  status = status;
  headers =
      set_all
        (("content-type", "application/json; charset=utf-8")
          ∷ ("cache-control", "no-store")
          ∷ extra)
        security_headers;
  body = value (obj (field "code" (str code) (field "message" (str message) end)));
}

-- `String(n)`
digit : ℕ → String
digit n =
    if n == 0
    then "0"
    else if n == 1
    then "1"
    else if n == 2
    then "2"
    else if n == 3
    then "3"
    else if n == 4
    then "4"
    else if n == 5
    then "5"
    else if n == 6
    then "6"
    else if n == 7
    then "7"
    else if n == 8
    then "8"
    else "9"

digits : ℕ → ℕ → String
unfolding digit
digits zero n = digit (n % 10)
digits (suc more) n =
    let rest = digits more (n / 10) in if ltb n 10 then digit n else rest ⧺ digit (n % 10)

-- a number has fewer digits than its value, but for 0
unfoldable pub decimal_text : ℕ → String
unfolding digits
decimal_text n = digits n n

-- What the bucket answers: `body` is none where the property is missing or null, after a condition
-- that failed; the range is an offset and a length.
pub record CdnObject : Type 0 where
  pub custom_metadata : Json
  pub http_metadata : Headers
  pub http_etag : Option String
  pub size : Option ℕ
  pub body : Option (List ℕ)
  pub range : Option (ℕ × ℕ)

pub record CdnRequest : Type 0 where
  pub method : String
  pub pathname : String
  pub headers : Headers

abbrev pub set_some : String → Option String → Headers → Headers
set_some name none hs = hs
set_some name (some v) hs = if v === "" then hs else header_set name v hs

abbrev pub size_header : Option ℕ → Headers → Headers
size_header none hs = hs
size_header (some n) hs = header_set "content-length" (decimal_text n) hs

abbrev pub size_text : Option ℕ → String
size_text none = "undefined"
size_text (some n) = decimal_text n

ends_in_zip_key : Option String → Bool
ends_in_zip_key none = false
ends_in_zip_key (some rest) = true

unfoldable pub object_type : String → String
unfolding is_metadata_key strip_suffix ends_in_zip_key
object_type key =
    if is_metadata_key key
    then "application/json"
    else if ends_in_zip_key (strip_suffix ".zip" key)
    then "application/zip"
    else "application/gzip"

unfoldable pub object_headers : String → CdnObject → Headers
unfolding set_all header_set is_metadata_key object_type
object_headers key object =
    set_all
      (("accept-ranges", "bytes")
        ∷ ("x-zed-edge", "cdn")
        ∷ ("x-zed-source", "r2")
        ∷ ("x-zpkg-mirror", "zpkg-cdn")
        ∷ ("cache-control", if is_metadata_key key then metadata_cache else immutable)
        ∷ ("content-type", object_type key)
        ∷ [])
      (set_some "etag" object.http_etag (set_all object.http_metadata security_headers))

has_header : Option String → Bool
has_header none = false
has_header (some v) = true

-- the answer with an object's bytes: a range of them, where one was asked for
unfoldable pub object_range : CdnRequest → CdnObject → Headers → List ℕ → Response
unfolding has_header header_get decimal_text header_set
object_range request object headers content =
    if has_header (header_get "range" request.headers)
    then ranged object.range
    else record { status = 200; headers = size_header object.size headers; body = bytes content }
  where
    ranged : Option (ℕ × ℕ) → Response
    ranged none = record {
      status = 200;
      headers = size_header object.size headers;
      body = bytes content;
    }
    ranged (some (start, count)) = record {
      status = 206;
      headers = header_set "content-length" (decimal_text count) (
          header_set "content-range"
            ("bytes "
              ⧺ decimal_text start
              ⧺ "-"
              ⧺ decimal_text (start + count - 1)
              ⧺ "/"
              ⧺ size_text object.size)
            headers);
      body = bytes content;
    }

-- a public object
unfoldable pub object_reply : CdnRequest → String → CdnObject → Response
unfolding object_headers object_range
object_reply request key object =
    let headers = object_headers key object in
    if request.method === "HEAD"
    then record { status = 200; headers = size_header object.size headers; body = empty }
    else elim object.body [
      | none ↦ record { status = 304; headers = headers; body = empty }
      | some content ↦ object_range request object headers content
    ]

unfoldable pub not_disclosed : String → Response
unfolding cdn_problem response_for_method
not_disclosed method =
    response_for_method method (cdn_problem 404 "not_found" "no such public object" [])

-- `getR2`, for the bucket's `get`, which is none where the object is missing or the call throws
unfoldable pub get_r2 :
    Option (String → Headers → Option CdnObject) → CdnRequest → String → Option Response
unfolding object_reply not_disclosed
get_r2 none request key = none
get_r2 (some get_object) request key = elim (get_object key request.headers) [
  | none ↦ none
  | some object ↦ elim (require_public_object object.custom_metadata) [
    | err e ↦ some (not_disclosed request.method)
    | ok u ↦ some (object_reply request key object)
  ]
]

-- A response of a public source.
pub record Upstream : Type 0 where
  pub status : ℕ
  pub headers : Headers
  pub body : List ℕ

-- `response.ok`
abbrev pub is_ok : Upstream → Bool
is_ok r = leb 200 r.status && leb r.status 299

unfoldable pub is_redirect : ℕ → Bool
is_redirect status =
    (status == 301) || (status == 302) || (status == 303) || (status == 307) || (status == 308)

-- The error that `new URL` throws on a location that is no URL.
pub data BadLocation : Type 0 where
  bad_location : BadLocation

-- A run of `fetchWithValidatedRedirects`: the URLs that were fetched, and the answer.
pub record Followed : Type 0 where
  pub fetched : List String
  pub answer : Result BadLocation (Option Upstream)

abbrev pub stopped : List String → Option Upstream → Followed
stopped urls answer = record { fetched = urls; answer = ok answer }

abbrev pub also : String → Followed → Followed
also url run = record { fetched = url ∷ run.fetched; answer = run.answer }

abbrev pub location_of : Upstream → Option String
location_of r = header_get "location" r.headers

-- The runtime's `fetch` of a URL, none where it throws or times out; `new URL(location, base)`, none
-- where it throws.
pub record Web : Type 0 where
  pub fetch : String → Option Upstream
  pub resolve : String → String → Option String

module _ (web : Web) (allow_url : String → Bool) where
  -- a redirect, with `next` for the rest of the loop
  unfoldable pub redirected : (String → Followed) → Bool → String → Option String → Followed
  redirected next last current none = stopped (current ∷ []) none
  redirected next last current (some location) =
      if location === "" || last
      then stopped (current ∷ []) none
      else elim (web.resolve location current) [
        | none ↦ record { fetched = current ∷ []; answer = err bad_location }
        | some url ↦ also current (next url)
      ]

  unfoldable pub fetch_step : (String → Followed) → Bool → String → Followed
  unfolding is_redirect redirected header_get
  fetch_step next last current =
      if not (allow_url current) then stopped [] none else elim (web.fetch current) [
        | none ↦ stopped (current ∷ []) none
        | some r ↦
            if is_redirect r.status
            then redirected next last current (location_of r)
            else stopped (current ∷ []) (some r)
      ]

  -- the loop, which may follow `left` more redirects
  unfoldable pub follow : ℕ → String → Followed
  unfolding fetch_step
  follow zero current = fetch_step (λ url. stopped [] none) true current
  follow (suc left) current = fetch_step (λ url. follow left url) false current

  -- `fetchWithValidatedRedirects`
  unfoldable pub fetch_with_validated_redirects : String → Followed
  unfolding follow
  fetch_with_validated_redirects url = follow 3 url

-- `isAllowedGithubArtifactUrl` and `isAllowedGithubReleaseFeedUrl`, for `new URL`
unfoldable pub secure_url : Url → Bool
secure_url url =
    url.protocol === "https:" && url.username === "" && url.password === "" && url.port === ""

unfoldable pub is_allowed_github_artifact_url : (String → Option Url) → String → Bool
unfolding secure_url member contains
is_allowed_github_artifact_url parse_url raw = elim (parse_url raw) [
  | none ↦ false
  | some url ↦
      secure_url url
      && member url.hostname (
          "github.com" ∷ "objects.githubusercontent.com" ∷ "release-assets.githubusercontent.com"
          ∷ [])
      && (not (url.hostname === "github.com") || contains "/releases/download/" url.pathname)
]

unfoldable pub is_allowed_github_release_feed_url :
    (String → Option Url) → String → String → String → Bool
unfolding secure_url
is_allowed_github_release_feed_url parse_url owner repo raw = elim (parse_url raw) [
  | none ↦ false
  | some url ↦
      secure_url url
      && url.hostname === "github.com"
      && url.pathname === "/" ⧺ owner ⧺ "/" ⧺ repo ⧺ "/releases.atom"
      && url.search === ""
      && url.hash === ""
]

-- The number that a `content-length` declares, where it is a safe integer above 0 and in bounds.
unfoldable pub declared_within : (String → Json) → ℕ → Headers → Option ℕ
unfolding as_nat header_get
declared_within number most headers =
    elim (as_nat (number (length_text (header_get "content-length" headers)))) [
      | none ↦ none
      | some n ↦ if n == 0 || ltb most n then none else some n
    ]
  where
    length_text : Option String → String
    length_text none = "0"
    length_text (some s) = if s === "" then "0" else s

unfoldable pub copied : List String → Headers → Headers → Headers
unfolding header_get header_set
copied [] source hs = hs
copied (name ∷ names) source hs = copied names source (set_some name (header_get name source) hs)

unfoldable pub sanitize_public_artifact :
    (String → Json) → Option Upstream → String → String → Option Response
unfolding declared_within copied set_all
sanitize_public_artifact number none method source = none
sanitize_public_artifact number (some r) method source =
    if not (is_ok r) || origin_is_unavailable r.status
    then none
    else elim (declared_within number max_public_artifact_bytes r.headers) [
      | none ↦ none
      | some n ↦ some (record {
        status = if r.status == 206 then 206 else 200;
        headers =
            set_all
              (("cache-control", immutable)
                ∷ ("x-zed-edge", "cdn")
                ∷ ("x-zed-source", source)
                ∷ ("x-zpkg-mirror", source)
                ∷ [])
              (copied
                ("content-length" ∷ "content-type" ∷ "etag" ∷ "last-modified" ∷ "accept-ranges"
                  ∷ [])
                r.headers security_headers);
        body = if method === "HEAD" then empty else bytes r.body;
      })
    ]
