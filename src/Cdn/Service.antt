-- ===== src/Cdn/Service.antt =====
-- cdn-proxy/src/index.js: `fetch`, with the keys that it reads from the bucket and the URLs that it
-- fetches.
pub mod Disclosed
mod Allowed
use zed_infra.Base.{
  ℕ, String, Bool, true, false, not, ◌&&◌, ◌||◌, Option, none, some, List, [], ◌∷◌, ◌++◌, leb, ◌==◌,
  ◌===◌, ◌⧺◌, length, strip_prefix, Result, ok, err, if◌then◌else◌,
}
use zed_infra.Http.{to_lower, ended}
use zed_infra.Json.{Json, bool, str, obj, field, end}
use zed_infra.Capability.{Url}
use zed_infra.Origin.{Headers, header_get, origin_is_unavailable}
use zed_infra.Registry.{Content, empty, bytes, value, Response, set_all}
use zed_infra.Cdn.{
  CdnPath, release_feed, github_object, package_object, content_object, metadata_object, key_of,
  is_artifact_key, is_metadata_key, canonical_cdn_key, parse_cdn_path, github_fallback_urls_for_cdn,
}
use zed_infra.Cdn.Mirror.{
  security_headers, metadata_cache, max_public_metadata_bytes, cdn_problem, decimal_text, CdnObject,
  CdnRequest, get_r2, Upstream, is_ok, BadLocation, Followed, Web, fetch_with_validated_redirects,
  is_allowed_github_artifact_url, is_allowed_github_release_feed_url, declared_within,
  sanitize_public_artifact,
}

-- `/^application\/atom\+xml(?:\s*;|$)/i`
unfoldable pub is_atom_type : String → Bool
unfolding ended strip_prefix to_lower
is_atom_type s = ended (strip_prefix "application/atom+xml" (to_lower s))

abbrev pub header_text : Option String → String
header_text none = ""
header_text (some s) = s

-- the bytes of a feed, where they are as many as declared
unfoldable pub feed_body : String → ℕ → List ℕ → Option Content
feed_body method declared body =
    if method === "HEAD"
    then some empty
    else if length body == declared && leb (length body) max_public_metadata_bytes
    then some (bytes body)
    else none

unfoldable pub sanitize_public_release_feed :
    (String → Json) → Option Upstream → String → Option Response
unfolding declared_within feed_body set_all is_atom_type header_get decimal_text
sanitize_public_release_feed number none method = none
sanitize_public_release_feed number (some r) method =
    let content_type = header_text (header_get "content-type" r.headers) in
    if not (is_ok r) || origin_is_unavailable r.status || not (is_atom_type content_type)
    then none
    else elim (declared_within number max_public_metadata_bytes r.headers) [
      | none ↦ none
      | some declared ↦ elim (feed_body method declared r.body) [
        | none ↦ none
        | some body ↦ some (record {
          status = 200;
          headers =
              set_all
                (("cache-control", metadata_cache)
                  ∷ ("content-length", decimal_text declared)
                  ∷ ("content-type", content_type)
                  ∷ ("x-zed-edge", "cdn")
                  ∷ ("x-zed-source", "github-release-feed")
                  ∷ ("x-zpkg-mirror", "github-release-feed")
                  ∷ [])
                security_headers;
          body = body;
        })
      ]
    ]

-- The bindings and the runtime. Of the native registries: the host that an organisation stands for,
-- the URLs of a file, and `isAllowedNativeDownloadUrl`.
pub record CdnServices : Type 0 where
  pub artifacts : Option (String → Headers → Option CdnObject)
  pub web : String → Web
  pub parse_url : String → Option Url
  pub number : String → Json
  pub native_host : String → Option String
  pub native_urls : String → String → String → String → List String
  pub native_allowed : String → String → String → String → Bool
  pub bootstrap : String → Response

-- The URLs that a source fetched, and what it answers.
pub record Sourced : Type 0 where
  pub fetched : List String
  pub answer : Result BadLocation (Option Response)

abbrev pub no_source : Sourced
no_source = record { fetched = []; answer = ok none }

abbrev pub after_fetching : List String → Sourced → Sourced
after_fetching urls s = record { fetched = urls ++ s.fetched; answer = s.answer }

-- what a URL's run gives, once its response is tested
unfoldable pub tested :
    (Option Upstream → Option Response)
    → Result BadLocation (Option Upstream)
    → Result BadLocation (Option Response)
tested sanitize (err e) = err e
tested sanitize (ok r) = ok (sanitize r)

abbrev pub sourced : (Option Upstream → Option Response) → Followed → Sourced
sourced sanitize run = record { fetched = run.fetched; answer = tested sanitize run.answer }

-- The next source is asked where one has no answer.
unfoldable pub or_source : Sourced → Sourced → Sourced
or_source s next = elim s.answer [
  | err e ↦ s
  | ok none ↦ after_fetching s.fetched next
  | ok (some reply) ↦ s
]

unfoldable pub first_source :
    Web → (String → Bool) → (Option Upstream → Option Response) → List String → Sourced
unfolding fetch_with_validated_redirects or_source tested
first_source web allow_url sanitize [] = no_source
first_source web allow_url sanitize (url ∷ urls) =
    let rest = first_source web allow_url sanitize urls in
    or_source (sourced sanitize (fetch_with_validated_redirects web allow_url url)) rest

unfoldable pub get_native_public : CdnServices → CdnPath → String → Sourced
unfolding first_source sanitize_public_artifact
get_native_public env (package_object org name release filename key) method =
    elim (env.native_host org) [
      | none ↦ no_source
      | some host ↦
          first_source (env.web method) (λ u. env.native_allowed host u name release)
            (λ r. sanitize_public_artifact env.number r method ("native-" ⧺ host))
            (env.native_urls host name release filename)
    ]
get_native_public env path method = no_source

unfoldable pub github_artifacts : CdnServices → CdnPath → String → Sourced
unfolding first_source sanitize_public_artifact is_allowed_github_artifact_url
    github_fallback_urls_for_cdn
github_artifacts env path method =
    first_source (env.web method) (is_allowed_github_artifact_url env.parse_url)
      (λ r. sanitize_public_artifact env.number r method "github-release")
      (github_fallback_urls_for_cdn path)

is_native : Option String → Bool
is_native none = false
is_native (some host) = true

unfoldable pub get_github_public : CdnServices → CdnPath → String → Sourced
unfolding first_source sanitize_public_release_feed is_allowed_github_release_feed_url
    github_fallback_urls_for_cdn github_artifacts is_native
get_github_public env (release_feed owner repo key) method =
    first_source (env.web method) (is_allowed_github_release_feed_url env.parse_url owner repo)
      (λ r. sanitize_public_release_feed env.number r method)
      (github_fallback_urls_for_cdn (release_feed owner repo key))
get_github_public env (package_object org name release filename key) method =
    if is_native (env.native_host org)
    then no_source
    else github_artifacts env (package_object org name release filename key) method
get_github_public env (github_object owner repo tag filename key) method =
    github_artifacts env (github_object owner repo tag filename key) method
get_github_public env path method = no_source

-- The reply, the keys read from the bucket, and the URLs fetched.
pub record Served : Type 0 where
  pub reply : Result BadLocation Response
  pub keys : List String
  pub fetched : List String

abbrev pub local_reply : Response → Served
local_reply r = record { reply = ok r; keys = []; fetched = [] }

unfoldable pub no_public_source : Response
unfolding cdn_problem
no_public_source =
    cdn_problem 404 "not_found" "no independently public artifact source was found" []

reply_of : Result BadLocation (Option Response) → Result BadLocation Response
unfolding no_public_source
reply_of (err e) = err e
reply_of (ok none) = ok no_public_source
reply_of (ok (some r)) = ok r

-- what comes after the bucket
unfoldable pub from_sources : CdnServices → CdnPath → String → List String → Served
unfolding get_native_public get_github_public or_source reply_of
from_sources env path method keys =
    let s = or_source (get_native_public env path method) (get_github_public env path method) in
    record { reply = reply_of s.answer; keys = keys; fetched = s.fetched }

unfoldable pub or_metadata : Option CdnPath → Option String → Option CdnPath
unfolding is_metadata_key
or_metadata (some path) direct = some path
or_metadata none none = none
or_metadata none (some key) = if is_metadata_key key then some (metadata_object key) else none

unfoldable pub requested : String → Option CdnPath
unfolding parse_cdn_path canonical_cdn_key or_metadata
requested pathname = or_metadata (parse_cdn_path pathname) (canonical_cdn_key pathname)

unfoldable pub is_bucket_key : String → Bool
unfolding is_artifact_key is_metadata_key
is_bucket_key key = is_artifact_key key || is_metadata_key key

abbrev pub from_bucket : Option Response → Served → String → Served
from_bucket none next key = next
from_bucket (some r) next key = record { reply = ok r; keys = key ∷ []; fetched = [] }

-- `fetch` of a path that was parsed
unfoldable pub serve : CdnServices → CdnRequest → CdnPath → Served
unfolding get_r2 from_sources is_bucket_key key_of
serve env request path =
    let key = key_of path in
    if is_bucket_key key
    then from_bucket (get_r2 env.artifacts request key)
        (from_sources env path request.method (key ∷ [])) key
    else from_sources env path request.method []

-- `json` of the health check, whose text has 33 bytes
unfoldable pub healthy : String → Response
unfolding set_all
healthy method = record {
  status = 200;
  headers =
      set_all
        (("content-type", "application/json; charset=utf-8")
          ∷ ("cache-control", "no-store")
          ∷ (if method === "HEAD" then ("content-length", "33") ∷ [] else []))
        security_headers;
  body =
      if method === "HEAD"
      then empty
      else value (obj (field "ok" (bool true) (field "service" (str "zpkg-cdn") end)));
}

unfoldable pub serve_path : CdnServices → CdnRequest → Served
unfolding requested serve healthy cdn_problem
serve_path env request =
    if request.pathname === "/" || request.pathname === "/healthz"
    then local_reply (healthy request.method)
    else if request.pathname === "/.well-known/zpkg-mirrors.json"
    then local_reply (env.bootstrap request.method)
    else elim (requested request.pathname) [
      | none ↦ local_reply (cdn_problem 404 "not_found" "no such public object" [])
      | some path ↦ serve env request path
    ]

-- `fetch`
unfoldable pub cdn_fetch : CdnServices → CdnRequest → Served
unfolding serve_path cdn_problem
cdn_fetch env request =
    if request.method === "OPTIONS"
    then local_reply (record { status = 204; headers = security_headers; body = empty })
    else if not (request.method === "GET") && not (request.method === "HEAD")
    then local_reply (
        cdn_problem 405 "method_not_allowed" "this mirror is read-only"
          (("allow", "GET, HEAD, OPTIONS") ∷ []))
    else serve_path env request
