-- ===== src/Registry/Sidecar.antt =====
-- workers/registry-proxy/src/index.js: `versionFromGithubSidecar`, which answers with the metadata file
-- of a GitHub release, and `validateSidecar` with the downloads that it allows.
pub mod Trusted
mod Validated
use zed_infra.Base.{
  ℕ, suc, ◌*◌, String, Bool, true, false, not, ◌&&◌, ◌||◌, Option, none, some, List, [], ◌∷◌, ◌++◌,
  any, ltb, ◌===◌, ◌⧺◌, length, strip_prefix, Result, ok, err, reject_if, require, ◌>>=◌, ◌>>◌,
  if◌then◌else◌,
}
use zed_infra.Http.{to_lower, is_json_type, ended}
use zed_infra.Json.{
  Json, Items, undefined, null, bool, int, neg, frac, str, arr, obj, nil, item, get, is_str,
  exactly_str, as_str, as_nat, truthy, or_else, is_object_like,
}
use zed_infra.Capability.{Url}
use zed_infra.Publish.{sha256_form}
use zed_infra.Origin.{header_get}
use zed_infra.Cdn.{download_url, git_tags_for_version, release_names}
use zed_infra.Cdn.Mirror.{
  Upstream, is_ok, Web, Followed, bad_location, decimal_text, secure_url,
  is_allowed_github_artifact_url, fetch_with_validated_redirects,
}

abbrev pub max_github_json_bytes : ℕ
max_github_json_bytes = 1024 * 1024

-- The code returns null, or an error is thrown.
pub data SidecarFault : Type 0 where
  no_sidecar thrown : SidecarFault

-- an element that an array prints as the empty text
abbrev pub is_blank : Json → Bool
is_blank undefined = true
is_blank null = true
is_blank v = false

unfoldable mutual
  unfolding decimal_text

  -- `String(v)`; a number that is no safe integer prints in a form that no test here accepts
  pub to_text : Json → String
  to_text undefined = "undefined"
  to_text null = "null"
  to_text (bool b) = if b then "true" else "false"
  to_text (int n) = decimal_text n
  to_text (neg n) = "-" ⧺ decimal_text (suc n)
  to_text (frac s) = s
  to_text (str s) = s
  to_text (arr vs) = joined_texts vs
  to_text (obj fs) = "[object Object]"

  pub joined_texts : Items → String
  joined_texts nil = ""
  joined_texts (item v nil) = if is_blank v then "" else to_text v
  joined_texts (item v (item w vs)) =
      (if is_blank v then "" else to_text v) ⧺ "," ⧺ joined_texts (item w vs)

-- the digest that `SHA256.test(v || "")` accepts
unfoldable pub digest_of : Json → Option String
unfolding to_text truthy
digest_of v = let d = to_text v in if truthy v && sha256_form d then some d else none

-- the names of the files that a sidecar may point at
unfoldable pub download_names : String → String → String → String → List String
download_names org name version sha256 =
    release_names org name version ".tar.gz"
    ++ release_names org name version ".zip"
    ++ (("zpkg-" ⧺ sha256 ⧺ ".tar.gz") ∷ ("zpkg-" ⧺ sha256 ⧺ ".zip") ∷ [])

abbrev pub release_path : String → String → String → String → String
release_path owner repo tag asset =
    "/" ⧺ owner ⧺ "/" ⧺ repo ⧺ "/releases/download/" ⧺ tag ⧺ "/" ⧺ asset

-- `isExpectedGithubDownload` of a URL that parses
unfoldable pub is_expected_github_download : Url → String → String → String → String → Bool
is_expected_github_download url owner repo tag asset =
    url.protocol === "https:"
    && url.hostname === "github.com"
    && url.pathname === release_path owner repo tag asset

-- `isAllowedPublishedDownload` of a URL that parses
unfoldable pub is_published_url : Url → String → String → String → String → Bool
unfolding secure_url is_expected_github_download download_names git_tags_for_version
is_published_url url sha256 org name version =
    secure_url url
    && (if url.hostname === "cdn.zpkg.net"
        then url.pathname === "/artifacts/" ⧺ sha256 ⧺ ".tar.gz"
          || url.pathname === "/artifacts/" ⧺ sha256 ⧺ ".zip"
        else url.hostname === "github.com"
          && any
              (λ tag.
                any (is_expected_github_download url org name tag)
                  (download_names org name version sha256))
              (git_tags_for_version version))

unfoldable pub is_allowed_published_download :
    (String → Option Url) → String → String → String → String → String → Bool
unfolding is_published_url
is_allowed_published_download parse_url raw sha256 org name version = elim (parse_url raw) [
  | none ↦ false
  | some url ↦ is_published_url url sha256 org name version
]

-- `v || d`
abbrev pub or_default : Json → Json → Json
or_default v d = if truthy v then v else d

-- The document that is answered. Its mirror is the download.
pub record Sidecar : Type 0 where
  pub org : String
  pub name : String
  pub version : String
  pub sha256 : Json
  pub size : ℕ
  pub format : String
  pub vcs_tag : Json
  pub vcs_commit : Json
  pub download_url : String
  pub published_at : Json
  pub yanked : Bool
  pub mirror_kind : String

is_below : Option String → Bool
is_below none = false
is_below (some rest) = true

-- `validateSidecar`; `startsWith` of a download URL that is no string throws
unfoldable pub validate_sidecar :
    (String → Option Url) → Json → String → String → String → Result SidecarFault Sidecar
unfolding is_object_like get is_str exactly_str digest_of as_nat to_text
    is_allowed_published_download as_str truthy strip_prefix is_below
validate_sidecar parse_url metadata org name version = do
  reject_if (not (is_object_like metadata)) no_sidecar
  same_org ← require (exactly_str org (get "org" metadata)) no_sidecar
  same_name ← require (exactly_str name (get "name" metadata)) no_sidecar
  same_version ← require (exactly_str version (get "version" metadata)) no_sidecar
  digest ← require (digest_of (get "sha256" metadata)) no_sidecar
  size ← require (as_nat (get "size" metadata)) no_sidecar
  reject_if
      (not (
        is_allowed_published_download parse_url (to_text (get "download_url" metadata)) digest org
          name version))
      no_sidecar
  url ← require (as_str (get "download_url" metadata)) thrown
  ok (record {
    org = same_org;
    name = same_name;
    version = same_version;
    sha256 = get "sha256" metadata;
    size = size;
    format = if is_str "zip" (get "format" metadata) then "zip" else "tar.gz";
    vcs_tag = or_default (get "vcs_tag" metadata) (str ("v" ⧺ version));
    vcs_commit = or_default (get "vcs_commit" metadata) null;
    download_url = url;
    published_at = or_default (get "published_at" metadata) (str "1970-01-01T00:00:00Z");
    yanked = truthy (get "yanked" metadata);
    mirror_kind =
        if is_below (strip_prefix "https://cdn.zpkg.net/" url)
        then "object-store"
        else "github-release";
  })

-- `cdn` fetches from the CDN binding, or where there is none from the network, and is none where that
-- throws or times out. `exceeds` says whether a text is a number above a bound.
pub record SidecarRuntime : Type 0 where
  pub cdn : String → Option Upstream
  pub web : Web
  pub parse_url : String → Option Url
  pub encode_component : String → String
  pub exceeds : String → ℕ → Bool
  pub decode : List ℕ → String
  pub parse_json : String → Option Json

abbrev pub header_or : String → Option String → String
header_or d none = d
header_or d (some s) = if s === "" then d else s

unfoldable pub is_sidecar_type : String → Bool
unfolding is_json_type ended strip_prefix to_lower
is_sidecar_type s = is_json_type s || ended (strip_prefix "application/octet-stream" (to_lower s))

-- `readBoundedSidecarJson`
unfoldable pub read_bounded_sidecar_json : SidecarRuntime → Upstream → Result SidecarFault Json
unfolding is_sidecar_type header_get
read_bounded_sidecar_json rt r = do
  reject_if (not (is_sidecar_type (header_or "" (header_get "content-type" r.headers)))) no_sidecar
  reject_if
      (rt.exceeds (header_or "0" (header_get "content-length" r.headers)) max_github_json_bytes)
      no_sidecar
  reject_if (ltb max_github_json_bytes (length r.body)) no_sidecar
  require (rt.parse_json (rt.decode r.body)) no_sidecar

unfoldable pub cdn_release_sidecar_url : SidecarRuntime → String → String → String → String → String
cdn_release_sidecar_url rt owner repo tag sidecar =
    "https://cdn.zpkg.net/github/"
    ⧺ rt.encode_component owner
    ⧺ "/"
    ⧺ rt.encode_component repo
    ⧺ "/"
    ⧺ rt.encode_component tag
    ⧺ "/"
    ⧺ rt.encode_component sidecar

-- `fetchGithubReleaseSidecar`: the loop is that of `fetchWithValidatedRedirects`, and
-- `isAllowedGithubReleaseRedirect` is `isAllowedGithubArtifactUrl`.
unfoldable pub fetch_github_release_sidecar :
    SidecarRuntime → String → Result SidecarFault (Option Upstream)
unfolding fetch_with_validated_redirects is_allowed_github_artifact_url
fetch_github_release_sidecar rt url =
    let run =
      fetch_with_validated_redirects rt.web (is_allowed_github_artifact_url rt.parse_url) url in
    elim run.answer [ err e ↦ err thrown | ok r ↦ ok r ]

-- the next candidate, where this one gives null
unfoldable pub or_try {ℓ} :
    {A : Type ℓ} → Result SidecarFault A → Result SidecarFault A → Result SidecarFault A
or_try (err no_sidecar) next = next
or_try this next = this

module _ (rt : SidecarRuntime) (org name version : String) where
  -- the answer of a candidate
  unfoldable pub attempt : Option Upstream → Result SidecarFault Sidecar
  unfolding read_bounded_sidecar_json validate_sidecar
  attempt response = do
    r ← require response no_sidecar
    reject_if (not (is_ok r)) no_sidecar
    metadata ← read_bounded_sidecar_json rt r
    validate_sidecar rt.parse_url metadata org name version

  -- the two candidates for a file of a release
  unfoldable pub from_either : String → String → Result SidecarFault Sidecar
  unfolding or_try attempt cdn_release_sidecar_url fetch_github_release_sidecar
  from_either tag sidecar =
      or_try (attempt (rt.cdn (cdn_release_sidecar_url rt org name tag sidecar))) (do
        response ← fetch_github_release_sidecar rt (download_url org name tag sidecar)
        attempt response)

  unfoldable pub first_sidecar : String → List String → Result SidecarFault Sidecar
  unfolding or_try from_either
  first_sidecar tag [] = err no_sidecar
  first_sidecar tag (sidecar ∷ sidecars) =
      or_try (from_either tag sidecar) (first_sidecar tag sidecars)

  unfoldable pub first_tag : List String → Result SidecarFault Sidecar
  unfolding or_try first_sidecar
  first_tag [] = err no_sidecar
  first_tag (tag ∷ tags) =
      or_try (first_sidecar tag (release_names org name version ".json")) (first_tag tags)

  -- `versionFromGithubSidecar`
  unfoldable pub version_from_github_sidecar : Result SidecarFault Sidecar
  unfolding first_tag git_tags_for_version
  version_from_github_sidecar = first_tag (git_tags_for_version version)
