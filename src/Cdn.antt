-- ===== src/Cdn.antt =====
-- workers/cdn-proxy/src/index.js: the keys and paths of the public mirror, with `parseCdnPath` and the
-- builders of GitHub URLs of workers/shared/github-fallback.js.
pub mod Mirror
pub mod Service
use zed_infra.Base.{
  ℕ, String, code, Bool, true, false, not, ◌&&◌, ◌||◌, Option, none, some, List, [], ◌∷◌, ◌++◌, leb,
  ltb, ◌==◌, ◌===◌, ◌⧺◌, size, every, includes, contains, split, strip_prefix, strip_slashes,
  is_alnum, one_of, is_digit, member, if◌then◌else◌,
}
use zed_infra.Http.{trim}
use zed_infra.Publish.{sha256_form, org_name, version_form}
use zed_infra.Route.{is_slug, safe_version}

-- `s.slice(0, -t.length)` where s ends in t
unfoldable pub strip_suffix : String → String → Option String
strip_suffix t String.[] = if t === "" then some "" else none
strip_suffix t (String.◌∷◌ c s) =
    let rest = strip_suffix t s in
    if String.◌∷◌ c s === t
    then some ""
    else (elim rest [ none ↦ none | some w ↦ some (String.◌∷◌ c w) ])

unfoldable pub passes : (String → Bool) → Option String → Bool
passes p none = false
passes p (some s) = p s

-- `ARTIFACT_KEY`
unfoldable pub artifact_segments : List String → Bool
unfolding strip_suffix passes
artifact_segments (a ∷ file ∷ []) =
    a === "artifacts"
    && (passes sha256_form (strip_suffix ".tar.gz" file)
        || passes sha256_form (strip_suffix ".zip" file))
artifact_segments _ = false

unfoldable pub is_artifact_key : String → Bool
unfolding artifact_segments split
is_artifact_key key = artifact_segments (split b'/' key)

-- `METADATA_KEY`
unfoldable pub metadata_segments : List String → Bool
unfolding strip_suffix passes
metadata_segments (m ∷ org ∷ name ∷ file ∷ []) =
    m === "metadata" && org_name org && org_name name && file === "index.json"
metadata_segments (m ∷ org ∷ name ∷ v ∷ file ∷ []) =
    m === "metadata"
    && org_name org
    && org_name name
    && v === "versions"
    && passes version_form (strip_suffix ".json" file)
metadata_segments _ = false

unfoldable pub is_metadata_key : String → Bool
unfolding metadata_segments split
is_metadata_key key = metadata_segments (split b'/' key)

-- `s.replace(/^\/+/, "")`
unfoldable pub strip_leading_slashes : String → String
strip_leading_slashes String.[] = ""
strip_leading_slashes (String.◌∷◌ c s) =
    let rest = strip_leading_slashes s in if code c == b'/' then rest else String.◌∷◌ c s

-- `canonicalCdnKey`
unfoldable pub canonical_cdn_key : String → Option String
unfolding strip_prefix strip_slashes size includes contains
canonical_cdn_key pathname =
    if ltb 513 (size pathname)
      || includes b'%' pathname
      || includes 0x5c pathname
      || includes 0 pathname
    then none
    else elim (strip_prefix "/" pathname) [
      | none ↦ none
      | some rest ↦
          let key = strip_slashes rest in
          if key === "" || contains ".." key || contains "//" key then none else some key
    ]

-- `FILENAME` and `GIT_REF` in `isSafeSegment`
unfoldable pub safe_file : String → Bool
unfolding every is_alnum one_of contains size
safe_file s =
    not (s === "")
    && every (λ c. is_alnum c || one_of "._+-" c) s
    && not (contains ".." s)
    && leb (size s) 128

-- The results of `parseCdnPath`, with their keys, and the handler's own `cdn_metadata`.
pub data CdnPath : Type 0 where
  release_feed : String → String → String → CdnPath
  github_object : String → String → String → String → String → CdnPath
  package_object : String → String → String → String → String → CdnPath
  content_object : String → String → String → CdnPath
  metadata_object : String → CdnPath

unfoldable pub key_of : CdnPath → String
key_of (release_feed owner repo key) = key
key_of (github_object owner repo tag filename key) = key
key_of (package_object org name release filename key) = key
key_of (content_object sha256 extension key) = key
key_of (metadata_object key) = key

-- the text up to the first dot, and what follows it
unfoldable pub at_dot : String → Option (String × String)
at_dot String.[] = none
at_dot (String.◌∷◌ c s) =
    let rest = at_dot s in
    if code c == b'.'
    then some ("", s)
    else (elim rest [ none ↦ none | some (a, b) ↦ some (String.◌∷◌ c a, b) ])

-- `([0-9a-f]{64})\.([A-Za-z0-9.+-]+)`
unfoldable pub content_file : String → String → Option CdnPath
unfolding at_dot every is_alnum one_of safe_file
content_file key file = elim (at_dot file) [
  | none ↦ none
  | some (sha256, extension) ↦
      if sha256_form sha256
        && every (λ c. is_alnum c || one_of ".+-" c) extension
        && safe_file extension
      then some (content_object sha256 extension key)
      else none
]

-- the patterns with their tests, which fit different first segments or numbers of segments
unfoldable pub parse_cdn_segments : String → List String → Option CdnPath
unfolding content_file safe_file
parse_cdn_segments key (a ∷ file ∷ []) = if a === "artifacts" then content_file key file else none
parse_cdn_segments key (g ∷ owner ∷ repo ∷ feed ∷ []) =
    if g === "github" && is_slug owner && is_slug repo && feed === "releases.atom"
    then some (release_feed owner repo key)
    else none
parse_cdn_segments key (g ∷ owner ∷ repo ∷ tag ∷ filename ∷ []) =
    if g === "github"
      && is_slug owner
      && is_slug repo
      && not (tag === "releases.atom")
      && safe_file tag
      && safe_file filename
    then some (github_object owner repo tag filename key)
    else if g === "packages"
        && is_slug owner
        && is_slug repo
        && safe_version tag
        && safe_file filename
    then some (package_object owner repo tag filename key)
    else none
parse_cdn_segments key _ = none

-- With no percent sign `decodeURIComponent` changes nothing.
unfoldable pub parse_cdn_path : String → Option CdnPath
unfolding strip_leading_slashes strip_slashes size includes contains split parse_cdn_segments
parse_cdn_path pathname =
    let path = strip_slashes (strip_leading_slashes pathname) in
    if ltb 2048 (size pathname)
      || includes b'%' pathname
      || path === ""
      || contains ".." path
      || includes 0x5c path
    then none
    else parse_cdn_segments path (split b'/' path)

abbrev pub download_url : String → String → String → String → String
download_url owner repo tag asset =
    "https://github.com/" ⧺ owner ⧺ "/" ⧺ repo ⧺ "/releases/download/" ⧺ tag ⧺ "/" ⧺ asset

begins_with_v : Option String → Bool
begins_with_v none = false
begins_with_v (some rest) = true

-- `gitTagsForVersion`
unfoldable pub git_tags_for_version : String → List String
unfolding trim strip_prefix begins_with_v
git_tags_for_version version =
    let trimmed = trim version in
    if trimmed === ""
    then []
    else if begins_with_v (strip_prefix "v" trimmed)
    then trimmed ∷ []
    else ("v" ⧺ trimmed) ∷ trimmed ∷ []

-- `githubReleaseAssetNames` and `githubReleaseSidecarNames`
abbrev pub release_names : String → String → String → String → List String
release_names org name version ending =
    let long = "zpkg-" ⧺ org ⧺ "-" ⧺ name ⧺ "-" ⧺ version ⧺ ending in
    let short = "zpkg-" ⧺ name ⧺ "-" ⧺ version ⧺ ending in
    if long === short then long ∷ [] else long ∷ short ∷ []

-- `githubReleaseAssetNames`, for the default format
unfoldable pub github_release_asset_names : String → String → String → List String
github_release_asset_names org name version = release_names org name version ".tar.gz"

-- `[...new Set(urls)]`
unfoldable pub unique : List String → List String → List String
unfolding member
unique seen [] = []
unique seen (u ∷ us) = let rest = unique (u ∷ seen) us in if member u seen then rest else u ∷ rest

unfoldable pub tag_urls : String → String → String → List String → List String → List String
tag_urls org name filename assets [] = []
tag_urls org name filename assets (tag ∷ tags) =
    (download_url org name tag filename ∷ asset_urls assets)
    ++ tag_urls org name filename assets tags
  where
    asset_urls : List String → List String
    asset_urls [] = []
    asset_urls (a ∷ as_) = download_url org name tag a ∷ asset_urls as_

-- `githubFallbackUrlsForCdn`
unfoldable pub github_fallback_urls_for_cdn : CdnPath → List String
unfolding unique tag_urls git_tags_for_version github_release_asset_names
github_fallback_urls_for_cdn (release_feed owner repo key) =
    ("https://github.com/" ⧺ owner ⧺ "/" ⧺ repo ⧺ "/releases.atom") ∷ []
github_fallback_urls_for_cdn (github_object owner repo tag filename key) =
    download_url owner repo tag filename ∷ []
github_fallback_urls_for_cdn (package_object org name release filename key) = unique [] (
    tag_urls org name filename (github_release_asset_names org name release)
      (git_tags_for_version release))
github_fallback_urls_for_cdn path = []
