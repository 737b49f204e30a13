-- ===== src/Registry/Release.antt =====
-- workers/registry-proxy/src/index.js: `githubPublicFallback` for a version, with `publicGithubRepo` and
-- `versionFromGithub`, which read GitHub's REST API where a release has no sidecar.
pub mod Proven
mod Chosen
use zed_infra.Base.{
  ℕ, String, Bool, true, false, not, ◌&&◌, ◌||◌, Option, none, some, List, [], ◌∷◌, ltb, ◌==◌,
  ◌===◌, ◌⧺◌, length, member, strip_prefix, Result, ok, err, reject_if, require, ◌>>=◌, ◌>>◌,
  if◌then◌else◌,
}
use zed_infra.Http.{to_lower, is_json_type}
use zed_infra.Json.{
  Json, Integer, undefined, null, bool, int, str, get, is_str, as_str, as_arr, as_int, truthy,
}
use zed_infra.Publish.{sha256_form}
use zed_infra.Origin.{header_get}
use zed_infra.Cdn.{strip_suffix, git_tags_for_version, release_names}
use zed_infra.Cdn.Mirror.{Upstream, is_ok}
use zed_infra.Registry.Sidecar.{
  SidecarFault, no_sidecar, thrown, to_text, is_expected_github_download, or_default, header_or,
  max_github_json_bytes, SidecarRuntime, Sidecar, or_try, version_from_github_sidecar,
}

-- `fetch` of the API with redirects as errors, and of a file with redirects followed; none where it
-- throws or times out.
pub record ReleaseRuntime : Type 0 where
  pub sidecars : SidecarRuntime
  pub api : String → Option Upstream
  pub file : String → Option Upstream

abbrev pub api_repo_url : String → String → String
api_repo_url owner repo = "https://api.github.com/repos/" ⧺ owner ⧺ "/" ⧺ repo

abbrev pub api_release_url : String → String → String → String
api_release_url owner repo tag = api_repo_url owner repo ⧺ "/releases/tags/" ⧺ tag

-- `readBoundedJson` of a response from the API's host, where the formats of the native registries do
-- not apply
unfoldable pub read_bounded_json : ReleaseRuntime → Upstream → Option Json
unfolding is_json_type header_get
read_bounded_json rt r =
    if r.status == 204
      || rt.sidecars.exceeds (header_or "0" (header_get "content-length" r.headers))
          max_github_json_bytes
      || ltb max_github_json_bytes (length r.body)
      || not (is_json_type (header_or "" (header_get "content-type" r.headers)))
    then none
    else rt.sidecars.parse_json (rt.sidecars.decode r.body)

-- the JSON of an answer that is ok
unfoldable pub api_json : ReleaseRuntime → String → Result SidecarFault Json
unfolding read_bounded_json
api_json rt url = do
  r ← require (rt.api url) thrown
  reject_if (not (is_ok r)) no_sidecar
  require (read_bounded_json rt r) no_sidecar

abbrev pub is_bool : Bool → Json → Bool
is_bool b (bool c) = if b then c else not c
is_bool b v = false

-- `v?.toLowerCase() === s.toLowerCase()`, which throws on another value than a string or none
unfoldable pub same_lower : String → Json → Result SidecarFault Bool
unfolding to_lower
same_lower s (str t) = ok (to_lower t === to_lower s)
same_lower s undefined = ok false
same_lower s null = ok false
same_lower s v = err thrown

-- `publicGithubRepo`
unfoldable pub public_github_repo : ReleaseRuntime → String → String → Result SidecarFault Json
unfolding api_json get is_str same_lower
public_github_repo rt owner name = do
  repo ← api_json rt (api_repo_url owner name)
  reject_if
      (not (is_bool false (get "private" repo)) || not (is_str "public" (get "visibility" repo)))
      no_sidecar
  same_owner ← same_lower owner (get "login" (get "owner" repo))
  reject_if (not same_owner) no_sidecar
  same_name ← same_lower name (get "name" repo)
  reject_if (not same_name) no_sidecar
  ok repo

abbrev pub is_nullish : Json → Bool
is_nullish undefined = true
is_nullish null = true
is_nullish v = false

-- `assets.find(...)` by a test of the name, which throws on an asset that is null
unfoldable pub find_asset : (Json → Bool) → List Json → Result SidecarFault (Option Json)
unfolding get
find_asset test [] = ok none
find_asset test (a ∷ as_) =
    let rest = find_asset test as_ in
    if is_nullish a then err thrown else if test (get "name" a) then ok (some a) else rest

abbrev pub named_among : List String → Json → Bool
named_among names (str s) = member s names
named_among names v = false

-- `digestFromReleaseAssetName`
unfoldable pub digest_from_release_asset_name : String → String → Option String
unfolding strip_prefix strip_suffix
digest_from_release_asset_name name ending = elim (strip_prefix "zpkg-" name) [
  | none ↦ none
  | some rest ↦ elim (strip_suffix ending rest) [
    | none ↦ none
    | some digest ↦ if sha256_form digest then some digest else none
  ]
]

-- the digest in an asset's name, in either format
unfoldable pub addressed_digest : Json → Option String
unfolding digest_from_release_asset_name
addressed_digest (str name) = elim (digest_from_release_asset_name name ".tar.gz") [
  | some digest ↦ some digest
  | none ↦ digest_from_release_asset_name name ".zip"
]
addressed_digest v = none

-- the first asset that is named by its digest, with the digest
unfoldable pub find_addressed : List Json → Option (Json × String)
unfolding addressed_digest get
find_addressed [] = none
find_addressed (a ∷ as_) =
    let rest = find_addressed as_ in
    elim (addressed_digest (get "name" a)) [ none ↦ rest | some digest ↦ some (a, digest) ]

without_prefix : String → Option String → String
without_prefix s none = s
without_prefix s (some rest) = rest

-- `String(artifact?.digest || "").replace(/^sha256:/, "")`
unfoldable pub reported_digest : Json → String
unfolding get truthy to_text strip_prefix without_prefix
reported_digest artifact =
    let v = get "digest" artifact in
    let text = if truthy v then to_text v else "" in
    without_prefix text (strip_prefix "sha256:" text)

-- the artifact of a release with its digest, which must agree with the one that GitHub reports
unfoldable pub chosen : Option Json → List Json → Option (Json × String)
unfolding reported_digest find_addressed
chosen (some named) assets =
    let reported = reported_digest named in
    if sha256_form reported then some (named, reported) else none
chosen none assets = elim (find_addressed assets) [
  | none ↦ none
  | some (a, digest) ↦
      let reported = reported_digest a in
      if reported === "" || reported === digest then some (a, digest) else none
]

-- `isExpectedGithubDownload` of an asset
unfoldable pub is_expected_asset : ReleaseRuntime → String → String → String → Json → Bool
unfolding is_expected_github_download get to_text
is_expected_asset rt owner repo tag asset =
    elim (rt.sidecars.parse_url (to_text (get "browser_download_url" asset))) [
      | none ↦ false
      | some url ↦ is_expected_github_download url owner repo tag (to_text (get "name" asset))
    ]

unfoldable pub safe_integer_or_zero : Json → Json
unfolding as_int
safe_integer_or_zero v = elim (as_int v) [ none ↦ int 0 | some n ↦ v ]

ends : Option String → Bool
ends none = false
ends (some rest) = true

-- The document that is answered. Its organisation, name and version are those asked for, and its
-- mirror is the download.
pub record Release : Type 0 where
  pub sha256 : String
  pub size : Json
  pub format : String
  pub vcs_tag : String
  pub vcs_commit : Json
  pub download_url : Json
  pub published_at : Json

pub data Version : Type 0 where
  from_sidecar : Sidecar → Version
  from_release : Release → Version

module _ (rt : ReleaseRuntime) (org name version : String) where
  -- A sidecar that the release lists is fetched. An answer that is ok meets the test
  -- `isGithubAssetResponse`, which is declared nowhere, so that an error is thrown.
  unfoldable pub listed_sidecar : String → Option Json → Result SidecarFault (Unit {0})
  unfolding is_expected_asset get to_text
  listed_sidecar tag none = ok tt
  listed_sidecar tag (some asset) =
      if not (is_expected_asset rt org name tag asset)
      then ok tt
      else elim (rt.file (to_text (get "browser_download_url" asset))) [
        | none ↦ err thrown
        | some r ↦ if is_ok r then err thrown else ok tt
      ]

  -- a release's artifact
  unfoldable pub from_assets : String → Json → List Json → Result SidecarFault Release
  unfolding find_asset listed_sidecar chosen is_expected_asset get safe_integer_or_zero strip_suffix
      to_text ends
  from_assets tag release assets = do
    sidecar ← find_asset (named_among (release_names org name version ".json")) assets
    listed_sidecar tag sidecar
    named ← find_asset (named_among (release_names org name version ".tar.gz")) assets
    (artifact, digest) ← require (chosen named assets) no_sidecar
    reject_if (not (is_expected_asset rt org name tag artifact)) no_sidecar
    ok (record {
      sha256 = digest;
      size = safe_integer_or_zero (get "size" artifact);
      format =
          if ends (strip_suffix ".zip" (to_text (get "name" artifact))) then "zip" else "tar.gz";
      vcs_tag = tag;
      vcs_commit = or_default (get "target_commitish" release) null;
      download_url = get "browser_download_url" artifact;
      published_at = or_default (get "published_at" release) (str "1970-01-01T00:00:00Z");
    })

  abbrev pub assets_of : Option (List Json) → List Json
  assets_of none = []
  assets_of (some assets) = assets

  unfoldable pub from_tag : String → Result SidecarFault Release
  unfolding api_json truthy get as_arr from_assets
  from_tag tag = do
    release ← api_json rt (api_release_url org name tag)
    reject_if (not (truthy release) || is_bool true (get "draft" release)) no_sidecar
    from_assets tag release (assets_of (as_arr (get "assets" release)))

  unfoldable pub first_release : List String → Result SidecarFault Release
  unfolding from_tag or_try
  first_release [] = err no_sidecar
  first_release (tag ∷ tags) = or_try (from_tag tag) (first_release tags)

  -- `versionFromGithub`
  unfoldable pub version_from_github : Result SidecarFault Release
  unfolding first_release git_tags_for_version
  version_from_github = first_release (git_tags_for_version version)

  -- the repository is asked for first, and must be public
  unfoldable pub if_public : Result SidecarFault Version
  unfolding public_github_repo version_from_github
  if_public = do
    repo ← public_github_repo rt org name
    release ← version_from_github
    ok (from_release release)

  -- `githubPublicFallback` of a version
  unfoldable pub github_version : Result SidecarFault Version
  unfolding version_from_github_sidecar if_public or_try
  github_version =
      or_try
        (do
          sidecar ← version_from_github_sidecar rt.sidecars org name version
          ok (from_sidecar sidecar))
        if_public
