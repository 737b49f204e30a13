-- ===== src/Tests/Releases.antt =====
-- A release on GitHub without a sidecar.
use zed_infra.Base.{
  ℕ, String, List, false, none, some, [], ◌∷◌, ◌≡◌, refl, ok, ◌>>=◌, ◌>>◌, reject_if, require,
  ◌===◌, ◌==◌, ◌⧺◌, size, every, member, strip_prefix, if◌then◌else◌,
}
use zed_infra.Http.{trim, trim_start, trim_end, to_lower, is_json_type, ended}
use zed_infra.Json.{
  Json, int, str, bool, null, arr, obj, nil, item, field, end, get, is_str, as_str, as_arr, as_int,
  truthy, items,
}
use zed_infra.Publish.{sha256_form}
use zed_infra.Origin.{header_get}
use zed_infra.Cdn.{git_tags_for_version, strip_suffix}
use zed_infra.Cdn.Mirror.{
  Upstream, fetch_with_validated_redirects, follow, fetch_step, is_allowed_github_artifact_url,
  secure_url,
}
use zed_infra.Registry.Sidecar.{
  SidecarRuntime, to_text, is_expected_github_download, or_try, attempt, from_either, first_sidecar,
  first_tag, version_from_github_sidecar, fetch_github_release_sidecar,
}
use zed_infra.Registry.Release.{
  ReleaseRuntime, read_bounded_json, api_json, same_lower, public_github_repo, find_asset,
  digest_from_release_asset_name, addressed_digest, find_addressed, reported_digest, chosen,
  is_expected_asset, safe_integer_or_zero, Release, listed_sidecar, from_assets, from_tag,
  first_release, version_from_github, from_release, if_public, github_version,
}
use zed_infra.Registry.Release.Proven.{IsPublic, github_version-IsPublic}

abbrev digest : String
digest = "0123456789abcdef0123456789abcdef0123456789abcdef0123456789abcdef"

abbrev asset_url : String
asset_url = "https://github.com/acme/tools/releases/download/v1.0.0/zpkg-" ⧺ digest ⧺ ".tar.gz"

abbrev repository : Json
repository = obj (
    field "private" (bool false) (
      field "visibility" (str "public")
        (field "name" (str "Tools") (field "owner" (obj (field "login" (str "Acme") end)) end))))

abbrev published_release : Json
published_release = obj (
    field "assets"
      (arr (
        item
          (obj (
            field "name" (str ("zpkg-" ⧺ digest ⧺ ".tar.gz"))
              (field "size" (int 3) (field "browser_download_url" (str asset_url) end))))
          nil))
      end)

abbrev json_answer : ℕ → Upstream
json_answer n = record {
  status = 200;
  headers = ("content-type", "application/json") ∷ [];
  body = n ∷ [];
}

abbrev sidecars : SidecarRuntime
sidecars = record {
  cdn = λ url. none;
  web = record { fetch = λ url. none; resolve = λ location base. none };
  parse_url = λ s. some (record {
    href = s;
    protocol = "https:";
    username = "";
    password = "";
    hostname = "github.com";
    port = "";
    pathname = "/acme/tools/releases/download/v1.0.0/zpkg-" ⧺ digest ⧺ ".tar.gz";
    search = "";
    hash = "";
    origin = "https://github.com";
  });
  encode_component = λ s. s;
  exceeds = λ text n. false;
  decode = first_byte;
  parse_json = λ text. some (if text === "repository" then repository else published_release);
}
  where
    first_byte : List ℕ → String
    first_byte [] = ""
    first_byte (n ∷ ns) = if n == 1 then "repository" else "release"

abbrev release_runtime : ReleaseRuntime
release_runtime = record {
  sidecars = sidecars;
  api = λ url.
      some (json_answer (if url === "https://api.github.com/repos/acme/tools" then 1 else 2));
  file = λ url. none;
}

abbrev answered_release : Release
answered_release = record {
  sha256 = digest;
  size = int 3;
  format = "tar.gz";
  vcs_tag = "v1.0.0";
  vcs_commit = null;
  download_url = str asset_url;
  published_at = str "1970-01-01T00:00:00Z";
}

sample_release :
    github_version release_runtime "acme" "tools" "1.0.0" ≡ ok (from_release answered_release)
unfolding github_version if_public version_from_github first_release from_tag from_assets
    listed_sidecar safe_integer_or_zero is_expected_asset chosen reported_digest find_addressed
    addressed_digest digest_from_release_asset_name find_asset public_github_repo same_lower
    api_json read_bounded_json version_from_github_sidecar first_tag first_sidecar from_either
    attempt or_try fetch_github_release_sidecar fetch_with_validated_redirects follow fetch_step
    is_allowed_github_artifact_url secure_url is_expected_github_download to_text
    git_tags_for_version trim trim_start trim_end to_lower is_json_type ended header_get sha256_form
    get is_str as_str as_arr as_int truthy items strip_prefix strip_suffix member every size ◌>>=◌
    ◌>>◌ reject_if require
sample_release = refl

github_version-IsPublic_example :
    IsPublic release_runtime "acme" "tools" "1.0.0" (from_release answered_release)
github_version-IsPublic_example =
    github_version-IsPublic release_runtime "acme" "tools" "1.0.0" sample_release
