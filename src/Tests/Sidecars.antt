-- ===== src/Tests/Sidecars.antt =====
-- A sidecar that the CDN has.
use zed_infra.Base.{
  String, false, none, some, [], ◌∷◌, ◌≡◌, refl, ok, ◌>>=◌, ◌>>◌, reject_if, require, ◌⧺◌, size,
  every, split, strip_prefix,
}
use zed_infra.Http.{trim, trim_start, trim_end, to_lower, is_json_type, ended}
use zed_infra.Json.{
  Json, int, str, null, obj, field, end, get, is_str, as_str, as_nat, truthy, is_object_like,
}
use zed_infra.Publish.{sha256_form}
use zed_infra.Origin.{header_get}
use zed_infra.Cdn.{git_tags_for_version}
use zed_infra.Cdn.Mirror.{secure_url}
use zed_infra.Registry.Sidecar.{
  Sidecar, SidecarRuntime, to_text, digest_of, is_published_url, is_allowed_published_download,
  validate_sidecar, is_sidecar_type, read_bounded_sidecar_json, or_try, attempt, from_either,
  first_sidecar, first_tag, version_from_github_sidecar,
}
use zed_infra.Registry.Sidecar.Trusted.{IsTrusted, version_from_github_sidecar-IsTrusted}

abbrev digest : String
digest = "0123456789abcdef0123456789abcdef0123456789abcdef0123456789abcdef"

abbrev artifact_url : String
artifact_url = "https://cdn.zpkg.net/artifacts/" ⧺ digest ⧺ ".tar.gz"

abbrev sidecar_file : Json
sidecar_file = obj (
    field "org" (str "acme") (
      field "name" (str "tools") (
        field "version" (str "1.0.0") (
          field "sha256" (str digest)
            (field "size" (int 3) (field "download_url" (str artifact_url) end))))))

abbrev sidecar_runtime : SidecarRuntime
sidecar_runtime = record {
  cdn = λ url. some (record {
    status = 200;
    headers = ("content-type", "application/octet-stream") ∷ [];
    body = 1 ∷ [];
  });
  web = record { fetch = λ url. none; resolve = λ location base. none };
  parse_url = λ s. some (record {
    href = s;
    protocol = "https:";
    username = "";
    password = "";
    hostname = "cdn.zpkg.net";
    port = "";
    pathname = "/artifacts/" ⧺ digest ⧺ ".tar.gz";
    search = "";
    hash = "";
    origin = "https://cdn.zpkg.net";
  });
  encode_component = λ s. s;
  exceeds = λ text n. false;
  decode = λ bytes. "file";
  parse_json = λ text. some sidecar_file;
}

abbrev answered_sidecar : Sidecar
answered_sidecar = record {
  org = "acme";
  name = "tools";
  version = "1.0.0";
  sha256 = str digest;
  size = 3;
  format = "tar.gz";
  vcs_tag = str "v1.0.0";
  vcs_commit = null;
  download_url = artifact_url;
  published_at = str "1970-01-01T00:00:00Z";
  yanked = false;
  mirror_kind = "object-store";
}

sample_sidecar :
    version_from_github_sidecar sidecar_runtime "acme" "tools" "1.0.0" ≡ ok answered_sidecar
unfolding version_from_github_sidecar first_tag first_sidecar from_either attempt or_try
    git_tags_for_version trim trim_start trim_end read_bounded_sidecar_json is_sidecar_type
    is_json_type ended to_lower header_get validate_sidecar is_object_like get is_str digest_of
    to_text truthy as_nat as_str is_allowed_published_download is_published_url secure_url
    strip_prefix every size split ◌>>=◌ ◌>>◌ reject_if require sha256_form
sample_sidecar = refl

version_from_github_sidecar-IsTrusted_example :
    IsTrusted sidecar_runtime "acme" "tools" "1.0.0" answered_sidecar
version_from_github_sidecar-IsTrusted_example =
    version_from_github_sidecar-IsTrusted sidecar_runtime "acme" "tools" "1.0.0" sample_sidecar
