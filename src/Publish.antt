-- ===== src/Publish.antt =====
-- workers/shared/edge-publish.js: the keys of the bucket, the declared metadata and its checks, and
-- the document that consumers read.
pub mod Upload
pub mod Bucket
pub mod Claim
pub mod Admission
pub mod Formats
pub mod Keys
pub mod Document
pub mod Listing
use zed_infra.Base.{
  strip_slashes, ℕ, ◌*◌, String, code, Bool, true, false, not, ◌&&◌, ◌||◌, Option, none, some, List,
  [], ◌∷◌, leb, ◌==◌, ◌===◌, ◌⧺◌, size, every, is_digit, is_lower_alnum, is_alnum, one_of, matches,
  Result, ok, reject_if, require, ◌>>=◌, ◌>>◌, if◌then◌else◌,
}
use zed_infra.Http.{to_lower}
use zed_infra.Json.{
  Json, str, int, null, undefined, get, is_str, as_str, as_arr, checked, or_else, arr, obj,
}
use zed_infra.Visibility.{permits_public_visibility}

abbrev pub max_publish_artifact_bytes : ℕ
max_publish_artifact_bytes = 32 * 1024 * 1024

abbrev pub max_publish_meta_bytes : ℕ
max_publish_meta_bytes = 1024 * 1024

-- A refusal: the status and the `error` of its body. The `detail` is left out.
pub record Problem : Type 0 where
  pub status : ℕ
  pub error : String

abbrev pub problem : ℕ → String → Problem
problem status error = record { status = status; error = error }

nonempty_run : (ℕ → Bool) → (ℕ → Bool) → String → Bool
unfolding every
nonempty_run first rest String.[] = false
nonempty_run first rest (String.◌∷◌ c s) = first (code c) && every rest s

-- `/^[a-z0-9][a-z0-9-]*$/`
unfoldable pub org_name : String → Bool
unfolding nonempty_run is_lower_alnum
org_name = nonempty_run is_lower_alnum (λ c. is_lower_alnum c || c == b'-')

-- `/^[0-9A-Za-z][0-9A-Za-z.+-]{0,127}$/`
unfoldable pub version_form : String → Bool
unfolding matches is_alnum one_of
version_form = matches is_alnum (λ c. is_alnum c || one_of ".+-" c) 0 127

-- `/^[a-f0-9]{64}$/`
unfoldable pub sha256_form : String → Bool
unfolding size every is_digit
sha256_form s = (size s == 64) && every (λ c. is_digit c || (leb b'a' c && leb c b'f')) s

-- `ARTIFACT_EXTENSIONS[f] ?? null`, printed in a template. The table inherits from
-- `Object.prototype`, whose members with names in lower case are found in it too.
unfoldable pub extension_of : String → Option String
extension_of f =
    if f === "tar.gz" || f === "targz" || f === "tgz" || f === "gzip"
    then some "tar.gz"
    else if f === "zip"
    then some "zip"
    else if f === "constructor"
    then some "function Object() { [native code] }"
    else if f === "__proto__"
    then some "[object Object]"
    else none

unfoldable pub artifact_extension : Json → Option String
unfolding extension_of to_lower
artifact_extension undefined = some "tar.gz"
artifact_extension null = some "tar.gz"
artifact_extension (str f) = if f === "" then some "tar.gz" else extension_of (to_lower f)
artifact_extension v = none

unfoldable pub artifact_key : String → Json → Option String
artifact_key sha256 format = elim (artifact_extension format) [
  | none ↦ none
  | some extension ↦
      if sha256_form sha256 then some ("artifacts/" ⧺ sha256 ⧺ "." ⧺ extension) else none
]

unfoldable pub version_metadata_key : String → String → String → Option String
version_metadata_key org name version =
    if org_name org && org_name name && version_form version
    then some ("metadata/" ⧺ org ⧺ "/" ⧺ name ⧺ "/versions/" ⧺ version ⧺ ".json")
    else none

unfoldable pub package_index_key : String → String → Option String
package_index_key org name =
    if org_name org && org_name name
    then some ("metadata/" ⧺ org ⧺ "/" ⧺ name ⧺ "/index.json")
    else none

pub record Route : Type 0 where
  pub org : String
  pub name : String
  pub version : String

pub names_route : Json → Route → Bool
names_route pkg route =
    is_str route.org (get "org" pkg)
    && is_str route.name (get "name" pkg)
    && is_str route.version (get "version" pkg)

-- `typeof v === "object" && v`, of an array too
abbrev is_object : Json → Bool
is_object v = elim v [ arr vs ↦ true | obj fs ↦ true | _ ↦ false ]

is_some_extension : Option String → Bool
is_some_extension none = false
is_some_extension (some e) = true

-- `!Number.isInteger(v) || v < 0` fails
is_byte_count : Json → Bool
is_byte_count (int n) = true
is_byte_count v = false

-- `null` is `ok`: every problem of the metadata, in the order of its tests
unfoldable pub validate_publish_meta : Json → Route → Result Problem (Unit {0})
unfolding names_route is_some_extension is_byte_count
validate_publish_meta meta route = do
  let pkg = get "package" (get "manifest" meta)
  reject_if (not (is_object meta)) (problem 400 "invalid_publish_meta")
  reject_if (not (is_object pkg)) (problem 400 "invalid_publish_meta")
  reject_if (not (names_route pkg route)) (problem 422 "publish_identity_mismatch")
  reject_if (not (permits_public_visibility meta) || not (permits_public_visibility pkg))
      (problem 422 "edge_publication_requires_public_visibility")
  sha256 ← require (checked sha256_form (get "sha256" meta)) (problem 422 "invalid_publish_meta")
  reject_if (not (is_byte_count (get "size" meta))) (problem 422 "invalid_publish_meta")
  tag ←
      require (checked (λ s. not (s === "")) (get "vcs_tag" meta))
        (problem 422 "invalid_publish_meta")
  reject_if (not (is_some_extension (artifact_extension (get "format" meta))))
      (problem 422 "invalid_publish_meta")
  ok tt

pub record PackageFacts : Type 0 where
  pub repo_url : String
  pub vcs : String
  pub description : Option String

pub record VersionMetadata : Type 0 where
  pub org : String
  pub name : String
  pub version : String
  pub sha256 : String
  pub bytes : ℕ
  pub format : Json
  pub vcs_tag : Json
  pub download_url : String
  pub published_at : String
  pub yanked : Bool
  pub vcs_commit : Option String
  pub facts : Option PackageFacts
  pub mirrors : Option (List Json)
  pub signatures : Option (List Json)

nonempty_text : Json → Option String
nonempty_text v = checked (λ s. not (s === "")) v

nonempty_list : Option (List Json) → Option (List Json)
nonempty_list none = none
nonempty_list (some []) = none
nonempty_list (some (v ∷ vs)) = some (v ∷ vs)

abbrev pub text_or : String → Json → String
text_or d v = elim (as_str v) [ none ↦ d | some s ↦ s ]

-- `meta.manifest?.package`, where it names a repository with a URL
package_facts : Json → Option PackageFacts
package_facts pkg = elim (as_str (get "url" (get "repository" pkg))) [
  | none ↦ none
  | some url ↦ some (record {
    repo_url = url;
    vcs = text_or "git" (get "vcs" (get "repository" pkg));
    description = as_str (get "description" pkg);
  })
]

abbrev template_text : Option String → String
template_text none = "null"
template_text (some s) = s

unfoldable pub build_version_metadata :
    Route → Json → String → ℕ → String → String → VersionMetadata
unfolding nonempty_text nonempty_list package_facts strip_slashes
build_version_metadata route meta sha256 bytes cdn_base published_at = record {
  org = route.org;
  name = route.name;
  version = route.version;
  sha256 = sha256;
  bytes = bytes;
  format = or_else (get "format" meta) (str "tar.gz");
  vcs_tag = get "vcs_tag" meta;
  download_url =
      strip_slashes cdn_base
      ⧺ "/artifacts/"
      ⧺ sha256
      ⧺ "."
      ⧺ template_text (artifact_extension (get "format" meta));
  published_at = published_at;
  yanked = false;
  vcs_commit = nonempty_text (get "vcs_commit" meta);
  facts = package_facts (get "package" (get "manifest" meta));
  mirrors = nonempty_list (as_arr (get "mirrors" meta));
  signatures = nonempty_list (as_arr (get "signatures" meta));
}
