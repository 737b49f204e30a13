-- ===== src/Tests/Documents.antt =====
-- A public document in the bucket, and a listing of one version.
use zed_infra.Base.{
  String, true, false, Option, none, some, [], ◌∷◌, ◌≡◌, refl, ok, ◌>>=◌, ◌>>◌, reject_if, every,
  is_lower_alnum, member, strip_prefix,
}
use zed_infra.Json.{
  Json, undefined, int, str, obj, end, field, get, is_record, is_str, is_undefined, keys, as_nat,
  as_str, checked,
}
use zed_infra.Visibility.{permits_public_visibility, require_public_object}
use zed_infra.Publish.{org_name, package_index_key}
use zed_infra.Publish.Document.{
  R2Object, ReadRuntime, read_json_object, object_text, read_text, counted, disclosed,
}
use zed_infra.Publish.Document.Readable.{IsPublicDocument, read_json_object-IsPublicDocument}
use zed_infra.Publish.Listing.{
  Listed, Page, PackageMetadata, require_public_objects, take_page, list_objects, ends_in_json,
  newest_first, insert_newest, version_of, without_json, package_listing, r2_package_metadata,
}
use zed_infra.Publish.Listing.Derived.{IsDerived, r2_package_metadata-IsDerived}

abbrev document : Json
document = obj (field "org" (str "acme") end)

abbrev reader : ReadRuntime
reader = record { utf8 = λ bytes. some "document"; parse_json = λ text. some document }

abbrev object : R2Object
object = record {
  custom_metadata = obj (field "visibility" (str "public") end);
  size = int 3;
  body = some (record { chunks = (1 ∷ 2 ∷ []) ∷ (3 ∷ []) ∷ []; fails = false });
}

sample_document : read_json_object reader (some object) ≡ ok (some document)
unfolding read_json_object object_text read_text counted disclosed require_public_object
    permits_public_visibility is_record is_str is_undefined keys member get as_nat ◌>>=◌ ◌>>◌
    reject_if
sample_document = refl

read_json_object-IsPublicDocument_example :
    (found : R2Object) × (some object ≡ some found) × IsPublicDocument reader found document
read_json_object-IsPublicDocument_example =
    read_json_object-IsPublicDocument reader (some object) sample_document

abbrev older : Listed
older = record {
  key = "metadata/acme/tools/versions/1.0.0.json";
  uploaded = 10;
  custom_metadata = undefined;
}

abbrev newer : Listed
newer = record {
  key = "metadata/acme/tools/versions/1.1.0.json";
  uploaded = 20;
  custom_metadata = undefined;
}

-- two pages, with the newer version on the second
abbrev pages : String → Option String → Option Page
pages prefix none = some (record { objects = older ∷ []; truncated = true; cursor = str "next" })
pages prefix (some cursor) =
    some (record { objects = newer ∷ []; truncated = false; cursor = undefined })

abbrev listing : PackageMetadata
listing = record {
  org = "acme";
  name = "tools";
  vcs = "git";
  repo_url = "";
  latest = "1.1.0";
  versions = "1.1.0" ∷ "1.0.0" ∷ [];
  description = none;
}

sample_listing :
    r2_package_metadata reader pages (λ key. some object) "acme" "tools" ≡ ok (some listing)
unfolding r2_package_metadata package_index_key org_name every is_lower_alnum list_objects take_page
    require_public_objects checked member ends_in_json newest_first insert_newest package_listing
    version_of without_json strip_prefix read_json_object object_text read_text counted disclosed
    require_public_object permits_public_visibility is_record is_str is_undefined keys get as_nat
    as_str ◌>>=◌ ◌>>◌ reject_if
sample_listing = refl

r2_package_metadata-IsDerived_example :
    IsDerived reader pages (λ key. some object) "acme" "tools" listing
r2_package_metadata-IsDerived_example =
    r2_package_metadata-IsDerived reader pages (λ key. some object) "acme" "tools" sample_listing
