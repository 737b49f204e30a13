-- ===== src/Publish/Document.antt =====
-- edge-publish.js: what is read back from the bucket. `readJsonObject` reads one document, and
-- `r2VersionMetadata` the document of a version.
pub mod Readable
pub mod ReadBack
use zed_infra.Base.{
  ℕ, ◌+◌, String, Bool, true, false, not, ◌&&◌, ◌||◌, Option, none, some, List, [], ◌∷◌, ◌++◌, ltb,
  leb, ◌==◌, length, Result, ok, err, reject_if, ◌>>=◌, ◌>>◌, if◌then◌else◌,
}
use zed_infra.Json.{
  Json, Items, Fields, nil, item, end, field, obj, arr, str, int, bool, get, as_nat, is_undefined,
}
use zed_infra.Visibility.{
  NonPublic, non_public_object, permits_public_visibility, require_public_object,
}
use zed_infra.Publish.{
  Route, VersionMetadata, PackageFacts, max_publish_meta_bytes, version_metadata_key,
}

-- An object that the bucket answers with: `size` is any value, and the body arrives in chunks, or
-- fails after some.
pub record BodyStream : Type 0 where
  pub chunks : List (List ℕ)
  pub fails : Bool

pub record R2Object : Type 0 where
  pub custom_metadata : Json
  pub size : Json
  pub body : Option BodyStream

-- `TextDecoder` with `fatal`, of a whole text in chunks, and `JSON.parse`: none where they throw.
pub record ReadRuntime : Type 0 where
  pub utf8 : List ℕ → Option String
  pub parse_json : String → Option Json

abbrev pub concat : List (List ℕ) → List ℕ
concat [] = []
concat (c ∷ cs) = c ++ concat cs

-- the bytes counted so far, up to the chunk that is too much
unfoldable pub counted : ℕ → ℕ → List (List ℕ) → Option ℕ
counted size bytes [] = some bytes
counted size bytes (c ∷ cs) =
    let rest = counted size (bytes + length c) cs in
    if ltb max_publish_meta_bytes (bytes + length c) || ltb size (bytes + length c)
    then none
    else rest

exactly : ℕ → Option ℕ → Bool
exactly size none = false
exactly size (some bytes) = bytes == size

unfoldable pub read_text : (List ℕ → Option String) → ℕ → BodyStream → Option String
unfolding counted exactly
read_text utf8 size stream =
    if exactly size (counted size 0 stream.chunks) && not stream.fails
    then utf8 (concat stream.chunks)
    else none

-- the text of an object whose size is within the limit
unfoldable pub object_text : (List ℕ → Option String) → R2Object → Option String
unfolding as_nat
object_text utf8 object = elim (as_nat object.size) [
  | none ↦ none
  | some size ↦ elim object.body [
    | none ↦ none
    | some stream ↦ if leb size max_publish_meta_bytes then read_text utf8 size stream else none
  ]
]

parsed : (String → Option Json) → Option String → Option Json
parsed parse none = none
parsed parse (some text) = parse text

-- the last test of `readJsonObject`
unfoldable pub disclosed : Option Json → Result NonPublic (Option Json)
unfolding permits_public_visibility is_undefined get
disclosed none = ok none
disclosed (some v) = do
  reject_if
      (not (permits_public_visibility v)
        || (not (is_undefined (get "package" v))
            && not (permits_public_visibility (get "package" v))))
      non_public_object
  ok (some v)

-- `readJsonObject`, for what `get` answers: none for a missing object and where `get` throws
unfoldable pub read_json_object : ReadRuntime → Option R2Object → Result NonPublic (Option Json)
unfolding parsed
read_json_object rt none = ok none
read_json_object rt (some object) = do
  require_public_object object.custom_metadata
  disclosed (parsed rt.parse_json (object_text rt.utf8 object))

-- `r2VersionMetadata`, for the bucket's `get`, where the binding is there
unfoldable pub r2_version_metadata :
    ReadRuntime → Option (String → Option R2Object) → Route → Result NonPublic (Option Json)
r2_version_metadata rt none route = ok none
r2_version_metadata rt (some get_object) route =
    elim (version_metadata_key route.org route.name route.version) [
      | none ↦ ok none
      | some key ↦ read_json_object rt (get_object key)
    ]

abbrev pub text_field : String → Option String → Fields → Fields
text_field k none fs = fs
text_field k (some s) fs = field k (str s) fs

abbrev pub items_of : List Json → Items
items_of [] = nil
items_of (v ∷ vs) = item v (items_of vs)

abbrev pub list_field : String → Option (List Json) → Fields → Fields
list_field k none fs = fs
list_field k (some vs) fs = field k (arr (items_of vs)) fs

abbrev pub facts_json : PackageFacts → Json
facts_json facts = obj (
    field "repo_url" (str facts.repo_url)
      (field "vcs" (str facts.vcs) (text_field "description" facts.description end)))

abbrev pub facts_field : Option PackageFacts → Fields → Fields
facts_field none fs = fs
facts_field (some facts) fs = field "package" (facts_json facts) fs

-- The object that `buildVersionMetadata` answers, with its properties in their order.
unfoldable pub to_json : VersionMetadata → Json
to_json m = obj (
    field "org" (str m.org) (
      field "name" (str m.name) (
        field "version" (str m.version) (
          field "sha256" (str m.sha256) (
            field "size" (int m.bytes) (
              field "format" m.format (
                field "vcs_tag" m.vcs_tag (
                  field "download_url" (str m.download_url) (
                    field "published_at" (str m.published_at) (
                      field "yanked" (bool m.yanked) (
                        text_field "vcs_commit" m.vcs_commit (
                          facts_field m.facts (
                            list_field "mirrors" m.mirrors
                              (list_field "signatures" m.signatures end))))))))))))))
