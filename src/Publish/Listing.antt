-- ===== src/Publish/Listing.antt =====
-- edge-publish.js: `r2PackageMetadata`, the listing of a package that is derived from the documents
-- of its versions.

pub mod Paged
pub mod Derived
use zed_infra.Base.{
  ℕ, suc, zero, ◌+◌, String, code, Bool, true, false, not, ◌&&◌, ◌||◌, Option, none, some, List, [],
  ◌∷◌, ◌++◌, ltb, leb, length, ◌===◌, ◌⧺◌, map, filter, member, strip_prefix, Result, ok, err,
  ◌>>=◌, ◌>>◌, if◌then◌else◌,
}
use zed_infra.Json.{Json, get, checked, as_str}
use zed_infra.Visibility.{NonPublic, require_public_object}
use zed_infra.Publish.{text_or, package_index_key}
use zed_infra.Publish.Document.{R2Object, ReadRuntime, read_json_object}

abbrev pub max_metadata_list_pages : ℕ
max_metadata_list_pages = 10

abbrev pub max_metadata_list_objects : ℕ
max_metadata_list_objects = 10000

-- An entry of the bucket's listing; `uploaded` is the time in milliseconds.
pub record Listed : Type 0 where
  pub key : String
  pub uploaded : ℕ
  pub custom_metadata : Json

pub record Page : Type 0 where
  pub objects : List Listed
  pub truncated : Bool
  pub cursor : Json

abbrev pub text_cursor : Json → Option String
text_cursor v = checked (λ s. not (s === "")) v

-- `requirePublicObject` of each object
unfoldable pub require_public_objects : List Listed → Result NonPublic (Unit {0})
require_public_objects [] = ok tt
require_public_objects (o ∷ os) = do
  require_public_object o.custom_metadata
  require_public_objects os

-- One page, with `next` for the rest of the loop from a new cursor.
unfoldable pub take_page :
    (List Listed → List String → String → Result NonPublic (Option (List Listed)))
    → Bool
    → List Listed
    → List String
    → Page
    → Result NonPublic (Option (List Listed))
take_page next last objects cursors page = do
  require_public_objects page.objects
  (if ltb max_metadata_list_objects (length objects + length page.objects)
      then ok none
      else if not page.truncated
      then ok (some (objects ++ page.objects))
      else elim (text_cursor page.cursor) [
        | none ↦ ok none
        | some cursor ↦
            if last || member cursor cursors
            then ok none
            else next (objects ++ page.objects) (cursor ∷ cursors) cursor
      ])

-- The bucket's `list` under the prefix from a cursor on: none where it throws, and where what it
-- answers has no array of objects or no Boolean `truncated`.
module _ (list_page : Option String → Option Page) where
  -- The loop, which may ask for `left` more pages after the next one.
  unfoldable pub list_objects :
      ℕ → List Listed → List String → Option String → Result NonPublic (Option (List Listed))
  unfolding take_page
  list_objects zero objects cursors cursor = elim (list_page cursor) [
    | none ↦ ok none
    | some page ↦ take_page (λ o c k. ok none) true objects cursors page
  ]
  list_objects (suc left) objects cursors cursor = elim (list_page cursor) [
    | none ↦ ok none
    | some page ↦ take_page (λ o c k. list_objects left o c (some k)) false objects cursors page
  ]

-- `key.endsWith(".json")`
unfoldable pub ends_in_json : String → Bool
ends_in_json String.[] = false
ends_in_json (String.◌∷◌ c s) =
    let rest = ends_in_json s in if String.◌∷◌ c s === ".json" then true else rest

-- `.sort` with the later upload first, which keeps the order of equal times
unfoldable pub insert_newest : Listed → List Listed → List Listed
insert_newest o [] = o ∷ []
insert_newest o (p ∷ ps) =
    let rest = insert_newest o ps in if leb p.uploaded o.uploaded then o ∷ p ∷ ps else p ∷ rest

unfoldable pub newest_first : List Listed → List Listed
unfolding insert_newest
newest_first [] = []
newest_first (o ∷ os) = insert_newest o (newest_first os)

-- `key.slice(0, -".json".length)` of a key that ends so
unfoldable pub without_json : String → String
without_json String.[] = ""
without_json (String.◌∷◌ c s) =
    let rest = without_json s in if String.◌∷◌ c s === ".json" then "" else String.◌∷◌ c rest

or_empty : Option String → String
or_empty none = ""
or_empty (some s) = s

-- `key.slice(prefix.length, -".json".length)` of a key under the prefix
unfoldable pub version_of : String → Listed → String
unfolding without_json strip_prefix or_empty
version_of prefix o = without_json (or_empty (strip_prefix prefix o.key))

pub record PackageMetadata : Type 0 where
  pub org : String
  pub name : String
  pub vcs : String
  pub repo_url : String
  pub latest : String
  pub versions : List String
  pub description : Option String

-- The listing of sorted objects, by the document of the first.
unfoldable pub package_listing :
    ReadRuntime
    → (String → Option R2Object)
    → String
    → String
    → String
    → List Listed
    → Result NonPublic (Option PackageMetadata)
unfolding as_str get version_of
package_listing rt get_object prefix org name [] = ok none
package_listing rt get_object prefix org name (first ∷ others) = do
  newest ← read_json_object rt (get_object first.key)
  elim newest [
    | none ↦ ok none
    | some document ↦
        let facts = get "package" document in
        ok (
          some (record {
            org = org;
            name = name;
            vcs = text_or "git" (get "vcs" facts);
            repo_url = text_or "" (get "repo_url" facts);
            latest = version_of prefix first;
            versions = map (version_of prefix) (first ∷ others);
            description = as_str (get "description" facts);
          }))
  ]

-- `r2PackageMetadata`, for the bucket's `list` and `get`, where the binding is there
unfoldable pub r2_package_metadata :
    ReadRuntime
    → (String → Option String → Option Page)
    → (String → Option R2Object)
    → String
    → String
    → Result NonPublic (Option PackageMetadata)
unfolding list_objects package_listing newest_first ends_in_json
r2_package_metadata rt list_page get_object org name = elim (package_index_key org name) [
  | none ↦ ok none
  | some index_key ↦
      let prefix = "metadata/" ⧺ org ⧺ "/" ⧺ name ⧺ "/versions/" in
      do
        objects ← list_objects (list_page prefix) 9 [] [] none
        elim objects [
          | none ↦ ok none
          | some listed ↦
              package_listing rt get_object prefix org name
                (newest_first (filter (λ o. ends_in_json o.key) listed))
        ]
]
