-- ===== src/Publish/Listing/Derived.antt =====
-- The listing that `r2PackageMetadata` answers, beside the objects that the bucket lists.
use zed_infra.Base.{
  All_mono, ℕ, ◌≤◌, String, true, Option, none, some, List, [], ◌∷◌, leb, length, ◌⧺◌, map, filter,
  ok, All, IsIn, ◌≡◌, ◌↔◌, ◌⊎◌, inl, inr, refl, arith, bound, ok-injective, Option-cases,
  Bool-cases, IsIn-filter, filter-IsIn, subst,
}
use zed_infra.Json.{Json}
use zed_infra.Publish.{package_index_key}
use zed_infra.Publish.Document.{R2Object, ReadRuntime, read_json_object}
use zed_infra.Publish.Listing.{
  Listed, Page, ends_in_json, insert_newest, newest_first, version_of, PackageMetadata,
  package_listing, r2_package_metadata,
}
use zed_infra.Publish.Listing.Paged.{IsDisclosable, IsListing, list_objects-IsCollected}

abbrev pub IsNewestFirst : List Listed → Type 0
IsNewestFirst [] = Unit
IsNewestFirst (o ∷ os) = All (λ p. p.uploaded ≤ o.uploaded) os × IsNewestFirst os

insert_newest-All :
    (P : Listed → Type 0) (o : Listed) (os : List Listed)
    → P o
    → All P os
    → All P (insert_newest o os)
unfolding insert_newest
insert_newest-All P o [] p ps = (p, tt)
insert_newest-All P o (q ∷ os) p (pq, ps) = elim (Bool-cases (leb q.uploaded o.uploaded)) [
  | inl e ↦ rw (e, insert_newest) (p, (pq, ps))
  | inr e ↦ rw (e, insert_newest) (pq, insert_newest-All P o os p ps)
]

insert_newest-IsNewestFirst :
    (o : Listed) (os : List Listed) → IsNewestFirst os → IsNewestFirst (insert_newest o os)
unfolding insert_newest
insert_newest-IsNewestFirst o [] h = (tt, tt)
insert_newest-IsNewestFirst o (q ∷ os) (below, rest) =
    elim (Bool-cases (leb q.uploaded o.uploaded)) [
      | inl e ↦
          let first : q.uploaded ≤ o.uploaded = ground arith in
          rw (e, insert_newest)
            (
              (
                first,
                All_mono _ _ (λ (p : Listed) (l : p.uploaded ≤ q.uploaded). omega arith) os below,
              ),
              (below, rest),
            )
      | inr e ↦
          let later : o.uploaded ≤ q.uploaded = ground arith in
          rw (e, insert_newest)
            (
              insert_newest-All (λ p. p.uploaded ≤ q.uploaded) o os later below,
              insert_newest-IsNewestFirst o os rest,
            )
    ]

newest_first-IsNewestFirst : (os : List Listed) → IsNewestFirst (newest_first os)
unfolding newest_first
newest_first-IsNewestFirst [] = tt
newest_first-IsNewestFirst (o ∷ os) =
    insert_newest-IsNewestFirst o (newest_first os) (newest_first-IsNewestFirst os)

insert_newest-IsIn :
    (o : Listed) (os : List Listed) (p : Listed) → IsIn p (insert_newest o os) ↔ (p ≡ o) ⊎ IsIn p os
unfolding insert_newest
insert_newest-IsIn o [] p = (λ h. h, λ h. h)
insert_newest-IsIn o (q ∷ os) p = elim (Bool-cases (leb q.uploaded o.uploaded)) [
  | inl e ↦ rw (e, insert_newest) (λ h. h, λ h. h)
  | inr e ↦ let (there, back) = insert_newest-IsIn o os p in rw (e, insert_newest) (ground arith)
]

newest_first-IsIn : (os : List Listed) (p : Listed) → IsIn p (newest_first os) ↔ IsIn p os
unfolding newest_first
newest_first-IsIn [] p = (λ h. h, λ h. h)
newest_first-IsIn (o ∷ os) p =
    let (there, back) = insert_newest-IsIn o (newest_first os) p in
    let (h, k) = newest_first-IsIn os p in ground arith

members_of :
    (listed : List Listed) (o : Listed)
    → IsIn o (newest_first (filter (λ (p : Listed). ends_in_json p.key) listed))
      ↔ IsIn o listed × (ends_in_json o.key ≡ true)
members_of listed o =
    let (there, back) = newest_first-IsIn (filter (λ (p : Listed). ends_in_json p.key) listed) o in
    (
      λ h. IsIn-filter (λ (p : Listed). ends_in_json p.key) listed (there h),
      λ h. back (filter-IsIn (λ (p : Listed). ends_in_json p.key) listed h.0 h.1),
    )

-- A listing, beside the pages of the bucket under the package's prefix.
pub record IsDerived (rt : ReadRuntime) (list_page : String → Option String → Option Page)
    (get_object : String → Option R2Object) (org name : String) (m : PackageMetadata) : Type 0 where
  pub pages : ℕ
  pub listed : List Listed
  pub listing :
      IsListing (list_page ("metadata/" ⧺ org ⧺ "/" ⧺ name ⧺ "/versions/")) none pages listed
  pub limited : (pages ≤ 10) × (length listed ≤ 10000)
  pub public : All IsDisclosable listed
  pub first : Listed
  pub others : List Listed
  pub sorted : IsNewestFirst (first ∷ others)
  pub members : (o : Listed) → IsIn o (first ∷ others) ↔ IsIn o listed × (ends_in_json o.key ≡ true)
  pub versions :
      m.versions ≡ map (version_of ("metadata/" ⧺ org ⧺ "/" ⧺ name ⧺ "/versions/")) (first ∷ others)
  pub latest : m.latest ≡ version_of ("metadata/" ⧺ org ⧺ "/" ⧺ name ⧺ "/versions/") first
  pub coordinates : (m.org ≡ org) × (m.name ≡ name)
  pub document : Json
  pub newest : read_json_object rt (get_object first.key) ≡ ok (some document)

package_listing-cases :
    (rt : ReadRuntime) (get_object : String → Option R2Object) (prefix org name : String)
    (os : List Listed) {m : PackageMetadata}
    → package_listing rt get_object prefix org name os ≡ ok (some m)
    → (first : Listed) × (others : List Listed) × (os ≡ (first ∷ others))
      × (m.versions ≡ map (version_of prefix) (first ∷ others))
      × (m.latest ≡ version_of prefix first)
      × ((m.org ≡ org) × (m.name ≡ name))
      × (document : Json) × (read_json_object rt (get_object first.key) ≡ ok (some document))
unfolding package_listing
package_listing-cases rt get_object prefix org name [] h = cc (ok-injective h)
package_listing-cases rt get_object prefix org name (first ∷ others) {m} h =
    bound _ _ h λ found r rest. elim (Option-cases found) [
      | inl e ↦ cc (ok-injective (rw e at rest))
      | inr (document, e) ↦
          let same = ok-injective (rw e at rest) in
          (first, others, refl, cc same, cc same, (cc same, cc same), document, rw e at r)
    ]

-- If a listing is answered, the bucket lists all objects under the package's prefix in at most 10
-- pages and 10,000 objects, each of which may be disclosed. The listing has the coordinates asked
-- for, its versions are those of the listed `.json` objects with the newest upload first,
-- `latest` is the first of them, and its document was read.
pub r2_package_metadata-IsDerived :
    (rt : ReadRuntime) (list_page : String → Option String → Option Page)
    (get_object : String → Option R2Object) (org name : String) {m : PackageMetadata}
    → r2_package_metadata rt list_page get_object org name ≡ ok (some m)
    → IsDerived rt list_page get_object org name m
unfolding r2_package_metadata
r2_package_metadata-IsDerived rt list_page get_object org name {m} h =
    elim (Option-cases (package_index_key org name)) [
      | inl e ↦ cc (ok-injective (rw (e, r2_package_metadata) at h))
      | inr (key, e) ↦ bound _ _ (rw (e, r2_package_metadata) at h) λ found l rest.
          elim (Option-cases found) [
            | inl none_found ↦ cc (ok-injective (rw none_found at rest))
            | inr (listed, f) ↦
                let c =
                  list_objects-IsCollected
                    (list_page ("metadata/" ⧺ org ⧺ "/" ⧺ name ⧺ "/versions/")) 9 [] [] none
                    (rw f at l) in
                let (first, others, order, versions, latest, coordinates, document, newest) =
                  package_listing-cases rt get_object _ org name _ (rw f at rest) in
                let same : listed ≡ c.listed = c.whole in
                let kept = filter (λ (o : Listed). ends_in_json o.key) listed in
                record {
                  pages = c.pages;
                  listed = listed;
                  listing = rw same c.listing;
                  limited = (c.limited, c.bounded);
                  public = rw same c.public;
                  first = first;
                  others = others;
                  sorted = subst IsNewestFirst order (newest_first-IsNewestFirst kept);
                  members = λ o.
                      subst (λ os. IsIn o os ↔ IsIn o listed × (ends_in_json o.key ≡ true)) order
                        (members_of listed o);
                  versions = versions;
                  latest = latest;
                  coordinates = coordinates;
                  document = document;
                  newest = newest;
                }
          ]
    ]
