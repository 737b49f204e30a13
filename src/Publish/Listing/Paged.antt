-- ===== src/Publish/Listing/Paged.antt =====
-- The pages that the loop asks for, and the objects that it collects.
use zed_infra.Base.{
  ℕ, suc, zero, ◌+◌, ◌≤◌, String, Bool, true, false, ◌||◌, Option, none, some, List, [], ◌∷◌, ◌++◌,
  ltb, length, member, Result, ok, All, ◌≡◌, ◌⊎◌, inl, inr, arith, followed, ok-injective,
  Option-cases, Bool-cases, or-false, length-append, All-append, ◌∙◌, append_assoc,
}
use zed_infra.Visibility.{NonPublic, require_public_object}
use zed_infra.Publish.Listing.{
  Listed, Page, text_cursor, require_public_objects, take_page, list_objects,
  max_metadata_list_objects,
}

-- An object that `requirePublicObject` lets pass.
abbrev pub IsDisclosable : Listed → Type 0
IsDisclosable o = require_public_object o.custom_metadata ≡ ok tt

require_public_objects-All :
    (os : List Listed) → require_public_objects os ≡ ok tt → All IsDisclosable os
unfolding require_public_objects
require_public_objects-All [] h = tt
require_public_objects-All (o ∷ os) h =
    followed _ _ h λ p rest. (p, require_public_objects-All os rest)

take_page-cases :
    (next : List Listed → List String → String → Result NonPublic (Option (List Listed)))
    (last : Bool) (objects : List Listed) (cursors : List String) (page : Page) {all : List Listed}
    → take_page next last objects cursors page ≡ ok (some all)
    → All IsDisclosable page.objects
      × (((page.truncated ≡ false)
            × (all ≡ (objects ++ page.objects))
            × (length objects + length page.objects ≤ max_metadata_list_objects))
          ⊎ ((page.truncated ≡ true)
              × (last ≡ false)
              × (k : String) × (text_cursor page.cursor ≡ some k)
              × (next (objects ++ page.objects) (k ∷ cursors) k ≡ ok (some all))))
unfolding take_page
take_page-cases next last objects cursors page h = followed _ _ h λ public rest.
    elim (Bool-cases (ltb max_metadata_list_objects (length objects + length page.objects))) [
      | inl over ↦ cc (ok-injective (rw over at rest))
      | inr fits ↦ elim (Bool-cases page.truncated) [
        | inl t ↦
            let onward = rw (fits, t) at rest in
            elim (Option-cases (text_cursor page.cursor)) [
              | inl e ↦ cc (ok-injective (rw e at onward))
              | inr (k, e) ↦
                  let further = rw e at onward in
                  elim (Bool-cases (last || member k cursors)) [
                    | inl stop ↦ cc (ok-injective (rw stop at further))
                    | inr go ↦ (
                      require_public_objects-All _ public,
                      inr (t, (or-false _ _ go).0, k, e, rw go at further),
                    )
                  ]
            ]
        | inr t ↦ (
          require_public_objects-All _ public,
          inl (t, cc (ok-injective (rw (fits, t) at rest)), ground arith),
        )
      ]
    ]

module _ (list_page : Option String → Option Page) where
  -- The objects of the pages from a cursor to the last page, in their order, and the number of pages.
  pub data IsListing : Option String → ℕ → List Listed → Type 0 where
    last_page :
        {cursor : Option String} (page : Page)
        → list_page cursor ≡ some page
        → page.truncated ≡ false
        → IsListing cursor 1 page.objects
    more_pages :
        {cursor : Option String} {n : ℕ} {rest : List Listed} (page : Page) (next : String)
        → list_page cursor ≡ some page
        → page.truncated ≡ true
        → text_cursor page.cursor ≡ some next
        → IsListing (some next) n rest
        → IsListing cursor (suc n) (page.objects ++ rest)

  -- What the loop collected after the objects it had.
  pub record IsCollected (cursor : Option String) (before : List Listed) (most : ℕ)
      (all : List Listed) : Type 0 where
    pub pages : ℕ
    pub listed : List Listed
    pub listing : IsListing cursor pages listed
    pub limited : pages ≤ most
    pub whole : all ≡ (before ++ listed)
    pub bounded : length all ≤ max_metadata_list_objects
    pub public : All IsDisclosable listed

  step :
      (left : ℕ)
      (next : List Listed → List String → String → Result NonPublic (Option (List Listed)))
      (last : Bool) (objects : List Listed) (cursors : List String) (cursor : Option String)
      (page : Page) {all : List Listed}
      → list_page cursor ≡ some page
      → ((o : List Listed) (c : List String) (k : String) (a : List Listed)
          → last ≡ false
          → next o c k ≡ ok (some a)
          → IsCollected (some k) o left a)
      → take_page next last objects cursors page ≡ ok (some all)
      → IsCollected cursor objects (suc left) all
  step left next last objects cursors cursor page {all} found recur h =
      let (public, cases) = take_page-cases next last objects cursors page h in
      elim cases [
        | inl (t, whole, fits) ↦ record {
          pages = 1;
          listed = page.objects;
          listing = last_page page found t;
          limited = omega arith;
          whole = whole;
          bounded = rw (whole, length-append objects page.objects) fits;
          public = public;
        }
        | inr (t, l, k, e, further) ↦
            let r = recur _ _ k all l further in
            record {
              pages = suc r.pages;
              listed = page.objects ++ r.listed;
              listing = more_pages page k found t e r.listing;
              limited = let m = r.limited in omega arith;
              whole = r.whole ∙ append_assoc objects page.objects r.listed;
              bounded = r.bounded;
              public = All-append IsDisclosable page.objects r.listed public r.public;
            }
      ]

  pub list_objects-IsCollected :
      (left : ℕ) (objects : List Listed) (cursors : List String) (cursor : Option String)
      {all : List Listed}
      → list_objects list_page left objects cursors cursor ≡ ok (some all)
      → IsCollected cursor objects (suc left) all
  unfolding list_objects
  list_objects-IsCollected zero objects cursors cursor h = elim (Option-cases (list_page cursor)) [
    | inl e ↦ cc (ok-injective (rw (e, list_objects) at h))
    | inr (page, e) ↦
        step 0 (λ o c k. ok none) true objects cursors cursor page e (λ o c k a l m. cc l)
          (rw (e, list_objects) at h)
  ]
  list_objects-IsCollected (suc left) objects cursors cursor h =
      elim (Option-cases (list_page cursor)) [
        | inl e ↦ cc (ok-injective (rw (e, list_objects) at h))
        | inr (page, e) ↦
            step (suc left) _ false objects cursors cursor page e
              (λ o c k a l m. list_objects-IsCollected left o c (some k) m)
              (rw (e, list_objects) at h)
      ]
