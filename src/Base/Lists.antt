-- ===== src/Base/Lists.antt =====
-- Lists measured by native numbers, Boolean quantifiers, and predicates by recursion.
use Prim.Native.Nat.{ℕ, suc, ◌+◌}
use mathlib.Core.Path.{◌≡◌, sym, subst, ◌∙◌}
use mathlib.Core.Bool.{Bool, true, false, ◌&&◌, ◌||◌}
use mathlib.Core.Logic.{◌⊎◌, inl, inr}
use mathlib.Core.Option.{Option, none, some}
use mathlib.Core.List.{List, [], ◌∷◌, ◌++◌}
use native.Mathlib.Omega.{arith}
use zed_infra.Base.Tests.{if◌then◌else◌, Bool-cases, or-false}

module _ {ℓ} {A : Type ℓ} where
  abbrev pub length : List A → ℕ
  length [] = 0
  length (x ∷ xs) = suc (length xs)

  abbrev pub all : (A → Bool) → List A → Bool
  all p [] = true
  all p (x ∷ xs) = p x && all p xs

  abbrev pub any : (A → Bool) → List A → Bool
  any p [] = false
  any p (x ∷ xs) = p x || any p xs

  abbrev pub filter : (A → Bool) → List A → List A
  filter p [] = []
  filter p (x ∷ xs) = let rest = filter p xs in if p x then x ∷ rest else rest

  abbrev pub find : (A → Bool) → List A → Option A
  find p [] = none
  find p (x ∷ xs) = if p x then some x else find p xs

  pub length-append : (xs ys : List A) → length (xs ++ ys) ≡ length xs + length ys
  length-append [] ys = omega arith
  length-append (x ∷ xs) ys = omega (arith, length-append xs ys)

-- `a` stands in the list.
abbrev pub IsIn : {A : Type 0} → A → List A → Type 0
IsIn a [] = ⊥
IsIn a (x ∷ xs) = (a ≡ x) ⊎ IsIn a xs

abbrev pub All {ℓ} : {A : Type 0} → (A → Type ℓ) → List A → Type ℓ
All P [] = Unit
All P (x ∷ xs) = P x × All P xs

module _ {A : Type 0} where
  pub All-append : (P : A → Type 0) (xs ys : List A) → All P xs → All P ys → All P (xs ++ ys)
  All-append P [] ys ps qs = qs
  All-append P (x ∷ xs) ys (p, ps) qs = (p, All-append P xs ys ps qs)

  pub All_mono : (P Q : A → Type 0) → ((a : A) → P a → Q a) → (xs : List A) → All P xs → All Q xs
  All_mono P Q f [] h = tt
  All_mono P Q f (x ∷ xs) (p, ps) = (f x p, All_mono P Q f xs ps)

  pub All-IsIn : (P : A → Type 0) (xs : List A) {a : A} → All P xs → IsIn a xs → P a
  All-IsIn P [] ps m = absurd m
  All-IsIn P (x ∷ xs) (p, ps) (inl e) = subst P (sym e) p
  All-IsIn P (x ∷ xs) (p, ps) (inr m) = All-IsIn P xs ps m

  -- What `find` returns is in the list and passes the test.
  pub find-eq-some :
      (p : A → Bool) (xs : List A) {a : A} → find p xs ≡ some a → IsIn a xs × (p a ≡ true)
  find-eq-some p [] h = cc
  find-eq-some p (x ∷ xs) {a} h = elim (Bool-cases (p x)) [
    | inl e ↦ let same : x ≡ a = ground arith in (inl (sym same), rw (← same) e)
    | inr e ↦ let (m, q) = find-eq-some p xs (rw e at h) in (inr m, q)
  ]

  pub IsIn-filter :
      (p : A → Bool) (xs : List A) {a : A} → IsIn a (filter p xs) → IsIn a xs × (p a ≡ true)
  IsIn-filter p [] h = absurd h
  IsIn-filter p (x ∷ xs) {a} h = elim (Bool-cases (p x)) [
    | inl e ↦ elim (rw e at h) [
      | inl same ↦ (inl same, rw same e)
      | inr m ↦ let (n, q) = IsIn-filter p xs m in (inr n, q)
    ]
    | inr e ↦ let (n, q) = IsIn-filter p xs (rw e at h) in (inr n, q)
  ]

  pub filter-IsIn :
      (p : A → Bool) (xs : List A) {a : A} → IsIn a xs → p a ≡ true → IsIn a (filter p xs)
  filter-IsIn p [] m h = absurd m
  filter-IsIn p (x ∷ xs) (inl same) h = let e : p x ≡ true = rw (← same) h in rw e (inl same)
  filter-IsIn p (x ∷ xs) (inr m) h = elim (Bool-cases (p x)) [
    | inl e ↦ rw e (inr (filter-IsIn p xs m h))
    | inr e ↦ rw e (filter-IsIn p xs m h)
  ]

module _ {A : Type 0} (same : A → A → Bool) where
  -- The loop over a set of the keys seen so far, which stops at the first key seen before.
  unfoldable pub distinct_from : List A → List A → Bool
  distinct_from seen [] = true
  distinct_from seen (x ∷ xs) =
      let rest = distinct_from (x ∷ seen) xs in if any (same x) seen then false else rest

  -- No element has the key of an earlier one.
  abbrev pub IsDistinct : List A → Type 0
  IsDistinct [] = Unit
  IsDistinct (x ∷ xs) = All (λ y. same y x ≡ false) xs × IsDistinct xs

  All-seen :
      (x : A) (seen xs : List A)
      → All (λ y. any (same y) (x ∷ seen) ≡ false) xs
      → All (λ y. same y x ≡ false) xs × All (λ y. any (same y) seen ≡ false) xs
  All-seen x seen [] h = (tt, tt)
  All-seen x seen (y ∷ ys) (h, hs) =
      let (p, q) = or-false _ _ h in let (ps, qs) = All-seen x seen ys hs in ((p, ps), (q, qs))

  distinct_from-All :
      (seen xs : List A)
      → distinct_from seen xs ≡ true
      → IsDistinct xs × All (λ y. any (same y) seen ≡ false) xs
  unfolding distinct_from
  distinct_from-All seen [] h = (tt, tt)
  distinct_from-All seen (x ∷ xs) h = elim (Bool-cases (any (same x) seen)) [
    | inl old ↦ cc (let k = rw old at h in k)
    | inr new ↦
        let (d, later) = distinct_from-All (x ∷ seen) xs (rw new at h) in
        let (apart, fresh) = All-seen x seen xs later in ((apart, d), (new, fresh))
  ]

  pub distinct_from-IsDistinct : (xs : List A) → distinct_from [] xs ≡ true → IsDistinct xs
  distinct_from-IsDistinct xs h = (distinct_from-All [] xs h).0

  -- Among elements with distinct keys a key determines its element.
  pub IsDistinct-unique :
      ((x y : A) → same x y ≡ same y x)
      → (xs : List A) {a b : A} → IsDistinct xs
      → IsIn a xs
      → IsIn b xs
      → same a b ≡ true
      → a ≡ b
  IsDistinct-unique flip [] d m n h = absurd m
  IsDistinct-unique flip (x ∷ xs) d (inl p) (inl q) h = p ∙ sym q
  IsDistinct-unique flip (x ∷ xs) {a} {b} (apart, d) (inl p) (inr n) h =
      let k : same b x ≡ false = All-IsIn _ xs apart n in cc (flip a b, p)
  IsDistinct-unique flip (x ∷ xs) {a} {b} (apart, d) (inr m) (inl q) h =
      let k : same a x ≡ false = All-IsIn _ xs apart m in cc q
  IsDistinct-unique flip (x ∷ xs) (apart, d) (inr m) (inr n) h = IsDistinct-unique flip xs d m n h
