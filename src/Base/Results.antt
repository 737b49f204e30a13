-- ===== src/Base/Results.antt =====
-- Code that throws: a result with the error's kind, `do` blocks over it, and their inversion.
use mathlib.Core.Path.{◌≡◌, refl, subst, ap}
use mathlib.Core.Logic.{◌⊎◌, inl, inr}
use mathlib.Core.Bool.{Bool, true, false}
use mathlib.Core.Option.{Option, none, some}
use mathlib.Core.List.{List, [], ◌∷◌}

pub data Result {ℓ κ} (E : Type ℓ) (A : Type κ) : Type (ℓ ⊔ κ) where
  ok : A → Result E A
  err : E → Result E A

infixl 5 ◌>>=◌ ◌>>◌
-- Shut in proofs, which take a block apart by `passed` and `bound`.
unfoldable pub ◌>>=◌ {ℓ κ μ} :
    {E : Type ℓ} {A : Type κ} {B : Type μ} → Result E A → (A → Result E B) → Result E B
ok a >>= f = f a
err e >>= f = err e

unfoldable pub ◌>>◌ {ℓ κ} :
    {E : Type ℓ} {B : Type κ} → Result E (Unit {0}) → Result E B → Result E B
unfolding ◌>>=◌
m >> k = m >>= λ _. k

module _ {ℓ} {E : Type ℓ} where
  -- `if (bad) throw e;`
  unfoldable pub reject_if : Bool → E → Result E (Unit {0})
  reject_if true e = err e
  reject_if false e = ok tt

  pub reject_if-eq-ok : (b : Bool) (e : E) {u : Unit {0}} → reject_if b e ≡ ok u → b ≡ false
  unfolding reject_if
  reject_if-eq-ok true e h = cc
  reject_if-eq-ok false e h = refl

module _ {ℓ κ} {E : Type ℓ} {A : Type κ} where
  -- `throw e` where a value is missing
  unfoldable pub require : Option A → E → Result E A
  require none e = err e
  require (some a) e = ok a

  pub require-eq-ok : (o : Option A) (e : E) {a : A} → require o e ≡ ok a → o ≡ some a
  unfolding require
  require-eq-ok none e h = cc
  require-eq-ok (some a) e h = cc

  -- The rest of a block runs when its first test lets it, and has the result of the whole.
  pub passed {μ} :
      {P : Type μ} (b : Bool) (e : E) (k : Result E A) {a : A}
      → (reject_if b e >> k) ≡ ok a
      → (b ≡ false → k ≡ ok a → P)
      → P
  unfolding reject_if ◌>>◌
  passed true e k h p = absurd (cc h)
  passed false e k h p = p refl h

  pub rejected : (b : Bool) (e : E) (k : Result E A) → b ≡ true → (reject_if b e >> k) ≡ err e
  unfolding reject_if ◌>>◌
  rejected true e k h = refl
  rejected false e k h = cc

  pub allowed : (b : Bool) (e : E) (k : Result E A) → b ≡ false → (reject_if b e >> k) ≡ k
  unfolding reject_if ◌>>◌
  allowed true e k h = cc
  allowed false e k h = refl

  -- The same for a first part that is any check.
  pub followed {μ} :
      {P : Type μ} (m : Result E (Unit {0})) (k : Result E A) {a : A}
      → (m >> k) ≡ ok a
      → (m ≡ ok tt → k ≡ ok a → P)
      → P
  unfolding ◌>>◌
  followed (ok u) k h p = p refl h
  followed (err e) k h p = absurd (cc h)

  pub checks_first : (m : Result E (Unit {0})) (k : Result E A) → m ≡ ok tt → (m >> k) ≡ k
  unfolding ◌>>◌
  checks_first (ok u) k h = refl
  checks_first (err e) k h = cc

  pub Result-cases : (m : Result E A) → ((e : E) × (m ≡ err e)) ⊎ ((a : A) × (m ≡ ok a))
  Result-cases (ok a) = inr (a, refl)
  Result-cases (err e) = inl (e, refl)

  pub ok-injective : {a b : A} → ◌≡◌ {A = Result E A} (ok a) (ok b) → a ≡ b
  ok-injective h = cc h

  -- What holds of the value that a block returns last holds of its result.
  pub returned {μ} : (P : A → Type μ) {a b : A} → ◌≡◌ {A = Result E A} (ok a) (ok b) → P a → P b
  returned P h p = subst P (ok-injective h) p

module _ {ℓ κ μ} {E : Type ℓ} {A : Type κ} {B : Type μ} where
  pub bound {ν} :
      {P : Type ν} (m : Result E A) (f : A → Result E B) {b : B}
      → (m >>= f) ≡ ok b
      → ((a : A) → m ≡ ok a → f a ≡ ok b → P)
      → P
  unfolding ◌>>=◌
  bound (ok a) f h p = p a refl h
  bound (err e) f h p = absurd (cc h)

  -- `xs.map(f)` where `f` may throw: the first error wins.
  unfoldable pub traverse : (A → Result E B) → List A → Result E (List B)
  unfolding ◌>>=◌
  traverse f [] = ok []
  traverse f (x ∷ xs) = do y ← f x; ys ← traverse f xs; ok (y ∷ ys)

module _ {ℓ κ μ} {E : Type ℓ} {A : Type κ} {B : Type μ} where
  pub binds : (m : Result E A) (f : A → Result E B) {a : A} → m ≡ ok a → (m >>= f) ≡ f a
  unfolding ◌>>=◌
  binds (ok b) f h = ap f (ok-injective h)
  binds (err e) f h = absurd (cc h)
