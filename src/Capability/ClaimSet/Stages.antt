-- ===== src/Capability/ClaimSet/Stages.antt =====
-- What each stage of `validate_claims` establishes.
use zed_infra.Base.{
  ℕ, suc, ◌+◌, ◌≤◌, ◌<◌, String, true, ◌||◌, Option, none, some, List, [], ◌∷◌, ◌==◌, length, All,
  Result, ok, ◌≡◌, refl, ◌⊎◌, inl, inr, passed, bound, returned, ok-injective, require-eq-ok,
  Bool-cases, traverse, arith, require, ap,
}
use zed_infra.Json.{
  Json, str, exactly_str-eq-some, get, as_nat, as_nat-eq-some, max_safe_integer, checked-eq-some,
}
use zed_infra.Capability.{Code, jti_form, lineage_id, Claims}
use zed_infra.Capability.Checks.{bounded_integer, is_supported_capability_version}
use zed_infra.Capability.ClaimSet.{
  Policy, supported, claim_version, Lineage, required_lineage, validate_lineage, Lifetime,
  validate_lifetime, Provenance, required_provenance, validate_provenance, subject_form, Identity,
  validate_identity,
}

-- The times are safe integers, the lifetime is positive and at most the policy's, and the clock, give or take the skew, is
-- within it.
pub record IsAlive (p : Policy) (t : Lifetime) : Type 0 where
  pub safe : t.exp ≤ max_safe_integer
  pub starts : t.iat ≤ t.nbf
  pub ends : t.nbf ≤ t.exp
  pub positive : t.iat < t.exp
  pub bounded : t.exp ≤ t.iat + p.max_ttl
  pub issued : t.iat ≤ p.now + p.clock_skew
  pub active : t.nbf ≤ p.now + p.clock_skew
  pub fresh : p.now < t.exp + p.clock_skew

-- Version 1 carries no lineage; versions 2 and 3 carry both identifiers.
pub data HasLineage (version : ℕ) : Lineage → Type 0 where
  bare : version ≡ 1 → HasLineage version (record { sid = none; parent_jti = none })
  linked :
      (s p : String)
      → (version ≡ 2) ⊎ (version ≡ 3)
      → lineage_id s ≡ true
      → lineage_id p ≡ true
      → HasLineage version (record { sid = some s; parent_jti = some p })

-- Version 3, and no other, carries the four facts of its provenance.
pub data HasProvenance (version iat : ℕ) : Provenance → Type 0 where
  absent :
      version < 3
      → HasProvenance version iat (record {
        assurance = none;
        session_epoch = none;
        policy_epoch = none;
        revocation_checked_at = none;
      })
  vouched :
      (a s p r : ℕ)
      → version ≡ 3
      → (a ≡ 1) ⊎ (a ≡ 2)
      → r ≤ iat
      → HasProvenance version iat (record {
        assurance = some a;
        session_epoch = some s;
        policy_epoch = some p;
        revocation_checked_at = some r;
      })

abbrev pub lifetime_of : Claims → Lifetime
lifetime_of c = record { iat = c.iat; nbf = c.nbf; exp = c.exp }

abbrev pub lineage_of : Claims → Lineage
lineage_of c = record { sid = c.sid; parent_jti = c.parent_jti }

abbrev pub provenance_of : Claims → Provenance
provenance_of c = record {
  assurance = c.assurance;
  session_epoch = c.session_epoch;
  policy_epoch = c.policy_epoch;
  revocation_checked_at = c.revocation_checked_at;
}

bounded_integer_lem :
    (e : Code) (v : Json) {n : ℕ} → bounded_integer e v ≡ ok n → require (as_nat v) e ≡ ok n
unfolding bounded_integer
bounded_integer_lem e v h = h

pub claim_version_range : (raw : Json) {v : ℕ} → claim_version raw ≡ ok v → (1 ≤ v) × (v ≤ 3)
unfolding claim_version is_supported_capability_version
claim_version_range raw h =
    supported_range (as_nat (get "zed_edge_capability" raw)) (require-eq-ok _ _ h)
  where
    supported_range : (o : Option ℕ) {v : ℕ} → supported o ≡ some v → (1 ≤ v) × (v ≤ 3)
    supported_range none e = ground arith
    supported_range (some n) e = ground arith

required_lineage-HasLineage :
    (version : ℕ) (raw : Json) {l : Lineage}
    → (version ≡ 2) ⊎ (version ≡ 3)
    → required_lineage raw ≡ ok l
    → HasLineage version l
unfolding required_lineage
required_lineage-HasLineage version raw v h = bound _ _ h λ s hs h₁. bound _ _ h₁ λ p hp h₂.
    returned (HasLineage version) h₂ (
      linked s p v (checked-eq-some _ _ (require-eq-ok _ _ hs)).1
        (checked-eq-some _ _ (require-eq-ok _ _ hp)).1)

pub validate_lineage-HasLineage :
    (version : ℕ) (raw : Json) {l : Lineage}
    → 1 ≤ version
    → version ≤ 3
    → validate_lineage version raw ≡ ok l
    → HasLineage version l
unfolding validate_lineage
validate_lineage-HasLineage version raw p q h = elim (Bool-cases (version == 2 || version == 3)) [
  | inl e ↦ required_lineage-HasLineage version raw (ground arith) (rw e at h)
  | inr e ↦ returned (HasLineage version) (rw e at h) (bare (ground arith))
]

pub validate_lifetime-IsAlive :
    (p : Policy) (raw : Json) {t : Lifetime} → validate_lifetime p raw ≡ ok t → IsAlive p t
unfolding validate_lifetime
validate_lifetime-IsAlive p raw h = bound _ _ h λ iat _ h₁. bound _ _ h₁ λ exp e h₂.
    bound _ _ h₂ λ nbf _ h₃. passed _ _ _ h₃ λ shape h₄. passed _ _ _ h₄ λ issued h₅.
      passed _ _ _ h₅ λ active h₆. passed _ _ _ h₆ λ fresh h₇.
        let (_, safe) =
          as_nat-eq-some (get "exp" raw) (require-eq-ok _ _ (bounded_integer_lem _ _ e)) in
        returned (IsAlive p) h₇ (ground (arith, safe))

required_provenance-HasProvenance :
    (version iat : ℕ) (raw : Json) {v : Provenance}
    → version ≡ 3
    → required_provenance iat raw ≡ ok v
    → HasProvenance version iat v
unfolding required_provenance
required_provenance-HasProvenance version iat raw three h = bound _ _ h λ a _ h₁.
    passed _ _ _ h₁ λ level h₂. bound _ _ h₂ λ s _ h₃. bound _ _ h₃ λ p _ h₄. bound _ _ h₄ λ r _ h₅.
      passed _ _ _ h₅ λ order h₆.
        returned (HasProvenance version iat) h₆
          (vouched a s p r three (ground arith) (ground arith))

pub validate_provenance-HasProvenance :
    (version iat : ℕ) (raw : Json) {v : Provenance}
    → version ≤ 3
    → validate_provenance version iat raw ≡ ok v
    → HasProvenance version iat v
unfolding validate_provenance
validate_provenance-HasProvenance version iat raw q h = elim (Bool-cases (version == 3)) [
  | inl e ↦ required_provenance-HasProvenance version iat raw (ground arith) (rw e at h)
  | inr e ↦ returned (HasProvenance version iat) (rw e at h) (absent (ground arith))
]

-- The four claims are those of the signed object; the first two are the verifier's.
pub record IsIdentity (p : Policy) (raw : Json) (i : Identity) : Type 0 where
  pub signed_issuer : get "iss" raw ≡ str i.iss
  pub signed_audience : get "aud" raw ≡ str i.aud
  pub signed_subject : get "sub" raw ≡ str i.sub
  pub signed_identifier : get "jti" raw ≡ str i.jti
  pub issuer : i.iss ≡ p.issuer
  pub audience : i.aud ≡ p.audience
  pub subject : subject_form i.sub ≡ true
  pub identifier : jti_form i.jti ≡ true

pub validate_identity-IsIdentity :
    (p : Policy) (raw : Json) {i : Identity} → validate_identity p raw ≡ ok i → IsIdentity p raw i
unfolding validate_identity
validate_identity-IsIdentity p raw h = bound _ _ h λ iss a h₁. bound _ _ h₁ λ aud b h₂.
    bound _ _ h₂ λ sub s h₃. bound _ _ h₃ λ jti j h₄.
      let issuer = exactly_str-eq-some p.issuer (get "iss" raw) (require-eq-ok _ _ a) in
      let audience = exactly_str-eq-some p.audience (get "aud" raw) (require-eq-ok _ _ b) in
      let subject = checked-eq-some subject_form (get "sub" raw) (require-eq-ok _ _ s) in
      let identifier = checked-eq-some jti_form (get "jti" raw) (require-eq-ok _ _ j) in
      returned (IsIdentity p raw) h₄ (record {
        signed_issuer = issuer.0;
        signed_audience = audience.0;
        signed_subject = subject.0;
        signed_identifier = identifier.0;
        issuer = issuer.1;
        audience = audience.1;
        subject = subject.1;
        identifier = identifier.1;
      })

pub traverse-All :
    {A B : Type 0} (P : B → Type 0) (f : A → Result Code B)
    → ((a : A) (b : B) → f a ≡ ok b → P b)
    → (xs : List A) {ys : List B} → traverse f xs ≡ ok ys
    → All P ys × (length ys ≡ length xs)
unfolding traverse
traverse-All P f each [] {ys = zs} h = let e : [] ≡ zs = ok-injective h in rw (← e) (tt, refl)
traverse-All P f each (x ∷ xs) {ys = zs} h = bound _ _ h λ y e h₁. bound _ _ h₁ λ ys es h₂.
    let (all_ys, same) = traverse-All P f each xs es in
    let same_list : y ∷ ys ≡ zs = ok-injective h₂ in
    rw (← same_list) ((each x y e, all_ys), ap suc same)
