-- ===== src/Capability/ClaimSet/Valid.antt =====
-- What holds of every set of claims that `validate_claims` returns.
use zed_infra.Base.{
  ℕ, ◌≤◌, String, true, some, List, length, distinct_from-IsDistinct, IsDistinct, All, IsIn, ok,
  ◌≡◌, ◌≢◌, refl, passed, followed, bound, returned, of_not, arith, ===_comm, IsDistinct-unique,
}
use zed_infra.Json.{Json}
use zed_infra.Capability.{jti_form, lineage_id, Grant, Claims, Runtime}
use zed_infra.Capability.Grants.{validate_grant, IsValidGrant, validate_grant-IsValidGrant}
use zed_infra.Capability.ClaimSet.{
  Policy, Lineage, Provenance, same_key, validate_grants, validate_claims, subject_form,
}
use zed_infra.Capability.ClaimSet.Stages.{
  IsAlive, HasLineage, bare, linked, HasProvenance, absent, vouched, lifetime_of, lineage_of,
  provenance_of, claim_version_range, validate_lineage-HasLineage, validate_lifetime-IsAlive,
  validate_provenance-HasProvenance, validate_identity-IsIdentity, traverse-All,
}

pub record IsValidClaims (rt : Runtime) (p : Policy) (c : Claims) : Type 0 where
  pub version_least : 1 ≤ c.zed_edge_capability
  pub version_most : c.zed_edge_capability ≤ 3
  pub issuer : c.iss ≡ p.issuer
  pub audience : c.aud ≡ p.audience
  pub subject : subject_form c.sub ≡ true
  pub identifier : jti_form c.jti ≡ true
  pub alive : IsAlive p (lifetime_of c)
  pub lineage : HasLineage c.zed_edge_capability (lineage_of c)
  pub provenance : HasProvenance c.zed_edge_capability c.iat (provenance_of c)
  pub granted : 1 ≤ length c.grants
  pub capped : length c.grants ≤ 16
  pub each : All (IsValidGrant rt) c.grants
  pub unambiguous : IsDistinct same_key c.grants

module _ (rt : Runtime) where
  -- The grants of a capability, as a list.
  record AreGrants (gs : List Grant) : Type 0 where
    granted : 1 ≤ length gs
    capped : length gs ≤ 16
    each : All (IsValidGrant rt) gs
    unambiguous : IsDistinct same_key gs

  validate_grants-AreGrants :
      (raw : Json) {gs : List Grant} → validate_grants rt raw ≡ ok gs → AreGrants gs
  unfolding validate_grants
  validate_grants-AreGrants raw h = bound _ _ h λ raws _ h₁. passed _ _ _ h₁ λ few h₂.
      bound _ _ h₂ λ gs made h₃. passed _ _ _ h₃ λ apart h₄.
        let (each, same) =
          traverse-All (IsValidGrant rt) (validate_grant rt)
            (λ raw g e. validate_grant-IsValidGrant rt raw e) raws made in
        returned AreGrants h₄ (record {
          granted = ground arith;
          capped = ground arith;
          each = each;
          unambiguous = distinct_from-IsDistinct same_key gs (of_not _ apart);
        })

  -- Whatever object was signed, the claims that come out of it satisfy `IsValidClaims`: issuer and
  -- audience are the verifier's, the lifetime is positive, within the maximum and current up to the
  -- skew, the version has exactly its lineage and provenance, and the 1 to 16 grants are each valid
  -- and have distinct provider/package/resource keys.
  pub validate_claims-IsValidClaims :
      (p : Policy) (raw : Json) {c : Claims}
      → validate_claims rt p raw ≡ ok c
      → IsValidClaims rt p c
  unfolding validate_claims
  validate_claims-IsValidClaims p raw h = passed _ _ _ h λ _ h₁. bound _ _ h₁ λ version v h₂.
      followed _ _ h₂ λ _ h₃. bound _ _ h₃ λ identity i h₄. bound _ _ h₄ λ lineage l h₅.
        bound _ _ h₅ λ lifetime t h₆. bound _ _ h₆ λ provenance o h₇. bound _ _ h₇ λ grants g h₈.
          let (least, most) = claim_version_range raw v in
          let listed = validate_grants-AreGrants raw g in
          let named = validate_identity-IsIdentity p raw i in
          returned (IsValidClaims rt p) h₈ (record {
            version_least = least;
            version_most = most;
            issuer = named.issuer;
            audience = named.audience;
            subject = named.subject;
            identifier = named.identifier;
            alive = validate_lifetime-IsAlive p raw t;
            lineage = validate_lineage-HasLineage version raw least most l;
            provenance = validate_provenance-HasProvenance version _ raw most o;
            granted = listed.granted;
            capped = listed.capped;
            each = listed.each;
            unambiguous = listed.unambiguous;
          })

same_key_comm : (g h : Grant) → same_key g h ≡ same_key h g
unfolding same_key
same_key_comm g h = simp (
  ===_comm g.provider h.provider,
  ===_comm g.package_name h.package_name,
  ===_comm g.resource h.resource,
)

-- Two grants of valid claims that have the same provider, package and resource are the same grant.
grants_unique :
    (rt : Runtime) (p : Policy) (c : Claims) (g h : Grant)
    → IsValidClaims rt p c
    → IsIn g c.grants
    → IsIn h c.grants
    → same_key g h ≡ true
    → g ≡ h
grants_unique rt p c g h valid m n same =
    IsDistinct-unique same_key same_key_comm c.grants valid.unambiguous m n same

-- The facts of version 3, and their absence before it.
pub provenance_given :
    {version iat : ℕ} {q : Provenance}
    → HasProvenance version iat q
    → version ≡ 3
    → (a : ℕ) × (s : ℕ) × (e : ℕ) × (r : ℕ) × (q.assurance ≡ some a)
      × (q.session_epoch ≡ some s)
      × (q.policy_epoch ≡ some e)
      × (q.revocation_checked_at ≡ some r)
provenance_given (absent low) three = absurd (omega arith)
provenance_given (vouched a s e r _ _ _) three = (a, s, e, r, refl, refl, refl, refl)

pub lineage_given :
    {version : ℕ} {l : Lineage}
    → HasLineage version l
    → version ≢ 1
    → (s : String) × (p : String) × (l.sid ≡ some s)
      × (l.parent_jti ≡ some p)
      × (lineage_id s ≡ true)
      × (lineage_id p ≡ true)
lineage_given (bare one) h = absurd (h one)
lineage_given (linked s p _ hs hp) h = (s, p, refl, refl, hs, hp)
