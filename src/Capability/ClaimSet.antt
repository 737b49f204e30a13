-- ===== src/Capability/ClaimSet.antt =====
-- edge-capability.js: `validateClaims`, a stage for each group of claims.
pub mod Stages
pub mod Valid
use zed_infra.Base.{
  ℕ, ◌+◌, ◌-◌, String, Bool, true, false, not, ◌&&◌, ◌||◌, Option, none, some, List, [], ◌∷◌, leb,
  ltb, ◌==◌, ◌===◌, size, every, length, distinct_from, Result, ok, err, reject_if, require, ◌>>=◌,
  ◌>>◌, traverse, if◌then◌else◌,
}
use zed_infra.Json.{
  Json, get, is_record, is_str, exactly_str, is_undefined, checked, as_arr, as_nat,
}
use zed_infra.Capability.{
  Code, invalid_claims, invalid_version, invalid_issuer, invalid_audience, invalid_subject,
  invalid_jti, invalid_lineage, invalid_lifetime, not_yet_valid, expired, invalid_assurance,
  invalid_revocation_checkpoint, invalid_grants, duplicate_grant, invalid_time_claim, claim_keys_v1,
  claim_keys_v2, claim_keys_v3, jti_form, lineage_id, max_grants, Grant, Claims, Runtime,
}
use zed_infra.Capability.Checks.{
  is_supported_capability_version, bounded_integer, reject_unknown_keys,
}
use zed_infra.Capability.Grants.{validate_grant}

pub record Policy : Type 0 where
  pub issuer : String
  pub audience : String
  pub now : ℕ
  pub max_ttl : ℕ
  pub clock_skew : ℕ

-- `integerClaim`
abbrev integer_claim : Json → Result Code ℕ
integer_claim = bounded_integer invalid_time_claim

supported : Option ℕ → Option ℕ
supported none = none
supported (some v) = if is_supported_capability_version v then some v else none

unfoldable pub claim_version : Json → Result Code ℕ
unfolding supported
claim_version raw = require (supported (as_nat (get "zed_edge_capability" raw))) invalid_version

unfoldable pub claim_keys : ℕ → List String
claim_keys version =
    if version == 3 then claim_keys_v3 else if version == 2 then claim_keys_v2 else claim_keys_v1

-- `/[\u0000-\u001f]/` finds nothing
unfoldable pub subject_form : String → Bool
unfolding size every
subject_form s = leb 1 (size s) && leb (size s) 256 && every (λ c. leb 0x20 c) s

pub record Identity : Type 0 where
  pub iss : String
  pub aud : String
  pub sub : String
  pub jti : String

unfoldable pub validate_identity : Policy → Json → Result Code Identity
unfolding exactly_str
validate_identity policy raw = do
  iss ← require (exactly_str policy.issuer (get "iss" raw)) invalid_issuer
  aud ← require (exactly_str policy.audience (get "aud" raw)) invalid_audience
  sub ← require (checked subject_form (get "sub" raw)) invalid_subject
  jti ← require (checked jti_form (get "jti" raw)) invalid_jti
  ok (record { iss = iss; aud = aud; sub = sub; jti = jti })

pub record Lineage : Type 0 where
  pub sid : Option String
  pub parent_jti : Option String

required_lineage : Json → Result Code Lineage
required_lineage raw = do
  sid ← require (checked lineage_id (get "sid" raw)) invalid_lineage
  parent_jti ← require (checked lineage_id (get "parent_jti" raw)) invalid_lineage
  ok (record { sid = some sid; parent_jti = some parent_jti })

unfoldable pub validate_lineage : ℕ → Json → Result Code Lineage
unfolding required_lineage
validate_lineage version raw =
    if version == 2 || version == 3
    then required_lineage raw
    else ok (record { sid = none; parent_jti = none })

pub record Lifetime : Type 0 where
  pub iat : ℕ
  pub nbf : ℕ
  pub exp : ℕ

-- `exp - iat` is read only where `iat < exp`; `exp <= now - skew` is `exp + skew <= now`.
unfoldable pub validate_lifetime : Policy → Json → Result Code Lifetime
validate_lifetime policy raw = do
  iat ← integer_claim (get "iat" raw)
  exp ← integer_claim (get "exp" raw)
  nbf ← (if is_undefined (get "nbf" raw) then ok iat else integer_claim (get "nbf" raw))
  reject_if (leb exp iat || ltb nbf iat || ltb exp nbf || ltb policy.max_ttl (exp - iat))
      invalid_lifetime
  reject_if (ltb (policy.now + policy.clock_skew) iat) not_yet_valid
  reject_if (ltb (policy.now + policy.clock_skew) nbf) not_yet_valid
  reject_if (leb (exp + policy.clock_skew) policy.now) expired
  ok (record { iat = iat; nbf = nbf; exp = exp })

pub record Provenance : Type 0 where
  pub assurance : Option ℕ
  pub session_epoch : Option ℕ
  pub policy_epoch : Option ℕ
  pub revocation_checked_at : Option ℕ

required_provenance : ℕ → Json → Result Code Provenance
required_provenance iat raw = do
  assurance ← integer_claim (get "assurance" raw)
  reject_if (not (assurance == 1) && not (assurance == 2)) invalid_assurance
  session_epoch ← integer_claim (get "session_epoch" raw)
  policy_epoch ← integer_claim (get "policy_epoch" raw)
  checked_at ← integer_claim (get "revocation_checked_at" raw)
  reject_if (ltb iat checked_at) invalid_revocation_checkpoint
  ok (record {
    assurance = some assurance;
    session_epoch = some session_epoch;
    policy_epoch = some policy_epoch;
    revocation_checked_at = some checked_at;
  })

unfoldable pub validate_provenance : ℕ → ℕ → Json → Result Code Provenance
unfolding required_provenance
validate_provenance version iat raw =
    if version == 3
    then required_provenance iat raw
    else ok (record {
      assurance = none;
      session_epoch = none;
      policy_epoch = none;
      revocation_checked_at = none;
    })

-- `JSON.stringify` of a tuple of strings is injective: keys are equal exactly if the tuples are.
unfoldable pub same_key : Grant → Grant → Bool
same_key g h =
    g.provider === h.provider && g.package_name === h.package_name && g.resource === h.resource

module _ (rt : Runtime) where
  unfoldable pub validate_grants : Json → Result Code (List Grant)
  validate_grants raw = do
    raw_grants ← require (as_arr (get "grants" raw)) invalid_grants
    reject_if (ltb (length raw_grants) 1 || ltb max_grants (length raw_grants)) invalid_grants
    grants ← traverse (validate_grant rt) raw_grants
    reject_if (not (distinct_from same_key [] grants)) duplicate_grant
    ok grants

  unfoldable pub validate_claims : Policy → Json → Result Code Claims
  validate_claims policy raw = do
    reject_if (not (is_record raw)) invalid_claims
    version ← claim_version raw
    reject_unknown_keys raw (claim_keys version)
    identity ← validate_identity policy raw
    lineage ← validate_lineage version raw
    lifetime ← validate_lifetime policy raw
    provenance ← validate_provenance version lifetime.iat raw
    grants ← validate_grants raw
    ok (record {
      zed_edge_capability = version;
      iss = identity.iss;
      aud = identity.aud;
      sub = identity.sub;
      sid = lineage.sid;
      parent_jti = lineage.parent_jti;
      assurance = provenance.assurance;
      session_epoch = provenance.session_epoch;
      policy_epoch = provenance.policy_epoch;
      revocation_checked_at = provenance.revocation_checked_at;
      iat = lifetime.iat;
      nbf = lifetime.nbf;
      exp = lifetime.exp;
      jti = identity.jti;
      grants = grants;
    })
