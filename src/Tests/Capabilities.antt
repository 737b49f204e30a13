-- ===== src/Tests/Capabilities.antt =====
-- Verified capabilities.

use zed_infra.Base.{
  none, [], ◌∷◌, ◌≡◌, refl, ok, err, inl, inr, arith, ◌>>=◌, ◌>>◌, reject_if, require, traverse,
  distinct_from, any, split, size, every, matches, is_alnum, is_lower_alnum, one_of, member,
}
use zed_infra.Json.{
  Json, int, str, undefined, get, keys, is_record, as_arr, as_nat, is_str, is_undefined, or_else,
  truthy, checked, same_str,
}
use zed_infra.Capability.{jti_form, lineage_id, slug, github_repository, credential_ref_form}
use zed_infra.Capability.Checks.{
  is_supported_capability_version, bounded_integer, is_package_coordinate, known_keys,
  reject_unknown_keys,
}
use zed_infra.Capability.Grants.{validate_grant, present}
use zed_infra.Capability.ClaimSet.{
  claim_version, claim_keys, subject_form, validate_identity, validate_lineage, validate_lifetime,
  validate_provenance, same_key, validate_grants, validate_claims,
}
use zed_infra.Capability.Token.{
  bounded_token, verifier_ttl, verifier_skew, three_parts, usable, has_kid, same_kid, select_key,
  snapshot_keys, decode_base64_url, decode_json_segment, parse_jwks, header_kid, verifier_policy,
  verify_signature, verify_edge_capability,
}
use zed_infra.Base.{◌≤◌, ◌<◌, IsIn}
use zed_infra.Json.{Json}
use zed_infra.Capability.{invalid_verifier_policy}
use zed_infra.Capability.Grants.{IsValidGrant, validate_grant-IsValidGrant}
use zed_infra.Capability.ClaimSet.Valid.{IsValidClaims, validate_claims-IsValidClaims}
use zed_infra.Capability.Token.{Options}
use zed_infra.Capability.Token.Keys.{IsTrusted, select_key-IsTrusted, select_key_order_free}
use zed_infra.Capability.Token.Verified.{
  IsVerified, verify_edge_capability-IsVerified, verified_lifetime, wide_ttl_rejected,
}
use zed_infra.Tests.Samples.{
  raw_grant, raw_claims, key_1, key_2, jwks, options, runtime, policy, grant, claims,
}

pub sample_claims : validate_claims runtime policy raw_claims ≡ ok claims
unfolding validate_claims ◌>>=◌ ◌>>◌ reject_if require is_record claim_version get as_nat
    is_supported_capability_version claim_keys reject_unknown_keys known_keys keys member
    validate_identity is_str checked subject_form size every jti_form matches is_alnum one_of
    validate_lineage lineage_id validate_lifetime bounded_integer is_undefined validate_provenance
    validate_grants as_arr traverse validate_grant is_package_coordinate split slug is_lower_alnum
    credential_ref_form github_repository distinct_from any same_key present
sample_claims = refl

sample_key : select_key "edge-key-1" (key_2 ∷ key_1 ∷ []) ≡ ok key_1
unfolding select_key ◌>>=◌ ◌>>◌ reject_if is_str get checked jti_form matches is_alnum one_of size
    every usable has_kid truthy distinct_from same_kid same_str
sample_key = refl

pub sample_verified : verify_edge_capability runtime (str "aa.bb.cc") options ≡ ok claims
unfolding verify_edge_capability ◌>>=◌ ◌>>◌ reject_if require checked bounded_token size three_parts
    split verifier_policy verifier_ttl verifier_skew or_else as_nat decode_json_segment
    decode_base64_url every is_alnum one_of verify_signature header_kid is_record
    reject_unknown_keys known_keys keys member is_str get jti_form matches parse_jwks snapshot_keys
    as_arr select_key usable has_kid truthy distinct_from same_kid same_str validate_claims
    claim_version is_supported_capability_version claim_keys validate_identity subject_form
    validate_lineage lineage_id validate_lifetime bounded_integer is_undefined validate_provenance
    validate_grants traverse validate_grant is_package_coordinate slug is_lower_alnum
    credential_ref_form github_repository same_key present
sample_verified = refl

sample_key_reversed : select_key "edge-key-1" (key_1 ∷ key_2 ∷ []) ≡ ok key_1
unfolding select_key ◌>>=◌ ◌>>◌ reject_if is_str get checked jti_form matches is_alnum one_of size
    every usable has_kid truthy distinct_from same_kid same_str
sample_key_reversed = refl

sample_grant : validate_grant runtime raw_grant ≡ ok grant
unfolding ◌>>=◌ ◌>>◌ reject_if require is_record get keys member is_str checked size every matches
    is_alnum one_of reject_unknown_keys known_keys is_undefined validate_grant is_package_coordinate
    split slug is_lower_alnum credential_ref_form github_repository present
sample_grant = refl

verify_edge_capability-IsVerified_example : IsVerified runtime (str "aa.bb.cc") options claims
verify_edge_capability-IsVerified_example =
    verify_edge_capability-IsVerified runtime (str "aa.bb.cc") options sample_verified

verified_lifetime_example : (1200 ≤ 1300) × (1100 < 1230) × (1000 ≤ 1130)
verified_lifetime_example = verified_lifetime runtime (str "aa.bb.cc") options sample_verified

abbrev wide : Options
wide = record {
  issuer = str "https://api";
  jwks = jwks;
  audience = none;
  now = none;
  max_ttl = int 301;
  clock_skew = undefined;
  outage = undefined;
}

wide_ttl_rejected_example :
    verify_edge_capability runtime (str "aa.bb.cc") wide ≡ err invalid_verifier_policy
unfolding bounded_token size
wide_ttl_rejected_example =
    wide_ttl_rejected runtime "aa.bb.cc" "https://api" wide 301 refl refl refl refl (omega arith)

validate_claims-IsValidClaims_example : IsValidClaims runtime policy claims
validate_claims-IsValidClaims_example =
    validate_claims-IsValidClaims runtime policy raw_claims sample_claims

validate_grant-IsValidGrant_example : IsValidGrant runtime grant
validate_grant-IsValidGrant_example = validate_grant-IsValidGrant runtime raw_grant sample_grant

select_key-IsTrusted_example : IsTrusted "edge-key-1" (key_2 ∷ key_1 ∷ []) key_1
select_key-IsTrusted_example = select_key-IsTrusted "edge-key-1" (key_2 ∷ key_1 ∷ []) sample_key

swapped : (x : Json) → IsIn x (key_2 ∷ key_1 ∷ []) → IsIn x (key_1 ∷ key_2 ∷ [])
swapped x (inl e) = inr (inl e)
swapped x (inr (inl e)) = inl e
swapped x (inr (inr e)) = inr (inr e)

select_key_order_free_example : key_1 ≡ key_1
select_key_order_free_example =
    select_key_order_free "edge-key-1" (key_2 ∷ key_1 ∷ []) (key_1 ∷ key_2 ∷ []) swapped sample_key
      sample_key_reversed
