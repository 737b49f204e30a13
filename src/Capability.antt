-- ===== src/Capability.antt =====
-- workers/shared/edge-capability.js: its constants, grammars and data. The checks of a capability
-- are in the modules below, one for each stage of `verifyEdgeCapability` and `planProviderRequest`.
pub mod Checks
pub mod Grants
pub mod ClaimSet
pub mod Outage
pub mod Token
pub mod Plan
use zed_infra.Base.{
  ℕ, ◌*◌, String, Bool, false, not, ◌&&◌, ◌||◌, Option, List, [], ◌∷◌, ◌===◌, leb, size, split,
  every, is_alnum, is_lower_alnum, is_digit, one_of, matches, length, all,
}
use zed_infra.Json.{Json}

abbrev pub edge_capability_audience : String
edge_capability_audience = "zed-edge-fallback"

abbrev pub edge_capability_max_ttl_seconds : ℕ
edge_capability_max_ttl_seconds = 300

abbrev pub edge_capability_clock_skew_seconds : ℕ
edge_capability_clock_skew_seconds = 30

abbrev pub max_token_bytes : ℕ
max_token_bytes = 24 * 1024

abbrev pub max_json_bytes : ℕ
max_json_bytes = 16 * 1024

abbrev pub max_grants : ℕ
max_grants = 16

-- `/^[a-z0-9]+(?:-[a-z0-9]+)*$/`: the runs between dashes
unfoldable pub slug : String → Bool
unfolding split every is_lower_alnum
slug s = all (λ run. not (run === "") && every is_lower_alnum run) (split b'-' s)

abbrev owner_or_repo : String → Bool
owner_or_repo s = not (s === "") && every (λ c. is_alnum c || one_of "_.-" c) s

both : (String → Bool) → List String → Bool
both p (a ∷ b ∷ []) = p a && p b
both p _ = false

-- `/^[A-Za-z0-9_.-]+\/[A-Za-z0-9_.-]+$/`
unfoldable pub github_repository : String → Bool
unfolding both split every is_alnum one_of
github_repository s = both owner_or_repo (split b'/' s)

abbrev npm_name : String → Bool
npm_name s = matches is_lower_alnum (λ c. is_lower_alnum c || one_of "._-" c) 0 (max_token_bytes) s

scoped : List String → Bool
scoped (String.◌∷◌ c a ∷ b ∷ []) = (String.◌∷◌ c "" === "@") && npm_name a && npm_name b
scoped _ = false

-- `/^@[a-z0-9][a-z0-9._-]*\/[a-z0-9][a-z0-9._-]*$/`. The resource is at most 256 long where it is
-- tested, so that the bound on a name excludes nothing.
unfoldable pub npm_scoped_package : String → Bool
unfolding scoped split matches is_lower_alnum one_of
npm_scoped_package s = scoped (split b'/' s)

unfoldable pub cargo_crate : String → Bool
unfolding matches is_alnum one_of
cargo_crate = matches is_alnum (λ c. is_alnum c || one_of "_-" c) 0 127

unfoldable pub cargo_version : String → Bool
unfolding matches is_digit is_alnum one_of
cargo_version = matches is_digit (λ c. is_alnum c || one_of ".+-" c) 0 127

unfoldable pub credential_ref_form : String → Bool
unfolding matches is_alnum one_of
credential_ref_form = matches is_alnum (λ c. is_alnum c || one_of ":._/-" c) 0 191

unfoldable pub jti_form : String → Bool
unfolding matches is_alnum one_of
jti_form = matches is_alnum (λ c. is_alnum c || one_of "._:-" c) 7 191

unfoldable pub lineage_id : String → Bool
unfolding matches is_alnum one_of
lineage_id = matches is_alnum (λ c. is_alnum c || one_of ":._/-" c) 0 255

abbrev pub header_keys : List String
header_keys = "alg" ∷ "typ" ∷ "kid" ∷ []

abbrev pub claim_keys_v1 : List String
claim_keys_v1 =
    "zed_edge_capability" ∷ "iss" ∷ "aud" ∷ "sub" ∷ "iat" ∷ "nbf" ∷ "exp" ∷ "jti" ∷ "grants" ∷ []

abbrev pub claim_keys_v2 : List String
claim_keys_v2 = "sid" ∷ "parent_jti" ∷ claim_keys_v1

abbrev pub claim_keys_v3 : List String
claim_keys_v3 =
    "assurance" ∷ "session_epoch" ∷ "policy_epoch" ∷ "revocation_checked_at" ∷ claim_keys_v2

abbrev pub grant_keys : List String
grant_keys = "provider" ∷ "operation" ∷ "package" ∷ "resource" ∷ "origin" ∷ "credential_ref" ∷ []

abbrev pub providers : List String
providers = "github" ∷ "npm" ∷ "cargo-registry" ∷ []

-- The `code` of an `EdgeCapabilityError`; `type_error` is the `TypeError` of a missing issuer.
pub data Code : Type 0 where
  type_error invalid_token invalid_verifier_policy invalid_header unsupported_algorithm : Code
  invalid_kid unknown_kid ambiguous_kid invalid_jwk invalid_jwks invalid_signature : Code
  unverified_capability write_forbidden grant_mismatch invalid_provider_url : Code
  lineage_required invalid_claims invalid_version invalid_issuer invalid_audience : Code
  invalid_subject invalid_jti invalid_lineage invalid_lifetime not_yet_valid expired : Code
  invalid_assurance invalid_revocation_checkpoint invalid_grants duplicate_grant : Code
  invalid_grant invalid_provider invalid_operation invalid_package invalid_credential_ref : Code
  invalid_resource invalid_origin provider_destination_mismatch outage_context_required : Code
  outage_policy_rejected invalid_outage_policy invalid_time_claim unknown_field : Code

pub record Grant : Type 0 where
  pub provider : String
  pub operation : String
  pub package_name : String
  pub resource : String
  pub origin : Option String
  pub credential_ref : String

pub record Claims : Type 0 where
  pub zed_edge_capability : ℕ
  pub iss : String
  pub aud : String
  pub sub : String
  pub sid : Option String
  pub parent_jti : Option String
  pub assurance : Option ℕ
  pub session_epoch : Option ℕ
  pub policy_epoch : Option ℕ
  pub revocation_checked_at : Option ℕ
  pub iat : ℕ
  pub nbf : ℕ
  pub exp : ℕ
  pub jti : String
  pub grants : List Grant

-- What the code reads of a `URL`.
pub record Url : Type 0 where
  pub href : String
  pub protocol : String
  pub username : String
  pub password : String
  pub hostname : String
  pub port : String
  pub pathname : String
  pub search : String
  pub hash : String
  pub origin : String

-- What the Workers runtime supplies: the clock in seconds, `JSON.parse`, `new URL`,
-- `decodeURIComponent`, `atob`, the fatal `TextDecoder` and WebCrypto; `none` where it throws. An
-- imported key is known by a handle; a signature is verified over the bytes of a text.
pub record Runtime : Type 0 where
  pub clock : ℕ
  pub parse_json : String → Option Json
  pub parse_url : String → Option Url
  pub decode_uri : String → Option String
  pub atob : String → Option (List ℕ)
  pub utf8 : List ℕ → Option String
  pub import_key : Json → Option ℕ
  pub verify : ℕ → List ℕ → String → Bool
