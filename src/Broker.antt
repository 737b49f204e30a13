-- ===== src/Broker.antt =====
-- workers/shared/provider-credential-broker.js: the client of the credential broker.
pub mod Credential
pub mod Exchange
pub mod Gate
use zed_infra.Base.{
  ℕ, ◌+◌, ◌*◌, ◌-◌, ◌<◌, String, Bool, true, false, not, ◌&&◌, ◌||◌, Option, none, some, List, [],
  ◌∷◌, leb, ltb, ◌==◌, ◌===◌, size, min, is_alnum, one_of, matches, Result, ok, err, reject_if,
  require, ◌>>=◌, ◌>>◌, if◌then◌else◌,
}
use zed_infra.Json.{Json, int, as_nat, or_else, max_safe_integer}
use zed_infra.Capability.{github_repository, credential_ref_form}
use zed_infra.Capability.Plan.{ProviderRequestPlan, BrokerContext}

abbrev pub broker_contract_version : ℕ
broker_contract_version = 1

abbrev pub broker_max_ttl_seconds : ℕ
broker_max_ttl_seconds = 300

abbrev pub broker_max_response_bytes : ℕ
broker_max_response_bytes = 16 * 1024

abbrev pub broker_freshness_skew_seconds : ℕ
broker_freshness_skew_seconds = 30

unfoldable pub identifier : String → Bool
unfolding matches is_alnum one_of
identifier = matches is_alnum (λ c. is_alnum c || one_of ":._/-" c) 0 255

abbrev pub response_keys : List String
response_keys =
    "version" ∷ "provider" ∷ "kind" ∷ "resource" ∷ "credential_ref" ∷ "capability_id"
    ∷ "access_token" ∷ "issued_at" ∷ "expires_at" ∷ "permissions" ∷ []

-- The `code` of a `CredentialBrokerError`.
pub data BrokerCode : Type 0 where
  capability_expired invalid_ttl broker_rejected unsafe_cache_policy invalid_response : BrokerCode
  response_too_large unsupported_provider write_forbidden invalid_package : BrokerCode
  invalid_resource invalid_credential_ref invalid_context v3_broker_protocol_required : BrokerCode
  unknown_field scope_mismatch ttl_widened invalid_permissions invalid_credential : BrokerCode

unfoldable pub validate_plan : ProviderRequestPlan → Result BrokerCode (Unit {0})
validate_plan plan = do
  reject_if (not (plan.provider === "github")) unsupported_provider
  reject_if (not (plan.operation === "read")) write_forbidden
  reject_if (ltb (size plan.package_name) 3 || ltb 257 (size plan.package_name)) invalid_package
  reject_if (not (github_repository plan.resource)) invalid_resource
  reject_if (not (credential_ref_form plan.credential_ref)) invalid_credential_ref
  ok tt

abbrev is_given : Option ℕ → Bool
is_given none = false
is_given (some n) = true

-- `Number.isSafeInteger(v) && v >= 0`, of a value that may be `undefined`
abbrev is_safe : Option ℕ → Bool
is_safe none = false
is_safe (some n) = leb n max_safe_integer

abbrev is_one_or_two : Option ℕ → Bool
is_one_or_two none = false
is_one_or_two (some n) = (n == 1) || (n == 2)

-- the v3 facts, of which any one refuses the request
reject_v3 : BrokerContext → Result BrokerCode (Unit {0})
reject_v3 c =
    if is_given c.assurance
      || is_given c.session_epoch
      || is_given c.policy_epoch
      || is_given c.revocation_checked_at
    then (if not (is_one_or_two c.assurance)
          || not (is_safe c.session_epoch)
          || not (is_safe c.policy_epoch)
          || not (is_safe c.revocation_checked_at)
        then err invalid_context
        else err v3_broker_protocol_required)
    else ok tt

unfoldable pub validate_context : BrokerContext → Result BrokerCode (Unit {0})
unfolding reject_v3
validate_context c = do
  reject_if (not (identifier c.principal)) invalid_context
  reject_if (not (identifier c.session_lineage)) invalid_context
  reject_if (not (identifier c.parent_jti)) invalid_context
  reject_if (not (identifier c.capability_id)) invalid_context
  reject_if (not (leb c.capability_expires_at max_safe_integer)) invalid_context
  reject_v3 c

-- The body of the request to the broker.
pub record BrokerRequest : Type 0 where
  pub version : ℕ
  pub provider : String
  pub operation : String
  pub package_name : String
  pub resource : String
  pub credential_ref : String
  pub principal : String
  pub session_lineage : String
  pub parent_jti : String
  pub capability_id : String
  pub requested_ttl_seconds : ℕ

ttl_setting : Option ℕ → Option ℕ
ttl_setting none = none
ttl_setting (some n) = if leb 1 n && leb n broker_max_ttl_seconds then some n else none

-- All of `requestProviderCredential` before `broker.fetch`: nothing is sent unless it returns.
unfoldable pub broker_request :
    ProviderRequestPlan → BrokerContext → Json → ℕ → Result BrokerCode BrokerRequest
unfolding ttl_setting
broker_request plan context requested_ttl now = do
  validate_plan plan
  validate_context context
  reject_if (leb context.capability_expires_at now) capability_expired
  requested ←
      require (ttl_setting (as_nat (or_else requested_ttl (int broker_max_ttl_seconds))))
        invalid_ttl
  let ttl = min requested (min (context.capability_expires_at - now) broker_max_ttl_seconds)
  reject_if (ltb ttl 1) capability_expired
  ok (record {
    version = broker_contract_version;
    provider = plan.provider;
    operation = "read";
    package_name = plan.package_name;
    resource = plan.resource;
    credential_ref = plan.credential_ref;
    principal = context.principal;
    session_lineage = context.session_lineage;
    parent_jti = context.parent_jti;
    capability_id = context.capability_id;
    requested_ttl_seconds = ttl;
  })
