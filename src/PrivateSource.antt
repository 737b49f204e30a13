-- ===== src/PrivateSource.antt =====
-- workers/shared/private-source-broker.js: the request for a credential that a capability allows, and
-- the checks of the broker's answer.
pub mod Issued
use zed_infra.Base.{
  ℕ, ◌+◌, ◌*◌, String, Bool, true, false, not, ◌&&◌, ◌||◌, Option, none, some, List, [], ◌∷◌, leb,
  ltb, ◌===◌, ◌⧺◌, size, member, length, Result, ok, err, reject_if, require, ◌>>=◌, ◌>>◌,
  if◌then◌else◌,
}
use zed_infra.Json.{
  Json, undefined, null, int, get, is_str, exactly_str, is_record, is_object_like, as_nat, checked,
}
use zed_infra.Origin.{Headers, header_set}

abbrev pub max_response_bytes : ℕ
max_response_bytes = 32 * 1024

abbrev pub allowed_providers : List String
allowed_providers = "github" ∷ "npm" ∷ "cargo-registry" ∷ []

abbrev pub max_ttl_seconds : ℕ
max_ttl_seconds = 300

-- The errors, by what their messages are about.
pub data Fault : Type 0 where
  invalid_text invalid_resource unsupported_provider invalid_capability provider_mismatch : Fault
  resource_mismatch broker_unavailable broker_denied response_too_large response_malformed : Fault
  schema_mismatch credential_provider credential_expiry credential_resource credential_kind : Fault

-- `boundedString`
unfoldable pub bounded_string : Json → ℕ → Result Fault String
unfolding size checked
bounded_string v most = require (checked (λ s. not (s === "") && leb (size s) most) v) invalid_text

-- A checked resource of one of the providers.
pub data Resource : Type 0 where
  on_github on_npm on_cargo : String → String → Resource

unfoldable pub two_texts :
    (String → String → Resource) → String → String → Json → Result Fault Resource
unfolding bounded_string get
two_texts make first second resource = do
  a ← bounded_string (get first resource) 512
  b ← bounded_string (get second resource) 512
  ok (make a b)

unfoldable pub validate_resource : String → Json → Result Fault Resource
unfolding two_texts is_record
validate_resource provider resource = do
  reject_if (not (is_record resource)) invalid_resource
  (if provider === "github"
      then two_texts on_github "owner" "repo" resource
      else if provider === "npm"
      then two_texts on_npm "scope" "package" resource
      else if provider === "cargo-registry"
      then two_texts on_cargo "registry" "package" resource
      else err unsupported_provider)

-- The capability's source names this resource.
unfoldable pub names_resource : Json → Resource → Bool
unfolding is_str get
names_resource source (on_github owner repo) =
    is_str owner (get "owner" source) && is_str repo (get "repo" source)
names_resource source (on_npm scope name) =
    is_str scope (get "scope" source) && is_str name (get "package" source)
names_resource source (on_cargo registry name) =
    is_str registry (get "registry" source) && is_str name (get "package" source)

pub record SourceRequest : Type 0 where
  pub provider : String
  pub resource : Resource
  pub principal : String
  pub session_id : String
  pub capability_id : String
  pub auth_epoch : Json
  pub policy_epoch : Json
  pub expires_at : Json

-- `brokerRequestFromCapability`
unfoldable pub broker_request_from_capability : Json → String → Json → Result Fault SourceRequest
unfolding is_object_like member validate_resource names_resource bounded_string is_str get
broker_request_from_capability capability provider resource = do
  let source = get "source" capability
  let proof = get "proof" capability
  reject_if (not (is_object_like capability)) invalid_capability
  reject_if (not (member provider allowed_providers)) unsupported_provider
  reject_if (not (is_str provider (get "provider" source))) provider_mismatch
  checked_resource ← validate_resource provider resource
  reject_if (not (names_resource source checked_resource)) resource_mismatch
  principal ← bounded_string (get "subject" capability) 512
  session_id ← bounded_string (get "sessionId" proof) 512
  capability_id ← bounded_string (get "jti" capability) 512
  ok (record {
    provider = provider;
    resource = checked_resource;
    principal = principal;
    session_id = session_id;
    capability_id = capability_id;
    auth_epoch = get "authEpoch" proof;
    policy_epoch = get "policyEpoch" proof;
    expires_at = get "exp" capability;
  })

pub record SourceCredential : Type 0 where
  pub provider : String
  pub kind : String
  pub token : String
  pub expires_at : ℕ
  pub resource : Resource

-- `JSON.stringify` of two checked resources gives the same text.
unfoldable pub same_resource : Resource → Resource → Bool
same_resource (on_github a b) (on_github c d) = a === c && b === d
same_resource (on_npm a b) (on_npm c d) = a === c && b === d
same_resource (on_cargo a b) (on_cargo c d) = a === c && b === d
same_resource _ _ = false

unfoldable pub kind_of : Resource → String
kind_of (on_github a b) = "github-app-installation"
kind_of (on_npm a b) = "npm-read-token"
kind_of (on_cargo a b) = "cargo-registry-read-token"

within_policy : ℕ → Option ℕ → Option ℕ
within_policy now none = none
within_policy now (some expires) =
    if leb expires now || ltb (now + max_ttl_seconds) expires then none else some expires

-- `validateCredential`; the resource is one of the answer's provider, whose kind is tested
unfoldable pub validate_credential : Json → SourceRequest → ℕ → Result Fault SourceCredential
unfolding is_record is_str exactly_str get bounded_string within_policy validate_resource
    same_resource kind_of as_nat
validate_credential value request now = do
  reject_if (not (is_record value)) response_malformed
  reject_if (not (is_str "zed.private-source-credential.v1" (get "schema" value))) schema_mismatch
  provider ← require (exactly_str request.provider (get "provider" value)) credential_provider
  token ← bounded_string (get "token" value) 8192
  expires_at ← require (within_policy now (as_nat (get "expiresAt" value))) credential_expiry
  resource ← validate_resource provider (get "resource" value)
  reject_if (not (same_resource resource request.resource)) credential_resource
  kind ← require (exactly_str (kind_of resource) (get "kind" value)) credential_kind
  ok (record {
    provider = provider;
    kind = kind;
    token = token;
    expires_at = expires_at;
    resource = resource;
  })

pub record SourceResponse : Type 0 where
  pub successful : Bool
  pub content_length : Option String
  pub body : List ℕ

-- The binding, none where its `fetch` throws; whether a declared length is a number above a bound; the
-- decoder and the parser, none where that throws.
pub record SourceRuntime : Type 0 where
  pub fetch : SourceRequest → Option SourceResponse
  pub exceeds : String → ℕ → Bool
  pub decode : List ℕ → String
  pub parse_json : String → Option Json

abbrev pub length_text : Option String → String
length_text none = "0"
length_text (some s) = if s === "" then "0" else s

-- `requestProviderCredential`, with its time; none for a binding that is missing
unfoldable pub request_source_credential :
    Option SourceRuntime → SourceRequest → ℕ → Result Fault SourceCredential
unfolding validate_credential
request_source_credential none request now = err broker_unavailable
request_source_credential (some rt) request now = do
  response ← require (rt.fetch request) broker_unavailable
  reject_if (not response.successful) broker_denied
  reject_if (rt.exceeds (length_text response.content_length) max_response_bytes) response_too_large
  reject_if (ltb max_response_bytes (length response.body)) response_too_large
  value ← require (rt.parse_json (rt.decode response.body)) response_malformed
  validate_credential value request now

-- `upstreamAuthorizationHeaders`
unfoldable pub upstream_authorization_headers : SourceCredential → Option Headers
unfolding member header_set
upstream_authorization_headers credential =
    if member credential.provider allowed_providers
    then some (
        header_set "authorization" ("Bearer " ⧺ credential.token)
          (("cache-control", "private, no-store") ∷ ("pragma", "no-cache") ∷ []))
    else none
