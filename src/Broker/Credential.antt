-- ===== src/Broker/Credential.antt =====
-- provider-credential-broker.js: `validateGithubCredential` and `githubCredentialHeaders`.
use zed_infra.Base.{
  refl, ℕ, ◌+◌, ◌≤◌, ◌<◌, String, Bool, true, false, not, ◌&&◌, ◌||◌, Option, none, some, List, [],
  ◌∷◌, leb, ltb, ◌==◌, size, includes, all, member, Result, ok, reject_if, require, ◌>>=◌, ◌>>◌,
  ◌≡◌, passed, bound, returned, require-eq-ok, of_not, arith, All, and-true,
}
use zed_infra.Json.{
  Json, get, keys, entries, is_record, is_str, checked, checked-eq-some, as_nat, as_int, Integer,
  exactly_str, exactly_str-eq-some, str, is_str-eq-true,
}
use zed_infra.Capability.Checks.{known_keys}
use zed_infra.Capability.Plan.{ProviderRequestPlan, BrokerContext}
use zed_infra.Broker.{
  BrokerCode, invalid_response, unknown_field, scope_mismatch, ttl_widened, invalid_permissions,
  response_keys, broker_contract_version, broker_freshness_skew_seconds,
}

pub record Credential : Type 0 where
  pub resource : String
  pub credential_ref : String
  pub capability_id : String
  pub access_token : String
  pub issued_at : Integer
  pub expires_at : Integer
  pub permissions : List (String × Json)

abbrev is_version : Option ℕ → Bool
is_version none = false
is_version (some n) = n == broker_contract_version

is_github_credential : Json → Bool
is_github_credential raw =
    is_version (as_nat (get "version" raw))
    && is_str "github" (get "provider" raw)
    && is_str "github-app-installation" (get "kind" raw)

pub token_form : String → Bool
token_form s =
    leb 16 (size s) && leb (size s) 4096 && not (includes 0x0d s) && not (includes 0x0a s)

-- `issued < now - 30 || issued > now + 30 || expires <= now || expires <= issued`
not_current : ℕ → Integer → Integer → Bool
not_current now issued expires =
    ltb (issued.up + broker_freshness_skew_seconds) (now + issued.down)
    || ltb (now + broker_freshness_skew_seconds + issued.down) issued.up
    || leb expires.up (now + expires.down)
    || leb (expires.up + issued.down) (issued.up + expires.down)

-- `expires > capabilityExpiresAt || expires - now > requestedTtl + 30`
too_long : ℕ → ℕ → ℕ → Integer → Bool
too_long now ttl limit expires =
    ltb (limit + expires.down) expires.up
    || ltb (ttl + broker_freshness_skew_seconds + now + expires.down) expires.up

allowed_permission : String × Json → Bool
allowed_permission (key, value) = member key ("contents" ∷ "metadata" ∷ []) && is_str "read" value

unfoldable pub validate_permissions : Json → Result BrokerCode (List (String × Json))
unfolding allowed_permission
validate_permissions permissions = do
  reject_if (not (is_record permissions)) invalid_permissions
  reject_if (not (all allowed_permission (entries permissions))) invalid_permissions
  reject_if (not (is_str "read" (get "contents" permissions))) invalid_permissions
  ok (entries permissions)

unfoldable pub validate_github_credential :
    Json → ProviderRequestPlan → BrokerContext → ℕ → ℕ → Result BrokerCode Credential
unfolding is_github_credential exactly_str token_form not_current too_long
validate_github_credential raw plan context now requested_ttl = do
  reject_if (not (is_record raw)) invalid_response
  reject_if (not (known_keys response_keys (keys raw))) unknown_field
  reject_if (not (is_github_credential raw)) invalid_response
  resource ← require (exactly_str plan.resource (get "resource" raw)) scope_mismatch
  reference ← require (exactly_str plan.credential_ref (get "credential_ref" raw)) scope_mismatch
  capability ← require (exactly_str context.capability_id (get "capability_id" raw)) scope_mismatch
  token ← require (checked token_form (get "access_token" raw)) invalid_response
  issued_at ← require (as_int (get "issued_at" raw)) invalid_response
  expires_at ← require (as_int (get "expires_at" raw)) invalid_response
  reject_if (not_current now issued_at expires_at) invalid_response
  reject_if (too_long now requested_ttl context.capability_expires_at expires_at) ttl_widened
  permissions ← validate_permissions (get "permissions" raw)
  ok (record {
    resource = resource;
    credential_ref = reference;
    capability_id = capability;
    access_token = token;
    issued_at = issued_at;
    expires_at = expires_at;
    permissions = permissions;
  })

-- Each permission reads the contents or the metadata, and nothing else.
abbrev pub IsReadOnly : String × Json → Type 0
IsReadOnly (key, value) = (member key ("contents" ∷ "metadata" ∷ []) ≡ true) × (value ≡ str "read")

-- The broker's answer as a credential for exactly the scope that was asked for, alive at `now`, that expires no later than
-- the capability and at most 30 seconds past the time asked for, and that may only read.
pub record IsScoped (raw : Json) (plan : ProviderRequestPlan) (context : BrokerContext)
    (now ttl : ℕ) (c : Credential) : Type 0 where
  pub its_resource : get "resource" raw ≡ str c.resource
  pub its_reference : get "credential_ref" raw ≡ str c.credential_ref
  pub its_capability : get "capability_id" raw ≡ str c.capability_id
  pub its_token : get "access_token" raw ≡ str c.access_token
  pub its_issue : as_int (get "issued_at" raw) ≡ some c.issued_at
  pub its_expiry : as_int (get "expires_at" raw) ≡ some c.expires_at
  pub its_permissions : c.permissions ≡ entries (get "permissions" raw)
  pub resource : c.resource ≡ plan.resource
  pub reference : c.credential_ref ≡ plan.credential_ref
  pub capability : c.capability_id ≡ context.capability_id
  pub token : token_form c.access_token ≡ true
  pub unexpired : now + c.expires_at.down < c.expires_at.up
  pub within_capability : c.expires_at.up ≤ context.capability_expires_at + c.expires_at.down
  pub within_request : c.expires_at.up ≤ now + ttl + 30 + c.expires_at.down
  pub recent : now + c.issued_at.down ≤ c.issued_at.up + 30
  pub not_future : c.issued_at.up ≤ now + 30 + c.issued_at.down
  pub read_only : All IsReadOnly c.permissions

allowed_permission-IsReadOnly :
    (ps : List (String × Json)) → all allowed_permission ps ≡ true → All IsReadOnly ps
unfolding allowed_permission
allowed_permission-IsReadOnly [] h = tt
allowed_permission-IsReadOnly ((key, value) ∷ ps) h =
    let (here, later) =
      and-true (member key ("contents" ∷ "metadata" ∷ []) && is_str "read" value) _ h in
    let (known, read) = and-true (member key ("contents" ∷ "metadata" ∷ [])) _ here in
    ((known, is_str-eq-true "read" value read), allowed_permission-IsReadOnly ps later)

validate_permissions-All :
    (v : Json) {ps : List (String × Json)}
    → validate_permissions v ≡ ok ps
    → (ps ≡ entries v) × All IsReadOnly ps
unfolding validate_permissions
validate_permissions-All v h = passed _ _ _ h λ _ h₁. passed _ _ _ h₁ λ each h₂.
    passed _ _ _ h₂ λ _ h₃.
      returned (λ ps. (ps ≡ entries v) × All IsReadOnly ps) h₃
        (refl, allowed_permission-IsReadOnly (entries v) (of_not _ each))

fields-IsScoped :
    (raw : Json) (plan : ProviderRequestPlan) (context : BrokerContext) (now ttl : ℕ)
    (c : Credential)
    → (get "resource" raw ≡ str c.resource) × (c.resource ≡ plan.resource)
    → (get "credential_ref" raw ≡ str c.credential_ref) × (c.credential_ref ≡ plan.credential_ref)
    → (get "capability_id" raw ≡ str c.capability_id) × (c.capability_id ≡ context.capability_id)
    → (get "access_token" raw ≡ str c.access_token) × (token_form c.access_token ≡ true)
    → as_int (get "issued_at" raw) ≡ some c.issued_at
    → as_int (get "expires_at" raw) ≡ some c.expires_at
    → not_current now c.issued_at c.expires_at ≡ false
    → too_long now ttl context.capability_expires_at c.expires_at ≡ false
    → (c.permissions ≡ entries (get "permissions" raw)) × All IsReadOnly c.permissions
    → IsScoped raw plan context now ttl c
unfolding not_current too_long
fields-IsScoped raw plan context now ttl c resource reference capability token issue expiry current
      short permissions =
    record {
      its_resource = resource.0;
      its_reference = reference.0;
      its_capability = capability.0;
      its_token = token.0;
      its_issue = issue;
      its_expiry = expiry;
      its_permissions = permissions.0;
      resource = resource.1;
      reference = reference.1;
      capability = capability.1;
      token = token.1;
      unexpired = ground arith;
      within_capability = ground arith;
      within_request = ground arith;
      recent = ground arith;
      not_future = ground arith;
      read_only = permissions.1;
    }

-- Whatever the broker answered, a credential that is accepted is made of the answer's own fields, and
-- is for the plan's resource and
-- reference under the context's capability, is issued within 30 seconds of `now`, expires after
-- `now`, no later than the capability and at most 30 seconds past the time asked for, and its
-- permissions are to read the contents or the metadata.
pub validate_github_credential-IsScoped :
    (raw : Json) (plan : ProviderRequestPlan) (context : BrokerContext) (now ttl : ℕ)
    {c : Credential}
    → validate_github_credential raw plan context now ttl ≡ ok c
    → IsScoped raw plan context now ttl c
unfolding validate_github_credential
validate_github_credential-IsScoped raw plan context now ttl h = passed _ _ _ h λ _ h₁.
    passed _ _ _ h₁ λ _ h₂. passed _ _ _ h₂ λ _ h₃. bound _ _ h₃ λ resource r h₄.
      bound _ _ h₄ λ reference f h₅. bound _ _ h₅ λ capability k h₆. bound _ _ h₆ λ token t h₇.
        bound _ _ h₇ λ issued i h₈. bound _ _ h₈ λ expires e h₉. passed _ _ _ h₉ λ current h₁₀.
          passed _ _ _ h₁₀ λ short h₁₁. bound _ _ h₁₁ λ permissions p h₁₂.
            returned (IsScoped raw plan context now ttl) h₁₂ (
              fields-IsScoped raw plan context now ttl _
                (exactly_str-eq-some plan.resource (get "resource" raw) (require-eq-ok _ _ r))
                (exactly_str-eq-some plan.credential_ref (get "credential_ref" raw)
                  (require-eq-ok _ _ f))
                (exactly_str-eq-some context.capability_id (get "capability_id" raw)
                  (require-eq-ok _ _ k))
                (checked-eq-some token_form (get "access_token" raw) (require-eq-ok _ _ t))
                (require-eq-ok _ _ i) (require-eq-ok _ _ e) current short
                (validate_permissions-All _ p))
