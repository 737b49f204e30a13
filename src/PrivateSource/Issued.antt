-- ===== src/PrivateSource/Issued.antt =====
-- From a capability to a credential of a private source.
use zed_infra.Base.{
  ℕ, ◌+◌, ◌≤◌, ◌<◌, String, true, length, Option, none, some, ◌≡◌, refl, arith, ===_iff, member, ok,
  passed, ◌∙◌, ap, sym, bound, returned, require-eq-ok, of_not,
}
use zed_infra.Json.{
  int, as_nat, as_nat-eq-some, checked-eq-some, Json, str, get, is_str-eq-true, exactly_str-eq-some,
}
use zed_infra.PrivateSource.{
  SourceResponse, bounded_string, Resource, on_github, on_npm, on_cargo, SourceRequest,
  SourceCredential, SourceRuntime, allowed_providers, names_resource, validate_resource,
  broker_request_from_capability, same_resource, kind_of, within_policy, validate_credential,
  request_source_credential,
}

-- What the broker answered to the request.
pub record IsAnswer (binding : Option SourceRuntime) (request : SourceRequest) (answer : Json)
    : Type 0 where
  pub runtime : SourceRuntime
  pub bound_to : binding ≡ some runtime
  pub response : SourceResponse
  pub fetched : runtime.fetch request ≡ some response
  pub successful : response.successful ≡ true
  pub bounded : length response.body ≤ 32768
  pub parsed : runtime.parse_json (runtime.decode response.body) ≡ some answer

-- A credential for what a capability allows, made of the broker's answer.
pub record IsIssued (binding : Option SourceRuntime) (request : SourceRequest) (capability : Json)
    (provider : String) (resource : Json) (now : ℕ) (credential : SourceCredential) : Type 0 where
  pub allowed : member provider allowed_providers ≡ true
  pub source : get "provider" (get "source" capability) ≡ str provider
  pub answer : Json
  pub answered : IsAnswer binding request answer
  pub its_provider : get "provider" answer ≡ str credential.provider
  pub its_kind : get "kind" answer ≡ str credential.kind
  pub its_token : get "token" answer ≡ str credential.token
  pub its_expiry : get "expiresAt" answer ≡ int credential.expires_at
  pub same_provider : credential.provider ≡ provider
  pub asked_for : validate_resource provider resource ≡ ok credential.resource
  pub named : names_resource (get "source" capability) credential.resource ≡ true
  pub kind : credential.kind ≡ kind_of credential.resource
  pub alive : now < credential.expires_at
  pub brief : credential.expires_at ≤ now + 300

-- A request that a capability allows.
record IsRequested (capability : Json) (provider : String) (resource : Json)
    (request : SourceRequest) : Type 0 where
  pub allowed : member provider allowed_providers ≡ true
  pub source : get "provider" (get "source" capability) ≡ str provider
  pub same_provider : request.provider ≡ provider
  pub asked_for : validate_resource provider resource ≡ ok request.resource
  pub named : names_resource (get "source" capability) request.resource ≡ true

broker_request_from_capability-IsRequested :
    (capability : Json) (provider : String) (resource : Json) {request : SourceRequest}
    → broker_request_from_capability capability provider resource ≡ ok request
    → IsRequested capability provider resource request
unfolding broker_request_from_capability
broker_request_from_capability-IsRequested capability provider resource h =
    passed _ _ _ h λ object h₁. passed _ _ _ h₁ λ known h₂. passed _ _ _ h₂ λ same h₃.
      bound _ _ h₃ λ r v h₄. passed _ _ _ h₄ λ named h₅. bound _ _ h₅ λ principal p h₆.
        bound _ _ h₆ λ session s h₇. bound _ _ h₇ λ id i h₈.
          returned (IsRequested capability provider resource) h₈ (record {
            allowed = of_not _ known;
            source = is_str-eq-true provider _ (of_not _ same);
            same_provider = refl;
            asked_for = v;
            named = of_not _ named;
          })

same_resource-eq-true : (a b : Resource) → same_resource a b ≡ true → a ≡ b
unfolding same_resource
same_resource-eq-true (on_github a b) (on_github c d) h = ground (arith, ===_iff a c, ===_iff b d)
same_resource-eq-true (on_npm a b) (on_npm c d) h = ground (arith, ===_iff a c, ===_iff b d)
same_resource-eq-true (on_cargo a b) (on_cargo c d) h = ground (arith, ===_iff a c, ===_iff b d)
same_resource-eq-true (on_github a b) (on_npm c d) h = cc h
same_resource-eq-true (on_github a b) (on_cargo c d) h = cc h
same_resource-eq-true (on_npm a b) (on_github c d) h = cc h
same_resource-eq-true (on_npm a b) (on_cargo c d) h = cc h
same_resource-eq-true (on_cargo a b) (on_github c d) h = cc h
same_resource-eq-true (on_cargo a b) (on_npm c d) h = cc h

bounded_string-eq-ok : (v : Json) (most : ℕ) {s : String} → bounded_string v most ≡ ok s → v ≡ str s
unfolding bounded_string
bounded_string-eq-ok v most h = (checked-eq-some _ v (require-eq-ok _ _ h)).0

within_policy-eq-some :
    (now : ℕ) (o : Option ℕ) {n : ℕ}
    → within_policy now o ≡ some n
    → (o ≡ some n) × (now < n) × (n ≤ now + 300)
unfolding within_policy
within_policy-eq-some now none h = cc h
within_policy-eq-some now (some m) h = ground arith

record IsFor (value : Json) (request : SourceRequest) (now : ℕ) (credential : SourceCredential)
    : Type 0 where
  pub its_provider : get "provider" value ≡ str credential.provider
  pub its_kind : get "kind" value ≡ str credential.kind
  pub its_token : get "token" value ≡ str credential.token
  pub its_expiry : get "expiresAt" value ≡ int credential.expires_at
  pub provider : credential.provider ≡ request.provider
  pub resource : credential.resource ≡ request.resource
  pub kind : credential.kind ≡ kind_of credential.resource
  pub lifetime : (now < credential.expires_at) × (credential.expires_at ≤ now + 300)

validate_credential-IsFor :
    (value : Json) (request : SourceRequest) (now : ℕ) {credential : SourceCredential}
    → validate_credential value request now ≡ ok credential
    → IsFor value request now credential
unfolding validate_credential
validate_credential-IsFor value request now h = passed _ _ _ h λ object h₁.
    passed _ _ _ h₁ λ schema h₂. bound _ _ h₂ λ provider p h₃. bound _ _ h₃ λ token t h₄.
      bound _ _ h₄ λ expires e h₅. bound _ _ h₅ λ resource r h₆. passed _ _ _ h₆ λ same h₇.
        bound _ _ h₇ λ kind k h₈.
          let of_provider =
            exactly_str-eq-some request.provider (get "provider" value) (require-eq-ok _ _ p) in
          let of_kind =
            exactly_str-eq-some (kind_of resource) (get "kind" value) (require-eq-ok _ _ k) in
          let (number, later, soon) =
            within_policy-eq-some now (as_nat (get "expiresAt" value)) (require-eq-ok _ _ e) in
          returned (IsFor value request now) h₈ (record {
            its_provider = of_provider.0;
            its_kind = of_kind.0;
            its_token = bounded_string-eq-ok (get "token" value) 8192 t;
            its_expiry = (as_nat-eq-some (get "expiresAt" value) number).0;
            provider = of_provider.1;
            resource = same_resource-eq-true resource request.resource (of_not _ same);
            kind = of_kind.1;
            lifetime = (later, soon);
          })

-- A credential, with the answer that it is made of.
record IsReturned (binding : Option SourceRuntime) (request : SourceRequest) (now : ℕ)
    (credential : SourceCredential) : Type 0 where
  pub answer : Json
  pub answered : IsAnswer binding request answer
  pub valid : IsFor answer request now credential

request_source_credential-IsReturned :
    (binding : Option SourceRuntime) (request : SourceRequest) (now : ℕ)
    {credential : SourceCredential}
    → request_source_credential binding request now ≡ ok credential
    → IsReturned binding request now credential
unfolding request_source_credential
request_source_credential-IsReturned none request now h = cc h
request_source_credential-IsReturned (some rt) request now h = bound _ _ h λ response r h₁.
    passed _ _ _ h₁ λ successful h₂. passed _ _ _ h₂ λ declared h₃. passed _ _ _ h₃ λ small h₄.
      bound _ _ h₄ λ value v h₅. record {
        answer = value;
        answered = record {
          runtime = rt;
          bound_to = refl;
          response = response;
          fetched = require-eq-ok _ _ r;
          successful = of_not _ successful;
          bounded = ground arith;
          parsed = require-eq-ok _ _ v;
        };
        valid = validate_credential-IsFor value request now h₅;
      }

-- If a request is made from a capability for a provider and a resource, and a credential is returned
-- for it, then the provider is one of the three and the capability's source is of that provider
-- and names the resource. The broker answered the request with success and at most 32 KiB, and the
-- credential's provider, kind, token and expiry are those of the answer, whatever it was: the kind
-- is that of the provider, the resource is exactly the one asked for, and the expiry is after now
-- and within 300 seconds.
pub request_source_credential-IsIssued :
    (binding : Option SourceRuntime) (capability : Json) (provider : String) (resource : Json)
    (now : ℕ) {request : SourceRequest} {credential : SourceCredential}
    → broker_request_from_capability capability provider resource ≡ ok request
    → request_source_credential binding request now ≡ ok credential
    → IsIssued binding request capability provider resource now credential
request_source_credential-IsIssued binding capability provider resource now made got =
    let q = broker_request_from_capability-IsRequested capability provider resource made in
    let given = request_source_credential-IsReturned binding _ now got in
    let c = given.valid in
    record {
      answer = given.answer;
      answered = given.answered;
      its_provider = c.its_provider;
      its_kind = c.its_kind;
      its_token = c.its_token;
      its_expiry = c.its_expiry;
      allowed = q.allowed;
      source = q.source;
      same_provider = c.provider ∙ q.same_provider;
      asked_for = q.asked_for ∙ ap ok (sym c.resource);
      named = ap (names_resource (get "source" capability)) c.resource ∙ q.named;
      kind = c.kind;
      alive = c.lifetime.0;
      brief = c.lifetime.1;
    }
