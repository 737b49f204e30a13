-- ===== src/Broker/Exchange.antt =====
-- provider-credential-broker.js: `requestProviderCredential`, and the whole exchange of a token
-- for a provider credential.
use zed_infra.Base.{
  ℕ, ◌+◌, ◌≤◌, ◌<◌, String, Bool, false, not, Option, none, some, List, length, ltb, Result, ok,
  err, reject_if, require, ◌>>=◌, ◌>>◌, ◌≡◌, passed, followed, bound, returned, arith, ◌∙◌, IsIn,
}
use zed_infra.Http.{has_no_store, is_json_type}
use zed_infra.Json.{Json}
use zed_infra.Capability.{Claims, Grant, Runtime}
use zed_infra.Capability.ClaimSet.Valid.{validate_claims-IsValidClaims}
use zed_infra.Capability.Token.{Options, verify_edge_capability}
use zed_infra.Capability.Token.Verified.{verify_edge_capability-IsVerified}
use zed_infra.Capability.Plan.{
  ProviderRequestPlan, BrokerContext, Request, plan_provider_request,
  broker_context_from_capability,
}
use zed_infra.Capability.Plan.Confined.{plan_provider_request-IsPlanFor}
use zed_infra.Capability.Plan.Context.{broker_context_from_capability-IsContextOf}
use zed_infra.Broker.{
  BrokerCode, BrokerRequest, broker_rejected, unsafe_cache_policy, invalid_response,
  response_too_large, broker_max_response_bytes, broker_request,
}
use zed_infra.Broker.Credential.{
  Credential, validate_github_credential, validate_github_credential-IsScoped,
}
use zed_infra.Broker.Gate.{broker_request_only_v2}

-- What the client reads of the broker's response.
pub record BrokerResponse : Type 0 where
  pub successful : Bool
  pub cache_control : Option String
  pub content_type : Option String
  pub content_length : Option String
  pub body : List ℕ

-- The service binding, and of the runtime: the clock, `Number(text) > n`, `TextDecoder` and
-- `JSON.parse`.
pub record BrokerRuntime : Type 0 where
  pub fetch : BrokerRequest → BrokerResponse
  pub clock : ℕ
  pub exceeds : String → ℕ → Bool
  pub decode : List ℕ → String
  pub parse_json : String → Option Json

abbrev header_or_empty : Option String → String
header_or_empty none = ""
header_or_empty (some s) = s

-- the value of `context.nowEpochSeconds ?? …`
abbrev pub now_or : ℕ → Option ℕ → ℕ
now_or clock none = clock
now_or clock (some now) = now

module _ (rt : BrokerRuntime) where
  open rt use {fetch, clock, exceeds, decode, parse_json}

  too_large : Option String → Bool
  too_large none = false
  too_large (some text) = exceeds text broker_max_response_bytes

  -- all checks of the response before its contents
  unfoldable pub read_response : BrokerResponse → Result BrokerCode Json
  unfolding too_large
  read_response response = do
    reject_if (not response.successful) broker_rejected
    reject_if (not (has_no_store response.cache_control)) unsafe_cache_policy
    reject_if (not (is_json_type (header_or_empty response.content_type))) invalid_response
    reject_if (too_large response.content_length) response_too_large
    reject_if (ltb broker_max_response_bytes (length response.body)) response_too_large
    require (parse_json (decode response.body)) invalid_response

  unfoldable pub request_provider_credential :
      ProviderRequestPlan → BrokerContext → Json → Option ℕ → Result BrokerCode Credential
  request_provider_credential plan context requested_ttl given_now = do
    let now = now_or clock given_now
    body ← broker_request plan context requested_ttl now
    raw ← read_response (fetch body)
    validate_github_credential raw plan context now body.requested_ttl_seconds

  -- Where the request is refused, the result is the refusal, whatever the broker would answer.
  pub request_refused :
      (plan : ProviderRequestPlan) (context : BrokerContext) (ttl : Json) (given : Option ℕ)
      {e : BrokerCode}
      → broker_request plan context ttl (now_or clock given) ≡ err e
      → request_provider_credential plan context ttl given ≡ err e
  unfolding request_provider_credential ◌>>=◌
  request_refused plan context ttl given h = rw h

requested_ttl_bound :
    (plan : ProviderRequestPlan) (context : BrokerContext) (ttl : Json) (now : ℕ)
    {body : BrokerRequest}
    → broker_request plan context ttl now ≡ ok body
    → (body.requested_ttl_seconds ≤ 300)
      × (1 ≤ body.requested_ttl_seconds)
      × (now + body.requested_ttl_seconds ≤ context.capability_expires_at)
unfolding broker_request
requested_ttl_bound plan context ttl now h = followed _ _ h λ _ h₁. followed _ _ h₁ λ _ h₂.
    passed _ _ _ h₂ λ alive h₃. bound _ _ h₃ λ requested _ h₄. passed _ _ _ h₄ λ some_left h₅.
      returned
        (λ (b : BrokerRequest).
          (b.requested_ttl_seconds ≤ 300)
          × (1 ≤ b.requested_ttl_seconds)
          × (now + b.requested_ttl_seconds ≤ context.capability_expires_at))
        h₅ (ground arith, ground arith, ground arith)

-- What a caller of the whole chain holds at the end.
pub record IsExchanged (c : Claims) (request : Request) (now : ℕ) (credential : Credential)
    : Type 0 where
  pub version : c.zed_edge_capability ≡ 2
  pub grant : Grant
  pub granted : IsIn grant c.grants
  pub package_name : grant.package_name ≡ request.package_name
  pub granted_repository : grant.resource ≡ request.resource
  pub repository : credential.resource ≡ request.resource
  pub reference : credential.credential_ref ≡ grant.credential_ref
  pub capability : credential.capability_id ≡ c.jti
  pub alive : now + credential.expires_at.down < credential.expires_at.up
  pub no_longer : credential.expires_at.up ≤ c.exp + credential.expires_at.down
  pub short : credential.expires_at.up ≤ c.iat + 300 + credential.expires_at.down

-- From a token to a credential: if the token is verified, a plan and a context are made from its
-- claims and the broker client returns a credential, then the capability has version 2, one of its
-- grants names the requested package and repository, the credential is for that grant's reference
-- and that repository under the capability's id, and it expires after now, no later than the
-- capability and so within 300 seconds of the capability's issue, whatever the broker answered.
pub exchange-IsExchanged :
    (rt : Runtime) (bt : BrokerRuntime) (token : Json) (o : Options) (request : Request)
    (ttl : Json) (now : Option ℕ) {c : Claims} {plan : ProviderRequestPlan} {x : BrokerContext}
    {k : Credential}
    → verify_edge_capability rt token o ≡ ok c
    → plan_provider_request rt (some c) request ≡ ok plan
    → broker_context_from_capability (some c) ≡ ok x
    → request_provider_credential bt plan x ttl now ≡ ok k
    → IsExchanged c request (now_or bt.clock now) k
unfolding request_provider_credential
exchange-IsExchanged rt bt token o request ttl now {c} {plan} {x} verified planned made exchanged =
    bound _ _ exchanged λ body sent h₁. bound _ _ h₁ λ raw _ h₂.
      let v = verify_edge_capability-IsVerified rt token o verified in
      let valid = validate_claims-IsValidClaims rt v.policy v.raw v.validated in
      let p = plan_provider_request-IsPlanFor rt c request planned in
      let context = broker_context_from_capability-IsContextOf c made in
      let s = validate_github_credential-IsScoped raw plan x _ _ h₂ in
      record {
        version = broker_request_only_v2 rt v.policy c plan ttl _ valid made sent;
        grant = p.grant;
        granted = p.granted;
        package_name = p.package_name;
        granted_repository = p.resource;
        repository = cc (s.resource, p.planned);
        reference = cc (s.reference, p.planned);
        capability = s.capability ∙ context.capability;
        alive = s.unexpired;
        no_longer = omega (arith, s.within_capability, context.expiry);
        short = omega (
          arith, s.within_capability, context.expiry, valid.alive.bounded, v.of_verifier.ttl_capped,
        );
      }
