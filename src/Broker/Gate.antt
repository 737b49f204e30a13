-- ===== src/Broker/Gate.antt =====
-- How the capability checks and the credential broker's client meet: which verified capabilities
-- can be exchanged for a credential.
use zed_infra.Base.{
  ℕ, ◌<◌, ◌-◌, String, true, false, Option, none, some, ok, ◌≡◌, ◌≢◌, refl, inl, inr, passed,
  followed, require, allowed, ===_iff, arith, min, ◌∙◌, All-IsIn, checks_first, matches_mono, binds,
  leb, ltb, is_alnum, one_of, ◌||◌,
}
use zed_infra.Json.{Json, undefined, as_nat, or_else}
use zed_infra.Capability.{Claims, Runtime, jti_form, lineage_id, github_repository}
use zed_infra.Capability.Checks.{is_package_coordinate-size}
use zed_infra.Capability.Grants.{IsValidGrant, HasScope, github, npm, cargo}
use zed_infra.Capability.ClaimSet.{Policy}
use zed_infra.Capability.ClaimSet.Valid.{IsValidClaims, provenance_given, lineage_given}
use zed_infra.Capability.Plan.{
  BrokerContext, Request, ProviderRequestPlan, broker_context_from_capability,
  plan_provider_request,
}
use zed_infra.Capability.Plan.Confined.{plan_provider_request-IsPlanFor}
use zed_infra.Capability.Plan.Context.{
  only_v3-three, only_v3-two, broker_context_from_capability-IsContextOf,
}
use zed_infra.Broker.{
  BrokerRequest, identifier, validate_plan, validate_context, reject_v3, broker_request,
}

-- A context with v3 facts is refused.
reject_v3_given : (c : BrokerContext) (a : ℕ) → c.assurance ≡ some a → reject_v3 c ≢ ok tt
unfolding reject_v3
reject_v3_given c a e h = ground arith

github_repository_of_scope :
    {rt : Runtime} {p r : String} {o : Option String}
    → HasScope rt p r o
    → p ≡ "github"
    → github_repository r ≡ true
github_repository_of_scope (github form) e = form
github_repository_of_scope (npm _) e = cc ((===_iff "npm" "github").1 e)
github_repository_of_scope (cargo _ _ _ _ _) e = cc ((===_iff "cargo-registry" "github").1 e)

jti_chars :
    (c : ℕ) → (is_alnum c || one_of "._:-" c) ≡ true → (is_alnum c || one_of ":._/-" c) ≡ true
unfolding one_of
jti_chars c e = ground arith

-- The broker's identifiers include what the capability calls a `jti` and a lineage.
identifier_of_jti : (s : String) → jti_form s ≡ true → identifier s ≡ true
unfolding identifier jti_form
identifier_of_jti s h =
    matches_mono is_alnum (λ c. is_alnum c || one_of "._:-" c) (λ c. is_alnum c || one_of ":._/-" c)
      7 191 0 255 jti_chars (omega arith) (omega arith) s h

identifier_of_lineage : (s : String) → lineage_id s ≡ true → identifier s ≡ true
unfolding identifier lineage_id
identifier_of_lineage s h = h

reject_v3_bare :
    (x : BrokerContext)
    → x.assurance ≡ none
    → x.session_epoch ≡ none
    → x.policy_epoch ≡ none
    → x.revocation_checked_at ≡ none
    → reject_v3 x ≡ ok tt
unfolding reject_v3
reject_v3_bare x a s p r = rw (a, s, p, r) refl

module _ (rt : Runtime) where
  -- If a broker context is made from valid claims and the broker's client makes a request with it,
  -- the claims have version 2, whatever the plan, the lifetime asked for and the clock.
  pub broker_request_only_v2 :
      (p : Policy) (c : Claims) (plan : ProviderRequestPlan) (ttl : Json) (now : ℕ)
      {context : BrokerContext} {body : BrokerRequest}
      → IsValidClaims rt p c
      → broker_context_from_capability (some c) ≡ ok context
      → broker_request plan context ttl now ≡ ok body
      → c.zed_edge_capability ≡ 2
  unfolding broker_request validate_context
  broker_request_only_v2 p c plan ttl now {context} valid made sent =
      let x = broker_context_from_capability-IsContextOf c made in
      elim x.version [
        | inl two ↦ two
        | inr three ↦
            let (a, _, _, _, given, _, _, _) = provenance_given valid.provenance three in
            let v3 : context.assurance ≡ some a =
              x.assurance ∙ only_v3-three c.zed_edge_capability c.assurance three ∙ given in
            followed _ _ sent λ _ h₁. followed _ _ h₁ λ checked _. passed _ _ _ checked λ _ k₁.
              passed _ _ _ k₁ λ _ k₂. passed _ _ _ k₂ λ _ k₃.
                passed _ _ _ k₃
                  λ _ k₄. passed _ _ _ k₄ λ _ k₅. absurd (reject_v3_given context a v3 k₅)
      ]

  -- A plan that is made from valid claims for a GitHub request passes the checks of the broker's
  -- client.
  pub validate_plan_of_planned :
      (p : Policy) (c : Claims) (request : Request) {plan : ProviderRequestPlan}
      → IsValidClaims rt p c
      → plan_provider_request rt (some c) request ≡ ok plan
      → request.provider ≡ "github"
      → validate_plan plan ≡ ok tt
  unfolding validate_plan
  validate_plan_of_planned p c request valid planned on_github =
      let made = plan_provider_request-IsPlanFor rt c request planned in
      let g = All-IsIn (IsValidGrant rt) c.grants valid.each made.granted in
      let (_, scope, _) = g.scope in
      let (least, most) = is_package_coordinate-size made.grant.package_name g.coordinate in
      let repository = github_repository_of_scope scope (made.provider ∙ on_github) in
      rw made.planned (
        allowed _ _ _ (ground (arith, ===_iff request.provider "github"))
        ∙ (allowed _ _ _ refl
            ∙ (allowed _ _ _ (rw (← made.package_name) (ground (arith, least, most)))
                ∙ (allowed _ _ _ (rw (← made.resource, repository) refl)
                    ∙ allowed _ _ _ (rw g.reference refl)))))

  -- The context of a valid version 2 capability passes the broker client's checks if its subject is
  -- an identifier.
  validate_context_of_v2 :
      (p : Policy) (c : Claims) {x : BrokerContext}
      → IsValidClaims rt p c
      → c.zed_edge_capability ≡ 2
      → identifier c.sub ≡ true
      → broker_context_from_capability (some c) ≡ ok x
      → validate_context x ≡ ok tt
  unfolding validate_context
  validate_context_of_v2 p c {x} valid two subject made =
      let k = broker_context_from_capability-IsContextOf c made in
      let (sid, parent, has_sid, has_parent, sid_form, parent_form) =
        lineage_given valid.lineage (λ one. absurd (omega arith)) in
      let session : x.session_lineage ≡ sid = cc (k.session, has_sid) in
      let parent_is : x.parent_jti ≡ parent = cc (k.parent, has_parent) in
      let v = c.zed_edge_capability in
      allowed _ _ _ (rw (k.principal, subject) refl)
      ∙ (allowed _ _ _ (rw (session, identifier_of_lineage sid sid_form) refl)
          ∙ (allowed _ _ _ (rw (parent_is, identifier_of_lineage parent parent_form) refl)
              ∙ (allowed _ _ _ (rw (k.capability, identifier_of_jti c.jti valid.identifier) refl)
                  ∙ (allowed _ _ _ (ground (arith, k.expiry, valid.alive.safe))
                      ∙ reject_v3_bare x (k.assurance ∙ only_v3-two v _ two)
                          (k.session_epoch ∙ only_v3-two v _ two)
                          (k.policy_epoch ∙ only_v3-two v _ two)
                          (k.revocation ∙ only_v3-two v _ two)))))

  -- For valid version 2 claims whose subject is an identifier and which expire after now, a plan
  -- that is made for GitHub and the context are accepted when no lifetime is asked for, and the
  -- broker is asked for the requested resource and the plan's reference under the capability's id,
  -- for the time that the capability has left, or 300 seconds if that is less.
  pub broker_request_accepted :
      (p : Policy) (c : Claims) (request : Request) (now : ℕ) {plan : ProviderRequestPlan}
      {x : BrokerContext}
      → IsValidClaims rt p c
      → c.zed_edge_capability ≡ 2
      → identifier c.sub ≡ true
      → now < c.exp
      → request.provider ≡ "github"
      → plan_provider_request rt (some c) request ≡ ok plan
      → broker_context_from_capability (some c) ≡ ok x
      → (body : BrokerRequest) × (broker_request plan x undefined now ≡ ok body)
        × (body.resource ≡ request.resource)
        × (body.credential_ref ≡ plan.credential_ref)
        × (body.capability_id ≡ c.jti)
        × (body.requested_ttl_seconds ≡ min (c.exp - now) 300)
  unfolding broker_request require as_nat or_else
  broker_request_accepted p c request now {plan} {x} valid two subject alive on_github planned
        made =
      let k = broker_context_from_capability-IsContextOf c made in
      let made_plan = plan_provider_request-IsPlanFor rt c request planned in
      let later : now < x.capability_expires_at = omega (arith, k.expiry) in
      let ttl = min 300 (min (x.capability_expires_at - now) 300) in
      let unexpired : leb x.capability_expires_at now ≡ false = ground arith in
      let some_left : ltb ttl 1 ≡ false = ground arith in
      let sent =
        checks_first _ _ (validate_plan_of_planned p c request valid planned on_github)
        ∙ (checks_first _ _ (validate_context_of_v2 p c valid two subject made)
            ∙ (allowed _ _ _ unexpired ∙ (binds _ _ refl ∙ allowed _ _ _ some_left))) in
      (_, sent, rw made_plan.planned refl, refl, k.capability, omega (arith, k.expiry))
