-- ===== src/Capability/Plan/Context.antt =====
-- What the credential broker's client is told of a capability.
use zed_infra.Base.{
  ℕ, Option, none, some, ok, err, ◌≡◌, refl, ◌⊎◌, passed, bound, returned, require-eq-ok, arith,
  require, sym, ok-injective, ◌>>=◌, reject_if, ◌>>◌,
}
use zed_infra.Capability.{lineage_required, Claims}
use zed_infra.Capability.Plan.{BrokerContext, only_v3, broker_context_from_capability}

-- The context names the capability, its principal, its expiry and its lineage, and carries the
-- facts of version 3, and of that version only, unchanged.
pub record IsContextOf (c : Claims) (x : BrokerContext) : Type 0 where
  pub version : (c.zed_edge_capability ≡ 2) ⊎ (c.zed_edge_capability ≡ 3)
  pub principal : x.principal ≡ c.sub
  pub session : c.sid ≡ some x.session_lineage
  pub parent : c.parent_jti ≡ some x.parent_jti
  pub capability : x.capability_id ≡ c.jti
  pub expiry : x.capability_expires_at ≡ c.exp
  pub assurance : x.assurance ≡ only_v3 c.zed_edge_capability c.assurance
  pub session_epoch : x.session_epoch ≡ only_v3 c.zed_edge_capability c.session_epoch
  pub policy_epoch : x.policy_epoch ≡ only_v3 c.zed_edge_capability c.policy_epoch
  pub revocation : x.revocation_checked_at ≡ only_v3 c.zed_edge_capability c.revocation_checked_at

pub only_v3-three : (v : ℕ) (fact : Option ℕ) → v ≡ 3 → only_v3 v fact ≡ fact
unfolding only_v3
only_v3-three v fact e = ground arith

pub only_v3-two : (v : ℕ) (fact : Option ℕ) → v ≡ 2 → only_v3 v fact ≡ none
unfolding only_v3
only_v3-two v fact e = ground arith

-- If a broker context is made from a capability, the capability has version 2 or 3 and the context
-- names its subject, lineage, id and expiry, and has the four facts of version 3 exactly for
-- version 3.
pub broker_context_from_capability-IsContextOf :
    (c : Claims) {x : BrokerContext}
    → broker_context_from_capability (some c) ≡ ok x
    → IsContextOf c x
unfolding broker_context_from_capability require
broker_context_from_capability-IsContextOf c {x} h = bound _ _ h λ claims given h₁.
    passed _ _ _ h₁ λ version h₂. bound _ _ h₂ λ sid s h₃. bound _ _ h₃ λ parent p h₄.
      let same : claims ≡ c = sym (ok-injective given) in
      let context : IsContextOf claims x = returned (IsContextOf claims) h₄ (record {
        version = ground arith;
        principal = refl;
        session = require-eq-ok _ _ s;
        parent = require-eq-ok _ _ p;
        capability = refl;
        expiry = refl;
        assurance = refl;
        session_epoch = refl;
        policy_epoch = refl;
        revocation = refl;
      }) in
      rw same at context

-- Version 1 carries no lineage and gives no context.
pub broker_context_v1 :
    (c : Claims)
    → c.zed_edge_capability ≡ 1
    → broker_context_from_capability (some c) ≡ err lineage_required
unfolding broker_context_from_capability require ◌>>=◌ ◌>>◌ reject_if
broker_context_v1 c one = ground arith
