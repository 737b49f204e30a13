-- ===== src/Capability/Outage.antt =====
-- edge-capability.js: `validateOutageAdmission` and the integers of its policy.
use zed_infra.Base.{
  ℕ, ◌+◌, ◌-◌, ◌≤◌, ◌<◌, Bool, false, not, ◌&&◌, ◌||◌, Option, none, some, leb, ltb, ◌==◌, Result,
  ok, reject_if, ◌>>=◌, ◌>>◌, ◌≡◌, ◌⊎◌, ◌↔◌, bound, passed, returned, allowed, arith, ◌∙◌,
}
use zed_infra.Json.{Json, get, is_record}
use zed_infra.Capability.{
  Code, outage_context_required, outage_policy_rejected, invalid_outage_policy, Claims,
  edge_capability_max_ttl_seconds,
}
use zed_infra.Capability.Checks.{bounded_integer}

-- `boundedOutageInteger`
abbrev outage_integer : Json → Result Code ℕ
outage_integer = bounded_integer invalid_outage_policy

unfoldable pub outage_window : Json → Result Code ℕ
outage_window v = do
  seconds ← outage_integer v
  reject_if (ltb edge_capability_max_ttl_seconds seconds) invalid_outage_policy
  ok seconds

pub record OutagePolicy : Type 0 where
  pub started_at : ℕ
  pub jwks_refreshed_at : ℕ
  pub minimum_assurance : ℕ
  pub minimum_session_epoch : ℕ
  pub minimum_policy_epoch : ℕ
  pub max_capability_age : ℕ
  pub max_revocation_age : ℕ
  pub max_jwks_age : ℕ
  pub max_outage : ℕ

-- the first half of `validateOutageAdmission`, which reads the verifier's own policy
unfoldable pub read_policy : Json → Result Code OutagePolicy
read_policy raw = do
  reject_if (not (is_record raw)) outage_context_required
  started_at ← outage_integer (get "startedAtEpochSeconds" raw)
  refreshed_at ← outage_integer (get "jwksRefreshedAtEpochSeconds" raw)
  assurance ← outage_integer (get "minimumAssurance" raw)
  session_epoch ← outage_integer (get "minimumSessionEpoch" raw)
  policy_epoch ← outage_integer (get "minimumPolicyEpoch" raw)
  reject_if (not (assurance == 1) && not (assurance == 2)) invalid_outage_policy
  capability_age ← outage_window (get "maxCapabilityAgeSeconds" raw)
  revocation_age ← outage_window (get "maxRevocationAgeSeconds" raw)
  jwks_age ← outage_window (get "maxJwksAgeSeconds" raw)
  outage ← outage_window (get "maxOutageSeconds" raw)
  ok (record {
    started_at = started_at;
    jwks_refreshed_at = refreshed_at;
    minimum_assurance = assurance;
    minimum_session_epoch = session_epoch;
    minimum_policy_epoch = policy_epoch;
    max_capability_age = capability_age;
    max_revocation_age = revocation_age;
    max_jwks_age = jwks_age;
    max_outage = outage;
  })

-- A number that the claims may lack: a comparison with `undefined` is false.
below : Option ℕ → ℕ → Bool
below none n = false
below (some m) n = ltb m n

-- `now - checkedAt`, whose sign the code tests; with no `checkedAt` it is NaN, and both tests fail
stale : Option ℕ → ℕ → ℕ → Bool
stale none now most = false
stale (some checked_at) now most = ltb now checked_at || ltb most (now - checked_at)

below_policy : OutagePolicy → Claims → ℕ → Bool
unfolding below
below_policy p c now =
    below c.assurance p.minimum_assurance
    || below c.session_epoch p.minimum_session_epoch
    || below c.policy_epoch p.minimum_policy_epoch
    || ltb now c.iat
    || ltb now c.nbf
    || leb c.exp now
    || ltb now p.started_at
    || ltb now p.jwks_refreshed_at

too_old : OutagePolicy → Claims → ℕ → Bool
unfolding stale
too_old p c now =
    ltb p.max_capability_age (now - c.iat)
    || stale c.revocation_checked_at now p.max_revocation_age
    || ltb p.max_jwks_age (now - p.jwks_refreshed_at)
    || ltb p.max_outage (now - p.started_at)

-- the second half; the ages of the last three tests are not negative after the first
unfoldable pub admit : OutagePolicy → Claims → ℕ → Result Code (Unit {0})
unfolding below_policy too_old
admit p c now = do
  reject_if (below_policy p c now) outage_policy_rejected
  reject_if (too_old p c now) outage_policy_rejected
  ok tt

unfoldable pub validate_outage_admission : Claims → Json → ℕ → Result Code (Unit {0})
validate_outage_admission c raw now = do policy ← read_policy raw; admit policy c now

-- The verifier's policy is within bounds: an assurance of 1 or 2, and windows of at most 300
-- seconds.
pub record IsBoundedPolicy (p : OutagePolicy) : Type 0 where
  pub assurance : (p.minimum_assurance ≡ 1) ⊎ (p.minimum_assurance ≡ 2)
  pub capability_age : p.max_capability_age ≤ 300
  pub revocation_age : p.max_revocation_age ≤ 300
  pub jwks_age : p.max_jwks_age ≤ 300
  pub outage : p.max_outage ≤ 300

-- What an outage admits: a capability strong and recent enough that is alive with no skew, whose
-- revocation check, key snapshot and outage are all recent too.
pub record IsAdmitted (p : OutagePolicy) (c : Claims) (now a s e r : ℕ) : Type 0 where
  pub assured : p.minimum_assurance ≤ a
  pub session : p.minimum_session_epoch ≤ s
  pub policy : p.minimum_policy_epoch ≤ e
  pub issued : c.iat ≤ now
  pub active : c.nbf ≤ now
  pub unexpired : now < c.exp
  pub started : p.started_at ≤ now
  pub refreshed : p.jwks_refreshed_at ≤ now
  pub checked : r ≤ now
  pub capability_recent : now ≤ c.iat + p.max_capability_age
  pub revocation_recent : now ≤ r + p.max_revocation_age
  pub jwks_recent : now ≤ p.jwks_refreshed_at + p.max_jwks_age
  pub outage_recent : now ≤ p.started_at + p.max_outage

outage_window-le : (v : Json) {n : ℕ} → outage_window v ≡ ok n → n ≤ 300
unfolding outage_window
outage_window-le v h =
    bound _ _ h λ n _ h₁. passed _ _ _ h₁ λ small h₂. returned (λ n. n ≤ 300) h₂ (ground arith)

-- If the verifier's outage policy is read at all, it asks for an assurance of 1 or 2 and each of its
-- four windows is at most 300 seconds.
pub read_policy-IsBoundedPolicy :
    (raw : Json) {p : OutagePolicy} → read_policy raw ≡ ok p → IsBoundedPolicy p
unfolding read_policy
read_policy-IsBoundedPolicy raw h = passed _ _ _ h λ _ h₁. bound _ _ h₁ λ _ _ h₂.
    bound _ _ h₂ λ _ _ h₃. bound _ _ h₃ λ a _ h₄. bound _ _ h₄ λ _ _ h₅. bound _ _ h₅ λ _ _ h₆.
      passed _ _ _ h₆ λ level h₇. bound _ _ h₇ λ _ w₁ h₈. bound _ _ h₈ λ _ w₂ h₉.
        bound _ _ h₉ λ _ w₃ h₁₀. bound _ _ h₁₀ λ _ w₄ h₁₁. returned IsBoundedPolicy h₁₁ (record {
          assurance = ground arith;
          capability_age = outage_window-le _ w₁;
          revocation_age = outage_window-le _ w₂;
          jwks_age = outage_window-le _ w₃;
          outage = outage_window-le _ w₄;
        })

module _ (p : OutagePolicy) (c : Claims) (now a s e r : ℕ) (assurance : c.assurance ≡ some a)
    (session_epoch : c.session_epoch ≡ some s) (policy_epoch : c.policy_epoch ≡ some e)
    (checked_at : c.revocation_checked_at ≡ some r) where
  admit-IsAdmitted : admit p c now ≡ ok tt → IsAdmitted p c now a s e r
  unfolding admit
  admit-IsAdmitted h = passed _ _ _ h λ h₁ h'. passed _ _ _ h' λ h₂ _. ground arith

  IsAdmitted-admit : IsAdmitted p c now a s e r → admit p c now ≡ ok tt
  unfolding admit
  IsAdmitted-admit h = allowed _ _ _ (ground arith) ∙ allowed _ _ _ (ground arith)

  -- For claims that have all four facts, an outage policy admits them exactly when the assurance
  -- and both epochs reach the policy's minima, the capability has been issued, is active and has
  -- not expired with no skew, no time lies in the future, and the ages of the capability, of its
  -- revocation check, of the key snapshot and of the outage are within the policy's windows.
  pub admit_iff : (admit p c now ≡ ok tt) ↔ IsAdmitted p c now a s e r
  admit_iff = (admit-IsAdmitted, IsAdmitted-admit)
