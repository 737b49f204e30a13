-- ===== src/Capability/Token/Verified.antt =====
-- What a capability that `verify_edge_capability` returns has passed.
use zed_infra.Base.{
  ℕ, ◌+◌, ◌≤◌, ◌<◌, String, true, false, Option, none, some, List, ◌==◌, ◌===◌, ◌⧺◌, split, ok, err,
  ◌≡◌, refl, passed, followed, bound, returned, require-eq-ok, of_not, arith, ok-injective, ◌>>=◌,
  require,
}
use zed_infra.Json.{Json, str, checked, checked-eq-some, as_nat, or_else, int}
use zed_infra.Capability.{invalid_verifier_policy, edge_capability_audience, Claims, Runtime}
use zed_infra.Capability.ClaimSet.{Policy, validate_claims}
use zed_infra.Capability.ClaimSet.Valid.{validate_claims-IsValidClaims}
use zed_infra.Capability.Outage.{
  OutagePolicy, read_policy, admit, validate_outage_admission, IsBoundedPolicy,
  read_policy-IsBoundedPolicy,
}
use zed_infra.Capability.Token.{
  Options, default, Parts, bounded_token, three_parts, in_range, verifier_ttl, verifier_skew,
  verifier_policy, header_kid, parse_jwks, decode_base64_url, decode_json_segment, verify_signature,
  admit_version, verify_edge_capability,
}
use zed_infra.Capability.Token.Keys.{IsTrusted, select_key-IsTrusted}

in_range-eq-some :
    (lo hi : ℕ) (o : Option ℕ) {n : ℕ} → in_range lo hi o ≡ some n → (lo ≤ n) × (n ≤ hi)
unfolding in_range
in_range-eq-some lo hi none h = ground arith
in_range-eq-some lo hi (some m) h = ground arith

module _ (rt : Runtime) where
  -- The policy is the verifier's own: its issuer, and a lifetime and a skew that are no wider than
  -- the contract's.
  pub record IsPolicyOf (o : Options) (p : Policy) : Type 0 where
    pub issuer : o.issuer ≡ str p.issuer
    pub audience : p.audience ≡ default o.audience edge_capability_audience
    pub now : p.now ≡ default o.now rt.clock
    pub ttl_positive : 1 ≤ p.max_ttl
    pub ttl_capped : p.max_ttl ≤ 300
    pub skew_capped : p.clock_skew ≤ 30

  verifier_policy-IsPolicyOf :
      (o : Options) {p : Policy} → verifier_policy rt o ≡ ok p → IsPolicyOf o p
  unfolding verifier_policy verifier_ttl verifier_skew
  verifier_policy-IsPolicyOf o h = bound _ _ h λ issuer i h₁. bound _ _ h₁ λ max_ttl t h₂.
      bound _ _ h₂ λ skew s h₃.
        let (positive, capped) =
          in_range-eq-some 1 300 (as_nat (or_else o.max_ttl (int 300))) (require-eq-ok _ _ t) in
        returned (IsPolicyOf o) h₃ (record {
          issuer = (checked-eq-some _ _ (require-eq-ok _ _ i)).0;
          audience = refl;
          now = refl;
          ttl_positive = positive;
          ttl_capped = capped;
          skew_capped =
              (in_range-eq-some 0 30 (as_nat (or_else o.clock_skew (int 30)))
                (require-eq-ok _ _ s)).1;
        })

  -- The text of the first two segments carries a signature by a trusted key of the snapshot.
  pub record IsSigned (parts : Parts) (header jwks : Json) : Type 0 where
    pub kid : String
    pub keys : List Json
    pub jwk : Json
    pub key : ℕ
    pub signature : List ℕ
    pub requested : header_kid rt header ≡ ok kid
    pub snapshot : parse_jwks rt jwks ≡ ok keys
    pub trusted : IsTrusted kid keys jwk
    pub imported : rt.import_key jwk ≡ some key
    pub decoded : decode_base64_url rt parts.signature ≡ ok signature
    pub genuine : rt.verify key signature (parts.header ⧺ "." ⧺ parts.claims) ≡ true

  verify_signature-IsSigned :
      (parts : Parts) (header jwks : Json) {u : Unit {0}}
      → verify_signature rt parts header jwks ≡ ok u
      → IsSigned parts header jwks
  unfolding verify_signature
  verify_signature-IsSigned parts header jwks h = bound _ _ h λ kid requested h₁.
      bound _ _ h₁ λ keys snapshot h₂. bound _ _ h₂ λ jwk chosen h₃. bound _ _ h₃ λ key imported h₄.
        bound _ _ h₄ λ signature decoded h₅. passed _ _ _ h₅ λ valid _. record {
          kid = kid;
          keys = keys;
          jwk = jwk;
          key = key;
          signature = signature;
          requested = requested;
          snapshot = snapshot;
          trusted = select_key-IsTrusted kid keys chosen;
          imported = require-eq-ok _ _ imported;
          decoded = decoded;
          genuine = of_not _ valid;
        }

  -- A version 3 capability is admitted by the verifier's own outage policy, whose windows are
  -- bounded.
  pub record IsOutageAdmitted (o : Options) (p : Policy) (c : Claims) : Type 0 where
    pub policy : OutagePolicy
    pub read : read_policy o.outage ≡ ok policy
    pub windows : IsBoundedPolicy policy
    pub admitted : admit policy c p.now ≡ ok tt

  admit_version-IsOutageAdmitted :
      (o : Options) (p : Policy) (c : Claims)
      → admit_version rt o p c ≡ ok tt
      → c.zed_edge_capability ≡ 3
      → IsOutageAdmitted o p c
  unfolding admit_version validate_outage_admission
  admit_version-IsOutageAdmitted o p c h three =
      let e : (c.zed_edge_capability == 3) ≡ true = ground arith in
      bound _ _ (rw e at h) λ policy read h₁. record {
        policy = policy;
        read = read;
        windows = read_policy-IsBoundedPolicy o.outage read;
        admitted = h₁;
      }

  pub record IsVerified (token : Json) (o : Options) (c : Claims) : Type 0 where
    pub text : String
    pub given : token ≡ str text
    pub policy : Policy
    pub of_verifier : IsPolicyOf o policy
    pub parts : Parts
    pub segments : three_parts (split b'.' text) ≡ some parts
    pub header : Json
    pub raw : Json
    pub header_read : decode_json_segment rt parts.header ≡ ok header
    pub claims_read : decode_json_segment rt parts.claims ≡ ok raw
    pub signed : IsSigned parts header o.jwks
    pub validated : validate_claims rt policy raw ≡ ok c
    pub outage : c.zed_edge_capability ≡ 3 → IsOutageAdmitted o policy c

  -- If a capability is returned, the token is a text of three segments, the signature over its
  -- first two is by the one eligible key of the snapshot with the header's `kid`, the claims are
  -- what those bytes decode to and are valid under the verifier's own policy (lifetime at most 300
  -- and skew at most 30 seconds), and version 3 is admitted by a bounded outage policy.
  pub verify_edge_capability-IsVerified :
      (token : Json) (o : Options) {c : Claims}
      → verify_edge_capability rt token o ≡ ok c
      → IsVerified token o c
  unfolding verify_edge_capability
  verify_edge_capability-IsVerified token o {c} h = bound _ _ h λ text t h₁.
      bound _ _ h₁ λ policy p h₂. bound _ _ h₂ λ parts s h₃. bound _ _ h₃ λ header hd h₄.
        bound _ _ h₄ λ raw cl h₅. followed _ _ h₅ λ sg h₆. bound _ _ h₆ λ verified v h₇.
          followed _ _ h₇ λ adm h₈.
            let same : verified ≡ c = ok-injective h₈ in
            record {
              text = text;
              given = (checked-eq-some _ _ (require-eq-ok _ _ t)).0;
              policy = policy;
              of_verifier = verifier_policy-IsPolicyOf o p;
              parts = parts;
              segments = require-eq-ok _ _ s;
              header = header;
              raw = raw;
              header_read = hd;
              claims_read = cl;
              signed = verify_signature-IsSigned parts header o.jwks sg;
              validated = rw same at v;
              outage = admit_version-IsOutageAdmitted o policy c (rw same at adm);
            }

  -- Whatever the verifier's settings, a returned capability was issued for at most 300 seconds, and
  -- the verifier's clock is less than 30 seconds past its expiry and at most 30 before its issue.
  pub verified_lifetime :
      (token : Json) (o : Options) {c : Claims}
      → verify_edge_capability rt token o ≡ ok c
      → (c.exp ≤ c.iat + 300)
        × (default o.now rt.clock < c.exp + 30)
        × (c.iat ≤ default o.now rt.clock + 30)
  verified_lifetime token o h =
      let v = verify_edge_capability-IsVerified token o h in
      let alive = (validate_claims-IsValidClaims rt v.policy v.raw v.validated).alive in
      omega (
        arith, alive.bounded, alive.fresh, alive.issued, v.of_verifier.ttl_capped,
        v.of_verifier.skew_capped, v.of_verifier.now,
      )

  verifier_ttl_wide :
      (v : Json) (n : ℕ) → v ≡ int n → 300 < n → verifier_ttl v ≡ err invalid_verifier_policy
  unfolding verifier_ttl or_else as_nat require in_range
  verifier_ttl_wide v n e w = rw e (ground arith)

  -- For a token of bounded length and an issuer that is not empty, a lifetime setting above 300
  -- seconds is refused as an invalid policy, whatever the token, the keys and the other settings.
  pub wide_ttl_rejected :
      (text issuer : String) (o : Options) (n : ℕ)
      → bounded_token text ≡ true
      → o.issuer ≡ str issuer
      → issuer === "" ≡ false
      → o.max_ttl ≡ int n
      → 300 < n
      → verify_edge_capability rt (str text) o ≡ err invalid_verifier_policy
  unfolding verify_edge_capability verifier_policy ◌>>=◌ require checked
  wide_ttl_rejected text issuer o n b i e t w =
      rw (b, i) (rw e (rw (verifier_ttl_wide o.max_ttl n t w)))
