-- ===== src/Capability/Token.antt =====
-- edge-capability.js: `verifyEdgeCapability` and what it reads of a token: `decodeBase64Url`,
-- `decodeJsonSegment`, `parseJwks`, and the choice of the verification key.
pub mod Keys
pub mod Verified
use zed_infra.Base.{
  ℕ, ◌+◌, ◌*◌, ◌-◌, ◌%◌, String, Char, code, Bool, true, false, not, ◌&&◌, ◌||◌, Option, none, some,
  List, [], ◌∷◌, leb, ltb, ◌==◌, ◌===◌, ◌⧺◌, size, every, is_alnum, one_of, split, length, any,
  filter, distinct_from, Result, ok, err, reject_if, require, ◌>>=◌, ◌>>◌, if◌then◌else◌,
}
use zed_infra.Json.{
  Json, int, str, get, is_record, is_str, checked, as_str, as_arr, as_nat, or_else, truthy,
  same_str,
}
use zed_infra.Capability.{
  Code, type_error, invalid_token, invalid_verifier_policy, invalid_header, unsupported_algorithm,
  invalid_kid, unknown_kid, ambiguous_kid, invalid_jwk, invalid_jwks, invalid_signature,
  edge_capability_audience, edge_capability_max_ttl_seconds, edge_capability_clock_skew_seconds,
  max_token_bytes, max_json_bytes, header_keys, jti_form, Claims, Runtime,
}
use zed_infra.Capability.Checks.{reject_unknown_keys}
use zed_infra.Capability.ClaimSet.{Policy, validate_claims}
use zed_infra.Capability.Outage.{validate_outage_admission}

-- The verifier's settings, as its caller passes them; `undefined` and `null` stand for a default.
-- `now` is taken to be a time, which the code does not test.
pub record Options : Type 0 where
  pub issuer : Json
  pub jwks : Json
  pub audience : Option String
  pub now : Option ℕ
  pub max_ttl : Json
  pub clock_skew : Json
  pub outage : Json

-- `a ?? b`
abbrev pub default {ℓ} : {A : Type ℓ} → Option A → A → A
default none d = d
default (some a) d = a

unfoldable pub bounded_token : String → Bool
bounded_token s = not (s === "") && leb (size s) max_token_bytes

in_range : ℕ → ℕ → Option ℕ → Option ℕ
in_range lo hi none = none
in_range lo hi (some n) = if leb lo n && leb n hi then some n else none

-- A setting may narrow the contract and never widens it.
unfoldable pub verifier_ttl : Json → Result Code ℕ
unfolding in_range
verifier_ttl v =
    require
      (in_range 1 edge_capability_max_ttl_seconds
        (as_nat (or_else v (int edge_capability_max_ttl_seconds))))
      invalid_verifier_policy

unfoldable pub verifier_skew : Json → Result Code ℕ
unfolding in_range
verifier_skew v =
    require
      (in_range 0 edge_capability_clock_skew_seconds
        (as_nat (or_else v (int edge_capability_clock_skew_seconds))))
      invalid_verifier_policy

pub record Parts : Type 0 where
  pub header : String
  pub claims : String
  pub signature : String

unfoldable pub three_parts : List String → Option Parts
three_parts (a ∷ b ∷ c ∷ []) =
    if a === "" || b === "" || c === ""
    then none
    else some (record { header = a; claims = b; signature = c })
three_parts _ = none

base64url : String → Bool
base64url s = not (s === "") && every (λ c. is_alnum c || one_of "_-" c) s

-- `value.replace(/-/g, "+").replace(/_/g, "/")`
base64_char : Char → Char
base64_char c = if code c == b'-' then "+" else if code c == b'_' then "/" else c

base64 : String → String
base64 String.[] = ""
base64 (String.◌∷◌ c s) = String.◌∷◌ (base64_char c) (base64 s)

-- `"=".repeat((4 - (length % 4)) % 4)`
padding : ℕ → String
padding n =
    let gap = (4 - n % 4) % 4 in
    if gap == 1 then "=" else if gap == 2 then "==" else if gap == 3 then "===" else ""

header_is_signed : Json → Bool
header_is_signed header = is_str "ES256" (get "alg" header) && is_str "JWT" (get "typ" header)

-- `!v || v === s`
absent_or : String → Json → Bool
absent_or s v = not (truthy v) || is_str s v

abbrev matching : (String → Bool) → Json → Bool
matching p v = elim (checked p v) [ none ↦ false | some s ↦ true ]

-- the filter of eligible signing keys
unfoldable pub usable : Json → Bool
unfolding absent_or
usable k =
    truthy k
    && matching jti_form (get "kid" k)
    && is_str "EC" (get "kty" k)
    && is_str "P-256" (get "crv" k)
    && absent_or "ES256" (get "alg" k)
    && absent_or "sig" (get "use" k)

unfoldable pub has_kid : String → Json → Bool
has_kid kid k = is_str kid (get "kid" k)

-- Two keys with one `kid`: the strings that `seen` holds are equal.
unfoldable pub same_kid : Json → Json → Bool
same_kid j k = same_str (get "kid" j) (get "kid" k)

first_or_unknown : List Json → Result Code Json
first_or_unknown [] = err unknown_kid
first_or_unknown (k ∷ ks) = ok k

unfoldable pub select_key : String → List Json → Result Code Json
unfolding first_or_unknown
select_key kid keys = do
  let candidates = filter usable keys
  chosen ← first_or_unknown (filter (has_kid kid) candidates)
  reject_if (not (distinct_from same_kid [] candidates)) ambiguous_kid
  ok chosen

-- `isRecord(parsed)` and an array of 1 to 32 keys
unfoldable pub snapshot_keys : Json → Result Code (List Json)
snapshot_keys parsed = do
  reject_if (not (is_record parsed)) invalid_jwks
  keys ← require (as_arr (get "keys" parsed)) invalid_jwks
  reject_if (ltb (length keys) 1 || ltb 32 (length keys)) invalid_jwks
  ok keys

module _ (rt : Runtime) where
  open rt use {clock, parse_json, atob, utf8, import_key, verify}

  unfoldable pub decode_base64_url : String → Result Code (List ℕ)
  unfolding base64url base64 base64_char padding
  decode_base64_url value = do
    reject_if (not (base64url value)) invalid_token
    require (atob (base64 value ⧺ padding (size value))) invalid_token

  unfoldable pub decode_json_segment : String → Result Code Json
  decode_json_segment segment = do
    bytes ← decode_base64_url segment
    reject_if (ltb max_json_bytes (length bytes)) invalid_token
    text ← require (utf8 bytes) invalid_token
    require (parse_json text) invalid_token

  parse_snapshot : String → Result Code Json
  parse_snapshot text = do
    reject_if (text === "" || ltb (128 * 1024) (size text)) invalid_jwks
    require (parse_json text) invalid_jwks

  unfoldable pub parse_jwks : Json → Result Code (List Json)
  unfolding parse_snapshot
  parse_jwks (str text) = do parsed ← parse_snapshot text; snapshot_keys parsed
  parse_jwks value = snapshot_keys value

  -- the checks of the JWT header, up to the `kid`
  unfoldable pub header_kid : Json → Result Code String
  unfolding header_is_signed
  header_kid header = do
    reject_if (not (is_record header)) invalid_header
    reject_unknown_keys header header_keys
    reject_if (not (header_is_signed header)) unsupported_algorithm
    require (checked jti_form (get "kid" header)) invalid_kid

  -- the settings, checked before any of the token's contents is read
  unfoldable pub verifier_policy : Options → Result Code Policy
  verifier_policy o = do
    issuer ← require (checked (λ s. not (s === "")) o.issuer) type_error
    max_ttl ← verifier_ttl o.max_ttl
    clock_skew ← verifier_skew o.clock_skew
    ok (record {
      issuer = issuer;
      audience = default o.audience edge_capability_audience;
      now = default o.now clock;
      max_ttl = max_ttl;
      clock_skew = clock_skew;
    })

  -- the key, and the signature over the text of the first two segments
  unfoldable pub verify_signature : Parts → Json → Json → Result Code (Unit {0})
  verify_signature parts header jwks = do
    kid ← header_kid header
    keys ← parse_jwks jwks
    jwk ← select_key kid keys
    key ← require (import_key jwk) invalid_jwk
    signature ← decode_base64_url parts.signature
    reject_if (not (verify key signature (parts.header ⧺ "." ⧺ parts.claims))) invalid_signature
    ok tt

  admit_version : Options → Policy → Claims → Result Code (Unit {0})
  admit_version o policy c =
      if c.zed_edge_capability == 3 then validate_outage_admission c o.outage policy.now else ok tt

  unfoldable pub verify_edge_capability : Json → Options → Result Code Claims
  unfolding bounded_token three_parts admit_version
  verify_edge_capability token o = do
    text ← require (checked bounded_token token) invalid_token
    policy ← verifier_policy o
    parts ← require (three_parts (split b'.' text)) invalid_token
    header ← decode_json_segment parts.header
    claims ← decode_json_segment parts.claims
    verify_signature parts header o.jwks
    verified ← validate_claims rt policy claims
    admit_version o policy verified
    ok verified
