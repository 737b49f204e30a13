-- ===== src/Capability/Plan.antt =====
-- edge-capability.js: `planProviderRequest`, its destination checks, and
-- `brokerContextFromCapability`.
pub mod Paths
pub mod Reach
pub mod Confined
pub mod Context
use zed_infra.Base.{
  strip_slashes, ℕ, String, code, Bool, true, false, not, ◌&&◌, ◌||◌, Option, none, some, List, [],
  ◌∷◌, ltb, ◌==◌, ◌===◌, ◌⧺◌, split, includes, strip_prefix, length, find, Result, ok, err,
  reject_if, require, ◌>>=◌, ◌>>◌, if◌then◌else◌,
}
use zed_infra.Capability.{
  Code, unverified_capability, write_forbidden, grant_mismatch, invalid_provider_url,
  lineage_required, invalid_provider, provider_destination_mismatch, cargo_crate, cargo_version,
  Grant, Claims, Url, Runtime,
}
use zed_infra.Capability.Checks.{is_supported_capability_version}

starts_with_text : String → String → Bool
unfolding strip_prefix
starts_with_text t s = elim (strip_prefix t s) [ none ↦ false | some rest ↦ true ]

unfoldable pub path_is_within : String → String → Bool
unfolding strip_slashes starts_with_text
path_is_within pathname prefix =
    let path = strip_slashes pathname in
    let within = strip_slashes prefix in path === within || starts_with_text (within ⧺ "/") path

-- a decoded segment that names nothing outside its place
unfoldable pub plain_segment : String → Bool
unfolding includes
plain_segment v = not (v === "." || v === ".." || includes b'/' v || includes 0x5c v)

cons_decoded : Option String → Option (List String) → Option (List String)
cons_decoded (some v) (some vs) = some (v ∷ vs)
cons_decoded _ _ = none

-- `expected.every((segment, index) => decoded[index] === segment)`
agrees : List String → List String → Bool
agrees [] decoded = true
agrees (e ∷ es) [] = false
agrees (e ∷ es) (d ∷ ds) = d === e && agrees es ds

pub slice_one : List String → List String
slice_one [] = []
slice_one (s ∷ ss) = ss

agrees_if_decoded : List String → Option (List String) → Bool
agrees_if_decoded expected none = false
agrees_if_decoded expected (some decoded) = agrees expected decoded

module _ (decode_uri : String → Option String) where
  -- the loop over the segments, which gives up at the first that is malformed or not plain
  decode_plain : String → Option String
  decode_plain segment = elim (decode_uri segment) [
    | none ↦ none
    | some v ↦ if plain_segment v then some v else none
  ]

  decode_segments : List String → Option (List String)
  decode_segments [] = some []
  decode_segments (s ∷ ss) = cons_decoded (decode_plain s) (decode_segments ss)

  unfoldable pub path_begins_with_segments : String → List String → Bool
  unfolding decode_segments decode_plain cons_decoded agrees slice_one agrees_if_decoded
  path_begins_with_segments pathname expected =
      let raw = slice_one (split b'/' pathname) in
      if ltb (length raw) (length expected)
      then false
      else agrees_if_decoded expected (decode_segments raw)

-- the crate of a path of the form `PRIVATE_CARGO_DOWNLOAD_V1`
download_of : List String → Option String
download_of (a ∷ b ∷ c ∷ d ∷ name ∷ version ∷ e ∷ []) =
    if a === ""
      && b === "api"
      && c === "v1"
      && d === "crates"
      && cargo_crate name
      && cargo_version version
      && e === "download"
    then some name
    else none
download_of _ = none

unfoldable pub private_cargo_download : String → Option String
unfolding download_of
private_cargo_download path = download_of (split b'/' path)

abbrev is_some_text : String → Option String → Bool
is_some_text s none = false
is_some_text s (some t) = t === s

prepend_slash : Option String → Option String
prepend_slash none = none
prepend_slash (some rest) = some ("/" ⧺ rest)

-- `rawUrl.startsWith(origin + "/") ? rawUrl.slice(origin.length) : ""`
unfoldable pub raw_path : String → String → String
unfolding prepend_slash strip_prefix
raw_path origin raw_url = elim (prepend_slash (strip_prefix (origin ⧺ "/") raw_url)) [
  | none ↦ ""
  | some path ↦ path
]

cargo_allowed : Option String → String → Url → String → Bool
cargo_allowed none resource url raw_url = false
cargo_allowed (some origin) resource url raw_url =
    let path = raw_path origin raw_url in
    not (origin === "")
    && url.origin === origin
    && is_some_text resource (private_cargo_download path)
    && url.pathname === path
    && url.search === ""
    && url.hash === ""

pub record Request : Type 0 where
  pub provider : String
  pub operation : Option String
  pub package_name : String
  pub resource : String
  pub url : String

-- `Object.freeze({ … })` at the end of `planProviderRequest`
pub record ProviderRequestPlan : Type 0 where
  pub provider : String
  pub operation : String
  pub package_name : String
  pub resource : String
  pub url : String
  pub credential_ref : String
  pub cache_policy : String
  pub forward_user_authorization : Bool

-- the four comparisons of `find`
unfoldable pub grants_request : Request → Grant → Bool
grants_request request candidate =
    candidate.provider === request.provider
    && candidate.operation === "read"
    && candidate.package_name === request.package_name
    && candidate.resource === request.resource

read_only : Option String → Bool
read_only none = true
read_only (some operation) = operation === "read"

module _ (rt : Runtime) where
  open rt use {parse_url, decode_uri}

  -- the three hosts, for the owner and the repository that `resource.split("/")` begins with
  github_allowed : List String → Url → Bool
  github_allowed (owner ∷ repo ∷ _) url =
      url.hostname === "api.github.com"
        && path_begins_with_segments decode_uri url.pathname ("repos" ∷ owner ∷ repo ∷ [])
      || url.hostname === "github.com"
        && path_begins_with_segments decode_uri url.pathname (owner ∷ repo ∷ [])
      || url.hostname === "raw.githubusercontent.com"
        && path_begins_with_segments decode_uri url.pathname (owner ∷ repo ∷ [])
  github_allowed _ url = false

  github_destination : Grant → Url → Result Code (Unit {0})
  github_destination grant url = do
    reject_if (not (url.port === "")) provider_destination_mismatch
    reject_if (not (github_allowed (split b'/' grant.resource) url)) provider_destination_mismatch
    ok tt

  npm_destination : Grant → Url → Result Code (Unit {0})
  npm_destination grant url = do
    reject_if (not (url.hostname === "registry.npmjs.org") || not (url.port === ""))
        provider_destination_mismatch
    decoded ← require (decode_uri url.pathname) invalid_provider_url
    reject_if (not (path_is_within decoded ("/" ⧺ grant.resource))) provider_destination_mismatch
    ok tt

  cargo_destination : Grant → Url → String → Result Code (Unit {0})
  cargo_destination grant url raw_url = do
    reject_if (not (cargo_allowed grant.origin grant.resource url raw_url))
        provider_destination_mismatch
    ok tt

  unfoldable pub assert_provider_destination : Grant → Url → String → Result Code (Unit {0})
  unfolding github_destination github_allowed npm_destination cargo_destination cargo_allowed
  assert_provider_destination grant url raw_url =
      if grant.provider === "github"
      then github_destination grant url
      else if grant.provider === "npm"
      then npm_destination grant url
      else if grant.provider === "cargo-registry"
      then cargo_destination grant url raw_url
      else err invalid_provider

  unfoldable pub plan_provider_request : Option Claims → Request → Result Code ProviderRequestPlan
  unfolding read_only
  plan_provider_request given request = do
    claims ← require given unverified_capability
    reject_if (not (is_supported_capability_version claims.zed_edge_capability))
        unverified_capability
    reject_if (not (read_only request.operation)) write_forbidden
    grant ← require (find (grants_request request) claims.grants) grant_mismatch
    url ← require (parse_url request.url) invalid_provider_url
    reject_if
        (not (url.protocol === "https:") || not (url.username === "") || not (url.password === ""))
        invalid_provider_url
    assert_provider_destination grant url request.url
    ok (record {
      provider = grant.provider;
      operation = "read";
      package_name = grant.package_name;
      resource = grant.resource;
      url = url.href;
      credential_ref = grant.credential_ref;
      cache_policy = "private-no-store";
      forward_user_authorization = false;
    })

-- What `brokerContextFromCapability` hands to the credential broker.
pub record BrokerContext : Type 0 where
  pub principal : String
  pub session_lineage : String
  pub parent_jti : String
  pub capability_id : String
  pub capability_expires_at : ℕ
  pub assurance : Option ℕ
  pub session_epoch : Option ℕ
  pub policy_epoch : Option ℕ
  pub revocation_checked_at : Option ℕ

pub only_v3 : ℕ → Option ℕ → Option ℕ
only_v3 version fact = if version == 3 then fact else none

unfoldable pub broker_context_from_capability : Option Claims → Result Code BrokerContext
unfolding only_v3
broker_context_from_capability given = do
  claims ← require given lineage_required
  let version = claims.zed_edge_capability
  reject_if (not (version == 2) && not (version == 3)) lineage_required
  sid ← require claims.sid lineage_required
  parent_jti ← require claims.parent_jti lineage_required
  ok (record {
    principal = claims.sub;
    session_lineage = sid;
    parent_jti = parent_jti;
    capability_id = claims.jti;
    capability_expires_at = claims.exp;
    assurance = only_v3 version claims.assurance;
    session_epoch = only_v3 version claims.session_epoch;
    policy_epoch = only_v3 version claims.policy_epoch;
    revocation_checked_at = only_v3 version claims.revocation_checked_at;
  })
