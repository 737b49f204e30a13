-- ===== src/Route.antt =====
-- workers/shared/github-fallback.js: the routes of the registry's hostname. `classifyRegistryRequest`
-- decides what may be done with a request, and `parseRegistryPath` reads a path's coordinates.
pub mod Decided
pub mod Coordinates
use zed_infra.Base.{
  ℕ, String, Bool, true, false, not, ◌&&◌, ◌||◌, Option, none, some, List, [], ◌∷◌, ◌++◌, leb, ltb,
  ◌==◌, ◌===◌, size, every, includes, contains, split, join, strip_prefix, strip_slashes, member,
  find, is_lower_alnum, is_alnum, one_of, matches, if◌then◌else◌,
}
use zed_infra.Http.{to_upper}
use zed_infra.Capability.{slug}
use zed_infra.Publish.{sha256_form}

pub data RegistryAction : Type 0 where
  preflight health origin_read origin_write fallback_read deny_method deny_route : RegistryAction

-- `isSlug`, of a string
unfoldable pub is_slug : String → Bool
is_slug s = slug s && leb (size s) 128

-- `NATIVE_COORDINATE`: `/^z1_[A-Za-z0-9_-]{1,1400}$/`
coordinate_rest : Option String → Bool
coordinate_rest none = false
coordinate_rest (some rest) =
    leb 1 (size rest) && leb (size rest) 1400 && every (λ c. is_alnum c || one_of "_-" c) rest

unfoldable pub native_coordinate : String → Bool
unfolding coordinate_rest strip_prefix size every is_alnum one_of
native_coordinate s = coordinate_rest (strip_prefix "z1_" s)

unfoldable pub is_package_name_segment : String → Bool
is_package_name_segment s = is_slug s || native_coordinate s

-- `VERSION` with no bound on its length; `isSafeSegment` bounds it
unfoldable pub safe_version : String → Bool
unfolding matches is_alnum one_of
safe_version s =
    matches is_alnum (λ c. is_alnum c || one_of ".+-" c) 0 2048 s
    && not (contains ".." s)
    && leb (size s) 128

-- `[a-z0-9-]+`, and what a pattern has in place of a package's name and of a version
unfoldable pub dashed : String → Bool
unfolding every is_lower_alnum
dashed s = not (s === "") && every (λ c. is_lower_alnum c || c == b'-') s

unfoldable pub dashed_or_native : String → Bool
dashed_or_native s = dashed s || native_coordinate s

unfoldable pub version_segment : String → Bool
unfolding matches is_alnum one_of
version_segment = matches is_alnum (λ c. is_alnum c || one_of ".+-" c) 0 127

unfoldable pub resolution_segment : String → Bool
unfolding strip_prefix
resolution_segment s = elim (strip_prefix "sha256:" s) [
  | none ↦ false
  | some digest ↦ sha256_form digest
]

-- no line terminator, which `.` does not match
plain_char : ℕ → Bool
plain_char c = not (c == 10 || c == 13 || c == 0x2028 || c == 0x2029)

-- What follows the last slash that a pattern names.
pub data Tail : Type 0 where
  nothing anything : Tail

-- The segments of a pattern, and what may follow: nothing, or `/(.+)`.
unfoldable pub fits : List (String → Bool) → Tail → List String → Bool
unfolding join every plain_char
fits [] nothing [] = true
fits [] anything (s ∷ ss) =
    let rest = join "/" (s ∷ ss) in not (rest === "") && every plain_char rest
fits (p ∷ ps) tail (s ∷ ss) = p s && fits ps tail ss
fits _ _ _ = false

pub data RouteName : Type 0 where
  healthz list_packages get_package version yank artifact files search semantic_search : RouteName
  embedding claim_org audit_verify audit declared_graph_export declared_graph : RouteName
  resolution_graph : RouteName

-- A pattern `/^\/a\/b$/` is the list of its segments, after the empty one before the first slash.
pub record RouteSpec : Type 0 where
  pub name : RouteName
  pub segments : List (String → Bool)
  pub tail : Tail
  pub methods : List String
  pub fallback : Bool

abbrev pub lit : String → String → Bool
lit w s = s === w

abbrev reads : List String
reads = "GET" ∷ "HEAD" ∷ []

abbrev spec : RouteName → List (String → Bool) → List String → RouteSpec
spec name segments methods = record {
  name = name;
  segments = segments;
  tail = nothing;
  methods = methods;
  fallback = false;
}

abbrev of_version : List (String → Bool) → List (String → Bool)
of_version more =
    lit "v1" ∷ lit "packages" ∷ dashed ∷ dashed ∷ lit "versions" ∷ version_segment ∷ more

abbrev pub get_package_spec : RouteSpec
get_package_spec = record {
  name = get_package;
  segments = lit "v1" ∷ lit "packages" ∷ dashed ∷ dashed_or_native ∷ [];
  tail = nothing;
  methods = reads;
  fallback = true;
}

abbrev pub version_spec : RouteSpec
version_spec = record {
  name = version;
  segments =
      lit "v1" ∷ lit "packages" ∷ dashed ∷ dashed_or_native ∷ lit "versions" ∷ version_segment ∷ [];
  tail = nothing;
  methods = "GET" ∷ "HEAD" ∷ "PUT" ∷ [];
  fallback = true;
}

-- `REGISTRY_ROUTE_SPECS`
unfoldable pub registry_route_specs : List RouteSpec
registry_route_specs =
    spec healthz (lit "healthz" ∷ []) reads
    ∷ spec list_packages (lit "v1" ∷ lit "packages" ∷ []) reads
    ∷ record {
      name = get_package;
      segments = lit "v1" ∷ lit "packages" ∷ dashed ∷ dashed_or_native ∷ [];
      tail = nothing;
      methods = reads;
      fallback = true;
    }
    ∷ record {
      name = version;
      segments =
          lit "v1"
          ∷ lit "packages"
          ∷ dashed
          ∷ dashed_or_native
          ∷ lit "versions"
          ∷ version_segment
          ∷ [];
      tail = nothing;
      methods = "GET" ∷ "HEAD" ∷ "PUT" ∷ [];
      fallback = true;
    }
    ∷ spec yank (of_version (lit "yank" ∷ [])) ("POST" ∷ [])
    ∷ spec artifact (lit "v1" ∷ lit "artifacts" ∷ sha256_form ∷ []) reads
    ∷ record {
      name = files;
      segments = lit "v1" ∷ lit "files" ∷ dashed ∷ dashed ∷ version_segment ∷ [];
      tail = anything;
      methods = reads;
      fallback = false;
    }
    ∷ spec search (lit "v1" ∷ lit "search" ∷ []) reads
    ∷ spec semantic_search (lit "v1" ∷ lit "search" ∷ lit "semantic" ∷ []) ("POST" ∷ [])
    ∷ spec embedding (lit "v1" ∷ lit "packages" ∷ dashed ∷ dashed ∷ lit "embedding" ∷ [])
        ("PUT" ∷ [])
    ∷ spec claim_org (lit "v1" ∷ lit "orgs" ∷ []) ("POST" ∷ [])
    ∷ spec audit_verify (lit "v1" ∷ lit "orgs" ∷ dashed ∷ lit "audit" ∷ lit "verify" ∷ []) reads
    ∷ spec audit (lit "v1" ∷ lit "orgs" ∷ dashed ∷ lit "audit" ∷ []) reads
    ∷ spec declared_graph_export (of_version (lit "dependency-graph" ∷ lit "export" ∷ dashed ∷ []))
        reads
    ∷ spec declared_graph (of_version (lit "dependency-graph" ∷ [])) reads
    ∷ spec resolution_graph
        (lit "v1" ∷ lit "resolutions" ∷ resolution_segment ∷ lit "dependency-graph" ∷ []) reads
    ∷ []

-- `s || "/"`
or_root : String → String
or_root s = if s === "" then "/" else s

-- With no percent sign `decodeURIComponent` changes nothing.
unfoldable pub normalize_path : String → Option String
unfolding or_root
normalize_path pathname =
    if ltb 2048 (size pathname)
      || includes b'%' pathname
      || contains ".." pathname
      || includes 0x5c pathname
      || includes 0 pathname
      || contains "//" pathname
    then none
    else some (or_root (strip_slashes pathname))

unfoldable pub matches_spec : List String → RouteSpec → Bool
matches_spec segments spec = fits (lit "" ∷ spec.segments) spec.tail segments

unfoldable pub match_registry_route : String → Option RouteSpec
match_registry_route pathname = elim (normalize_path pathname) [
  | none ↦ none
  | some path ↦ find (matches_spec (split b'/' path)) registry_route_specs
]

pub record RouteDecision : Type 0 where
  pub action : RegistryAction
  pub route : Option RouteName
  pub allow : List String

abbrev pub is_healthz : RouteName → Bool
is_healthz healthz = true
is_healthz name = false

abbrev action_of : Bool → Bool → RegistryAction
action_of is_read fallback =
    if is_read && fallback then fallback_read else if is_read then origin_read else origin_write

-- `classifyRegistryRequest` once the route is found, for the method in upper case
unfoldable pub classify_route : String → RouteSpec → RouteDecision
classify_route method spec =
    if method === "OPTIONS"
    then record {
      action = preflight;
      route = some spec.name;
      allow = spec.methods ++ ("OPTIONS" ∷ []);
    }
    else if not (member method spec.methods)
    then record {
      action = deny_method;
      route = some spec.name;
      allow = spec.methods ++ ("OPTIONS" ∷ []);
    }
    else if is_healthz spec.name
    then record { action = health; route = some healthz; allow = spec.methods }
    else record {
      action = action_of (method === "GET" || method === "HEAD") spec.fallback;
      route = some spec.name;
      allow = spec.methods;
    }

unfoldable pub classify_registry_request : String → String → RouteDecision
classify_registry_request method pathname = elim (match_registry_route pathname) [
  | none ↦ record { action = deny_route; route = none; allow = [] }
  | some spec ↦ classify_route (to_upper method) spec
]

-- The results of `parseRegistryPath`.
pub data RegistryPath : Type 0 where
  healthz : RegistryPath
  get_artifact : String → RegistryPath
  get_version : String → String → String → RegistryPath
  get_package : String → String → RegistryPath

-- the patterns with their tests; no two fit the same number of segments
unfoldable pub parse_segments : List String → Option RegistryPath
parse_segments (e ∷ v ∷ k ∷ digest ∷ []) =
    if e === "" && v === "v1" && k === "artifacts" && sha256_form digest
    then some (get_artifact digest)
    else none
parse_segments (e ∷ v ∷ k ∷ org ∷ name ∷ []) =
    if e === "" && v === "v1" && k === "packages" && is_slug org && is_package_name_segment name
    then some (get_package org name)
    else none
parse_segments (e ∷ v ∷ k ∷ org ∷ name ∷ w ∷ release ∷ []) =
    if e === ""
      && v === "v1"
      && k === "packages"
      && is_slug org
      && is_package_name_segment name
      && w === "versions"
      && safe_version release
    then some (get_version org name release)
    else none
parse_segments _ = none

unfoldable pub parse_registry_path : String → Option RegistryPath
parse_registry_path pathname = elim (normalize_path pathname) [
  | none ↦ none
  | some path ↦
      if path === "/healthz" then some RegistryPath.healthz else parse_segments (split b'/' path)
]
