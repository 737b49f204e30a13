-- ===== src/Capability/Plan/Reach.antt =====
-- Where a request that passes `assertProviderDestination` may go.
use zed_infra.Base.{
  strip_slashes, String, true, ◌&&◌, Option, none, some, List, [], ◌∷◌, ◌===◌, ===_iff, ◌⧺◌, split,
  strip_prefix, strip_prefix-eq-some, ok, ◌≡◌, refl, ◌⊎◌, inl, inr, passed, bound, require-eq-ok,
  ap, of_not, or-false, or-true, and-true, arith, Bool-cases, Option-cases,
}
use zed_infra.Capability.{cargo_crate, cargo_version, Grant, Url, Runtime}
use zed_infra.Capability.Plan.{
  starts_with_text, path_is_within, path_begins_with_segments, download_of, private_cargo_download,
  is_some_text, raw_path, cargo_allowed, github_allowed, github_destination, npm_destination,
  cargo_destination, assert_provider_destination,
}
use zed_infra.Capability.Plan.Paths.{LiesUnder, path_begins_with_segments-LiesUnder}

starts_with_text-append :
    (t s : String) → starts_with_text t s ≡ true → (rest : String) × (s ≡ (t ⧺ rest))
unfolding starts_with_text
starts_with_text-append t s h = elim (Option-cases (strip_prefix t s)) [
  | inl e ↦ absurd (ground (arith, e))
  | inr (rest, e) ↦ (rest, strip_prefix-eq-some t s e)
]

-- The path, without the slashes at its end, is the prefix or goes on below it.
pub IsBelow : String → String → Type 0
IsBelow path prefix =
    (strip_slashes path ≡ strip_slashes prefix)
    ⊎ ((rest : String) × (strip_slashes path ≡ (strip_slashes prefix ⧺ "/" ⧺ rest)))

path_is_within-IsBelow :
    (path prefix : String) → path_is_within path prefix ≡ true → IsBelow path prefix
unfolding path_is_within IsBelow
path_is_within-IsBelow path prefix h =
    elim (Bool-cases (strip_slashes path === strip_slashes prefix)) [
      | inl e ↦ inl ((===_iff _ _).0 e)
      | inr e ↦ inr (starts_with_text-append _ (strip_slashes path) (rw e at h))
    ]

-- `/api/v1/crates/<name>/<version>/download`
pub record IsDownload (path name : String) : Type 0 where
  pub version : String
  pub segments : split b'/' path ≡ "" ∷ "api" ∷ "v1" ∷ "crates" ∷ name ∷ version ∷ "download" ∷ []
  pub crate_form : cargo_crate name ≡ true
  pub version_form : cargo_version version ≡ true

download_of-IsDownload :
    (parts : List String) {name : String}
    → download_of parts ≡ some name
    → (version : String) × (parts ≡ "" ∷ "api" ∷ "v1" ∷ "crates" ∷ name ∷ version ∷ "download" ∷ [])
      × (cargo_crate name ≡ true)
      × (cargo_version version ≡ true)
unfolding download_of
download_of-IsDownload (a ∷ b ∷ c ∷ d ∷ n ∷ v ∷ e ∷ []) h = (
  v,
  ground (
    arith,
    ===_iff a "",
    ===_iff b "api",
    ===_iff c "v1",
    ===_iff d "crates",
    ===_iff e "download",
  ),
  ground arith,
  ground arith,
)
download_of-IsDownload _ h = absurd (cc h)

private_cargo_download-IsDownload :
    (path name : String) → private_cargo_download path ≡ some name → IsDownload path name
unfolding private_cargo_download
private_cargo_download-IsDownload path name h =
    let (version, segments, crate_form, version_form) =
      download_of-IsDownload (split b'/' path) h in
    record {
      version = version;
      segments = segments;
      crate_form = crate_form;
      version_form = version_form;
    }

is_some_text-eq-some : (s : String) (o : Option String) → is_some_text s o ≡ true → o ≡ some s
is_some_text-eq-some s none h = cc h
is_some_text-eq-some s (some t) h = ap some ((===_iff t s).0 h)

module _ (rt : Runtime) where
  open rt use {decode_uri, parse_url}

  -- Where the request of a grant may go. GitHub: the repository's paths at three hosts, on the
  -- default port. npm: at the registry, a path whose decoded text begins with the package's path,
  -- in which dot segments are not excluded. Cargo: the download of exactly the granted crate, at
  -- the granted origin.
  pub data Reaches (g : Grant) (u : Url) (raw_url : String) : Type 0 where
    github_api :
        (owner repo : String) (more : List String)
        → g.provider ≡ "github"
        → split b'/' g.resource ≡ owner ∷ repo ∷ more
        → u.port ≡ ""
        → u.hostname ≡ "api.github.com"
        → LiesUnder decode_uri u.pathname ("repos" ∷ owner ∷ repo ∷ [])
        → Reaches g u raw_url
    github_web :
        (owner repo : String) (more : List String)
        → g.provider ≡ "github"
        → split b'/' g.resource ≡ owner ∷ repo ∷ more
        → u.port ≡ ""
        → (u.hostname ≡ "github.com") ⊎ (u.hostname ≡ "raw.githubusercontent.com")
        → LiesUnder decode_uri u.pathname (owner ∷ repo ∷ [])
        → Reaches g u raw_url
    npm_registry :
        (path : String)
        → g.provider ≡ "npm"
        → u.hostname ≡ "registry.npmjs.org"
        → u.port ≡ ""
        → decode_uri u.pathname ≡ some path
        → IsBelow path ("/" ⧺ g.resource)
        → Reaches g u raw_url
    cargo_download :
        (origin : String)
        → g.provider ≡ "cargo-registry"
        → g.origin ≡ some origin
        → u.origin ≡ origin
        → u.pathname ≡ raw_path origin raw_url
        → IsDownload u.pathname g.resource
        → u.search ≡ ""
        → u.hash ≡ ""
        → Reaches g u raw_url

  at_host :
      (u : Url) (host : String) (expected : List String)
      → (u.hostname === host && path_begins_with_segments decode_uri u.pathname expected) ≡ true
      → (u.hostname ≡ host) × LiesUnder decode_uri u.pathname expected
  at_host u host expected h =
      let (here, under) = and-true (u.hostname === host) _ h in
      (
        (===_iff _ _).0 here,
        path_begins_with_segments-LiesUnder decode_uri u.pathname expected under,
      )

  github_allowed-Reaches :
      (g : Grant) (u : Url) (raw_url : String) (parts : List String)
      → g.provider ≡ "github"
      → u.port ≡ ""
      → split b'/' g.resource ≡ parts
      → github_allowed rt parts u ≡ true
      → Reaches g u raw_url
  unfolding github_allowed
  github_allowed-Reaches g u raw_url [] p port s h = absurd (cc h)
  github_allowed-Reaches g u raw_url (x ∷ []) p port s h = absurd (cc h)
  github_allowed-Reaches g u raw_url (owner ∷ repo ∷ more) p port s h = elim (or-true _ _ h) [
    | inl either ↦ elim (or-true _ _ either) [
      | inl api ↦
          let (host, under) = at_host u "api.github.com" ("repos" ∷ owner ∷ repo ∷ []) api in
          github_api owner repo more p s port host under
      | inr web ↦
          let (host, under) = at_host u "github.com" (owner ∷ repo ∷ []) web in
          github_web owner repo more p s port (inl host) under
    ]
    | inr raw ↦
        let (host, under) = at_host u "raw.githubusercontent.com" (owner ∷ repo ∷ []) raw in
        github_web owner repo more p s port (inr host) under
  ]

  github_destination-Reaches :
      (g : Grant) (u : Url) (raw_url : String) {o : Unit {0}}
      → g.provider ≡ "github"
      → github_destination rt g u ≡ ok o
      → Reaches g u raw_url
  unfolding github_destination
  github_destination-Reaches g u raw_url p h = passed _ _ _ h λ port h₁. passed _ _ _ h₁ λ path _.
      github_allowed-Reaches g u raw_url (split b'/' g.resource) p ((===_iff _ _).0 (of_not _ port))
        refl (of_not _ path)

  npm_destination-Reaches :
      (g : Grant) (u : Url) (raw_url : String) {o : Unit {0}}
      → g.provider ≡ "npm"
      → npm_destination rt g u ≡ ok o
      → Reaches g u raw_url
  unfolding npm_destination
  npm_destination-Reaches g u raw_url p h = passed _ _ _ h λ place h₁.
      bound _ _ h₁ λ path decoded h₂. passed _ _ _ h₂ λ below _.
        let (host, port) = or-false _ _ place in
        npm_registry path p ((===_iff _ _).0 (of_not _ host)) ((===_iff _ _).0 (of_not _ port))
          (require-eq-ok _ _ decoded) (path_is_within-IsBelow _ _ (of_not _ below))

  cargo_allowed-Reaches :
      (g : Grant) (u : Url) (raw_url : String) (o : Option String)
      → g.provider ≡ "cargo-registry"
      → g.origin ≡ o
      → cargo_allowed o g.resource u raw_url ≡ true
      → Reaches g u raw_url
  unfolding cargo_allowed
  cargo_allowed-Reaches g u raw_url none p q h = absurd (cc h)
  cargo_allowed-Reaches g u raw_url (some origin) p q h =
      let path = raw_path origin raw_url in
      let (at, download, exact, search, hash) : (u.origin ≡ origin)
          × (is_some_text g.resource (private_cargo_download path) ≡ true)
          × (u.pathname ≡ path)
          × (u.search ≡ "")
          × (u.hash ≡ "") =
        ground (
          arith,
          ===_iff u.origin origin,
          ===_iff u.pathname path,
          ===_iff u.search "",
          ===_iff u.hash "",
        ) in
      cargo_download origin p q at exact
        (rw exact
          (private_cargo_download-IsDownload path g.resource (is_some_text-eq-some _ _ download)))
        search hash

  cargo_destination-Reaches :
      (g : Grant) (u : Url) (raw_url : String) {o : Unit {0}}
      → g.provider ≡ "cargo-registry"
      → cargo_destination rt g u raw_url ≡ ok o
      → Reaches g u raw_url
  unfolding cargo_destination
  cargo_destination-Reaches g u raw_url p h =
      passed _ _ _ h λ fits _. cargo_allowed-Reaches g u raw_url g.origin p refl (of_not _ fits)

  pub assert_provider_destination-Reaches :
      (g : Grant) (u : Url) (raw_url : String)
      → assert_provider_destination rt g u raw_url ≡ ok tt
      → Reaches g u raw_url
  unfolding assert_provider_destination
  assert_provider_destination-Reaches g u raw_url h = elim (Bool-cases (g.provider === "github")) [
    | inl e ↦ github_destination-Reaches g u raw_url ((===_iff _ _).0 e) (rw e at h)
    | inr e ↦ elim (Bool-cases (g.provider === "npm")) [
      | inl f ↦ npm_destination-Reaches g u raw_url ((===_iff _ _).0 f) (rw (e, f) at h)
      | inr f ↦ elim (Bool-cases (g.provider === "cargo-registry")) [
        | inl c ↦ cargo_destination-Reaches g u raw_url ((===_iff _ _).0 c) (rw (e, f, c) at h)
        | inr c ↦ absurd (cc (let k = rw (e, f, c) at h in k))
      ]
    ]
  ]
