-- ===== src/Capability/Grants.antt =====
-- edge-capability.js: `validateProviderResource` and `validateGrant`.
use zed_infra.Base.{
  String, Bool, true, not, ◌&&◌, Option, none, some, leb, ◌===◌, ===_iff, size, member, Result, ok,
  err, reject_if, require, require-eq-ok, ◌>>=◌, ◌>>◌, ◌≡◌, refl, passed, bound, of_not, followed,
  returned, if◌then◌else◌, inl, inr, Bool-cases,
}
use zed_infra.Json.{Json, get, is_record, is_str, is_undefined, checked, checked-eq-some, as_str}
use zed_infra.Capability.{
  Code, invalid_grant, invalid_provider, invalid_operation, invalid_package, invalid_credential_ref,
  invalid_resource, invalid_origin, grant_keys, providers, github_repository, npm_scoped_package,
  cargo_crate, credential_ref_form, Grant, Url, Runtime,
}
use zed_infra.Capability.Checks.{is_package_coordinate, reject_unknown_keys}

-- `if (origin) …`: an empty string counts as none
unfoldable pub present : Option String → Option String
present none = none
present (some s) = if s === "" then none else some s

-- the tests of a registry origin
unfoldable pub is_bare_https_origin : Url → Bool
is_bare_https_origin u =
    u.protocol === "https:"
    && u.username === ""
    && u.password === ""
    && u.pathname === "/"
    && u.search === ""
    && u.hash === ""

bounded_resource : String → Bool
bounded_resource s = not (s === "") && leb (size s) 256

module _ (rt : Runtime) where
  open rt use {parse_url}

  cargo_origin : Json → Result Code (Option String)
  cargo_origin origin = do
    text ← require (as_str origin) invalid_origin
    parsed ← require (parse_url text) invalid_origin
    reject_if (not (is_bare_https_origin parsed)) invalid_origin
    ok (some parsed.origin)

  fixed_origin : Json → Result Code (Option String)
  fixed_origin origin = do reject_if (not (is_undefined origin)) invalid_origin; ok none

  github_scope : String → Json → Result Code (Option String)
  github_scope name origin = do
    reject_if (not (github_repository name)) invalid_resource
    fixed_origin origin

  npm_scope : String → Json → Result Code (Option String)
  npm_scope name origin = do
    reject_if (not (npm_scoped_package name)) invalid_resource
    fixed_origin origin

  cargo_scope : String → Json → Result Code (Option String)
  cargo_scope name origin = do
    reject_if (not (cargo_crate name)) invalid_resource
    cargo_origin origin

  -- the `switch`
  provider_scope : String → String → Json → Result Code (Option String)
  unfolding github_scope npm_scope cargo_scope fixed_origin cargo_origin
  provider_scope provider name origin =
      if provider === "github"
      then github_scope name origin
      else if provider === "npm"
      then npm_scope name origin
      else if provider === "cargo-registry"
      then cargo_scope name origin
      else err invalid_provider

  -- The result has `resource` too, which is a string from here on.
  validate_provider_resource : String → Json → Json → Result Code (String × Option String)
  unfolding bounded_resource provider_scope
  validate_provider_resource provider resource origin = do
    name ← require (checked bounded_resource resource) invalid_resource
    scope ← provider_scope provider name origin
    ok (name, scope)

  unfoldable pub validate_grant : Json → Result Code Grant
  unfolding validate_provider_resource
  validate_grant raw = do
    reject_if (not (is_record raw)) invalid_grant
    reject_unknown_keys raw grant_keys
    provider ← require (checked (λ p. member p providers) (get "provider" raw)) invalid_provider
    reject_if (not (is_str "read" (get "operation" raw))) invalid_operation
    package_name ← require (checked is_package_coordinate (get "package" raw)) invalid_package
    credential_ref ←
        require (checked credential_ref_form (get "credential_ref" raw)) invalid_credential_ref
    (resource, origin) ← validate_provider_resource provider (get "resource" raw) (get "origin" raw)
    ok (record {
      provider = provider;
      operation = "read";
      package_name = package_name;
      resource = resource;
      origin = present origin;
      credential_ref = credential_ref;
    })

  -- A GitHub or npm grant has its provider's fixed origins; a Cargo grant names the origin of a
  -- parsed URL that is https and has no user, path, query or fragment.
  pub data HasScope : String → String → Option String → Type 0 where
    github : {r : String} → github_repository r ≡ true → HasScope "github" r none
    npm : {r : String} → npm_scoped_package r ≡ true → HasScope "npm" r none
    cargo :
        {r : String} (text : String) (u : Url)
        → cargo_crate r ≡ true
        → parse_url text ≡ some u
        → is_bare_https_origin u ≡ true
        → HasScope "cargo-registry" r (some u.origin)

  pub record IsValidGrant (g : Grant) : Type 0 where
    pub read_only : g.operation ≡ "read"
    pub coordinate : is_package_coordinate g.package_name ≡ true
    pub reference : credential_ref_form g.credential_ref ≡ true
    pub scope : (o : Option String) × HasScope g.provider g.resource o × (g.origin ≡ present o)

  fixed_origin-none : (origin : Json) {o : Option String} → fixed_origin origin ≡ ok o → o ≡ none
  unfolding fixed_origin
  fixed_origin-none origin h = passed _ _ _ h λ _ k. cc k

  github_scope-HasScope :
      (name : String) (origin : Json) {o : Option String}
      → github_scope name origin ≡ ok o
      → HasScope "github" name o
  unfolding github_scope
  github_scope-HasScope name origin h =
      passed _ _ _ h λ form k. rw (fixed_origin-none origin k) (github (of_not _ form))

  npm_scope-HasScope :
      (name : String) (origin : Json) {o : Option String}
      → npm_scope name origin ≡ ok o
      → HasScope "npm" name o
  unfolding npm_scope
  npm_scope-HasScope name origin h =
      passed _ _ _ h λ form k. rw (fixed_origin-none origin k) (npm (of_not _ form))

  cargo_scope-HasScope :
      (name : String) (origin : Json) {o : Option String}
      → cargo_scope name origin ≡ ok o
      → HasScope "cargo-registry" name o
  unfolding cargo_scope cargo_origin
  cargo_scope-HasScope name origin {o} h = passed _ _ _ h λ form k. bound _ _ k λ text _ k₁.
      bound _ _ k₁ λ u parsed k₂. passed _ _ _ k₂ λ bare k₃.
        let same : o ≡ some u.origin = cc k₃ in
        rw same (cargo text u (of_not _ form) (require-eq-ok _ _ parsed) (of_not _ bare))

  provider_scope-HasScope :
      (provider name : String) (origin : Json) {o : Option String}
      → provider_scope provider name origin ≡ ok o
      → HasScope provider name o
  unfolding provider_scope
  provider_scope-HasScope provider name origin h = elim (Bool-cases (provider === "github")) [
    | inl e ↦ rw ((===_iff _ _).0 e) (github_scope-HasScope name origin (rw e at h))
    | inr e ↦ elim (Bool-cases (provider === "npm")) [
      | inl f ↦ rw ((===_iff _ _).0 f) (npm_scope-HasScope name origin (rw (e, f) at h))
      | inr f ↦ elim (Bool-cases (provider === "cargo-registry")) [
        | inl g ↦ rw ((===_iff _ _).0 g) (cargo_scope-HasScope name origin (rw (e, f, g) at h))
        | inr g ↦ cc (let k = rw (e, f, g) at h in k)
      ]
    ]
  ]

  -- A grant that is accepted is read-only, names a canonical org/name coordinate and a well-formed
  -- credential reference, and its resource and origin have the form that its provider requires.
  pub validate_grant-IsValidGrant :
      (raw : Json) {g : Grant} → validate_grant raw ≡ ok g → IsValidGrant g
  unfolding validate_grant validate_provider_resource
  validate_grant-IsValidGrant raw {g} h = passed _ _ _ h λ _ h₁. followed _ _ h₁ λ _ h₂.
      bound _ _ h₂ λ provider _ h₃. passed _ _ _ h₃ λ _ h₄.
        bound _ _ h₄ λ package_name coordinate h₅. bound _ _ h₅ λ reference form h₆.
          bound _ _ h₆ λ at located h₇. bound _ _ located λ name _ h₈.
            bound _ _ h₈ λ scope scoped h₉.
              let same : at ≡ (name, scope) = cc h₉ in
              returned IsValidGrant h₇ (record {
                read_only = refl;
                coordinate = (checked-eq-some _ _ (require-eq-ok _ _ coordinate)).1;
                reference = (checked-eq-some _ _ (require-eq-ok _ _ form)).1;
                scope = (at.1, rw same (provider_scope-HasScope _ _ _ scoped), refl);
              })
