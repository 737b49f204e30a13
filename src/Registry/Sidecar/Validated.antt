-- ===== src/Registry/Sidecar/Validated.antt =====
-- What a sidecar says that `validateSidecar` accepts, and where it points.
use zed_infra.Base.{
  String, Bool, true, ◌&&◌, ◌||◌, Option, some, List, [], ◌∷◌, any, IsIn, ◌≡◌, ◌∙◌, ap, ◌⊎◌, inl,
  inr, refl, arith, ◌===◌, ===_iff, ◌⧺◌, Bool-cases, Option-cases, and-true, ok, bound, passed,
  returned, require-eq-ok, of_not,
}
use zed_infra.Json.{
  Json, str, int, as_nat-eq-some, get, as_str-eq-some, exactly_str-eq-some, truthy,
}
use zed_infra.Capability.{Url}
use zed_infra.Publish.{sha256_form}
use zed_infra.Cdn.{git_tags_for_version}
use zed_infra.Cdn.Mirror.{secure_url}
use zed_infra.Registry.Sidecar.{
  to_text, digest_of, download_names, release_path, is_expected_github_download, is_published_url,
  is_allowed_published_download, Sidecar, validate_sidecar,
}

-- Where a version's artifact may be downloaded.
pub data IsDownload (url : Url) (sha256 org name version : String) : Type 0 where
  on_cdn :
      url.hostname ≡ "cdn.zpkg.net"
      → (url.pathname ≡ ("/artifacts/" ⧺ sha256 ⧺ ".tar.gz"))
        ⊎ (url.pathname ≡ ("/artifacts/" ⧺ sha256 ⧺ ".zip"))
      → IsDownload url sha256 org name version
  on_release :
      (tag asset : String)
      → url.hostname ≡ "github.com"
      → IsIn tag (git_tags_for_version version)
      → IsIn asset (download_names org name version sha256)
      → url.pathname ≡ release_path org name tag asset
      → IsDownload url sha256 org name version

-- The document repeats what a sidecar says: the coordinates asked for, a digest, and a download that
-- is allowed for them.
pub record IsValidated (parse_url : String → Option Url) (metadata : Json)
    (org name version : String) (doc : Sidecar) : Type 0 where
  pub its_org : get "org" metadata ≡ str org
  pub its_name : get "name" metadata ≡ str name
  pub its_version : get "version" metadata ≡ str version
  pub same_org : doc.org ≡ org
  pub same_name : doc.name ≡ name
  pub same_version : doc.version ≡ version
  pub its_digest : doc.sha256 ≡ get "sha256" metadata
  pub its_size : get "size" metadata ≡ int doc.size
  pub its_download : get "download_url" metadata ≡ str doc.download_url
  pub digest : String
  pub sha256 : to_text doc.sha256 ≡ digest
  pub digest_form : sha256_form digest ≡ true
  pub url : Url
  pub parsed : parse_url doc.download_url ≡ some url
  pub secure : secure_url url ≡ true
  pub download : IsDownload url digest org name version

any-IsIn :
    (p : String → Bool) (xs : List String)
    → any p xs ≡ true
    → (x : String) × IsIn x xs × (p x ≡ true)
any-IsIn p [] h = cc h
any-IsIn p (x ∷ xs) h = elim (Bool-cases (p x)) [
  | inl e ↦ (x, inl refl, e)
  | inr e ↦ let (y, m, q) = any-IsIn p xs (rw e at h) in (y, inr m, q)
]

expected_path :
    (url : Url) (owner repo tag asset : String)
    → is_expected_github_download url owner repo tag asset ≡ true
    → url.pathname ≡ release_path owner repo tag asset
unfolding is_expected_github_download
expected_path url owner repo tag asset h =
    let (_, e) = and-true (url.protocol === "https:" && url.hostname === "github.com") _ h in
    (===_iff url.pathname (release_path owner repo tag asset)).0 e

either_path :
    (a b : String) {path : String} → (path === a || path === b) ≡ true → (path ≡ a) ⊎ (path ≡ b)
either_path a b {path} h = ground (arith, ===_iff path a, ===_iff path b)

is_published_url-IsDownload :
    (url : Url) (sha256 org name version : String)
    → is_published_url url sha256 org name version ≡ true
    → (secure_url url ≡ true) × IsDownload url sha256 org name version
unfolding is_published_url
is_published_url-IsDownload url sha256 org name version h =
    let (secure, rest) = and-true (secure_url url) _ h in
    (
      secure,
      elim (Bool-cases (url.hostname === "cdn.zpkg.net")) [
        | inl on ↦ on_cdn ((===_iff _ _).0 on) (either_path _ _ (rw on at rest))
        | inr off ↦
            let (host, found) = and-true (url.hostname === "github.com") _ (rw off at rest) in
            let (tag, m, named) = any-IsIn _ (git_tags_for_version version) found in
            let (asset, n, at) = any-IsIn _ (download_names org name version sha256) named in
            on_release tag asset ((===_iff _ _).0 host) m n
              (expected_path url org name tag asset at)
      ],
    )

digest_of-eq-some :
    (v : Json) {d : String} → digest_of v ≡ some d → (to_text v ≡ d) × (sha256_form d ≡ true)
unfolding digest_of
digest_of-eq-some v {d} h = elim (Bool-cases (truthy v && sha256_form (to_text v))) [
  | inl e ↦ ground arith
  | inr e ↦ cc (let k = rw (e, digest_of) at h in k)
]

is_allowed_published_download-IsDownload :
    (parse_url : String → Option Url) (raw sha256 org name version : String)
    → is_allowed_published_download parse_url raw sha256 org name version ≡ true
    → (url : Url) × (parse_url raw ≡ some url)
      × (secure_url url ≡ true)
      × IsDownload url sha256 org name version
unfolding is_allowed_published_download
is_allowed_published_download-IsDownload parse_url raw sha256 org name version h =
    elim (Option-cases (parse_url raw)) [
      | inl e ↦ cc (let k = rw (e, is_allowed_published_download) at h in k)
      | inr (url, e) ↦
          let k = rw (e, is_allowed_published_download) at h in
          let (secure, d) = is_published_url-IsDownload url sha256 org name version k in
          (url, e, secure, d)
    ]

pub validate_sidecar-IsValidated :
    (parse_url : String → Option Url) (metadata : Json) (org name version : String) {doc : Sidecar}
    → validate_sidecar parse_url metadata org name version ≡ ok doc
    → IsValidated parse_url metadata org name version doc
unfolding validate_sidecar
validate_sidecar-IsValidated parse_url metadata org name version h = passed _ _ _ h λ object h₁.
    bound _ _ h₁ λ its_org o h₂. bound _ _ h₂ λ its_name n h₃. bound _ _ h₃ λ its_version v h₄.
      bound _ _ h₄ λ digest d h₅. bound _ _ h₅ λ size s h₆. passed _ _ _ h₆ λ allowed h₇.
        bound _ _ h₇ λ raw r h₈.
          let (text, form) = digest_of-eq-some (get "sha256" metadata) (require-eq-ok _ _ d) in
          let link : get "download_url" metadata ≡ str raw =
            as_str-eq-some _ (require-eq-ok _ _ r) in
          let (url, parsed, secure, download) =
            is_allowed_published_download-IsDownload parse_url raw digest org name version
              (of_not _ (rw link at allowed)) in
          let of_org = exactly_str-eq-some org (get "org" metadata) (require-eq-ok _ _ o) in
          let of_name = exactly_str-eq-some name (get "name" metadata) (require-eq-ok _ _ n) in
          let of_version =
            exactly_str-eq-some version (get "version" metadata) (require-eq-ok _ _ v) in
          returned (IsValidated parse_url metadata org name version) h₈ (record {
            its_org = of_org.0 ∙ ap str of_org.1;
            its_name = of_name.0 ∙ ap str of_name.1;
            its_version = of_version.0 ∙ ap str of_version.1;
            same_org = of_org.1;
            same_name = of_name.1;
            same_version = of_version.1;
            its_digest = refl;
            its_size = (as_nat-eq-some (get "size" metadata) (require-eq-ok _ _ s)).0;
            its_download = link;
            digest = digest;
            sha256 = text;
            digest_form = form;
            url = url;
            parsed = parsed;
            secure = secure;
            download = download;
          })
