-- ===== src/Registry/Sidecar/Trusted.antt =====
-- Where the sidecar that is answered comes from.
use zed_infra.Base.{
  String, true, Option, some, List, [], ◌∷◌, IsIn, ◌≡◌, ◌∙◌, ap, inl, inr, refl, Result, ok, err,
  bound, passed, require-eq-ok, of_not,
}
use zed_infra.Json.{Json}
use zed_infra.Cdn.{download_url, release_names, git_tags_for_version}
use zed_infra.Cdn.Mirror.{is_ok, Upstream}
use zed_infra.Registry.Sidecar.{
  SidecarFault, no_sidecar, thrown, Sidecar, SidecarRuntime, or_try, attempt, from_either,
  first_sidecar, first_tag, version_from_github_sidecar, cdn_release_sidecar_url,
  fetch_github_release_sidecar, read_bounded_sidecar_json,
}
use zed_infra.Registry.Sidecar.Validated.{IsValidated, validate_sidecar-IsValidated}

-- A response was fetched for the file of the release, from the CDN or from GitHub.
pub data IsFetched (rt : SidecarRuntime) (org name tag file : String) (response : Upstream)
    : Type 0 where
  of_cdn :
      rt.cdn (cdn_release_sidecar_url rt org name tag file) ≡ some response
      → IsFetched rt org name tag file response
  of_github :
      fetch_github_release_sidecar rt (download_url org name tag file) ≡ ok (some response)
      → IsFetched rt org name tag file response

-- The document is that of a sidecar of a release of the version.
pub record IsTrusted (rt : SidecarRuntime) (org name version : String) (doc : Sidecar)
    : Type 0 where
  pub tag : String
  pub tagged : IsIn tag (git_tags_for_version version)
  pub file : String
  pub named : IsIn file (release_names org name version ".json")
  pub response : Upstream
  pub fetched : IsFetched rt org name tag file response
  pub successful : is_ok response ≡ true
  pub metadata : Json
  pub read : read_bounded_sidecar_json rt response ≡ ok metadata
  pub validated : IsValidated rt.parse_url metadata org name version doc

module _ {A : Type 0} (P : A → Type 0) where
  abbrev pub Gives : Result SidecarFault A → Type 0
  Gives r = (a : A) → r ≡ ok a → P a

  pub or_try-Gives :
      (this next : Result SidecarFault A) → Gives this → Gives next → Gives (or_try this next)
  unfolding or_try
  or_try-Gives (ok made) next p q a h = p a h
  or_try-Gives (err no_sidecar) next p q a h = q a h
  or_try-Gives (err thrown) next p q a h = cc h

module _ (rt : SidecarRuntime) (org name version : String) where
  -- A response that gives a document: it is ok, and what is read of it is valid.
  record IsAttempt (response : Option Upstream) (doc : Sidecar) : Type 0 where
    pub given : Upstream
    pub received : response ≡ some given
    pub successful : is_ok given ≡ true
    pub metadata : Json
    pub read : read_bounded_sidecar_json rt given ≡ ok metadata
    pub validated : IsValidated rt.parse_url metadata org name version doc

  attempt-IsAttempt :
      (response : Option Upstream)
      → Gives (IsAttempt response) (attempt rt org name version response)
  unfolding attempt
  attempt-IsAttempt response doc h = bound _ _ h λ r got h₁. passed _ _ _ h₁ λ good h₂.
      bound _ _ h₂ λ metadata read h₃. record {
        given = r;
        received = require-eq-ok _ _ got;
        successful = of_not _ good;
        metadata = metadata;
        read = read;
        validated = validate_sidecar-IsValidated rt.parse_url metadata org name version h₃;
      }

  from_either-IsTrusted :
      (tag file : String)
      → IsIn tag (git_tags_for_version version)
      → IsIn file (release_names org name version ".json")
      → Gives (IsTrusted rt org name version) (from_either rt org name version tag file)
  unfolding from_either
  from_either-IsTrusted tag file tagged named =
      or_try-Gives _ _ _
        (λ doc h. let a = attempt-IsAttempt _ doc h in trusted a (of_cdn a.received))
        (λ doc h. bound _ _ h λ response got h₁.
          let a = attempt-IsAttempt response doc h₁ in
          trusted a (of_github (got ∙ ap ok a.received)))
    where
      trusted :
          {response : Option Upstream} {doc : Sidecar} (a : IsAttempt response doc)
          → IsFetched rt org name tag file a.given
          → IsTrusted rt org name version doc
      trusted a fetched = record {
        tag = tag;
        tagged = tagged;
        file = file;
        named = named;
        response = a.given;
        fetched = fetched;
        successful = a.successful;
        metadata = a.metadata;
        read = a.read;
        validated = a.validated;
      }

  first_sidecar-IsTrusted :
      (tag : String) (files : List String)
      → IsIn tag (git_tags_for_version version)
      → ((file : String) → IsIn file files → IsIn file (release_names org name version ".json"))
      → Gives (IsTrusted rt org name version) (first_sidecar rt org name version tag files)
  unfolding first_sidecar
  first_sidecar-IsTrusted tag [] tagged among = λ doc h. cc h
  first_sidecar-IsTrusted tag (file ∷ files) tagged among =
      or_try-Gives _ _ _ (from_either-IsTrusted tag file tagged (among file (inl refl)))
        (first_sidecar-IsTrusted tag files tagged (λ f m. among f (inr m)))

  first_tag-IsTrusted :
      (tags : List String)
      → ((tag : String) → IsIn tag tags → IsIn tag (git_tags_for_version version))
      → Gives (IsTrusted rt org name version) (first_tag rt org name version tags)
  unfolding first_tag
  first_tag-IsTrusted [] among = λ doc h. cc h
  first_tag-IsTrusted (tag ∷ tags) among =
      or_try-Gives _ _ _
        (first_sidecar-IsTrusted tag (release_names org name version ".json") (among tag (inl refl))
          (λ f m. m))
        (first_tag-IsTrusted tags (λ t m. among t (inr m)))

  -- If a sidecar is answered for a version, whatever the CDN and GitHub sent, then a response that is
  -- ok was fetched from one of them for a file that is named as the version's sidecar, under a tag
  -- of the version, and the document is made of what was read of it. What was read names the
  -- organisation, the name and the version asked for, its digest prints as 64 hexadecimal digits,
  -- and its download is a secure URL: on the CDN the artifact of that digest, or on GitHub a file
  -- of a release of that repository, tagged with that version and named after the package or the
  -- digest.
  pub version_from_github_sidecar-IsTrusted :
      {doc : Sidecar}
      → version_from_github_sidecar rt org name version ≡ ok doc
      → IsTrusted rt org name version doc
  unfolding version_from_github_sidecar
  version_from_github_sidecar-IsTrusted {doc} h =
      first_tag-IsTrusted (git_tags_for_version version) (λ t m. m) doc h
