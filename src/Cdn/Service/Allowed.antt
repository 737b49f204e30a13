-- ===== src/Cdn/Service/Allowed.antt =====
-- The URLs that the sources of a path fetch.
use zed_infra.Base.{
  String, Bool, true, Option, none, some, List, [], ◌∷◌, ◌≡◌, inl, inr, refl, All, All-append,
  All_mono, Bool-cases, Option-cases, Result-cases, ◌⧺◌,
}
use zed_infra.Registry.{Response}
use zed_infra.Cdn.{
  CdnPath, release_feed, github_object, package_object, content_object, metadata_object,
  github_fallback_urls_for_cdn,
}
use zed_infra.Cdn.Mirror.{
  Upstream, Web, fetch_with_validated_redirects, is_allowed_github_artifact_url,
  is_allowed_github_release_feed_url, sanitize_public_artifact,
}
use zed_infra.Cdn.Mirror.Redirected.{fetch_with_validated_redirects-IsFollowed}
use zed_infra.Cdn.Service.{
  CdnServices, Sourced, sourced, or_source, first_source, get_native_public, github_artifacts,
  is_native, get_github_public, from_sources, sanitize_public_release_feed,
}

module _ (env : CdnServices) where
  -- A URL that some source for this path may be fetched from.
  pub data IsAllowedFor (path : CdnPath) (url : String) : Type 0 where
    on_native :
        (host org name release filename key : String)
        → path ≡ package_object org name release filename key
        → env.native_host org ≡ some host
        → env.native_allowed host url name release ≡ true
        → IsAllowedFor path url
    on_github : is_allowed_github_artifact_url env.parse_url url ≡ true → IsAllowedFor path url
    on_feed :
        (owner repo key : String)
        → path ≡ release_feed owner repo key
        → is_allowed_github_release_feed_url env.parse_url owner repo url ≡ true
        → IsAllowedFor path url

  or_source-All :
      (P : String → Type 0) (s next : Sourced)
      → All P s.fetched
      → All P next.fetched
      → All P (or_source s next).fetched
  unfolding or_source
  or_source-All P s next ps qs = elim (Result-cases s.answer) [
    | inl (e, h) ↦ rw (h, or_source) ps
    | inr (none, h) ↦ rw (h, or_source) (All-append P s.fetched next.fetched ps qs)
    | inr (some r, h) ↦ rw (h, or_source) ps
  ]

  first_source-All :
      (P : String → Type 0) (web : Web) (allow_url : String → Bool)
      (sanitize : Option Upstream → Option Response) (urls : List String)
      → ((u : String) → allow_url u ≡ true → P u)
      → All P (first_source web allow_url sanitize urls).fetched
  unfolding first_source
  first_source-All P web allow_url sanitize [] f = tt
  first_source-All P web allow_url sanitize (url ∷ urls) f =
      or_source-All P (sourced sanitize (fetch_with_validated_redirects web allow_url url))
        (first_source web allow_url sanitize urls)
        (All_mono (λ u. allow_url u ≡ true) P f
          (fetch_with_validated_redirects web allow_url url).fetched
          (fetch_with_validated_redirects-IsFollowed web allow_url url).allowed)
        (first_source-All P web allow_url sanitize urls f)

  native-All :
      (path : CdnPath) (method : String)
      → All (IsAllowedFor path) (get_native_public env path method).fetched
  unfolding get_native_public
  native-All (package_object org name release filename key) method =
      elim (Option-cases (env.native_host org)) [
        | inl e ↦ rw (e, get_native_public) tt
        | inr (host, e) ↦
            rw (e, get_native_public)
              (first_source-All (IsAllowedFor (package_object org name release filename key))
                (env.web method) (λ u. env.native_allowed host u name release)
                (λ r. sanitize_public_artifact env.number r method ("native-" ⧺ host))
                (env.native_urls host name release filename)
                (λ u h. on_native host org name release filename key refl e h))
      ]
  native-All (release_feed a b c) method = tt
  native-All (github_object a b c d e) method = tt
  native-All (content_object a b c) method = tt
  native-All (metadata_object a) method = tt

  artifacts-All :
      (path : CdnPath) (method : String)
      → All (IsAllowedFor path) (github_artifacts env path method).fetched
  unfolding github_artifacts
  artifacts-All path method =
      first_source-All (IsAllowedFor path) (env.web method)
        (is_allowed_github_artifact_url env.parse_url)
        (λ r. sanitize_public_artifact env.number r method "github-release")
        (github_fallback_urls_for_cdn path) (λ u h. on_github h)

  github-All :
      (path : CdnPath) (method : String)
      → All (IsAllowedFor path) (get_github_public env path method).fetched
  unfolding get_github_public
  github-All (package_object org name release filename key) method =
      elim (Bool-cases (is_native (env.native_host org))) [
        | inl e ↦ rw (e, get_github_public) tt
        | inr e ↦
            rw (e, get_github_public)
              (artifacts-All (package_object org name release filename key) method)
      ]
  github-All (github_object a b c d e) method = artifacts-All (github_object a b c d e) method
  github-All (release_feed owner repo key) method =
      first_source-All (IsAllowedFor (release_feed owner repo key)) (env.web method)
        (is_allowed_github_release_feed_url env.parse_url owner repo)
        (λ r. sanitize_public_release_feed env.number r method)
        (github_fallback_urls_for_cdn (release_feed owner repo key))
        (λ u h. on_feed owner repo key refl h)
  github-All (content_object a b c) method = tt
  github-All (metadata_object a) method = tt

  pub from_sources-All :
      (path : CdnPath) (method : String) (keys : List String)
      → All (IsAllowedFor path) (from_sources env path method keys).fetched
  unfolding from_sources
  from_sources-All path method keys =
      or_source-All (IsAllowedFor path) (get_native_public env path method)
        (get_github_public env path method) (native-All path method) (github-All path method)
