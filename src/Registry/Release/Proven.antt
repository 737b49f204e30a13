-- ===== src/Registry/Release/Proven.antt =====
-- What a version that GitHub's source answers is.
use zed_infra.Base.{
  String, true, false, Option, none, some, List, [], ◌∷◌, IsIn, ◌≡◌, require, ◌>>◌, inl, inr, refl,
  ok, bound, passed, followed, returned, ◌>>=◌, require-eq-ok, of_not, or-false,
}
use zed_infra.Json.{Json, str, get, as_arr, is_str-eq-true}
use zed_infra.Capability.{Url}
use zed_infra.Publish.{sha256_form}
use zed_infra.Cdn.{git_tags_for_version}
use zed_infra.Registry.Sidecar.{to_text, release_path, version_from_github_sidecar, Sidecar}
use zed_infra.Registry.Sidecar.Trusted.{
  IsTrusted, Gives, or_try-Gives, version_from_github_sidecar-IsTrusted,
}
use zed_infra.Registry.Release.{
  ReleaseRuntime, api_repo_url, api_json, same_lower, is_bool, public_github_repo, find_asset,
  find_addressed, listed_sidecar, api_release_url, assets_of, chosen, Release, from_assets,
  from_tag, first_release, version_from_github, Version, from_sidecar, from_release, if_public,
  github_version,
}
use zed_infra.Registry.Release.Chosen.{IsChosen, is_expected_asset-url, chosen-eq-some}

-- The repository is public, by the API.
pub record IsPublicRepo (rt : ReleaseRuntime) (owner name : String) (repo : Json) : Type 0 where
  pub read : api_json rt (api_repo_url owner name) ≡ ok repo
  pub not_private : is_bool false (get "private" repo) ≡ true
  pub visible : get "visibility" repo ≡ str "public"
  pub owned : same_lower owner (get "login" (get "owner" repo)) ≡ ok true
  pub named : same_lower name (get "name" repo) ≡ ok true

public_github_repo-IsPublicRepo :
    (rt : ReleaseRuntime) (owner name : String) {repo : Json}
    → public_github_repo rt owner name ≡ ok repo
    → IsPublicRepo rt owner name repo
unfolding public_github_repo
public_github_repo-IsPublicRepo rt owner name h = bound _ _ h λ repo read h₁.
    passed _ _ _ h₁ λ visible_repo h₂. bound _ _ h₂ λ owned o h₃. passed _ _ _ h₃ λ is_owned h₄.
      bound _ _ h₄ λ named n h₅. passed _ _ _ h₅ λ is_named h₆.
        let (private, visible) = or-false _ _ visible_repo in
        returned (IsPublicRepo rt owner name) h₆ (record {
          read = read;
          not_private = of_not _ private;
          visible = is_str-eq-true "public" _ (of_not _ visible);
          owned = rw (← of_not owned is_owned) o;
          named = rw (← of_not named is_named) n;
        })

-- The document is of an asset of a release that the API describes under a tag of the version.
pub record IsPublished (rt : ReleaseRuntime) (org name version : String) (doc : Release)
    : Type 0 where
  pub tagged : IsIn doc.vcs_tag (git_tags_for_version version)
  pub release : Json
  pub read : api_json rt (api_release_url org name doc.vcs_tag) ≡ ok release
  pub no_draft : is_bool true (get "draft" release) ≡ false
  pub assets : List Json
  pub listed : as_arr (get "assets" release) ≡ some assets
  pub asset : Json
  pub attached : IsIn asset assets
  pub chosen_asset : IsChosen org name version assets asset doc.sha256
  pub digest_form : sha256_form doc.sha256 ≡ true
  pub download : doc.download_url ≡ get "browser_download_url" asset
  pub url : Url
  pub parsed : rt.sidecars.parse_url (to_text doc.download_url) ≡ some url
  pub protocol : url.protocol ≡ "https:"
  pub hostname : url.hostname ≡ "github.com"
  pub pathname : url.pathname ≡ release_path org name doc.vcs_tag (to_text (get "name" asset))

pub data IsPublic (rt : ReleaseRuntime) (org name version : String) : Version → Type 0 where
  by_sidecar :
      (doc : Sidecar)
      → IsTrusted rt.sidecars org name version doc
      → IsPublic rt org name version (from_sidecar doc)
  by_release :
      (repo : Json) (doc : Release)
      → IsPublicRepo rt org name repo
      → IsPublished rt org name version doc
      → IsPublic rt org name version (from_release doc)

module _ (rt : ReleaseRuntime) (org name version : String) where
  no_assets :
      (tag : String) (release : Json) {doc : Release}
      → ¬ (from_assets rt org name version tag release [] ≡ ok doc)
  unfolding from_assets find_asset listed_sidecar chosen find_addressed require ◌>>=◌ ◌>>◌
  no_assets tag release h = cc h

  from_assets-IsPublished :
      (tag : String) (release : Json) (o : Option (List Json)) {doc : Release}
      → IsIn tag (git_tags_for_version version)
      → api_json rt (api_release_url org name tag) ≡ ok release
      → is_bool true (get "draft" release) ≡ false
      → as_arr (get "assets" release) ≡ o
      → from_assets rt org name version tag release (assets_of rt org name version o) ≡ ok doc
      → IsPublished rt org name version doc
  unfolding from_assets
  from_assets-IsPublished tag release none is_tag read no_draft listed h =
      absurd (no_assets tag release h)
  from_assets-IsPublished tag release (some assets) is_tag read no_draft listed h =
      bound _ _ h λ sidecar s h₁. followed _ _ h₁ λ _ h₂. bound _ _ h₂ λ named n h₃.
        bound _ _ h₃ λ artifact c h₄. passed _ _ _ h₄ λ expected h₅.
          let (form, attached, by) =
            chosen-eq-some org name version named assets n (require-eq-ok _ _ c) in
          let (url, parsed, protocol, host, path) =
            is_expected_asset-url rt org name tag artifact.0 (of_not _ expected) in
          returned (IsPublished rt org name version) h₅ (record {
            tagged = is_tag;
            release = release;
            read = read;
            no_draft = no_draft;
            assets = assets;
            listed = listed;
            asset = artifact.0;
            attached = attached;
            chosen_asset = by;
            digest_form = form;
            download = refl;
            url = url;
            parsed = parsed;
            protocol = protocol;
            hostname = host;
            pathname = path;
          })

  from_tag-IsPublished :
      (tag : String) {doc : Release}
      → IsIn tag (git_tags_for_version version)
      → from_tag rt org name version tag ≡ ok doc
      → IsPublished rt org name version doc
  unfolding from_tag
  from_tag-IsPublished tag is_tag h = bound _ _ h λ release r h₁. passed _ _ _ h₁ λ published h₂.
      from_assets-IsPublished tag release _ is_tag r (or-false _ _ published).1 refl h₂

  first_release-IsPublished :
      (tags : List String)
      → ((tag : String) → IsIn tag tags → IsIn tag (git_tags_for_version version))
      → Gives (IsPublished rt org name version) (first_release rt org name version tags)
  unfolding first_release
  first_release-IsPublished [] among = λ doc h. cc h
  first_release-IsPublished (tag ∷ tags) among =
      or_try-Gives _ _ _ (λ doc h. from_tag-IsPublished tag (among tag (inl refl)) h)
        (first_release-IsPublished tags (λ t m. among t (inr m)))

  if_public-IsPublic : Gives (IsPublic rt org name version) (if_public rt org name version)
  unfolding if_public version_from_github
  if_public-IsPublic v h = bound _ _ h λ repo r h₁. bound _ _ h₁ λ doc d h₂.
      returned (IsPublic rt org name version) h₂ (
        by_release repo doc (public_github_repo-IsPublicRepo rt org name r)
          (first_release-IsPublished (git_tags_for_version version) (λ t m. m) doc d))

  by_trusted_sidecar : Gives (IsPublic rt org name version) (do
    sidecar ← version_from_github_sidecar rt.sidecars org name version
    ok (from_sidecar sidecar))
  by_trusted_sidecar v h = bound _ _ h λ doc d h₁.
      returned (IsPublic rt org name version) h₁
        (by_sidecar doc (version_from_github_sidecar-IsTrusted rt.sidecars org name version d))

  -- If GitHub's source answers for a version, whatever GitHub and the CDN sent, then either a
  -- sidecar is answered, and it is one to be trusted, or the API described the repository as
  -- public, not private, and of that owner and name, and what is answered is an asset of a release,
  -- no draft, that the API describes under a tag of that version. The asset is named as the
  -- version's artifact, and the digest is the one that GitHub reports of it; or no asset is so
  -- named, the asset is named by the digest, and GitHub reports no other. The digest has 64
  -- hexadecimal digits, and the URL is the asset's own, on github.com under that release.
  pub github_version-IsPublic :
      {v : Version} → github_version rt org name version ≡ ok v → IsPublic rt org name version v
  unfolding github_version
  github_version-IsPublic {v} h = or_try-Gives _ _ _ by_trusted_sidecar if_public-IsPublic v h
