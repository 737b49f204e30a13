-- ===== src/Registry/Release/Chosen.antt =====
-- Which asset of a release is taken, and where its URL is.
use zed_infra.Base.{
  String, Bool, true, ◌&&◌, ◌||◌, Option, none, some, List, [], ◌∷◌, IsIn, ◌≡◌, ◌⊎◌, inl, inr,
  arith, ◌===◌, ===_iff, Bool-cases, Option-cases, and-true, or-true, sym, ok, strip_prefix,
}
use zed_infra.Json.{Json, str, get}
use zed_infra.Capability.{Url}
use zed_infra.Publish.{sha256_form}
use zed_infra.Cdn.{strip_suffix, release_names}
use zed_infra.Registry.Sidecar.{to_text, release_path, is_expected_github_download}
use zed_infra.Registry.Release.{
  ReleaseRuntime, named_among, find_asset, digest_from_release_asset_name, addressed_digest,
  find_addressed, is_nullish, reported_digest, chosen, is_expected_asset,
}

-- The asset that is taken of a release's, with its digest. One that is named as the version's
-- artifact has the digest that GitHub reports of it. Where none is, one is taken that is named by
-- its digest, unless GitHub reports another.
pub data IsChosen (org name version : String) (assets : List Json) (asset : Json) (digest : String)
    : Type 0 where
  by_version :
      named_among (release_names org name version ".tar.gz") (get "name" asset) ≡ true
      → reported_digest asset ≡ digest
      → IsChosen org name version assets asset digest
  by_digest :
      find_asset (named_among (release_names org name version ".tar.gz")) assets ≡ ok none
      → addressed_digest (get "name" asset) ≡ some digest
      → (reported_digest asset ≡ "") ⊎ (reported_digest asset ≡ digest)
      → IsChosen org name version assets asset digest

digest_from_release_asset_name-form :
    (name ending : String) {d : String}
    → digest_from_release_asset_name name ending ≡ some d
    → sha256_form d ≡ true
unfolding digest_from_release_asset_name
digest_from_release_asset_name-form name ending {d} h =
    elim (Option-cases (strip_prefix "zpkg-" name)) [
      | inl e ↦ cc (let k = rw (e, digest_from_release_asset_name) at h in k)
      | inr (rest, e) ↦ elim (Option-cases (strip_suffix ending rest)) [
        | inl f ↦ cc (let k = rw (e, f, digest_from_release_asset_name) at h in k)
        | inr (digest, f) ↦ let k = rw (e, f, digest_from_release_asset_name) at h in ground arith
      ]
    ]

addressed_digest-form : (v : Json) {d : String} → addressed_digest v ≡ some d → sha256_form d ≡ true
unfolding addressed_digest
addressed_digest-form (str name) {d} h =
    elim (Option-cases (digest_from_release_asset_name name ".tar.gz")) [
      | inl e ↦ digest_from_release_asset_name-form name ".zip" (rw (e, addressed_digest) at h)
      | inr (digest, e) ↦
          let same : digest ≡ d = cc (let k = rw (e, addressed_digest) at h in k) in
          rw (← same) (digest_from_release_asset_name-form name ".tar.gz" e)
    ]
addressed_digest-form Json.undefined h = cc h
addressed_digest-form _ h = cc h

find_addressed-eq-some :
    (assets : List Json) {a : Json} {d : String}
    → find_addressed assets ≡ some (a, d)
    → IsIn a assets × (addressed_digest (get "name" a) ≡ some d)
unfolding find_addressed
find_addressed-eq-some [] h = cc h
find_addressed-eq-some (x ∷ xs) {a} {d} h = elim (Option-cases (addressed_digest (get "name" x))) [
  | inl e ↦ let (m, q) = find_addressed-eq-some xs (rw (e, find_addressed) at h) in (inr m, q)
  | inr (digest, e) ↦
      let k = rw (e, find_addressed) at h in
      let found : x ≡ a = cc k in
      let same : digest ≡ d = cc k in (inl (sym found), rw (← found, ← same) e)
]

find_asset-eq-some :
    (test : Json → Bool) (assets : List Json) {a : Json}
    → find_asset test assets ≡ ok (some a)
    → IsIn a assets × (test (get "name" a) ≡ true)
unfolding find_asset
find_asset-eq-some test [] h = cc h
find_asset-eq-some test (x ∷ xs) {a} h = elim (Bool-cases (is_nullish x)) [
  | inl e ↦ cc (let k = rw (e, find_asset) at h in k)
  | inr e ↦ elim (Bool-cases (test (get "name" x))) [
    | inl t ↦
        let found : x ≡ a = cc (let k = rw (e, t, find_asset) at h in k) in
        (inl (sym found), rw (← found) t)
    | inr t ↦ let (m, q) = find_asset-eq-some test xs (rw (e, t, find_asset) at h) in (inr m, q)
  ]
]

pub is_expected_asset-url :
    (rt : ReleaseRuntime) (owner repo tag : String) (asset : Json)
    → is_expected_asset rt owner repo tag asset ≡ true
    → (url : Url) × (rt.sidecars.parse_url (to_text (get "browser_download_url" asset)) ≡ some url)
      × (url.protocol ≡ "https:")
      × (url.hostname ≡ "github.com")
      × (url.pathname ≡ release_path owner repo tag (to_text (get "name" asset)))
unfolding is_expected_asset is_expected_github_download
is_expected_asset-url rt owner repo tag asset h =
    elim (Option-cases (rt.sidecars.parse_url (to_text (get "browser_download_url" asset)))) [
      | inl e ↦ cc (let k = rw (e, is_expected_asset) at h in k)
      | inr (url, e) ↦
          let k = rw (e, is_expected_asset) at h in
          let (a, path) =
            and-true (url.protocol === "https:" && url.hostname === "github.com") _ k in
          let (protocol, host) = and-true (url.protocol === "https:") _ a in
          (url, e, (===_iff _ _).0 protocol, (===_iff _ _).0 host, (===_iff _ _).0 path)
    ]

pub chosen-eq-some :
    (org name version : String) (named : Option Json) (assets : List Json) {a : Json} {d : String}
    → find_asset (named_among (release_names org name version ".tar.gz")) assets ≡ ok named
    → chosen named assets ≡ some (a, d)
    → (sha256_form d ≡ true) × IsIn a assets × IsChosen org name version assets a d
unfolding chosen
chosen-eq-some org name version (some n) assets {a} {d} found h =
    elim (Bool-cases (sha256_form (reported_digest n))) [
      | inl e ↦
          let k = rw (e, chosen) at h in
          let here : n ≡ a = cc k in
          let same : reported_digest n ≡ d = cc k in
          let (m, q) = find_asset-eq-some _ assets found in
          (rw (← same) e, rw (← here) m, rw (← here) (by_version q same))
      | inr e ↦ cc (let k = rw (e, chosen) at h in k)
    ]
chosen-eq-some org name version none assets {a} {d} found h =
    elim (Option-cases (find_addressed assets)) [
      | inl e ↦ cc (let k = rw (e, chosen) at h in k)
      | inr ((x, digest), e) ↦
          elim (Bool-cases (reported_digest x === "" || reported_digest x === digest)) [
            | inl t ↦
                let k = rw (e, t, chosen) at h in
                let here : x ≡ a = cc k in
                let same : digest ≡ d = cc k in
                let (m, q) = find_addressed-eq-some assets e in
                (
                  rw (← same) (addressed_digest-form (get "name" x) q),
                  rw (← here) m,
                  rw (← here, ← same) (by_digest found q (reported x digest t)),
                )
            | inr t ↦ cc (let k = rw (e, t, chosen) at h in k)
          ]
    ]
  where
    reported :
        (x : Json) (digest : String)
        → (reported_digest x === "" || reported_digest x === digest) ≡ true
        → (reported_digest x ≡ "") ⊎ (reported_digest x ≡ digest)
    reported x digest t = elim (or-true _ _ t) [
      | inl e ↦ inl ((===_iff _ _).0 e)
      | inr e ↦ inr ((===_iff _ _).0 e)
    ]
