-- ===== src/Route/Coordinates.antt =====
-- The routes' patterns beside `parseRegistryPath`, which reads the same paths again.
use zed_infra.Base.{
  String, Bool, true, false, Option, none, some, List, [], ◌∷◌, ◌≡◌, ◌⊎◌, inl, inr, refl, ◌===◌,
  ===_iff, Bool-cases, Option-cases, All, All-IsIn, IsIn, if◌then◌else◌, find-eq-some, arith, split,
  and-true, ◌&&◌,
}
use zed_infra.Route.{
  fallback_read, RouteSpec, registry_route_specs, get_package_spec, version_spec, normalize_path,
  matches_spec, fits, match_registry_route, classify_registry_request, classify_route, is_slug,
  is_package_name_segment, safe_version, dashed, dashed_or_native, lit, Tail, nothing, RegistryPath,
  get_package, get_version, parse_segments, parse_registry_path,
}

-- What `parseRegistryPath` reads on a route whose reads may be answered without the origin.
pub data IsReading (segments : List String) : Option RegistryPath → Type 0 where
  of_package :
      (org name : String)
      → segments ≡ ("" ∷ "v1" ∷ "packages" ∷ org ∷ name ∷ [])
      → (is_slug org && is_package_name_segment name) ≡ true
      → IsReading segments (some (get_package org name))
  of_version :
      (org name release : String)
      → segments ≡ ("" ∷ "v1" ∷ "packages" ∷ org ∷ name ∷ "versions" ∷ release ∷ [])
      → (is_slug org && is_package_name_segment name && safe_version release) ≡ true
      → IsReading segments (some (get_version org name release))
  no_package :
      (org name : String)
      → segments ≡ ("" ∷ "v1" ∷ "packages" ∷ org ∷ name ∷ [])
      → (is_slug org && is_package_name_segment name) ≡ false
      → IsReading segments none
  no_version :
      (org name release : String)
      → segments ≡ ("" ∷ "v1" ∷ "packages" ∷ org ∷ name ∷ "versions" ∷ release ∷ [])
      → (is_slug org && is_package_name_segment name && safe_version release) ≡ false
      → IsReading segments none

-- The row of a path, with the path and the test that it passed.
pub match_registry_route-eq-some :
    (pathname : String) {s : RouteSpec}
    → match_registry_route pathname ≡ some s
    → (path : String) × (normalize_path pathname ≡ some path)
      × IsIn s registry_route_specs
      × (matches_spec (split b'/' path) s ≡ true)
unfolding match_registry_route
match_registry_route-eq-some pathname {s} h = elim (Option-cases (normalize_path pathname)) [
  | inl e ↦ cc (let k = rw (e, match_registry_route) at h in k)
  | inr (path, e) ↦
      let (m, t) =
        find-eq-some (matches_spec (split b'/' path)) registry_route_specs
          (rw (e, match_registry_route) at h) in
      (path, e, m, t)
]

-- The rows that have a fallback.
mirrored_rows :
    All (λ s. s.fallback ≡ true → (s ≡ get_package_spec) ⊎ (s ≡ version_spec)) registry_route_specs
unfolding registry_route_specs
mirrored_rows = (
  (λ e. cc e),
  (
    (λ e. cc e),
    (
      (λ e. inl refl),
      (
        (λ e. inr refl),
        (
          (λ e. cc e),
          (
            (λ e. cc e),
            (
              (λ e. cc e),
              (
                (λ e. cc e),
                (
                  (λ e. cc e),
                  (
                    (λ e. cc e),
                    (
                      (λ e. cc e),
                      ((λ e. cc e), ((λ e. cc e), ((λ e. cc e), ((λ e. cc e), ((λ e. cc e), tt))))),
                    ),
                  ),
                ),
              ),
            ),
          ),
        ),
      ),
    ),
  ),
)

fits-cons :
    (p : String → Bool) (ps : List (String → Bool)) (tail : Tail) (ss : List String)
    → fits (p ∷ ps) tail ss ≡ true
    → (s : String) × (rest : List String) × (ss ≡ (s ∷ rest))
      × (p s ≡ true)
      × (fits ps tail rest ≡ true)
unfolding fits
fits-cons p ps tail [] h = cc h
fits-cons p ps tail (s ∷ ss) h = let (a, b) = and-true (p s) _ h in (s, ss, refl, a, b)

fits-nil : (ss : List String) → fits [] nothing ss ≡ true → ss ≡ []
unfolding fits
fits-nil [] h = refl
fits-nil (s ∷ ss) h = cc h

-- The segments of the first five patterns of a coordinate.
coordinate_segments :
    (ps : List (String → Bool)) (ss : List String)
    → fits (lit "" ∷ lit "v1" ∷ lit "packages" ∷ dashed ∷ dashed_or_native ∷ ps) nothing ss ≡ true
    → (org : String) × (name : String) × (rest : List String) × (ss
        ≡ ("" ∷ "v1" ∷ "packages" ∷ org ∷ name ∷ rest))
      × (fits ps nothing rest ≡ true)
coordinate_segments ps ss h =
    let (e, r1, p1, q1, h1) = fits-cons _ _ _ _ h in
    let (v, r2, p2, q2, h2) = fits-cons _ _ _ _ h1 in
    let (k, r3, p3, q3, h3) = fits-cons _ _ _ _ h2 in
    let (org, r4, p4, _, h4) = fits-cons _ _ _ _ h3 in
    let (name, r5, p5, _, h5) = fits-cons _ _ _ _ h4 in
    let e' = (===_iff e "").0 q1 in
    let v' = (===_iff v "v1").0 q2 in
    let k' = (===_iff k "packages").0 q3 in (org, name, r5, cc (p1, p2, p3, p4, p5, e', v', k'), h5)

package_reading :
    (ss : List String) → matches_spec ss get_package_spec ≡ true → IsReading ss (parse_segments ss)
unfolding matches_spec parse_segments
package_reading ss h =
    let (org, name, rest, e, h5) = coordinate_segments _ ss h in
    let same : ss ≡ ("" ∷ "v1" ∷ "packages" ∷ org ∷ name ∷ []) = cc (e, fits-nil rest h5) in
    elim (Bool-cases (is_slug org && is_package_name_segment name)) [
      | inl c ↦ rw (same, c) (of_package org name refl c)
      | inr c ↦ rw (same, c) (no_package org name refl c)
    ]

version_parsed :
    (org name release : String)
    → parse_segments ("" ∷ "v1" ∷ "packages" ∷ org ∷ name ∷ "versions" ∷ release ∷ []) ≡ (
        if is_slug org && is_package_name_segment name && safe_version release
        then some (get_version org name release)
        else none)
unfolding parse_segments
version_parsed org name release = ground arith

version_reading :
    (ss : List String) → matches_spec ss version_spec ≡ true → IsReading ss (parse_segments ss)
unfolding matches_spec
version_reading ss h =
    let (org, name, rest, e, h5) = coordinate_segments _ ss h in
    let (w, r1, p1, q1, h1) = fits-cons _ _ _ _ h5 in
    let (release, r2, p2, _, h2) = fits-cons _ _ _ _ h1 in
    let w' = (===_iff w "versions").0 q1 in
    let same : ss ≡ ("" ∷ "v1" ∷ "packages" ∷ org ∷ name ∷ "versions" ∷ release ∷ []) =
      cc (e, p1, p2, w', fits-nil r2 h2) in
    elim (Bool-cases (is_slug org && is_package_name_segment name && safe_version release)) [
      | inl c ↦ rw (same, version_parsed, c) (of_version org name release refl c)
      | inr c ↦ rw (same, version_parsed, c) (no_version org name release refl c)
    ]

-- No pattern with a fallback fits the path of the health check.
not_healthz :
    (path : String) (s : RouteSpec)
    → (s ≡ get_package_spec) ⊎ (s ≡ version_spec)
    → matches_spec (split b'/' path) s ≡ true
    → (path === "/healthz") ≡ false
unfolding matches_spec fits split
not_healthz path s k h = elim (Bool-cases (path === "/healthz")) [
  | inr e ↦ e
  | inl e ↦
      let same : path ≡ "/healthz" = (===_iff path "/healthz").0 e in
      elim k [
        | inl p ↦ cc (let m = rw (p, same) at h in m)
        | inr p ↦ cc (let m = rw (p, same) at h in m)
      ]
]

reading :
    (ss : List String) (s : RouteSpec)
    → (s ≡ get_package_spec) ⊎ (s ≡ version_spec)
    → matches_spec ss s ≡ true
    → IsReading ss (parse_segments ss)
reading ss s (inl p) h = package_reading ss (rw p at h)
reading ss s (inr p) h = version_reading ss (rw p at h)

falls_back :
    (m : String) (s : RouteSpec) → (classify_route m s).action ≡ fallback_read → s.fallback ≡ true
unfolding classify_route
falls_back m s h = ground arith

-- A request whose action is `fallback_read` has a normal path with the segments of a package or of a
-- version of one. `parseRegistryPath` reads them if the organisation is a slug, the name is a slug
-- or a native coordinate and the version is safe, and answers null if one of these fails.
pub fallback_read-IsReading :
    (method pathname : String)
    → (classify_registry_request method pathname).action ≡ fallback_read
    → (path : String) × (normalize_path pathname ≡ some path)
      × IsReading (split b'/' path) (parse_registry_path pathname)
unfolding classify_registry_request parse_registry_path
fallback_read-IsReading method pathname h = elim (Option-cases (match_registry_route pathname)) [
  | inl e ↦ cc (let k = rw (e, classify_registry_request) at h in k)
  | inr (s, e) ↦
      let k = falls_back _ s (rw (e, classify_registry_request) at h) in
      let (path, n, m, t) = match_registry_route-eq-some pathname e in
      let row = All-IsIn _ registry_route_specs mirrored_rows m k in
      (path, n, rw (n, parse_registry_path, not_healthz path s row t) (reading _ s row t))
]
