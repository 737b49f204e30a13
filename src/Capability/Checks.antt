-- ===== src/Capability/Checks.antt =====
-- The small checks of edge-capability.js that its stages share.
use text.Mathlib.TextLemmas.{cons≢nil}
use zed_infra.Base.{
  true, total, total-split, size-pos, ◌≢◌, ◌≡◌, ◌≤◌, arith, ℕ, String, Bool, false, not, ◌&&◌, ◌||◌,
  List, [], ◌∷◌, leb, ◌==◌, size, split, all, member, Result, reject_if, require,
}
use zed_infra.Json.{Json, keys, as_nat}
use zed_infra.Capability.{Code, unknown_field, slug}

-- the versions 1, 2 and 3
unfoldable pub is_supported_capability_version : ℕ → Bool
is_supported_capability_version v = (v == 1) || (v == 2) || (v == 3)

-- `integerClaim` and `boundedOutageInteger`, by the code that they throw
unfoldable pub bounded_integer : Code → Json → Result Code ℕ
unfolding require as_nat
bounded_integer e v = require (as_nat v) e

coordinate_part : String → Bool
coordinate_part p = leb (size p) 128 && slug p

two_coordinate_parts : List String → Bool
two_coordinate_parts (a ∷ b ∷ []) = coordinate_part a && coordinate_part b
two_coordinate_parts _ = false

unfoldable pub is_package_coordinate : String → Bool
unfolding split two_coordinate_parts coordinate_part
is_package_coordinate s = leb (size s) 257 && two_coordinate_parts (split b'/' s)

slug-ne-empty : (s : String) → slug s ≡ true → s ≢ ""
unfolding slug
slug-ne-empty String.[] h = cc h
slug-ne-empty (String.◌∷◌ c s) h = cons≢nil

two_coordinate_parts-total : (ws : List String) → two_coordinate_parts ws ≡ true → 4 ≤ total ws
unfolding two_coordinate_parts coordinate_part
two_coordinate_parts-total (a ∷ b ∷ []) h = omega (
  arith,
  size-pos a (slug-ne-empty a (ground arith)),
  size-pos b (slug-ne-empty b (ground arith)),
)
two_coordinate_parts-total _ h = absurd (cc h)

-- A coordinate has two names and a slash, and at most 257 code units.
pub is_package_coordinate-size :
    (s : String) → is_package_coordinate s ≡ true → (3 ≤ size s) × (size s ≤ 257)
unfolding is_package_coordinate
is_package_coordinate-size s h =
    let long : two_coordinate_parts (split b'/' s) ≡ true = ground arith in
    let short : size s ≤ 257 = ground arith in
    omega (
      arith,
      two_coordinate_parts-total (split b'/' s) long,
      total-split b'/' s (omega arith),
      short,
    )

-- the loop over `Object.keys`
unfoldable pub known_keys : List String → List String → Bool
known_keys allowed ks = all (λ k. member k allowed) ks

unfoldable pub reject_unknown_keys : Json → List String → Result Code (Unit {0})
unfolding known_keys reject_if keys
reject_unknown_keys v allowed = reject_if (not (known_keys allowed (keys v))) unknown_field
