-- ===== src/Visibility.antt =====
-- workers/shared/public-visibility.js: what the public edge may disclose.
use zed_infra.Base.{
  String, Bool, true, false, not, ◌&&◌, ◌||◌, ◌≡◌, ◌⊎◌, ◌↔◌, inl, inr, member, Result, reject_if,
  arith, refl,
}
use zed_infra.Json.{
  Json, str, get, keys, is_record, is_str, is_str-eq-true, is_str_refl, is_undefined,
}

-- `Object.hasOwn(v, k)`
unfoldable has_own : String → Json → Bool
has_own k v = member k (keys v)

unfoldable pub permits_public_visibility : Json → Bool
unfolding has_own
permits_public_visibility v =
    is_record v && (not (has_own "visibility" v) || is_str "public" (get "visibility" v))

-- The error that `requirePublicObject` throws.
pub data NonPublic : Type 0 where
  non_public_object : NonPublic

-- of an object's `customMetadata`
unfoldable pub require_public_object : Json → Result NonPublic (Unit {0})
require_public_object metadata =
    reject_if (not (is_undefined metadata) && not (permits_public_visibility metadata))
      non_public_object

permits_to :
    (v : Json)
    → permits_public_visibility v ≡ true
    → (is_record v ≡ true)
      × ((has_own "visibility" v ≡ false) ⊎ (get "visibility" v ≡ str "public"))
unfolding permits_public_visibility
permits_to v h = ground (arith, is_str-eq-true "public" (get "visibility" v))

permits_from :
    (v : Json)
    → is_record v ≡ true
    → (has_own "visibility" v ≡ false) ⊎ (get "visibility" v ≡ str "public")
    → permits_public_visibility v ≡ true
unfolding permits_public_visibility has_own
permits_from v r (inl absent) = rw (r, absent) refl
permits_from v r (inr public) = rw (r, public, is_str_refl "public") (ground arith)

-- A record is public exactly if it is an object that has no `visibility`, or has "public" there: no
-- other value, and no other kind of value, is.
permits_public_visibility_iff :
    (v : Json)
    → (permits_public_visibility v ≡ true) ↔ (
        (is_record v ≡ true)
        × ((has_own "visibility" v ≡ false) ⊎ (get "visibility" v ≡ str "public")))
permits_public_visibility_iff v = (permits_to v, λ h. permits_from v h.0 h.1)
