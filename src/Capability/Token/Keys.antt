-- ===== src/Capability/Token/Keys.antt =====
-- The verification key that `select_key` trusts.
use zed_infra.Base.{
  String, true, List, [], ◌∷◌, filter, distinct_from-IsDistinct, IsDistinct-unique, IsIn,
  IsIn-filter, filter-IsIn, ok, ◌≡◌, inl, passed, bound, returned, of_not, ok-injective, sym,
}
use zed_infra.Json.{Json, str, get, is_str-eq-true, same_str_comm, same_str_refl}
use zed_infra.Capability.Token.{usable, has_kid, same_kid, first_or_unknown, select_key}

first_or_unknown-IsIn : (ks : List Json) {k : Json} → first_or_unknown ks ≡ ok k → IsIn k ks
unfolding first_or_unknown
first_or_unknown-IsIn [] h = cc h
first_or_unknown-IsIn (x ∷ xs) h = inl (sym (ok-injective h))

same_kid_comm : (j k : Json) → same_kid j k ≡ same_kid k j
unfolding same_kid
same_kid_comm j k = same_str_comm (get "kid" j) (get "kid" k)

-- The trusted key is in the snapshot, is an eligible signing key and has the requested id; and
-- every eligible key of the snapshot with that id is that key, so the order of the keys is
-- immaterial.
pub record IsTrusted (kid : String) (keys : List Json) (k : Json) : Type 0 where
  pub listed : IsIn k keys
  pub eligible : usable k ≡ true
  pub named : get "kid" k ≡ str kid
  pub sole : (j : Json) → IsIn j keys → usable j ≡ true → get "kid" j ≡ str kid → j ≡ k

same_kid_of_named :
    (kid : String) (j k : Json)
    → get "kid" j ≡ str kid
    → get "kid" k ≡ str kid
    → same_kid j k ≡ true
unfolding same_kid
same_kid_of_named kid j k p q = rw (p, q) (same_str_refl kid)

-- If a key is selected, it is in the snapshot, is an eligible signing key and has the requested id,
-- and every eligible key of the snapshot with that id is that key.
pub select_key-IsTrusted :
    (kid : String) (keys : List Json) {k : Json} → select_key kid keys ≡ ok k → IsTrusted kid keys k
unfolding select_key has_kid
select_key-IsTrusted kid keys h = bound _ _ h λ k chosen h₁. passed _ _ _ h₁ λ apart h₂.
    let (candidate, kid_of) =
      IsIn-filter (has_kid kid) (filter usable keys) (first_or_unknown-IsIn _ chosen) in
    let (listed, eligible) = IsIn-filter usable keys candidate in
    let named : get "kid" k ≡ str kid = is_str-eq-true kid _ kid_of in
    returned (IsTrusted kid keys) h₂ (record {
      listed = listed;
      eligible = eligible;
      named = named;
      sole = λ j m u n.
          IsDistinct-unique same_kid same_kid_comm (filter usable keys)
            (distinct_from-IsDistinct same_kid _ (of_not _ apart)) (filter-IsIn usable keys m u)
            candidate (same_kid_of_named kid j k n named);
    })

-- If every key of one snapshot is in another one, and both select a key for an id, they select the
-- same key.
pub select_key_order_free :
    (kid : String) (keys other : List Json) {j k : Json}
    → ((x : Json) → IsIn x keys → IsIn x other)
    → select_key kid keys ≡ ok j
    → select_key kid other ≡ ok k
    → j ≡ k
select_key_order_free kid keys other {j} sub p q =
    let first = select_key-IsTrusted kid keys p in
    let second = select_key-IsTrusted kid other q in
    second.sole j (sub j first.listed) first.eligible first.named
