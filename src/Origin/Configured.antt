-- ===== src/Origin/Configured.antt =====
-- What a proxy is configured with.
use zed_infra.Base.{
  ℕ, ◌≤◌, String, true, false, not, some, List, [], ◌∷◌, ◌≡◌, refl, bound, passed, returned,
  require-eq-ok, ok, arith, any, All, or-false, of_not,
}
use zed_infra.Json.{Json, int, undefined, str, as_str}
use zed_infra.Origin.{
  path_form, texts, compile_edge_owned_paths, retry_range, normalize_retry_after_seconds,
  ProxyConfig, create_origin_proxy, given_or,
}

text_of_path : (v : Json) → path_form v ≡ true → (path : String) × (v ≡ str path)
unfolding path_form as_str
text_of_path (str s) h = (s, refl)
text_of_path undefined h = cc h
text_of_path v h = cc h

texts-All :
    (vs : List Json)
    → any (λ v. not (path_form v)) vs ≡ false
    → All (λ path. path_form (str path) ≡ true) (texts vs)
unfolding texts as_str
texts-All [] h = tt
texts-All (v ∷ vs) h =
    let (here, later) = or-false (not (path_form v)) (any (λ v. not (path_form v)) vs) h in
    let (path, same) = text_of_path v (of_not _ here) in
    rw same (rw same at (of_not _ here), texts-All vs later)

retry_range-le : (v : Json) {n : ℕ} → retry_range v ≡ some n → (1 ≤ n) × (n ≤ 86400)
unfolding retry_range
retry_range-le (int n) h = ground arith
retry_range-le undefined h = ground arith
retry_range-le v h = ground arith

-- The seconds are in range, and the edge's own paths are absolute, with no query and no fragment.
pub record IsConfigured (config : ProxyConfig) : Type 0 where
  pub least : 1 ≤ config.retry_after
  pub most : config.retry_after ≤ 86400
  pub paths : All (λ path. path_form (str path) ≡ true) config.edge_owned_paths

-- If a proxy is created, it asks clients to retry after 1 to 86400 seconds, and each path that the
-- edge owns is an absolute path with no query and no fragment.
create_origin_proxy-IsConfigured :
    (label : String) (retry_after paths : Json) {config : ProxyConfig}
    → create_origin_proxy label retry_after paths ≡ ok config
    → IsConfigured config
unfolding create_origin_proxy compile_edge_owned_paths normalize_retry_after_seconds
create_origin_proxy-IsConfigured label retry_after paths h = bound _ _ h λ owned o h₁.
    bound _ _ h₁ λ seconds s h₂. bound _ _ o λ listed _ o₁. passed _ _ _ o₁ λ well_formed o₂.
      let (least, most) = retry_range-le (given_or (int 30) retry_after) (require-eq-ok _ _ s) in
      returned IsConfigured h₂ (record {
        least = least;
        most = most;
        paths =
            returned (All (λ path. path_form (str path) ≡ true)) o₂ (texts-All listed well_formed);
      })
