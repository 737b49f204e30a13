-- ===== src/Route/Decided.antt =====
-- What may be done with a request at the registry's hostname, as a table over the routes' names.
use zed_infra.Base.{
  String, Bool, true, false, Option, none, some, [], ◌∷◌, ◌≡◌, ◌⊎◌, inl, inr, refl, ◌===◌, ===_iff,
  Option-cases, All, All-IsIn, member, not, ◌||◌, arith, if◌then◌else◌, ◌∙◌,
}
use zed_infra.Route.Coordinates.{match_registry_route-eq-some}
use zed_infra.Http.{to_upper}
use zed_infra.Route.{
  RegistryAction, preflight, health, origin_read, origin_write, fallback_read, deny_method,
  deny_route, RouteName, RouteSpec, RouteDecision, registry_route_specs, match_registry_route,
  classify_route, classify_registry_request, is_healthz,
}

-- How each route may be used.
pub data Use : Type 0 where
  liveness_check mirrored_read mirrored_read_or_put origin_only : Use
  write_by : String → Use

abbrev pub use_of : RouteName → Use
use_of RouteName.healthz = liveness_check
use_of RouteName.get_package = mirrored_read
use_of RouteName.version = mirrored_read_or_put
use_of RouteName.yank = write_by "POST"
use_of RouteName.semantic_search = write_by "POST"
use_of RouteName.claim_org = write_by "POST"
use_of RouteName.embedding = write_by "PUT"
use_of _ = origin_only

abbrev pub read_method : String → Bool
read_method m = m === "GET" || m === "HEAD"

-- What is done for a method, in upper case, other than `OPTIONS`.
abbrev pub permitted : Use → String → RegistryAction
permitted liveness_check m = if read_method m then health else deny_method
permitted mirrored_read m = if read_method m then fallback_read else deny_method
permitted mirrored_read_or_put m =
    if read_method m then fallback_read else if m === "PUT" then origin_write else deny_method
permitted origin_only m = if read_method m then origin_read else deny_method
permitted (write_by w) m = if m === w then origin_write else deny_method

abbrev pub policy : Option RouteName → String → RegistryAction
policy none m = deny_route
policy (some name) m = if m === "OPTIONS" then preflight else permitted (use_of name) m

abbrev pub is_denied : RegistryAction → Bool
is_denied deny_method = true
is_denied deny_route = true
is_denied _ = false

-- A row of the routes' table, beside the use of its route.
abbrev AgreesWith : Use → RouteSpec → Type 0
AgreesWith liveness_check s =
    (s.methods ≡ ("GET" ∷ "HEAD" ∷ [])) × (s.fallback ≡ false) × (is_healthz s.name ≡ true)
AgreesWith mirrored_read s =
    (s.methods ≡ ("GET" ∷ "HEAD" ∷ [])) × (s.fallback ≡ true) × (is_healthz s.name ≡ false)
AgreesWith mirrored_read_or_put s =
    (s.methods ≡ ("GET" ∷ "HEAD" ∷ "PUT" ∷ [])) × (s.fallback ≡ true) × (is_healthz s.name ≡ false)
AgreesWith origin_only s =
    (s.methods ≡ ("GET" ∷ "HEAD" ∷ [])) × (s.fallback ≡ false) × (is_healthz s.name ≡ false)
AgreesWith (write_by w) s =
    (s.methods ≡ (w ∷ []))
    × (s.fallback ≡ false)
    × (is_healthz s.name ≡ false)
    × ((w ≡ "POST") ⊎ (w ≡ "PUT"))

abbrev IsRow : RouteSpec → Type 0
IsRow s = AgreesWith (use_of s.name) s

rows : All IsRow registry_route_specs
unfolding registry_route_specs
rows = (
  (refl, refl, refl),
  (
    (refl, refl, refl),
    (
      (refl, refl, refl),
      (
        (refl, refl, refl),
        (
          (refl, refl, refl, inl refl),
          (
            (refl, refl, refl),
            (
              (refl, refl, refl),
              (
                (refl, refl, refl),
                (
                  (refl, refl, refl, inl refl),
                  (
                    (refl, refl, refl, inr refl),
                    (
                      (refl, refl, refl, inl refl),
                      (
                        (refl, refl, refl),
                        (
                          (refl, refl, refl),
                          ((refl, refl, refl), ((refl, refl, refl), ((refl, refl, refl), tt))),
                        ),
                      ),
                    ),
                  ),
                ),
              ),
            ),
          ),
        ),
      ),
    ),
  ),
)

-- One row's decision.
abbrev pub IsDecision : String → Option RouteName → RouteDecision → Type 0
IsDecision m route d =
    (d.route ≡ route) × (d.action ≡ policy route m) × (is_denied d.action ≡ not (member m d.allow))

-- A route's own write method is neither a read nor a preflight.
written :
    (m w : String)
    → (w ≡ "POST") ⊎ (w ≡ "PUT")
    → (m === w) ≡ true
    → ((m === "OPTIONS") ≡ false) × ((m === "GET") ≡ false) × ((m === "HEAD") ≡ false)
written m w k h =
    let e : m ≡ w = (===_iff m w).0 h in
    elim k [
      | inl p ↦ let q : m ≡ "POST" = e ∙ p in rw q (refl, refl, refl)
      | inr p ↦ let q : m ≡ "PUT" = e ∙ p in rw q (refl, refl, refl)
    ]

classify_route-IsDecision :
    (m : String) (u : Use) (s : RouteSpec)
    → AgreesWith u s
    → use_of s.name ≡ u
    → IsDecision m (some s.name) (classify_route m s)
unfolding classify_route member
classify_route-IsDecision m liveness_check s (a, b, c) e = rw (e, a, b, c) (ground arith)
classify_route-IsDecision m mirrored_read s (a, b, c) e = rw (e, a, b, c) (ground arith)
classify_route-IsDecision m mirrored_read_or_put s (a, b, c) e = rw (e, a, b, c) (ground arith)
classify_route-IsDecision m origin_only s (a, b, c) e = rw (e, a, b, c) (ground arith)
classify_route-IsDecision m (write_by w) s (a, b, c, k) e =
    rw (e, a, b, c) (ground (arith, written m w k))

matched : (pathname : String) {s : RouteSpec} → match_registry_route pathname ≡ some s → IsRow s
matched pathname h =
    let (_, _, m, _) = match_registry_route-eq-some pathname h in
    All-IsIn IsRow registry_route_specs rows m

abbrev pub route_name : Option RouteSpec → Option RouteName
route_name none = none
route_name (some s) = some s.name

-- For every method and path, the decision names the route that the path matches, its action is the
-- one that the table of uses gives for that route and the method in upper case (for no route,
-- `deny_route`), and the request is denied exactly if that method is not among the allowed ones.
pub classify_registry_request-IsDecision :
    (method pathname : String)
    → IsDecision
        (to_upper method)
        (route_name (match_registry_route pathname))
        (classify_registry_request method pathname)
unfolding classify_registry_request member
classify_registry_request-IsDecision method pathname =
    elim (Option-cases (match_registry_route pathname)) [
      | inl e ↦ rw (e, classify_registry_request) (refl, refl, refl)
      | inr (s, e) ↦
          rw (e, classify_registry_request)
            (classify_route-IsDecision (to_upper method) (use_of s.name) s (matched pathname e)
              refl)
    ]
