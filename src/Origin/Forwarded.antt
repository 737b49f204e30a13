-- ===== src/Origin/Forwarded.antt =====
-- The headers that the proxy sends to an origin.
use zed_infra.Base.{
  String, true, false, none, some, List, [], ◌∷◌, ◌≡◌, ◌≢◌, ◌⊎◌, inl, inr, refl, ◌∙◌, ◌===◌,
  ===_iff, Bool-cases, member, arith, or-false,
}
use zed_infra.Origin.{
  RequestMode, http, websocket, reject, Headers, hop_by_hop, header_get, header_delete, header_set,
  delete_all, forwarded_headers,
}

header_get-header_delete : (k : String) (hs : Headers) → header_get k (header_delete k hs) ≡ none
unfolding header_get header_delete
header_get-header_delete k [] = refl
header_get-header_delete k ((j, v) ∷ hs) = elim (Bool-cases (j === k)) [
  | inl e ↦ rw e (header_get-header_delete k hs)
  | inr e ↦ rw e (rw e (header_get-header_delete k hs))
]

header_get-header_delete_other :
    (k j : String) (hs : Headers)
    → (k === j) ≡ false
    → header_get k (header_delete j hs) ≡ header_get k hs
unfolding header_get header_delete
header_get-header_delete_other k j [] apart = refl
header_get-header_delete_other k j ((i, v) ∷ hs) apart =
    let rest = header_get-header_delete_other k j hs apart in
    elim (Bool-cases (i === j)) [
      | inl e ↦
          let f : (i === k) ≡ false = ground (arith, ===_iff i j, ===_iff k j, ===_iff i k) in
          rw (e, f) rest
      | inr e ↦ rw e (ground (arith, rest))
    ]

delete_all-none :
    (ks : List String) (k : String) (hs : Headers)
    → header_get k hs ≡ none
    → header_get k (delete_all ks hs) ≡ none
unfolding delete_all
delete_all-none [] k hs h = h
delete_all-none (j ∷ ks) k hs h =
    delete_all-none ks k (header_delete j hs) (elim (Bool-cases (k === j)) [
      | inl e ↦ rw ((===_iff k j).0 e) (header_get-header_delete j hs)
      | inr e ↦ header_get-header_delete_other k j hs e ∙ h
    ])

-- Of the deleted names nothing is left, and every other name keeps its value.
delete_all_gone :
    (ks : List String) (k : String) (hs : Headers)
    → member k ks ≡ true
    → header_get k (delete_all ks hs) ≡ none
unfolding delete_all member
delete_all_gone [] k hs h = cc h
delete_all_gone (j ∷ ks) k hs h = elim (Bool-cases (k === j)) [
  | inl e ↦
      delete_all-none ks k (header_delete j hs)
        (rw ((===_iff k j).0 e) (header_get-header_delete j hs))
  | inr e ↦ delete_all_gone ks k (header_delete j hs) (rw e at h)
]

delete_all_kept :
    (ks : List String) (k : String) (hs : Headers)
    → member k ks ≡ false
    → header_get k (delete_all ks hs) ≡ header_get k hs
unfolding delete_all member
delete_all_kept [] k hs h = refl
delete_all_kept (j ∷ ks) k hs h =
    let (apart, later) = or-false (k === j) (member k ks) h in
    delete_all_kept ks k (header_delete j hs) later ∙ header_get-header_delete_other k j hs apart

header_get-header_set_other :
    (k j v : String) (hs : Headers)
    → (k === j) ≡ false
    → header_get k (header_set j v hs) ≡ header_get k hs
unfolding header_set header_get
header_get-header_set_other k j v hs apart =
    let e : (j === k) ≡ false = ground (arith, ===_iff j k, ===_iff k j) in
    rw e (header_get-header_delete_other k j hs apart)

header_get-header_set : (k v : String) (hs : Headers) → header_get k (header_set k v hs) ≡ some v
unfolding header_set header_get
header_get-header_set k v hs = let e : (k === k) ≡ true = (===_iff k k).1 refl in rw e refl

-- What an origin sees of each header, in each mode.
pub record IsForwarded (mode : RequestMode) (before after : Headers) : Type 0 where
  pub end_to_end :
      (k : String) → member k hop_by_hop ≡ false → header_get k after ≡ header_get k before
  pub dropped :
      (k : String)
      → member k hop_by_hop ≡ true
      → (mode ≡ http) ⊎ (((k === "upgrade") ≡ false) × ((k === "connection") ≡ false))
      → header_get k after ≡ none
  pub handshake :
      mode ≡ websocket
      → (header_get "upgrade" after ≡ some "websocket")
        × (header_get "connection" after ≡ some "Upgrade")

not_hop :
    (k : String)
    → member k hop_by_hop ≡ false
    → ((k === "upgrade") ≡ false) × ((k === "connection") ≡ false)
unfolding member
not_hop k h = ground arith

websocket_others :
    (k : String) (hs : Headers)
    → (k === "upgrade") ≡ false
    → (k === "connection") ≡ false
    → header_get k (forwarded_headers websocket hs) ≡ header_get k (delete_all hop_by_hop hs)
unfolding forwarded_headers
websocket_others k hs u c =
    header_get-header_set_other k "connection" "Upgrade"
      (header_set "upgrade" "websocket" (delete_all hop_by_hop hs)) c
    ∙ header_get-header_set_other k "upgrade" "websocket" (delete_all hop_by_hop hs) u

-- In a request that is forwarded every header that is not hop-by-hop has the value that the client
-- gave it. A hop-by-hop header is dropped, whatever the client gave, but for the two that make a
-- WebSocket handshake, which are set anew in that mode.
pub forwarded_headers-IsForwarded :
    (mode : RequestMode) (hs : Headers)
    → mode ≢ reject
    → IsForwarded mode hs (forwarded_headers mode hs)
unfolding forwarded_headers
forwarded_headers-IsForwarded http hs allowed = record {
  end_to_end = λ k h. delete_all_kept hop_by_hop k hs h;
  dropped = λ k h _. delete_all_gone hop_by_hop k hs h;
  handshake = λ e. cc e;
}
forwarded_headers-IsForwarded websocket hs allowed = record {
  end_to_end = λ k h.
      let (u, c) = not_hop k h in websocket_others k hs u c ∙ delete_all_kept hop_by_hop k hs h;
  dropped = λ k h either. elim either [
    | inl e ↦ cc e
    | inr (u, c) ↦ websocket_others k hs u c ∙ delete_all_gone hop_by_hop k hs h
  ];
  handshake = λ _. (
    header_get-header_set_other "upgrade" "connection" "Upgrade"
          (header_set "upgrade" "websocket" (delete_all hop_by_hop hs)) refl
        ∙ header_get-header_set "upgrade" "websocket" (delete_all hop_by_hop hs),
    header_get-header_set "connection" "Upgrade"
        (header_set "upgrade" "websocket" (delete_all hop_by_hop hs)),
  );
}
forwarded_headers-IsForwarded reject hs allowed = absurd (allowed refl)
