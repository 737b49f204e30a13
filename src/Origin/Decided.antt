-- ===== src/Origin/Decided.antt =====
-- What the proxy answers.
use zed_infra.Base.{
  ℕ, Bool, true, false, Option, none, some, ◌≡◌, ◌≢◌, ◌⊎◌, inl, inr, refl, ◌==◌, Bool-cases,
  Option-cases, member, arith, ok, ◌>>=◌,
}
use zed_infra.Origin.{
  RequestMode, http, websocket, reject, ResponseDecision, forward, upgrade, unavailable,
  request_mode, origin_is_unavailable, is_websocket, decide, response_decision, header_get,
  ProxyRequest, OriginResponse, Reply, bad_request, handed_over, relayed, ProxyConfig,
  unavailable_reply, relayed_response, answer, forwarded_request, received, fetch_in, proxy_fetch,
}

-- When an answer of the origin counts as none.
pub data IsDown (mode : RequestMode) (status : ℕ) (socket owned : Bool) : Type 0 where
  no_socket : status ≡ 101 → (mode ≡ http) ⊎ (socket ≡ false) → IsDown mode status socket owned
  gateway : status ≢ 101 → origin_is_unavailable status ≡ true → IsDown mode status socket owned
  owned_path : status ≡ 404 → owned ≡ true → IsDown mode status socket owned

pub data IsDecision (mode : RequestMode) (status : ℕ) (socket owned : Bool)
    : ResponseDecision → Type 0 where
  upgrades :
      mode ≡ websocket → status ≡ 101 → socket ≡ true → IsDecision mode status socket owned upgrade
  down : IsDown mode status socket owned → IsDecision mode status socket owned unavailable
  forwards :
      status ≢ 101
      → origin_is_unavailable status ≡ false
      → (status ≢ 404) ⊎ (owned ≡ false)
      → IsDecision mode status socket owned forward

not_websocket : (mode : RequestMode) → mode ≢ reject → is_websocket mode ≡ false → mode ≡ http
unfolding is_websocket
not_websocket http a h = refl
not_websocket websocket a h = cc h
not_websocket reject a h = absurd (a refl)

is_websocket-eq-true : (mode : RequestMode) → is_websocket mode ≡ true → mode ≡ websocket
unfolding is_websocket
is_websocket-eq-true http h = cc h
is_websocket-eq-true websocket h = refl
is_websocket-eq-true reject h = cc h

decide-IsDecision :
    (mode : RequestMode) (status : ℕ) (socket owned : Bool)
    → mode ≢ reject
    → IsDecision mode status socket owned (decide mode status socket owned)
unfolding decide
decide-IsDecision mode status socket owned allowed = elim (Bool-cases (status == 101)) [
  | inl s ↦ elim (Bool-cases (is_websocket mode)) [
    | inl w ↦ elim (Bool-cases socket) [
      | inl t ↦ rw (s, w, t) (upgrades (is_websocket-eq-true mode w) (ground arith) refl)
      | inr f ↦ rw (s, w, f) (down (no_socket (ground arith) (inr refl)))
    ]
    | inr w ↦ rw (s, w) (down (no_socket (ground arith) (inl (not_websocket mode allowed w))))
  ]
  | inr s ↦
      let other : status ≢ 101 = λ e. ground arith in
      elim (Bool-cases (origin_is_unavailable status)) [
        | inl u ↦ rw (s, u) (down (gateway other u))
        | inr u ↦ elim (Bool-cases (status == 404)) [
          | inl n ↦ elim (Bool-cases owned) [
            | inl t ↦ rw (s, u, n, t) (down (owned_path (ground arith) refl))
            | inr f ↦ rw (s, u, n, f) (forwards other u (inr refl))
          ]
          | inr n ↦ rw (s, u, n) (forwards other u (inl (λ e. ground arith)))
        ]
      ]
]

module _ (config : ProxyConfig) (fetch : ProxyRequest → Option OriginResponse)
    (request : ProxyRequest) where
  abbrev pub mode_of : RequestMode
  mode_of = request_mode request.method (header_get "upgrade" request.headers)

  -- The answers of the proxy, with what the origin said to the forwarded request.
  pub data IsAnswer : Reply → Type 0 where
    refused : mode_of ≡ reject → IsAnswer bad_request
    silent :
        mode_of ≢ reject
        → fetch (forwarded_request mode_of request) ≡ none
        → IsAnswer (unavailable_reply config request 0)
    upgraded :
        (r : OriginResponse)
        → fetch (forwarded_request mode_of request) ≡ some r
        → IsDecision mode_of r.status r.has_web_socket
            (member request.pathname config.edge_owned_paths)
            upgrade
        → IsAnswer (handed_over r)
    dropped :
        (r : OriginResponse)
        → mode_of ≢ reject
        → fetch (forwarded_request mode_of request) ≡ some r
        → IsDecision mode_of r.status r.has_web_socket
            (member request.pathname config.edge_owned_paths)
            unavailable
        → IsAnswer (unavailable_reply config request r.status)
    passed_on :
        (r : OriginResponse)
        → mode_of ≢ reject
        → fetch (forwarded_request mode_of request) ≡ some r
        → IsDecision mode_of r.status r.has_web_socket
            (member request.pathname config.edge_owned_paths)
            forward
        → IsAnswer (relayed (relayed_response config r))

  answer-IsAnswer :
      (r : OriginResponse) (d : ResponseDecision)
      → mode_of ≢ reject
      → fetch (forwarded_request mode_of request) ≡ some r
      → IsDecision mode_of r.status r.has_web_socket
          (member request.pathname config.edge_owned_paths)
          d
      → IsAnswer (answer config request r d)
  unfolding answer
  answer-IsAnswer r upgrade a f d = upgraded r f d
  answer-IsAnswer r unavailable a f d = dropped r a f d
  answer-IsAnswer r forward a f d = passed_on r a f d

  decided :
      (mode : RequestMode) (status : ℕ) (socket owned : Bool)
      → mode ≢ reject
      → response_decision mode status socket owned ≡ ok (decide mode status socket owned)
  unfolding response_decision
  decided http status socket owned a = refl
  decided websocket status socket owned a = refl
  decided reject status socket owned a = absurd (a refl)

  received-IsAnswer :
      mode_of ≢ reject
      → (reply : Reply) × (received config request mode_of
            (fetch (forwarded_request mode_of request))
          ≡ ok reply)
        × IsAnswer reply
  unfolding received ◌>>=◌
  received-IsAnswer a =
      let owned = member request.pathname config.edge_owned_paths in
      elim (Option-cases (fetch (forwarded_request mode_of request))) [
        | inl f ↦ (unavailable_reply config request 0, rw f refl, silent a f)
        | inr (r, f) ↦
            let d = decide mode_of r.status r.has_web_socket owned in
            (
              answer config request r d,
              rw f (rw (decided mode_of r.status r.has_web_socket owned a) refl),
              answer-IsAnswer r d a f (decide-IsDecision mode_of r.status r.has_web_socket owned a),
            )
      ]

  fetch_in_allowed :
      (mode : RequestMode)
      → mode ≢ reject
      → fetch_in mode config fetch request
        ≡ received config request mode (fetch (forwarded_request mode request))
  unfolding fetch_in
  fetch_in_allowed http a = refl
  fetch_in_allowed websocket a = refl
  fetch_in_allowed reject a = absurd (a refl)

  mode_cases : (mode : RequestMode) → (mode ≡ reject) ⊎ (mode ≢ reject)
  mode_cases http = inr (λ e. cc e)
  mode_cases websocket = inr (λ e. cc e)
  mode_cases reject = inl refl

  -- The proxy always answers, and never by its `TypeError`: with 400 for a request that it does not
  -- forward; with 503 if the origin says nothing or counts as down (a gateway's status, 404 at a
  -- path of the edge, or 101 without a socket that was asked for); with the origin's own response
  -- if that opens a socket that was asked for; and else with what the origin said.
  pub proxy_fetch-IsAnswer :
      (reply : Reply) × (proxy_fetch config fetch request ≡ ok reply) × IsAnswer reply
  unfolding proxy_fetch fetch_in
  proxy_fetch-IsAnswer = elim (mode_cases mode_of) [
    | inl r ↦ (bad_request, rw r refl, refused r)
    | inr a ↦
        let (reply, same, is_answer) = received-IsAnswer a in
        (reply, rw (fetch_in_allowed mode_of a) same, is_answer)
  ]
