-- ===== src/Cdn/Mirror/Redirected.antt =====
-- The URLs that a chain of redirects fetches.
use zed_infra.Base.{
  ℕ, suc, zero, ◌≤◌, String, Bool, true, false, ◌||◌, Option, none, some, List, [], ◌∷◌, ◌≡◌, inl,
  inr, refl, arith, All, length, Result, ok, err, Bool-cases, Option-cases, ◌===◌,
}
use zed_infra.Cdn.Mirror.{
  Upstream, is_redirect, BadLocation, bad_location, Followed, location_of, Web, redirected,
  fetch_step, follow, fetch_with_validated_redirects,
}

module _ (web : Web) (allow_url : String → Bool) where
  -- The answer is what the last URL fetched gave, and is no redirect; or there is none.
  pub data IsLast : List String → Result BadLocation (Option Upstream) → Type 0 where
    nothing : {urls : List String} → IsLast urls (ok none)
    unresolved : {urls : List String} → IsLast urls (err bad_location)
    given :
        {urls : List String} (url : String) (r : Upstream)
        → urls ≡ (url ∷ [])
        → web.fetch url ≡ some r
        → is_redirect r.status ≡ false
        → IsLast urls (ok (some r))
    later :
        {urls rest : List String} {answer : Result BadLocation (Option Upstream)} (url : String)
        → urls ≡ (url ∷ rest)
        → IsLast rest answer
        → IsLast urls answer

  -- Each URL that is fetched is allowed, there are at most so many, and each after the first is
  -- where the response to the one before it points.
  pub data IsChain : String → List String → Type 0 where
    ends : {url : String} → IsChain url []
    fetched : {url : String} → allow_url url ≡ true → IsChain url (url ∷ [])
    onward :
        {url next : String} {urls : List String} (r : Upstream) (location : String)
        → allow_url url ≡ true
        → web.fetch url ≡ some r
        → is_redirect r.status ≡ true
        → location_of r ≡ some location
        → web.resolve location url ≡ some next
        → IsChain next urls
        → IsChain url (url ∷ urls)

  pub record IsFollowed (url : String) (most : ℕ) (run : Followed) : Type 0 where
    pub chain : IsChain url run.fetched
    pub allowed : All (λ u. allow_url u ≡ true) run.fetched
    pub bounded : length run.fetched ≤ most
    pub last : IsLast run.fetched run.answer

  fetch_step-IsFollowed :
      (next : String → Followed) (last : Bool) (n : ℕ) (current : String)
      → ((url : String) → last ≡ false → IsFollowed url n (next url))
      → IsFollowed current (suc n) (fetch_step web allow_url next last current)
  unfolding fetch_step redirected
  fetch_step-IsFollowed next last n current rest = elim (Bool-cases (allow_url current)) [
    | inr barred ↦
        rw (barred, fetch_step)
          (record { chain = ends; allowed = tt; bounded = omega arith; last = nothing })
    | inl allowed ↦ elim (Option-cases (web.fetch current)) [
      | inl lost ↦ rw (allowed, lost, fetch_step) (one allowed nothing)
      | inr (r, got) ↦ elim (Bool-cases (is_redirect r.status)) [
        | inr final ↦
            rw (allowed, got, final, fetch_step) (one allowed (given current r refl got final))
        | inl moved ↦
            rw (allowed, got, moved, fetch_step) (turn allowed r got moved (location_of r) refl)
      ]
    ]
  ]
    where
      one :
          {answer : Result BadLocation (Option Upstream)}
          → allow_url current ≡ true
          → IsLast (current ∷ []) answer
          → IsFollowed current (suc n) (record { fetched = current ∷ []; answer = answer })
      one allowed l = record {
        chain = fetched allowed;
        allowed = (allowed, tt);
        bounded = omega arith;
        last = l;
      }

      turn :
          allow_url current ≡ true
          → (r : Upstream) → web.fetch current ≡ some r
          → is_redirect r.status ≡ true
          → (location : Option String) → location_of r ≡ location
          → IsFollowed current (suc n) (redirected web allow_url next last current location)
      turn allowed r got moved none e = one allowed nothing
      turn allowed r got moved (some location) e = elim (Bool-cases (location === "" || last)) [
        | inl stop ↦ rw (stop, redirected) (one allowed nothing)
        | inr go ↦ elim (Option-cases (web.resolve location current)) [
          | inl bad ↦ rw (go, bad, redirected) (one allowed unresolved)
          | inr (url, at) ↦
              let more : last ≡ false = ground arith in
              let f = rest url more in
              rw (go, at, redirected)
                (record {
                  chain = onward r location allowed got moved e at f.chain;
                  allowed = (allowed, f.allowed);
                  bounded = let m = f.bounded in omega arith;
                  last = later current refl f.last;
                })
        ]
      ]

  follow-IsFollowed :
      (left : ℕ) (url : String) → IsFollowed url (suc left) (follow web allow_url left url)
  unfolding follow
  follow-IsFollowed zero url = fetch_step-IsFollowed _ true 0 url (λ u h. absurd (cc h))
  follow-IsFollowed (suc left) url =
      fetch_step-IsFollowed (λ u. follow web allow_url left u) false (suc left) url
        (λ u h. follow-IsFollowed left u)

  -- Whatever the servers answer, the loop ends after at most four fetches. Each fetches a URL that is
  -- allowed; the first is the given one, and each later one is where the redirect before it points.
  -- If a response is returned, it is the one to the last fetch and is no redirect.
  pub fetch_with_validated_redirects-IsFollowed :
      (url : String) → IsFollowed url 4 (fetch_with_validated_redirects web allow_url url)
  unfolding fetch_with_validated_redirects
  fetch_with_validated_redirects-IsFollowed url = follow-IsFollowed 3 url
