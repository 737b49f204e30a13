-- ===== src/Lease/Acquired.antt =====
-- When a lease is written, and who may release it.
use zed_infra.Base.{
  String, true, false, Option, none, some, ◌≡◌, ◌≢◌, inl, inr, refl, ◌===◌, ===_iff, Result, ok,
  err, Bool-cases, Result-cases, passed, followed, bound, reject_if-eq-ok, ok-injective, of_not,
  sym, member,
}
use zed_infra.Json.{field_of, Json, str, get, is_str, truthy}
use zed_infra.Lease.{
  Live, Failure, leased, not_holder, is_allowed_worker, held_by_other, same_text, guard_live,
  decide_acquire, build_lease_record, Variables, Arguments, require_token, holder_id, Api,
  ApiResponse, CfReply, LeaseRuntime, read_live_worker, lease_key, seconds, put_ttl, called,
  lease_now, put_done, write_lease_if_absent, prepare_lease, acquired, cmd_acquire, deleted,
  delete_lease, cmd_release,
}

-- The script that was read is the one the caller has seen, or is absent as the caller says.
pub data IsExpected (args : Arguments) : Option Live → Type 0 where
  absent_live : args.create_missing ≡ true → IsExpected args none
  same_live :
      (live : Live)
      → truthy args.if_match ≡ true
      → same_text args.if_match live.modified_on ≡ true
      → IsExpected args (some live)

guard_live-IsExpected :
    (args : Arguments) (live : Option Live)
    → guard_live live args.if_match args.create_missing ≡ ok tt
    → IsExpected args live
unfolding guard_live
guard_live-IsExpected args none h = absent_live (of_not _ (reject_if-eq-ok _ _ h))
guard_live-IsExpected args (some live) h =
    passed _ _ _ h
      λ given rest. same_live live (of_not _ given) (of_not _ (reject_if-eq-ok _ _ rest))

-- The write was answered well, or it may have happened and the answer is an error.
pub data IsOutcome (lease : Json) : Result Failure Json → Type 0 where
  completed : IsOutcome lease (ok lease)
  unconfirmed : (failure : Failure) → IsOutcome lease (err failure)

named_worker : (worker : String) → is_allowed_worker worker ≡ true → (worker === "") ≡ false
unfolding is_allowed_worker member
named_worker worker h = elim (Bool-cases (worker === "")) [
  | inl e ↦ let same : worker ≡ "" = (===_iff worker "").0 e in cc (let k = rw same at h in k)
  | inr e ↦ e
]

module _ (api : Api) (rt : LeaseRuntime api) where
  open api use {State}

  -- A lease that is about to be written.
  pub record IsPrepared (env : Variables) (args : Arguments) (s : State) (lease : Json)
      : Type 0 where
    pub allowed : is_allowed_worker args.worker ≡ true
    pub token : String
    pub authorized : require_token env ≡ ok token
    pub scripts : CfReply
    pub live : Option Live
    pub read : read_live_worker args.worker scripts ≡ ok live
    pub listed : called api rt Failure.list_failed (api.list_scripts s) ≡ ok scripts
    pub expected : IsExpected args live
    pub existing : Json
    pub first_read : lease_now api rt args.worker s ≡ ok existing
    pub free : held_by_other rt.coerced rt.first_time (holder_id env) existing ≡ false
    pub record_of :
        lease
        ≡ build_lease_record rt.iso args.worker
            (holder_id env)
            (seconds args.ttl)
            live
            rt.first_time

  pub prepare_lease-IsPrepared :
      (env : Variables) (args : Arguments) (s : State) {lease : Json}
      → prepare_lease api rt env args s ≡ ok lease
      → IsPrepared env args s lease
  unfolding prepare_lease decide_acquire
  prepare_lease-IsPrepared env args s {lease} h = passed _ _ _ h λ named h₁.
      bound _ _ h₁ λ token t h₂. bound _ _ h₂ λ scripts l h₃. bound _ _ h₃ λ live r h₄.
        bound _ _ h₄ λ existing e h₅. followed _ _ h₅ λ decided h₆.
          passed _ _ _ decided λ allowed d₁. followed _ _ d₁ λ guarded d₂. record {
            allowed = of_not _ allowed;
            token = token;
            authorized = t;
            scripts = scripts;
            live = live;
            read = r;
            listed = l;
            expected = guard_live-IsExpected args live guarded;
            existing = existing;
            first_read = e;
            free = reject_if-eq-ok _ _ d₂;
            record_of = sym (ok-injective h₆);
          }

  -- What an attempt to acquire did: nothing, or one write at the lease's key.
  pub data IsAttempt (env : Variables) (args : Arguments) (s : State)
      : State × Result Failure Json → Type 0 where
    refused : (failure : Failure) → IsAttempt env args s (s, err failure)
    refused_later : (failure : Failure) → IsAttempt env args s (rt.meanwhile s, err failure)
    wrote :
        (lease existing : Json) (result : Result Failure Json)
        → IsPrepared env args s lease
        → lease_now api rt args.worker (rt.meanwhile s) ≡ ok existing
        → held_by_other rt.coerced rt.second_time (holder_id env) existing ≡ false
        → IsOutcome lease result
        → IsAttempt env args s (
          (api.put_value
              (lease_key args.worker)
              lease
              (put_ttl rt.first_time args.ttl)
              (rt.meanwhile s)).0,
          result,
        )

  acquired-eq :
      (lease : Json) (t : State) (r : Result Failure (Unit {0}))
      → (result : Result Failure Json) × (acquired api rt lease (t, r) ≡ (t, result))
        × IsOutcome lease result
  unfolding acquired
  acquired-eq lease t (ok u) = (ok lease, refl, completed)
  acquired-eq lease t (err failure) = (err failure, refl, unconfirmed failure)

  acquired-put_done :
      (lease : Json) (put : State × Option ApiResponse)
      → (result : Result Failure Json) × (acquired api rt lease (put_done api rt put)
          ≡ (put.0, result))
        × IsOutcome lease result
  unfolding put_done
  acquired-put_done lease (t, answer) = acquired-eq lease t _

  -- An attempt to acquire writes at most once, and only its record at its worker's key. It writes
  -- only if the worker is one of the allowed ones, a token is there, the live script is the one that
  -- the caller has seen (or there is none and the caller says so), and neither the lease that it
  -- read first nor the one that it read again, after what others did meanwhile, was held by
  -- another holder at the time of that reading.
  pub cmd_acquire-IsAttempt :
      (env : Variables) (args : Arguments) (s : State)
      → IsAttempt env args s (cmd_acquire api rt env args s)
  unfolding cmd_acquire write_lease_if_absent acquired
  cmd_acquire-IsAttempt env args s = elim (Result-cases (prepare_lease api rt env args s)) [
    | inl (failure, e) ↦ rw (e, cmd_acquire) (refused failure)
    | inr (lease, e) ↦ elim (Result-cases (lease_now api rt args.worker (rt.meanwhile s))) [
      | inl (failure, f) ↦ rw (e, cmd_acquire, f, write_lease_if_absent) (refused_later failure)
      | inr (existing, f) ↦
          elim (Bool-cases (held_by_other rt.coerced rt.second_time (holder_id env) existing)) [
            | inl held ↦ rw (e, cmd_acquire, f, write_lease_if_absent, held) (refused_later leased)
            | inr free ↦
                let put =
                  api.put_value (lease_key args.worker) lease (put_ttl rt.first_time args.ttl)
                    (rt.meanwhile s) in
                let (result, p, outcome) = acquired-put_done lease put in
                rw (e, cmd_acquire, f, write_lease_if_absent, free, p)
                  (wrote lease existing result (prepare_lease-IsPrepared env args s e) f free
                    outcome)
          ]
    ]
  ]

  lease_of :
      {env : Variables} {args : Arguments} {s : State} {lease : Json}
      → IsPrepared env args s lease
      → (truthy lease ≡ true) × (get "holder" lease ≡ str (holder_id env))
  unfolding build_lease_record truthy get field_of
  lease_of prepared = let e = prepared.record_of in rw e (refl, refl)

  -- A lease is released by its holder and by nobody else. If the store still has the lease that an
  -- acquisition wrote, and a later call has a token, then that call deletes the lease, and answers
  -- with what came of that, if its holder's name is the same; otherwise it is refused as not the
  -- holder and changes nothing.
  pub cmd_release-cases :
      (env other : Variables) (args : Arguments) (s t : State) {lease : Json}
      → IsPrepared env args s lease
      → lease_now api rt args.worker t ≡ ok lease
      → (token : String) → require_token other ≡ ok token
      → (holder_id other ≡ holder_id env
          → cmd_release api rt other args t
            ≡ deleted api rt (api.delete_value (lease_key args.worker) t))
        × (holder_id other ≢ holder_id env → cmd_release api rt other args t ≡ (t, err not_holder))
  unfolding cmd_release delete_lease is_str
  cmd_release-cases env other args s t prepared stored token authorized =
      let named = named_worker args.worker prepared.allowed in
      let (there, holder) = lease_of prepared in
      let reached : cmd_release api rt other args t
          ≡ delete_lease api rt args.worker (holder_id other) t =
        rw (cmd_release, named, prepared.allowed, authorized) refl in
      (
        λ same.
            let e : (holder_id env === holder_id other) ≡ true = (===_iff _ _).1 (sym same) in
            rw (reached, delete_lease, stored, there, holder, e) refl,
        λ apart. elim (Bool-cases (holder_id env === holder_id other)) [
          | inl e ↦ absurd (apart (sym ((===_iff _ _).0 e)))
          | inr e ↦ rw (reached, delete_lease, stored, there, holder, e) refl
        ],
      )
