-- ===== src/Lease.antt =====
-- workers/scripts/cf-lease.mjs: the lease that a deployment of a Worker holds, in a key-value store
-- behind Cloudflare's API.
pub mod Acquired
use zed_infra.Base.{
  ℕ, ◌+◌, ◌*◌, ◌-◌, String, Char, code, Bool, true, false, not, ◌&&◌, ◌||◌, Option, none, some,
  List, [], ◌∷◌, ltb, ◌==◌, ◌===◌, ◌⧺◌, contains, member, find, size, Result, ok, err, reject_if,
  require, ◌>>=◌, ◌>>◌, if◌then◌else◌,
}
use zed_infra.Http.{trim}
use zed_infra.Json.{
  Json, undefined, null, bool, int, neg, str, obj, field, end, Fields, get, is_str, is_record,
  truthy, as_arr, as_str,
}

abbrev pub allowed_workers : List String
allowed_workers =
    "zpkg-cdn" ∷ "zpkg-cdn-dev" ∷ "zpkg-api-proxy" ∷ "zpkg-registry-proxy" ∷ "zpkg-user-proxy"
    ∷ "zpkg-web-proxy" ∷ "zpkg-app-proxy" ∷ "zpkg-org-proxy" ∷ []

unfoldable pub lease_key : String → String
lease_key worker = "lease:worker:" ⧺ worker

unfoldable pub is_allowed_worker : String → Bool
is_allowed_worker name = member name allowed_workers

abbrev pub default_ttl_seconds : ℕ
default_ttl_seconds = 1800

-- The live script, of which the code has tested that `modified_on` is there.
pub record Live : Type 0 where
  pub id : Json
  pub modified_on : Json

pub data Failure : Type 0 where
  no_worker no_token foreign_worker not_found needs_if_match moved leased : Failure
  list_failed list_malformed list_unguarded get_failed get_malformed put_failed delete_failed :
      Failure
  not_holder : Failure

-- `a > b` for a number b. For a value that is no integer it is the runtime's comparison.
unfoldable pub greater : (Json → ℕ → Bool) → Json → ℕ → Bool
greater coerced (int n) now = ltb now n
greater coerced (neg n) now = false
greater coerced undefined now = false
greater coerced null now = false
greater coerced v now = coerced v now

-- `u === v` of a string and a value
unfoldable pub same_text : Json → Json → Bool
unfolding is_str
same_text (str s) v = is_str s v
same_text (bool true) (bool b) = b
same_text u v = false

-- A lease that has not run out and is someone else's.
unfoldable pub held_by_other : (Json → ℕ → Bool) → ℕ → String → Json → Bool
unfolding greater is_str get truthy
held_by_other coerced now holder lease =
    truthy lease
    && greater coerced (get "expires_at_ms" lease) now
    && not (is_str holder (get "holder" lease))

unfoldable pub guard_live : Option Live → Json → Bool → Result Failure (Unit {0})
unfolding truthy same_text
guard_live none expected create_missing = reject_if (not create_missing) not_found
guard_live (some live) expected create_missing = do
  reject_if (not (truthy expected)) needs_if_match
  reject_if (not (same_text expected live.modified_on)) moved

-- `decideAcquire`: `ok` for `{ ok: true }`, or what the reason is about
unfoldable pub decide_acquire :
    (Json → ℕ → Bool)
    → String
    → Option Live
    → Json
    → Bool
    → Json
    → ℕ
    → String
    → Result Failure (Unit {0})
unfolding is_allowed_worker guard_live held_by_other
decide_acquire coerced worker live expected create_missing existing now holder = do
  reject_if (not (is_allowed_worker worker)) foreign_worker
  guard_live live expected create_missing
  reject_if (held_by_other coerced now holder existing) leased

live_field : (Live → Json) → Option Live → Json
live_field f none = null
live_field f (some live) = f live

-- `buildLeaseRecord`, for `toISOString`
unfoldable pub build_lease_record : (ℕ → String) → String → String → ℕ → Option Live → ℕ → Json
unfolding live_field
build_lease_record iso worker holder ttl live now =
    let expires_at = now + ttl * 1000 in
    obj (
      field "schema" (str "zpkg.cf-deploy-lease/v1") (
        field "worker" (str worker) (
          field "holder" (str holder) (
            field "acquired_at" (str (iso now)) (
              field "expires_at" (str (iso expires_at)) (
                field "expires_at_ms" (int expires_at) (
                  field "live_modified_on" (live_field (λ l. l.modified_on) live) (
                    field "live_id" (live_field (λ l. l.id) live)
                      (field "namespace" (str "zed-pkg-deploy-leases") end)))))))))

-- What the script reads of its environment.
pub record Variables : Type 0 where
  pub api_token : Option String
  pub api_token_zpkg : Option String
  pub lease_holder : Option String
  pub github_run_id : Option String
  pub github_repository : Option String
  pub github_run_attempt : Option String
  pub user : Option String
  pub hostname : Option String

-- `a || d` for a text that may be missing
abbrev pub text_or_else : String → Option String → String
text_or_else d none = d
text_or_else d (some s) = if s === "" then d else s

unfoldable pub require_token : Variables → Result Failure String
unfolding trim contains
require_token env =
    let token = trim (text_or_else (text_or_else "" env.api_token_zpkg) env.api_token) in
    do reject_if (token === "" || contains "PLACEHOLDER" token) no_token; ok token

-- `holderId`
unfoldable pub holder_id : Variables → String
holder_id env =
    let named = text_or_else "" env.lease_holder in
    let run = text_or_else "" env.github_run_id in
    if not (named === "")
    then named
    else if not (run === "")
    then "gha:"
      ⧺ text_or_else "zed-pkg/zed-infra" env.github_repository
      ⧺ "#"
      ⧺ run
      ⧺ "."
      ⧺ text_or_else "1" env.github_run_attempt
    else text_or_else "agent" env.user ⧺ "@" ⧺ text_or_else "localhost" env.hostname

-- A response of the API: its status and its text, and what `cfJson` makes of them.
pub record ApiResponse : Type 0 where
  pub status : ℕ
  pub text : String

pub record CfReply : Type 0 where
  pub status : ℕ
  pub json : Json

abbrev pub width : Char → ℕ
width c = if ltb (code c) 0x10000 then 1 else 2

-- `text.slice(0, n)`, which here keeps or drops a character of two units whole
unfoldable pub slice_start : ℕ → String → String
slice_start n String.[] = ""
slice_start n (String.◌∷◌ c s) =
    let rest = slice_start (n - width c) s in if ltb n (width c) then "" else String.◌∷◌ c rest

unfoldable pub cf_json : (String → Option Json) → ApiResponse → CfReply
unfolding slice_start
cf_json parse r = record {
  status = r.status;
  json = if r.text === "" then obj end else (elim (parse r.text) [
    | none ↦ obj (field "raw" (str (slice_start 400 r.text)) end)
    | some v ↦ v
  ]);
}

-- `status !== 200 || json.success === false`, which throws for null too
unfoldable pub is_refused : CfReply → Bool
unfolding get
is_refused reply =
    not (reply.status == 200) || is_null reply.json || is_false (get "success" reply.json)
  where
    is_null : Json → Bool
    is_null null = true
    is_null v = false

    is_false : Json → Bool
    is_false (bool b) = not b
    is_false v = false

-- What `readLiveWorker` answers for the list of scripts.
unfoldable pub read_live_worker : String → CfReply → Result Failure (Option Live)
unfolding is_refused truthy get as_arr is_str
read_live_worker worker reply = do
  reject_if (is_refused reply) list_failed
  scripts ← require (as_arr (get "result" reply.json)) list_malformed
  elim (find (λ v. is_str worker (get "id" v)) scripts) [
    | none ↦ ok none
    | some script ↦ do
      reject_if (not (truthy (get "modified_on" script))) list_unguarded
      ok (some (record { id = get "id" script; modified_on = get "modified_on" script }))
  ]

-- What `readLease` answers, with null for no lease.
unfoldable pub read_lease : (String → Option Json) → CfReply → Result Failure Json
unfolding truthy get as_str
read_lease parse reply =
    if reply.status == 404
    then ok null
    else if not (reply.status == 200)
    then err get_failed
    else if truthy (get "schema" reply.json)
    then ok reply.json
    else elim (as_str (get "raw" reply.json)) [
      | none ↦ err get_malformed
      | some raw ↦ require (parse raw) get_malformed
    ]

-- The API, as it answers in a state of the account; none where the call throws. A value is put with
-- a time to live in seconds, none for one that is no finite number.
pub record Api : Type 1 where
  pub State : Type 0
  pub list_scripts : State → Option ApiResponse
  pub get_value : String → State → Option ApiResponse
  pub put_value : String → Json → Option ℕ → State → State × Option ApiResponse
  pub delete_value : String → State → State × Option ApiResponse

-- The clock at the two times when it is read, and what others do between the two reads of the lease.
pub record LeaseRuntime (api : Api) : Type 0 where
  pub parse_json : String → Option Json
  pub coerced : Json → ℕ → Bool
  pub iso : ℕ → String
  pub first_time : ℕ
  pub second_time : ℕ
  pub meanwhile : api.State → api.State

-- The options of the command line.
pub record Arguments : Type 0 where
  pub worker : String
  pub if_match : Json
  pub create_missing : Bool
  pub ttl : Option ℕ

abbrev pub seconds : Option ℕ → ℕ
seconds none = default_ttl_seconds
seconds (some n) = n

-- `record.expires_at_ms ? ttl : DEFAULT_TTL_SECONDS`
abbrev pub put_ttl : ℕ → Option ℕ → Option ℕ
put_ttl now ttl = if now + seconds ttl * 1000 == 0 then some default_ttl_seconds else ttl

module _ (api : Api) (rt : LeaseRuntime api) where
  open api use {State}

  unfoldable pub called : Failure → Option ApiResponse → Result Failure CfReply
  unfolding cf_json
  called failure none = err failure
  called failure (some r) = ok (cf_json rt.parse_json r)

  unfoldable pub lease_now : String → State → Result Failure Json
  unfolding called read_lease lease_key
  lease_now worker s = do
    reply ← called get_failed (api.get_value (lease_key worker) s)
    read_lease rt.parse_json reply

  unfoldable pub put_done : State × Option ApiResponse → State × Result Failure (Unit {0})
  unfolding called is_refused
  put_done (s, answer) =
      (s, do reply ← called put_failed answer; reject_if (is_refused reply) put_failed)

  -- `writeLeaseIfAbsent`
  unfoldable pub write_lease_if_absent :
      String → String → Json → Option ℕ → State → State × Result Failure (Unit {0})
  unfolding lease_now held_by_other put_done lease_key
  write_lease_if_absent worker holder lease ttl s = elim (lease_now worker s) [
    | err failure ↦ (s, err failure)
    | ok existing ↦
        if held_by_other rt.coerced rt.second_time holder existing
        then (s, err leased)
        else put_done (api.put_value (lease_key worker) lease ttl s)
  ]

  -- `cmdAcquire` up to its write: the record
  unfoldable pub prepare_lease : Variables → Arguments → State → Result Failure Json
  unfolding require_token called read_live_worker lease_now decide_acquire build_lease_record
      holder_id
  prepare_lease env args s = do
    reject_if (args.worker === "") no_worker
    token ← require_token env
    scripts ← called list_failed (api.list_scripts s)
    live ← read_live_worker args.worker scripts
    existing ← lease_now args.worker s
    decide_acquire rt.coerced args.worker live args.if_match args.create_missing existing
        rt.first_time (holder_id env)
    ok (build_lease_record rt.iso args.worker (holder_id env) (seconds args.ttl) live rt.first_time)

  unfoldable pub acquired : Json → State × Result Failure (Unit {0}) → State × Result Failure Json
  acquired lease (t, err failure) = (t, err failure)
  acquired lease (t, ok u) = (t, ok lease)

  -- `cmdAcquire`
  unfoldable pub cmd_acquire : Variables → Arguments → State → State × Result Failure Json
  unfolding prepare_lease write_lease_if_absent acquired holder_id
  cmd_acquire env args s = elim (prepare_lease env args s) [
    | err failure ↦ (s, err failure)
    | ok lease ↦ acquired lease (
        write_lease_if_absent args.worker (holder_id env) lease (put_ttl rt.first_time args.ttl)
          (rt.meanwhile s))
  ]

  unfoldable pub deleted : State × Option ApiResponse → State × Result Failure Bool
  unfolding called is_refused
  deleted (t, answer) = (
    t,
    do reply ← called delete_failed answer; reject_if (is_refused reply) delete_failed; ok true,
  )

  -- `deleteLease`: whether a lease was released
  unfoldable pub delete_lease : String → String → State → State × Result Failure Bool
  unfolding lease_now truthy is_str get deleted lease_key
  delete_lease worker holder s = elim (lease_now worker s) [
    | err failure ↦ (s, err failure)
    | ok existing ↦
        if not (truthy existing)
        then (s, ok false)
        else if not (is_str holder (get "holder" existing))
        then (s, err not_holder)
        else deleted (api.delete_value (lease_key worker) s)
  ]

  -- `cmdRelease`
  unfoldable pub cmd_release : Variables → Arguments → State → State × Result Failure Bool
  unfolding is_allowed_worker require_token delete_lease holder_id
  cmd_release env args s =
      if args.worker === ""
      then (s, err no_worker)
      else if not (is_allowed_worker args.worker)
      then (s, err foreign_worker)
      else elim (require_token env) [
        | err failure ↦ (s, err failure)
        | ok token ↦ delete_lease args.worker (holder_id env) s
      ]
