-- ===== src/Tests/Leases.antt =====
-- A deployment that acquires the lease of a Worker from an empty store, and releases it.
use zed_infra.Base.{
  ℕ, String, Bool, true, false, Option, none, some, ◌≡◌, ◌≢◌, refl, ok, err, ◌>>=◌, ◌>>◌, reject_if,
  require, ◌===◌, if◌then◌else◌, contains, member, strip_prefix,
}
use zed_infra.Http.{trim, trim_start, trim_end, is_space}
use zed_infra.Json.{Json, str, bool, obj, arr, item, nil, field, end, get, truthy, as_arr, is_str}
use zed_infra.Lease.{
  Variables, Arguments, Api, ApiResponse, LeaseRuntime, Live, not_holder, build_lease_record,
  holder_id, require_token, lease_key, called, cf_json, is_refused, read_live_worker, read_lease,
  lease_now, decide_acquire, is_allowed_worker, guard_live, same_text, held_by_other, prepare_lease,
  cmd_acquire, cmd_release, deleted,
}
use zed_infra.Lease.Acquired.{
  IsAttempt, cmd_acquire-IsAttempt, prepare_lease-IsPrepared, cmd_release-cases,
}

abbrev variables : Variables
variables = record {
  api_token = some "token";
  api_token_zpkg = none;
  lease_holder = some "run-1";
  github_run_id = none;
  github_repository = none;
  github_run_attempt = none;
  user = none;
  hostname = none;
}

abbrev arguments : Arguments
arguments = record {
  worker = "zpkg-cdn";
  if_match = str "monday";
  create_missing = false;
  ttl = none;
}

abbrev script : Json
script = obj (field "id" (str "zpkg-cdn") (field "modified_on" (str "monday") end))

abbrev script_list : Json
script_list = obj (field "success" (bool true) (field "result" (arr (item script nil)) end))

abbrev live : Live
live = record { id = str "zpkg-cdn"; modified_on = str "monday" }

abbrev iso : ℕ → String
iso n = "then"

abbrev lease : Json
lease = build_lease_record iso "zpkg-cdn" "run-1" 1800 (some live) 5000

abbrev answer_of : String → ℕ → ApiResponse
answer_of text status = record { status = status; text = text }

-- whether the store has the lease
abbrev store : Api
store = record {
  State = Bool;
  list_scripts = λ s. some (answer_of "scripts" 200);
  get_value = λ key s. if s then some (answer_of "lease" 200) else some (answer_of "" 404);
  put_value = λ key value ttl s. (true, some (answer_of "" 200));
  delete_value = λ key s. (false, some (answer_of "" 200));
}

abbrev parse : String → Option Json
parse s = if s === "scripts" then some script_list else some lease

abbrev lease_runtime : LeaseRuntime store
lease_runtime = record {
  parse_json = parse;
  coerced = λ v n. false;
  iso = iso;
  first_time = 5000;
  second_time = 6000;
  meanwhile = λ s. s;
}

cmd_acquire-IsAttempt_example :
    IsAttempt store lease_runtime variables arguments false
      (cmd_acquire store lease_runtime variables arguments false)
cmd_acquire-IsAttempt_example = cmd_acquire-IsAttempt store lease_runtime variables arguments false

sample_token : require_token variables ≡ ok "token"
unfolding require_token trim trim_start trim_end is_space contains strip_prefix ◌>>=◌ ◌>>◌ reject_if
sample_token = refl

sample_prepared : prepare_lease store lease_runtime variables arguments false ≡ ok lease
unfolding prepare_lease require_token trim contains strip_prefix called cf_json read_live_worker
    is_refused truthy get as_arr is_str lease_now read_lease decide_acquire is_allowed_worker member
    guard_live same_text held_by_other holder_id ◌>>=◌ ◌>>◌ reject_if require lease_key
sample_prepared = refl

sample_stored : lease_now store lease_runtime "zpkg-cdn" true ≡ ok lease
unfolding lease_now called cf_json read_lease lease_key truthy get build_lease_record ◌>>=◌
sample_stored = refl

cmd_release-cases_example :
    (holder_id variables ≡ holder_id variables
      → cmd_release store lease_runtime variables arguments true
        ≡ deleted store lease_runtime (store.delete_value (lease_key "zpkg-cdn") true))
    × (holder_id variables ≢ holder_id variables
        → cmd_release store lease_runtime variables arguments true ≡ (true, err not_holder))
cmd_release-cases_example =
    cmd_release-cases store lease_runtime variables variables arguments false true
      (prepare_lease-IsPrepared store lease_runtime variables arguments false sample_prepared)
      sample_stored "token" sample_token
