-- ===== src/Tests/Publishes.antt =====
-- A publish of three bytes to an empty bucket that is kept in memory.
use zed_infra.Base.{
  ℕ, ◌≤◌, String, true, false, Option, none, some, List, [], ◌∷◌, ◌≡◌, ◌≢◌, ◌↔◌, ◌⊎◌, refl, inl,
  inr, ◌===◌, ===_iff, Bool-cases, if◌then◌else◌, arith, ok, ◌>>=◌, ◌>>◌, reject_if, require, every,
  matches, is_alnum, is_lower_alnum, is_digit, one_of, length, member,
}
use zed_infra.Http.{trim, to_lower}
use zed_infra.Json.{
  Json, int, str, obj, end, field, get, is_record, is_str, checked, as_str, as_arr, or_else, keys,
}
use zed_infra.Visibility.{permits_public_visibility}
use zed_infra.Publish.{
  Route, VersionMetadata, artifact_extension, extension_of, sha256_form, org_name, version_form,
  version_metadata_key, artifact_key, validate_publish_meta, build_version_metadata,
}
use zed_infra.Publish.Formats.{IsInherited, artifact_extension-cases, limited_iff}
use zed_infra.Publish.Bucket.{Bucket, StoredObject}
use zed_infra.Publish.Upload.{
  Env, text, file, UploadRequest, UploadRuntime, Submission, bearer_token, edge_publish_enabled,
  declared_length, multipart, limited, hex, sha256_hex, authorize_publish, receive, submission,
  prepare,
}
use zed_infra.Publish.Admission.{IsAccepted, prepare-IsAccepted, body_size}
use zed_infra.Publish.Claim.{
  document_object, store_artifact, claim_version, handle_edge_publish, IsPrepared, State, upload,
  claim, Steps, done, next,
}
use zed_infra.Publish.Claim.Kept.{IsVersionKey, version_kept, claimed_once}
use zed_infra.Publish.Claim.Handled.{
  IsNew, IsTaken, handle_edge_publish-cases, handle_edge_publish-Steps,
}
use zed_infra.Publish.Claim.Installable.{IsConsistent, Steps-IsConsistent}

abbrev pub Memory : Type 0
Memory = String → Option StoredObject

abbrev pub memory_put : String → StoredObject → Memory → Memory
memory_put k o s = λ j. if j === k then some o else s j

abbrev pub memory_put_if_absent : String → StoredObject → Memory → Option Memory
memory_put_if_absent k o s = elim (s k) [ none ↦ some (memory_put k o s) | some x ↦ none ]

pub memory_put_same : (k : String) (o : StoredObject) (s : Memory) → memory_put k o s k ≡ some o
memory_put_same k o s = ground (arith, ===_iff k k)

pub memory_put_other :
    (j k : String) (o : StoredObject) (s : Memory) → j ≢ k → memory_put k o s j ≡ s j
memory_put_other j k o s apart = elim (Bool-cases (j === k)) [
  | inl e ↦ absurd (apart ((===_iff j k).0 e))
  | inr e ↦ rw e refl
]

pub memory_absent :
    (k : String) (o : StoredObject) (s : Memory)
    → s k ≡ none
    → memory_put_if_absent k o s ≡ some (memory_put k o s)
memory_absent k o s h = rw (memory_put_if_absent, h) refl

pub memory_present :
    (k : String) (o x : StoredObject) (s : Memory)
    → s k ≡ some x
    → memory_put_if_absent k o s ≡ none
memory_present k o x s h = rw (memory_put_if_absent, h) refl

abbrev pub memory : Bucket
memory = record {
  Store = Memory;
  lookup = λ k s. s k;
  put = memory_put;
  put_if_absent = memory_put_if_absent;
  lookup_put = memory_put_same;
  lookup_put_other = memory_put_other;
  writes_absent = memory_absent;
  keeps_present = memory_present;
}

abbrev pub zeros : List ℕ
zeros =
    0 ∷ 0 ∷ 0 ∷ 0 ∷ 0 ∷ 0 ∷ 0 ∷ 0 ∷ 0 ∷ 0 ∷ 0 ∷ 0 ∷ 0 ∷ 0 ∷ 0 ∷ 0 ∷ 0 ∷ 0 ∷ 0 ∷ 0 ∷ 0 ∷ 0 ∷ 0 ∷ 0
    ∷ 0 ∷ 0 ∷ 0 ∷ 0 ∷ 0 ∷ 0 ∷ 0 ∷ []

abbrev pub digest_of_three : String
digest_of_three = "0300000000000000000000000000000000000000000000000000000000000000"

abbrev pub package_field : Json
package_field =
    obj (field "org" (str "acme") (field "name" (str "tools") (field "version" (str "1.0.0") end)))

abbrev pub meta : Json
meta = obj (
    field "manifest" (obj (field "package" package_field end)) (
      field "sha256" (str digest_of_three)
        (field "size" (int 3) (field "vcs_tag" (str "v1.0.0") end))))

abbrev pub upload_runtime : UploadRuntime
upload_runtime = record {
  encode = λ s. 1 ∷ 2 ∷ 3 ∷ [];
  sha256 = λ bytes. length bytes ∷ zeros;
  parse_form =
      λ content_type chunks. some (("meta", text "m") ∷ ("artifact", file (7 ∷ 8 ∷ 9 ∷ [])) ∷ []);
  parse_json = λ s. some meta;
  now_iso = "2026-01-01T00:00:00.000Z";
}

abbrev pub env : Env
env = record {
  artifacts_bound = true;
  publish_token = some "secret";
  publish_enabled = some "true";
  cdn_public_url = none;
}

abbrev pub request : UploadRequest
request = record {
  authorization = some "Bearer secret";
  content_length = some "5";
  content_type = some "multipart/form-data; boundary=x";
  chunks = (1 ∷ 2 ∷ 3 ∷ []) ∷ (4 ∷ 5 ∷ []) ∷ [];
}

abbrev pub route : Route
route = record { org = "acme"; name = "tools"; version = "1.0.0" }

abbrev pub version_document_of : VersionMetadata
version_document_of = record {
  org = "acme";
  name = "tools";
  version = "1.0.0";
  sha256 = digest_of_three;
  bytes = 3;
  format = str "tar.gz";
  vcs_tag = str "v1.0.0";
  download_url =
      "https://cdn.zpkg.net/artifacts/0300000000000000000000000000000000000000000000000000000000000000.tar.gz";
  published_at = "2026-01-01T00:00:00.000Z";
  yanked = false;
  vcs_commit = none;
  facts = none;
  mirrors = none;
  signatures = none;
}

abbrev pub sub : Submission
sub = record {
  version_key = "metadata/acme/tools/versions/1.0.0.json";
  object_key = "artifacts/0300000000000000000000000000000000000000000000000000000000000000.tar.gz";
  bytes = 7 ∷ 8 ∷ 9 ∷ [];
  digest = digest_of_three;
  document = version_document_of;
}

pub sample_prepared : prepare upload_runtime env request route ≡ ok sub
unfolding prepare ◌>>=◌ ◌>>◌ reject_if require edge_publish_enabled authorize_publish bearer_token
    trim to_lower receive declared_length multipart limited validate_publish_meta get is_str
    permits_public_visibility is_record keys member checked artifact_extension submission sha256_hex
    hex version_metadata_key artifact_key build_version_metadata is_digit sha256_form org_name
    version_form or_else as_str as_arr
sample_prepared = refl

abbrev pub empty : Memory
empty k = none

abbrev pub start : State memory upload_runtime
start = record { store = empty; staged = [] }

abbrev pub uploaded : State memory upload_runtime
uploaded = record { store = store_artifact memory sub empty; staged = sub ∷ [] }

abbrev pub claimed : Memory
claimed = memory_put sub.version_key (document_object sub) uploaded.store

abbrev finished : State memory upload_runtime
finished = record { store = claimed; staged = sub ∷ [] }

sub-IsPrepared : IsPrepared memory upload_runtime sub
sub-IsPrepared = (env, request, route, sample_prepared)

pub key-IsVersionKey : IsVersionKey sub.version_key
unfolding IsVersionKey version_metadata_key org_name version_form is_lower_alnum every matches
    is_alnum one_of
key-IsVersionKey = ("acme", "tools", "1.0.0", refl)

sample_claim : claim_version memory sub uploaded.store ≡ some claimed
unfolding claim_version store_artifact
sample_claim = refl

sample-Steps : Steps memory upload_runtime start finished
sample-Steps = next (upload sub sub-IsPrepared) (next (claim sub (inl refl) sample_claim) done)

start-IsConsistent : IsConsistent memory upload_runtime start
start-IsConsistent = record {
  staged = λ sub m. absurd m;
  versions = λ k o key found. absurd (cc found);
}

Steps-IsConsistent_example : IsConsistent memory upload_runtime finished
Steps-IsConsistent_example =
    Steps-IsConsistent memory upload_runtime sample-Steps start-IsConsistent

sample_again :
    Steps memory upload_runtime finished
      (record { store = store_artifact memory sub claimed; staged = sub ∷ sub ∷ [] })
sample_again = next (upload sub sub-IsPrepared) done

pub sample_there : claimed sub.version_key ≡ some (document_object sub)
sample_there = memory_put_same sub.version_key (document_object sub) uploaded.store

version_kept_example :
    store_artifact memory sub claimed sub.version_key ≡ some (document_object sub)
version_kept_example = version_kept memory upload_runtime sample_again key-IsVersionKey sample_there

claimed_once_example : claim_version memory sub (store_artifact memory sub claimed) ≡ none
claimed_once_example =
    claimed_once memory upload_runtime sub sub uploaded.store key-IsVersionKey refl sample_claim
      sample_again

handle_edge_publish-cases_example :
    IsNew memory upload_runtime route sub empty
      (handle_edge_publish memory upload_runtime env request route empty)
    ⊎ IsTaken memory upload_runtime sub empty
        (handle_edge_publish memory upload_runtime env request route empty)
handle_edge_publish-cases_example =
    handle_edge_publish-cases memory upload_runtime env request route sub empty sample_prepared

handle_edge_publish-Steps_example :
    (after : List Submission) × Steps memory upload_runtime start (record {
      store = (handle_edge_publish memory upload_runtime env request route empty).0;
      staged = after;
    })
handle_edge_publish-Steps_example =
    handle_edge_publish-Steps memory upload_runtime env request route empty []

prepare-IsAccepted_example : IsAccepted upload_runtime env request route sub
prepare-IsAccepted_example = prepare-IsAccepted upload_runtime env request route sample_prepared

abbrev native_function : String
native_function = "function Object() { [native code] }"

sample_format : artifact_extension (str "Constructor") ≡ some native_function
unfolding artifact_extension extension_of to_lower
sample_format = refl

artifact_extension-cases_example :
    (native_function ≡ "tar.gz")
    ⊎ (native_function ≡ "zip")
    ⊎ ((f : String) × (str "Constructor" ≡ str f) × IsInherited f)
artifact_extension-cases_example =
    artifact_extension-cases (str "Constructor") native_function sample_format

limited_iff_example :
    (limited 5 0 request.chunks ≡ some (body_size request.chunks)) ↔ (body_size request.chunks ≤ 5)
limited_iff_example = limited_iff 5 request.chunks
