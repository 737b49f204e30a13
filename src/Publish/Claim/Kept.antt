-- ===== src/Publish/Claim/Kept.antt =====
-- Versions are immutable, and a version has one publisher.
use zed_infra.Base.{String, none, some, List, ◌≡◌, ◌≢◌, sym, ◌∙◌, inl, inr, Option-cases}
use zed_infra.Publish.{version_metadata_key}
use zed_infra.Publish.Keys.{artifact_key-version_metadata_key}
use zed_infra.Publish.Bucket.{Bucket, StoredObject}
use zed_infra.Publish.Upload.{UploadRuntime, Submission}
use zed_infra.Publish.Admission.{prepare-IsAccepted}
use zed_infra.Publish.Claim.{
  artifact_object, document_object, store_artifact, claim_version, IsPrepared, State, Step, upload,
  claim, Steps, done, next,
}

-- The key of some version.
unfoldable pub IsVersionKey : String → Type 0
IsVersionKey k =
    (org : String) × (name : String) × (version : String) × (version_metadata_key org name version
      ≡ some k)

module _ (b : Bucket) where
  open b use {
    Store, lookup, put, put_if_absent, lookup_put, lookup_put_other, writes_absent, keeps_present,
  }

  -- What `put_if_absent` answers, on both of its branches.
  pub data IsClaim (k : String) (o : StoredObject) (s t : Store) : Type 0 where
    new : lookup k s ≡ none → t ≡ put k o s → IsClaim k o s t

  pub put_if_absent-IsClaim :
      (k : String) (o : StoredObject) (s t : Store) → put_if_absent k o s ≡ some t → IsClaim k o s t
  put_if_absent-IsClaim k o s t h = elim (Option-cases (lookup k s)) [
    | inl free ↦ new free (cc (writes_absent k o s free, h))
    | inr (x, taken) ↦ absurd (cc (keeps_present k o x s taken, h))
  ]

  claim_version-kept :
      (sub : Submission) {s t : Store} {k : String} {o : StoredObject}
      → claim_version b sub s ≡ some t
      → lookup k s ≡ some o
      → lookup k t ≡ some o
  unfolding claim_version
  claim_version-kept sub {s} {t} {k} {o} h found =
      elim (put_if_absent-IsClaim sub.version_key (document_object sub) s t h) [
        | new free written ↦
            let other : k ≢ sub.version_key = λ same. absurd (cc (same, free, found)) in
            rw written (lookup_put_other k sub.version_key (document_object sub) s other ∙ found)
      ]

  module _ (rt : UploadRuntime) where
    pub store_artifact-kept :
        (sub : Submission) {s : Store} {k : String}
        → IsPrepared b rt sub
        → IsVersionKey k
        → lookup k (store_artifact b sub s) ≡ lookup k s
    unfolding store_artifact IsVersionKey
    store_artifact-kept sub {s} {k} (env, request, route, prepared) (org, name, version, key) =
        let a = (prepare-IsAccepted rt env request route prepared) in
        let apart =
          artifact_key-version_metadata_key sub.digest _ org name version a.made.object_key key in
        lookup_put_other k sub.object_key (artifact_object sub) s (λ same. apart (sym same))

    Step-kept :
        {s t : State b rt} {k : String} {o : StoredObject}
        → Step b rt s t
        → IsVersionKey k
        → lookup k s.store ≡ some o
        → lookup k t.store ≡ some o
    Step-kept (upload sub prepared) key found = store_artifact-kept sub prepared key ∙ found
    Step-kept (claim sub _ claimed) key found = claim_version-kept sub claimed found

    -- Versions are immutable: whatever publishes run together, and however their writes interleave,
    -- the object at the key of a version never changes once it is there.
    pub version_kept :
        {s t : State b rt} {k : String} {o : StoredObject}
        → Steps b rt s t
        → IsVersionKey k
        → lookup k s.store ≡ some o
        → lookup k t.store ≡ some o
    version_kept done key found = found
    version_kept (next step steps) key found = version_kept steps key (Step-kept step key found)

    -- Once a publish has claimed the key of a version, a claim of that key by any publish is
    -- refused, whatever publishes ran in between.
    pub claimed_once :
        (sub other : Submission) (s : Store) {t : Store} {staged : List Submission} {u : State b rt}
        → IsVersionKey sub.version_key
        → other.version_key ≡ sub.version_key
        → claim_version b sub s ≡ some t
        → Steps b rt (record { store = t; staged = staged }) u
        → claim_version b other u.store ≡ none
    unfolding claim_version
    claimed_once sub other s {t} {u = u} key same claimed steps =
        elim (put_if_absent-IsClaim sub.version_key (document_object sub) s t claimed) [
          | new free written ↦
              let there : lookup sub.version_key t ≡ some (document_object sub) =
                rw written (lookup_put sub.version_key (document_object sub) s) in
              let still = version_kept steps key there in
              keeps_present other.version_key (document_object other) (document_object sub) u.store
                (rw same still)
        ]
