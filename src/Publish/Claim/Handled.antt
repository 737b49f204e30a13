-- ===== src/Publish/Claim/Handled.antt =====
-- What one publish does to the bucket, and that it runs by the steps of `Step`.
use zed_infra.Base.{
  none, some, List, ◌∷◌, ◌≡◌, ◌≢◌, refl, ◌∙◌, ◌⊎◌, inl, inr, Option-cases, Result-cases, Result, ok,
  err,
}
use zed_infra.Publish.{Problem, problem, Route}
use zed_infra.Publish.Keys.{artifact_key-version_metadata_key}
use zed_infra.Publish.Bucket.{Bucket, StoredObject}
use zed_infra.Publish.Upload.{Env, UploadRequest, UploadRuntime, Submission, prepare}
use zed_infra.Publish.Admission.{IsAccepted, prepare-IsAccepted}
use zed_infra.Publish.Claim.{
  Published, artifact_object, document_object, store_artifact, claim_version, publish,
  handle_edge_publish, IsPrepared, upload, claim, Steps, done, next,
}
use zed_infra.Publish.Claim.Kept.{IsVersionKey, store_artifact-kept}

abbrev pub published_of : Route → Submission → Published
published_of route sub = record {
  org = route.org;
  name = route.name;
  version = route.version;
  sha256 = sub.digest;
}

module _ (b : Bucket) (rt : UploadRuntime) where
  open b use {
    Store, lookup, put, put_if_absent, lookup_put, lookup_put_other, writes_absent, keeps_present,
  }

  -- The version was free, and now the bucket has its document and the bytes that it names.
  pub record IsNew (route : Route) (sub : Submission) (s : Store)
      (r : Store × Result Problem Published) : Type 0 where
    pub free : lookup sub.version_key s ≡ none
    pub document : lookup sub.version_key (r.0) ≡ some (document_object sub)
    pub artifact : lookup sub.object_key (r.0) ≡ some (artifact_object sub)
    pub answer : r.1 ≡ ok (published_of route sub)

  -- The version had an object, which stays.
  pub record IsTaken (sub : Submission) (s : Store) (r : Store × Result Problem Published)
      : Type 0 where
    pub present : StoredObject
    pub before : lookup sub.version_key s ≡ some present
    pub after : lookup sub.version_key (r.0) ≡ some present
    pub answer : r.1 ≡ err (problem 409 "version_already_published")

  publish_claimed :
      (sub : Submission) (route : Route) (s : Store) {t : Store}
      → claim_version b sub (store_artifact b sub s) ≡ some t
      → publish b sub route s ≡ (t, ok (published_of route sub))
  unfolding publish
  publish_claimed sub route s h = rw (publish, h) refl

  publish_refused :
      (sub : Submission) (route : Route) (s : Store)
      → claim_version b sub (store_artifact b sub s) ≡ none
      → publish b sub route s
        ≡ (store_artifact b sub s, err (problem 409 "version_already_published"))
  unfolding publish
  publish_refused sub route s h = rw (publish, h) refl

  module _ (env : Env) (request : UploadRequest) (route : Route) (sub : Submission) (s : Store)
      (prepared : prepare rt env request route ≡ ok sub) where
    handled : handle_edge_publish b rt env request route s ≡ publish b sub route s
    unfolding handle_edge_publish
    handled = rw (handle_edge_publish, prepared) refl

    accepted : IsAccepted rt env request route sub
    accepted = prepare-IsAccepted rt env request route prepared

    version_key_of : IsVersionKey sub.version_key
    unfolding IsVersionKey
    version_key_of = (route.org, route.name, route.version, accepted.made.version_key)

    unmoved : lookup sub.version_key (store_artifact b sub s) ≡ lookup sub.version_key s
    unmoved = store_artifact-kept b rt sub (env, request, route, prepared) version_key_of

    free_version-IsNew :
        lookup sub.version_key s ≡ none
        → IsNew route sub s (handle_edge_publish b rt env request route s)
    unfolding claim_version store_artifact
    free_version-IsNew free =
        let stored = put sub.object_key (artifact_object sub) s in
        let absent : lookup sub.version_key stored ≡ none = unmoved ∙ free in
        let written = writes_absent sub.version_key (document_object sub) stored absent in
        let apart : sub.object_key ≢ sub.version_key =
          artifact_key-version_metadata_key sub.digest _ route.org route.name route.version
            accepted.made.object_key accepted.made.version_key in
        rw (handled ∙ publish_claimed sub route s written) (record {
          free = free;
          document = lookup_put sub.version_key (document_object sub) stored;
          artifact =
              lookup_put_other sub.object_key sub.version_key (document_object sub) stored apart
              ∙ lookup_put sub.object_key (artifact_object sub) s;
          answer = refl;
        })

    present_version-IsTaken :
        (x : StoredObject)
        → lookup sub.version_key s ≡ some x
        → IsTaken sub s (handle_edge_publish b rt env request route s)
    unfolding claim_version store_artifact
    present_version-IsTaken x taken =
        let stored = put sub.object_key (artifact_object sub) s in
        let there : lookup sub.version_key stored ≡ some x = unmoved ∙ taken in
        let refused = keeps_present sub.version_key (document_object sub) x stored there in
        rw (handled ∙ publish_refused sub route s refused)
          (record { present = x; before = taken; after = there; answer = refl })

    -- An admitted request is answered in one of two ways. If the version was free, the answer names
    -- the route and the digest, and afterwards the bucket has the version's document and the bytes
    -- at their keys; if it was taken, the answer is 409 and the object that was there stays.
    pub handle_edge_publish-cases :
        IsNew route sub s (handle_edge_publish b rt env request route s)
        ⊎ IsTaken sub s (handle_edge_publish b rt env request route s)
    handle_edge_publish-cases = elim (Option-cases (lookup sub.version_key s)) [
      | inl free ↦ inl (free_version-IsNew free)
      | inr (x, taken) ↦ inr (present_version-IsTaken x taken)
    ]

  publish-Steps :
      (sub : Submission) (route : Route) (s : Store) (staged : List Submission)
      → IsPrepared b rt sub
      → (after : List Submission) × Steps b rt
          (record { store = s; staged = staged })
          (record { store = (publish b sub route s).0; staged = after })
  unfolding publish
  publish-Steps sub route s staged prepared =
      elim (Option-cases (claim_version b sub (store_artifact b sub s))) [
        | inl refused ↦ rw (publish, refused) (sub ∷ staged, next (upload sub prepared) done)
        | inr (t, claimed) ↦
            rw (publish, claimed)
              (sub ∷ staged, next (upload sub prepared) (next (claim sub (inl refl) claimed) done))
      ]

  -- Whatever the request and the bucket, the handler takes the bucket to its result by steps of the
  -- system in which publishes interleave.
  pub handle_edge_publish-Steps :
      (env : Env) (request : UploadRequest) (route : Route) (s : Store) (staged : List Submission)
      → (after : List Submission) × Steps b rt
          (record { store = s; staged = staged })
          (record { store = (handle_edge_publish b rt env request route s).0; staged = after })
  unfolding handle_edge_publish
  handle_edge_publish-Steps env request route s staged =
      let cases = Result-cases (prepare rt env request route) in
      elim cases [
        | inl (p, refused) ↦ rw (handle_edge_publish, refused) (staged, done)
        | inr (sub, prepared) ↦
            rw (handle_edge_publish, prepared)
              (publish-Steps sub route s staged (env, request, route, prepared))
      ]
