-- ===== src/Publish/Claim/Installable.antt =====
-- Every version in the bucket can be installed: its bytes are there under their digest.
use zed_infra.Base.{
  ℕ, String, some, List, ◌≡◌, ◌≢◌, refl, sym, ◌∙◌, ◌⊎◌, inl, inr, Bool-cases, ◌===◌, ===_iff, IsIn,
}
use zed_infra.Json.{Json}
use zed_infra.Publish.{artifact_key}
use zed_infra.Publish.Keys.{artifact_key-version_metadata_key}
use zed_infra.Publish.Bucket.{Bucket, StoredObject, content}
use zed_infra.Publish.Upload.{UploadRuntime, Submission, sha256_hex}
use zed_infra.Publish.Admission.{prepare-IsAccepted}
use zed_infra.Publish.Claim.{
  artifact_object, document_object, store_artifact, claim_version, IsPrepared, State, Step, upload,
  claim, Steps, done, next,
}
use zed_infra.Publish.Claim.Kept.{IsVersionKey, new, put_if_absent-IsClaim, store_artifact-kept}

module _ (b : Bucket) (rt : UploadRuntime) where
  open b use {Store, lookup, put, lookup_put, lookup_put_other}

  -- At the key k there are bytes whose digest is the one that k names.
  pub record IsAddressed (k : String) (s : Store) : Type 0 where
    pub object : StoredObject
    pub found : lookup k s ≡ some object
    pub bytes : List ℕ
    pub body : object.body ≡ content bytes
    pub format : Json
    pub named : artifact_key (sha256_hex rt bytes) format ≡ some k

  -- The object at the key k is the document of an admitted submission whose bytes are in place.
  pub record IsInstallable (k : String) (o : StoredObject) (s : Store) : Type 0 where
    pub sub : Submission
    pub prepared : IsPrepared b rt sub
    pub key : sub.version_key ≡ k
    pub document : o ≡ document_object sub
    pub artifact : IsAddressed sub.object_key s

  pub record IsConsistent (s : State b rt) : Type 0 where
    pub staged :
        (sub : Submission)
        → IsIn sub s.staged
        → IsPrepared b rt sub × IsAddressed sub.object_key s.store
    pub versions :
        (k : String) (o : StoredObject)
        → IsVersionKey k
        → lookup k s.store ≡ some o
        → IsInstallable k o s.store

  of_prepared :
      (sub : Submission)
      → IsPrepared b rt sub
      → (sub.digest ≡ sha256_hex rt sub.bytes)
        × ((format : Json) × (artifact_key sub.digest format ≡ some sub.object_key))
        × IsVersionKey sub.version_key
  unfolding IsVersionKey
  of_prepared sub (env, request, route, prepared) =
      let a = prepare-IsAccepted rt env request route prepared in
      (
        a.made.digest,
        (_, a.made.object_key),
        (route.org, route.name, route.version, a.made.version_key),
      )

  own_artifact :
      (sub : Submission) (s : Store)
      → IsPrepared b rt sub
      → IsAddressed sub.object_key (store_artifact b sub s)
  unfolding store_artifact artifact_object
  own_artifact sub s prepared =
      let (digest, (format, named), _) = of_prepared sub prepared in
      record {
        object = artifact_object sub;
        found = lookup_put sub.object_key (artifact_object sub) s;
        bytes = sub.bytes;
        body = refl;
        format = format;
        named = rw (← digest) named;
      }

  -- A put at a key leaves an addressed object addressed if it is elsewhere.
  put_elsewhere :
      (k j : String) (o : StoredObject) (s : Store)
      → k ≢ j
      → IsAddressed k s
      → IsAddressed k (put j o s)
  put_elsewhere k j o s other a = record {
    object = a.object;
    found = lookup_put_other k j o s other ∙ a.found;
    bytes = a.bytes;
    body = a.body;
    format = a.format;
    named = a.named;
  }

  stored-IsAddressed :
      (k : String) (sub : Submission) (s : Store)
      → IsPrepared b rt sub
      → IsAddressed k s
      → IsAddressed k (store_artifact b sub s)
  unfolding store_artifact
  stored-IsAddressed k sub s prepared a = elim (Bool-cases (k === sub.object_key)) [
    | inl same ↦ rw ((===_iff k sub.object_key).0 same) (own_artifact sub s prepared)
    | inr apart ↦
        put_elsewhere k sub.object_key (artifact_object sub) s
          (λ same. cc ((===_iff k sub.object_key).1 same, apart)) a
  ]

  claimed-IsAddressed :
      (k : String) (sub : Submission) (s t : Store)
      → IsPrepared b rt sub
      → claim_version b sub s ≡ some t
      → IsAddressed k s
      → IsAddressed k t
  unfolding claim_version IsVersionKey
  claimed-IsAddressed k sub s t prepared claimed a =
      elim (put_if_absent-IsClaim b sub.version_key (document_object sub) s t claimed) [
        | new free written ↦
            let (_, _, (org, name, version, key)) = of_prepared sub prepared in
            let apart : k ≢ sub.version_key =
              artifact_key-version_metadata_key (sha256_hex rt a.bytes) a.format org name version
                a.named key in
            rw written (put_elsewhere k sub.version_key (document_object sub) s apart a)
      ]

  IsInstallable-moved :
      {k : String} {o : StoredObject} {s t : Store}
      → ((j : String) → IsAddressed j s → IsAddressed j t)
      → IsInstallable k o s
      → IsInstallable k o t
  IsInstallable-moved move i = record {
    sub = i.sub;
    prepared = i.prepared;
    key = i.key;
    document = i.document;
    artifact = move i.sub.object_key i.artifact;
  }

  -- The object at a version's key after a claim is the one before or the claimed document.
  claimed_version :
      (sub : Submission) (s t : Store) (k : String) (o : StoredObject)
      → claim_version b sub s ≡ some t
      → lookup k t ≡ some o
      → (lookup k s ≡ some o) ⊎ ((sub.version_key ≡ k) × (o ≡ document_object sub))
  unfolding claim_version
  claimed_version sub s t k o claimed found =
      elim (put_if_absent-IsClaim b sub.version_key (document_object sub) s t claimed) [
        | new free written ↦ elim (Bool-cases (k === sub.version_key)) [
          | inl same ↦
              let here : k ≡ sub.version_key = (===_iff k sub.version_key).0 same in
              let there = lookup_put sub.version_key (document_object sub) s in
              inr (sym here, cc (here, written, found, there))
          | inr apart ↦
              let other : k ≢ sub.version_key =
                λ same. cc ((===_iff k sub.version_key).1 same, apart) in
              inl (
                cc (
                  lookup_put_other k sub.version_key (document_object sub) s other,
                  written,
                  found,
                ))
        ]
      ]

  Step-IsConsistent : {s t : State b rt} → Step b rt s t → IsConsistent s → IsConsistent t
  Step-IsConsistent (upload {s} {staged} sub prepared) c = record {
    staged = λ other m. elim m [
      | inl same ↦ rw same (prepared, own_artifact sub s prepared)
      | inr m' ↦
          let (p, a) = c.staged other m' in
          (p, stored-IsAddressed other.object_key sub s prepared a)
    ];
    versions = λ k o key found.
        IsInstallable-moved (λ j. stored-IsAddressed j sub s prepared)
          (c.versions k o key (sym (store_artifact-kept b rt sub prepared key) ∙ found));
  }
  Step-IsConsistent (claim {s} {t} sub m claimed) c =
      let (prepared, artifact) = c.staged sub m in
      let move = λ (j : String). claimed-IsAddressed j sub s t prepared claimed in
      record {
        staged = λ other n. let (p, a) = c.staged other n in (p, move other.object_key a);
        versions = λ k o key found. elim (claimed_version sub s t k o claimed found) [
          | inl before ↦ IsInstallable-moved move (c.versions k o key before)
          | inr (here, document) ↦ record {
            sub = sub;
            prepared = prepared;
            key = here;
            document = document;
            artifact = move sub.object_key artifact;
          }
        ];
      }

  -- From a consistent bucket, whatever publishes run together, and however their writes interleave
  -- or stop half-way, the bucket stays consistent: each version in it has the document of an
  -- admitted submission, and the bytes at that submission's key have the digest that the key names.
  pub Steps-IsConsistent : {s t : State b rt} → Steps b rt s t → IsConsistent s → IsConsistent t
  Steps-IsConsistent done c = c
  Steps-IsConsistent (next step steps) c = Steps-IsConsistent steps (Step-IsConsistent step c)
