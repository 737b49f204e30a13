-- ===== src/Publish/Claim.antt =====
-- edge-publish.js: the two writes of `handleEdgePublish`, and the steps of publishes that run
-- together.
pub mod Kept
pub mod Handled
pub mod Installable
use zed_infra.Base.{
  String, Bool, true, false, Option, none, some, List, [], ◌∷◌, ◌≡◌, IsIn, Result, ok, err,
  if◌then◌else◌, ◌===◌,
}
use zed_infra.Publish.{Problem, problem, Route}
use zed_infra.Publish.Bucket.{Bucket, StoredObject, Body, content, version_document}
use zed_infra.Publish.Upload.{Env, UploadRequest, UploadRuntime, Submission, prepare}

-- `key.endsWith(".zip")`
ends_in_zip : String → Bool
ends_in_zip String.[] = false
ends_in_zip (String.◌∷◌ c s) =
    let rest = ends_in_zip s in if String.◌∷◌ c s === ".zip" then true else rest

-- The body of a 201, and whether the bytes went to the second home too is left out.
pub record Published : Type 0 where
  pub org : String
  pub name : String
  pub version : String
  pub sha256 : String

unfoldable pub artifact_object : Submission → StoredObject
unfolding ends_in_zip
artifact_object sub = record {
  body = content sub.bytes;
  visibility = "public";
  content_type = if ends_in_zip sub.object_key then "application/zip" else "application/gzip";
  cache_control = some "public, max-age=31536000, immutable";
}

unfoldable pub document_object : Submission → StoredObject
document_object sub = record {
  body = version_document sub.document;
  visibility = "public";
  content_type = "application/json";
  cache_control = none;
}

module _ (b : Bucket) where
  open b use {Store, put, put_if_absent}

  -- the first write
  unfoldable pub store_artifact : Submission → Store → Store
  store_artifact sub s = put sub.object_key (artifact_object sub) s

  -- the second write, which claims the version
  unfoldable pub claim_version : Submission → Store → Option Store
  claim_version sub s = put_if_absent sub.version_key (document_object sub) s

  unfoldable pub publish : Submission → Route → Store → Store × Result Problem Published
  publish sub route s =
      let stored = store_artifact sub s in
      elim (claim_version sub stored) [
        | none ↦ (stored, err (problem 409 "version_already_published"))
        | some claimed ↦ (
          claimed,
          ok (record {
            org = route.org;
            name = route.name;
            version = route.version;
            sha256 = sub.digest;
          }),
        )
      ]

  module _ (rt : UploadRuntime) where
    unfoldable pub handle_edge_publish :
        Env → UploadRequest → Route → Store → Store × Result Problem Published
    handle_edge_publish env request route s = elim (prepare rt env request route) [
      | err p ↦ (s, err p)
      | ok sub ↦ publish sub route s
    ]

    -- A submission that some admitted request gives.
    abbrev pub IsPrepared : Submission → Type 0
    IsPrepared sub =
        (env : Env) × (request : UploadRequest) × (route : Route) × (prepare rt env request route
          ≡ ok sub)

    -- The bucket, and the publishes that have stored their artifact.
    pub record State : Type 0 where
      pub store : Store
      pub staged : List Submission

    -- One write of some publish. A publish may also end between its writes, and a claim that is
    -- refused changes nothing.
    pub data Step : State → State → Type 0 where
      upload :
          {s : Store} {staged : List Submission} (sub : Submission)
          → IsPrepared sub
          → Step
              (record { store = s; staged = staged })
              (record { store = store_artifact sub s; staged = sub ∷ staged })
      claim :
          {s t : Store} {staged : List Submission} (sub : Submission)
          → IsIn sub staged
          → claim_version sub s ≡ some t
          → Step (record { store = s; staged = staged }) (record { store = t; staged = staged })

    pub data Steps : State → State → Type 0 where
      done : {s : State} → Steps s s
      next : {s t u : State} → Step s t → Steps t u → Steps s u
