-- ===== src/Publish/Document/ReadBack.antt =====
-- A version that a publish established is served by `r2VersionMetadata`.
use zed_infra.Base.{
  ℕ, ◌≤◌, String, true, false, not, ◌&&◌, ◌||◌, Option, none, some, List, length, ok, reject_if,
  ◌≡◌, inl, inr, refl, arith, Option-cases, allowed, checks_first, member, ◌∙◌, ap, sym,
}
use zed_infra.Json.{
  field_of, Json, str, int, obj, field, end, get, as_nat, is_undefined, is_str, is_record, Fields,
  keys, keys_of,
}
use zed_infra.Visibility.{permits_public_visibility, require_public_object}
use zed_infra.Publish.{Route, max_publish_meta_bytes, VersionMetadata, PackageFacts}
use zed_infra.Publish.Bucket.{Bucket, StoredObject, Body, content, version_document}
use zed_infra.Publish.Upload.{Env, UploadRequest, UploadRuntime, Submission, prepare}
use zed_infra.Publish.Admission.{prepare-IsAccepted}
use zed_infra.Publish.Claim.{document_object, handle_edge_publish}
use zed_infra.Publish.Claim.Handled.{handle_edge_publish-cases}
use zed_infra.Publish.Document.{
  R2Object, ReadRuntime, concat, counted, exactly, read_text, object_text, parsed, disclosed,
  read_json_object, r2_version_metadata, to_json, text_field, facts_field, list_field, facts_json,
}
use zed_infra.Publish.Document.Readable.{counted_within}

-- The fields of `to_json` from the package's facts on name no visibility.
tail_fields : Option PackageFacts → Option (List Json) → Option (List Json) → Fields
tail_fields facts mirrors signatures =
    facts_field facts (list_field "mirrors" mirrors (list_field "signatures" signatures end))

tail_fields-public :
    (facts : Option PackageFacts) (mirrors signatures : Option (List Json))
    → member "visibility" (keys_of (tail_fields facts mirrors signatures)) ≡ false
unfolding member keys_of tail_fields
tail_fields-public none none none = refl
tail_fields-public none none (some s) = refl
tail_fields-public none (some m) none = refl
tail_fields-public none (some m) (some s) = refl
tail_fields-public (some f) none none = refl
tail_fields-public (some f) none (some s) = refl
tail_fields-public (some f) (some m) none = refl
tail_fields-public (some f) (some m) (some s) = refl

text_field-public :
    (o : Option String) (fs : Fields)
    → member "visibility" (keys_of fs) ≡ false
    → member "visibility" (keys_of (text_field "vcs_commit" o fs)) ≡ false
unfolding member keys_of
text_field-public none fs h = h
text_field-public (some s) fs h = h

package_json : Option PackageFacts → Json
package_json none = Json.undefined
package_json (some f) = facts_json f

-- ... and `package` is found behind the commit.
tail_fields-package :
    (facts : Option PackageFacts) (mirrors signatures : Option (List Json))
    → field_of "package" (tail_fields facts mirrors signatures) ≡ package_json facts
unfolding field_of tail_fields package_json
tail_fields-package none none none = refl
tail_fields-package none none (some s) = refl
tail_fields-package none (some m) none = refl
tail_fields-package none (some m) (some s) = refl
tail_fields-package (some f) mirrors signatures = refl

text_field-package :
    (o : Option String) (fs : Fields)
    → field_of "package" (text_field "vcs_commit" o fs) ≡ field_of "package" fs
unfolding field_of
text_field-package none fs = refl
text_field-package (some s) fs = refl

facts_json-public : (f : PackageFacts) → permits_public_visibility (facts_json f) ≡ true
unfolding permits_public_visibility member keys keys_of is_record
facts_json-public f = elim (Option-cases f.description) [
  | inl e ↦ rw (e, facts_json) refl
  | inr (s, e) ↦ rw (e, facts_json) refl
]

to_json-public : (m : VersionMetadata) → permits_public_visibility (to_json m) ≡ true
unfolding to_json permits_public_visibility member keys tail_fields is_record
to_json-public m =
    let e =
      text_field-public m.vcs_commit (tail_fields m.facts m.mirrors m.signatures)
        (tail_fields-public m.facts m.mirrors m.signatures) in
    rw e refl

package_of : (m : VersionMetadata) → get "package" (to_json m) ≡ package_json m.facts
unfolding to_json get field_of tail_fields
package_of m =
    text_field-package m.vcs_commit (tail_fields m.facts m.mirrors m.signatures)
    ∙ tail_fields-package m.facts m.mirrors m.signatures

disclosed-to_json : (m : VersionMetadata) → disclosed (some (to_json m)) ≡ ok (some (to_json m))
unfolding disclosed package_json is_undefined
disclosed-to_json m = allowed _ _ _ (go m.facts (package_of m))
  where
    go :
        (facts : Option PackageFacts)
        → get "package" (to_json m) ≡ package_json facts
        → (not (permits_public_visibility (to_json m))
            || (not (is_undefined (get "package" (to_json m)))
                && not (permits_public_visibility (get "package" (to_json m)))))
          ≡ false
    go none e = rw (to_json-public m, e) refl
    go (some f) e = rw (to_json-public m, e, facts_json-public f) refl

as_nat_small : (n : ℕ) → n ≤ max_publish_meta_bytes → as_nat (int n) ≡ some n
unfolding as_nat
as_nat_small n h = ground arith

-- An unbroken object within the limit, whose size is that of its chunks, is read whole.
whole_text :
    (utf8 : List ℕ → Option String) (metadata : Json) (n : ℕ) (chunks : List (List ℕ))
    → n ≡ length (concat chunks)
    → n ≤ max_publish_meta_bytes
    → object_text utf8 (record {
      custom_metadata = metadata;
      size = int n;
      body = some (record { chunks = chunks; fails = false });
    })
      ≡ utf8 (concat chunks)
unfolding object_text read_text exactly
whole_text utf8 metadata n chunks same small =
    let e : counted n 0 chunks ≡ some n =
      counted_within n 0 chunks (omega arith) small ∙ ap some (omega arith) in
    rw (as_nat_small n small, object_text) (ground arith)

public_metadata :
    (sub : Submission)
    → require_public_object (obj (field "visibility" (str (document_object sub).visibility) end))
      ≡ ok tt
unfolding require_public_object permits_public_visibility document_object is_undefined is_record
    member keys keys_of is_str get field_of reject_if
public_metadata sub = refl

-- What the bucket answers with for an object that was stored: its bytes, in chunks that are the
-- platform's choice, their number, and the metadata given to `put`.
module _ (stringify : Json → List ℕ) (chunked : List ℕ → List (List ℕ)) where
  abbrev pub stored_bytes : Body → List ℕ
  stored_bytes (content bytes) = bytes
  stored_bytes (version_document m) = stringify (to_json m)

  abbrev pub r2_object : StoredObject → R2Object
  r2_object o = record {
    custom_metadata = obj (field "visibility" (str o.visibility) end);
    size = int (length (stored_bytes o.body));
    body = some (record { chunks = chunked (stored_bytes o.body); fails = false });
  }

  abbrev pub r2_get : Option StoredObject → Option R2Object
  r2_get none = none
  r2_get (some o) = some (r2_object o)

  module _ (reader : ReadRuntime) (sub : Submission) (text : String)
      (whole : (bytes : List ℕ) → concat (chunked bytes) ≡ bytes)
      (small : length (stringify (to_json sub.document)) ≤ max_publish_meta_bytes)
      (decoded : reader.utf8 (stringify (to_json sub.document)) ≡ some text)
      (read : reader.parse_json text ≡ some (to_json sub.document)) where
    document_text : object_text reader.utf8 (r2_object (document_object sub)) ≡ some text
    unfolding document_object
    document_text =
        let bytes = stringify (to_json sub.document) in
        whole_text reader.utf8 _ (length bytes) (chunked bytes) (ap length (sym (whole bytes)))
          small
        ∙ ap reader.utf8 (whole bytes)
        ∙ decoded

    document_read :
        read_json_object reader (some (r2_object (document_object sub)))
        ≡ ok (some (to_json sub.document))
    unfolding read_json_object parsed
    document_read =
        checks_first _ _ (public_metadata sub)
        ∙ rw (document_text, read) (disclosed-to_json sub.document)

    -- After a publish to a free version `r2VersionMetadata` answers with the document written.
    pub handle_edge_publish-r2_version_metadata :
        (b : Bucket) (rt : UploadRuntime) (env : Env) (request : UploadRequest) (route : Route)
        (s : b.Store)
        → prepare rt env request route ≡ ok sub
        → b.lookup sub.version_key s ≡ none
        → r2_version_metadata reader
            (some (λ k. r2_get (b.lookup k (handle_edge_publish b rt env request route s).0)))
            route
          ≡ ok (some (to_json sub.document))
    unfolding r2_version_metadata
    handle_edge_publish-r2_version_metadata b rt env request route s prepared free =
        elim (handle_edge_publish-cases b rt env request route sub s prepared) [
          | inl new ↦
              rw
                (
                  (prepare-IsAccepted rt env request route prepared).made.version_key,
                  new.document,
                  r2_version_metadata,
                )
                document_read
          | inr taken ↦ cc (free, taken.before)
        ]
