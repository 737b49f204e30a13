-- ===== src/Publish/Admission.antt =====
-- What a submission that `prepare` returns has passed.
use zed_infra.Base.{
  ℕ, ◌+◌, ◌≤◌, String, true, some, List, [], ◌∷◌, length, ok, ◌≡◌, refl, passed, followed, bound,
  returned, require-eq-ok, of_not, or-false, arith,
}
use zed_infra.Json.{Json, int, str, get, is_str-eq-true}
use zed_infra.Publish.{
  Route, names_route, artifact_key, version_metadata_key, validate_publish_meta,
  build_version_metadata,
}
use zed_infra.Publish.Upload.{
  Env, Part, UploadRequest, UploadRuntime, Submission, edge_publish_enabled, declared_length,
  limited, is_count, sha256_hex, authorize_publish, receive, submission, prepare, multipart,
  values_of, only_text, only_file,
}
use zed_infra.Visibility.{permits_public_visibility}

abbrev pub body_size : List (List ℕ) → ℕ
body_size [] = 0
body_size (chunk ∷ chunks) = length chunk + body_size chunks

-- A limited body is read whole, and is no longer than what was declared.
limited-body_size :
    (declared received : ℕ) (chunks : List (List ℕ)) {n : ℕ}
    → limited declared received chunks ≡ some n
    → n ≡ received + body_size chunks
unfolding limited
limited-body_size declared received [] h = ground arith
limited-body_size declared received (chunk ∷ chunks) {n} h =
    let within : limited declared (received + length chunk) chunks ≡ some n = ground arith in
    let later = limited-body_size declared (received + length chunk) chunks within in
    omega (arith, later)

is_count-eq-true : (n : ℕ) (v : Json) → is_count n v ≡ true → v ≡ int n
unfolding is_count
is_count-eq-true n (int m) h = ground arith
is_count-eq-true n v h = ground arith

-- The metadata names the route and permits publication.
pub record IsDeclared (meta : Json) (route : Route) : Type 0 where
  pub named : names_route (get "package" (get "manifest" meta)) route ≡ true
  pub public : permits_public_visibility meta ≡ true
  pub public_package : permits_public_visibility (get "package" (get "manifest" meta)) ≡ true

-- If the declared metadata passes, its package names the organisation, the name and the version of
-- the route, and both it and its package permit public visibility.
pub validate_publish_meta-IsDeclared :
    (meta : Json) (route : Route) → validate_publish_meta meta route ≡ ok tt → IsDeclared meta route
unfolding validate_publish_meta
validate_publish_meta-IsDeclared meta route h = passed _ _ _ h λ _ h₁. passed _ _ _ h₁ λ _ h₂.
    passed _ _ _ h₂ λ named h₃. passed _ _ _ h₃ λ visible _.
      let (meta_public, package_public) = or-false _ _ visible in
      record {
        named = of_not _ named;
        public = of_not _ meta_public;
        public_package = of_not _ package_public;
      }

module _ (rt : UploadRuntime) where
  -- The body was as long as it was declared to be, and at most 33 MiB, and it is parsed as the form.
  pub record IsReceived (request : UploadRequest) (form : List (String × Part)) : Type 0 where
    pub content_type : String
    pub is_multipart : multipart request.content_type ≡ some content_type
    pub parsed : rt.parse_form content_type request.chunks ≡ some form
    pub declared : ℕ
    pub given : declared_length request.content_length ≡ some declared
    pub capped : declared ≤ 34603008
    pub exact : body_size request.chunks ≡ declared

  receive-IsReceived :
      (request : UploadRequest) {form : List (String × Part)}
      → receive rt request ≡ ok form
      → IsReceived request form
  unfolding receive
  receive-IsReceived request h = bound _ _ h λ declared d h₁. passed _ _ _ h₁ λ small h₂.
      bound _ _ h₂ λ content_type m h₃. bound _ _ h₃ λ received r h₄. bound _ _ h₄ λ parts p h₅.
        passed _ _ _ h₅ λ same h₆. returned (IsReceived request) h₆ (record {
          content_type = content_type;
          is_multipart = require-eq-ok _ _ m;
          parsed = require-eq-ok _ _ p;
          declared = declared;
          given = require-eq-ok _ _ d;
          capped = ground arith;
          exact = ground (arith, limited-body_size declared 0 request.chunks (require-eq-ok _ _ r));
        })

  -- The submission's bytes are those that the metadata declares, and its keys and its document are
  -- those of the route and of the digest of its bytes.
  pub record IsSubmissionOf (route : Route) (meta : Json) (bytes : List ℕ) (sub : Submission)
      : Type 0 where
    pub same_bytes : sub.bytes ≡ bytes
    pub nonempty : 1 ≤ length sub.bytes
    pub capped : length sub.bytes ≤ 33554432
    pub digest : sub.digest ≡ sha256_hex rt sub.bytes
    pub declared_digest : get "sha256" meta ≡ str sub.digest
    pub declared_size : get "size" meta ≡ int (length sub.bytes)
    pub version_key : version_metadata_key route.org route.name route.version ≡ some sub.version_key
    pub object_key : artifact_key sub.digest (get "format" meta) ≡ some sub.object_key
    pub org : sub.document.org ≡ route.org
    pub name : sub.document.name ≡ route.name
    pub version : sub.document.version ≡ route.version
    pub document_digest : sub.document.sha256 ≡ sub.digest
    pub document_size : sub.document.bytes ≡ length sub.bytes

  submission-IsSubmissionOf :
      (env : Env) (route : Route) (meta : Json) (bytes : List ℕ) {sub : Submission}
      → submission rt env route meta bytes ≡ ok sub
      → IsSubmissionOf route meta bytes sub
  unfolding submission build_version_metadata
  submission-IsSubmissionOf env route meta bytes h = passed _ _ _ h λ some_bytes h₁.
      passed _ _ _ h₁ λ small h₂. passed _ _ _ h₂ λ digest h₃. passed _ _ _ h₃ λ size h₄.
        bound _ _ h₄ λ version_key v h₅. bound _ _ h₅ λ object_key o h₆.
          returned (IsSubmissionOf route meta bytes) h₆ (record {
            same_bytes = refl;
            nonempty = ground arith;
            capped = ground arith;
            digest = refl;
            declared_digest = is_str-eq-true _ _ (of_not _ digest);
            declared_size = is_count-eq-true _ _ (of_not _ size);
            version_key = require-eq-ok _ _ v;
            object_key = require-eq-ok _ _ o;
            org = refl;
            name = refl;
            version = refl;
            document_digest = refl;
            document_size = refl;
          })

  pub record IsAccepted (env : Env) (request : UploadRequest) (route : Route) (sub : Submission)
      : Type 0 where
    pub enabled : edge_publish_enabled env ≡ true
    pub authorized : authorize_publish rt env request ≡ true
    pub form : List (String × Part)
    pub received : IsReceived request form
    pub two_parts : length form ≡ 2
    pub text : String
    pub only_meta : only_text (values_of "meta" form) ≡ some text
    pub bytes : List ℕ
    pub only_artifact : only_file (values_of "artifact" form) ≡ some bytes
    pub short_meta : length (rt.encode text) ≤ 1048576
    pub meta : Json
    pub read : rt.parse_json text ≡ some meta
    pub declared : IsDeclared meta route
    pub made : IsSubmissionOf route meta bytes sub

  -- If a request is admitted, publishing is enabled and the request is authorized, and its body has
  -- the declared length of at most 33 MiB and is a form of two parts, one text `meta` of at most
  -- 1 MiB and one file `artifact`. The metadata read of that text names the route and is public.
  -- What is to be written are the bytes of that file, 1 byte to 32 MiB with the size and the digest
  -- that the metadata declares, under the keys of the route and of that digest, with a document
  -- that repeats the route, the digest and the size.
  pub prepare-IsAccepted :
      (env : Env) (request : UploadRequest) (route : Route) {sub : Submission}
      → prepare rt env request route ≡ ok sub
      → IsAccepted env request route sub
  unfolding prepare
  prepare-IsAccepted env request route h = passed _ _ _ h λ enabled h₁.
      passed _ _ _ h₁ λ authorized h₂. bound _ _ h₂ λ form f h₃. passed _ _ _ h₃ λ two h₄.
        bound _ _ h₄ λ text t h₅. bound _ _ h₅ λ bytes b h₆. passed _ _ _ h₆ λ short h₇.
          bound _ _ h₇ λ meta m h₈. followed _ _ h₈ λ checks h₉.
            let made = submission-IsSubmissionOf env route meta bytes h₉ in
            record {
              enabled = of_not _ enabled;
              authorized = of_not _ authorized;
              form = form;
              received = receive-IsReceived request f;
              two_parts = ground arith;
              text = text;
              only_meta = require-eq-ok _ _ t;
              bytes = bytes;
              only_artifact = require-eq-ok _ _ b;
              short_meta = ground arith;
              meta = meta;
              read = require-eq-ok _ _ m;
              declared = validate_publish_meta-IsDeclared meta route checks;
              made = made;
            }
