-- ===== src/Publish/Upload.antt =====
-- edge-publish.js: `handleEdgePublish` up to its first write: authorization, the length and the form
-- of the body, and the checks of the bytes against the declared metadata.
use zed_infra.Base.{
  ℕ, ◌+◌, ◌*◌, ◌-◌, ◌/◌, ◌%◌, String, code, Bool, true, false, not, ◌&&◌, Option, none, some, List,
  [], ◌∷◌, leb, ltb, ◌==◌, ◌===◌, ◌⧺◌, is_digit, length, Result, ok, reject_if, require, ◌>>=◌,
  ◌>>◌, if◌then◌else◌,
}
use zed_infra.Http.{is_space, trim, trim_start, to_lower}
use zed_infra.Json.{Json, int, get, is_str, checked, max_safe_integer}
use zed_infra.Publish.{
  Problem, problem, Route, VersionMetadata, max_publish_artifact_bytes, max_publish_meta_bytes,
  version_metadata_key, artifact_key, validate_publish_meta, build_version_metadata,
}

pub record Env : Type 0 where
  pub artifacts_bound : Bool
  pub publish_token : Option String
  pub publish_enabled : Option String
  pub cdn_public_url : Option String

-- A part of a form: a text or a file.
pub data Part : Type 0 where
  text : String → Part
  file : List ℕ → Part

-- What the handler reads of the request; the body is the chunks in which it arrives.
pub record UploadRequest : Type 0 where
  pub authorization : Option String
  pub content_length : Option String
  pub content_type : Option String
  pub chunks : List (List ℕ)

-- Of the runtime: `TextEncoder`, SHA-256, the parser of multipart forms (`none` where it throws),
-- `JSON.parse` and the clock's `toISOString()`.
pub record UploadRuntime : Type 0 where
  pub encode : String → List ℕ
  pub sha256 : List ℕ → List ℕ
  pub parse_form : String → List (List ℕ) → Option (List (String × Part))
  pub parse_json : String → Option Json
  pub now_iso : String

-- What is written: the bytes under the key of their digest, and the version's document.
pub record Submission : Type 0 where
  pub version_key : String
  pub object_key : String
  pub bytes : List ℕ
  pub digest : String
  pub document : VersionMetadata

-- A prefix in lower case, matched as under a regular expression's `i`: the rest of the text.
strip_prefix_any_case : String → String → Option String
strip_prefix_any_case String.[] s = some s
strip_prefix_any_case (String.◌∷◌ c t) String.[] = none
strip_prefix_any_case (String.◌∷◌ c t) (String.◌∷◌ d s) =
    if to_lower (String.◌∷◌ d "") === String.◌∷◌ c "" then strip_prefix_any_case t s else none

first_is : (ℕ → Bool) → String → Bool
first_is p String.[] = false
first_is p (String.◌∷◌ c s) = p (code c)

-- `/^Bearer\s+(.+)$/i` of a trimmed header, which ends in no space and holds no line break
bearer_of : Option String → Option String
unfolding first_is
bearer_of none = none
bearer_of (some rest) = if first_is is_space rest then some (trim rest) else none

unfoldable pub bearer_token : Option String → Option String
unfolding bearer_of strip_prefix_any_case
bearer_token none = none
bearer_token (some header) = bearer_of (strip_prefix_any_case "bearer" (trim header))

truthy_text : Option String → Bool
truthy_text none = false
truthy_text (some s) = not (s === "")

is_text : String → Option String → Bool
is_text s none = false
is_text s (some t) = t === s

unfoldable pub edge_publish_enabled : Env → Bool
unfolding truthy_text is_text
edge_publish_enabled env =
    env.artifacts_bound && truthy_text env.publish_token && is_text "true" env.publish_enabled

-- The loop over the first digest, which marks any difference; a missing byte counts as 0.
same_bytes : List ℕ → List ℕ → Bool
same_bytes [] right = true
same_bytes (a ∷ left) [] = (a == 0) && same_bytes left []
same_bytes (a ∷ left) (b ∷ right) = (a == b) && same_bytes left right

value_of_digits : ℕ → String → Option ℕ
value_of_digits n String.[] = some n
value_of_digits n (String.◌∷◌ c s) =
    let rest = value_of_digits (10 * n + (code c - b'0')) s in
    if is_digit (code c) then rest else none

-- `/^(0|[1-9][0-9]*)$/`, with the number
decimal : String → Option ℕ
unfolding value_of_digits
decimal String.[] = none
decimal (String.◌∷◌ c s) =
    if code c == b'0'
    then (if s === "" then some 0 else none)
    else value_of_digits 0 (String.◌∷◌ c s)

safe : Option ℕ → Option ℕ
safe none = none
safe (some n) = if leb n max_safe_integer then some n else none

unfoldable pub declared_length : Option String → Option ℕ
unfolding decimal safe
declared_length none = none
declared_length (some raw) = safe (decimal raw)

parameters_follow : Option String → Bool
unfolding first_is
parameters_follow none = false
parameters_follow (some rest) = first_is (λ c. c == b';') (trim_start rest)

-- `/^multipart\/form-data\s*;/i`
unfoldable pub multipart : Option String → Option String
unfolding parameters_follow strip_prefix_any_case
multipart none = none
multipart (some s) =
    if parameters_follow (strip_prefix_any_case "multipart/form-data" s) then some s else none

-- The limiter: the bytes received in all, or none when a chunk passes the declared length.
unfoldable pub limited : ℕ → ℕ → List (List ℕ) → Option ℕ
limited declared received [] = some received
limited declared received (chunk ∷ chunks) =
    let rest = limited declared (received + length chunk) chunks in
    if ltb declared (received + length chunk) then none else rest

-- `form.getAll(k)`
pub values_of : String → List (String × Part) → List Part
values_of k [] = []
values_of k ((j, part) ∷ form) =
    let rest = values_of k form in if j === k then part ∷ rest else rest

pub only_text : List Part → Option String
only_text (text s ∷ []) = some s
only_text _ = none

pub only_file : List Part → Option (List ℕ)
only_file (file bytes ∷ []) = some bytes
only_file _ = none

hex_digit : ℕ → String
hex_digit n =
    if n == 0
    then "0"
    else if n == 1
    then "1"
    else if n == 2
    then "2"
    else if n == 3
    then "3"
    else if n == 4
    then "4"
    else if n == 5
    then "5"
    else if n == 6
    then "6"
    else if n == 7
    then "7"
    else if n == 8
    then "8"
    else if n == 9
    then "9"
    else if n == 10
    then "a"
    else if n == 11
    then "b"
    else if n == 12
    then "c"
    else if n == 13
    then "d"
    else if n == 14
    then "e"
    else "f"

unfoldable pub hex : List ℕ → String
unfolding hex_digit
hex [] = ""
hex (b ∷ bs) = hex_digit (b / 16) ⧺ hex_digit (b % 16) ⧺ hex bs

-- `meta.size !== n` fails
unfoldable pub is_count : ℕ → Json → Bool
is_count n (int m) = m == n
is_count n v = false

text_or_default : String → Option String → String
text_or_default d none = d
text_or_default d (some s) = if s === "" then d else s

module _ (rt : UploadRuntime) where
  open rt use {encode, sha256, parse_form, parse_json, now_iso}

  unfoldable pub sha256_hex : List ℕ → String
  sha256_hex bytes = hex (sha256 bytes)

  both_match : Option String → Option String → Bool
  unfolding same_bytes
  both_match (some presented) (some expected) =
      not (presented === "")
      && not (expected === "")
      && same_bytes (sha256 (encode presented)) (sha256 (encode expected))
  both_match _ _ = false

  unfoldable pub authorize_publish : Env → UploadRequest → Bool
  unfolding both_match
  authorize_publish env request =
      edge_publish_enabled env && both_match (bearer_token request.authorization) env.publish_token

  -- the body is read to its end, or to the chunk that is too much
  unfoldable pub receive : UploadRequest → Result Problem (List (String × Part))
  receive request = do
    declared ← require (declared_length request.content_length) (problem 411 "length_required")
    reject_if (ltb (max_publish_artifact_bytes + max_publish_meta_bytes) declared)
        (problem 413 "artifact_too_large")
    content_type ← require (multipart request.content_type) (problem 400 "invalid_publish_body")
    received ← require (limited declared 0 request.chunks) (problem 413 "artifact_too_large")
    form ← require (parse_form content_type request.chunks) (problem 400 "invalid_publish_body")
    reject_if (not (received == declared)) (problem 400 "publish_length_mismatch")
    ok form

  unfoldable pub submission : Env → Route → Json → List ℕ → Result Problem Submission
  unfolding is_count text_or_default
  submission env route meta bytes = do
    reject_if (length bytes == 0) (problem 422 "empty_artifact")
    reject_if (ltb max_publish_artifact_bytes (length bytes)) (problem 413 "artifact_too_large")
    let digest = sha256_hex bytes
    reject_if (not (is_str digest (get "sha256" meta))) (problem 422 "artifact_digest_mismatch")
    reject_if (not (is_count (length bytes) (get "size" meta)))
        (problem 422 "artifact_size_mismatch")
    version_key ←
        require (version_metadata_key route.org route.name route.version)
          (problem 400 "invalid_publish_target")
    object_key ←
        require (artifact_key digest (get "format" meta)) (problem 400 "invalid_publish_target")
    ok (record {
      version_key = version_key;
      object_key = object_key;
      bytes = bytes;
      digest = digest;
      document =
          build_version_metadata route meta digest (length bytes)
            (text_or_default "https://cdn.zpkg.net" env.cdn_public_url)
            (text_or_default now_iso (checked (λ s. true) (get "published_at" meta)));
    })

  -- all of the handler before it writes
  unfoldable pub prepare : Env → UploadRequest → Route → Result Problem Submission
  unfolding values_of only_text only_file
  prepare env request route = do
    reject_if (not (edge_publish_enabled env)) (problem 503 "registry_origin_unavailable")
    reject_if (not (authorize_publish env request)) (problem 401 "unauthorized")
    form ← receive request
    reject_if (not (length form == 2)) (problem 400 "invalid_publish_body")
    raw_meta ← require (only_text (values_of "meta" form)) (problem 400 "invalid_publish_body")
    bytes ← require (only_file (values_of "artifact" form)) (problem 400 "invalid_publish_body")
    reject_if (ltb max_publish_meta_bytes (length (encode raw_meta)))
        (problem 413 "invalid_publish_meta")
    meta ← require (parse_json raw_meta) (problem 400 "invalid_publish_meta")
    validate_publish_meta meta route
    submission env route meta bytes
