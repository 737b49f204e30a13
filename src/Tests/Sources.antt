-- ===== src/Tests/Sources.antt =====
-- A capability for a private repository, and a broker that answers for it.
use zed_infra.Base.{
  true, false, none, some, [], ◌∷◌, ◌≡◌, refl, ok, ◌>>=◌, ◌>>◌, reject_if, require, size, member,
}
use zed_infra.Json.{
  Json, int, str, obj, field, end, get, is_str, is_record, is_object_like, as_nat, checked,
}
use zed_infra.PrivateSource.{
  on_github, SourceRequest, SourceCredential, SourceRuntime, bounded_string, two_texts,
  validate_resource, names_resource, broker_request_from_capability, same_resource, kind_of,
  validate_credential, request_source_credential,
}
use zed_infra.PrivateSource.Issued.{IsIssued, request_source_credential-IsIssued}

abbrev repository : Json
repository = obj (field "owner" (str "acme") (field "repo" (str "tools-src") end))

abbrev capability : Json
capability = obj (
    field "subject" (str "user-1") (
      field "jti" (str "capability-1") (
        field "exp" (int 1200) (
          field "proof"
            (obj (
              field "sessionId" (str "session-1")
                (field "authEpoch" (int 1) (field "policyEpoch" (int 2) end))))
            (field "source"
              (obj (
                field "provider" (str "github")
                  (field "owner" (str "acme") (field "repo" (str "tools-src") end))))
              end)))))

abbrev source_request : SourceRequest
source_request = record {
  provider = "github";
  resource = on_github "acme" "tools-src";
  principal = "user-1";
  session_id = "session-1";
  capability_id = "capability-1";
  auth_epoch = int 1;
  policy_epoch = int 2;
  expires_at = int 1200;
}

abbrev broker_answer : Json
broker_answer = obj (
    field "schema" (str "zed.private-source-credential.v1") (
      field "provider" (str "github") (
        field "kind" (str "github-app-installation") (
          field "token" (str "ghs_1")
            (field "expiresAt" (int 1150) (field "resource" repository end))))))

abbrev source_runtime : SourceRuntime
source_runtime = record {
  fetch = λ request. some (record { successful = true; content_length = none; body = 1 ∷ [] });
  exceeds = λ text n. false;
  decode = λ bytes. "answer";
  parse_json = λ text. some broker_answer;
}

abbrev source_credential : SourceCredential
source_credential = record {
  provider = "github";
  kind = "github-app-installation";
  token = "ghs_1";
  expires_at = 1150;
  resource = on_github "acme" "tools-src";
}

sample_made : broker_request_from_capability capability "github" repository ≡ ok source_request
unfolding broker_request_from_capability is_object_like member validate_resource two_texts
    bounded_string names_resource get is_str is_record checked size ◌>>=◌ ◌>>◌ reject_if require
sample_made = refl

sample_answered :
    request_source_credential (some source_runtime) source_request 1100 ≡ ok source_credential
unfolding request_source_credential validate_credential validate_resource two_texts bounded_string
    same_resource kind_of get is_str is_record as_nat checked size ◌>>=◌ ◌>>◌ reject_if require
sample_answered = refl

request_source_credential-IsIssued_example :
    IsIssued
      (some source_runtime)
      source_request
      capability
      "github"
      repository
      1100
      source_credential
request_source_credential-IsIssued_example =
    request_source_credential-IsIssued (some source_runtime) capability "github" repository 1100
      sample_made sample_answered
