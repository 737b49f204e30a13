-- ===== src/Tests/Samples.antt =====
-- A runtime, a token, its claims, a request and a broker's answer.
use zed_infra.Base.{
  ℕ, String, Bool, true, false, Option, none, some, List, [], ◌∷◌, ◌==◌, ◌===◌, if◌then◌else◌,
}
use zed_infra.Json.{Json, undefined, int, str, arr, obj, nil, item, end, field}
use zed_infra.Capability.{Grant, Claims, Url, Runtime}
use zed_infra.Capability.ClaimSet.{Policy}
use zed_infra.Capability.Token.{Options}
use zed_infra.Capability.Plan.{Request, ProviderRequestPlan, BrokerContext}
use zed_infra.Broker.Credential.{Credential}
use zed_infra.Broker.Exchange.{BrokerResponse, BrokerRuntime}

abbrev pub header : Json
header =
    obj (field "alg" (str "ES256") (field "typ" (str "JWT") (field "kid" (str "edge-key-1") end)))

abbrev pub raw_grant : Json
raw_grant = obj (
    field "provider" (str "github") (
      field "operation" (str "read") (
        field "package" (str "acme/tools")
          (field "resource" (str "acme/tools-src") (field "credential_ref" (str "ref-1") end)))))

abbrev pub raw_claims : Json
raw_claims = obj (
    field "zed_edge_capability" (int 2) (
      field "iss" (str "https://api") (
        field "aud" (str "zed-edge-fallback") (
          field "sub" (str "user-1") (
            field "sid" (str "session-1") (
              field "parent_jti" (str "parent-1") (
                field "iat" (int 1000) (
                  field "exp" (int 1200) (
                    field "jti" (str "capability-1")
                      (field "grants" (arr (item raw_grant nil)) end))))))))))

abbrev pub key_1 : Json
key_1 = obj (
    field "kid" (str "edge-key-1")
      (field "kty" (str "EC") (field "crv" (str "P-256") (field "use" (str "sig") end))))

abbrev pub key_2 : Json
key_2 =
    obj (field "kid" (str "edge-key-2") (field "kty" (str "EC") (field "crv" (str "P-256") end)))

abbrev pub jwks : Json
jwks = obj (field "keys" (arr (item key_2 (item key_1 nil))) end)

abbrev pub options : Options
options = record {
  issuer = str "https://api";
  jwks = jwks;
  audience = none;
  now = none;
  max_ttl = undefined;
  clock_skew = undefined;
  outage = undefined;
}

abbrev pub repository_url : Url
repository_url = record {
  href = "https://github.com/acme/tools-src/archive/v1.zip";
  protocol = "https:";
  username = "";
  password = "";
  hostname = "github.com";
  port = "";
  pathname = "/acme/tools-src/archive/v1.zip";
  search = "";
  hash = "";
  origin = "https://github.com";
}

-- Three segments decode to bytes that stand for their texts.
abbrev sample_atob : String → Option (List ℕ)
sample_atob s =
    if s === "aa=="
    then some (1 ∷ [])
    else if s === "bb=="
    then some (2 ∷ [])
    else if s === "cc=="
    then some (3 ∷ [])
    else none

abbrev sample_utf8 : List ℕ → Option String
sample_utf8 [] = some ""
sample_utf8 (b ∷ bs) = if b == 1 then some "header" else if b == 2 then some "claims" else none

abbrev sample_parse : String → Option Json
sample_parse s =
    if s === "header" then some header else if s === "claims" then some raw_claims else none

abbrev sample_verify : ℕ → List ℕ → String → Bool
sample_verify key [] text = false
sample_verify key (b ∷ bs) text = if b == 3 then text === "aa.bb" else false

abbrev pub runtime : Runtime
runtime = record {
  clock = 1100;
  parse_json = sample_parse;
  parse_url = λ s.
      if s === "https://github.com/acme/tools-src/archive/v1.zip"
      then some repository_url
      else none;
  decode_uri = some;
  atob = sample_atob;
  utf8 = sample_utf8;
  import_key = λ k. some 7;
  verify = sample_verify;
}

abbrev pub policy : Policy
policy = record {
  issuer = "https://api";
  audience = "zed-edge-fallback";
  now = 1100;
  max_ttl = 300;
  clock_skew = 30;
}

abbrev pub grant : Grant
grant = record {
  provider = "github";
  operation = "read";
  package_name = "acme/tools";
  resource = "acme/tools-src";
  origin = none;
  credential_ref = "ref-1";
}

abbrev pub claims : Claims
claims = record {
  zed_edge_capability = 2;
  iss = "https://api";
  aud = "zed-edge-fallback";
  sub = "user-1";
  sid = some "session-1";
  parent_jti = some "parent-1";
  assurance = none;
  session_epoch = none;
  policy_epoch = none;
  revocation_checked_at = none;
  iat = 1000;
  nbf = 1000;
  exp = 1200;
  jti = "capability-1";
  grants = grant ∷ [];
}

abbrev pub request : Request
request = record {
  provider = "github";
  operation = none;
  package_name = "acme/tools";
  resource = "acme/tools-src";
  url = "https://github.com/acme/tools-src/archive/v1.zip";
}

abbrev pub plan : ProviderRequestPlan
plan = record {
  provider = "github";
  operation = "read";
  package_name = "acme/tools";
  resource = "acme/tools-src";
  url = "https://github.com/acme/tools-src/archive/v1.zip";
  credential_ref = "ref-1";
  cache_policy = "private-no-store";
  forward_user_authorization = false;
}

abbrev pub context : BrokerContext
context = record {
  principal = "user-1";
  session_lineage = "session-1";
  parent_jti = "parent-1";
  capability_id = "capability-1";
  capability_expires_at = 1200;
  assurance = none;
  session_epoch = none;
  policy_epoch = none;
  revocation_checked_at = none;
}

abbrev pub raw_credential : Json
raw_credential = obj (
    field "version" (int 1) (
      field "provider" (str "github") (
        field "kind" (str "github-app-installation") (
          field "resource" (str "acme/tools-src") (
            field "credential_ref" (str "ref-1") (
              field "capability_id" (str "capability-1") (
                field "access_token" (str "ghs_0123456789abcdef") (
                  field "issued_at" (int 1099) (
                    field "expires_at" (int 1200)
                      (field "permissions" (obj (field "contents" (str "read") end)) end))))))))))

abbrev pub credential : Credential
credential = record {
  resource = "acme/tools-src";
  credential_ref = "ref-1";
  capability_id = "capability-1";
  access_token = "ghs_0123456789abcdef";
  issued_at = record { up = 1099; down = 0 };
  expires_at = record { up = 1200; down = 0 };
  permissions = ("contents", str "read") ∷ [];
}

abbrev sample_response : BrokerResponse
sample_response = record {
  successful = true;
  cache_control = some "no-store";
  content_type = some "application/json";
  content_length = none;
  body = 4 ∷ [];
}

abbrev pub broker_runtime : BrokerRuntime
broker_runtime = record {
  fetch = λ body. sample_response;
  clock = 1100;
  exceeds = λ text n. false;
  decode = λ bytes. "credential";
  parse_json = λ text. some raw_credential;
}
