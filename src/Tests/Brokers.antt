-- ===== src/Tests/Brokers.antt =====
-- An exchange of the sample token for a credential.
use zed_infra.Base.{not, true, ◌&&◌}
use zed_infra.Base.{
  none, ◌≡◌, refl, ok, ◌>>=◌, ◌>>◌, reject_if, require, size, every, split, includes, matches,
  is_alnum, one_of, member, min, ◌-◌, arith,
}
use zed_infra.Http.{has_no_store, is_json_type}
use zed_infra.Json.{
  str, undefined, get, keys, entries, is_record, is_str, checked, as_nat, as_int, or_else,
}
use zed_infra.Capability.{github_repository, credential_ref_form}
use zed_infra.Capability.Checks.{known_keys}
use zed_infra.Capability.ClaimSet.Valid.{validate_claims-IsValidClaims}
use zed_infra.Broker.{BrokerRequest, identifier, validate_plan, validate_context, broker_request}
use zed_infra.Broker.Credential.{
  validate_permissions, validate_github_credential, IsScoped, validate_github_credential-IsScoped,
}
use zed_infra.Broker.Exchange.{
  read_response, request_provider_credential, IsExchanged, exchange-IsExchanged,
}
use zed_infra.Broker.Gate.{
  broker_request_only_v2, validate_plan_of_planned, broker_request_accepted,
}
use zed_infra.Tests.Samples.{
  runtime, broker_runtime, policy, options, claims, raw_claims, request, plan, context,
  raw_credential, credential,
}
use zed_infra.Tests.Capabilities.{sample_verified, sample_claims}
use zed_infra.Tests.Plans.{sample_plan, sample_context}

abbrev body : BrokerRequest
body = record {
  version = 1;
  provider = "github";
  operation = "read";
  package_name = "acme/tools";
  resource = "acme/tools-src";
  credential_ref = "ref-1";
  principal = "user-1";
  session_lineage = "session-1";
  parent_jti = "parent-1";
  capability_id = "capability-1";
  requested_ttl_seconds = 100;
}

sample_body : broker_request plan context undefined 1100 ≡ ok body
unfolding broker_request validate_plan validate_context ◌>>=◌ ◌>>◌ reject_if require as_nat or_else
    size github_repository split every is_alnum one_of credential_ref_form matches identifier
sample_body = refl

sample_credential : validate_github_credential raw_credential plan context 1100 100 ≡ ok credential
unfolding validate_github_credential ◌>>=◌ ◌>>◌ reject_if require is_record known_keys keys member
    is_str get as_nat checked size includes as_int validate_permissions entries
sample_credential = refl

sample_exchange :
    request_provider_credential broker_runtime plan context undefined none ≡ ok credential
unfolding request_provider_credential ◌>>=◌ ◌>>◌ reject_if require read_response has_no_store
    is_json_type broker_request validate_plan validate_context as_nat or_else size github_repository
    split every is_alnum one_of credential_ref_form matches identifier validate_github_credential
    is_record known_keys keys member is_str get checked includes as_int validate_permissions entries
sample_exchange = refl

exchange-IsExchanged_example : IsExchanged claims request 1100 credential
exchange-IsExchanged_example =
    exchange-IsExchanged runtime broker_runtime (str "aa.bb.cc") options request undefined none
      sample_verified sample_plan sample_context sample_exchange

validate_github_credential-IsScoped_example :
    IsScoped raw_credential plan context 1100 100 credential
validate_github_credential-IsScoped_example =
    validate_github_credential-IsScoped raw_credential plan context 1100 100 sample_credential

broker_request_only_v2_example : claims.zed_edge_capability ≡ 2
broker_request_only_v2_example =
    broker_request_only_v2 runtime policy claims plan undefined 1100
      (validate_claims-IsValidClaims runtime policy raw_claims sample_claims) sample_context
      sample_body

validate_plan_of_planned_example : validate_plan plan ≡ ok tt
validate_plan_of_planned_example =
    validate_plan_of_planned runtime policy claims request
      (validate_claims-IsValidClaims runtime policy raw_claims sample_claims) sample_plan refl

broker_request_accepted_example :
    (b : BrokerRequest) × (broker_request plan context undefined 1100 ≡ ok b)
    × (b.resource ≡ "acme/tools-src")
    × (b.credential_ref ≡ "ref-1")
    × (b.capability_id ≡ "capability-1")
    × (b.requested_ttl_seconds ≡ min (1200 - 1100) 300)
unfolding identifier matches is_alnum one_of
broker_request_accepted_example =
    broker_request_accepted runtime policy claims request 1100
      (validate_claims-IsValidClaims runtime policy raw_claims sample_claims) refl refl
      (omega arith) refl sample_plan sample_context

json_types :
    (is_json_type "application/vnd.github+json; charset=utf-8"
      && is_json_type "Application/JSON"
      && not (is_json_type "text/json")
      && not (is_json_type "application/jsonp"))
    ≡ true
unfolding is_json_type
json_types = refl
