-- ===== src/Tests/Plans.antt =====
-- Plans and broker contexts of the sample claims.
use zed_infra.Base.{
  true, none, some, strip_slashes, strip_prefix, [], ◌∷◌, ◌≡◌, refl, ok, ◌>>=◌, ◌>>◌, reject_if,
  require, find, split, includes,
}
use zed_infra.Capability.{Grant, Url, Runtime}
use zed_infra.Capability.Checks.{is_supported_capability_version}
use zed_infra.Capability.Plan.{
  plain_segment, path_is_within, path_begins_with_segments, grants_request,
  assert_provider_destination, plan_provider_request, broker_context_from_capability,
}
use zed_infra.Capability.Plan.Confined.{IsPlanFor, plan_provider_request-IsPlanFor}
use zed_infra.Tests.Samples.{runtime, claims, request, plan, context}

sample_path :
    path_begins_with_segments some "/acme/tools-src/archive/v1.zip" ("acme" ∷ "tools-src" ∷ [])
    ≡ true
unfolding path_begins_with_segments split plain_segment includes
sample_path = refl

pub sample_plan : plan_provider_request runtime (some claims) request ≡ ok plan
unfolding plan_provider_request ◌>>=◌ ◌>>◌ reject_if require is_supported_capability_version find
    grants_request assert_provider_destination split path_begins_with_segments plain_segment
    includes
sample_plan = refl

pub sample_context : broker_context_from_capability (some claims) ≡ ok context
unfolding broker_context_from_capability ◌>>=◌ ◌>>◌ reject_if require
sample_context = refl

plan_provider_request-IsPlanFor_example : IsPlanFor runtime claims request plan
plan_provider_request-IsPlanFor_example =
    plan_provider_request-IsPlanFor runtime claims request sample_plan

-- The package `@acme/tools` is granted.
abbrev npm_grant : Grant
npm_grant = record {
  provider = "npm";
  operation = "read";
  package_name = "acme/tools";
  resource = "@acme/tools";
  origin = none;
  credential_ref = "ref-2";
}

abbrev escaping_url : Url
escaping_url = record {
  href = "https://registry.npmjs.org/@acme%2Ftools%2F..%2F..%2Fother";
  protocol = "https:";
  username = "";
  password = "";
  hostname = "registry.npmjs.org";
  port = "";
  pathname = "/@acme%2Ftools%2F..%2F..%2Fother";
  search = "";
  hash = "";
  origin = "https://registry.npmjs.org";
}

abbrev decoding : Runtime
decoding = record runtime { decode_uri = λ s. some "/@acme/tools/../../other" }

-- Encoded dot segments pass for npm.
npm_dot_segments :
    assert_provider_destination decoding npm_grant escaping_url escaping_url.href ≡ ok tt
unfolding assert_provider_destination path_is_within strip_slashes strip_prefix ◌>>=◌ ◌>>◌ reject_if
    require
npm_dot_segments = refl
