-- ===== src/Tests/Admissions.antt =====
-- Capabilities that are used during an outage.
use zed_infra.Base.{some, [], ◌≡◌, ◌↔◌, refl, ok, ◌>>=◌, ◌>>◌, reject_if, require}
use zed_infra.Json.{Json, int, get, is_record, as_nat, obj, field, end}
use zed_infra.Capability.{Claims}
use zed_infra.Capability.Checks.{bounded_integer}
use zed_infra.Capability.Outage.{
  OutagePolicy, outage_window, read_policy, admit, IsAdmitted, admit_iff,
}

abbrev raw_policy : Json
raw_policy = obj (
    field "startedAtEpochSeconds" (int 900) (
      field "jwksRefreshedAtEpochSeconds" (int 950) (
        field "minimumAssurance" (int 1) (
          field "minimumSessionEpoch" (int 3) (
            field "minimumPolicyEpoch" (int 4) (
              field "maxCapabilityAgeSeconds" (int 200) (
                field "maxRevocationAgeSeconds" (int 200) (
                  field "maxJwksAgeSeconds" (int 300)
                    (field "maxOutageSeconds" (int 300) end)))))))))

abbrev outage : OutagePolicy
outage = record {
  started_at = 900;
  jwks_refreshed_at = 950;
  minimum_assurance = 1;
  minimum_session_epoch = 3;
  minimum_policy_epoch = 4;
  max_capability_age = 200;
  max_revocation_age = 200;
  max_jwks_age = 300;
  max_outage = 300;
}

sample_policy : read_policy raw_policy ≡ ok outage
unfolding read_policy ◌>>=◌ ◌>>◌ reject_if require is_record get as_nat bounded_integer
    outage_window
sample_policy = refl

abbrev claims_v3 : Claims
claims_v3 = record {
  zed_edge_capability = 3;
  iss = "https://api";
  aud = "zed-edge-fallback";
  sub = "user-1";
  sid = some "session-1";
  parent_jti = some "parent-1";
  assurance = some 2;
  session_epoch = some 3;
  policy_epoch = some 5;
  revocation_checked_at = some 990;
  iat = 1000;
  nbf = 1000;
  exp = 1200;
  jti = "capability-1";
  grants = [];
}

admit_iff_example :
    (admit outage claims_v3 1100 ≡ ok tt) ↔ IsAdmitted outage claims_v3 1100 2 3 5 990
admit_iff_example = admit_iff outage claims_v3 1100 2 3 5 990 refl refl refl refl
