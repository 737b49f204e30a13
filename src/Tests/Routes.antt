-- ===== src/Tests/Routes.antt =====
-- A read of a package, and the paths of its coordinates.
use zed_infra.Base.{
  String, none, some, ◌≡◌, refl, size, every, includes, contains, split, strip_prefix,
  strip_slashes, member, is_lower_alnum, is_alnum, is_digit, one_of, matches,
}
use zed_infra.Http.{to_upper}
use zed_infra.Capability.{slug}
use zed_infra.Publish.{sha256_form}
use zed_infra.Route.{
  fallback_read, origin_write, classify_registry_request, classify_route, match_registry_route,
  normalize_path, matches_spec, fits, registry_route_specs, dashed, dashed_or_native,
  native_coordinate, version_segment, is_slug, is_package_name_segment, safe_version, get_version,
  parse_segments, parse_registry_path,
}
use zed_infra.Route.Decided.{IsDecision, route_name, classify_registry_request-IsDecision}
use zed_infra.Route.Coordinates.{IsReading, fallback_read-IsReading}

abbrev pub package_path : String
package_path = "/v1/packages/acme/tools"

abbrev pub version_path : String
version_path = "/v1/packages/acme/tools/versions/1.0.0"

classify_registry_request-IsDecision_example :
    IsDecision
      (to_upper "Put")
      (route_name (match_registry_route version_path))
      (classify_registry_request "Put" version_path)
classify_registry_request-IsDecision_example =
    classify_registry_request-IsDecision "Put" version_path

pub sample_read : (classify_registry_request "GET" version_path).action ≡ fallback_read
unfolding classify_registry_request classify_route match_registry_route normalize_path matches_spec
    fits registry_route_specs dashed dashed_or_native native_coordinate version_segment to_upper
    size includes contains split strip_slashes every is_lower_alnum is_alnum is_digit one_of matches
    strip_prefix member
sample_read = refl

pub sample_put : (classify_registry_request "PUT" version_path).action ≡ origin_write
unfolding classify_registry_request classify_route match_registry_route normalize_path matches_spec
    fits registry_route_specs dashed dashed_or_native native_coordinate version_segment to_upper
    size includes contains split strip_slashes every is_lower_alnum is_alnum is_digit one_of matches
    strip_prefix member
sample_put = refl

pub sample_parsed : parse_registry_path version_path ≡ some (get_version "acme" "tools" "1.0.0")
unfolding parse_registry_path parse_segments normalize_path is_slug is_package_name_segment
    safe_version slug size includes contains split strip_slashes every is_lower_alnum is_alnum
    is_digit one_of matches strip_prefix sha256_form
sample_parsed = refl

fallback_read-IsReading_example :
    (path : String) × (normalize_path version_path ≡ some path)
    × IsReading (split b'/' path) (parse_registry_path version_path)
fallback_read-IsReading_example = fallback_read-IsReading "GET" version_path sample_read

-- A name with two dashes in a row is routed, and read by nobody.
abbrev doubled_path : String
doubled_path = "/v1/packages/a--b/tools"

doubled_read : (classify_registry_request "GET" doubled_path).action ≡ fallback_read
unfolding classify_registry_request classify_route match_registry_route normalize_path matches_spec
    fits registry_route_specs dashed dashed_or_native native_coordinate version_segment to_upper
    size includes contains split strip_slashes every is_lower_alnum is_alnum is_digit one_of matches
    strip_prefix member
doubled_read = refl

doubled_parsed : parse_registry_path doubled_path ≡ none
unfolding parse_registry_path parse_segments normalize_path is_slug is_package_name_segment
    safe_version slug size includes contains split strip_slashes every is_lower_alnum is_alnum
    is_digit one_of matches strip_prefix sha256_form
doubled_parsed = refl
