-- ===== src/Tests/Mirrors.antt =====
-- A mirror with an empty bucket, and a server that redirects twice.
use zed_infra.Base.{String, true, false, none, some, [], ◌∷◌, ◌===◌, if◌then◌else◌}
use zed_infra.Json.{undefined}
use zed_infra.Registry.{empty}
use zed_infra.Cdn.Mirror.{CdnRequest, Upstream, Web, fetch_with_validated_redirects}
use zed_infra.Cdn.Mirror.Redirected.{IsFollowed, fetch_with_validated_redirects-IsFollowed}
use zed_infra.Cdn.Service.{CdnServices, cdn_fetch}
use zed_infra.Cdn.Service.Disclosed.{IsServed, cdn_fetch-IsServed}

abbrev moved_to : String → Upstream
moved_to url = record { status = 302; headers = ("location", url) ∷ []; body = [] }

abbrev found : Upstream
found = record { status = 200; headers = ("content-length", "3") ∷ []; body = 1 ∷ 2 ∷ 3 ∷ [] }

abbrev web : Web
web = record {
  fetch = λ url.
      if url === "https://github.com/a"
      then some (moved_to "/b")
      else if url === "https://github.com/b"
      then some (moved_to "/c")
      else some found;
  resolve = λ location base.
      some (if location === "/b" then "https://github.com/b" else "https://github.com/c");
}

fetch_with_validated_redirects-IsFollowed_example :
    IsFollowed web
      (λ url. true)
      "https://github.com/a"
      4
      (fetch_with_validated_redirects web (λ url. true) "https://github.com/a")
fetch_with_validated_redirects-IsFollowed_example =
    fetch_with_validated_redirects-IsFollowed web (λ url. true) "https://github.com/a"

abbrev mirror : CdnServices
mirror = record {
  artifacts = some (λ key headers. none);
  web = λ method. web;
  parse_url = λ s. none;
  number = λ s. undefined;
  native_host = λ org. none;
  native_urls = λ host name release filename. [];
  native_allowed = λ host url name release. false;
  bootstrap = λ method. record { status = 200; headers = []; body = empty };
}

abbrev asked_for : CdnRequest
asked_for = record {
  method = "GET";
  pathname = "/metadata/acme/tools/versions/1.0.0.json";
  headers = [];
}

cdn_fetch-IsServed_example : IsServed mirror asked_for (cdn_fetch mirror asked_for)
cdn_fetch-IsServed_example = cdn_fetch-IsServed mirror asked_for
