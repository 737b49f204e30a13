-- ===== src/Tests/OrgLogins.antt =====
-- Requests of the login host.
use zed_infra.Base.{none, some, ◌≡◌, refl, size, every, includes, contains, split, strip_slashes}
use zed_infra.OrgLogin.{
  organization, rejected, is_org_slug, slug_login, login_segments, queried, normalize_login_path,
  organization_from, org_fetch,
}
use zed_infra.OrgLogin.Redirects.{IsLoginReply, org_fetch-IsLoginReply}

login_path : organization_from "/acme/login/" none ≡ organization "acme"
unfolding organization_from normalize_login_path login_segments slug_login is_org_slug split
    strip_slashes size every includes contains
login_path = refl

login_other_page : organization_from "/acme/settings" none ≡ rejected
unfolding organization_from normalize_login_path login_segments slug_login is_org_slug split
    strip_slashes size every includes contains
login_other_page = refl

login_bad_query : organization_from "/" (some "-acme") ≡ rejected
unfolding organization_from normalize_login_path queried slug_login is_org_slug split strip_slashes
    size every includes contains
login_bad_query = refl

org_fetch-IsLoginReply_example : IsLoginReply (org_fetch "GET" "/orgs/acme" none)
org_fetch-IsLoginReply_example = org_fetch-IsLoginReply "GET" "/orgs/acme" none
