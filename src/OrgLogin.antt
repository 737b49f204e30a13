-- ===== src/OrgLogin.antt =====
-- workers/org-proxy/src/index.js: the login host of organisations, which only redirects.
pub mod Redirects
use zed_infra.Base.{
  ℕ, String, code, Bool, true, false, not, ◌&&◌, ◌||◌, Option, none, some, List, [], ◌∷◌, ◌++◌, leb,
  ltb, ◌==◌, ◌===◌, ◌⧺◌, size, every, includes, contains, split, strip_slashes, is_lower_alnum,
  if◌then◌else◌,
}
use zed_infra.Json.{str, bool, obj, field, end}
use zed_infra.Origin.{Headers, header_set}
use zed_infra.Registry.{Content, empty, value, Response, set_all}

first_is : (ℕ → Bool) → String → Bool
first_is p String.[] = false
first_is p (String.◌∷◌ c s) = p (code c)

last_is : (ℕ → Bool) → String → Bool
last_is p String.[] = false
last_is p (String.◌∷◌ c s) = let rest = last_is p s in if s === "" then p (code c) else rest

-- `ORG_SLUG`: `/^[a-z0-9](?:[a-z0-9-]{0,62}[a-z0-9])?$/`
unfoldable pub is_org_slug : String → Bool
unfolding first_is last_is every is_lower_alnum size
is_org_slug s =
    every (λ c. is_lower_alnum c || c == b'-') s
    && first_is is_lower_alnum s
    && last_is is_lower_alnum s
    && leb (size s) 64

-- `normalizePath`
unfoldable pub normalize_login_path : String → Option String
unfolding size includes contains strip_slashes
normalize_login_path pathname =
    let path = strip_slashes pathname in
    if ltb 512 (size pathname)
      || includes b'%' pathname
      || includes 0x5c pathname
      || includes 0 pathname
      || contains "//" pathname
      || contains ".." pathname
    then none
    else some (if path === "" then "/" else path)

-- What `organizationFrom` answers: a slug, null, or false.
pub data Login : Type 0 where
  organization : String → Login
  generic rejected : Login

unfoldable pub slug_login : String → Login
unfolding is_org_slug
slug_login s = if is_org_slug s then organization s else rejected

-- the paths of an organisation, by their segments, of which none is empty but the first
unfoldable pub login_segments : List String → Login
unfolding slug_login
login_segments (e ∷ org ∷ []) =
    if e === "" && not (org === "orgs") && not (org === "login") then slug_login org else rejected
login_segments (e ∷ first ∷ second ∷ []) =
    if e === "" && first === "orgs" && not (second === "")
    then slug_login second
    else if e === "" && second === "login" && not (first === "orgs") && not (first === "login")
    then slug_login first
    else rejected
login_segments _ = rejected

unfoldable pub queried : Option String → Login
unfolding slug_login
queried none = generic
queried (some org) = if org === "" then generic else slug_login org

-- `organizationFrom`, for a path and the query's first `org`
unfoldable pub organization_from : String → Option String → Login
unfolding normalize_login_path queried login_segments split
organization_from pathname org = elim (normalize_login_path pathname) [
  | none ↦ rejected
  | some path ↦
      if path === "/" || path === "/login" then queried org else login_segments (split b'/' path)
]

abbrev pub login_headers : Headers
login_headers =
    ("cache-control", "no-store")
    ∷ ("permissions-policy", "camera=(), geolocation=(), microphone=()")
    ∷ ("referrer-policy", "no-referrer")
    ∷ ("x-content-type-options", "nosniff")
    ∷ ("x-robots-tag", "noindex, nofollow")
    ∷ ("x-zed-edge", "org.zpkg.net")
    ∷ []

unfoldable pub login_problem : String → ℕ → String → Headers → Response
unfolding set_all
login_problem method status code extra = record {
  status = status;
  headers = set_all (("content-type", "application/json; charset=utf-8") ∷ extra) login_headers;
  body =
      if method === "HEAD"
      then empty
      else value (obj (field "ok" (bool false) (field "code" (str code) end)));
}

abbrev pub sign_in : String
sign_in = "https://app.zpkg.net/auth/sign-in"

-- A slug has no character that a query encodes.
unfoldable pub redirect_to : String → Response
unfolding header_set
redirect_to location = record {
  status = 302;
  headers = header_set "location" location login_headers;
  body = empty;
}

unfoldable pub login_reply : String → Login → Response
unfolding redirect_to login_problem
login_reply method rejected = login_problem method 404 "not_org_login_route" []
login_reply method generic = redirect_to sign_in
login_reply method (organization org) = redirect_to (sign_in ⧺ "?return_to=%2Forgs%2F" ⧺ org)

-- `fetch`
unfoldable pub org_fetch : String → String → Option String → Response
unfolding login_problem organization_from login_reply
org_fetch method pathname org =
    if not (method === "GET") && not (method === "HEAD")
    then login_problem method 405 "method_not_allowed" (("allow", "GET, HEAD") ∷ [])
    else login_reply method (organization_from pathname org)
