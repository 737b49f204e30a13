-- ===== src/OrgLogin/Redirects.antt =====
-- Where the login host sends a browser.
use zed_infra.Base.{
  String, Bool, true, false, not, ◌&&◌, ◌||◌, Option, none, some, List, [], ◌∷◌, ◌≡◌, ◌⊎◌, inl, inr,
  refl, ◌===◌, ◌⧺◌, Bool-cases, Option-cases, split, if◌then◌else◌,
}
use zed_infra.Origin.{header_get, header_set}
use zed_infra.Registry.{Response}
use zed_infra.OrgLogin.{
  is_org_slug, normalize_login_path, Login, organization, generic, rejected, slug_login,
  login_segments, queried, organization_from, redirect_to, login_problem, login_reply, org_fetch,
}

-- A redirect goes to the sign-in page and nowhere else, with at most the page of one organisation to
-- come back to.
pub data IsLoginReply (reply : Response) : Type 0 where
  refused : (reply.status ≡ 404) ⊎ (reply.status ≡ 405) → IsLoginReply reply
  to_sign_in :
      reply.status ≡ 302
      → header_get "location" reply.headers ≡ some "https://app.zpkg.net/auth/sign-in"
      → IsLoginReply reply
  to_organization :
      (org : String)
      → is_org_slug org ≡ true
      → reply.status ≡ 302
      → header_get "location" reply.headers
        ≡ some ("https://app.zpkg.net/auth/sign-in?return_to=%2Forgs%2F" ⧺ org)
      → IsLoginReply reply

data IsCanonical : Login → Type 0 where
  is_rejected : IsCanonical rejected
  is_generic : IsCanonical generic
  is_organization : (org : String) → is_org_slug org ≡ true → IsCanonical (organization org)

either :
    (test : Bool) {a b : Login}
    → IsCanonical a
    → IsCanonical b
    → IsCanonical (if test then a else b)
either true p q = p
either false p q = q

slug_login-IsCanonical : (s : String) → IsCanonical (slug_login s)
unfolding slug_login
slug_login-IsCanonical s = elim (Bool-cases (is_org_slug s)) [
  | inl e ↦ rw (e, slug_login) (is_organization s e)
  | inr e ↦ rw (e, slug_login) is_rejected
]

login_segments-IsCanonical : (segments : List String) → IsCanonical (login_segments segments)
unfolding login_segments
login_segments-IsCanonical (e ∷ org ∷ []) = either _ (slug_login-IsCanonical org) is_rejected
login_segments-IsCanonical (e ∷ first ∷ second ∷ []) =
    either _ (slug_login-IsCanonical second) (either _ (slug_login-IsCanonical first) is_rejected)
login_segments-IsCanonical [] = is_rejected
login_segments-IsCanonical (e ∷ []) = is_rejected
login_segments-IsCanonical (e ∷ a ∷ b ∷ c ∷ more) = is_rejected

queried-IsCanonical : (org : Option String) → IsCanonical (queried org)
unfolding queried
queried-IsCanonical none = is_generic
queried-IsCanonical (some org) = either (org === "") is_generic (slug_login-IsCanonical org)

organization_from-IsCanonical :
    (pathname : String) (org : Option String) → IsCanonical (organization_from pathname org)
unfolding organization_from
organization_from-IsCanonical pathname org = elim (Option-cases (normalize_login_path pathname)) [
  | inl e ↦ rw (e, organization_from) is_rejected
  | inr (path, e) ↦
      rw (e, organization_from)
        (either (path === "/" || path === "/login") (queried-IsCanonical org)
          (login_segments-IsCanonical (split b'/' path)))
]

login_reply-IsLoginReply :
    (method : String) (login : Login) → IsCanonical login → IsLoginReply (login_reply method login)
unfolding login_reply redirect_to login_problem header_get header_set
login_reply-IsLoginReply method login is_rejected = refused (inl refl)
login_reply-IsLoginReply method login is_generic = to_sign_in refl refl
login_reply-IsLoginReply method login (is_organization org e) = to_organization org e refl refl

-- The login host answers every request with 404, 405 or a redirect. A redirect goes to the sign-in
-- page of the application, either alone or with one parameter, which names the page of an
-- organisation whose name is a slug of at most 64 characters; the client chooses nothing else.
pub org_fetch-IsLoginReply :
    (method pathname : String) (org : Option String) → IsLoginReply (org_fetch method pathname org)
unfolding org_fetch login_problem
org_fetch-IsLoginReply method pathname org =
    elim (Bool-cases (not (method === "GET") && not (method === "HEAD"))) [
      | inl e ↦ rw (e, org_fetch) (refused (inr refl))
      | inr e ↦
          rw (e, org_fetch)
            (login_reply-IsLoginReply method _ (organization_from-IsCanonical pathname org))
    ]
