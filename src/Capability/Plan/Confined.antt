-- ===== src/Capability/Plan/Confined.antt =====
-- Where a provider request that is planned may go.
use zed_infra.Base.{
  true, false, some, ===_iff, find-eq-some, IsIn, ok, ◌≡◌, passed, followed, bound, returned,
  require-eq-ok, require, arith, ok-injective,
}
use zed_infra.Capability.{Grant, Claims, Url, Runtime}
use zed_infra.Capability.Plan.{Request, ProviderRequestPlan, grants_request, plan_provider_request}
use zed_infra.Capability.Plan.Reach.{Reaches, assert_provider_destination-Reaches}

module _ (rt : Runtime) where
  open rt use {decode_uri, parse_url}

  -- The plan of a request carries the credential reference of a grant of the claims that names the
  -- requested provider, package and resource; it is read-only, private and without the user's
  -- authorization; and its URL is https, has no credentials, and goes where `Reaches` allows.
  pub record IsPlanFor (c : Claims) (request : Request) (plan : ProviderRequestPlan) : Type 0 where
    pub grant : Grant
    pub url : Url
    pub granted : IsIn grant c.grants
    pub provider : grant.provider ≡ request.provider
    pub package_name : grant.package_name ≡ request.package_name
    pub resource : grant.resource ≡ request.resource
    pub parsed : parse_url request.url ≡ some url
    pub secure : url.protocol ≡ "https:"
    pub no_user : url.username ≡ ""
    pub no_password : url.password ≡ ""
    pub reaches : Reaches rt grant url request.url
    pub planned : plan ≡ record {
      provider = request.provider;
      operation = "read";
      package_name = request.package_name;
      resource = request.resource;
      url = url.href;
      credential_ref = grant.credential_ref;
      cache_policy = "private-no-store";
      forward_user_authorization = false;
    }

  grants_request-eq-true :
      (request : Request) (g : Grant)
      → grants_request request g ≡ true
      → (g.provider ≡ request.provider)
        × (g.package_name ≡ request.package_name)
        × (g.resource ≡ request.resource)
  unfolding grants_request
  grants_request-eq-true request g h = ground (
    arith,
    ===_iff g.provider request.provider,
    ===_iff g.package_name request.package_name,
    ===_iff g.resource request.resource,
  )

  -- If a plan is made, one of the capability's grants names the requested provider, package and
  -- resource, and the plan carries them with that grant's credential reference, only to read, as
  -- private and without the user's authorization. The requested URL parses to one that is https
  -- without user or password. For GitHub it is at one of three hosts, and every segment of its path
  -- decodes to a plain one, with no dot segment and no slash in it, the first being those of the
  -- granted repository. For Cargo it is the download of the granted crate at the granted origin,
  -- written without any alias. For npm it is at the registry, and its path as a whole decodes to a
  -- text that is the granted package's path or goes on after it with a slash; dot segments in that
  -- text are not excluded, so that the text `/@acme/tools/../../other` is allowed too.
  pub plan_provider_request-IsPlanFor :
      (c : Claims) (request : Request) {plan : ProviderRequestPlan}
      → plan_provider_request rt (some c) request ≡ ok plan
      → IsPlanFor c request plan
  unfolding plan_provider_request require
  plan_provider_request-IsPlanFor c request h = bound _ _ h λ claims given h₁.
      passed _ _ _ h₁ λ _ h₂. passed _ _ _ h₂ λ _ h₃. bound _ _ h₃ λ grant found h₄.
        bound _ _ h₄ λ url parsed h₅. passed _ _ _ h₅ λ clean h₆. followed _ _ h₆ λ reached h₇.
          let same : c ≡ claims = ok-injective given in
          let (listed, fits) =
            find-eq-some (grants_request request) claims.grants (require-eq-ok _ _ found) in
          let (provider, package_name, resource) = grants_request-eq-true request grant fits in
          let (https, user, password) : (url.protocol ≡ "https:")
              × (url.username ≡ "")
              × (url.password ≡ "") =
            ground (
              arith,
              ===_iff url.protocol "https:",
              ===_iff url.username "",
              ===_iff url.password "",
            ) in
          record {
            grant = grant;
            url = url;
            granted = rw same listed;
            provider = provider;
            package_name = package_name;
            resource = resource;
            parsed = require-eq-ok _ _ parsed;
            secure = https;
            no_user = user;
            no_password = password;
            reaches = assert_provider_destination-Reaches rt grant url request.url reached;
            planned =
                returned
                  (λ p. p ≡ record {
                    provider = request.provider;
                    operation = "read";
                    package_name = request.package_name;
                    resource = request.resource;
                    url = url.href;
                    credential_ref = grant.credential_ref;
                    cache_policy = "private-no-store";
                    forward_user_authorization = false;
                  })
                  h₇ (cc (provider, package_name, resource));
          }
