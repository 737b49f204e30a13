-- ===== src/Lib.antt =====
-- Verification of the zed-infra edge workers.
--
-- The workers stand between package clients and the registry. When the registry's origin is down, a
-- worker may serve a private package from its provider. The registry has beforehand signed a short
-- lived capability (a JWT) that names what may be read. The worker verifies the capability against
-- a pinned set of keys, plans one request to the provider for one of its grants, and asks an
-- internal broker for a credential of that scope. Public packages are served from a bucket into
-- which authorized publishers write versions: the registry's proxy takes a publish when the origin
-- is down and reads the bucket back, and the CDN's proxy serves its files. A lease keeps two
-- deployments of one worker apart.
--
-- Parts and files:
--   Base and its children: Booleans, numbers, lists, texts, and results of code that throws, with
--     the lemmas that take a block of checks apart one check at a time.
--   Json: JavaScript values as the code tests them. Http: header values (`hasNoStore` and the JSON
--     media type of workers/shared/provider-credential-broker.js).
--   Capability: workers/shared/edge-capability.js. Checks has its small checks; Grants has
--     `validateGrant` and `validateProviderResource`; ClaimSet has `validateClaims`; Outage has
--     `validateOutageAdmission`; Token has `verifyEdgeCapability`, `parseJwks` and the decoding of
--     segments; Plan has `planProviderRequest`, `assertProviderDestination` and
--     `brokerContextFromCapability`. ClaimSet/Stages, ClaimSet/Valid, Token/Keys, Token/Verified,
--     Plan/Paths, Plan/Reach, Plan/Confined and Plan/Context hold the proofs.
--   Broker: workers/shared/provider-credential-broker.js. `broker_request` is
--     `requestProviderCredential` up to the call of the broker; Credential has
--     `validateGithubCredential`; Exchange has the answer and the whole exchange; Gate relates the
--     client's own checks to those of Capability.
--   Visibility: workers/shared/public-visibility.js.
--   Publish: workers/shared/edge-publish.js. The parent has the keys, `validatePublishMeta` and
--     `buildVersionMetadata`; Upload has `handleEdgePublish` up to its first write, with
--     `authorizePublish` and `secretsMatch`; Bucket is the interface of the R2 binding; Claim has
--     the two writes, the whole handler, and the steps of publishes that interleave. Keys, Formats,
--     Admission, Claim/Kept, Claim/Handled and Claim/Installable hold the proofs. The body is read
--     to its end or to the chunk that is too much before the form is parsed; a parser that fails
--     earlier gives a refusal too. A document is kept as its fields, not as their JSON text. The
--     mirror to GitHub Packages after a 201 is left out: it writes nothing to the bucket. Document
--     has `readJsonObject` and `r2VersionMetadata`, and Listing `r2PackageMetadata` with its paging;
--     Document/Readable, Document/ReadBack, Listing/Paged and Listing/Derived hold the proofs.
--   PrivateSource: workers/shared/private-source-broker.js, with the broker's binding as a parameter
--     (`SourceRuntime`). Issued holds the proofs.
--   OrgLogin: workers/org-proxy/src/index.js, for a path and the query's first `org`. Redirects holds
--     the proofs.
--   Origin: workers/shared/origin-transition.js and the handler of workers/shared/origin-proxy.js,
--     with `originIsUnavailable` and `HOP_BY_HOP` of workers/shared/github-fallback.js. The fetch of
--     the origin, with its deadline, is a parameter. Forwarded, Decided and Configured hold the
--     proofs.
--   Route: of workers/shared/github-fallback.js the routes of the registry's hostname, with
--     `classifyRegistryRequest` and `parseRegistryPath`. A route's pattern is the list of the tests
--     of its segments. Decided and Coordinates hold the proofs.
--   Registry: workers/registry-proxy/src/index.js. The parent has the responses and the calls of the
--     origin and of the CDN binding; Handler has `fetch`, which takes the bucket to the bucket
--     afterwards and keeps what the origin was asked. The native and the GitHub source are
--     parameters of it. `ORIGIN_URL` is taken to be a well-formed URL. Handler/Run, Handler/Replies
--     and Handler/Served hold the proofs. Sidecar has `versionFromGithubSidecar`, the first step of
--     the GitHub source, and Release the source for a version as a whole, `githubPublicFallback` with
--     the REST API of GitHub; Sidecar/Validated, Sidecar/Trusted,
--     Release/Chosen and Release/Proven hold their proofs.
--   Cdn: workers/cdn-proxy/src/index.js. The parent has the keys and, of github-fallback.js,
--     `parseCdnPath` and the URLs of release files; Mirror has `getR2`,
--     `fetchWithValidatedRedirects` and the tests of a public response; Service has the sources and
--     `fetch`, with the keys read and the URLs fetched. Mirror/Redirected, Service/Allowed and
--     Service/Disclosed hold
--     the proofs.
--   Lease: workers/scripts/cf-lease.mjs. What others do between the two reads of a lease is a
--     function on the account's state. A worker's name is a text and a time to live is a natural
--     number or no finite number. Acquired holds the proofs.
--   Tests and its children: sample inputs.
--
-- How the code is modelled. A function that throws returns a result with the error's code; messages
-- are left out. Checks stand in the order of the source. Times are the native natural numbers: the
-- code has tested of the times in documents that they are safe integers that are not negative, and
-- a difference is only taken where it is not negative or is written as a sum. The clock's time is
-- taken to be such a number as well; the code does not test one that a caller passes in its
-- place. A broker's times may be negative and are differences of two naturals. A text is a sequence of characters with lengths in UTF-16 units;
-- lone surrogates do not occur. A regular expression is the recognizer of its language. Parsing of
-- JSON and of URLs, percent and base64 decoding, WebCrypto, the clock, form parsing, and the
-- bindings to services are parameters (`Runtime`, `BrokerRuntime` and the records of Publish).
-- A loop of the modelled code is recursion on its list or text, or on the number of rounds that the
-- code still allows (10 pages, 3 redirects); the printing of a number recurs on the number. The
-- bounds chosen here, on an npm name and on a version in a path, exceed every text that is tested.
--
-- Not modelled: the native public registries, the registry's native source, and of its GitHub source
-- the listing of a package (the release feed and the tags); public intake and the GHCR mirror; the
-- other scripts, Terraform, Kubernetes and databases.
pub mod Base
pub mod Json
pub mod Capability
pub mod Http
pub mod Broker
pub mod Visibility
pub mod Publish
pub mod Origin
pub mod Route
pub mod Registry
pub mod Lease
pub mod Cdn
pub mod PrivateSource
pub mod OrgLogin
mod Tests
