-- ===== src/Lib.antt =====
-- The WorkOS Node SDK: a client of an HTTP API, and what it does locally.
--
-- A `WorkOS` object (src/workos.ts) holds the API key, the client id and the base URL. Its verbs
-- `get`, `post`, `put`, `patch`, `delete` and `deleteWithBody` build the request headers and call
-- the `FetchHttpClient` (src/common/net/fetch-client.ts), which serializes the body, calls
-- `fetch` under a timeout, retries a failed call with waits between, and gives JSON or an error.
-- The verbs turn that error into one of the exceptions of src/common/exceptions
-- (`handleHttpError`). The resource classes call the verbs. Other parts do more than that. A
-- cookie session (src/user-management/session.ts) opens a sealed cookie
-- (src/common/crypto/seal.ts), verifies its access token, and exchanges its refresh token for a
-- new sealed cookie by one POST of the client. Webhooks and actions (src/webhooks, src/actions)
-- check the HMAC signature of a header over a payload (src/common/crypto/signature-provider.ts)
-- and then parse it. Feature flags (src/feature-flags) are polled by the client, kept in a store,
-- evaluated locally, and compared between polls to tell the listeners of an event emitter what
-- changed. Vault encryption (src/vault/vault.ts) gets a data key from the server, encrypts
-- locally, and writes one base64 text of the vector, the tag, the encrypted key behind its LEB128
-- length (src/common/utils/leb128.ts), and the ciphertext. A user signs in by a URL, whose query is
-- the sorted options and, for a public client, a PKCE challenge; the code that comes back, or another
-- credential, is exchanged by one POST for tokens, and these are sealed into a cookie if asked for.
--
-- Files:
--   Prelude, Prelude/Lists, Prelude/Results, Prelude/Bits: the shared names, Boolean tests on the
--     native numbers, lemmas on lists, `Result` for code that throws, and bits of a number.
--   Js, Js/Text: the JavaScript values that the code reads (`undefined`, objects by their fields,
--     truthiness, `??`), header dictionaries, and `split`, `trim`, `parseInt` on code points.
--   Http: src/common/net/http-client.ts and one attempt of fetch-client.ts (`fetchRequest`).
--     Http/Delay: `getRetryAfterMs`. Http/Backoff: `getSleepTimeInMilliseconds`. Http/Retry:
--     `withIdempotencyKey`, `shouldRetryRequest`, `fetchRequestWithRetry`, with what follows about
--     the loop in Loop and Idempotency. Http/Verbs: the verbs of the client and `toJSON`.
--   Client: the constructor and the verbs of src/workos.ts. Client/Exceptions:
--     src/common/exceptions. Client/Errors: `handleHttpError`.
--   Crypto, Crypto/Hex: src/common/crypto/subtle-crypto-provider.ts. Crypto/Toy: a concrete
--     instance of the platform for the tests, as are Seal/Toy and Base64/Toy.
--   Signature: src/common/crypto/signature-provider.ts and decode-payload.ts, `constructEvent`,
--     `constructAction`.
--   Seal: src/common/crypto/seal.ts.
--   Session: the session object. Session/Authenticate: `authenticate`, `isValidJwt`,
--     `getLogoutUrl`. Session/Refresh: `refresh` and the grant behind it in
--     src/user-management/user-management.ts, with what it makes of error responses in its
--     children: Faults (in JSON), Limits (429) and Unparsed (not JSON). Session/Classify: `classifyRefreshError`.
--   Flags: src/feature-flags/in-memory-store.ts and evaluator.ts. Flags/Changes: `emitChanges` and
--     `hasEntryChanged` of runtime-client.ts. Flags/Emitter: event-emitter.ts.
--     Flags/Runtime: the constructor, `poll`, `scheduleNextPoll` and `close` of runtime-client.ts,
--     with what follows about a closed client in Closed and about the delays in Delays.
--   Leb128: src/common/utils/leb128.ts, in Encode, Decode and RoundTrip what follows about it.
--   Base64: src/common/utils/base64.ts. Crypto/Aes: `encrypt` and `decrypt` of the crypto provider.
--   Vault: `encrypt`, `decrypt`, `createDataKey` and `decryptDataKey` of src/vault/vault.ts, with
--     the layout of a payload in Vault/Frame and what is read back in Vault/RoundTrip.
--   Pagination: src/common/utils/pagination.ts.
--   Query: src/common/utils/query-string.ts, with a reader of query strings in Query/RoundTrip.
--   Pkce: src/pkce/pkce.ts. Pkce/Encoder is the base64 of RFC 4648, for the tests.
--   AuthorizationUrl: `getAuthorizationUrl`, `getAuthorizationUrlWithPKCE` and `getJwksUrl` of
--     src/user-management/user-management.ts; AuthorizationUrl/Sso: the first two of
--     src/sso/sso.ts. AuthorizationUrl/Shown: the names under which the API takes the options.
--   Grants: the `authenticateWith…` methods of src/user-management/user-management.ts with their
--     serializers, and `getProfileAndToken` of src/sso/sso.ts. Grants/Cookie:
--     `authenticateWithSessionCookie` and `getSessionFromCookie`.
--   Authorization: src/authorization/authorization.ts, its endpoints in Authorization/Roles, Resources
--     and Assignments, the serializers of src/authorization/serializers in Serializers and Answers, and
--     src/common/utils/fetch-and-deserialize.ts. Methods and Routes: what each method asks for, and the
--     API's table of routes. Urls: the path of the URL that `getResourceURL` makes of an endpoint's path.
--   UserManagement: the endpoints of src/user-management/user-management.ts for users (in Users),
--     sessions, memberships, invitations (in Invitations) and codes (in Codes), with their
--     serializers.
-- The Laws modules hold what follows about the module that they stand under; the Tests modules
-- run the code on concrete inputs.
--
-- Code that is not in the repository is a parameter: the server behind `fetch` (what it gives at
-- the n-th call), the properties of the `Headers` object of a response, JSON, `URL` (for the routes
-- with the URL standard's word on paths of plain segments), `URLSearchParams`, `Date.parse`, the
-- clock, `Math.random`, the Web Crypto operations, base64, the order of `localeCompare` (what
-- `sort` makes of the keys), the UTF-8 decoder, iron-webcrypto and jose. Where something is said under a hypothesis on one of
-- them, the hypothesis is a binder of the theorem, and the tests give an instance that meets it.
--
-- Bounds and fuel: the retry loop has as much fuel as the limit of retries plus one, since each
-- round counts one up to the limit. The encoder of LEB128 has five rounds, one for each group of
-- seven bits of a 32-bit number. The decoder is recursive on the bytes. Pagination follows as
-- many pages as it is allowed, which is a number of the caller's, since a server may go on for
-- ever. Running out of fuel is a value of its own (`stuck`, `out_of_fuel`) that the source does
-- not have. Numbers that the code treats as 32 bits wide have `% 2 ^ 32` written out.
-- Milliseconds are natural numbers, and a random draw is a fraction of two of them.
--
-- Not modelled: the other methods of the resource classes, one call of a verb each between two
-- renamings of fields; `getLogoutUrl` of user management, which the URL class of the runtime
-- writes; in the flags client the race of a request with its timer and its abort,
-- `waitUntilReady` and the logger; telemetry and warnings; the detection of the runtime; the waits
-- themselves, which appear as entries of the log of a run, or as the delay of a timer.
pub mod Prelude
pub mod Js
pub mod Http
pub mod Client
pub mod Crypto
pub mod Signature
pub mod Seal
pub mod Session
pub mod Flags
pub mod Leb128
pub mod Base64
pub mod Vault
pub mod Pagination
pub mod Query
pub mod Pkce
pub mod AuthorizationUrl
pub mod Grants
pub mod Authorization
pub mod UserManagement
