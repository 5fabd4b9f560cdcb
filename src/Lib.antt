-- ===== src/Lib.antt =====
-- Verification library of the Claude gateway plugin: the Go package `gateway` under
-- backend/internal/gateway. A host process selects an account and hands a request to the plugin; the
-- plugin keeps the account's token fresh, takes a pooled connection, forwards the request, passes the
-- answer on, and reports a verdict and the usage. The library models the parts that keep state.
--
-- The parts, how they interact, and the files (Go files in backend/internal/gateway):
--   TokenManager: token_manager.go. `ensure_valid_token` (ensureValidToken) runs before a request is
--     forwarded; it leads to `do_refresh` (doRefresh) or `session_key_exchange`
--     (ensureSessionKeyExchange), each a critical section of the account's state, which
--     TokenManager/States keeps in a bounded map (getState). TokenManager/Refresh has the operations.
--   OAuth: oauth.go and the local part of shared_oauth.go. The store of sessions (Set, Get, Delete,
--     CleanExpired, consume); OAuth/Flow has StartOAuth and HandleOAuthCallback, OAuth/Code the code
--     with its state and the choice of the organization, OAuth/Verifier the random verifier,
--     OAuth/SessionKey the exchange of a session key (ExchangeSessionKeyForToken).
--   Stream: stream.go. Stream/Loop is handleStreamResponse, Stream/Events observeSSEEvent and what it
--     calls, Stream itself extractSSEData and applyAnthropicUsageNode. It fills the usage of Models.
--     Stream/Single is handleNonStreamResponse.
--   Models: models.go. The table and LookupModelSpec; Models/Listed has AllPricingSpecs,
--     Models/Usage fillUsageCost and its helpers.
--   Forward: forward.go. Forward/Dispatch has `forward_http` (forwardHTTP) with its handlers and
--     forwardCountTokens of gateway.go, Forward/Body preprocessBody and preprocessOAuthBody;
--     `forward_oauth` (forwardOAuth) calls the registry, the token manager and the sidecar in the
--     order of the code, with the gate and the upstream as arguments. Forward/Whole is a request without a
--     stream, whose answer goes to Stream/Single.
--   Validator: cc_validator.go, and the gate that forwardOAuth makes of it.
--   Sanitize: sanitize.go, the blocks that the upstream refuses. Json is the interface to the JSON
--     libraries, and Json/Tree an instance of it on trees.
--   Requests: gateway.go and account_usage.go. `handle_request` (HandleRequest), which leads to
--     OAuth/Flow and OAuth/SessionKey. Plugin: Init, Start, Stop, ValidateAccount, QueryQuota of gateway.go.
--   Errors: errors.go and outcome.go. The verdicts that the stream and the forwarding report.
--   Sidecar, Registry: sidecar.go and runtime.go. The registry holds the accounts seen by the forwarding
--     path; the runner's loops and probes send background traffic for them until the drain.
--   TransportPool, ClientPool: transport_pool.go and client_pool.go. Connections by proxy, account and
--     TLS profile; TransportPool/Fingerprint has the second pool and getHTTPClient.
--   Headers: headers.go. The anthropic-beta header, made of the model's own names and the client's;
--     Headers/Http has http.Header and setRawHeader, Headers/Auth setAnthropicAuthHeaders.
--   Tunnel: tlsfingerprint.go. `dial_through_proxy` (dialThroughProxy) and the reads from the tunnel.
--   Fingerprint: cmd/fp/main.go in backend. The snapshot of a TLS client; Fingerprint/Diff compares two.
--   Sessions: session.go. The identifier that a conversation keeps, Sessions/Conversation its fingerprint.
--   Prelude, GoMap, Limits: numbers, texts, Go's maps, and the limits that the pools share.
--
-- How the code is read. A state is a record, an operation a function from the state and its inputs to
-- the result and the new state; a mutex is one such function. What other goroutines do between two
-- critical sections is a list of events or an arbitrary state. A Go map is an association list whose
-- order is the order of iteration, and theorems hold for every order. Instants are nanoseconds
-- from the year 1, the clock is an argument. Strings are texts of code points. A nil pointer is `none`.
--
-- Bounds and fuel. The limits of the maps are the constants of the source, the refresh loop makes the
-- rounds of the source. The code verifier is drawn on fuel, one round to a buffer of random bytes: as
-- many rounds as characters are enough when each buffer has a byte that is accepted. Token counts are
-- natural numbers, costs exact products in cents to a million tokens, where the source rounds
-- floating-point numbers; a delay from a Retry-After header and a token's time to live wrap
-- around at 64 bits as the source's do (`add_seconds`).
--
-- Parameters. The answers of the upstream, of the OAuth servers and of the network, random bytes and
-- identifiers, digests, unicode.ToLower, the success of a write to the client, the decoding and printing
-- of bodies, and the construction of connections come from elsewhere: they are arguments, with no law
-- assumed but where a theorem names it. The JSON libraries are an interface whose laws are their
-- documented behaviour.
--
-- Not modelled and left for later: the variants over the host's shared state, the
-- requests of the probes, cmd/genmanifest. Not modelled since they are wrappers, constants, values of the uTLS
-- library or another language: oauth_handler.go, cmd/devserver, metadata.go, assets.go, the hello
-- specifications of tlsfingerprint.go, flags and files of cmd/fp, logging, the pages under web.
pub mod Prelude
pub mod GoMap
pub mod Limits
pub mod ClientPool
pub mod TransportPool
pub mod TokenManager
pub mod Sessions
pub mod Registry
pub mod Sidecar
pub mod OAuth
pub mod Models
pub mod Errors
pub mod Stream
pub mod Headers
pub mod Json
pub mod Sanitize
pub mod Validator
pub mod Forward
pub mod Requests
pub mod Plugin
pub mod Fingerprint
pub mod Tunnel
