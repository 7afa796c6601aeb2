-- ===== src/Lib.antt =====
-- The verification library of omnibioai-api-gateway: the gateway in front of the OmniBioAI services.
--
-- A request passes five middlewares (app/middleware), outermost first: TraceMiddleware gives it a trace
-- id, AuthMiddleware checks its bearer token or API key by IAMClient, PolicyMiddleware asks the policy
-- engine, HPCMiddleware the quota engine for compute services, AuditMiddleware records the outcome.
-- Then a route answers it: the public API under /v1 (app/routes/v1.py), or the catch-all route
-- (app/routes/gateway.py), which forwards it to a service of SERVICE_MAP (app/core/router.py). The
-- public API keeps its limits, quotas and idempotency records in V1Store
-- (app/services/v1_store.py), on Redis or on its own MemoryStore, and bills by usage events.
--
-- The files:
--   Prelude, Prelude/*     shared names, Boolean tests, lists, the integers over the native numbers
--   Dict, Json, Text       Python's dict, JSON values, the string methods that the code uses
--   Exec                   code that changes a state and may raise: S → Option A × S
--   Redis, Redis/Laws      the Redis commands as an interface, and what a client may rely on;
--                          Redis/Steady adds that a command leaves the other keys alone, and its
--                          Table is a least store of that kind
--   MemoryStore, …/*       `MemoryStore`: one function per command; its bound; the laws of the commands
--   V1Store, …/*           `V1Store`: rate limit, concurrency slots, quotas, idempotency records;
--                          RateLimit is the bucket as a function, and its Refinement the method that
--                          runs it on a store; the modules Concurrent of the four have requests that
--                          run at the same time, and commands that raise or records that expire; Keys tells the methods' keys apart, Frame has what
--                          the methods keep, and Down what they do when the store is not there
--   Config, …/Retention    the bound on V1_IDEMPOTENCY_TTL of app/core/config.py, and how long an answer is
--                          stored under it; MemoryStore/Expiry has how long a value can be read
--   Interleaving           interleaved moves of many requests over one value
--   Router, Router/*       app/core/router.py, the exempt paths, the service of the catch-all route
--   Http, Clients          what the parts hand to one another; policy_client.py, hpc_policy_client.py
--   RequestState           bearer tokens, `request.state`, refusals and audit events of the middlewares
--   Middleware, …/Guards   the five `dispatch` methods and their order in app/main.py; Trusted has the chain
--                          on top of IAMClient, Audited the audit trail that it leaves
--   Iam, Iam/Validate, Iam/ApiKeys
--                          `IAMClient`: the two signed caches, `validate`, `validate_api_key`
--   Iam/Invalidation       the listener for policy:invalidate, with `on_invalidate` of app/main.py
--   Iam/Trust, …/KeyTrust, …/Collision, …/Revocation, …/Reuse, …/Expiry
--                          what the caches can and cannot be made to say; CacheLaws is what Revocation and
--                          Reuse rely on, and Keeps and Exec/Keeps have facts that code keeps
--   Mcp, Mcp/Gate, …/Tools the mount of app/services/mcp_auth.py on IAMClient, the tools of mcp_server.py
--   Research, …/Answers    app/routes/research_inquiries.py, the way in and the way out; Relay and Public
--                          have what passes
--   AuditClient, …/Signed  app/services/audit_client.py
--   NativeRoutes           app/routes/auth_verify.py, app/core/permissions.py
--   Outbox, …/Delivery, …/Usage, …/Emit
--                          app/services/outbox.py on a file that may fail; its drain beside that of V1/Usage;
--                          `emit_usage` on such a file
--   Upstream, …/Headers    `build_upstream_headers`, `ProxyClient.forward`, the catch-all route
--   Contract, …/Requests   app/services/literature_contract.py
--   V1, V1/Usage           app/routes/v1.py: errors, caller, limits; usage events and outbox
--   V1/Frame, V1/Balance   what the limits keep, and what they do to the counters of quota and slots
--   V1/Billable            the `try` block of `_handle_billable_literature_call`; its Billing and TryBlock
--                          have what that records as usage, Balanced what it leaves of quota and
--                          slots, and Remembered what it leaves under an Idempotency-Key
--   V1/Billable/Handle     the rest of it, cut at its early returns, and its two routes; Routes has
--                          these with the JSONResponse that they end with, TestMode has
--                          what a test key leaves alone, Conserved has quota and slots, Retry the second
--                          request with a key, FailsOpen a store that cannot be reached, against
--                          Unlimited, a handler without a store
--   V1/Free                the routes that are not billed, and the calls that they make
-- Examples under a part run it on concrete data.
--
-- Correspondence. A method of a store is a function of the store that returns its result beside the new
-- store; a raise is `none`, with what was written before it kept. A dict is an association list in
-- insertion order. A function keeps its name without a leading underscore; a part of one that the source
-- has in line is named for what it does.
--
-- Bounds. Every loop of the code is a structural recursion, and nothing runs on fuel. Integers are
-- unbounded as Python's. `HasRoom n` says of a store that the next n commands neither fail nor evict;
-- `Steady` is a store that stays so while a request runs, in which nothing expires meanwhile.
--
-- Taken as given. Times are whole microseconds and a token of the bucket is 60,000,000 units, so that
-- the bucket is exact where the code has floats, whose rounding can deny a call that is due. A stored
-- text is what it was printed from. One command, and one request, reads the clock at one instant.
-- SHA-256, fresh identifiers, HTTP calls, Redis and the engines are parameters, and of the middlewares
-- IAMClient too. JSONResponse takes a body or raises, by a parameter of V1/Billable/Handle/Routes;
-- below that, an answer is what is passed to it. The wording of error messages is left out, and in the
-- middlewares the fresh id and timestamp of an event. V1/Usage takes the outbox file to work.
--
-- Not modelled: the other settings and start-up, which are values and I/O; the MCP SDK, httpx, ipaddress and
-- uuid, which are parameters; app/core/security.py, which nothing calls.
pub mod AuditClient
pub mod Clients
pub mod Config
pub mod Contract
pub mod Dict
pub mod Exec
pub mod Http
pub mod Iam
pub mod Interleaving
pub mod Json
pub mod Mcp
pub mod MemoryStore
pub mod Middleware
pub mod NativeRoutes
pub mod Outbox
pub mod Prelude
pub mod Redis
pub mod RequestState
pub mod Research
pub mod Router
pub mod Text
pub mod Upstream
pub mod V1
pub mod V1Store
