-- ===== src/Lib.antt =====
-- Verification of kubebox: a control plane for sandboxes, the public edge in front of them, the
-- service inside them and the operator that keeps a pod for each.
--
-- A client asks the control plane for a sandbox over HTTP. The store reserves a slot of the owner's
-- quota, in memory or at a durable boundary, and remembers the request under its Idempotency-Key.
-- Requests to a sandbox go through the edge, which checks a credential, looks up the route and
-- forwards the request under an identity of its own; the health monitor evicts routes whose backends
-- fail. The service inside the sandbox checks that identity again and runs commands and reads and
-- writes files under a root. The operator turns a claim into a pod and keeps the routes of the edge
-- in step with it.
--
-- Which file models which code:
--   Common and its children: shared types and lemmas: bytes, association lists, integers of 64 bits.
--   Governance: internal/persistence/store.go, and the errors of internal/persistence/sql.go.
--   Sandbox: internal/sandbox/service.go. Types has its types and helpers, Quotas SetQuota, GetQuota
--     and releaseAllocationLocked, Create has Create, Lifecycle has Get, Drain and CompleteDeletion.
--     Ledger and its children, Idempotency and Failures are about these methods, Mirror and its
--     children about them over Memory, and Boundary and its children about them over any boundary.
--   Sandbox/Http: internal/sandbox/http.go.
--   Memory: internal/persistence/memory.go.
--   Sql: internal/persistence/sql.go. Database is the package database/sql as an interface with the
--     transactions of the store, Store the statements and the methods, Tables the schema and what the
--     statements mean. Atomic, Refinement, Refusals, Claims, Rows, Ledger and Bind are about them.
--   Sql/Migrate: internal/persistence/migrate.go and the schema of sql.go. Sql/Open:
--     internal/persistence/open.go.
--   Dataplane/Token, Routes and Proxy: internal/dataplane/proxy.go; Outgoing has the laws of the
--     library's reverse proxy. Dataplane/Health: internal/dataplane/health.go; Eviction, Counting,
--     Pass and Ticks are about it. Dataplane/Admin: internal/dataplane/admin.go; Origin and Removal
--     say which request makes and takes a route.
--   Dataplane/RouteClient: internal/dataplane/route_client.go; Delivery puts it in front of Admin.
--   Envd/Authorize: Server.authorize of internal/envd/service.go and HTTPGateway.authorize of
--     internal/envd/http_gateway.go. Envd/Output: limitedWriter of internal/envd/executor.go.
--   Envd/Executor: internal/envd/executor.go. Paths has safePath, createPath and their helpers, Files
--     ReadFile, WriteFile and NewProcessExecutor, Command has Exec. Climb, Containment and Limits are
--     about them.
--   Envd/Service: Server and MemoryExecutor of internal/envd/service.go; Gateway:
--     internal/envd/http_gateway.go. Access and Transports are about both, Process puts the executor of
--     executor.go behind the gateway.
--   Operator/Reconciler: internal/operator/reconciler.go. Operator/Admission: the isolation tiers of
--     internal/operator/webhook.go, reconciler.go and controller.go.
--   Operator/Controller: internal/operator/controller.go, with the object of a claim of
--     internal/kubeapi/types.go. Operator/KubeClient: internal/operator/kube_client.go.
--   Envd/Service/Rpc: the messages, the method table and the client of internal/envd/service.go; Calls
--     has a call of any method.
--   Commands/EnvdProxy: cmd/envd-proxy/main.go, whose requests, passes and probes interleave; Origin
--     and Probes are about it. Commands/ControlPlane: cmd/kubebox/main.go. Commands/EnvdMain:
--     cmd/envd/main.go, whose two transports share an executor; Files and Root are about it.
--     Commands/Process: how the programs wait and end.
--   A file Examples runs the definitions on small inputs.
--
-- A method becomes a function from the state before to the state after and the result, named as in
-- the code but in the spelling used here (SetQuota is set_quota); an early return is a branch of an
-- if or a clause. A method that holds a mutex is one step, and a history is a list of such steps. A
-- transaction of the SQL store is one step as well. A string is the list of its bytes, a map an
-- association list whose lookups are all that counts, and an int an integer that wraps around at 64
-- bits. A nil pointer or map is none. The clock is an argument. Loops are recursion on the list that
-- they run over; only the climb of evalWithinRoot and createPath to an existing ancestor runs on fuel,
-- the length of the path and one more, which is enough because the parent of an absolute path is
-- shorter; without fuel the answer is none.
--
-- Parameters stand for what the repository does not hold: HMAC, SHA-256, base64, JSON, url.Parse,
-- the library's reverse proxy before and after the director, the HTTP clients, the connection of
-- gRPC, the package database/sql, path/filepath, the file system, the run of a process, and the
-- Kubernetes API. Hypotheses on them are named where they are used: IsCodec says that base64
-- decodes what it encodes and that the encoded alphabet has no dot; IsReverseProxy how the
-- library's reverse proxy sends on what its director has made of a request, the headers that it
-- drops included; IsSql what the statements of the store do to the tables; IsPaths that the parent
-- of an absolute path is shorter; IsAbsolute that the root that envd starts with is absolute; IsWay
-- that requests of the route client reach the route interface as they were sent; IsLock which calls
-- of a migration take and give back its lock.
--
-- Not modelled: internal/operator/setup.go and cmd/controller/main.go, which register things with a
-- library; the deep copies of internal/kubeapi/types.go; normalizeName and withIncomingIdentity, which
-- have no caller; and what the programs under cmd do with sockets, flags and logs.
pub mod Common
pub mod Governance
pub mod Sandbox
pub mod Memory
pub mod Sql
pub mod Dataplane
pub mod Envd
pub mod Operator
pub mod Commands
