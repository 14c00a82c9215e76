-- ===== src/Lib.antt =====
-- A model of the tunnelling service trqsh: agents open sessions to an edge server and bind public
-- hosts and ports there; the edge asks a control plane whether an account may; the control plane
-- keeps accounts, names, usage and tunnel history in a store, and bills through Stripe.
--
-- Files and what they model (Go paths from the repository's root):
--   Prelude   shared helpers: Boolean tests, native-number lists, text (ASCII case, decimals), Go's
--             maps (Dict, an association list behind the laws of get, put and delete), wrapped
--             64-bit integers, and fallible operations on a state (Result).
--   Store     internal/api/store: Types has the records of store.go, State the MemStore of mem.go,
--             Accounts, Names, Usage, Tunnels and Billing its methods (CreateUser is create_user,
--             and so on); Consistent and History have the store's invariant over any calls.
--   Authz     pkg/authz and the error codes of pkg/proto/errors.go.
--   Billing   internal/billing: Plans (plans.go), Config (config.go and the objects of
--             stripe/stripe.go), Webhooks (webhooks.go), Metering (metering.go and CheckQuota of
--             entitlements.go), all over the interface BillingStore, which Memory fills with Store.
--   Api       internal/api: Keys (auth/apikey.go, auth/revoke.go), Tokens (auth/auth.go and
--             auth/middleware.go), Devices (auth/device.go), OauthState (oauth_state.go), SignIn
--             (handlers_auth.go), Remote (remote.go: sessions, the hub in Hub, open streams in
--             Streams), Entitlements (entitlements.go) and Resources (the handlers for subdomains,
--             domains and keys of handlers_resources.go).
--   Edge      internal/server: Routes and Registry (registry.go), Ports (ingress_tcp.go and
--             openUDPPort), Hub (hub.go), Server (handleBind, handleUnbind and what they call in
--             server.go, teardownSession in session.go), Usage (usage.go), History, the runs of the
--             handlers in any order, and Ingress (ingress_http.go and the dialling side of
--             forward.go).
--   Entitlerpc  internal/entitlerpc/entitlerpc.go: the messages between an edge and the control
--             plane, and the edge's client; Api/Rpc has the service of internal/api/rpc.go.
--   Agent     internal/agent: the core (core.go, session.go), and in Session the control loop and
--             reconnect.go; Connected, Bind, Backoff, Restore and Session/Down have the theorems.
--   Wire      pkg/proto/codec.go: the frames of control messages and stream headers; in Datagrams the
--             frames of UDP datagrams (internal/server/ingress_udp.go).
--   Inspect   the Recorder of internal/agent/inspect/inspect.go.
--   Modules named Tests hold runs at concrete inputs.
--
-- Conventions. A method that holds a mutex is one step, and so is a handler. A time is a number of
-- nanoseconds with 0 for Go's zero time; the clock, drawn identifiers, random subdomains, the answers
-- of the operating system and of remote services are arguments. An int64 counter is a pattern below
-- 2^64 and its sums wrap. A map key that the source prints, as "tcp:2222", stands as the values it is
-- printed from. Loops are structural recursion on the list they range over, or on the number of
-- iterations the source's bounds give (max - min + 1 ports, eight draws, the frames to read), so
-- nothing runs out of fuel; the agent's reconnect loop and a connection's loop take the list of their
-- turns. Argon2, the JWT library, JSON, base64, protobuf, the signature check, DNS and the calls of
-- Stripe are parameters.
--
-- Not modelled: the Postgres store and the Redis variants (statements of a database), the copying of
-- streams and the other ingress servers, transports, certificates, geolocation, the read-only and
-- administration handlers of the control plane, the agent's local forwarding and command line, and the
-- web and desktop front ends.
pub mod Prelude
pub mod Store
pub mod Authz
pub mod Billing
pub mod Edge
pub mod Entitlerpc
pub mod Api
pub mod Wire
pub mod Inspect
pub mod Agent
