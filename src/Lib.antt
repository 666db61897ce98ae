-- ===== src/Lib.antt =====
-- Verification of labcontainers: a daemon that runs disposable network labs on Containerlab.
--
-- The program's parts. `labd` keeps one directory per session under its state root, with the
-- session's record, its topology, its disks and its first-boot data (internal/session). A request
-- brings a Containerlab topology, which pkg/spec checks and rewrites so that the lab is isolated
-- from its host, unless the request allows external access. The RPC handlers (internal/server)
-- tie the two to a backend that runs the lab, injects faults and reaches into the guests; the
-- backend is a Go interface, which internal/engine implements with Containerlab.
--
-- The files. Paths are those of the repository.
--   Session, Session/Store: internal/session/store.go. `Record`, `Node`, `Disk` and `Fault` are the
--     Go structs; `create`, `save`, `get`, `list` and `remove` the methods of `Store`.
--     Session/Store/Abstract is the store as a map of records, Session/Store/Listing what a
--     listing needs.
--   Spec and its children: pkg/spec/topology.go. Spec/Yaml has the syntax tree and its edits,
--     Spec/Name `sanitize`, Spec/Native what the libraries provide, Spec/Links and Spec/Nodes
--     `validateAndLabel`, Spec/Prepare `PrepareWithOptions` and `AddNodeBind`.
--   Actions: the monad of code that changes a state and may fail; Actions/Rules reasons about it.
--   World: what the handlers act on, with the questions that they ask it; World/Rules reasons
--     about them. `Call` is the interface `Backend` of internal/server/server.go.
--   Server and its children: internal/server. Server/Create is CreateSession, Server/Lease
--     DestroySession, KeepSession, Scavenge and CleanupUnkept, Server/Fault ApplyFault and
--     RevertFault, Server/Lifecycle Lifecycle, Server/Apply ApplyTopology, Server/Draft
--     PlanTopology, Server/Timeline RunTimeline, Server/Guest Exec and Put, Server/Bootstrap the
--     disks and first-boot files (with pkg/bootstrap), Server/Records what they share.
--   Engine and its children: internal/engine. Engine/Host is the runner (runner.go) with the host's
--     history of commands, Engine/Identity identity.go, Engine/Attachments attachments.go,
--     Engine/Endpoints crash.go; Engine/Isolation, Engine/Labs and Engine/Guests are the methods of
--     `Containerlab` in containerlab.go. Text has Go's strings and strconv packages as far as the program uses them.
--   GuestAgent and its children: pkg/guestagent/guestagent.go, which runs beside a virtual machine.
--     GuestAgent/Channel is Agent and Call, GuestAgent/Files Upload, GuestAgent/Processes OS, Execute
--     and its clean-up, GuestAgent/Serving ServeHTTP and servePut. Limits is internal/transferlimits.
--   Kubernetes/Matrix: `Selection.Validate` of pkg/kubernetes/matrix.go.
--   Rig: pkg/rig/rig.go, the commands of a node as a test suite gives them; Rig/Rules, Rig/Loops and
--     Rig/Waiting reason about them. Kubernetes/K0s: pkg/kubernetes/k0s, with `build` for `Site.Build`;
--     Kubernetes/K0s/Network is `ConfigureNetwork`. Kubernetes/Kube: pkg/kubernetes/kube/client.go.
--   Provision/Windows: pkg/windows; Provision/Interfaces: pkg/network; Provision/Containerd:
--     pkg/containerd, and pkg/kubernetes/rke2.
--   Client and its children: pkg/client/persistent.go, with the sessions of pkg/client/client.go that a
--     client holds; `Rpc` is what it calls of the daemon.
--   Wait: pkg/wait/wait.go, the polling that test suites do from outside.
--   Prelude: shared helpers. Tests: small worlds in which each theorem is applied.
--
-- The state. `World` has the directories of the sessions, the files beside them, the backend's
-- calls with their results, and the lines of the event logs. Each question to the operating
-- system, the clock, the random source and the backend takes the next answer of `Env`, so that a
-- theorem about every world is one about every pattern of failures. `Store.mu` is held over each
-- operation of the store and `Server.mu` over each handler that writes a record, which makes each
-- of them one action; RunTimeline takes the lock once for each of its steps, and the model runs
-- its steps without another request in between. The engine's `Host` has the commands that were run,
-- with their answers, and the journals of attachments; the engine keeps no other state. `Agent` of
-- GuestAgent/Channel has the fields of the Go struct, what its reader has left, and the calls with
-- their results; its gate makes each call one action.
--
-- A `History` of Rig has every command of a node with its reply, and nodes, clock and context may depend
-- on all of it; `Calls` of Provision/Windows is the same for scripts with a timeout.
--
-- Numbers are natural; where the code multiplies an int64, the wrap-around is written out. A wait
-- for a guest polls on fuel: Server/Timeline gives it one round for each retry interval that fits
-- in the timeout, and one more; `until` of Wait has one round for each interval in its budget, and
-- two more, and `await_within` of Rig as many. The loops of the guest agent and of
-- a Windows guest's restart are given the number of times that they may before
-- their context ends, which is when the code leaves them. Every other loop is structural.
--
-- Parameters. The YAML codec and Containerlab's decoding of topologies and plans are the fields of
-- `Libs`; `Resolves` names what the code relies on in Containerlab's inheritance: a node's own
-- network mode takes precedence, and concerns neither another node nor a node's kind. The decoding of
-- Docker's JSON, the text of a duration or a float, the digest in a journal's name and the order of a
-- Go map are fields of the engine's `Machine`; the size of a marshalled request and strings.ToLower are
-- fields of the guest agent's `Peer`. The upstream configuration of k0s, YAML, JSON, net.ParseMAC,
-- net.JoinHostPort, UTF-16 with base64 and the checks of Kubernetes names are arguments or fields.
--
-- Not modelled: the helper process of internal/engine/endpoint_helper.go, the guest agent's command
-- line and its HTTP transport, the rest of the clients, the encodings of Kubernetes objects, cluster API, the helpers
-- of cloud-init, the commands and the generated API. Messages of errors, file permissions and the detail of events are
-- left out.
mod Prelude
pub mod Actions
pub mod Limits
pub mod Session
pub mod Spec
pub mod World
pub mod Server
pub mod Wait
pub mod Text
pub mod Engine
pub mod GuestAgent
pub mod Rig
pub mod Client
pub mod Provision
pub mod Kubernetes
mod Tests
