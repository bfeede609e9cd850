-- ===== src/Lib.antt =====
-- The control plane of orch: what a deploy document must satisfy, how the replicated state
-- machine stores it, on which node a workload is placed and to which it moves, when a failed one is
-- restarted or rolled back, and how its addresses are found and routed to.
--
-- The parts and their files. A function keeps its name, in lower case with underscores; a helper
-- stands for the branch on a pointer, a map read or an error that its caller makes in the source.
--
-- - Prelude: what the program uses of Go. `GoMap` is a map, nil or made, as a list of pairs
--   without a promise on the order in which it is ranged over; `Text` has strings.TrimSpace, on
--   the texts of UTF-8; `Int` has signed integers, which the modelled code stores and compares;
--   `Lists` has slices and loops that stop at the first error.
-- - Deploy: internal/deploy/v1alpha1. `Document` and `Constants` are types.go; `Validate` holds
--   the validators of validate.go, validate_endpoint.go, validate_health.go,
--   validate_lifecycle.go, validate_runtime.go and rollout.go; `Dependencies` is dependency.go
--   with dependency_conditions.go. An error message is a constructor of `DeployError` with what
--   it quotes.
-- - Meta: internal/workloadmeta and internal/volumemeta, the replicated records and their keys.
-- - Raft: internal/raftsvc. `Fsm` has the commands of fsm.go, which decode the bytes of a log
--   entry by `Json`, and the snapshots of fsm_snapshot.go; `Revisions` is revisions.go with
--   AppGeneration of internal/deploy/v1alpha1/generation.go; `Lookup` has the reads of
--   fsm_lookup.go and fsm_capacity.go. Each operation holds the machine's lock from its start to
--   its end, so it is one step on the state; the state after a log is `replay`.
-- - Placement: internal/placement/v1alpha1.go, with the reads of
--   internal/nodecapacity/catalog.go.
-- - Config: the worker URLs of internal/config/runtime.go; `Ingress` has the routes and the
--   listeners of internal/config/ingress.go.
-- - Ingress: internal/ingress. `Compile` is deploy_compile.go, which turns the documents into
--   routes, `Target` the addresses of deploy_compile_target.go, `Routing` the matching of paths in
--   routing.go with the rewriting of vale_app.go.
-- - Dns: internal/dnssvc/workload_dns.go, the addresses of workloads, and the zone's name of
--   internal/config/dns.go.
-- - Runtime: the processor limits of internal/runtime/runconfig/runconfig.go.
-- - Task: internal/services/task. `Restart` is the restart decision of recovery.go and
--   recovery_restart.go, `Rollback` is auto_rollback.go; the guards that the service keeps under
--   its mutexes are explicit state. `Loops` is the start and the stop of the loops in the
--   background (recovery.go, reconcile.go) as a step relation: a stop takes the cancel function and
--   calls it later, so that another start may come between, and a run returns at any time. `Nodes`
--   and `Select` are operations_nodes.go and operations_select.go, `Preflight` is preflight.go, and
--   `Submit` is SubmitDeploy of deploy.go down to the command that the state machine runs; no lock
--   is held in between, so the log entries that others commit meanwhile are an argument, while the
--   two reads of the preflight are taken from one state. `Apps`
--   is apps.go, the view of an app, with ArtifactSummary of internal/runtime/runconfig/runconfig.go.
--   `Moves` is operations_move.go; `Moves.Cluster` has what it calls of the replicated state and of
--   the runtimes, without hypotheses. `Operations` is SubmitMigrate of operations.go on top of it.
--
-- The parts meet in the records: validation makes names from which the keys of Meta can be read
-- back, the state machine files its records under those keys, placement reads the node capacities
-- that the state machine replicates, and the task service reads the desired and the previous
-- document from it to decide on a rollback.
--
-- Not in the repository, so parameters: encoding/json and SHA-256 (`Raft.Json`),
-- time.ParseDuration, net.ParseIP, net.ParseMAC and collectionx's set and graph
-- (`Deploy.Libraries`), float64, the ordered set and the store behind the catalog
-- (`Placement.Libraries`), collectionx's sets and the sort of names (`Task.Libraries`), the
-- marshalling and the commit of a command (`Task.Submit.Proposals`), path, net, net/url and fmt
-- (`Ingress.Libraries`), dnsserver with its store, net.ParseIP and the tables of strings.ToLower
-- (`Dns.Libraries`), lo.CoalesceOrEmpty where it takes a list, and the binding of a socket.
-- Hypotheses on them: `SetLaws` (a set contains what was added to it), `NodeSetLaws`,
-- `RequestSetLaws` and `OrderedSetAdds` (the like of the other sets), `SortLaws` (a sort keeps the
-- elements), `IsReadBack` (a command decodes to an app of the same name and the same claims),
-- `OrderedSetLaws` (an empty set contains nothing), `GraphLaws` (a graph keeps its nodes and
-- edges, and its sort keeps to the edges), `Float64Laws` (the comparisons of IEEE 754, NaN
-- included), `StateCodec` (the fields of maps are omitted when they are empty: a state that was
-- written decodes to the same tables up to nil and empty maps, also within the stored documents and
-- metadata, and documents that are the same up to those have the same text), `ServerLaws` (the
-- normal form of a record keeps an IPv4 address), `Dns.Libraries.StoreLaws` (a save adds the key of
-- its record, a delete takes it away, and one that fails changes nothing).
--
-- Bounds: the count of applied commands is a uint64 and wraps around at 2^64, and so does the number
-- of a run of a loop, whose theorems are about fewer than 2^64 starts; the int64
-- conversions of the processor estimate, the count of restarts and the product in a processor quota
-- wrap around too. No definition runs on fuel: every loop goes over a list.
--
-- Not modelled: the Raft protocol itself and the service around it, the HTTP API, the command
-- line, the runtimes, the ingress gateway, the DNS server, and what the task service does with the
-- runtimes, which call other programs or libraries; the decoding of YAML; the words of the error
-- messages; the context and the locks.
mod Prelude
pub mod Deploy
pub mod Dns
pub mod Meta
pub mod Raft
pub mod Placement
pub mod Config
pub mod Ingress
pub mod Runtime
pub mod Task
