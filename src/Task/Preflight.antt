-- ===== src/Task/Preflight.antt =====
-- internal/services/task/preflight.go: no two claims on a port of the hosts.
pub mod HostPorts
use orch.Prelude.{
  String, Bool, true, false, not, ◌&&◌, ◌||◌, Option, none, some, List, [], ◌∷◌, ◌++◌, ◌==◌,
  if◌then◌else◌,
}
use orch.Prelude.Int.{ℤ, pos, leb_ℤ, eqb_ℤ}
use orch.Prelude.Text.{trim_space}
use orch.Deploy.Document.{Metadata, Endpoint, Workload, App}
use orch.Deploy.Constants.{proto_tcp, proto_udp}
use orch.Meta.{namespace_or_default}
use orch.Raft.State.{Fsm}
use orch.Raft.Lookup.{get_deploy_app, list_deploy_apps}

pub record HostPortClaim : Type 0 where
  pub namespace : String
  pub app : String
  pub workload : String
  pub endpoint : String
  pub protocol : String
  pub host_ip : String
  pub host_port : ℤ

-- The errors, with the claims that they describe.
pub data PreflightError : Type 0 where
  claimed_twice : HostPortClaim → HostPortClaim → PreflightError
  already_claimed : HostPortClaim → HostPortClaim → PreflightError
  unavailable : HostPortClaim → PreflightError

unfoldable pub same_app_metadata : Metadata → Metadata → Bool
same_app_metadata a b =
    (namespace_or_default a.namespace == namespace_or_default b.namespace)
    && (trim_space a.name == trim_space b.name)

unfoldable pub normalize_host_port_protocol : String → String
normalize_host_port_protocol proto = if proto == proto_udp then proto_udp else proto_tcp

unfoldable pub normalize_host_port_ip : String → String
normalize_host_port_ip host_ip =
    let ip = trim_space host_ip in
    if ip == "0.0.0.0" || (ip == "::" || ip == "[::]") then "" else ip

unfoldable pub host_port_claims_conflict : HostPortClaim → HostPortClaim → Bool
host_port_claims_conflict a b =
    if not (eqb_ℤ a.host_port b.host_port) || not (a.protocol == b.protocol)
    then false
    else a.host_ip == "" || (b.host_ip == "" || a.host_ip == b.host_ip)

endpoint_claims : Metadata → String → List Endpoint → List HostPortClaim
endpoint_claims meta workload [] = []
endpoint_claims meta workload (e ∷ es) =
    let rest = endpoint_claims meta workload es in
    if leb_ℤ e.host_port (pos 0)
    then rest
    else record {
      namespace = namespace_or_default meta.namespace;
      app = trim_space meta.name;
      workload = trim_space workload;
      endpoint = trim_space e.name;
      protocol = normalize_host_port_protocol e.protocol;
      host_ip = normalize_host_port_ip e.host_ip;
      host_port = e.host_port;
    }
      ∷ rest

workload_claims : Metadata → List Workload → List HostPortClaim
unfolding endpoint_claims
workload_claims meta [] = []
workload_claims meta (w ∷ ws) = endpoint_claims meta w.name w.endpoints ++ workload_claims meta ws

unfoldable pub host_port_claims : App → List HostPortClaim
unfolding workload_claims
host_port_claims a = workload_claims a.metadata a.workloads

-- The first claim of the list that conflicts.
conflict_with : HostPortClaim → List HostPortClaim → Option HostPortClaim
conflict_with next [] = none
conflict_with next (current ∷ existing) =
    let rest = conflict_with next existing in
    if host_port_claims_conflict next current then some current else rest

-- `none` is the result false.
unfoldable pub find_host_port_conflict :
    List HostPortClaim → List HostPortClaim → Option (HostPortClaim × HostPortClaim)
unfolding conflict_with
find_host_port_conflict [] existing = none
find_host_port_conflict (next ∷ incoming) existing =
    let rest = find_host_port_conflict incoming existing in
    elim (conflict_with next existing) [ none ↦ rest | some current ↦ some (next, current) ]

duplicate_among : List HostPortClaim → Option PreflightError
unfolding conflict_with
duplicate_among [] = none
duplicate_among (claim ∷ claims) =
    let rest = duplicate_among claims in
    elim (conflict_with claim claims) [
      | none ↦ rest
      | some other ↦ some (claimed_twice claim other)
    ]

unfoldable pub preflight_duplicate_host_ports : App → Option PreflightError
unfolding duplicate_among
preflight_duplicate_host_ports a = duplicate_among (host_port_claims a)

-- The error at a conflict, if one was found.
claimed_or : Option (HostPortClaim × HostPortClaim) → Option PreflightError → Option PreflightError
claimed_or none rest = rest
claimed_or (some (next, current)) rest = some (already_claimed next current)

existing_conflict : Metadata → List HostPortClaim → List App → Option PreflightError
unfolding claimed_or
existing_conflict meta incoming [] = none
existing_conflict meta incoming (existing ∷ apps) =
    let rest = existing_conflict meta incoming apps in
    if same_app_metadata meta existing.metadata
    then rest
    else claimed_or (find_host_port_conflict incoming (host_port_claims existing)) rest

-- Whether a claim of the list conflicts with one of the app's current claims.
is_current : HostPortClaim → List HostPortClaim → Bool
is_current claim current = elim (find_host_port_conflict (claim ∷ []) current) [
  | none ↦ false
  | some pair ↦ true
]

-- `available` is whether checkLocalAvailable returns nil.
local_conflict :
    (HostPortClaim → Bool) → List HostPortClaim → List HostPortClaim → Option PreflightError
unfolding is_current
local_conflict available current [] = none
local_conflict available current (claim ∷ incoming) =
    let rest = local_conflict available current incoming in
    if is_current claim current
    then rest
    else if available claim
    then rest
    else some (unavailable claim)

claims_or_none : Option App → List HostPortClaim
claims_or_none none = []
claims_or_none (some a) = host_port_claims a

or_next : Option PreflightError → Option PreflightError → Option PreflightError
or_next none next = next
or_next (some e) next = some e

module _ {F : Type 0} where
  unfoldable pub preflight_existing_host_ports :
      Fsm F → Metadata → List HostPortClaim → Option PreflightError
  unfolding existing_conflict
  preflight_existing_host_ports raft meta incoming =
      existing_conflict meta incoming (list_deploy_apps raft)

  unfoldable pub same_app_host_port_claims : Fsm F → Metadata → List HostPortClaim
  unfolding claims_or_none
  same_app_host_port_claims raft meta = claims_or_none (get_deploy_app meta raft)

  module _ (available : HostPortClaim → Bool) where
    unfoldable pub preflight_local_host_ports :
        Fsm F → Metadata → List HostPortClaim → Option PreflightError
    unfolding local_conflict
    preflight_local_host_ports raft meta incoming =
        local_conflict available (same_app_host_port_claims raft meta) incoming

    preflight_raft : Fsm F → App → List HostPortClaim → Option PreflightError
    unfolding or_next
    preflight_raft raft a [] = none
    preflight_raft raft a (claim ∷ incoming) =
        or_next (preflight_existing_host_ports raft a.metadata (claim ∷ incoming))
          (preflight_local_host_ports raft a.metadata (claim ∷ incoming))

    raft_check : Option (Fsm F) → App → Option PreflightError
    unfolding preflight_raft
    raft_check none a = none
    raft_check (some raft) a = preflight_raft raft a (host_port_claims a)

    unfoldable pub preflight_deploy : Option (Fsm F) → App → Option PreflightError
    unfolding raft_check or_next
    preflight_deploy raft a = or_next (preflight_duplicate_host_ports a) (raft_check raft a)
