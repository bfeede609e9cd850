-- ===== src/Dns.antt =====
-- internal/dnssvc/workload_dns.go: the A records of the workloads, and the zone's name of
-- internal/config/dns.go. The service is not nil.
pub mod Libraries
pub mod Texts
pub mod Lookup
pub mod Covered
pub mod Registered
mod Samples
use orch.Prelude.{
  ℕ, String, Bool, true, false, not, ◌&&◌, Option, none, some, List, [], ◌∷◌, ◌==◌, if◌then◌else◌,
}
use orch.Prelude.Text.{trim_space}
use orch.Prelude.GoMap
use orch.Prelude.GoMap.{GoMap}
use orch.Meta.{Assignment, namespace_or_default}
use orch.Task.Restart.{assignment_status_running}
use orch.Dns.Libraries.{Record, Server, Store}
use orch.Dns.Texts.{zone_name, workload_record_key, workload_service_fqdn}

-- The fields of dnssvc.Service and of its configuration that these operations read and write.
-- `assignments` is what ListWorkloadAssignments returns.
pub record Dns (S : Type 0) : Type 0 where
  pub enabled : Bool
  pub zone : String
  pub store : Option S
  pub workload_records : GoMap Record
  pub assignments : Option (List Assignment)

pub data DnsError : Type 0 where
  empty_ipv4 : String → DnsError
  normalize_record : DnsError
  save_record : DnsError
  delete_record : DnsError

unfoldable pub assignment_matches_workload_dns : Assignment → String → String → Bool
assignment_matches_workload_dns a namespace workload =
    namespace_or_default a.metadata.namespace == namespace
    && trim_space a.workload == workload
    && trim_space a.status == assignment_status_running

module _ {S : Type 0} (server : Server) (db : Store S) where
  -- The deletion of the record before, whose error is only logged.
  unfoldable pub delete_stale : Option Record → Record → S → S
  delete_stale none norm st = st
  delete_stale (some prev) norm st =
      if not (server.key prev == server.key norm) then (db.delete_record prev st).1 else st

  unfoldable pub save : String → Record → S → Dns S → Option DnsError × Dns S
  save key norm st s =
      let (saved, after) = db.save_record norm st in
      if not saved then (some DnsError.save_record, record s { store = some after }) else (
        none,
        record s {
          store = some (delete_stale (GoMap.lookup key s.workload_records) norm after);
          workload_records = GoMap.insert key norm s.workload_records;
        },
      )

  unfoldable pub save_normalized : String → Option Record → S → Dns S → Option DnsError × Dns S
  save_normalized key none st s = (some DnsError.normalize_record, s)
  save_normalized key (some norm) st s = save key norm st s

  unfoldable pub upsert_in : String → String → String → Option S → Dns S → Option DnsError × Dns S
  upsert_in namespace workload_name ipv4 none s = (none, s)
  upsert_in namespace workload_name ipv4 (some st) s =
      if trim_space ipv4 == ""
      then (some (DnsError.empty_ipv4 workload_name), s)
      else let zone = zone_name server s.zone in
        save_normalized (workload_record_key server namespace workload_name)
          (server.normalize_record (record {
            zone = zone;
            name = workload_service_fqdn server namespace workload_name zone;
            ttl = 60;
            rtype = server.type_a;
            data_text = trim_space ipv4;
          }))
          st s

  unfoldable pub upsert_workload_a : String → String → String → Dns S → Option DnsError × Dns S
  upsert_workload_a namespace workload_name ipv4 s =
      if not s.enabled then (none, s) else upsert_in namespace workload_name ipv4 s.store s

  unfoldable pub remove_found : String → Option Record → S → Dns S → Option DnsError × Dns S
  remove_found key none st s = (none, s)
  remove_found key (some prev) st s =
      let (deleted, after) = db.delete_record prev st in
      if not deleted then (some DnsError.delete_record, record s { store = some after }) else (
        none,
        record s { store = some after; workload_records = GoMap.delete key s.workload_records },
      )

  unfoldable pub remove_in : String → String → Option S → Dns S → Option DnsError × Dns S
  remove_in namespace workload_name none s = (none, s)
  remove_in namespace workload_name (some st) s =
      let key = workload_record_key server namespace workload_name in
      remove_found key (GoMap.lookup key s.workload_records) st s

  unfoldable pub remove_workload_a : String → String → Dns S → Option DnsError × Dns S
  remove_workload_a namespace workload_name s =
      if not s.enabled then (none, s) else remove_in namespace workload_name s.store s

unfoldable pub or_assignment : Option String → Option String → Option String
or_assignment (some ip) later = some ip
or_assignment none later = later

module _ (server : Server) where
  unfoldable pub record_ipv4 : Option Record → Option String
  record_ipv4 none = none
  record_ipv4 (some r) =
      let ip = trim_space r.data_text in if server.is_ipv4 ip then some ip else none

  unfoldable pub lookup_local_workload_ipv4 : {S : Type 0} → String → String → Dns S → Option String
  lookup_local_workload_ipv4 namespace workload_name s =
      record_ipv4
        (GoMap.lookup (workload_record_key server namespace workload_name) s.workload_records)

  unfoldable pub assignment_workload_ipv4 : Assignment → String → String → Option String
  assignment_workload_ipv4 a namespace workload =
      if not (assignment_matches_workload_dns a namespace workload)
      then none
      else let address = trim_space a.address in
        if server.is_ipv4 address then some address else none

  unfoldable pub first_address : String → String → List Assignment → String
  first_address namespace workload [] = ""
  first_address namespace workload (a ∷ later) =
      or_address (assignment_workload_ipv4 a namespace workload)
        (first_address namespace workload later)
    where
      or_address : Option String → String → String
      or_address none rest = rest
      or_address (some address) rest = address

  unfoldable pub lookup_assignments : String → String → Option (List Assignment) → Option String
  lookup_assignments namespace workload none = none
  lookup_assignments namespace workload (some assignments) =
      if workload == ""
      then none
      else let out = first_address namespace workload assignments in
        if out == "" then none else some out

  unfoldable pub lookup_assignment_workload_ipv4 :
      {S : Type 0} → String → String → Dns S → Option String
  lookup_assignment_workload_ipv4 namespace workload_name s =
      lookup_assignments (namespace_or_default namespace) (trim_space workload_name) s.assignments

  unfoldable pub lookup_workload_ipv4 : {S : Type 0} → String → String → Dns S → Option String
  lookup_workload_ipv4 namespace workload_name s =
      or_assignment (lookup_local_workload_ipv4 namespace workload_name s)
        (lookup_assignment_workload_ipv4 namespace workload_name s)
