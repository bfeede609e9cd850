-- ===== src/Dns/Lookup.antt =====
-- What the DNS service finds after a workload's address was registered.
use orch.Prelude.{
  String, true, false, Option, none, some, ◌≡◌, refl, subst, sym, ◌∙◌, ap, inl, inr, Bool-cases,
  ◌==◌, if◌then◌else◌,
}
use orch.Prelude.Text.{trim_space, trim_space_idem}
use orch.Prelude.GoMap
use orch.Dns
use orch.Dns.{Dns, DnsError, upsert_workload_a, lookup_workload_ipv4}
use orch.Dns.Libraries.{Record, Server, Store, ServerLaws}
use orch.Dns.Texts.{zone_name, workload_record_key, workload_service_fqdn}

module _ {S : Type 0} (server : Server) (db : Store S) (laws : ServerLaws server) where
  -- The record was registered under the key, and its data is the address.
  record IsSaved (key ip : String) (before after : Dns S) : Type 0 where
    saved : Record
    data_text : saved.data_text ≡ ip
    records : after.workload_records ≡ GoMap.insert key saved before.workload_records
    assignments : after.assignments ≡ before.assignments

  save_normalized-IsSaved :
      (key : String) (r : Record) (norm : Option Record) (st : S) (s : Dns S)
      → server.normalize_record r ≡ norm
      → server.is_ipv4 r.data_text ≡ true
      → (Dns.save_normalized server db key norm st s).0 ≡ none
      → IsSaved key r.data_text s (Dns.save_normalized server db key norm st s).1
  unfolding Dns.save_normalized Dns.save
  save_normalized-IsSaved key r none st s e v h = absurd (cc h)
  save_normalized-IsSaved key r (some norm) st s e v h =
      elim (Bool-cases (db.save_record norm st).0) [
        | inl done ↦ rw done (record {
          saved = norm;
          data_text = laws.address_kept r norm e v;
          records = refl;
          assignments = refl;
        })
        | inr failed ↦ absurd (let q = (rw failed at h) in cc q)
      ]

  workload_record : String → String → String → Dns S → Record
  workload_record ns w ip s = record {
    zone = zone_name server s.zone;
    name = workload_service_fqdn server ns w (zone_name server s.zone);
    ttl = 60;
    rtype = server.type_a;
    data_text = trim_space ip;
  }

  upsert_blank :
      (ns w ip : String) (s : Dns S) (st : S)
      → s.enabled ≡ true
      → s.store ≡ some st
      → (trim_space ip == "") ≡ true
      → (upsert_workload_a server db ns w ip s).0 ≡ some (DnsError.empty_ipv4 w)
  unfolding upsert_workload_a Dns.upsert_in
  upsert_blank ns w ip s st on there blank = simp (on, there, blank)

  -- The branches of an upsert, when it has a store and its address is not blank.
  upsert_run :
      (ns w ip : String) (s : Dns S) (st : S)
      → s.enabled ≡ true
      → s.store ≡ some st
      → (trim_space ip == "") ≡ false
      → upsert_workload_a server db ns w ip s
        ≡ Dns.save_normalized server db
            (workload_record_key server ns w)
            (server.normalize_record (workload_record ns w ip s))
            st
            s
  unfolding upsert_workload_a Dns.upsert_in workload_record
  upsert_run ns w ip s st on there given = simp (on, there, given)

  upsert-IsSaved :
      (ns w ip : String) (s : Dns S) (st : S)
      → s.enabled ≡ true
      → s.store ≡ some st
      → server.is_ipv4 (trim_space ip) ≡ true
      → (upsert_workload_a server db ns w ip s).0 ≡ none
      → IsSaved
          (workload_record_key server ns w)
          (trim_space ip)
          s
          (upsert_workload_a server db ns w ip s).1
  unfolding workload_record
  upsert-IsSaved ns w ip s st on there v h = elim (Bool-cases (trim_space ip == "")) [
    | inl blank ↦ absurd (cc (sym (upsert_blank ns w ip s st on there blank) ∙ h))
    | inr given ↦
        let run = upsert_run ns w ip s st on there given in
        subst (λ x. IsSaved (workload_record_key server ns w) (trim_space ip) s x.1) (sym run)
          (save_normalized-IsSaved _ (workload_record ns w ip s) _ st s refl v
            (sym (ap (λ x. x.0) run) ∙ h))
  ]

  -- After an address was registered without an error, the service finds it for the workload, and
  -- for every other key what it found before.
  pub upsert_then_lookup :
      (ns w ip : String) (s : Dns S) (st : S)
      → s.enabled ≡ true
      → s.store ≡ some st
      → server.is_ipv4 (trim_space ip) ≡ true
      → (upsert_workload_a server db ns w ip s).0 ≡ none
      → (ns' w' : String)
      → lookup_workload_ipv4 server ns' w' (upsert_workload_a server db ns w ip s).1 ≡ (
          if workload_record_key server ns w == workload_record_key server ns' w'
          then some (trim_space ip)
          else lookup_workload_ipv4 server ns' w' s)
  unfolding lookup_workload_ipv4 Dns.lookup_local_workload_ipv4 Dns.or_assignment Dns.record_ipv4
      Dns.lookup_assignment_workload_ipv4
  upsert_then_lookup ns w ip s st on there v h ns' w' =
      let i = upsert-IsSaved ns w ip s st on there v h in
      let ip_kept : Dns.record_ipv4 server (some i.saved) ≡ some (trim_space ip) =
        rw (i.data_text, trim_space_idem ip, v) refl in
      rw (i.records, i.assignments, GoMap.lookup-insert)
        (elim (Bool-cases (workload_record_key server ns w == workload_record_key server ns' w')) [
          | inl same ↦ rw same (
              ap (λ x. Dns.or_assignment x (Dns.lookup_assignment_workload_ipv4 server ns' w' s))
                ip_kept)
          | inr other ↦ rw other refl
        ])
