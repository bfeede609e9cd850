-- ===== src/Dns/Registered.antt =====
-- The store of the DNS service has no record but those of the registered workloads.
use orch.Prelude.{
  String, Bool, true, false, not, Option, none, some, List, [], ◌∷◌, ◌≡◌, refl, sym, ◌∙◌, inl, inr,
  Bool-cases, ◌==◌, if◌then◌else◌, ◌⊎◌,
}
use orch.Prelude.Text.{trim_space}
use orch.Prelude.GoMap
use orch.Prelude.GoMap.{GoMap}
use orch.Dns
use orch.Dns.{Dns, DnsError, upsert_workload_a, remove_workload_a}
use orch.Dns.Libraries.{Record, Server, Store, StoreLaws}
use orch.Dns.Covered.{
  Covered, IsStuck, grown, save_failed, delete_failed, delete_covers, replaced_covers,
}
use orch.Dns.Texts.{zone_name, workload_record_key, workload_service_fqdn}

pub data Request : Type 0 where
  upsert : (namespace : String) (workload_name : String) (ipv4 : String) → Request
  remove : (namespace : String) (workload_name : String) → Request

module _ {S : Type 0} (server : Server) (db : Store S) where
  abbrev pub handle : Request → Dns S → Dns S
  handle (Request.upsert ns w ip) s = (upsert_workload_a server db ns w ip s).1
  handle (Request.remove ns w) s = (remove_workload_a server db ns w s).1

  abbrev pub handle_all : List Request → Dns S → Dns S
  handle_all [] s = s
  handle_all (r ∷ rs) s = handle_all rs (handle r s)

-- The record of a registration, before it is normalized.
abbrev pub workload_record : {S : Type 0} → Server → String → String → String → Dns S → Record
workload_record server ns w ip s = record {
  zone = zone_name server s.zone;
  name = workload_service_fqdn server ns w (zone_name server s.zone);
  ttl = 60;
  rtype = server.type_a;
  data_text = trim_space ip;
}

module _ {S : Type 0} (server : Server) (has : String → S → Bool) where
  -- The store has no record but those of registered workloads and those that are allowed.
  abbrev pub OnlyRegistered : (String → Type 0) → Dns S → Type 0
  OnlyRegistered allowed s =
      (st : S) → s.store ≡ some st → Covered server has allowed s.workload_records st

  module _ (db : Store S) where
    -- The request registers an address in the place of a record under the key k, whose deletion
    -- then fails; the service logs that.
    pub record IsLeft (r : Request) (s : Dns S) (k : String) : Type 0 where
      pub namespace : String
      pub workload_name : String
      pub ipv4 : String
      pub request : r ≡ Request.upsert namespace workload_name ipv4
      pub prev : Record
      pub replaced :
          GoMap.lookup (workload_record_key server namespace workload_name) s.workload_records
          ≡ some prev
      pub of_key : server.key prev ≡ k
      pub norm : Record
      pub normal :
          server.normalize_record (workload_record server namespace workload_name ipv4 s)
          ≡ some norm
      pub st : S
      pub store : s.store ≡ some st
      pub stuck : IsStuck server has db prev norm st

    -- One of the requests left a record under the key.
    pub data Left : List Request → Dns S → String → Type 0 where
      now :
          (r : Request) (rs : List Request) (s : Dns S) (k : String)
          → IsLeft r s k
          → Left (r ∷ rs) s k
      later :
          (r : Request) (rs : List Request) (s : Dns S) (k : String)
          → Left rs (handle server db r s) k
          → Left (r ∷ rs) s k

  module _ (db : Store S) (laws : StoreLaws server db has) (old new : String → Type 0)
      (grow : (k : String) → old k → new k) where
    only_to :
        (m : GoMap Record) (st : S)
        → Covered server has new m st
        → (st' : S) → some st ≡ some st'
        → Covered server has new m st'
    only_to m st c st' e k h = let same : st ≡ st' = cc e in c k (rw same h)

    same_state : (s : Dns S) → OnlyRegistered old s → OnlyRegistered new s
    same_state s h st e = grown server has db laws old new grow s.workload_records st (h st e)

    either :
        (b : Bool) (x y : Option DnsError × Dns S)
        → OnlyRegistered new x.1
        → OnlyRegistered new y.1
        → OnlyRegistered new (if b then x else y).1
    either true x y p q = p
    either false x y p q = q

    save-OnlyRegistered :
        (key : String) (norm : Record) (st : S) (s : Dns S)
        → ((p : Record)
            → GoMap.lookup key s.workload_records ≡ some p
            → IsStuck server has db p norm st
            → new (server.key p))
        → Covered server has old s.workload_records st
        → OnlyRegistered new (Dns.save server db key norm st s).1
    unfolding Dns.save
    save-OnlyRegistered key norm st s left c = elim (Bool-cases (db.save_record norm st).0) [
      | inl saved ↦ rw saved (
          only_to _ _ (
            replaced_covers server has db laws old new grow key norm
              (GoMap.lookup key s.workload_records) s.workload_records st refl saved left c))
      | inr failed ↦ rw failed (
          only_to _ _
            (save_failed server has db laws old new grow s.workload_records norm st failed c))
    ]

    save_normalized-OnlyRegistered :
        (key : String) (norm : Option Record) (st : S) (s : Dns S)
        → s.store ≡ some st
        → ((p n : Record)
            → GoMap.lookup key s.workload_records ≡ some p
            → norm ≡ some n
            → IsStuck server has db p n st
            → new (server.key p))
        → OnlyRegistered old s
        → OnlyRegistered new (Dns.save_normalized server db key norm st s).1
    unfolding Dns.save_normalized
    save_normalized-OnlyRegistered key none st s e left h = same_state s h
    save_normalized-OnlyRegistered key (some norm) st s e left h =
        save-OnlyRegistered key norm st s (λ p found. left p norm found refl) (h st e)

    upsert_in-OnlyRegistered :
        (ns w ip : String) (store : Option S) (s : Dns S)
        → s.store ≡ store
        → ((p n : Record) (st : S)
            → store ≡ some st
            → GoMap.lookup (workload_record_key server ns w) s.workload_records ≡ some p
            → server.normalize_record (workload_record server ns w ip s) ≡ some n
            → IsStuck server has db p n st
            → new (server.key p))
        → OnlyRegistered old s
        → OnlyRegistered new (Dns.upsert_in server db ns w ip store s).1
    unfolding Dns.upsert_in
    upsert_in-OnlyRegistered ns w ip none s e left h = same_state s h
    upsert_in-OnlyRegistered ns w ip (some st) s e left h =
        either (trim_space ip == "") _ _ (same_state s h)
          (save_normalized-OnlyRegistered _ _ st s e (λ p n. left p n st refl) h)

    remove_found-OnlyRegistered :
        (key : String) (found : Option Record) (st : S) (s : Dns S)
        → GoMap.lookup key s.workload_records ≡ found
        → s.store ≡ some st
        → OnlyRegistered old s
        → OnlyRegistered new (Dns.remove_found server db key found st s).1
    unfolding Dns.remove_found
    remove_found-OnlyRegistered key none st s f e h = same_state s h
    remove_found-OnlyRegistered key (some prev) st s f e h =
        elim (Bool-cases (db.delete_record prev st).0) [
          | inl done ↦ rw done (
              only_to _ _ (
                delete_covers server has db laws old new grow key prev s.workload_records st done f
                  (h st e)))
          | inr failed ↦ rw failed (
              only_to _ _ (
                delete_failed server has db laws old new grow s.workload_records prev st failed
                  (h st e)))
        ]

    remove_in-OnlyRegistered :
        (ns w : String) (store : Option S) (s : Dns S)
        → s.store ≡ store
        → OnlyRegistered old s
        → OnlyRegistered new (Dns.remove_in server db ns w store s).1
    unfolding Dns.remove_in
    remove_in-OnlyRegistered ns w none s e h = same_state s h
    remove_in-OnlyRegistered ns w (some st) s e h = remove_found-OnlyRegistered _ _ st s refl e h

    handle-OnlyRegistered :
        (r : Request) (s : Dns S)
        → ((k : String) → IsLeft db r s k → new k)
        → OnlyRegistered old s
        → OnlyRegistered new (handle server db r s)
    unfolding upsert_workload_a remove_workload_a
    handle-OnlyRegistered (Request.upsert ns w ip) s left h =
        either (not s.enabled) _ _ (same_state s h) (
          upsert_in-OnlyRegistered ns w ip s.store s refl
            (λ p n st there found normal stuck. left (server.key p) (record {
              namespace = ns;
              workload_name = w;
              ipv4 = ip;
              request = refl;
              prev = p;
              replaced = found;
              of_key = refl;
              norm = n;
              normal = normal;
              st = st;
              store = there;
              stuck = stuck;
            }))
            h)
    handle-OnlyRegistered (Request.remove ns w) s left h =
        either (not s.enabled) _ _ (same_state s h) (remove_in-OnlyRegistered ns w s.store s refl h)

  module _ (db : Store S) (laws : StoreLaws server db has) where
    handle_all_allowed :
        (rs : List Request) (s : Dns S) (allowed : String → Type 0)
        → OnlyRegistered allowed s
        → OnlyRegistered (λ k. allowed k ⊎ Left db rs s k) (handle_all server db rs s)
    handle_all_allowed [] s allowed h st e k there = elim (h st e k there) [
      | inl r ↦ inl r
      | inr a ↦ inr (inl a)
    ]
    handle_all_allowed (r ∷ rs) s allowed h st e k there =
        elim (handle_all_allowed rs (handle server db r s) (λ j. allowed j ⊎ IsLeft db r s j)
          (handle-OnlyRegistered db laws allowed (λ j. allowed j ⊎ IsLeft db r s j) (λ j a. inl a) r
            s (λ j l. inr l) h)
          st e k there) [
            | inl known ↦ inl known
            | inr (inl (inl a)) ↦ inr (inl a)
            | inr (inl (inr l)) ↦ inr (inr (now r rs s k l))
            | inr (inr l) ↦ inr (inr (later r rs s k l))
          ]

    -- Under the laws of the store: whatever addresses of workloads are registered and removed, a
    -- record that the store has in the end is that of a registered workload, was in the store at the
    -- start, or is one that a new address replaced and whose deletion failed.
    pub handle_all-OnlyRegistered :
        (rs : List Request) (s : Dns S) (start : S)
        → s.store ≡ some start
        → OnlyRegistered (λ k. (has k start ≡ true) ⊎ Left db rs s k) (handle_all server db rs s)
    handle_all-OnlyRegistered rs s start e =
        handle_all_allowed rs s (λ k. has k start ≡ true)
          (λ st e' k h. inr (
            let same : start ≡ st = (let q : some start ≡ some st = sym e ∙ e' in cc q) in
            rw same h))
