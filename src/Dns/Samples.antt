-- ===== src/Dns/Samples.antt =====
-- Runs of internal/dnssvc/workload_dns.go with a store that is a list of records.
use orch.Prelude.{
  String, Bool, true, false, not, ◌&&◌, ◌||◌, none, some, List, [], ◌∷◌, ◌≡◌, ◌⊎◌, refl, sym, ap,
  arith, eq_iff, ◌==◌, if◌then◌else◌,
}
use orch.Prelude.Text.{trim_space}
use orch.Prelude.GoMap
use orch.Dns
use orch.Dns.{Dns, upsert_workload_a, lookup_workload_ipv4}
use orch.Dns.Libraries.{Record, Server, Store, ServerLaws, StoreLaws}
use orch.Dns.Texts.{workload_record_key}
use orch.Dns.Registered.{Request, OnlyRegistered, Left, handle_all, handle_all-OnlyRegistered}
use orch.Dns.Lookup.{upsert_then_lookup}

abbrev plain : Server
plain = record {
  to_lower = λ s. s;
  trim_dots = λ s. s;
  is_ipv4 = λ s. not (s == "");
  type_a = 1;
  normalize_record = λ r. some r;
  key = λ r. r.name;
}

plain_laws : ServerLaws plain
plain_laws = record {
  address_kept = λ r norm e v. let same : r ≡ norm = cc e in ap (λ x. x.data_text) (sym same);
}

abbrev has_name : String → List Record → Bool
has_name k [] = false
has_name k (r ∷ rs) = r.name == k || has_name k rs

abbrev without_name : String → List Record → List Record
without_name k [] = []
without_name k (r ∷ rs) = let rest = without_name k rs in if k == r.name then rest else r ∷ rest

abbrev in_memory : Store (List Record)
in_memory = record {
  save_record = λ r st. (true, r ∷ st);
  delete_record = λ r st. (true, without_name r.name st);
}

has_name-without_name :
    (k j : String) (st : List Record)
    → has_name k (without_name j st) ≡ (not (j == k) && has_name k st)
has_name-without_name k j [] = ground arith
has_name-without_name k j (r ∷ rs) =
    ground (arith, eq_iff j k, eq_iff j r.name, eq_iff r.name k, has_name-without_name k j rs)

in_memory_laws : StoreLaws plain in_memory has_name
in_memory_laws = record {
  has_saved = λ k r st. refl;
  has_deleted = λ k r st. has_name-without_name k r.name st;
}

abbrev started : Dns (List Record)
started = record {
  enabled = true;
  zone = "orch.local";
  store = some [];
  workload_records = GoMap.GoMap.nil;
  assignments = none;
}

abbrev requests : List Request
requests =
    Request.upsert "" "web" "10.0.0.2"
    ∷ Request.upsert "" " web" "10.0.0.3"
    ∷ Request.upsert "shop" "db" "10.0.0.4"
    ∷ Request.remove "default" "web"
    ∷ []

-- The record of the zone, which the service saves when it starts.
abbrev zone_record : Record
zone_record = record {
  zone = "orch.local";
  name = "orch.local";
  ttl = 60;
  rtype = 1;
  data_text = "127.0.0.1";
}

abbrev seeded : Dns (List Record)
seeded = record started { store = some (zone_record ∷ []) }

handle_all-OnlyRegistered_example :
    OnlyRegistered plain has_name
      (λ k.
        (has_name k (zone_record ∷ []) ≡ true) ⊎ Left plain has_name in_memory requests seeded k)
      (handle_all plain in_memory requests seeded)
handle_all-OnlyRegistered_example =
    handle_all-OnlyRegistered plain has_name in_memory in_memory_laws requests seeded
      (zone_record ∷ []) refl

upsert_then_lookup_example :
    lookup_workload_ipv4 plain "default" " web"
      (upsert_workload_a plain in_memory "" "web" " 10.0.0.2" started).1
    ≡ (if workload_record_key plain "" "web" == workload_record_key plain "default" " web"
        then some (trim_space " 10.0.0.2")
        else lookup_workload_ipv4 plain "default" " web" started)
unfolding upsert_workload_a Dns.upsert_in Dns.save_normalized Dns.save trim_space
upsert_then_lookup_example =
    upsert_then_lookup plain in_memory plain_laws "" "web" " 10.0.0.2" started [] refl refl refl
      refl "default" " web"
