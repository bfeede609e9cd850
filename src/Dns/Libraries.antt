-- ===== src/Dns/Libraries.antt =====
-- What internal/dnssvc takes from other code: the record, its normal form and its key from
-- dnsserver, the store of records, the test of net.ParseIP(ip).To4(), and strings.ToLower with
-- strings.Trim of dots, which go by Unicode tables.
use orch.Prelude.{ℕ, String, Bool, true, not, ◌&&◌, ◌||◌, Option, some, ◌≡◌, ◌==◌}

pub record Record : Type 0 where
  pub zone : String
  pub name : String
  pub ttl : ℕ
  pub rtype : ℕ
  pub data_text : String

pub record Server : Type 0 where
  pub to_lower : String → String
  pub trim_dots : String → String
  pub is_ipv4 : String → Bool
  pub type_a : ℕ
  pub normalize_record : Record → Option Record
  pub key : Record → String

-- A save or a delete says whether it was done.
pub record Store (S : Type 0) : Type 0 where
  pub save_record : Record → S → Bool × S
  pub delete_record : Record → S → Bool × S

-- A normal form keeps an IPv4 address.
pub record ServerLaws (server : Server) : Type 0 where
  pub address_kept :
      (r norm : Record)
      → server.normalize_record r ≡ some norm
      → server.is_ipv4 r.data_text ≡ true
      → norm.data_text ≡ r.data_text

-- A store that has a record under each of some keys: a save that is done adds the key of its record
-- and a delete that is done takes it away; one that fails changes nothing.
pub record StoreLaws {S : Type 0} (server : Server) (db : Store S) (has : String → S → Bool)
    : Type 0 where
  pub has_saved :
      (k : String) (r : Record) (st : S)
      → has k (db.save_record r st).1 ≡ ((db.save_record r st).0 && server.key r == k) || has k st
  pub has_deleted :
      (k : String) (r : Record) (st : S)
      → has k (db.delete_record r st).1
        ≡ (not ((db.delete_record r st).0 && server.key r == k) && has k st)
