-- ===== src/Deploy/Validate/Keys.antt =====
-- The workloads of a document that App.Validate accepts are replicated under distinct keys
-- (internal/deploy/v1alpha1/validate.go and internal/workloadmeta/meta.go).
use orch.Prelude.{String, true, none, List, [], ◌∷◌, map, ◌≡◌}
use mathlib.Core.List.{Memᴰ}
use orch.Prelude.Lists.{All}
use orch.Deploy.Document.{Metadata, Workload, App}
use orch.Deploy.Names.{name_re}
use orch.Deploy.Libraries.{Libraries, SetLaws}
use orch.Deploy.Validate.Apps.{validate}
use orch.Deploy.Validate.Accepted.{validate-IsAccepted}
use orch.Prelude.Members.{Distinct}
use orch.Deploy.Validate.Registered.{names_of}
use orch.Meta.{assignment_key}
use orch.Meta.Keys.{IsNamed, assignment_key-injective}

module _ (m : Metadata) (named : IsNamed m) where
  key_of_name :
      (x : String) (ws : List Workload)
      → name_re x ≡ true
      → All (λ (w : Workload). name_re w.name ≡ true) ws
      → Memᴰ (assignment_key m x) (map (assignment_key m) (names_of ws))
      → Memᴰ x (names_of ws)
  key_of_name x [] hx h k = elim k [ ]
  key_of_name x (w ∷ ws) hx h (Memᴰ.head e) =
      Memᴰ.head (assignment_key-injective m m x w.name named named hx h.0 e).2
  key_of_name x (w ∷ ws) hx h (Memᴰ.tail k) = Memᴰ.tail (key_of_name x ws hx h.1 k)

  Distinct-keys :
      (ws : List Workload)
      → All (λ (w : Workload). name_re w.name ≡ true) ws
      → Distinct (names_of ws)
      → Distinct (map (assignment_key m) (names_of ws))
  Distinct-keys [] h d = tt
  Distinct-keys (w ∷ ws) h d =
      (λ k. d.0 (key_of_name w.name ws h.0 h.1 k), Distinct-keys ws h.1 d.1)

module _ {S G : Type 0} (lib : Libraries S G) (laws : SetLaws lib) where
  -- Under the laws of the set, no two workloads of an accepted document have the same assignment key, so the assignment of one
  -- never replaces that of another in the replicated table.
  pub validate-Distinct_keys :
      (a : App)
      → validate lib a ≡ none
      → Distinct (map (assignment_key a.metadata) (names_of a.workloads))
  validate-Distinct_keys a h =
      let accepted = validate-IsAccepted lib laws a h in
      Distinct-keys a.metadata accepted.named a.workloads accepted.workloads_named accepted.distinct
