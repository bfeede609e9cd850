-- ===== src/Task/Samples/Nodes.antt =====
-- A failover in a cluster of three nodes.
use orch.Prelude.{String, true, false, List, [], ◌∷◌, ◌≡◌, refl, ◌↔◌, ◌==◌, if◌then◌else◌, Bool}
use mathlib.Core.List.{Memᴰ}
use orch.Prelude.Text.{trim_space}
use orch.Prelude.Members.{Distinct}
use orch.Prelude.GoMap
use orch.Config.{ClusterConfig}
use orch.Placement.Choose
use orch.Placement.Samples.{
  whole, whole_laws, list_set, list_set_laws, list_set_adds, two_nodes, workload_of,
}
use orch.Task.Libraries.{NodeSet, NodeSetLaws, SortLaws}
use orch.Task.Nodes
use orch.Task.Nodes.{alternative_node_candidates, choose_failover_node}
use orch.Task.Nodes.Collected.{IsOffered}
use orch.Task.Nodes.Candidates.{known_names, alternative_node_candidates_lem}
use orch.Task.Nodes.Failover.{choose_failover_node_other}

abbrev list_contains : List String → String → Bool
list_contains [] x = false
list_contains (y ∷ ys) x = if y == x then true else list_contains ys x

abbrev pub names_seen : NodeSet (List String)
names_seen = record { new_set = []; add = λ x xs. x ∷ xs; contains = list_contains }

pub names_seen_laws : NodeSetLaws names_seen
names_seen_laws = record { contains-new_set = λ a. refl; contains-add = λ a b s. refl }

abbrev unsorted : List String → List String
unsorted xs = xs

unsorted_laws : SortLaws unsorted
unsorted_laws = record { members = λ x xs. (λ m. m, λ m. m) }

abbrev pub three : ClusterConfig
three = record {
  nodes = GoMap.GoMap.made (("b", "http://b:17443/") ∷ ("c", "http://c:17443") ∷ []);
  worker_token = "";
}

candidates_of_a :
    alternative_node_candidates names_seen unsorted three ("a" ∷ "b" ∷ []) "b" " a" ≡ "b" ∷ "c" ∷ []
unfolding alternative_node_candidates trim_space
candidates_of_a = refl

alternative_node_candidates_lem_example :
    ((x : String)
      → Memᴰ x (alternative_node_candidates names_seen unsorted three ("a" ∷ "b" ∷ []) "b" " a")
        ↔ IsOffered (trim_space " a") (known_names three ("a" ∷ "b" ∷ []) "b") x)
    × Distinct (alternative_node_candidates names_seen unsorted three ("a" ∷ "b" ∷ []) "b" " a")
alternative_node_candidates_lem_example =
    alternative_node_candidates_lem names_seen names_seen_laws unsorted unsorted_laws three
      ("a" ∷ "b" ∷ []) "b" " a"

choose_failover_node_other_example :
    IsOffered (trim_space " a") (known_names three ("a" ∷ "b" ∷ []) "b") (trim_space "b")
unfolding choose_failover_node alternative_node_candidates Nodes.choose_workload_node
    Nodes.failover_candidate Choose.choose_v1_alpha1 Choose.choose_from Choose.placement_candidates
    Choose.preferred_names Choose.workload_request Choose.best_placement_candidate
    Choose.choose_better_candidate Choose.catalog_get Choose.feasible
    Choose.should_replace_candidate Choose.best_id trim_space
choose_failover_node_other_example =
    choose_failover_node_other whole whole_laws list_set list_set_laws list_set_adds three two_nodes
      "b" (workload_of 100 []) names_seen names_seen_laws unsorted unsorted_laws " a" "b" refl refl
