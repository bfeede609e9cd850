-- ===== src/Task/Samples/Submit.antt =====
-- The selection of a workload, and the submission of the sample document to an empty state.
use orch.Prelude.{
  ℕ, String, Bool, true, false, some, List, [], ◌∷◌, ◌≡◌, ◌≢◌, refl, sym, ◌∙◌, inl, inr, ◌↔◌, arith,
  ◌==◌, eq_iff, Bool-cases, if◌then◌else◌,
}
use mathlib.Core.List.{Memᴰ}
use orch.Prelude.Text.{trim_space}
use orch.Prelude.GoMap
use orch.Prelude.GoMap.{lookup-nil}
use orch.Deploy.Samples.{workload_named, shop_app, list_libraries}
use orch.Deploy.Samples.Runs.{web_workload, shop_app_valid, shop_app_ordered}
use orch.Meta.{deploy_app_map_key}
use orch.Raft.Json.{Json}
use orch.Raft.Fsm.{update, replay}
use orch.Raft.Fsm.WellFormed.{empty_state-IsWellFormed}
use orch.Raft.Lookup.{get_deploy_app, list_deploy_apps}
use orch.Raft.Samples.{toy_json, new_fsm}
use orch.Task.Libraries.{RequestSet, RequestSetLaws}
use orch.Task.Select.{select_operation_workloads}
use orch.Task.Select.Selected.{IsSelection, select_operation_workloads_lem}
use orch.Task.Preflight
use orch.Task.Submit
use orch.Task.Submit.{Proposals, submit_deploy}
use orch.Task.Submit.Ports.{
  PortsAreFree, TakesFreePorts, IsReadBack, submit_deploy-TakesFreePorts,
  submit_deploy-PortsAreFree,
}

abbrev shop_json : Json ℕ
shop_json = record toy_json {
  decode_command_type = λ b. some "upsert_deploy_app";
  decode_app = λ b. some shop_app;
}

abbrev leader : Proposals
leader = record { marshal = λ a. some (1 ∷ []); commits = λ b. true }

submitted :
    submit_deploy shop_json leader list_libraries (λ c. true) (some shop_app) (some new_fsm) []
    ≡ Submit.Result.ok (update shop_json (1 ∷ []) new_fsm).0
unfolding submit_deploy Submit.submit_to_raft Submit.apply_command Preflight.preflight_deploy
    Preflight.preflight_duplicate_host_ports Preflight.host_port_claims
    Preflight.preflight_existing_host_ports Preflight.preflight_local_host_ports list_deploy_apps
    Preflight.find_host_port_conflict Preflight.same_app_host_port_claims get_deploy_app
    GoMap.lookup replay
submitted = rw shop_app_valid refl

-- An empty log entry is committed in between.
meanwhile :
    submit_deploy shop_json leader list_libraries
      (λ c. true)
      (some shop_app)
      (some new_fsm)
      ([] ∷ [])
    ≡ Submit.Result.ok (update shop_json (1 ∷ []) (replay shop_json ([] ∷ []) new_fsm)).0
unfolding submit_deploy Submit.submit_to_raft Submit.apply_command Preflight.preflight_deploy
    Preflight.preflight_duplicate_host_ports Preflight.host_port_claims
    Preflight.preflight_existing_host_ports Preflight.preflight_local_host_ports list_deploy_apps
    Preflight.find_host_port_conflict Preflight.same_app_host_port_claims get_deploy_app
    GoMap.lookup
meanwhile = rw shop_app_valid refl

shop_app-IsReadBack : IsReadBack shop_json leader shop_app
shop_app-IsReadBack = record {
  typed = λ cmd e. record { not_nil = λ p. cc (e, p); typed = refl };
  decoded = λ cmd e. (shop_app, refl, refl, refl, refl);
}

submit_deploy-TakesFreePorts_example :
    TakesFreePorts new_fsm
      (update shop_json (1 ∷ []) (replay shop_json ([] ∷ []) new_fsm)).0
      shop_app
submit_deploy-TakesFreePorts_example =
    submit_deploy-TakesFreePorts shop_json leader list_libraries (λ c. true) new_fsm
      (update shop_json (1 ∷ []) (replay shop_json ([] ∷ []) new_fsm)).0 shop_app
      (empty_state-IsWellFormed shop_json) shop_app-IsReadBack ([] ∷ []) meanwhile

submit_deploy-PortsAreFree_example : PortsAreFree (update shop_json (1 ∷ []) new_fsm).0
unfolding get_deploy_app
submit_deploy-PortsAreFree_example =
    submit_deploy-PortsAreFree shop_json leader list_libraries (λ c. true) new_fsm
      (update shop_json (1 ∷ []) new_fsm).0 shop_app (empty_state-IsWellFormed shop_json)
      shop_app-IsReadBack
      (record {
        own = λ m a h. absurd (cc (h, lookup-nil (deploy_app_map_key m)));
        others = λ m n a b h k ne. absurd (cc (h, lookup-nil (deploy_app_map_key m)));
      })
      submitted

-- An ordered set as a list.
abbrev drop_name : String → List String → List String
drop_name a [] = []
drop_name a (x ∷ xs) = let rest = drop_name a xs in if a == x then rest else x ∷ rest

abbrev has_name : String → List String → Bool
has_name a [] = false
has_name a (x ∷ xs) = if a == x then true else has_name a xs

abbrev is_nil : List String → Bool
is_nil [] = true
is_nil (x ∷ xs) = false

abbrev pub request_list : RequestSet (List String)
request_list = record {
  new_set = [];
  add = λ a s. a ∷ s;
  remove = λ a s. (has_name a s, drop_name a s);
  is_empty = is_nil;
  values = λ s. s;
}

has_name_member : (a : String) (s : List String) → (has_name a s ≡ true) ↔ Memᴰ a s
has_name_member a s = (onward s, back s)
  where
    onward : (s : List String) → has_name a s ≡ true → Memᴰ a s
    onward [] h = absurd (cc h)
    onward (x ∷ s) h = elim (Bool-cases (a == x)) [
      | inl same ↦ Memᴰ.head ((eq_iff a x).0 same)
      | inr other ↦ Memᴰ.tail (onward s (rw other at h))
    ]

    back : (s : List String) → Memᴰ a s → has_name a s ≡ true
    back [] m = elim m [ ]
    back (x ∷ s) (Memᴰ.head e) = ground (arith, (eq_iff a x).1 e)
    back (x ∷ s) (Memᴰ.tail m) = ground (arith, back s m)

drop_name_member : (a x : String) (s : List String) → Memᴰ x (drop_name a s) ↔ (Memᴰ x s × (x ≢ a))
drop_name_member a x s = (onward s, λ h. back s h.0 h.1)
  where
    onward : (s : List String) → Memᴰ x (drop_name a s) → Memᴰ x s × (x ≢ a)
    onward [] m = elim m [ ]
    onward (y ∷ s) m = elim (Bool-cases (a == y)) [
      | inl same ↦ let (k, ne) = onward s (rw same at m) in (Memᴰ.tail k, ne)
      | inr other ↦ at_head y s (rw other at m) other (onward s)
    ]
      where
        at_head :
            (y : String) (s : List String)
            → Memᴰ x (y ∷ drop_name a s)
            → (a == y) ≡ false
            → (Memᴰ x (drop_name a s) → Memᴰ x s × (x ≢ a))
            → Memᴰ x (y ∷ s) × (x ≢ a)
        at_head y s (Memᴰ.head e) other rest =
            (Memᴰ.head e, λ q. let t = (eq_iff a y).1 (sym q ∙ e) in cc (t, other))
        at_head y s (Memᴰ.tail k) other rest = let (j, ne) = rest k in (Memᴰ.tail j, ne)

    back : (s : List String) → Memᴰ x s → x ≢ a → Memᴰ x (drop_name a s)
    back [] m ne = elim m [ ]
    back (y ∷ s) (Memᴰ.head e) ne =
        let other : (a == y) ≡ false = elim (Bool-cases (a == y)) [
          | inl same ↦ absurd (ne (e ∙ sym ((eq_iff a y).0 same)))
          | inr h ↦ h
        ] in
        rw other (Memᴰ.head e)
    back (y ∷ s) (Memᴰ.tail m) ne = elim (Bool-cases (a == y)) [
      | inl same ↦ rw same (back s m ne)
      | inr other ↦ rw other (Memᴰ.tail (back s m ne))
    ]

request_list_laws : RequestSetLaws request_list
request_list_laws = record {
  values-new_set = refl;
  values-add = λ a x s. (
    λ m. elim m [ Memᴰ.head e ↦ inl (sym e) | Memᴰ.tail k ↦ inr k ],
    λ h. elim h [ inl e ↦ Memᴰ.head (sym e) | inr k ↦ Memᴰ.tail k ],
  );
  removed = has_name_member;
  values-remove = drop_name_member;
  emptiness = empty;
}
  where
    empty : (s : List String) → (is_nil s ≡ true) ↔ (s ≡ [])
    empty [] = (λ h. refl, λ h. refl)
    empty (x ∷ s) = (λ h. absurd (cc h), λ h. absurd (cc h))

select_operation_workloads_lem_example :
    IsSelection request_list request_list_laws
      (λ xs. xs)
      (record { members = λ x xs. (λ m. m, λ m. m) })
      (" db " ∷ "" ∷ [])
      (workload_named "db" [] ∷ web_workload ∷ [])
      (select_operation_workloads request_list
        (λ xs. xs)
        list_libraries
        (some shop_app)
        (" db " ∷ "" ∷ []))
unfolding trim_space
select_operation_workloads_lem_example =
    select_operation_workloads_lem request_list request_list_laws (λ xs. xs)
      (record { members = λ x xs. (λ m. m, λ m. m) }) list_libraries shop_app (" db " ∷ "" ∷ [])
      (workload_named "db" [] ∷ web_workload ∷ []) shop_app_ordered
      (names_apart, (λ m. elim m [ ], tt))
  where
    names_apart : ¬ Memᴰ (trim_space "db") (trim_space "web" ∷ [])
    names_apart (Memᴰ.head e) = ground (arith, eq_iff "db" "web")
    names_apart (Memᴰ.tail m) = elim m [ ]
