-- ===== src/Raft/Normalize/Keys.antt =====
-- What normalizing an assignment or a volume binding (internal/raftsvc/fsm.go) grants of its key.
use orch.Prelude.{
  String, false, some, refl, ◌≡◌, ◌≢◌, ◌⊎◌, inl, inr, arith, ◌==◌, eq_iff, if◌then◌else◌,
  Bool-cases,
}
use orch.Prelude.Text.{trim_space, trim_space_idem}
use orch.Prelude.Trim.{IsTrimmed, trim_space-IsTrimmed}
use orch.Meta.{Assignment, Binding, assignment_key, binding_key}
use orch.Meta.Keys.{
  assignment_key-IsTrimmed, binding_key-IsTrimmed, assignment_key-ne-nil, binding_key-ne-nil,
}
use orch.Raft.Normalize.{normalize_assignment, normalize_volume_binding}

-- A table's key, as it is stored: with no space around it, and not empty.
pub record IsKey (k : String) : Type 0 where
  pub trimmed : IsTrimmed k
  pub not_nil : k ≢ ""

-- The key that is given, and else the one that is made.
abbrev pick : String → String → String
pick given made = if given == "" then made else given

pick-IsKey :
    (given made : String)
    → IsTrimmed given
    → (made ≡ "") ⊎ IsTrimmed made
    → (pick given made == "") ≡ false
    → IsKey (pick given made)
pick-IsKey given made hg hm e = record {
  trimmed = elim (Bool-cases (given == "")) [
    | inl blank ↦ rw blank (elim hm [
      | inl nothing ↦
          absurd (let q : (made == "") ≡ false = rw blank at e in ground (arith, eq_iff made ""))
      | inr trimmed ↦ trimmed
    ])
    | inr set ↦ rw set hg
  ];
  not_nil = λ p. ground (arith, eq_iff (pick given made) "");
}

module _ (a b : Assignment) (e : normalize_assignment a ≡ some b) where
  normalize_assignment-key :
      (b.key ≡ pick (trim_space a.key) (assignment_key b.metadata b.workload))
      × ((b.key == "") ≡ false)
  unfolding normalize_assignment
  normalize_assignment-key = ground arith

  -- A normalized assignment has a name, a workload and a proper key.
  pub normalize_assignment-IsKey : IsKey b.key
  normalize_assignment-IsKey =
      let (chosen, set) = normalize_assignment-key in
      rw chosen (
        pick-IsKey (trim_space a.key) (assignment_key b.metadata b.workload)
          (trim_space-IsTrimmed a.key) (assignment_key-IsTrimmed b.metadata b.workload)
          (rw chosen at set))

module _ (a b : Binding) (e : normalize_volume_binding a ≡ some b) where
  normalize_volume_binding-key :
      (b.key ≡ pick (trim_space a.key) (binding_key b.metadata b.workload b.volume))
      × ((b.key == "") ≡ false)
  unfolding normalize_volume_binding
  normalize_volume_binding-key = ground arith

  pub normalize_volume_binding-IsKey : IsKey b.key
  normalize_volume_binding-IsKey =
      let (chosen, set) = normalize_volume_binding-key in
      rw chosen (
        pick-IsKey (trim_space a.key) (binding_key b.metadata b.workload b.volume)
          (trim_space-IsTrimmed a.key) (binding_key-IsTrimmed b.metadata b.workload b.volume)
          (rw chosen at set))

-- An assignment with the names that it must have is normalized.
pub normalize_assignment-named :
    (a : Assignment)
    → trim_space a.metadata.name ≢ ""
    → trim_space a.workload ≢ ""
    → (b : Assignment) × (normalize_assignment a ≡ some b)
      × (b.metadata.name ≡ trim_space a.metadata.name)
      × (b.workload ≡ trim_space a.workload)
      × (b.status ≡ trim_space a.status)
      × (b.node ≡ trim_space a.node)
unfolding normalize_assignment
normalize_assignment-named a named set =
    let meta = record a.metadata {
      name = trim_space a.metadata.name;
      namespace = trim_space a.metadata.namespace;
    } in
    let made =
      assignment_key-ne-nil meta (trim_space a.workload)
        (rw (trim_space_idem a.metadata.name) named) (rw (trim_space_idem a.workload) set) in
    let n : (trim_space a.metadata.name == "") ≡ false =
      grind (arith, named, eq_iff (trim_space a.metadata.name) "") in
    let s : (trim_space a.workload == "") ≡ false =
      grind (arith, set, eq_iff (trim_space a.workload) "") in
    let m : (assignment_key meta (trim_space a.workload) == "") ≡ false =
      grind (arith, made, eq_iff (assignment_key meta (trim_space a.workload)) "") in
    elim (Bool-cases (trim_space a.key == "")) [
      | inl blank ↦ rw (n, s, blank, m) (_, refl, refl, refl, refl, refl)
      | inr given ↦ rw (n, s, given) (rw given (_, refl, refl, refl, refl, refl))
    ]

pub normalize_volume_binding-named :
    (b : Binding)
    → trim_space b.metadata.name ≢ ""
    → trim_space b.workload ≢ ""
    → trim_space b.volume ≢ ""
    → (c : Binding) × (normalize_volume_binding b ≡ some c)
      × (c.metadata.name ≡ trim_space b.metadata.name)
      × (c.workload ≡ trim_space b.workload)
      × (c.volume ≡ trim_space b.volume)
      × (c.status ≡ trim_space b.status)
unfolding normalize_volume_binding
normalize_volume_binding-named b named set held =
    let meta = record b.metadata {
      name = trim_space b.metadata.name;
      namespace = trim_space b.metadata.namespace;
    } in
    let key = binding_key meta (trim_space b.workload) (trim_space b.volume) in
    let made =
      binding_key-ne-nil meta (trim_space b.workload) (trim_space b.volume)
        (rw (trim_space_idem b.metadata.name) named) (rw (trim_space_idem b.workload) set)
        (rw (trim_space_idem b.volume) held) in
    let n : (trim_space b.metadata.name == "") ≡ false =
      grind (arith, named, eq_iff (trim_space b.metadata.name) "") in
    let s : (trim_space b.workload == "") ≡ false =
      grind (arith, set, eq_iff (trim_space b.workload) "") in
    let v : (trim_space b.volume == "") ≡ false =
      grind (arith, held, eq_iff (trim_space b.volume) "") in
    let m : (key == "") ≡ false = grind (arith, made, eq_iff key "") in
    elim (Bool-cases (trim_space b.key == "")) [
      | inl blank ↦ rw (n, s, v, blank, m) (_, refl, refl, refl, refl, refl)
      | inr given ↦ rw (n, s, v, given) (rw given (_, refl, refl, refl, refl, refl))
    ]
