-- ===== src/Task/Select/Selected.antt =====
-- selectOperationWorkloads of internal/services/task/operations_select.go against a plain filter.
use orch.Prelude.{
  String, Bool, true, false, some, List, [], ◌∷◌, ◌≡◌, ◌≢◌, refl, sym, subst, ap, ◌∙◌, ◌⊎◌, inl,
  inr, ◌↔◌, arith, ◌==◌, eq_iff, Bool-cases, if◌then◌else◌,
}
use mathlib.Core.List.{Memᴰ}
use text.Mathlib.TextPositions.{eq_refl}
use orch.Prelude.Text.{trim_space}
use orch.Prelude.Members.{Distinct}
use orch.Deploy.Document.{Workload, App}
use orch.Deploy.Libraries.{Libraries}
use orch.Deploy.Dependencies
use orch.Deploy.Dependencies.{workloads_in_dependency_order}
use orch.Deploy.Dependencies.Order.{trimmed_names}
use orch.Task.Libraries.{RequestSet, RequestSetLaws, SortLaws}
use orch.Task.Errors.{Result, ok, err, workloads_not_found}
use orch.Task.Select.{
  of_order, add_request, add_requests, requested_workload_names, selected_operation_workloads,
  missing_workload_error, selection, select_from, select_operation_workloads,
}

-- The names that are asked for.
abbrev pub requests : List String → List String
requests [] = []
requests (raw ∷ names) =
    let rest = requests names in if trim_space raw == "" then rest else trim_space raw ∷ rest

abbrev pub listed : String → List String → Bool
listed x [] = false
listed x (y ∷ ys) = if y == x then true else listed x ys

abbrev pub keep : (String → Bool) → List Workload → List Workload
keep test [] = []
keep test (w ∷ ws) = let rest = keep test ws in if test (trim_space w.name) then w ∷ rest else rest

-- All workloads if no name is asked for, else those that are asked for, in the order of the list.
abbrev pub asked_for : List String → List Workload → List Workload
asked_for [] ws = ws
asked_for (r ∷ rs) ws = keep (λ x. listed x (r ∷ rs)) ws

listed_member : (x : String) (ys : List String) → (listed x ys ≡ true) ↔ Memᴰ x ys
listed_member x ys = (onward ys, back ys)
  where
    onward : (ys : List String) → listed x ys ≡ true → Memᴰ x ys
    onward [] h = absurd (cc h)
    onward (y ∷ ys) h = elim (Bool-cases (y == x)) [
      | inl same ↦ Memᴰ.head (sym ((eq_iff y x).0 same))
      | inr other ↦ Memᴰ.tail (onward ys (rw other at h))
    ]

    back : (ys : List String) → Memᴰ x ys → listed x ys ≡ true
    back [] m = elim m [ ]
    back (y ∷ ys) (Memᴰ.head e) = rw (← e) (ground (arith, eq_refl x))
    back (y ∷ ys) (Memᴰ.tail m) = ground (arith, back ys m)

keep_same :
    (f g : String → Bool) (ws : List Workload)
    → ((x : String) → Memᴰ x (trimmed_names ws) → f x ≡ g x)
    → keep f ws ≡ keep g ws
keep_same f g [] h = refl
keep_same f g (w ∷ ws) h =
    rw (h (trim_space w.name) (Memᴰ.head refl), keep_same f g ws (λ x m. h x (Memᴰ.tail m))) refl

module _ {O : Type 0} (set : RequestSet O) (laws : RequestSetLaws set)
    (sort : List String → List String) where
  -- Whether the name could be removed, that is, whether it is in the set.
  abbrev held : O → String → Bool
  held s x = (set.remove x s).0

  same_test : (a b : Bool) → ((a ≡ true) ↔ (b ≡ true)) → a ≡ b
  same_test true true h = refl
  same_test true false h = sym (h.0 refl)
  same_test false true h = h.1 refl
  same_test false false h = refl

  held-remove : (a x : String) (s : O) → x ≢ a → held (set.remove a s).1 x ≡ held s x
  held-remove a x s ne = same_test (held (set.remove a s).1 x) (held s x) (
    λ h.
        (laws.removed x s).1
          ((laws.values-remove a x s).0 ((laws.removed x (set.remove a s).1).0 h)).0,
    λ h.
        (laws.removed x (set.remove a s).1).1
          ((laws.values-remove a x s).1 ((laws.removed x s).0 h, ne)),
  )

  selected_keeps :
      (ws : List Workload) (s : O)
      → Distinct (trimmed_names ws)
      → (selected_operation_workloads set sort ws s).0 ≡ keep (held s) ws
  unfolding selected_operation_workloads
  selected_keeps [] s d = refl
  selected_keeps (w ∷ ws) s d =
      let name = trim_space w.name in
      let rest = selected_keeps ws (set.remove name s).1 d.1 in
      let same =
        keep_same (held (set.remove name s).1) (held s) ws
          (λ x m. held-remove name x s (λ e. d.0 (subst (λ y. Memᴰ y (trimmed_names ws)) e m))) in
      elim (Bool-cases (set.remove name s).0) [
        | inl h ↦ rw h (ap (λ l. w ∷ l) (rest ∙ same))
        | inr h ↦ rw h (rest ∙ same)
      ]

  left_over :
      (ws : List Workload) (s : O) (x : String)
      → Memᴰ x (set.values (selected_operation_workloads set sort ws s).1)
        ↔ (Memᴰ x (set.values s) × ¬ Memᴰ x (trimmed_names ws))
  unfolding selected_operation_workloads
  left_over [] s x = (λ m. (m, λ n. elim n [ ]), λ h. h.0)
  left_over (w ∷ ws) s x =
      let name = trim_space w.name in
      let ih = left_over ws (set.remove name s).1 x in
      let vr = laws.values-remove name x s in
      (
        λ m.
            let (inside, absent) = ih.0 m in
            let (before, ne) = vr.0 inside in (before, λ n. nowhere name n ne absent),
        λ h. ih.1 (vr.1 (h.0, λ e. h.1 (Memᴰ.head e)), λ k. h.1 (Memᴰ.tail k)),
      )
    where
      nowhere :
          (name : String)
          → Memᴰ x (name ∷ trimmed_names ws)
          → x ≢ name
          → ¬ Memᴰ x (trimmed_names ws)
          → ⊥
      nowhere name (Memᴰ.head e) ne absent = ne e
      nowhere name (Memᴰ.tail k) ne absent = absent k

  requested_members :
      (names : List String) (s : O) (x : String)
      → Memᴰ x (set.values (add_requests set sort names s))
        ↔ (Memᴰ x (requests names) ⊎ Memᴰ x (set.values s))
  unfolding add_requests add_request
  requested_members [] s x = (inr, λ h. elim h [ inl m ↦ elim m [ ] | inr m ↦ m ])
  requested_members (raw ∷ names) s x = elim (Bool-cases (trim_space raw == "")) [
    | inl blank ↦ rw blank (requested_members names s x)
    | inr named ↦ rw named (
        moved (trim_space raw) (requested_members names (set.add (trim_space raw) s) x)
          (laws.values-add (trim_space raw) x s))
  ]
    where
      moved :
          {M A K : Type 0} (t : String)
          → M ↔ (Memᴰ x (requests names) ⊎ A)
          → A ↔ ((t ≡ x) ⊎ K)
          → M ↔ (Memᴰ x (t ∷ requests names) ⊎ K)
      moved t p q = (
        λ m. elim (p.0 m) [
          | inl r ↦ inl (Memᴰ.tail r)
          | inr a ↦ elim (q.0 a) [ inl e ↦ inl (Memᴰ.head (sym e)) | inr k ↦ inr k ]
        ],
        λ h. elim h [
          | inl r ↦ elim r [
            | Memᴰ.head e ↦ p.1 (inr (q.1 (inl (sym e))))
            | Memᴰ.tail k ↦ p.1 (inl k)
          ]
          | inr k ↦ p.1 (inr (q.1 (inr k)))
        ],
      )

  module _ (sort_laws : SortLaws sort) where
    -- What a selection is: the plain filter if every name that is asked for is a workload's, else an
    -- error that lists just the names that are not.
    pub data IsSelection (names : List String) (ordered : List Workload)
        : Result (List Workload) → Type 0 where
      all_found :
          ((x : String) → Memᴰ x (requests names) → Memᴰ x (trimmed_names ordered))
          → IsSelection names ordered (ok (asked_for (requests names) ordered))
      some_missing :
          (missing : List String)
          → ((x : String)
              → Memᴰ x missing ↔ (Memᴰ x (requests names) × ¬ Memᴰ x (trimmed_names ordered)))
          → missing ≢ []
          → IsSelection names ordered (err (workloads_not_found missing))

    no_members : (xs : List String) → ((x : String) → ¬ Memᴰ x xs) → xs ≡ []
    no_members [] h = refl
    no_members (x ∷ xs) h = absurd (h x (Memᴰ.head refl))

    asked_keeps :
        (rs : List String) (ws : List Workload)
        → rs ≢ []
        → asked_for rs ws ≡ keep (λ x. listed x rs) ws
    asked_keeps [] ws h = absurd (h refl)
    asked_keeps (r ∷ rs) ws h = refl

    module _ (names : List String) where
      wanted : O
      wanted = requested_workload_names set sort names

      wanted_members : (x : String) → Memᴰ x (set.values wanted) ↔ Memᴰ x (requests names)
      unfolding wanted requested_workload_names
      wanted_members x =
          let h = requested_members names set.new_set x in
          (
            λ m. elim (h.0 m) [
              | inl r ↦ r
              | inr n ↦ elim (subst (Memᴰ x) laws.values-new_set n) [ ]
            ],
            λ r. h.1 (inl r),
          )

      held_listed : (x : String) → held wanted x ≡ listed x (requests names)
      held_listed x = same_test (held wanted x) (listed x (requests names)) (
        λ h.
            (listed_member x (requests names)).1
              ((wanted_members x).0 ((laws.removed x wanted).0 h)),
        λ h.
            (laws.removed x wanted).1
              ((wanted_members x).1 ((listed_member x (requests names)).0 h)),
      )

      selection-IsSelection :
          (ordered : List Workload)
          → requests names ≢ []
          → Distinct (trimmed_names ordered)
          → IsSelection names ordered
              (selection set sort (selected_operation_workloads set sort ordered wanted))
      unfolding selection missing_workload_error
      selection-IsSelection ordered some_asked d =
          let left = (selected_operation_workloads set sort ordered wanted).1 in
          let over = λ (x : String). left_over ordered wanted x in
          let kept =
            selected_keeps ordered wanted d
            ∙ keep_same (held wanted) (λ x. listed x (requests names)) ordered
                (λ x m. held_listed x)
            ∙ sym (asked_keeps (requests names) ordered some_asked) in
          elim (Bool-cases (set.is_empty left)) [
            | inl none_left ↦ rw none_left (rw kept (all_found (found none_left over)))
            | inr some_left ↦
                rw some_left (some_missing (sort (set.values left)) (missed over) (there some_left))
          ]
        where
          found :
              {left : O}
              → set.is_empty left ≡ true
              → ((x : String)
                  → Memᴰ x (set.values left)
                    ↔ (Memᴰ x (set.values wanted) × ¬ Memᴰ x (trimmed_names ordered)))
              → (x : String) → Memᴰ x (requests names)
              → Memᴰ x (trimmed_names ordered)
          found {left} empty over x r = elim (Bool-cases (listed x (trimmed_names ordered))) [
            | inl h ↦ (listed_member x (trimmed_names ordered)).0 h
            | inr h ↦
                elim (subst (Memᴰ x) ((laws.emptiness left).0 empty) (
                  (over x).1 (
                    (wanted_members x).1 r,
                    λ m. let t = (listed_member x (trimmed_names ordered)).1 m in cc (t, h),
                  ))) [ ]
          ]

          missed :
              {left : O}
              → ((x : String)
                  → Memᴰ x (set.values left)
                    ↔ (Memᴰ x (set.values wanted) × ¬ Memᴰ x (trimmed_names ordered)))
              → (x : String)
              → Memᴰ x (sort (set.values left))
                ↔ (Memᴰ x (requests names) × ¬ Memᴰ x (trimmed_names ordered))
          missed {left} over x = (
            λ m.
                let h = (over x).0 ((sort_laws.members x (set.values left)).0 m) in
                ((wanted_members x).0 h.0, h.1),
            λ h.
                (sort_laws.members x (set.values left)).1
                  ((over x).1 ((wanted_members x).1 h.0, h.1)),
          )

          there : {left : O} → set.is_empty left ≡ false → sort (set.values left) ≢ []
          there {left} full e =
              let none = no_members (set.values left) (λ x m.
                elim (subst (Memᴰ x) e ((sort_laws.members x (set.values left)).1 m)) [ ]) in
              let t = (laws.emptiness left).1 none in cc (t, full)

      select_from-IsSelection :
          (ordered : List Workload)
          → Distinct (trimmed_names ordered)
          → IsSelection names ordered (select_from set sort ordered wanted)
      unfolding select_from
      select_from-IsSelection ordered d = elim (Bool-cases (set.is_empty wanted)) [
        | inl nothing ↦ rw nothing (
            let none = no_members (requests names) (λ x r.
              elim (subst (Memᴰ x) ((laws.emptiness wanted).0 nothing)
                ((wanted_members x).1 r)) [ ]) in
            subst (λ rs. IsSelection names ordered (ok (asked_for rs ordered))) none
              (all_found (λ x r. elim (subst (Memᴰ x) none r) [ ])))
        | inr something ↦ rw something (
            selection-IsSelection ordered
              (λ e.
                let none =
                  no_members (set.values wanted)
                    (λ x m. elim (subst (Memᴰ x) e ((wanted_members x).0 m)) [ ]) in
                let t = (laws.emptiness wanted).1 none in cc (t, something))
              d)
      ]

    -- Under the laws of the set and of sorting, for an app whose dependency order has distinct names:
    -- if every name that is asked for, trimmed and not empty, is a workload's, the selection has the
    -- workloads that are asked for in dependency order, all of them if no name is asked for; else it is
    -- an error that lists the names which are no workload's, at least one.
    pub select_operation_workloads_lem :
        {S G : Type 0} (lib : Libraries S G) (app : App) (names : List String)
        (ordered : List Workload)
        → workloads_in_dependency_order lib app ≡ Dependencies.Result.ok ordered
        → Distinct (trimmed_names ordered)
        → IsSelection names ordered (select_operation_workloads set sort lib (some app) names)
    unfolding select_operation_workloads of_order
    select_operation_workloads_lem lib app names ordered e d =
        rw e (unfold wanted in select_from-IsSelection names ordered d)
