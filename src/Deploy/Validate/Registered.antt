-- ===== src/Deploy/Validate/Registered.antt =====
-- The loop over the workloads in App.Validate of internal/deploy/v1alpha1/validate.go: which names it
-- lets pass, and what the set of seen names holds after it.
use orch.Prelude.Members.{Distinct}
use orch.Prelude.{
  ℕ, suc, String, Bool, true, false, none, some, List, [], ◌∷◌, map, ◌≡◌, refl, sym, subst, ◌⊎◌,
  inl, inr, arith, ◌==◌, eq_iff, Bool-cases, Option-cases,
}
use mathlib.Core.List.{Memᴰ}
use orch.Prelude.Lists.{first_error, All}
use orch.Deploy.Document.{Workload}
use orch.Deploy.Errors.{DeployError, Check, reject, ◌<|>◌}
use orch.Deploy.Names.{name_re}
use orch.Deploy.Libraries.{Libraries, SetLaws}
use orch.Deploy.Validate.Workloads
use orch.Deploy.Validate.Workloads.{validate_fields, validate_from, validate_replica_count}

abbrev pub names_of : List Workload → List String
names_of ws = map (λ (w : Workload). w.name) ws

pub both_none : (c d : Check) → (c <|> d) ≡ none → (c ≡ none) × (d ≡ none)
both_none none d h = (refl, h)
both_none (some e) d h = absurd cc

pub not_rejected : (b : Bool) (e : DeployError) → reject b e ≡ none → b ≡ false
not_rejected b e h = ground arith

pub first_error-none :
    {A : Type 0} (P : A → Type 0) (f : ℕ → A → Check)
    → ((i : ℕ) (x : A) → f i x ≡ none → P x)
    → (i : ℕ) (xs : List A) → first_error f i xs ≡ none
    → All P xs
unfolding first_error
first_error-none P f good i [] h = tt
first_error-none P f good i (x ∷ xs) h = elim (Option-cases (f i x)) [
  | inl e ↦ (good i x e, first_error-none P f good (suc i) xs (rw (first_error, e) at h))
  | inr (err, e) ↦ absurd (let bad = (rw (first_error, e) at h) in cc bad)
]

module _ {S G : Type 0} (lib : Libraries S G) (laws : SetLaws lib) where
  -- What the loop over the workloads has found when it returns no error, and what is in the set then.
  pub record IsRegistered (ws : List Workload) (seen seen' : S) : Type 0 where
    pub named : All (λ (w : Workload). name_re w.name ≡ true) ws
    pub checked : All (λ w. validate_fields lib w ≡ none) ws
    pub distinct : Distinct (names_of ws)
    pub fresh : (x : String) → Memᴰ x (names_of ws) → lib.contains seen x ≡ false
    pub known :
        (x : String)
        → lib.contains seen' x ≡ true
        → (lib.contains seen x ≡ true) ⊎ Memᴰ x (names_of ws)

  record IsEntered (w : Workload) (seen : S) : Type 0 where
    named : name_re w.name ≡ true
    fresh : lib.contains seen w.name ≡ false
    checked : validate_fields lib w ≡ none
    entered : (Workloads.validate lib w seen).1 ≡ lib.add w.name seen

  validate-IsEntered :
      (w : Workload) (seen : S) → (Workloads.validate lib w seen).0 ≡ none → IsEntered w seen
  unfolding Workloads.validate Workloads.validate_name
  validate-IsEntered w seen h = record {
    named = ground arith;
    fresh = ground arith;
    checked = ground arith;
    entered = ground arith;
  }

  -- One workload more, in front.
  enter :
      (w : Workload) (ws : List Workload) (seen seen' : S)
      → IsEntered w seen
      → IsRegistered ws (lib.add w.name seen) seen'
      → IsRegistered (w ∷ ws) seen seen'
  enter w ws seen seen' e r = record {
    named = (e.named, r.named);
    checked = (e.checked, r.checked);
    distinct = (λ m. later_known (r.fresh w.name m), r.distinct);
    fresh = fresh;
    known = known;
  }
    where
      later_known : lib.contains (lib.add w.name seen) w.name ≡ false → ⊥
      later_known h =
          absurd
            (let c = laws.contains-add w.name w.name seen in ground (arith, eq_iff w.name w.name))

      fresh : (x : String) → Memᴰ x (w.name ∷ names_of ws) → lib.contains seen x ≡ false
      fresh x (Memᴰ.head p) = rw p e.fresh
      fresh x (Memᴰ.tail m) = ground (arith, r.fresh x m, laws.contains-add w.name x seen)

      known :
          (x : String)
          → lib.contains seen' x ≡ true
          → (lib.contains seen x ≡ true) ⊎ Memᴰ x (w.name ∷ names_of ws)
      known x h = elim (r.known x h) [
        | inr m ↦ inr (Memᴰ.tail m)
        | inl c ↦ elim (Bool-cases (w.name == x)) [
          | inl same ↦ inr (Memᴰ.head (sym ((eq_iff w.name x).0 same)))
          | inr other ↦ inl (ground (arith, laws.contains-add w.name x seen))
        ]
      ]

  pub validate_from-IsRegistered :
      (i : ℕ) (ws : List Workload) (seen : S)
      → (validate_from lib i ws seen).0 ≡ none
      → IsRegistered ws seen (validate_from lib i ws seen).1
  unfolding validate_from
  validate_from-IsRegistered i [] seen h = record {
    named = tt;
    checked = tt;
    distinct = tt;
    fresh = λ x m. elim m [ ];
    known = λ x c. inl c;
  }
  validate_from-IsRegistered i (w ∷ ws) seen h =
      elim (Option-cases (Workloads.validate lib w seen).0) [
        | inl e ↦
            (let entered = validate-IsEntered w seen e in
              let h2 = (rw (validate_from, e) at h) in
              rw (validate_from, e)
                (enter w ws seen _ entered (
                  subst
                    (λ (s : S).
                      IsRegistered ws s
                        (validate_from lib (suc i) ws (Workloads.validate lib w seen).1).1)
                    entered.entered
                    (validate_from-IsRegistered (suc i) ws (Workloads.validate lib w seen).1 h2))))
        | inr (err, e) ↦ absurd (let bad = (rw (validate_from, e) at h) in cc bad)
      ]
