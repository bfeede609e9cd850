-- ===== src/Placement/Preferred.antt =====
-- preferredNames of internal/placement/v1alpha1.go: which names its set contains.
use orch.Prelude.{
  String, true, List, [], ◌∷◌, ◌≡◌, refl, ◌⊎◌, inl, inr, arith, ◌==◌, eq_iff, Bool-cases,
}
use mathlib.Core.List.{Memᴰ}
use orch.Prelude.Text.{trim_space}
use orch.Placement.Libraries.{Float64, OrderedSet, OrderedSetAdds}
use orch.Placement.Choose.{add_names}

module _ {F O : Type 0} (fl : Float64 F) (set : OrderedSet O) (adds : OrderedSetAdds set) where
  -- One of the names is x once it is trimmed.
  pub record IsNamed (names : List String) (x : String) : Type 0 where
    pub name : String
    pub listed : Memᴰ name names
    pub trimmed : trim_space name ≡ x

  later_name : {n x : String} {names : List String} → IsNamed names x → IsNamed (n ∷ names) x
  later_name h = record { name = h.name; listed = Memᴰ.tail h.listed; trimmed = h.trimmed }

  add_names_sound :
      (names : List String) (s : O) (x : String)
      → set.contains (add_names fl set names s) x ≡ true
      → (set.contains s x ≡ true) ⊎ IsNamed names x
  unfolding add_names
  add_names_sound [] s x h = inl h
  add_names_sound (raw ∷ names) s x h = elim (Bool-cases (trim_space raw == "")) [
    | inl blank ↦ elim (add_names_sound names s x (rw (add_names, blank) at h)) [
      | inl old ↦ inl old
      | inr n ↦ inr (later_name n)
    ]
    | inr named ↦
        elim (add_names_sound names (set.add (trim_space raw) s) x (rw (add_names, named) at h)) [
          | inl old ↦ elim (Bool-cases (trim_space raw == x)) [
            | inl same ↦ inr (record {
              name = raw;
              listed = Memᴰ.head refl;
              trimmed = (eq_iff (trim_space raw) x).0 same;
            })
            | inr other ↦ inl (ground (arith, adds.contains-add (trim_space raw) x s))
          ]
          | inr n ↦ inr (later_name n)
        ]
  ]

  -- A name in the set of the preferred nodes is one of their names, trimmed.
  pub add_names_new :
      (names : List String) (x : String)
      → set.contains (add_names fl set names set.new_set) x ≡ true
      → IsNamed names x
  add_names_new names x h = elim (add_names_sound names set.new_set x h) [
    | inl none ↦ absurd (cc (none, adds.contains-new_set x))
    | inr n ↦ n
  ]
