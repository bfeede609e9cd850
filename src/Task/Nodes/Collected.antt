-- ===== src/Task/Nodes/Collected.antt =====
-- addNodeCandidate of internal/services/task/operations_nodes.go: what the list and the set hold.
use orch.Prelude.{
  String, true, false, List, [], ◌∷◌, ◌++◌, ◌≡◌, ◌≢◌, refl, sym, subst, ◌⊎◌, inl, inr, ◌↔◌, arith,
  ◌==◌, eq_iff, Bool-cases, ◌||◌,
}
use mathlib.Core.List.{Memᴰ}
use mathlib.Core.List.Memᴰ
use orch.Prelude.Text.{trim_space}
use text.Mathlib.TextPositions.{eq_refl}
use orch.Prelude.Members.{Distinct, Distinct-snoc, Memᴰ_snoc, Memᴰ_split}
use orch.Task.Libraries.{NodeSet, NodeSetLaws}
use orch.Task.Nodes.{add_one, add_node_candidate}

-- A text of the list names the node x, once it is trimmed, and x is not the current node.
pub record IsOffered (current : String) (raws : List String) (x : String) : Type 0 where
  pub raw : String
  pub listed : Memᴰ raw raws
  pub trimmed : trim_space raw ≡ x
  pub named : x ≢ ""
  pub other : x ≢ current

pub relisted :
    {current x : String} {raws raws' : List String} (o : IsOffered current raws x)
    → Memᴰ o.raw raws'
    → IsOffered current raws' x
relisted o m = record {
  raw = o.raw;
  listed = m;
  trimmed = o.trimmed;
  named = o.named;
  other = o.other;
}

pub IsOffered-append :
    (c : String) (xs ys : List String) (x : String)
    → (IsOffered c xs x ⊎ IsOffered c ys x) ↔ IsOffered c (xs ++ ys) x
IsOffered-append c xs ys x = (
  λ o. elim o [
    | inl p ↦ relisted p (Memᴰ.append_left ys p.listed)
    | inr p ↦ relisted p (Memᴰ.append_right xs p.listed)
  ],
  λ p. elim (Memᴰ.append_cases xs p.listed) [
    | inl m ↦ inl (relisted p m)
    | inr m ↦ inr (relisted p m)
  ],
)

module _ {S : Type 0} (set : NodeSet S) (laws : NodeSetLaws set) where
  -- The list and the set hold the nodes of which `Known` is true, each once.
  pub record Collected (Known : String → Type 0) (acc : List String × S) : Type 0 where
    pub in_set : (x : String) → Memᴰ x acc.0 → set.contains acc.1 x ≡ true
    pub in_list : (x : String) → set.contains acc.1 x ≡ true → Memᴰ x acc.0
    pub sound : (x : String) → Memᴰ x acc.0 → Known x
    pub complete : (x : String) → Known x → Memᴰ x acc.0
    pub distinct : Distinct acc.0

  -- The text raw names the node x, which is not the current one.
  record Fits (current raw x : String) : Type 0 where
    trimmed : trim_space raw ≡ x
    named : x ≢ ""
    other : x ≢ current

  skipped :
      (current raw : String) (Known : String → Type 0) (acc : List String × S)
      → ((x : String) → Fits current raw x → Known x)
      → Collected Known acc
      → Collected (λ x. Known x ⊎ Fits current raw x) acc
  skipped current raw Known acc known c = record {
    in_set = c.in_set;
    in_list = c.in_list;
    sound = λ x m. inl (c.sound x m);
    complete = λ x k. elim k [ inl old ↦ c.complete x old | inr f ↦ c.complete x (known x f) ];
    distinct = c.distinct;
  }

  added :
      (current raw : String) (Known : String → Type 0) (out : List String) (seen : S)
      → Fits current raw (trim_space raw)
      → set.contains seen (trim_space raw) ≡ false
      → Collected Known (out, seen)
      → Collected
          (λ x. Known x ⊎ Fits current raw x)
          (out ++ trim_space raw ∷ [], set.add (trim_space raw) seen)
  added current raw Known out seen fits new c = record {
    in_set = λ x m. elim (Memᴰ_snoc x (trim_space raw) out m) [
      | inl old ↦ ground (arith, laws.contains-add (trim_space raw) x seen, c.in_set x old)
      | inr e ↦ rw e (
          ground (
            arith,
            eq_refl (trim_space raw),
            laws.contains-add (trim_space raw) (trim_space raw) seen,
          ))
    ];
    in_list = λ x h. elim (Bool-cases (trim_space raw == x)) [
      | inl same ↦
          let e : trim_space raw ≡ x = (eq_iff (trim_space raw) x).0 same in
          rw (sym e) (Memᴰ_split (trim_space raw) out [])
      | inr ne ↦
          Memᴰ.append_left (trim_space raw ∷ [])
            (c.in_list x (ground (arith, laws.contains-add (trim_space raw) x seen)))
    ];
    sound = λ x m. elim (Memᴰ_snoc x (trim_space raw) out m) [
      | inl old ↦ inl (c.sound x old)
      | inr e ↦ inr (subst (Fits current raw) (sym e) fits)
    ];
    complete = λ x k. elim k [
      | inl old ↦ Memᴰ.append_left (trim_space raw ∷ []) (c.complete x old)
      | inr f ↦
          subst (λ y. Memᴰ y (out ++ trim_space raw ∷ [])) f.trimmed
            (Memᴰ_split (trim_space raw) out [])
    ];
    distinct =
        Distinct-snoc (trim_space raw) out (λ m. let h = c.in_set (trim_space raw) m in cc (h, new))
          c.distinct;
  }

  add_one-Collected :
      (current raw : String) (Known : String → Type 0) (acc : List String × S)
      → Collected Known acc
      → Collected (λ x. Known x ⊎ Fits current raw x) (add_one set current raw acc)
  unfolding add_one
  add_one-Collected current raw Known (out, seen) c =
      elim (Bool-cases (trim_space raw == "" || trim_space raw == current)) [
        | inl barred ↦
            rw barred (skipped current raw Known (out, seen) (λ x f. absurd (misfit barred x f)) c)
        | inr free ↦ rw free (elim (Bool-cases (set.contains seen (trim_space raw))) [
          | inl again ↦ rw again (
              skipped current raw Known (out, seen)
                (λ x f.
                  subst Known f.trimmed
                    (c.sound (trim_space raw) (c.in_list (trim_space raw) again)))
                c)
          | inr new ↦ rw new (
              added current raw Known out seen
                (record {
                  trimmed = refl;
                  named = ground (arith, eq_iff (trim_space raw) "");
                  other = ground (arith, eq_iff (trim_space raw) current);
                })
                new c)
        ])
      ]
    where
      misfit :
          (trim_space raw == "" || trim_space raw == current) ≡ true
          → (x : String) → ¬ Fits current raw x
      misfit barred x f =
          let a = f.trimmed in
          let n : trim_space raw ≢ "" = rw a f.named in
          let o : trim_space raw ≢ current = rw a f.other in
          ground (arith, eq_iff (trim_space raw) "", eq_iff (trim_space raw) current)

  pub Collected-map :
      {Known Known' : String → Type 0} {acc : List String × S}
      → ((x : String) → Known x ↔ Known' x)
      → Collected Known acc
      → Collected Known' acc
  Collected-map same c = record {
    in_set = c.in_set;
    in_list = c.in_list;
    sound = λ x m. (same x).0 (c.sound x m);
    complete = λ x k. c.complete x ((same x).1 k);
    distinct = c.distinct;
  }

  IsOffered-cons :
      (current raw : String) (raws : List String) (Known : Type 0) (x : String)
      → ((Known ⊎ Fits current raw x) ⊎ IsOffered current raws x)
        ↔ (Known ⊎ IsOffered current (raw ∷ raws) x)
  IsOffered-cons current raw raws Known x = (onward, back)
    where
      onward :
          (Known ⊎ Fits current raw x) ⊎ IsOffered current raws x
          → Known ⊎ IsOffered current (raw ∷ raws) x
      onward (inl (inl k)) = inl k
      onward (inl (inr f)) = inr (record {
        raw = raw;
        listed = Memᴰ.head refl;
        trimmed = f.trimmed;
        named = f.named;
        other = f.other;
      })
      onward (inr o) = inr (relisted o (Memᴰ.tail o.listed))

      at_head :
          (r : String)
          → Memᴰ r (raw ∷ raws)
          → trim_space r ≡ x
          → x ≢ ""
          → x ≢ current
          → (Known ⊎ Fits current raw x) ⊎ IsOffered current raws x
      at_head r (Memᴰ.head e) t n o =
          inl (inr (record { trimmed = rw (← e) t; named = n; other = o }))
      at_head r (Memᴰ.tail m) t n o =
          inr (record { raw = r; listed = m; trimmed = t; named = n; other = o })

      back :
          Known ⊎ IsOffered current (raw ∷ raws) x
          → (Known ⊎ Fits current raw x) ⊎ IsOffered current raws x
      back (inl k) = inl (inl k)
      back (inr o) = at_head o.raw o.listed o.trimmed o.named o.other

  none-IsOffered :
      (current : String) (Known : Type 0) (x : String) → Known ↔ (Known ⊎ IsOffered current [] x)
  none-IsOffered current Known x = (inl, λ k. elim k [ inl j ↦ j | inr o ↦ elim o.listed [ ] ])

  pub add_node_candidate-Collected :
      (current : String) (raws : List String) (Known : String → Type 0) (acc : List String × S)
      → Collected Known acc
      → Collected
          (λ x. Known x ⊎ IsOffered current raws x)
          (add_node_candidate set current raws acc)
  unfolding add_node_candidate
  add_node_candidate-Collected current [] Known acc c =
      Collected-map (λ x. none-IsOffered current (Known x) x) c
  add_node_candidate-Collected current (raw ∷ raws) Known acc c =
      Collected-map (λ x. IsOffered-cons current raw raws (Known x) x)
        (add_node_candidate-Collected current raws _ (add_one set current raw acc)
          (add_one-Collected current raw Known acc c))

  pub empty-Collected : Collected (λ x. ⊥) ([], set.new_set)
  empty-Collected = record {
    in_set = λ x m. elim m [ ];
    in_list = λ x h. absurd (cc (h, laws.contains-new_set x));
    sound = λ x m. elim m [ ];
    complete = λ x k. absurd k;
    distinct = tt;
  }
