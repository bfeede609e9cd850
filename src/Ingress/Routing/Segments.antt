-- ===== src/Ingress/Routing/Segments.antt =====
-- A route takes its prefix and the paths below it, and what is below is sent on unchanged.
use orch.Prelude.{
  String, true, false, some, ◌≡◌, ◌≢◌, refl, sym, subst, inl, inr, ◌↔◌, arith, ◌==◌, eq_iff,
  Bool-cases, Option-cases,
}
use Prim.Native.String.{◌++◌}
use text.Mathlib.TextPositions.{eq_refl}
use text.Mathlib.TextLemmas.{append_assoc, append-nil, append-eq-nil_iff}
use orch.Prelude.Affix.{has_prefix, cut_prefix, cut_prefix_sound, cut_prefix-append}
use orch.Ingress.Routing.{RouteMeta, matches, rel_of, path_rel}

-- The path is the route's prefix, or lies below it.
pub data IsBelow (base : String) : String → Type 0 where
  itself : IsBelow base base
  below : (rest : String) → IsBelow base ((base ++ "/") ++ rest)

has_prefix_sound : (p s : String) → has_prefix p s ≡ true → (rest : String) × (s ≡ p ++ rest)
unfolding has_prefix
has_prefix_sound p s h = elim (Option-cases (cut_prefix p s)) [
  | inl gone ↦ absurd (let q = (rw (has_prefix, gone) at h) in cc q)
  | inr (rest, found) ↦ (rest, cut_prefix_sound p s rest found)
]

has_prefix-append : (p rest : String) → has_prefix p (p ++ rest) ≡ true
unfolding has_prefix
has_prefix-append p rest = rw (has_prefix, cut_prefix-append p rest) refl

module _ (m : RouteMeta) (bounded : m.prefix_norm ≢ "") where
  not_all : (m.prefix_norm == "") ≡ false
  not_all = ground (arith, eq_iff m.prefix_norm "")

  matches-IsBelow : (p : String) → matches m p ≡ true → IsBelow ("/" ++ m.prefix_norm) p
  unfolding matches
  matches-IsBelow p h = elim (Bool-cases (p == "/" ++ m.prefix_norm)) [
    | inl same ↦
        let e = (eq_iff p ("/" ++ m.prefix_norm)).0 same in
        subst (IsBelow ("/" ++ m.prefix_norm)) (sym e) itself
    | inr other ↦
        let h' : has_prefix (("/" ++ m.prefix_norm) ++ "/") p ≡ true = (rw (not_all, other) at h) in
        let (rest, e) = has_prefix_sound (("/" ++ m.prefix_norm) ++ "/") p h' in
        subst (IsBelow ("/" ++ m.prefix_norm)) (sym e) (below rest)
  ]

  IsBelow-matches : (p : String) → IsBelow ("/" ++ m.prefix_norm) p → matches m p ≡ true
  unfolding matches
  IsBelow-matches p itself = rw (not_all, eq_refl ("/" ++ m.prefix_norm)) refl
  IsBelow-matches p (below rest) =
      elim (Bool-cases ((("/" ++ m.prefix_norm) ++ "/") ++ rest == "/" ++ m.prefix_norm)) [
        | inl same ↦ rw (not_all, same) refl
        | inr other ↦ rw (not_all, other) (has_prefix-append (("/" ++ m.prefix_norm) ++ "/") rest)
      ]

  -- For a route that has a prefix and strips just that: it takes the prefix and the paths below it and
  -- no other, sends the prefix itself on as "/", and a path below it as what follows the prefix.
  pub route_lem :
      m.strip_path ≡ "/" ++ m.prefix_norm
      → ((p : String) → (matches m p ≡ true) ↔ IsBelow ("/" ++ m.prefix_norm) p)
        × (path_rel m ("/" ++ m.prefix_norm) ≡ some "/")
        × ((rest : String)
            → path_rel m ((("/" ++ m.prefix_norm) ++ "/") ++ rest) ≡ some ("/" ++ rest))
  unfolding path_rel
  route_lem strip = (
    λ p. (matches-IsBelow p, IsBelow-matches p),
    rw (not_all, strip) (rw (itself_cut) refl),
    λ rest. rw (not_all, strip) (rw (below_cut rest) (below_rel rest)),
  )
    where
      itself_cut : cut_prefix ("/" ++ m.prefix_norm) ("/" ++ m.prefix_norm) ≡ some ""
      itself_cut =
          subst (λ s. cut_prefix ("/" ++ m.prefix_norm) s ≡ some "")
            (append-nil ("/" ++ m.prefix_norm)) (cut_prefix-append ("/" ++ m.prefix_norm) "")

      below_cut :
          (rest : String)
          → cut_prefix ("/" ++ m.prefix_norm) ((("/" ++ m.prefix_norm) ++ "/") ++ rest)
            ≡ some ("/" ++ rest)
      below_cut rest =
          rw (append_assoc ("/" ++ m.prefix_norm) "/" rest)
            (cut_prefix-append ("/" ++ m.prefix_norm) ("/" ++ rest))

      below_rel : (rest : String) → rel_of (some ("/" ++ rest)) ≡ some ("/" ++ rest)
      below_rel rest = elim (Bool-cases ("/" ++ rest == "")) [
        | inl nothing ↦ absurd (
            let e = (append-eq-nil_iff.0 ((eq_iff ("/" ++ rest) "").0 nothing)).0 in
            ground (arith, eq_iff "/" ""))
        | inr something ↦ rw something (rw (has_prefix-append "/" rest) refl)
      ]
