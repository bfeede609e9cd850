-- ===== src/Config/Ingress/Listeners.antt =====
-- The plain and the TLS addresses of internal/config/ingress.go.
use orch.Prelude.{
  String, Bool, true, false, not, List, [], ◌∷◌, ◌≡◌, ◌≢◌, refl, sym, subst, ◌⊎◌, inl, inr, arith,
  ◌==◌, eq_iff, Bool-cases, if◌then◌else◌,
}
use mathlib.Core.List.{Memᴰ}
use orch.Prelude.Text.{trim_space}
use orch.Task.Libraries.{NodeSet, NodeSetLaws}
use orch.Config.Ingress.{
  IngressConfig, listen_addr_list, tls_listen_addr_list, skip_from, not_skipped,
  plain_listen_addr_list,
}

-- A text of the list is x once it is trimmed, and x is not empty.
pub record IsListed (raws : List String) (x : String) : Type 0 where
  pub raw : String
  pub listed : Memᴰ raw raws
  pub trimmed : trim_space raw ≡ x
  pub not_nil : x ≢ ""

later_text : {raw x : String} {raws : List String} → IsListed raws x → IsListed (raw ∷ raws) x
later_text h = record {
  raw = h.raw;
  listed = Memᴰ.tail h.listed;
  trimmed = h.trimmed;
  not_nil = h.not_nil;
}

earlier_text :
    {raw x : String} {raws : List String}
    → IsListed (raw ∷ raws) x
    → ((trim_space raw ≡ x) × (x ≢ "")) ⊎ IsListed raws x
earlier_text h = at_member h.listed h.trimmed h.not_nil
  where
    at_member :
        {raw x y : String} {raws : List String}
        → Memᴰ y (raw ∷ raws)
        → trim_space y ≡ x
        → x ≢ ""
        → ((trim_space raw ≡ x) × (x ≢ "")) ⊎ IsListed raws x
    at_member (Memᴰ.head e) t n = inl (rw (← e) t, n)
    at_member (Memᴰ.tail m) t n = inr (record { raw = _; listed = m; trimmed = t; not_nil = n })

module _ {S : Type 0} (set : NodeSet S) (laws : NodeSetLaws set) where
  skip_from-contains :
      (addrs : List String) (skip : S) (x : String)
      → set.contains skip x ≡ true ⊎ IsListed addrs x
      → set.contains (skip_from set addrs skip) x ≡ true
  unfolding skip_from
  skip_from-contains [] skip x (inl h) = h
  skip_from-contains [] skip x (inr h) = elim h.listed [ ]
  skip_from-contains (raw ∷ addrs) skip x h = elim (Bool-cases (trim_space raw == "")) [
    | inl blank ↦ rw blank (
        skip_from-contains addrs skip x (elim h [
          | inl old ↦ inl old
          | inr l ↦ elim (earlier_text l) [
            | inl (t, n) ↦ absurd (n (let e = (eq_iff (trim_space raw) "").0 blank in cc (e, t)))
            | inr later ↦ inr later
          ]
        ]))
    | inr named ↦ rw named (
        skip_from-contains addrs (set.add (trim_space raw) skip) x (elim h [
          | inl old ↦ inl (ground (arith, laws.contains-add (trim_space raw) x skip))
          | inr l ↦ elim (earlier_text l) [
            | inl (t, n) ↦ inl (
                let same = (eq_iff (trim_space raw) x).1 t in
                ground (arith, laws.contains-add (trim_space raw) x skip))
            | inr later ↦ inr later
          ]
        ]))
  ]

  not_skipped_sound :
      (skip : S) (addrs : List String) (x : String)
      → Memᴰ x (not_skipped set skip addrs)
      → IsListed addrs x × (set.contains skip x ≡ false)
  unfolding not_skipped
  not_skipped_sound skip [] x m = elim m [ ]
  not_skipped_sound skip (raw ∷ addrs) x m = elim (Bool-cases (trim_space raw == "")) [
    | inl blank ↦
        let (l, free) = not_skipped_sound skip addrs x (rw (not_skipped, blank) at m) in
        (later_text l, free)
    | inr named ↦ elim (Bool-cases (set.contains skip (trim_space raw))) [
      | inl held ↦
          let (l, free) = not_skipped_sound skip addrs x (rw (not_skipped, named, held) at m) in
          (later_text l, free)
      | inr free ↦
          kept (rw (not_skipped, named, free) at m) named free (not_skipped_sound skip addrs x)
    ]
  ]
    where
      kept :
          Memᴰ x (trim_space raw ∷ not_skipped set skip addrs)
          → (trim_space raw == "") ≡ false
          → set.contains skip (trim_space raw) ≡ false
          → (Memᴰ x (not_skipped set skip addrs) → IsListed addrs x × (set.contains skip x ≡ false))
          → IsListed (raw ∷ addrs) x × (set.contains skip x ≡ false)
      kept (Memᴰ.head e) named free rest = (
        record {
          raw = raw;
          listed = Memᴰ.head refl;
          trimmed = sym e;
          not_nil = λ n. let t = (eq_iff (trim_space raw) "").1 (rw (← e) n) in cc (t, named);
        },
        rw e free,
      )
      kept (Memᴰ.tail k) named free rest = let (l, apart) = rest k in (later_text l, apart)

  -- Under the laws of the set, with TLS on: a plain address is one of the listen addresses, trimmed and
  -- not empty, and no TLS address is the same text once it is trimmed.
  pub plain_listen_addr_list_apart :
      (c : IngressConfig) (x : String)
      → c.tls.enabled ≡ true
      → Memᴰ x (plain_listen_addr_list set c)
      → IsListed (listen_addr_list c) x × ¬ IsListed (tls_listen_addr_list c) x
  unfolding plain_listen_addr_list
  plain_listen_addr_list_apart c x on m =
      let skip = skip_from set (tls_listen_addr_list c) set.new_set in
      let at = λ (b : Bool).
        Memᴰ x (if not b then listen_addr_list c else not_skipped set skip (listen_addr_list c)) in
      let (l, free) = not_skipped_sound skip (listen_addr_list c) x (subst at on m) in
      (
        l,
        λ t.
            let held = skip_from-contains (tls_listen_addr_list c) set.new_set x (inr t) in
            cc (held, free),
      )
