-- ===== src/Task/Preflight/HostPorts.antt =====
-- The checks of internal/services/task/preflight.go find every pair of claims on one address.
use orch.Prelude.{
  String, Bool, true, false, ◌||◌, Option, none, some, List, [], ◌∷◌, ◌≡◌, refl, subst, ◌⊎◌, inl,
  inr, arith, ◌==◌, eq_iff, Bool-cases, Option-cases,
}
use mathlib.Core.List.{Memᴰ}
use orch.Prelude.Int.{ℤ, eqb_ℤ}
use orch.Deploy.Document.{Metadata, App}
use orch.Raft.State.{Fsm}
use orch.Raft.Lookup.{list_deploy_apps}
use orch.Task.Preflight.{
  HostPortClaim, PreflightError, host_port_claims_conflict, same_app_metadata, host_port_claims,
  conflict_with, find_host_port_conflict, duplicate_among, claimed_or, existing_conflict, or_next,
  preflight_existing_host_ports, preflight_duplicate_host_ports, preflight_raft, raft_check,
  preflight_deploy,
}

-- The claim takes the port on the address: on this one, or on every one.
pub record Binds (c : HostPortClaim) (protocol : String) (port : ℤ) (ip : String) : Type 0 where
  pub of_protocol : c.protocol ≡ protocol
  pub of_port : c.host_port ≡ port
  pub of_ip : (c.host_ip ≡ "") ⊎ (c.host_ip ≡ ip)

-- Two claims on one address.
pub record Overlap (c d : HostPortClaim) : Type 0 where
  pub protocol : String
  pub port : ℤ
  pub ip : String
  pub left : Binds c protocol port ip
  pub right : Binds d protocol port ip

pub Overlap-sym : {c d : HostPortClaim} → Overlap c d → Overlap d c
Overlap-sym o = record {
  protocol = o.protocol;
  port = o.port;
  ip = o.ip;
  left = o.right;
  right = o.left;
}

Overlap-conflict : (c d : HostPortClaim) → Overlap c d → host_port_claims_conflict c d ≡ true
unfolding host_port_claims_conflict
Overlap-conflict c d o =
    let port : c.host_port ≡ d.host_port = cc (o.left.of_port, o.right.of_port) in
    let protocol : c.protocol ≡ d.protocol = cc (o.left.of_protocol, o.right.of_protocol) in
    let same_port : eqb_ℤ c.host_port d.host_port ≡ true = rw port (ground arith) in
    let same_protocol : (c.protocol == d.protocol) ≡ true =
      (eq_iff c.protocol d.protocol).1 protocol in
    rw (same_port, same_protocol) (ips o.left.of_ip o.right.of_ip)
  where
    ips :
        (c.host_ip ≡ "") ⊎ (c.host_ip ≡ o.ip)
        → (d.host_ip ≡ "") ⊎ (d.host_ip ≡ o.ip)
        → (c.host_ip == "" || (d.host_ip == "" || c.host_ip == d.host_ip)) ≡ true
    ips (inl e) q = ground (arith, eq_iff c.host_ip "")
    ips (inr e) (inl q) = ground (arith, eq_iff d.host_ip "")
    ips (inr e) (inr q) =
        let same : c.host_ip ≡ d.host_ip = cc (e, q) in ground (arith, eq_iff c.host_ip d.host_ip)

-- No claim of the one list overlaps with one of the other.
abbrev pub Apart : List HostPortClaim → List HostPortClaim → Type 0
Apart cs ds = (c d : HostPortClaim) → Memᴰ c cs → Memᴰ d ds → ¬ Overlap c d

-- No two claims of the list overlap.
abbrev pub IsFree : List HostPortClaim → Type 0
IsFree [] = Unit
IsFree (c ∷ cs) = Apart (c ∷ []) cs × IsFree cs

not_conflict : (c d : HostPortClaim) → host_port_claims_conflict c d ≡ false → ¬ Overlap c d
not_conflict c d h o = let t = Overlap-conflict c d o in cc (t, h)

conflict_with-none :
    (c : HostPortClaim) (ds : List HostPortClaim)
    → conflict_with c ds ≡ none
    → (d : HostPortClaim) → Memᴰ d ds
    → ¬ Overlap c d
unfolding conflict_with
conflict_with-none c [] h d m = elim m [ ]
conflict_with-none c (x ∷ ds) h d m = elim (Bool-cases (host_port_claims_conflict c x)) [
  | inl hit ↦ absurd (let q = (rw (conflict_with, hit) at h) in cc q)
  | inr free ↦ at_member m free (conflict_with-none c ds (rw (conflict_with, free) at h) d)
]
  where
    at_member :
        Memᴰ d (x ∷ ds)
        → host_port_claims_conflict c x ≡ false
        → (Memᴰ d ds → ¬ Overlap c d)
        → ¬ Overlap c d
    at_member (Memᴰ.head e) free rest = rw e (not_conflict c x free)
    at_member (Memᴰ.tail k) free rest = rest k

pub find_host_port_conflict-none :
    (cs ds : List HostPortClaim) → find_host_port_conflict cs ds ≡ none → Apart cs ds
unfolding find_host_port_conflict
find_host_port_conflict-none [] ds h c d m n = elim m [ ]
find_host_port_conflict-none (x ∷ cs) ds h c d m n = elim (Option-cases (conflict_with x ds)) [
  | inr (y, hit) ↦ absurd (let q = (rw (find_host_port_conflict, hit) at h) in cc q)
  | inl free ↦
      at_member m (conflict_with-none x ds free d n)
        (λ k. find_host_port_conflict-none cs ds (rw (find_host_port_conflict, free) at h) c d k n)
]
  where
    at_member : Memᴰ c (x ∷ cs) → ¬ Overlap x d → (Memᴰ c cs → ¬ Overlap c d) → ¬ Overlap c d
    at_member (Memᴰ.head e) free rest = rw e free
    at_member (Memᴰ.tail k) free rest = rest k

duplicate_among-none : (cs : List HostPortClaim) → duplicate_among cs ≡ none → IsFree cs
unfolding duplicate_among
duplicate_among-none [] h = tt
duplicate_among-none (c ∷ cs) h = elim (Option-cases (conflict_with c cs)) [
  | inr (y, hit) ↦ absurd (let q = (rw (duplicate_among, hit) at h) in cc q)
  | inl free ↦ (
    λ x d m n. only m (conflict_with-none c cs free d n),
    duplicate_among-none cs (rw (duplicate_among, free) at h),
  )
]
  where
    only : {x d : HostPortClaim} → Memᴰ x (c ∷ []) → ¬ Overlap c d → ¬ Overlap x d
    only (Memᴰ.head e) free = rw e free
    only (Memᴰ.tail k) free = elim k [ ]

existing_conflict-none :
    (meta : Metadata) (cs : List HostPortClaim) (apps : List App)
    → existing_conflict meta cs apps ≡ none
    → (b : App) → Memᴰ b apps
    → same_app_metadata meta b.metadata ≡ false
    → Apart cs (host_port_claims b)
unfolding existing_conflict claimed_or
existing_conflict-none meta cs [] h b m other = elim m [ ]
existing_conflict-none meta cs (a ∷ apps) h b m other =
    elim (Bool-cases (same_app_metadata meta a.metadata)) [
      | inl same ↦
          at_member m
            (λ e. absurd (
              let q = subst (λ (x : App). same_app_metadata meta x.metadata ≡ false) e other in
              cc (q, same)))
            (existing_conflict-none meta cs apps (rw (existing_conflict, same) at h) b)
      | inr apart ↦ elim (Option-cases (find_host_port_conflict cs (host_port_claims a))) [
        | inr (pair, hit) ↦ absurd (let q = (rw (existing_conflict, apart, hit) at h) in cc q)
        | inl free ↦
            at_member m (λ e. rw e (find_host_port_conflict-none cs (host_port_claims a) free))
              (existing_conflict-none meta cs apps (rw (existing_conflict, apart, free) at h) b)
      ]
    ]
  where
    at_member :
        Memᴰ b (a ∷ apps)
        → (b ≡ a → Apart cs (host_port_claims b))
        → (Memᴰ b apps → same_app_metadata meta b.metadata ≡ false → Apart cs (host_port_claims b))
        → Apart cs (host_port_claims b)
    at_member (Memᴰ.head e) now rest = now e
    at_member (Memᴰ.tail k) now rest = rest k other

or_next-none : (x y : Option PreflightError) → or_next x y ≡ none → (x ≡ none) × (y ≡ none)
unfolding or_next
or_next-none none y h = (refl, h)
or_next-none (some e) y h = absurd (cc h)

module _ {F : Type 0} (available : HostPortClaim → Bool) (raft : Fsm F) (a : App) where
  preflight_raft-none :
      (cs : List HostPortClaim)
      → preflight_raft available raft a cs ≡ none
      → (b : App) → Memᴰ b (list_deploy_apps raft)
      → same_app_metadata a.metadata b.metadata ≡ false
      → Apart cs (host_port_claims b)
  unfolding preflight_raft preflight_existing_host_ports
  preflight_raft-none [] h b m other = λ c d n k. elim n [ ]
  preflight_raft-none (x ∷ cs) h b m other =
      existing_conflict-none a.metadata (x ∷ cs) (list_deploy_apps raft) (or_next-none _ _ h).0 b m
        other

  -- What the preflight has checked when it returns no error.
  pub preflight_deploy-none :
      preflight_deploy available (some raft) a ≡ none
      → IsFree (host_port_claims a)
        × ((b : App)
            → Memᴰ b (list_deploy_apps raft)
            → same_app_metadata a.metadata b.metadata ≡ false
            → Apart (host_port_claims a) (host_port_claims b))
  unfolding preflight_deploy raft_check preflight_duplicate_host_ports
  preflight_deploy-none h =
      let (own, others) = or_next-none _ _ h in
      (
        duplicate_among-none (host_port_claims a) own,
        preflight_raft-none (host_port_claims a) others,
      )
