-- ===== src/Task/Moves/Planned.antt =====
-- Which workloads the plans of a move move.
use orch.Prelude.{
  String, true, ◌&&◌, none, some, List, [], ◌∷◌, ◌≡◌, ◌≢◌, refl, ◌⊎◌, inl, inr, arith, eq_iff,
  Bool-cases, ◌==◌, &&_true,
}
use mathlib.Core.List.{Memᴰ}
use mathlib.Core.List.Memᴰ
use orch.Prelude.Lists.{All, All-append}
use orch.Deploy.Document.{Metadata, Workload, App}
use orch.Task.Errors.{Result, ok, err}
use orch.Task.Moves.{
  PlannedWorkloadMove, Planning, Cluster, normalize_move_target, node_or_self, is_assigned,
  plan_one, assignment_of, plan_from, plan_workload_moves,
}

module _ {W : Type 0} (cluster : Cluster W) (self : String) (target_for : Workload → Result String)
    (meta : Metadata) (world : W) where
  -- The workload is assigned to the node where it belongs.
  pub record AtTarget (w : Workload) : Type 0 where
    pub target : String
    pub chosen : normalize_move_target target_for w ≡ ok target
    pub assigned : is_assigned (assignment_of cluster meta w.name world) ≡ true
    pub there : node_or_self self (assignment_of cluster meta w.name world) ≡ target

  -- A plan sends a workload to the node where it belongs and where it is not assigned.
  pub record IsMove (plan : PlannedWorkloadMove) : Type 0 where
    pub chosen : normalize_move_target target_for plan.workload ≡ ok plan.target
    pub elsewhere : plan.assigned ≡ true → plan.current ≢ plan.target

  abbrev pub Planned : List PlannedWorkloadMove → Workload → Type 0
  Planned plans w = (plan : PlannedWorkloadMove) × Memᴰ plan plans × (plan.workload ≡ w)

  abbrev pub Settled : List PlannedWorkloadMove → Workload → Type 0
  Settled plans w = AtTarget w ⊎ Planned plans w

  -- What a round does to the plans.
  record IsRound (w : Workload) (before after : Planning) : Type 0 where
    moves : All IsMove before.plans → All IsMove after.plans
    kept : (plan : PlannedWorkloadMove) → Memᴰ plan before.plans → Memᴰ plan after.plans
    settled : Settled after.plans w

  plan_one-IsRound :
      (w : Workload) (target : String) (p : Planning)
      → normalize_move_target target_for w ≡ ok target
      → IsRound w p (plan_one self w target (assignment_of cluster meta w.name world) p)
  unfolding plan_one
  plan_one-IsRound w target p e =
      let found = assignment_of cluster meta w.name world in
      let current = node_or_self self found in
      elim (Bool-cases (is_assigned found && current == target)) [
        | inl there ↦ rw there (record {
          moves = λ h. h;
          kept = λ plan m. m;
          settled = inl (record {
            target = target;
            chosen = e;
            assigned = (&&_true _ _ there).0;
            there = (eq_iff current target).0 (&&_true _ _ there).1;
          });
        })
        | inr away ↦ rw away (record {
          moves = λ h. All-append IsMove p.plans _ h (
            record {
              chosen = e;
              elsewhere = λ a same. grind (arith, away, a, same, eq_iff current target);
            },
            tt,
          );
          kept = λ plan m. Memᴰ.append_left _ m;
          settled = inr (_, Memᴰ.append_right p.plans (Memᴰ.head refl), refl);
        })
      ]

  -- What the loop over the workloads ends with.
  record IsPlanning (ws : List Workload) (before after : Planning) : Type 0 where
    moves : All IsMove before.plans → All IsMove after.plans
    kept : (plan : PlannedWorkloadMove) → Memᴰ plan before.plans → Memᴰ plan after.plans
    settled : after.select_err ≡ none → All (Settled after.plans) ws

  Settled-mono :
      (w : Workload) (before after : List PlannedWorkloadMove)
      → ((plan : PlannedWorkloadMove) → Memᴰ plan before → Memᴰ plan after)
      → Settled before w
      → Settled after w
  Settled-mono w before after k (inl there) = inl there
  Settled-mono w before after k (inr (plan, m, same)) = inr (plan, k plan m, same)

  plan_next :
      (w : Workload) (ws : List Workload) (p : Planning) (chosen : Result String)
      → normalize_move_target target_for w ≡ chosen
      → ((q : Planning) → IsPlanning ws q (plan_from cluster self target_for meta world ws q))
      → IsPlanning (w ∷ ws) p (elim chosen [
        | ok target ↦
            plan_from cluster self target_for meta world ws
              (plan_one self w target (assignment_of cluster meta w.name world) p)
        | err e ↦ record p { select_err = some e }
      ])
  plan_next w ws p (err x) e ih = record {
    moves = λ h. h;
    kept = λ plan m. m;
    settled = λ none_there. absurd (cc none_there);
  }
  plan_next w ws p (ok target) e ih =
      let q = plan_one self w target (assignment_of cluster meta w.name world) p in
      let r = plan_one-IsRound w target p e in
      let i = ih q in
      record {
        moves = λ h. i.moves (r.moves h);
        kept = λ plan m. i.kept plan (r.kept plan m);
        settled = λ none_there. (
          Settled-mono w q.plans (plan_from cluster self target_for meta world ws q).plans i.kept
              r.settled,
          i.settled none_there,
        );
      }

  plan_from-IsPlanning :
      (ws : List Workload) (p : Planning)
      → IsPlanning ws p (plan_from cluster self target_for meta world ws p)
  unfolding plan_from
  plan_from-IsPlanning [] p = record { moves = λ h. h; kept = λ plan m. m; settled = λ h. tt }
  plan_from-IsPlanning (w ∷ ws) p =
      plan_next w ws p (normalize_move_target target_for w) refl (plan_from-IsPlanning ws)

-- The plans of a move send workloads to the nodes where they belong and are not assigned; without
-- an error, every workload is planned or is assigned where it belongs.
pub plan_workload_moves_lem :
    {W : Type 0} (cluster : Cluster W) (self : String) (target_for : Workload → Result String)
    (app : App) (world : W) (ws : List Workload)
    → All
        (IsMove cluster self target_for app.metadata world)
        (plan_workload_moves cluster self target_for app world ws).plans
      × ((plan_workload_moves cluster self target_for app world ws).select_err ≡ none
          → All
              (Settled cluster self target_for app.metadata world
                (plan_workload_moves cluster self target_for app world ws).plans)
              ws)
unfolding plan_workload_moves
plan_workload_moves_lem cluster self target_for app world ws =
    let i =
      plan_from-IsPlanning cluster self target_for app.metadata world ws
        (record { plans = []; target_node = ""; select_err = none }) in
    (i.moves tt, i.settled)
