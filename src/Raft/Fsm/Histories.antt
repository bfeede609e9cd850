-- ===== src/Raft/Fsm/Histories.antt =====
-- The histories of internal/raftsvc/revisions.go that two machines keep stay alike where their
-- documents are.
use orch.Prelude.{String, Option, List, [], ◌∷◌, ◌++◌, ◌≡◌, refl, inl, inr, ◌==◌, ltb, Bool-cases}
use orch.Prelude.Text.{trim_space}
use orch.Prelude.Lists.{length, last?}
use orch.Prelude.GoMap
use orch.Prelude.GoMap.{GoMap, SameReads, insert-SameReads}
use orch.Prelude.Alike.{
  OptionAlike, ListAlike, MapAlike, neither, both, nil, cons, append-ListAlike, length-ListAlike,
  drop-ListAlike, last?-ListAlike, insert-MapAlike,
}
use orch.Deploy.Document.{App}
use orch.Raft.State.{DeployAppRevision, max_deploy_app_revisions}
use orch.Raft.Alike.{SameApp, SameRevision, placed-SameApp}
use orch.Raft.Json.{Json}
use orch.Raft.Revisions.{
  list_or_empty, ends_with_generation, push_revision, app_generation, append_deploy_app_revision,
}
use orch.Raft.Fsm.{revise}

list_or_empty-ListAlike :
    {m n : Option (List DeployAppRevision)}
    → OptionAlike (ListAlike SameRevision) m n
    → ListAlike SameRevision (list_or_empty m) (list_or_empty n)
list_or_empty-ListAlike neither = nil
list_or_empty-ListAlike (both xs ys h) = h

ends_with_generation-same :
    {m n : Option DeployAppRevision} (generation : String)
    → OptionAlike SameRevision m n
    → ends_with_generation m generation ≡ ends_with_generation n generation
unfolding ends_with_generation
ends_with_generation-same g neither = refl
ends_with_generation-same g (both r s h) = rw h.generation refl

push_revision-ListAlike :
    (r s : DeployAppRevision) (xs ys : List DeployAppRevision)
    → SameRevision r s
    → ListAlike SameRevision xs ys
    → ListAlike SameRevision (push_revision r xs) (push_revision s ys)
unfolding push_revision
push_revision-ListAlike r s xs ys h k =
    let grown = append-ListAlike SameRevision k (cons r s [] [] h nil) in
    rw (length-ListAlike SameRevision grown)
      (elim (Bool-cases (ltb max_deploy_app_revisions (length (ys ++ s ∷ [])))) [
        | inl long ↦ rw long (drop-ListAlike SameRevision _ grown)
        | inr short ↦ rw short grown
      ])

module _ {F : Type 0} (json : Json F)
    (encodes_alike : (a b : App) → SameApp a b → json.encode_app a ≡ json.encode_app b) where
  generation-same : (a b : App) → SameApp a b → app_generation json a ≡ app_generation json b
  unfolding app_generation
  generation-same a b h = rw (encodes_alike _ _ (placed-SameApp a b h)) refl

  append-MapAlike :
      (key : String) (a b : App) (m n : GoMap (List DeployAppRevision))
      → SameApp a b
      → MapAlike (ListAlike SameRevision) m n
      → MapAlike
          (ListAlike SameRevision)
          (append_deploy_app_revision json key a m)
          (append_deploy_app_revision json key b n)
  unfolding append_deploy_app_revision
  append-MapAlike key a b m n h k =
      let generation = app_generation json b in
      let xs = list_or_empty (GoMap.lookup key m) in
      let ys = list_or_empty (GoMap.lookup key n) in
      let rs = list_or_empty-ListAlike (k.at_key key) in
      let ends = ends_with_generation-same generation (last?-ListAlike SameRevision rs) in
      rw (generation-same a b h, ends)
        (elim (Bool-cases (trim_space generation == "")) [
          | inl blank ↦ rw blank k
          | inr marked ↦ rw marked (elim (Bool-cases (ends_with_generation (last? ys) generation)) [
            | inl repeated ↦ rw repeated k
            | inr new ↦ rw new (
                insert-MapAlike (ListAlike SameRevision) key _ _ m n
                  (push_revision-ListAlike _ _ xs ys (record { generation = refl; app = h }) rs) k)
          ])
        ])

  pub revise-MapAlike :
      (key : String) {o p : Option App} (app : App) (m n : GoMap (List DeployAppRevision))
      → OptionAlike SameApp o p
      → MapAlike (ListAlike SameRevision) m n
      → MapAlike (ListAlike SameRevision) (revise json key o app m) (revise json key p app n)
  unfolding revise
  revise-MapAlike key app m n neither k = k
  revise-MapAlike key app m n (both a b h) k =
      rw (generation-same a b h)
        (elim (Bool-cases (app_generation json b == app_generation json app)) [
          | inl same ↦ rw same k
          | inr new ↦ rw new (append-MapAlike key a b m n h k)
        ])
