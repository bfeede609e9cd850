-- ===== src/Raft/Revisions/History.antt =====
-- What the bounded history of a deploy app's documents promises (internal/raftsvc/revisions.go).
use orch.Prelude.{
  none, true, Option, ℕ, suc, ◌-◌, ◌≤◌, ◌<◌, String, false, some, List, [], ◌∷◌, ◌++◌, ◌≡◌, ◌≢◌,
  refl, inl, inr, arith, ◌==◌, eq_iff, ltb, Bool-cases, Option-cases,
}
use orch.Prelude.Text.{trim_space}
use orch.Prelude.Lists.{
  length, drop, last?, All, length-append, length-drop, last?-snoc, All-append, All-drop,
}
use orch.Prelude.GoMap
use orch.Prelude.GoMap.{GoMap, ForEach, insert-ForEach, lookup-insert, lookup-insert_self}
use orch.Deploy.Document.{App}
use orch.Meta.{deploy_app_map_key}
use orch.Raft.State.{DeployAppRevision, max_deploy_app_revisions}
use orch.Raft.Json.{Json}
use orch.Raft.Revisions.{
  list_or_empty, ends_with_generation, push_revision, app_generation, append_deploy_app_revision,
}

-- No two neighbours have one generation.
abbrev pub Alternates : List DeployAppRevision → Type 0
Alternates [] = Unit
Alternates (r ∷ []) = Unit
Alternates (r ∷ s ∷ rs) = (r.generation ≢ s.generation) × Alternates (s ∷ rs)

Alternates-tail :
    (r : DeployAppRevision) (rs : List DeployAppRevision) → Alternates (r ∷ rs) → Alternates rs
Alternates-tail r [] h = tt
Alternates-tail r (s ∷ rs) h = h.1

Alternates-drop : (n : ℕ) (rs : List DeployAppRevision) → Alternates rs → Alternates (drop n rs)
Alternates-drop ℕ.zero rs h = h
Alternates-drop (suc n) [] h = h
Alternates-drop (suc n) (r ∷ rs) h = Alternates-drop n rs (Alternates-tail r rs h)

Alternates-snoc :
    (rs : List DeployAppRevision) (r : DeployAppRevision)
    → Alternates rs
    → ends_with_generation (last? rs) r.generation ≡ false
    → Alternates (rs ++ r ∷ [])
unfolding ends_with_generation
Alternates-snoc [] r h e = tt
Alternates-snoc (s ∷ []) r h e = (λ p. ground (arith, eq_iff s.generation r.generation), tt)
Alternates-snoc (s ∷ t ∷ rs) r h e = (h.0, Alternates-snoc (t ∷ rs) r h.1 e)

last?-drop :
    (n : ℕ) (rs : List DeployAppRevision) (r : DeployAppRevision)
    → n ≤ length rs
    → last? (drop n (rs ++ r ∷ [])) ≡ some r
last?-drop ℕ.zero rs r h = last?-snoc rs r
last?-drop (suc n) [] r h = elim h [ ]
last?-drop (suc n) (s ∷ rs) r h = last?-drop n rs r (omega arith)

-- The history never grows past the limit, and is not empty after a push.
pub length-push_revision :
    (r : DeployAppRevision) (rs : List DeployAppRevision)
    → (0 < length (push_revision r rs)) × (length (push_revision r rs) ≤ max_deploy_app_revisions)
unfolding push_revision
length-push_revision r rs = ground (
  arith,
  length-append rs (r ∷ []),
  length-drop (length (rs ++ r ∷ []) - max_deploy_app_revisions) (rs ++ r ∷ []),
)

-- What was pushed is what is read back as the latest.
pub last?-push_revision :
    (r : DeployAppRevision) (rs : List DeployAppRevision) → last? (push_revision r rs) ≡ some r
unfolding push_revision
last?-push_revision r rs =
    let n = length (rs ++ r ∷ []) - max_deploy_app_revisions in
    ground (arith, last?-snoc rs r, last?-drop n rs r (omega (arith, length-append rs (r ∷ []))))

push-Alternates :
    (r : DeployAppRevision) (rs : List DeployAppRevision)
    → Alternates rs
    → ends_with_generation (last? rs) r.generation ≡ false
    → Alternates (push_revision r rs)
unfolding push_revision
push-Alternates r rs h e =
    let grown = Alternates-snoc rs r h e in
    elim (Bool-cases (ltb max_deploy_app_revisions (length (rs ++ r ∷ [])))) [
      | inl long ↦ rw long (Alternates-drop _ (rs ++ r ∷ []) grown)
      | inr short ↦ rw short grown
    ]

push-All :
    (P : DeployAppRevision → Type 0) (r : DeployAppRevision) (rs : List DeployAppRevision)
    → P r
    → All P rs
    → All P (push_revision r rs)
unfolding push_revision
push-All P r rs hr h =
    let grown = All-append P rs (r ∷ []) h (hr, tt) in
    elim (Bool-cases (ltb max_deploy_app_revisions (length (rs ++ r ∷ [])))) [
      | inl long ↦ rw long (All-drop P _ (rs ++ r ∷ []) grown)
      | inr short ↦ rw short grown
    ]

module _ {F : Type 0} (json : Json F) where
  -- A revision holds the generation of its own document, stored under the document's key.
  pub record IsRevisionOf (key : String) (r : DeployAppRevision) : Type 0 where
    pub generated : r.generation ≡ app_generation json r.app
    pub keyed : deploy_app_map_key r.app.metadata ≡ key
    pub marked : trim_space r.generation ≢ ""

  pub record IsHistory (key : String) (rs : List DeployAppRevision) : Type 0 where
    pub bounded : length rs ≤ max_deploy_app_revisions
    pub revisions : All (IsRevisionOf key) rs
    pub alternates : Alternates rs

  pub IsHistory-nil : (key : String) → IsHistory key []
  IsHistory-nil key = record { bounded = omega arith; revisions = tt; alternates = tt }

  pub push-IsHistory :
      (key : String) (r : DeployAppRevision) (rs : List DeployAppRevision)
      → IsRevisionOf key r
      → ends_with_generation (last? rs) r.generation ≡ false
      → IsHistory key rs
      → IsHistory key (push_revision r rs)
  push-IsHistory key r rs hr e h = record {
    bounded = (length-push_revision r rs).1;
    revisions = push-All (IsRevisionOf key) r rs hr h.revisions;
    alternates = push-Alternates r rs h.alternates e;
  }

  abbrev pub AreHistories : GoMap (List DeployAppRevision) → Type 0
  AreHistories table = ForEach IsHistory table

  IsHistory-or_empty :
      (k : String) (table : GoMap (List DeployAppRevision))
      → AreHistories table
      → IsHistory k (list_or_empty (GoMap.lookup k table))
  IsHistory-or_empty k table h = elim (Option-cases (GoMap.lookup k table)) [
    | inl e ↦ rw e (IsHistory-nil k)
    | inr (rs, e) ↦ rw e (h.at_key k rs e)
  ]

  -- Appending a document under its own key keeps every history in order.
  pub append_deploy_app_revision-AreHistories :
      (key : String) (app : App) (table : GoMap (List DeployAppRevision))
      → deploy_app_map_key app.metadata ≡ key
      → AreHistories table
      → AreHistories (append_deploy_app_revision json key app table)
  unfolding append_deploy_app_revision
  append_deploy_app_revision-AreHistories key app table keyed h =
      let generation = app_generation json app in
      let rs = list_or_empty (GoMap.lookup key table) in
      elim (Bool-cases (trim_space generation == "")) [
        | inl blank ↦ rw blank h
        | inr marked ↦ rw marked (elim (Bool-cases (ends_with_generation (last? rs) generation)) [
          | inl repeated ↦ rw repeated h
          | inr new ↦ rw new (
              insert-ForEach IsHistory key
                (push_revision (record { generation = generation; app = app }) rs) table
                (push-IsHistory key (record { generation = generation; app = app }) rs
                  (record {
                    generated = refl;
                    keyed = keyed;
                    marked = λ p. ground (arith, eq_iff (trim_space generation) "");
                  })
                  new (IsHistory-or_empty key table h))
                h)
        ])
      ]

  ends_with_generation_last :
      (o : Option DeployAppRevision) (generation : String)
      → ends_with_generation o generation ≡ true
      → (r : DeployAppRevision) × (o ≡ some r) × (r.generation ≡ generation)
  unfolding ends_with_generation
  ends_with_generation_last none generation h = cc
  ends_with_generation_last (some r) generation h = (r, refl, (eq_iff r.generation generation).0 h)

  -- After an append the latest revision is of the appended document's generation.
  pub last?-append_deploy_app_revision :
      (key : String) (app : App) (table : GoMap (List DeployAppRevision))
      → trim_space (app_generation json app) ≢ ""
      → (r : DeployAppRevision) × (last?
            (list_or_empty (GoMap.lookup key (append_deploy_app_revision json key app table)))
          ≡ some r)
        × (r.generation ≡ app_generation json app)
  unfolding append_deploy_app_revision
  last?-append_deploy_app_revision key app table marked =
      let generation = app_generation json app in
      let rs = list_or_empty (GoMap.lookup key table) in
      let set : (trim_space generation == "") ≡ false =
        ground (arith, eq_iff (trim_space generation) "") in
      rw set (elim (Bool-cases (ends_with_generation (last? rs) generation)) [
        | inl repeated ↦ rw repeated (ends_with_generation_last (last? rs) generation repeated)
        | inr new ↦ rw new (
            let r : DeployAppRevision = record { generation = generation; app = app } in
            (r, rw lookup-insert_self (last?-push_revision r rs), refl))
      ])

  -- An append under one key leaves the histories of the others alone.
  pub append_deploy_app_revision_ne :
      (key k : String) (app : App) (table : GoMap (List DeployAppRevision))
      → (key == k) ≡ false
      → GoMap.lookup k (append_deploy_app_revision json key app table) ≡ GoMap.lookup k table
  unfolding append_deploy_app_revision
  append_deploy_app_revision_ne key k app table other =
      let generation = app_generation json app in
      let rs = list_or_empty (GoMap.lookup key table) in
      elim (Bool-cases (trim_space generation == "")) [
        | inl blank ↦ rw blank refl
        | inr marked ↦ rw marked (elim (Bool-cases (ends_with_generation (last? rs) generation)) [
          | inl repeated ↦ rw repeated refl
          | inr new ↦ rw (new, lookup-insert, other) refl
        ])
      ]
