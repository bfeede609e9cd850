-- ===== src/Raft/Samples/Snapshots.antt =====
-- A snapshot of a state that stores a document, in a text that drops empty maps: the count of
-- commands and the size of the document's volume.
use orch.Prelude.{
  ℕ, String, Bool, true, false, Option, none, some, List, [], ◌∷◌, ◌≡◌, ◌≢◌, refl, ◌&&◌, arith,
  eq_iff, &&_true, inl, inr, Bool-cases, ◌==◌, if◌then◌else◌,
}
use orch.Prelude.Int.{ℤ, pos, negsuc}
use orch.Prelude.GoMap
use orch.Prelude.GoMap.{GoMap, SameReads, SameReads-refl}
use orch.Prelude.Alike.{MapAlike, neither, both, nil}
use orch.Deploy.Document.{Volume, App}
use orch.Meta.{Assignment, Binding}
use orch.Raft.State.{Snapshot, DeployAppRevision, State, Fsm, empty_state}
use orch.Raft.Alike.{SameApp}
use orch.Raft.Json.{Bytes, Json}
use orch.Raft.Fsm.{replay, save_snapshot, recover_from_snapshot}
use orch.Raft.Fsm.Recovery.{SameTables, StateCodec, recover_then_replay}
use orch.Raft.Samples.{shop, app_of_size, toy_json, new_fsm}

abbrev is_nil {ℓ} : {A : Type ℓ} → List A → Bool
is_nil [] = true
is_nil (x ∷ xs) = false

abbrev drops : GoMap String → Bool
drops GoMap.nil = true
drops (GoMap.made l) = is_nil l

-- The documents of `app_of_size shop`, whose metadata may hold empty maps.
abbrev is_shop : App → Bool
is_shop a =
    (a.api_version == "orch/v1alpha1" && a.kind == "App")
    && (a.metadata.name == "shop" && a.metadata.namespace == "")
    && (drops a.metadata.labels && drops a.metadata.annotations)
    && (is_nil a.workloads && is_nil a.configs)
    && (is_nil a.secrets && is_nil a.ingresses)

abbrev size_text : ℕ → List Volume → Option Bytes
size_text count [] = none
size_text count (v ∷ w ∷ vs) = none
size_text count (v ∷ []) = elim v.size_bytes [
  | negsuc n ↦ none
  | pos n ↦ if v.name == "data" && v.persistent then some (count ∷ n ∷ []) else none
]

abbrev app_text : ℕ → List (String × App) → Option Bytes
app_text count [] = none
app_text count (e ∷ f ∷ es) = none
app_text count ((key, a) ∷ []) =
    if key == "default/shop" && is_shop a then size_text count a.volumes else none

abbrev tables_text :
    ℕ
    → GoMap (Snapshot ℕ)
    → GoMap App
    → GoMap (List DeployAppRevision)
    → GoMap Assignment
    → GoMap Binding
    → Option Bytes
tables_text c GoMap.nil (GoMap.made l) GoMap.nil GoMap.nil GoMap.nil = app_text c l
tables_text c n d r a v = none

abbrev shop_state : Bytes → Option (State ℕ)
shop_state [] = none
shop_state (c ∷ []) = none
shop_state (c ∷ n ∷ bs) = some (record empty_state {
  applied_commands = c;
  deploy_apps = GoMap.made (("default/shop", app_of_size shop n) ∷ []);
})

abbrev shop_json : Json ℕ
shop_json = record toy_json {
  decode_state = shop_state;
  encode_state = λ s.
      tables_text s.applied_commands s.node_capacity s.deploy_apps s.deploy_app_revisions
        s.assignments s.volume_bindings;
}

no_elements {ℓ} : {A : Type ℓ} (xs : List A) → is_nil xs ≡ true → xs ≡ []
no_elements [] h = refl
no_elements (x ∷ xs) h = absurd (cc h)

dropped : (m : GoMap String) → drops m ≡ true → SameReads m GoMap.nil
unfolding GoMap.lookup
dropped GoMap.nil h = SameReads-refl GoMap.nil
dropped (GoMap.made []) h = record { at_key = λ k. refl }
dropped (GoMap.made (e ∷ es)) h = absurd (cc h)

shop-SameApp :
    (a : App) (n : ℕ)
    → is_shop a ≡ true
    → a.volumes ≡ (app_of_size shop n).volumes
    → SameApp a (app_of_size shop n)
shop-SameApp a n h v =
    let api : a.api_version ≡ "orch/v1alpha1" =
      ground (arith, h, eq_iff a.api_version "orch/v1alpha1") in
    let kind : a.kind ≡ "App" = ground (arith, h, eq_iff a.kind "App") in
    let name : a.metadata.name ≡ "shop" = ground (arith, h, eq_iff a.metadata.name "shop") in
    let ns : a.metadata.namespace ≡ "" = ground (arith, h, eq_iff a.metadata.namespace "") in
    record {
      api_version = api;
      kind = kind;
      metadata = record {
        name = name;
        namespace = ns;
        labels = dropped a.metadata.labels (ground (arith, h));
        annotations = dropped a.metadata.annotations (ground (arith, h));
      };
      workloads = rw (no_elements a.workloads (ground (arith, h))) nil;
      configs = rw (no_elements a.configs (ground (arith, h))) nil;
      secrets = rw (no_elements a.secrets (ground (arith, h))) nil;
      volumes = v;
      ingresses = no_elements a.ingresses (ground (arith, h));
    }

size_found :
    (c : ℕ) (name : String) (persistent : Bool) (size : ℤ) (b : Bytes)
    → size_text c ((record { name = name; persistent = persistent; size_bytes = size }) ∷ [])
      ≡ some b
    → (n : ℕ) × (c ∷ n ∷ [] ≡ b)
      × ((record { name = name; persistent = persistent; size_bytes = size }) ∷ []
          ≡ (app_of_size shop n).volumes)
size_found c name persistent (negsuc n) b e = absurd (cc e)
size_found c name persistent (pos n) b e = elim (Bool-cases (name == "data")) [
  | inr other ↦ absurd (let q = (rw other at e) in cc q)
  | inl named ↦ elim (Bool-cases persistent) [
    | inr gone ↦ absurd (let q = (rw (named, gone) at e) in cc q)
    | inl kept ↦
        (n, (let q = (rw (named, kept) at e) in cc q), rw ((eq_iff name "data").0 named, kept) refl)
  ]
]

volumes_found :
    (c : ℕ) (vs : List Volume) (b : Bytes)
    → size_text c vs ≡ some b
    → (n : ℕ) × (c ∷ n ∷ [] ≡ b) × (vs ≡ (app_of_size shop n).volumes)
volumes_found c [] b e = absurd (cc e)
volumes_found c (v ∷ w ∷ vs) b e = absurd (cc e)
volumes_found c (v ∷ []) b e = size_found c v.name v.persistent v.size_bytes b e

app_found :
    (c : ℕ) (l : List (String × App)) (b : Bytes)
    → app_text c l ≡ some b
    → (n : ℕ) × (c ∷ n ∷ [] ≡ b)
      × MapAlike SameApp (GoMap.made l) (GoMap.made (("default/shop", app_of_size shop n) ∷ []))
unfolding GoMap.lookup
app_found c [] b e = absurd (cc e)
app_found c (x ∷ y ∷ l) b e = absurd (cc e)
app_found c ((key, a) ∷ []) b e = elim (Bool-cases (key == "default/shop" && is_shop a)) [
  | inr other ↦ absurd (let q = (rw other at e) in cc q)
  | inl shop_there ↦
      let (n, text, volumes) = volumes_found c a.volumes b (rw shop_there at e) in
      let (keyed, is) = &&_true (key == "default/shop") (is_shop a) shop_there in
      let same : SameApp a (app_of_size shop n) = shop-SameApp a n is volumes in
      (
        n,
        text,
        record {
          at_key = λ k.
              rw ((eq_iff key "default/shop").0 keyed) (elim (Bool-cases ("default/shop" == k)) [
                | inl here ↦ rw here (both a (app_of_size shop n) same)
                | inr there ↦ rw there neither
              ]);
        },
      )
]

abbrev state_of :
    ℕ
    → GoMap (Snapshot ℕ)
    → GoMap App
    → GoMap (List DeployAppRevision)
    → GoMap Assignment
    → GoMap Binding
    → State ℕ
state_of c n d r a v = record {
  applied_commands = c;
  node_capacity = n;
  deploy_apps = d;
  deploy_app_revisions = r;
  assignments = a;
  volume_bindings = v;
}

state_decodes :
    (c : ℕ) (n : GoMap (Snapshot ℕ)) (d : GoMap App) (r : GoMap (List DeployAppRevision))
    (a : GoMap Assignment) (v : GoMap Binding) (b : Bytes)
    → tables_text c n d r a v ≡ some b
    → (b ≢ []) × (t : State ℕ) × (shop_state b ≡ some t) × SameTables (state_of c n d r a v) t
unfolding GoMap.lookup
state_decodes c (GoMap.made l) d r a v b e = absurd (cc e)
state_decodes c GoMap.nil GoMap.nil r a v b e = absurd (cc e)
state_decodes c GoMap.nil (GoMap.made l) (GoMap.made k) a v b e = absurd (cc e)
state_decodes c GoMap.nil (GoMap.made l) GoMap.nil (GoMap.made k) v b e = absurd (cc e)
state_decodes c GoMap.nil (GoMap.made l) GoMap.nil GoMap.nil (GoMap.made k) b e = absurd (cc e)
state_decodes c GoMap.nil (GoMap.made l) GoMap.nil GoMap.nil GoMap.nil b e =
    let (n, text, apps) = app_found c l b e in
    rw (← text) (
      λ p. cc p,
      record empty_state {
        applied_commands = c;
        deploy_apps = GoMap.made (("default/shop", app_of_size shop n) ∷ []);
      },
      refl,
      record {
        count = refl;
        nodes = SameReads-refl GoMap.nil;
        apps = apps;
        histories = record { at_key = λ k. neither };
        assignments = record { at_key = λ k. neither };
        bindings = record { at_key = λ k. neither };
      },
    )

shop_codec : StateCodec shop_json
shop_codec = record {
  encodes_alike = λ a b h. rw h.volumes refl;
  decodes = λ s.
      state_decodes s.applied_commands s.node_capacity s.deploy_apps s.deploy_app_revisions
        s.assignments s.volume_bindings;
}

-- A machine that stores a document with an empty map of labels, which its snapshot drops.
abbrev labelled : Fsm ℕ
labelled = record new_fsm {
  state = record empty_state {
    applied_commands = 3;
    deploy_apps =
        GoMap.made (("default/shop", app_of_size (record shop { labels = GoMap.made [] }) 1) ∷ []);
  };
}

abbrev later_log : List Bytes
later_log = (0 ∷ 0 ∷ []) ∷ (1 ∷ 0 ∷ []) ∷ (9 ∷ []) ∷ (3 ∷ 0 ∷ []) ∷ []

recover_then_replay_example :
    (r : Fsm ℕ) × (recover_from_snapshot shop_json (3 ∷ 1 ∷ []) new_fsm ≡ some r)
    × SameTables (replay shop_json later_log labelled).state (replay shop_json later_log r).state
unfolding save_snapshot
recover_then_replay_example =
    recover_then_replay shop_json shop_codec labelled new_fsm (3 ∷ 1 ∷ []) later_log refl
