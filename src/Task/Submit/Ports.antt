-- ===== src/Task/Submit/Ports.antt =====
-- A document that SubmitDeploy stores takes no port that another app of the state has.
use orch.Prelude.{
  Bool, true, false, none, some, List, [], ◌≡◌, ◌≢◌, refl, sym, subst, ◌∙◌, ◌⊎◌, inl, inr, arith,
  ◌==◌, eq_iff, Bool-cases, Option-cases, if◌then◌else◌,
}
use mathlib.Core.List.{Memᴰ}
use text.Mathlib.TextPositions.{eq_refl}
use orch.Prelude.Text.{trim_space}
use orch.Prelude.GoMap.{lookup-values}
use orch.Deploy.Document.{Metadata, App}
use orch.Deploy.Libraries.{Libraries}
use orch.Deploy.Validate.Apps
use orch.Deploy.Validate.Registered.{both_none, not_rejected}
use orch.Meta.{namespace_or_default, deploy_app_map_key}
use orch.Raft.State.{Fsm}
use orch.Raft.Json.{Bytes, Json}
use orch.Raft.Fsm.{cmd_upsert_deploy_app, update, replay}
use orch.Raft.Fsm.Reads.{IsCommand, get_deploy_app-update}
use orch.Raft.Fsm.WellFormed.{IsWellFormed}
use orch.Raft.Lookup.{get_deploy_app, list_deploy_apps}
use orch.Task.Preflight.{HostPortClaim, same_app_metadata, host_port_claims, preflight_deploy}
use orch.Task.Preflight.HostPorts.{Overlap-sym, Apart, IsFree, preflight_deploy-none}
use orch.Task.Submit.{
  ok, Proposals, apply_command, marshalled, submit_to_raft, checked, validated, submit_deploy,
}

Apart-sym :
    (a b : App)
    → Apart (host_port_claims a) (host_port_claims b)
    → Apart (host_port_claims b) (host_port_claims a)
Apart-sym a b h c d m n o = h d c n m (Overlap-sym o)

-- No two claims on host ports of the desired apps overlap, neither in one app nor in two.
pub record PortsAreFree {F : Type 0} (f : Fsm F) : Type 0 where
  pub own : (m : Metadata) (a : App) → get_deploy_app m f ≡ some a → IsFree (host_port_claims a)
  pub others :
      (m n : Metadata) (a b : App)
      → get_deploy_app m f ≡ some a
      → get_deploy_app n f ≡ some b
      → deploy_app_map_key m ≢ deploy_app_map_key n
      → Apart (host_port_claims a) (host_port_claims b)

-- The app is stored with its claims on host ports, which do not overlap among themselves, nor with
-- those of an app under another key that was desired before and still is.
pub record TakesFreePorts {F : Type 0} (before after : Fsm F) (a : App) : Type 0 where
  pub stored :
      (b : App) × (get_deploy_app a.metadata after ≡ some b)
      × (host_port_claims b ≡ host_port_claims a)
  pub own : IsFree (host_port_claims a)
  pub others :
      (m : Metadata) (b : App)
      → deploy_app_map_key a.metadata ≢ deploy_app_map_key m
      → get_deploy_app m before ≡ some b
      → get_deploy_app m after ≡ some b
      → Apart (host_port_claims a) (host_port_claims b)

same_metadata-key :
    (m n : Metadata) → same_app_metadata m n ≡ true → deploy_app_map_key m ≡ deploy_app_map_key n
unfolding same_app_metadata deploy_app_map_key
same_metadata-key m n h =
    let ns : namespace_or_default m.namespace ≡ namespace_or_default n.namespace =
      ground
        (arith, eq_iff (namespace_or_default m.namespace) (namespace_or_default n.namespace)) in
    let name : trim_space m.name ≡ trim_space n.name =
      ground (arith, eq_iff (trim_space m.name) (trim_space n.name)) in
    rw (ns, name) refl

module _ {F : Type 0} (json : Json F) (raft_library : Proposals) where
  -- The command of the app decodes to an app of its name, with its claims on host ports.
  pub record IsReadBack (a : App) : Type 0 where
    pub typed :
        (cmd : Bytes) → raft_library.marshal a ≡ some cmd → IsCommand json cmd cmd_upsert_deploy_app
    pub decoded :
        (cmd : Bytes)
        → raft_library.marshal a ≡ some cmd
        → (b : App) × (json.decode_app cmd ≡ some b)
          × (b.metadata.name ≡ a.metadata.name)
          × (b.metadata.namespace ≡ a.metadata.namespace)
          × (host_port_claims b ≡ host_port_claims a)

  module _ (f : Fsm F) (keyed : IsWellFormed json f.state) (a : App)
      (apart : (b : App)
        → Memᴰ b (list_deploy_apps f)
        → same_app_metadata a.metadata b.metadata ≡ false
        → Apart (host_port_claims a) (host_port_claims b)) where
    -- A stored app under another key than a's.
    stored-Apart :
        (m : Metadata) (b : App)
        → get_deploy_app m f ≡ some b
        → deploy_app_map_key a.metadata ≢ deploy_app_map_key m
        → Apart (host_port_claims a) (host_port_claims b)
    unfolding get_deploy_app list_deploy_apps
    stored-Apart m b found other =
        let (key, rest) = keyed.apps.at_key (deploy_app_map_key m) b found in
        apart b (lookup-values (deploy_app_map_key m) b f.state.deploy_apps found)
          (elim (Bool-cases (same_app_metadata a.metadata b.metadata)) [
            | inl same ↦ absurd (other (same_metadata-key a.metadata b.metadata same ∙ key))
            | inr apart_now ↦ apart_now
          ])

    module _ (free : PortsAreFree f) (own : IsFree (host_port_claims a)) (g : Fsm F) (b : App)
        (key : deploy_app_map_key b.metadata ≡ deploy_app_map_key a.metadata)
        (claims : host_port_claims b ≡ host_port_claims a)
        (reads : (m : Metadata)
          → get_deploy_app m g ≡ (
              if deploy_app_map_key b.metadata == deploy_app_map_key m
              then some b
              else get_deploy_app m f)) where
      -- What is read after the step is b, or was there before under another key.
      read-cases :
          (m : Metadata) (x : App)
          → get_deploy_app m g ≡ some x
          → ((deploy_app_map_key a.metadata ≡ deploy_app_map_key m)
              × (host_port_claims x ≡ host_port_claims a))
            ⊎ ((deploy_app_map_key a.metadata ≢ deploy_app_map_key m)
                × (get_deploy_app m f ≡ some x))
      read-cases m x h = elim (Bool-cases (deploy_app_map_key b.metadata == deploy_app_map_key m)) [
        | inl same ↦ inl (
          sym key ∙ (eq_iff (deploy_app_map_key b.metadata) (deploy_app_map_key m)).0 same,
          let q : x ≡ b = (let k = reads m in let r = (rw same at k) in cc (r, h)) in rw q claims,
        )
        | inr other ↦ inr (
          λ e.
              let t = (eq_iff (deploy_app_map_key b.metadata) (deploy_app_map_key m)).1 (key ∙ e) in
              cc (t, other),
          (let k = reads m in let r = (rw other at k) in cc (r, h)),
        )
      ]

      stored-PortsAreFree : PortsAreFree g
      stored-PortsAreFree = record {
        own = λ m x h. elim (read-cases m x h) [
          | inl (key_here, same) ↦ rw same own
          | inr (key_there, before) ↦ free.own m x before
        ];
        others = λ m n x y h k ne. elim (read-cases m x h) [
          | inl (here, same) ↦ elim (read-cases n y k) [
            | inl (there, again) ↦ absurd (ne (sym here ∙ there))
            | inr (there, before) ↦ rw same (stored-Apart n y before there)
          ]
          | inr (here, before) ↦ elim (read-cases n y k) [
            | inl (there, again) ↦ rw again (Apart-sym a x (stored-Apart m x before here))
            | inr (there, earlier) ↦ free.others m n x y before earlier ne
          ]
        ];
      }

  validate-named :
      {S G : Type 0} (lib : Libraries S G) (a : App)
      → Apps.validate lib a ≡ none
      → trim_space a.metadata.name ≢ ""
  unfolding Apps.validate Apps.validate_metadata
  validate-named lib a h =
      let (metadata, rest) = both_none _ _ h in
      let (name, rest2) = both_none _ _ metadata in
      let blank = not_rejected (trim_space a.metadata.name == "") _ name in
      λ e. let t = (eq_iff (trim_space a.metadata.name) "").1 e in cc (t, blank)

  module _ {S G : Type 0} (lib : Libraries S G) (available : HostPortClaim → Bool) (f g : Fsm F)
      (a : App) where
    -- What has happened when SubmitDeploy returns no error.
    record IsSubmitted (between : List Bytes) : Type 0 where
      named : trim_space a.metadata.name ≢ ""
      passed : preflight_deploy available (some f) a ≡ none
      cmd : Bytes
      marshals : raft_library.marshal a ≡ some cmd
      result : (update json cmd (replay json between f)).0 ≡ g

    proposed :
        (cmd : Bytes) (raft : Fsm F)
        → apply_command json raft_library cmd raft ≡ ok g
        → (update json cmd raft).0 ≡ g
    unfolding apply_command
    proposed cmd raft h = elim (Bool-cases (raft_library.commits cmd)) [
      | inl done ↦ (let q = (rw done at h) in cc q)
      | inr failed ↦ absurd (let q = (rw failed at h) in cc q)
    ]

    submit_deploy-IsSubmitted :
        (between : List Bytes)
        → submit_deploy json raft_library lib available (some a) (some f) between ≡ ok g
        → IsSubmitted between
    unfolding submit_deploy submit_to_raft
    submit_deploy-IsSubmitted between h = elim (Option-cases (Apps.validate lib a)) [
      | inr (e, bad) ↦ absurd (let q = (rw (validated, bad) at h) in cc q)
      | inl good ↦ elim (Option-cases (preflight_deploy available (some f) a)) [
        | inr (e, bad) ↦ absurd (let q = (rw (validated, checked, good, bad) at h) in cc q)
        | inl passed ↦ elim (Option-cases (raft_library.marshal a)) [
          | inl bad ↦
              absurd (let q = (rw (validated, checked, marshalled, good, passed, bad) at h) in cc q)
          | inr (cmd, m) ↦ record {
            named = validate-named lib a good;
            passed = passed;
            cmd = cmd;
            marshals = m;
            result =
                proposed cmd (replay json between f)
                  (rw (validated, checked, marshalled, good, passed, m) at h);
          }
        ]
      ]
    ]

    module _ (keyed : IsWellFormed json f.state) (read_back : IsReadBack a) where
      -- Whatever is committed between its preflight, on a well-formed state, and its own command: where
      -- the app's command, once it is marshalled, decodes to an app of its name with its claims, a
      -- SubmitDeploy without an error has stored the app with claims on host ports that overlap
      -- neither among themselves nor with those of an app under another key that the preflight saw
      -- and that is still there.
      pub submit_deploy-TakesFreePorts :
          (between : List Bytes)
          → submit_deploy json raft_library lib available (some a) (some f) between ≡ ok g
          → TakesFreePorts f g a
      unfolding deploy_app_map_key
      submit_deploy-TakesFreePorts between h =
          let s = submit_deploy-IsSubmitted between h in
          let (b, decoded, name, namespace, claims) = read_back.decoded s.cmd s.marshals in
          let (own, apart) = preflight_deploy-none available f a s.passed in
          let key : deploy_app_map_key b.metadata ≡ deploy_app_map_key a.metadata =
            rw (name, namespace) refl in
          let reads =
            get_deploy_app-update json s.cmd b (replay json between f)
              (read_back.typed s.cmd s.marshals) decoded (rw name s.named) a.metadata in
          record {
            stored = (
              b,
              rw (← s.result) (rw (reads, key) (rw (eq_refl (deploy_app_map_key a.metadata)) refl)),
              claims,
            );
            own = own;
            others = λ m x other before after. stored-Apart f keyed a apart m x before other;
          }

      -- From a well-formed state in which no two claims on host ports overlap, and where nothing is
      -- committed between the preflight and the app's command: where that command, once it is
      -- marshalled, decodes to an app of its name with its claims, a state that SubmitDeploy returns
      -- has no two overlapping claims either.
      pub submit_deploy-PortsAreFree :
          (free : PortsAreFree f)
          → submit_deploy json raft_library lib available (some a) (some f) [] ≡ ok g
          → PortsAreFree g
      unfolding deploy_app_map_key replay
      submit_deploy-PortsAreFree free h =
          let s = submit_deploy-IsSubmitted [] h in
          let (b, decoded, name, namespace, claims) = read_back.decoded s.cmd s.marshals in
          let (own, apart) = preflight_deploy-none available f a s.passed in
          let key : deploy_app_map_key b.metadata ≡ deploy_app_map_key a.metadata =
            rw (name, namespace) refl in
          subst PortsAreFree s.result (
            stored-PortsAreFree f keyed a apart free own (update json s.cmd f).0 b key claims (
              get_deploy_app-update json s.cmd b f (read_back.typed s.cmd s.marshals) decoded
                (rw name s.named)))
