-- ===== src/Raft/Revisions.antt =====
-- internal/raftsvc/revisions.go and AppGeneration of internal/deploy/v1alpha1/generation.go: the
-- bounded history of a deploy app's documents.
pub mod History
use orch.Prelude.{
  ◌-◌, String, Bool, false, Option, none, some, List, [], ◌∷◌, ◌++◌, ◌==◌, if◌then◌else◌, ltb,
}
use orch.Prelude.Text.{trim_space}
use orch.Prelude.Lists.{length, drop, last?}
use orch.Prelude.GoMap
use orch.Prelude.GoMap.{GoMap}
use orch.Deploy.Document.{App}
use orch.Meta.{namespace_or_default}
use orch.Raft.State.{DeployAppRevision, max_deploy_app_revisions}
use orch.Raft.Json.{Bytes, Json}

abbrev pub list_or_empty {ℓ} : {A : Type ℓ} → Option (List A) → List A
list_or_empty none = []
list_or_empty (some xs) = xs

unfoldable pub ends_with_generation : Option DeployAppRevision → String → Bool
ends_with_generation none generation = false
ends_with_generation (some r) generation = r.generation == generation

-- append, and keep the last maxDeployAppRevisions
unfoldable pub push_revision : DeployAppRevision → List DeployAppRevision → List DeployAppRevision
push_revision r revisions =
    let grown = revisions ++ r ∷ [] in
    if ltb max_deploy_app_revisions (length grown)
    then drop (length grown - max_deploy_app_revisions) grown
    else grown

module _ {F : Type 0} (json : Json F) where
  -- AppGeneration: the empty text where the document does not marshal.
  generation_of_bytes : Option Bytes → String
  generation_of_bytes none = ""
  generation_of_bytes (some b) = json.digest b

  unfoldable pub app_generation : App → String
  unfolding generation_of_bytes
  app_generation app = generation_of_bytes (
      json.encode_app (record app {
        metadata = record app.metadata { namespace = namespace_or_default app.metadata.namespace };
      }))

  unfoldable pub append_deploy_app_revision :
      String → App → GoMap (List DeployAppRevision) → GoMap (List DeployAppRevision)
  unfolding ends_with_generation push_revision
  append_deploy_app_revision key app table =
      let generation = app_generation app in
      let revisions = list_or_empty (GoMap.lookup key table) in
      if trim_space generation == ""
      then table
      else if ends_with_generation (last? revisions) generation
      then table
      else GoMap.insert key
          (push_revision (record { generation = generation; app = app }) revisions) table
