-- ===== src/Raft/Json.antt =====
-- encoding/json and crypto/sha256 as the state machine calls them. The decoders stand for
-- json.Unmarshal into each envelope of fsm.go, `none` for its error; the encoders for json.Marshal.
use orch.Prelude.{ℕ, String, Option, List}
use orch.Deploy.Document.{Metadata, App}
use orch.Meta.{Assignment, Binding}
use orch.Raft.State.{Snapshot, State}

abbrev pub Bytes : Type 0
Bytes = List ℕ

pub record Json (F : Type 0) : Type 0 where
  pub decode_command_type : Bytes → Option String
  pub decode_node : Bytes → Option (Snapshot F)
  pub decode_app : Bytes → Option App
  pub decode_metadata : Bytes → Option Metadata
  pub decode_assignment : Bytes → Option Assignment
  pub decode_binding : Bytes → Option Binding
  pub decode_state : Bytes → Option (State F)
  pub encode_state : State F → Option Bytes
  pub encode_app : App → Option Bytes
  -- hex.EncodeToString of the first eight bytes of sha256.Sum256
  pub digest : Bytes → String
