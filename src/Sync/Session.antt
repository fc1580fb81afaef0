-- ===== src/Sync/Session.antt =====
-- landro-sync/src/protocol.rs: the state of a sync session and its messages. A handler is one step
-- here: no two of them interleave. The store is an interface that landro-cas
-- implements; the database is what `upsert_peer_state` makes of it.
pub mod Handlers
pub mod Transfer
pub mod Run
pub mod Wants
mod Tests
use landropic.Prelude.{ℕ, List, [], Option, none, Bool, Str}
pub use landropic.Proto.Messages.{
  Hello, FolderSummary, FileEntry, ProtoManifest, Want, ChunkData, Ack, ProtoError,
}
use landropic.Index.Manifest.{Manifest, Visit}
use landropic.Sync.Diff.{DiffResult}
use landropic.Sync.Diff.Compute.{IncrementalDiff, Env, new_incremental}

pub data SessionState : Type 0 where
  initializing negotiating computing_diff verifying completed : SessionState
  transferring : ℕ → ℕ → SessionState
  failed : Str → SessionState

pub record TransferStats : Type 0 where
  pub bytes_sent : ℕ
  pub bytes_received : ℕ
  pub chunks_sent : ℕ
  pub chunks_received : ℕ
  pub files_added : ℕ
  pub files_modified : ℕ
  pub files_deleted : ℕ

abbrev pub no_transfers : TransferStats
no_transfers = record {
  bytes_sent = 0;
  bytes_received = 0;
  chunks_sent = 0;
  chunks_received = 0;
  files_added = 0;
  files_modified = 0;
  files_deleted = 0;
}

-- landro-sync/src/errors.rs, the errors that the handlers give.
pub data SyncError : Type 0 where
  unexpected_message incompatible_version manifest_not_loaded : SyncError
  hash_mismatch invalid_hash storage_error database_error out_of_fuel : SyncError

pub data Result {ℓ} (A : Type ℓ) : Type ℓ where
  ok : A → Result A
  err : SyncError → Result A

-- What a session uses of a content store `C`: `none` is an error.
pub record ContentStore (C : Type 0) : Type 0 where
  pub read : C → List ℕ → Option (List ℕ)
  pub write : C → List ℕ → Option C

-- PeerSyncState, as `update_peer_state` fills it in.
pub record PeerSyncState : Type 0 where
  pub peer_id : Str
  pub peer_name : Str
  pub last_sync : ℕ
  pub last_manifest_hash : Option Str
  pub bytes_sent : ℕ
  pub bytes_received : ℕ
  pub files_sent : ℕ
  pub files_received : ℕ

-- What the handlers take from elsewhere: the diff's environment, the crates hex and chrono, the
-- order in which a set of chunks is walked, and the database.
pub record SyncEnv : Type 0 where
  pub diff_env : Env
  pub hex_encode : List ℕ → Str
  pub from_timestamp : ℕ → ℕ → Option ℕ
  pub visit_set : List Str → List Str
  pub upsert_peer_state : PeerSyncState → List PeerSyncState → Option (List PeerSyncState)

pub record Session (C : Type 0) : Type 0 where
  pub peer_id : Str
  pub peer_name : Str
  pub state : SessionState
  pub our_manifest : Option Manifest
  pub peer_manifest : Option ProtoManifest
  pub diff_result : Option DiffResult
  pub wanted_chunks : List Str
  pub sent_chunks : List Str
  pub received_chunks : List Str
  pub cas : C
  pub diff_tracker : IncrementalDiff
  pub stats : TransferStats
  pub database : List PeerSyncState

-- SyncSession::new, whose chunk cache is empty.
unfoldable pub new : {C : Type 0} → Str → Str → C → Session C
new peer_id peer_name cas = record {
  peer_id = peer_id;
  peer_name = peer_name;
  state = SessionState.initializing;
  our_manifest = none;
  peer_manifest = none;
  diff_result = none;
  wanted_chunks = [];
  sent_chunks = [];
  received_chunks = [];
  cas = cas;
  diff_tracker = new_incremental [];
  stats = no_transfers;
  database = [];
}
