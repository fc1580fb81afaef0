-- ===== src/Sync/Session/Handlers.antt =====
-- landro-sync/src/protocol.rs: the handlers of a session. Each gives its result and the session
-- after it; what was written before an error stays written. `now` is the time of the call.
use landropic.Prelude.{
  ℕ, List, [], ◌∷◌, Option, none, some, Bool, true, false, not, Str, codes, str_eq, if◌then◌else◌,
  length, take, replicate, ◌==◌,
}
use landropic.Index.Manifest.{ManifestEntry, Manifest, add_file, total_size, file_count, is_empty}
use landropic.Index.Manifest
use landropic.Index.Merkle.{finalize}
use landropic.Sync.Diff.{DiffResult}
use landropic.Sync.Diff.Compute.{IncrementalDiff, compute_incremental}
use landropic.Sync.Session.{
  SessionState, negotiating, computing_diff, transferring, failed, Hello, FolderSummary, FileEntry,
  ProtoManifest, Want, unexpected_message, incompatible_version, manifest_not_loaded, out_of_fuel,
  Result, ok, err, ContentStore, SyncEnv, Session,
}

abbrev pub protocol_version : Str
protocol_version = codes "1.0.0"

abbrev pub max_want_chunks : ℕ
max_want_chunks = 100

abbrev pub max_concurrent_transfers : ℕ
max_concurrent_transfers = 10

-- version.split('.').next(), which is never absent.
unfoldable pub major_of : Str → Str
major_of [] = []
major_of (b ∷ bs) = let rest = major_of bs in if b == b'.' then [] else b ∷ rest

unfoldable pub is_version_compatible : Str → Bool
unfolding major_of
is_version_compatible version = str_eq (major_of protocol_version) (major_of version)

abbrev pub is_initializing : SessionState → Bool
is_initializing SessionState.initializing = true
is_initializing _ = false

abbrev pub is_negotiating : SessionState → Bool
is_negotiating SessionState.negotiating = true
is_negotiating _ = false

abbrev pub is_computing_diff : SessionState → Bool
is_computing_diff SessionState.computing_diff = true
is_computing_diff _ = false

abbrev pub is_transferring : SessionState → Bool
is_transferring (SessionState.transferring total done) = true
is_transferring _ = false

abbrev pub is_verifying : SessionState → Bool
is_verifying SessionState.verifying = true
is_verifying _ = false

abbrev pub our_hello : ℕ → Hello
our_hello now = record {
  version = protocol_version;
  device_id = replicate 32 0;
  device_name = codes "landropic";
  capabilities = codes "sync.v1" ∷ codes "incremental.v1" ∷ codes "compression.zstd" ∷ [];
  timestamp = now;
}

module _ {C : Type 0} (env : SyncEnv) (store : ContentStore C) (now : ℕ) where
  unfoldable pub handle_hello : Hello → Session C → Result Hello × Session C
  unfolding is_version_compatible
  handle_hello hello s =
      if not (is_initializing s.state)
      then (err unexpected_message, s)
      else if not (is_version_compatible hello.version)
      then (
        err incompatible_version,
        record s { state = failed (codes "Incompatible protocol version") },
      )
      else (ok (our_hello now), record s { state = negotiating })

  -- The index is not consulted yet: the manifest is new.
  unfoldable pub load_our_manifest : Str → Manifest
  load_our_manifest folder_id = Manifest.new now folder_id 1

  -- h.map(hex::decode(..).unwrap_or_default()).unwrap_or_default()
  abbrev pub decoded_hash : Option Str → List ℕ
  decoded_hash none = []
  decoded_hash (some h) = elim (env.diff_env.hex_decode h) [ none ↦ [] | some bytes ↦ bytes ]

  unfoldable pub handle_folder_summary :
      FolderSummary → Session C → Result FolderSummary × Session C
  unfolding load_our_manifest
  handle_folder_summary summary s =
      let our = load_our_manifest summary.folder_id in
      if not (is_negotiating s.state) then (err unexpected_message, s) else (
        ok (record {
          folder_id = summary.folder_id;
          folder_path = codes "/sync";
          manifest_hash = decoded_hash our.manifest_hash;
          total_size = total_size our;
          file_count = file_count our;
          last_modified = now;
        }),
        record s { our_manifest = some our; state = computing_diff },
      )

  abbrev pub modified_time : Option (ℕ × ℕ) → ℕ
  modified_time none = now
  modified_time (some (seconds, nanos)) = elim (env.from_timestamp seconds nanos) [
    | none ↦ now
    | some t ↦ t
  ]

  abbrev pub encoded : List (List ℕ) → List Str
  encoded [] = []
  encoded (h ∷ hs) = env.hex_encode h ∷ encoded hs

  unfoldable pub add_entries : Manifest → List FileEntry → Manifest
  add_entries m [] = m
  add_entries m (f ∷ fs) =
      add_entries
        (add_file m (record {
          path = f.path;
          size = f.size;
          modified_at = modified_time f.modified;
          content_hash = env.hex_encode f.content_hash;
          chunk_hashes = encoded f.chunk_hashes;
          mode = some f.mode;
        }))
        fs

  -- `finalize` hashes with the text of the root's bytes.
  unfoldable pub proto_to_manifest : ProtoManifest → Option Manifest
  unfolding add_entries
  proto_to_manifest proto =
      finalize env.diff_env.blake3 env.diff_env.hex_decode env.hex_encode
        (add_entries (Manifest.new now proto.folder_id 1) proto.files)

  abbrev pub decoded_hashes : List Str → List (List ℕ)
  decoded_hashes [] = []
  decoded_hashes (h ∷ hs) = decoded_hash (some h) ∷ decoded_hashes hs

  -- From a computed diff on: the stores, the wish list, and the change of state.
  unfoldable pub accept_diff :
      Manifest → DiffResult → IncrementalDiff → Session C → Result Want × Session C
  accept_diff peer diff tracker s = (
    ok (record {
      folder_id = peer.folder_id;
      chunk_hashes = decoded_hashes (take max_want_chunks (env.visit_set diff.required_chunks));
      priority = 1;
    }),
    record s {
      diff_tracker = tracker;
      diff_result = some diff;
      stats = record s.stats {
        files_added = diff.stats.files_added;
        files_modified = diff.stats.files_modified;
        files_deleted = diff.stats.files_deleted;
      };
      wanted_chunks = diff.required_chunks;
      state = transferring (length diff.required_chunks) 0;
    },
  )

  -- From a converted manifest on.
  unfoldable pub diff_against : Manifest → Option Manifest → Session C → Result Want × Session C
  unfolding accept_diff
  diff_against peer none s = (err manifest_not_loaded, s)
  diff_against peer (some our) s =
      elim (compute_incremental env.diff_env s.diff_tracker s.peer_id our peer) [
        | none ↦ (err out_of_fuel, s)
        | some found ↦ accept_diff peer found.0 found.1 s
      ]

  unfoldable pub handle_manifest : ProtoManifest → Session C → Result Want × Session C
  unfolding proto_to_manifest diff_against
  handle_manifest manifest s =
      if not (is_computing_diff s.state)
      then (err unexpected_message, s)
      else elim (proto_to_manifest manifest) [
        | none ↦ (err out_of_fuel, record s { peer_manifest = some manifest })
        | some peer ↦ diff_against peer s.our_manifest (record s { peer_manifest = some manifest })
      ]
