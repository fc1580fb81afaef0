-- ===== src/Sync/Session/Tests.antt =====
-- The session's theorems at concrete inputs, and runs of its handlers.
use mathlib.Core.List.Perm
use landropic.Prelude.{
  ◌≡◌, ◌≢◌, refl, ℕ, List, [], ◌∷◌, Option, some, none, Bool, true, false, Str, str_eq, str_eq_iff,
  str_eq_refl, codes, contains, length, replicate, arith, if◌then◌else◌,
}
use landropic.Prelude.Outcome.{Outcome, panicked}
use landropic.Prelude.Dict.{Dict, lookup, insert, lookup-insert}
use landropic.Index.Manifest
use landropic.Index.Manifest.{Manifest}
use landropic.Sync.Diff.Compute.{Env}
use landropic.Sync.Session.{
  SessionState, ContentStore, SyncEnv, Session, new, Hello, FolderSummary, ProtoManifest, FileEntry,
  Want, ChunkData, Ack, computing_diff, transferring, completed,
}
use landropic.Sync.Session.Handlers.{handle_manifest, our_hello, protocol_version}
use landropic.Sync.Session.Transfer.{handle_want, send_chunks, load_chunk}
use landropic.Sync.Session.Run.{
  Message, hello, folder_summary, manifest, want, chunk_data, ack, run,
}
use landropic.Sync.Session.Wants.{Asks, handle_manifest-AsksForOwn}

abbrev toy_hash : List ℕ → List ℕ
toy_hash bytes = length bytes ∷ []

abbrev toy_env : SyncEnv
toy_env = record {
  diff_env = record {
    blake3 = toy_hash;
    hex_decode = λ text. some text;
    visit = λ d. d;
    visit_groups = λ d. d;
    log2_ceil = λ n. n;
  };
  hex_encode = λ bytes. bytes;
  from_timestamp = λ seconds nanos. some seconds;
  visit_set = λ set. set;
  upsert_peer_state = λ state rows. some (state ∷ rows);
}

-- Objects under their hashes.
abbrev toy_store : ContentStore (Dict (List ℕ))
toy_store = record {
  read = λ cas hash. lookup hash cas;
  write = λ cas bytes. some (insert (toy_hash bytes) bytes cas);
}

abbrev summary : FolderSummary
summary = record {
  folder_id = codes "f";
  folder_path = codes "/sync";
  manifest_hash = [];
  total_size = 0;
  file_count = 0;
  last_modified = 0;
}

abbrev theirs : ProtoManifest
theirs = record {
  folder_id = codes "f";
  files =
      record {
        path = codes "a";
        size = 3;
        mode = 420;
        modified = none;
        chunk_hashes = (3 ∷ []) ∷ [];
        content_hash = 3 ∷ [];
      }
      ∷ [];
  manifest_hash = [];
}

abbrev piece : ChunkData
piece = record { hash = 3 ∷ []; bytes = 7 ∷ 8 ∷ 9 ∷ []; compressed = false; uncompressed_size = 3 }

abbrev thanks : Ack
thanks = record { request_id = []; success = true; message = [] }

abbrev history : List (ℕ × Message)
history =
    (1, hello (our_hello 1))
    ∷ (2, folder_summary summary)
    ∷ (3, manifest theirs)
    ∷ (4, chunk_data piece)
    ∷ (5, ack thanks)
    ∷ []

abbrev our_manifest : Manifest
our_manifest = record {
  folder_id = codes "f";
  version = 1;
  files =
      record {
        path = codes "b";
        size = 2;
        modified_at = 0;
        content_hash = 2 ∷ [];
        chunk_hashes = (2 ∷ []) ∷ [];
        mode = none;
      }
      ∷ [];
  created_at = 0;
  manifest_hash = none;
}

-- A session that has loaded a manifest with a file.
abbrev loaded_session : Session (Dict (List ℕ))
loaded_session = record (new (codes "p") (codes "peer") []) {
  state = computing_diff;
  our_manifest = some our_manifest;
}

handle_manifest-AsksForOwn_example :
    Asks toy_env toy_store 3 loaded_session our_manifest
      (handle_manifest toy_env toy_store 3 theirs loaded_session)
unfolding new
handle_manifest-AsksForOwn_example =
    handle_manifest-AsksForOwn toy_env toy_store 3 (λ d. Perm.refl d) theirs our_manifest
      loaded_session refl refl

-- A wish for a hash of one byte stops the handler.
short_wish :
    handle_want toy_env toy_store 3
      (record { folder_id = []; chunk_hashes = (1 ∷ []) ∷ []; priority = 1 })
      (record loaded_session { state = transferring 1 0 })
    ≡ panicked
unfolding new handle_want send_chunks load_chunk contains
short_wish = refl

abbrev state_after : Outcome (Session (Dict (List ℕ))) → Option SessionState
state_after (Outcome.ok s) = some s.state
state_after _ = none

history_completes :
    state_after (run toy_env toy_store history (new (codes "p") (codes "peer") [])) ≡ some completed
unfolding new run landropic.Sync.Session.Run.after landropic.Sync.Session.Transfer.handle_ack
    landropic.Sync.Session.Transfer.handle_chunk_data handle_manifest
    landropic.Sync.Session.Handlers.handle_folder_summary
    landropic.Sync.Session.Handlers.handle_hello str_eq landropic.Index.Merkle.finalize
    landropic.Index.Merkle.calculate_hash Manifest.add_file Manifest.new
    landropic.Sync.Diff.Compute.compute_incremental landropic.Sync.Diff.Compute.compute_diff
    landropic.Sync.Diff.Compute.compute_merkle_proof landropic.Sync.Diff.Compute.compute_changes
    Manifest.file_map landropic.Prelude.Dict.collect landropic.Index.Merkle.hash_file_entry
    landropic.Index.Merkle.merkle_levels landropic.Index.Merkle.root_of insert lookup
    landropic.Prelude.Sort.insert_sorted landropic.Prelude.Sort.sort_by contains
    landropic.Sync.Diff.Compute.assemble landropic.Sync.Diff.Compute.track
    landropic.Sync.Diff.has_changes landropic.Sync.Diff.source_loop landropic.Sync.Diff.source_step
    landropic.Sync.Diff.target_loop landropic.Sync.Diff.prioritize_changes
    landropic.Sync.Session.Handlers.accept_diff landropic.Sync.Session.Handlers.add_entries
    landropic.Sync.Session.Handlers.diff_against
    landropic.Sync.Session.Handlers.is_version_compatible
    landropic.Sync.Session.Handlers.load_our_manifest landropic.Sync.Session.Handlers.major_of
    landropic.Sync.Session.Handlers.proto_to_manifest landropic.Sync.Session.Transfer.count_chunk
    landropic.Sync.Session.Transfer.set_insert landropic.Sync.Session.Transfer.set_remove
    landropic.Sync.Session.Transfer.store_chunk landropic.Sync.Session.Transfer.update_peer_state
    landropic.Sync.Session.Transfer.verify_transfer
history_completes = refl
