-- ===== src/Sync/Session/Transfer.antt =====
-- landro-sync/src/protocol.rs: the handlers that move chunks and end a session.
use landropic.Prelude.{
  ℕ, ◌+◌, ◌%◌, ◌^◌, List, [], ◌∷◌, ◌++◌, Option, none, some, Bool, true, false, not, Str, codes,
  str_eq, contains, if◌then◌else◌, length, take, leb, ltb,
}
use landropic.Prelude.Outcome.{Outcome, panicked, ◌>>=◌}
use landropic.Index.Manifest.{Manifest, is_empty}
use landropic.Sync.Session.{
  SessionState, verifying, completed, transferring, failed, Want, ChunkData, Ack, ProtoError,
  unexpected_message, hash_mismatch, invalid_hash, storage_error, database_error, Result, ok, err,
  ContentStore, PeerSyncState, SyncEnv, Session,
}
use landropic.Sync.Session.Handlers.{is_transferring, is_verifying, max_concurrent_transfers}

-- HashSet::insert and remove
unfoldable pub set_insert : Str → List Str → List Str
set_insert h set = if contains set h then set else h ∷ set

unfoldable pub set_remove : Str → List Str → List Str
set_remove h [] = []
set_remove h (k ∷ ks) = let rest = set_remove h ks in if str_eq k h then rest else k ∷ rest

-- What `load_chunk` gives: a text that is no hex, or no object in the store, is an error.
pub data Loaded : Type 0 where
  loaded : List ℕ → Loaded
  missing : Loaded

module _ {C : Type 0} (env : SyncEnv) (store : ContentStore C) (now : ℕ) where
  -- The slice `[..32]` of a shorter hash panics.
  unfoldable pub load_chunk : C → Str → Outcome Loaded
  load_chunk cas hash = elim (env.diff_env.hex_decode hash) [
    | none ↦ Outcome.ok missing
    | some hash_bytes ↦
        if ltb (length hash_bytes) 32
        then panicked
        else elim (store.read cas (take 32 hash_bytes)) [
          | none ↦ Outcome.ok missing
          | some bytes ↦ Outcome.ok (loaded bytes)
        ]
  ]

  abbrev pub chunk_of : List ℕ → List ℕ → ChunkData
  chunk_of hash bytes = record {
    hash = hash;
    bytes = bytes;
    compressed = false;
    uncompressed_size = length bytes % 2 ^ 32;
  }

  abbrev pub sent_one : Str → List ℕ → Session C → Session C
  sent_one hash_str bytes s = record s {
    sent_chunks = set_insert hash_str s.sent_chunks;
    stats = record s.stats {
      chunks_sent = s.stats.chunks_sent + 1;
      bytes_sent = s.stats.bytes_sent + length bytes;
    };
  }

  -- The loop over the hashes that the peer wants.
  unfoldable pub send_chunks :
      List ChunkData → List (List ℕ) → Session C → Outcome (List ChunkData × Session C)
  unfolding load_chunk set_insert
  send_chunks chunks [] s = Outcome.ok (chunks, s)
  send_chunks chunks (hash_bytes ∷ rest) s =
      let hash_str = env.hex_encode hash_bytes in
      elim (contains s.sent_chunks hash_str) [
        | true ↦ send_chunks chunks rest s
        | false ↦ do
          found ← load_chunk s.cas hash_str
          elim found [
            | missing ↦ send_chunks chunks rest s
            | loaded bytes ↦
                send_chunks (chunks ++ chunk_of hash_bytes bytes ∷ []) rest
                  (sent_one hash_str bytes s)
          ]
      ]

  unfoldable pub handle_want : Want → Session C → Outcome (Result (List ChunkData) × Session C)
  unfolding send_chunks
  handle_want want s = elim (is_transferring s.state) [
    | false ↦ Outcome.ok (err unexpected_message, s)
    | true ↦ do
      sent ← send_chunks [] (take max_concurrent_transfers want.chunk_hashes) s
      Outcome.ok (ok sent.0, sent.1)
  ]

  unfoldable pub handle_have : List (List ℕ) → Session C → Result (Unit {0}) × Session C
  handle_have chunk_hashes s = (ok tt, s)

  -- The data is hashed once more, against the decoded text.
  unfoldable pub store_chunk : C → Str → List ℕ → Result C
  store_chunk cas hash bytes = elim (env.diff_env.hex_decode hash) [
    | none ↦ err invalid_hash
    | some hash_bytes ↦
        if not (str_eq (env.diff_env.blake3 bytes) hash_bytes)
        then err hash_mismatch
        else elim (store.write cas bytes) [ none ↦ err storage_error | some cas' ↦ ok cas' ]
  ]

  -- The progress of a transfer by one chunk.
  unfoldable pub count_chunk : SessionState → SessionState
  count_chunk (SessionState.transferring total_chunks transferred_chunks) =
      if leb total_chunks (transferred_chunks + 1)
      then verifying
      else transferring total_chunks (transferred_chunks + 1)
  count_chunk state = state

  abbrev pub received_one : Str → List ℕ → C → Session C → Session C
  received_one hash_str bytes cas s = record s {
    cas = cas;
    received_chunks = set_insert hash_str s.received_chunks;
    wanted_chunks = set_remove hash_str s.wanted_chunks;
    stats = record s.stats {
      chunks_received = s.stats.chunks_received + 1;
      bytes_received = s.stats.bytes_received + length bytes;
    };
    state = count_chunk s.state;
  }

  unfoldable pub handle_chunk_data : ChunkData → Session C → Result Ack × Session C
  unfolding store_chunk count_chunk set_insert set_remove
  handle_chunk_data chunk s =
      let hash_str = env.hex_encode chunk.hash in
      if not (is_transferring s.state)
      then (err unexpected_message, s)
      else if not (str_eq (env.diff_env.blake3 chunk.bytes) chunk.hash)
      then (err hash_mismatch, s)
      else elim (store_chunk s.cas hash_str chunk.bytes) [
        | err e ↦ (err e, s)
        | ok cas ↦ (
          ok (record { request_id = hash_str; success = true; message = codes "Chunk stored" }),
          received_one hash_str chunk.bytes cas s,
        )
      ]

  unfoldable pub verify_transfer : Session C → Bool
  verify_transfer s = is_empty s.wanted_chunks

  abbrev pub hash_of_manifest : Option Manifest → Option Str
  hash_of_manifest none = none
  hash_of_manifest (some m) = m.manifest_hash

  unfoldable pub update_peer_state : Session C → Result (Unit {0}) × Session C
  update_peer_state s =
      let peer_state : PeerSyncState = record {
        peer_id = s.peer_id;
        peer_name = s.peer_name;
        last_sync = now;
        last_manifest_hash = hash_of_manifest s.our_manifest;
        bytes_sent = s.stats.bytes_sent;
        bytes_received = s.stats.bytes_received;
        files_sent = s.stats.chunks_sent;
        files_received = s.stats.chunks_received;
      } in
      elim (env.upsert_peer_state peer_state s.database) [
        | none ↦ (err database_error, s)
        | some database ↦ (ok tt, record s { database = database })
      ]

  -- A negative answer is only logged.
  unfoldable pub handle_ack : Ack → Session C → Result (Unit {0}) × Session C
  unfolding update_peer_state verify_transfer
  handle_ack ack s =
      if not (is_verifying s.state)
      then (ok tt, s)
      else if verify_transfer s
      then update_peer_state (record s { state = completed })
      else (ok tt, record s { state = failed (codes "Verification failed") })

  unfoldable pub handle_error : ProtoError → Session C → Result (Unit {0}) × Session C
  handle_error error s = (ok tt, record s { state = failed error.message })
