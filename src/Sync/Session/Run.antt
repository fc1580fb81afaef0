-- ===== src/Sync/Session/Run.antt =====
-- A session as a machine over messages: what the peer sends is the history, handled in order.
use landropic.Prelude.{ℕ, List, [], ◌∷◌}
use landropic.Prelude.Outcome.{Outcome, ok, ◌>>=◌}
use landropic.Sync.Session.{
  Hello, FolderSummary, ProtoManifest, Want, ChunkData, Ack, ProtoError, ContentStore, SyncEnv,
  Session,
}
use landropic.Sync.Session.Handlers.{handle_hello, handle_folder_summary, handle_manifest}
use landropic.Sync.Session.Transfer.{
  handle_want, handle_have, handle_chunk_data, handle_ack, handle_error,
}

pub data Message : Type 0 where
  hello : Hello → Message
  folder_summary : FolderSummary → Message
  manifest : ProtoManifest → Message
  want : Want → Message
  have : List (List ℕ) → Message
  chunk_data : ChunkData → Message
  ack : Ack → Message
  error : ProtoError → Message

module _ {C : Type 0} (env : SyncEnv) (store : ContentStore C) where
  -- The session after one message, at the time `now`; an error leaves the session as its handler
  -- left it.
  unfoldable pub after : ℕ → Message → Session C → Outcome (Session C)
  after now (hello m) s = ok (handle_hello env store now m s).1
  after now (folder_summary m) s = ok (handle_folder_summary env store now m s).1
  after now (manifest m) s = ok (handle_manifest env store now m s).1
  after now (want m) s = handle_want env store now m s >>= λ r. ok r.1
  after now (have hashes) s = ok (handle_have env store now hashes s).1
  after now (chunk_data m) s = ok (handle_chunk_data env store now m s).1
  after now (ack m) s = ok (handle_ack env store now m s).1
  after now (error m) s = ok (handle_error env store now m s).1

  unfoldable pub run : List (ℕ × Message) → Session C → Outcome (Session C)
  run [] s = ok s
  run ((now, m) ∷ ms) s = after now m s >>= run ms
