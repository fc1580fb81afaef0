-- ===== src/Proto/Messages.antt =====
-- landro-proto: the messages of landro.proto, without what no code reads.
use landropic.Prelude.{ℕ, List, Option, Bool, Str}

pub record Hello : Type 0 where
  pub version : Str
  pub device_id : List ℕ
  pub device_name : Str
  pub capabilities : List Str
  pub timestamp : ℕ

pub record FolderSummary : Type 0 where
  pub folder_id : Str
  pub folder_path : Str
  pub manifest_hash : List ℕ
  pub total_size : ℕ
  pub file_count : ℕ
  pub last_modified : ℕ

pub record FileEntry : Type 0 where
  pub path : Str
  pub size : ℕ
  pub mode : ℕ
  pub modified : Option (ℕ × ℕ)
  pub chunk_hashes : List (List ℕ)
  pub content_hash : List ℕ

pub record ProtoManifest : Type 0 where
  pub folder_id : Str
  pub files : List FileEntry
  pub manifest_hash : List ℕ

pub record Want : Type 0 where
  pub folder_id : Str
  pub chunk_hashes : List (List ℕ)
  pub priority : ℕ

pub record ChunkData : Type 0 where
  pub hash : List ℕ
  pub bytes : List ℕ
  pub compressed : Bool
  pub uncompressed_size : ℕ

pub record Ack : Type 0 where
  pub request_id : Str
  pub success : Bool
  pub message : Str

pub record ProtoError : Type 0 where
  pub message : Str
  pub details : Str
