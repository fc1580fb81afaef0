-- ===== src/Proto/Tests.antt =====
-- The theorems on validation at concrete inputs, and runs of it.
use mathlib.Core.List.{mem-cons_self}
use landropic.Prelude.{◌≡◌, refl, [], ◌∷◌, some, none, true, false, codes, length, replicate}
use landropic.Proto.Messages.{Hello, FileEntry, ProtoManifest}
use landropic.Proto.Version.{
  is_compatible, parse_version, version_of, split, prepend, parse_u32, digits,
}
use landropic.Proto.Validation.{
  Unicode, valid, invalid, invalid_path, validate_path, validate_hello, validate_manifest,
  validate_folder_id, validate_all, validate_device_name, validate_capabilities, has_byte, has_dots,
  validate_manifest_size, validate_file_entry, validate_chunk_count,
}
use landropic.Proto.Paths.{IsRelative, IsClean, validate_path-IsRelative, validate_manifest-IsClean}
use landropic.Proto.Sessions.{validate_hello-handle_hello}
use landropic.Sync.Session.{SyncEnv, ContentStore, Session, new, err, failed, incompatible_version}
use landropic.Sync.Session.Handlers.{handle_hello}

-- Bytes as characters.
abbrev ascii : Unicode
ascii = record { chars = λ s. s; is_control = λ c. false; is_alphanumeric = λ c. true }

validate_path-IsRelative_example : IsRelative (codes "docs/a.txt")
validate_path-IsRelative_example =
    validate_path-IsRelative (codes "docs/a.txt") (unfold validate_path has_byte has_dots in refl)

abbrev entry : FileEntry
entry = record {
  path = codes "docs/a.txt";
  size = 3;
  mode = 420;
  modified = none;
  chunk_hashes = replicate 32 1 ∷ [];
  content_hash = replicate 32 2;
}

abbrev listed : ProtoManifest
listed = record { folder_id = codes "f"; files = entry ∷ []; manifest_hash = replicate 32 3 }

validate_manifest-IsClean_example : IsClean entry
validate_manifest-IsClean_example =
    validate_manifest-IsClean ascii listed
      (unfold validate_manifest validate_folder_id validate_manifest_size validate_all
          validate_file_entry validate_chunk_count validate_path has_byte has_dots in
        refl)
      entry mem-cons_self

-- A file name with two dots in it is refused, and no name at all is accepted.
dots_refused : validate_path (codes "a..b") ≡ invalid invalid_path
unfolding validate_path has_byte has_dots
dots_refused = refl

nothing_accepted : validate_path [] ≡ valid
unfolding validate_path has_byte has_dots
nothing_accepted = refl

abbrev greeting : Hello
greeting = record {
  version = codes "0.1.0";
  device_id = replicate 32 0;
  device_name = codes "d";
  capabilities = [];
  timestamp = 1;
}

abbrev toy_env : SyncEnv
toy_env = record {
  diff_env = record {
    blake3 = λ bytes. length bytes ∷ [];
    hex_decode = λ text. some text;
    visit = λ d. d;
    visit_groups = λ d. d;
    log2_ceil = λ n. n;
  };
  hex_encode = λ bytes. bytes;
  from_timestamp = λ seconds nanos. some seconds;
  visit_set = λ set. set;
  upsert_peer_state = λ state rows. some (state ∷ rows);
}

-- A store that is full.
abbrev full_store : ContentStore (Unit {0})
full_store = record { read = λ cas hash. none; write = λ cas bytes. none }

abbrev fresh : Session (Unit {0})
fresh = new (codes "p") (codes "peer") tt

validate_hello-handle_hello_example : handle_hello toy_env full_store 1 greeting fresh ≡ (
  err incompatible_version,
  record fresh { state = failed (codes "Incompatible protocol version") },
)
validate_hello-handle_hello_example =
    validate_hello-handle_hello ascii toy_env full_store 1 greeting fresh
      (unfold validate_hello is_compatible parse_version version_of split prepend parse_u32 digits
          validate_device_name validate_capabilities validate_all in
        refl)
      (unfold new in refl)

-- A path on another drive of Windows is accepted.
drive_accepted : validate_path (codes "C:\\x") ≡ valid
unfolding validate_path has_byte has_dots
drive_accepted = refl
