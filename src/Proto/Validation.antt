-- ===== src/Proto/Validation.antt =====
-- landro-proto/src/validation.rs: the limits, `Validator`, and the validation of each message.
-- What Rust's tables of characters say, and the crate blake3, are parameters.
use landropic.Prelude.{
  ℕ, ◌*◌, List, [], ◌∷◌, Bool, true, false, ◌&&◌, ◌||◌, not, Str, str_eq, if◌then◌else◌, length,
  ltb, leb, ◌==◌,
}
use landropic.Index.Manifest.{is_empty}
use landropic.Proto.Messages.{Hello, FolderSummary, FileEntry, ProtoManifest, Want, ChunkData}
use landropic.Proto.Version.{is_compatible}

abbrev pub max_message_size : ℕ
max_message_size = 10 * 1024 * 1024

abbrev pub max_chunk_size : ℕ
max_chunk_size = 16 * 1024 * 1024

abbrev pub min_chunk_size : ℕ
min_chunk_size = 256

abbrev pub max_path_length : ℕ
max_path_length = 4096

abbrev pub max_device_name_length : ℕ
max_device_name_length = 256

abbrev pub max_manifest_files : ℕ
max_manifest_files = 1000000

abbrev pub max_chunks_per_file : ℕ
max_chunks_per_file = 100000

abbrev pub max_folder_id_length : ℕ
max_folder_id_length = 64

abbrev pub max_pairing_code_length : ℕ
max_pairing_code_length = 512

abbrev pub max_capability_length : ℕ
max_capability_length = 256

abbrev pub max_capabilities : ℕ
max_capabilities = 100

-- The errors, without the numbers and texts that they print.
pub data ValidationError : Type 0 where
  message_too_large invalid_chunk_size path_too_long device_name_too_long manifest_too_large :
      ValidationError
  too_many_chunks invalid_folder_id_length invalid_hash invalid_path invalid_utf8 : ValidationError
  missing_field invalid_version too_many_capabilities : ValidationError

-- Result<(), ValidationError>
pub data Checked : Type 0 where
  valid : Checked
  invalid : ValidationError → Checked

-- The question mark, and what comes behind it.
infixr 20 ◌then◌
abbrev pub ◌then◌ : Checked → Checked → Checked
valid then next = next
invalid e then next = invalid e

-- An early return where the test holds.
abbrev pub refuse : Bool → ValidationError → Checked
refuse true e = invalid e
refuse false e = valid

unfoldable pub validate_message_size : ℕ → Checked
validate_message_size size = refuse (ltb max_message_size size) message_too_large

unfoldable pub validate_chunk_size : ℕ → Checked
validate_chunk_size size =
    refuse (ltb size min_chunk_size || ltb max_chunk_size size) invalid_chunk_size

unfoldable pub has_byte : ℕ → Str → Bool
has_byte c [] = false
has_byte c (b ∷ bs) = (b == c) || has_byte c bs

abbrev pub starts_with : ℕ → Str → Bool
starts_with c [] = false
starts_with c (b ∷ bs) = b == c

-- path.contains("..")
unfoldable pub has_dots : Str → Bool
has_dots [] = false
has_dots (b ∷ bs) = ((b == b'.') && starts_with b'.' bs) || has_dots bs

unfoldable pub validate_path : Str → Checked
unfolding has_byte has_dots
validate_path path =
    refuse (ltb max_path_length (length path)) path_too_long
    then refuse (has_byte 0 path) invalid_path
    then refuse (has_dots path) invalid_path
    then refuse (starts_with b'/' path || starts_with b'\\' path) invalid_path

-- Each of the tests that a list must pass.
unfoldable pub validate_all {ℓ} : {A : Type ℓ} → (A → Checked) → List A → Checked
validate_all check [] = valid
validate_all check (x ∷ xs) = let rest = validate_all check xs in check x then rest

abbrev pub any {ℓ} : {A : Type ℓ} → (A → Bool) → List A → Bool
any test [] = false
any test (x ∷ xs) = test x || any test xs

abbrev pub is_ascii_hexdigit : ℕ → Bool
is_ascii_hexdigit b =
    (leb b'0' b && leb b b'9') || ((leb b'a' b && leb b b'f') || (leb b'A' b && leb b b'F'))

unfoldable pub validate_hash : Str → Checked
validate_hash hash =
    refuse (is_empty hash) invalid_hash
    then refuse (not (length hash == 64)) invalid_hash
    then refuse (any (λ b. not (is_ascii_hexdigit b)) hash) invalid_hash

unfoldable pub validate_manifest_size : ℕ → Checked
validate_manifest_size file_count = refuse (ltb max_manifest_files file_count) manifest_too_large

unfoldable pub validate_chunk_count : ℕ → Checked
validate_chunk_count chunk_count = refuse (ltb max_chunks_per_file chunk_count) too_many_chunks

unfoldable pub validate_capabilities : List Str → Checked
unfolding validate_all
validate_capabilities capabilities =
    refuse (ltb max_capabilities (length capabilities)) too_many_capabilities
    then validate_all (λ cap. refuse (ltb max_capability_length (length cap)) invalid_utf8)
        capabilities

unfoldable pub validate_pairing_code : Str → Checked
validate_pairing_code code =
    refuse (is_empty code) missing_field
    then refuse (ltb max_pairing_code_length (length code)) invalid_utf8

-- str::chars, and two properties of characters.
pub record Unicode : Type 0 where
  pub chars : Str → List ℕ
  pub is_control : ℕ → Bool
  pub is_alphanumeric : ℕ → Bool

unfoldable pub validate_device_name : Unicode → Str → Checked
validate_device_name u name =
    refuse (is_empty name) missing_field
    then refuse (ltb max_device_name_length (length name)) device_name_too_long
    then refuse (any u.is_control (u.chars name)) invalid_utf8

unfoldable pub validate_folder_id : Unicode → Str → Checked
validate_folder_id u id =
    refuse (is_empty id) missing_field
    then refuse (ltb max_folder_id_length (length id)) invalid_folder_id_length
    then refuse (any (λ c. not (u.is_alphanumeric c || ((c == b'-') || (c == b'_')))) (u.chars id))
        invalid_path

-- A hash of bytes is 32 of them.
abbrev pub check_hash_bytes : List ℕ → Checked
check_hash_bytes hash = refuse (not (length hash == 32)) invalid_hash

unfoldable pub validate_hello : Unicode → Hello → Checked
unfolding validate_device_name validate_capabilities
validate_hello u hello =
    refuse (is_empty hello.version) missing_field
    then refuse (not (is_compatible hello.version)) invalid_version
    then validate_device_name u hello.device_name
    then refuse (not (length hello.device_id == 32)) invalid_hash
    then validate_capabilities hello.capabilities

unfoldable pub validate_folder_summary : Unicode → FolderSummary → Checked
unfolding validate_folder_id validate_manifest_size
validate_folder_summary u summary =
    validate_folder_id u summary.folder_id
    then (if not (is_empty summary.manifest_hash)
        then check_hash_bytes summary.manifest_hash
        else valid)
    then validate_manifest_size summary.file_count

unfoldable pub validate_want : Unicode → Want → Checked
unfolding validate_folder_id validate_all
validate_want u want =
    validate_folder_id u want.folder_id
    then validate_all check_hash_bytes want.chunk_hashes
    then refuse (ltb 1000 (length want.chunk_hashes)) too_many_chunks

unfoldable pub validate_chunk_data : (List ℕ → List ℕ) → ChunkData → Checked
unfolding validate_chunk_size
validate_chunk_data blake3 chunk =
    check_hash_bytes chunk.hash
    then validate_chunk_size (length chunk.bytes)
    then refuse (not (str_eq (blake3 chunk.bytes) chunk.hash)) invalid_hash

unfoldable pub validate_file_entry : FileEntry → Checked
unfolding validate_path validate_chunk_count validate_all
validate_file_entry entry =
    validate_path entry.path
    then check_hash_bytes entry.content_hash
    then validate_chunk_count (length entry.chunk_hashes)
    then validate_all check_hash_bytes entry.chunk_hashes

unfoldable pub validate_manifest : Unicode → ProtoManifest → Checked
unfolding validate_folder_id validate_manifest_size validate_file_entry validate_all
validate_manifest u manifest =
    validate_folder_id u manifest.folder_id
    then validate_manifest_size (length manifest.files)
    then validate_all validate_file_entry manifest.files
    then check_hash_bytes manifest.manifest_hash
