-- ===== src/Cas/Packfile.antt =====
-- landro-cas/src/packfile.rs: PackfileWriter and PackfileReader, with a file as the list of its bytes.
-- blake3 is a parameter, and so is `read_back`: what reading gives on the handle that File::create
-- returned, `none` where the handle cannot be read. Arithmetic on u64 wraps around.
pub mod Layout
pub mod Entries
pub mod Open
pub mod Write
pub mod Restore
use landropic.Prelude.{
  ℕ, zero, suc, ◌+◌, ◌-◌, ◌*◌, ◌/◌, ◌%◌, ◌^◌, List, [], ◌∷◌, ◌++◌, Option, none, some, Bool, true,
  false, Str, codes, str_eq, length, take, drop, ltb, leb, ◌==◌, if◌then◌else◌,
}
use landropic.Prelude.Dict.{Dict, lookup, insert}
use landropic.Prelude.Word.{u64_mod, wrapping_sub, wrapping_mul}

-- The errors of CasError that the packfiles and the store give, without their texts.
pub data CasError : Type 0 where
  io : CasError
  inconsistent_state : CasError
  invalid_object_size : (expected actual : ℕ) → CasError
  object_not_found : (hash : Str) → CasError
  hash_mismatch : (expected actual : Str) → CasError
  corrupt_object : CasError
  invalid_operation : CasError
  internal : CasError

pub data Result {ℓ} (A : Type ℓ) : Type ℓ where
  ok : A → Result A
  err : CasError → Result A

infixl 5 ◌>>=◌
abbrev pub ◌>>=◌ {ℓ κ} : {A : Type ℓ} {B : Type κ} → Result A → (A → Result B) → Result B
ok a >>= f = f a
err e >>= f = err e

abbrev pub packfile_magic : List ℕ
packfile_magic = codes "LANDRO_PACK_V1"

-- The little-endian bytes of a number, and the number that they stand for.
unfoldable pub to_le : ℕ → ℕ → List ℕ
to_le zero n = []
to_le (suc w) n = n % 256 ∷ to_le w (n / 256)

unfoldable pub from_le : List ℕ → ℕ
from_le [] = 0
from_le (b ∷ bs) = b + 256 * from_le bs

-- PackfileEntry, whose data is `None` in all that writer and reader keep.
pub record PackfileEntry : Type 0 where
  pub hash : Str
  pub offset : ℕ
  pub size : ℕ

pub record PackfileWriter : Type 0 where
  pub file : List ℕ
  pub entries : List PackfileEntry
  pub data_offset : ℕ

-- PackfileReader, without its path; `total_packed_size` is the field of its statistics.
pub record PackfileReader : Type 0 where
  pub entries : Dict PackfileEntry
  pub total_packed_size : ℕ

unfoldable pub header : ℕ → List ℕ
unfolding to_le
header count = packfile_magic ++ (to_le 4 1 ++ to_le 8 count)

unfoldable pub new : PackfileWriter
unfolding header
new = record { file = header 0; entries = []; data_offset = 26 }

unfoldable pub add_chunk : Str → List ℕ → PackfileWriter → Result PackfileWriter
add_chunk hash bytes w =
    if ltb (2 ^ 32 - 1) (length bytes)
    then err (invalid_object_size (2 ^ 32 - 1) (length bytes))
    else ok (record {
      file = w.file ++ bytes;
      entries =
          w.entries ++ record { hash = hash; offset = w.data_offset; size = length bytes } ∷ [];
      data_offset = w.data_offset + length bytes;
    })

-- The entry table
unfoldable pub table : List PackfileEntry → List ℕ
unfolding to_le
table [] = []
table (e ∷ es) = e.hash ++ (to_le 8 e.offset ++ (to_le 4 e.size ++ table es))

-- seek(SeekFrom::Start(pos)) and write_all(bytes)
unfoldable pub write_at : ℕ → List ℕ → List ℕ → List ℕ
write_at pos bytes file = take pos file ++ (bytes ++ drop (pos + length bytes) file)

-- The bytes that are read, and those that follow.
unfoldable pub read_exact : ℕ → List ℕ → Result (List ℕ × List ℕ)
read_exact n rest = if ltb (length rest) n then err io else ok (take n rest, drop n rest)

-- The loop over the entry table, with the entries left.
unfoldable pub read_entries :
    ℕ → List ℕ → Dict PackfileEntry → ℕ → Result (Dict PackfileEntry × ℕ × List ℕ)
unfolding read_exact from_le
read_entries zero rest entries total_size = ok (entries, total_size, rest)
read_entries (suc count) rest entries total_size = do
  (hash, rest1) ← read_exact 32 rest
  (offset, rest2) ← read_exact 8 rest1
  (size, rest3) ← read_exact 4 rest2
  read_entries count rest3
      (insert hash (record { hash = hash; offset = from_le offset; size = from_le size }) entries)
      ((total_size + from_le size) % 2 ^ 64)

-- return Err(InconsistentState(...)) unless the test holds
unfoldable pub ensure : Bool → Result (Unit {0})
ensure true = ok tt
ensure false = err inconsistent_state

-- Where the entry table starts: file_size - PACKFILE_FOOTER_SIZE - entry_count * PACKFILE_ENTRY_SIZE
unfoldable pub table_offset : ℕ → ℕ → ℕ
table_offset file_size entry_count =
    wrapping_sub (wrapping_sub file_size 32) (wrapping_mul entry_count 44)

-- The entries, their total size and the footer, which is read and not looked at.
unfoldable pub open_table : List ℕ → ℕ → Result PackfileReader
unfolding read_exact read_entries table_offset
open_table file entry_count = do
  (entries, total_size, rest) ←
      read_entries entry_count (drop (table_offset (length file) entry_count) file) [] 0
  (stored_hash, rest') ← read_exact 32 rest
  ok (record { entries = entries; total_packed_size = total_size })

unfoldable pub open_pack : List ℕ → Result PackfileReader
unfolding read_exact from_le ensure open_table
open_pack file = do
  (magic, rest1) ← read_exact 14 file
  magic_fits ← ensure (str_eq magic packfile_magic)
  (version, rest2) ← read_exact 4 rest1
  version_fits ← ensure (from_le version == 1)
  (entry_count, rest3) ← read_exact 8 rest2
  open_table file (from_le entry_count)

-- The file behind the last write of finalize
unfoldable pub finished : List ℕ → PackfileWriter → List ℕ
unfolding table write_at to_le
finished footer w = write_at 18 (to_le 8 (length w.entries)) ((w.file ++ table w.entries) ++ footer)

module _ (blake3 : List ℕ → Str) where
  -- The file as it is on disk, and its reader. `read_back` is what reading the handle gives, which
  -- File::create has opened for writing only.
  unfoldable pub finalize :
      (List ℕ → Option (List ℕ)) → PackfileWriter → Result (List ℕ × PackfileReader)
  unfolding table open_pack finished
  finalize read_back w =
      let written = w.file ++ table w.entries in
      elim (read_back written) [
        | none ↦ err io
        | some seen ↦
            let file = finished (blake3 seen) w in do reader ← open_pack file; ok (file, reader)
      ]

  unfoldable pub read_chunk : List ℕ → Str → PackfileReader → Result (List ℕ)
  unfolding read_exact
  read_chunk file hash reader = elim (lookup hash reader.entries) [
    | none ↦ err (object_not_found hash)
    | some entry ↦ do
      (buffer, rest) ← read_exact entry.size (drop entry.offset file)
      if str_eq (blake3 buffer) hash then ok buffer else err (hash_mismatch hash (blake3 buffer))
  ]
