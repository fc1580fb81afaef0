-- ===== src/Cas/Store/Partial.antt =====
-- landro-cas/src/storage.rs: PartialTransfer and the resumable writes. Instants are in seconds;
-- `temp_name` is the name that Uuid::new_v4 gives the file. A reader is the bytes that it yields, so
-- that the buffers of 64 KiB leave no trace.
pub mod Whole
use landropic.Prelude.{
  ℕ, ◌+◌, ◌*◌, ◌%◌, List, [], ◌∷◌, ◌++◌, Option, none, some, Bool, true, false, Str, str_eq, length,
  ltb, ◌==◌, if◌then◌else◌, not,
}
use landropic.Prelude.Dict.{Dict, lookup, insert, remove}
use landropic.Prelude.Word.{wrapping_add, u64_mod}
use landropic.Cas.Packfile.{Result, ok, err, CasError, io, hash_mismatch, invalid_operation}
use landropic.Cas.Store.{Files, ContentStore, ObjectRef}
use landropic.Cas.Store.Disk.{file_exists}
use landropic.Cas.Store.Operations.{reference, add_to_dedup, count_write}

-- PartialTransfer, whose hash_state is a placeholder that is only looked at for being there.
pub record PartialTransfer : Type 0 where
  pub temp_name : Str
  pub expected_hash : Option Str
  pub total_size : Option ℕ
  pub bytes_received : ℕ
  pub hash_state : Bool
  pub expires_at : ℕ

unfoldable pub new : ℕ → Str → Option Str → Option ℕ → PartialTransfer
new now temp_name expected_hash total_size = record {
  temp_name = temp_name;
  expected_hash = expected_hash;
  total_size = total_size;
  bytes_received = 0;
  hash_state = false;
  expires_at = now + 24 * 3600;
}

unfoldable pub is_expired : ℕ → PartialTransfer → Bool
is_expired now p = ltb p.expires_at now

unfoldable pub put_partial : Str → List ℕ → Files → Files
put_partial name bytes f = record f { partials = insert name bytes f.partials }

unfoldable pub remove_partial : Str → Files → Files
remove_partial name f = record f { partials = remove name f.partials }

-- File::create truncates; a file that is opened to append has to be there.
unfoldable pub open_partial : PartialTransfer → Files → Result (List ℕ)
open_partial p f =
    if p.bytes_received == 0
    then ok []
    else elim (lookup p.temp_name f.partials) [ none ↦ err io | some bytes ↦ ok bytes ]

-- The expected size, where there is one
unfoldable pub has_size : PartialTransfer → ℕ → Bool
has_size p size = elim p.total_size [ none ↦ true | some expected ↦ size == expected ]

module _ {C : Type 0} where
  unfoldable pub start_resumable_write :
      ℕ → Str → Option Str → Option ℕ → ContentStore C → PartialTransfer × ContentStore C
  unfolding new
  start_resumable_write now temp_name expected_hash total_size s =
      (new now temp_name expected_hash total_size, s)

  unfoldable pub continue_resumable_write :
      ℕ
      → List ℕ
      → PartialTransfer
      → ContentStore C
      → Option CasError × (PartialTransfer × ContentStore C)
  unfolding is_expired open_partial put_partial
  continue_resumable_write now bytes p s =
      if is_expired now p then (some invalid_operation, (p, s)) else elim (open_partial p s.files) [
        | err e ↦ (some e, (p, s))
        | ok written ↦ (
          none,
          (
            record p {
              bytes_received = wrapping_add p.bytes_received (length bytes);
              hash_state = true;
            },
            record s { files = put_partial p.temp_name (written ++ bytes) s.files },
          ),
        )
      ]

  -- let _ = fs::remove_file(&partial.temp_path)
  unfoldable pub abandon : PartialTransfer → ContentStore C → ContentStore C
  unfolding remove_partial
  abandon p s = record s { files = remove_partial p.temp_name s.files }

  -- fs::rename of the partial file to its object
  unfoldable pub rename_partial : Str → Str → List ℕ → ContentStore C → ContentStore C
  unfolding remove_partial
  rename_partial name hash bytes s =
      let f = remove_partial name s.files in
      record s { files = record f { objects = insert hash bytes f.objects } }

  -- The partial file with the hash that was computed from it
  unfoldable pub store_partial :
      PartialTransfer → Str → List ℕ → ContentStore C → Result ObjectRef × ContentStore C
  unfolding file_exists abandon rename_partial add_to_dedup count_write reference
  store_partial p hash bytes s =
      if file_exists hash s.files.objects
      then (ok (reference hash bytes), add_to_dedup hash (reference hash bytes) (abandon p s))
      else (
        ok (reference hash bytes),
        count_write (length bytes)
            (add_to_dedup hash (reference hash bytes) (rename_partial p.temp_name hash bytes s)),
      )

  unfoldable pub cancel_resumable_write : PartialTransfer → ContentStore C → ContentStore C
  unfolding file_exists abandon
  cancel_resumable_write p s =
      let cancelled = abandon p s in
      if file_exists p.temp_name s.files.partials then cancelled else s

module _ {C : Type 0} (blake3 : List ℕ → Str) where
  -- The checks of the hash and of the size, in turn
  unfoldable pub check_and_store :
      PartialTransfer → List ℕ → ContentStore C → Result ObjectRef × ContentStore C
  unfolding abandon has_size store_partial
  check_and_store p bytes s =
      let sized =
        if has_size p (length bytes % u64_mod)
        then store_partial p (blake3 bytes) bytes s
        else (err invalid_operation, abandon p s) in
      elim p.expected_hash [
        | none ↦ sized
        | some expected ↦
            if str_eq (blake3 bytes) expected
            then sized
            else (err (hash_mismatch expected (blake3 bytes)), abandon p s)
      ]

  unfoldable pub complete_resumable_write :
      ℕ → PartialTransfer → ContentStore C → Result ObjectRef × ContentStore C
  unfolding is_expired abandon check_and_store
  complete_resumable_write now p s =
      if is_expired now p
      then (err invalid_operation, abandon p s)
      else elim (lookup p.temp_name s.files.partials) [
        | none ↦ (err invalid_operation, s)
        | some bytes ↦ check_and_store p bytes s
      ]

-- The names of the `.partial` files with the instants at which they were made, in the order of the
-- walk; how many were removed, and the files.
unfoldable pub cleanup_expired_partials : ℕ → List (Str × ℕ) → Files → ℕ × Files
unfolding remove_partial
cleanup_expired_partials now [] f = (0, f)
cleanup_expired_partials now ((name, created) ∷ entries) f =
    let is_old = ltb (created + 24 * 3600) now in
    let (count, left) =
      cleanup_expired_partials now entries (if is_old then remove_partial name f else f) in
    (if is_old then count + 1 else count, left)
