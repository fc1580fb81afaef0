-- ===== src/Cas/Store/Checks.antt =====
-- landro-cas/src/storage.rs: the checks of objects, and the prefetch.
use landropic.Prelude.{
  ℕ, ◌+◌, List, [], ◌∷◌, ◌++◌, Option, none, some, Bool, true, false, Str, if◌then◌else◌, not,
}
use landropic.Cas.Packfile.{Result, ok, err, object_not_found, corrupt_object, hash_mismatch}
use landropic.Cas.Store.{LruCache, ContentStore}
use landropic.Cas.Store.Operations.{Environment, read, validate_content_hash}

-- VerificationReport, with the names of files and without the texts of errors.
pub record VerificationReport : Type 0 where
  pub total_objects : ℕ
  pub verified_count : ℕ
  pub corruption_count : ℕ
  pub error_count : ℕ
  pub corrupted_objects : List Str
  pub error_objects : List Str
  pub invalid_filenames : List Str

unfoldable pub empty_report : VerificationReport
empty_report = record {
  total_objects = 0;
  verified_count = 0;
  corruption_count = 0;
  error_count = 0;
  corrupted_objects = [];
  error_objects = [];
  invalid_filenames = [];
}

-- What ContentStore::verify makes of the result of a read
unfoldable pub verdict : Result (List ℕ) → Result Bool
verdict (ok bytes) = ok true
verdict (err (object_not_found hash)) = ok false
verdict (err (hash_mismatch expected actual)) = ok false
verdict (err e) = err e

-- What verify_single_object makes of it
unfoldable pub object_verdict : Result (List ℕ) → Result Bool
unfolding verdict
object_verdict (err corrupt_object) = ok false
object_verdict r = verdict r

-- The counts and lists after an object, without total_objects
unfoldable pub count_verdict : Str → Result Bool → VerificationReport → VerificationReport
count_verdict hash (ok true) report = record report { verified_count = report.verified_count + 1 }
count_verdict hash (ok false) report = record report {
  corrupted_objects = report.corrupted_objects ++ hash ∷ [];
  corruption_count = report.corruption_count + 1;
}
count_verdict hash (err e) report = record report {
  error_objects = report.error_objects ++ hash ∷ [];
  error_count = report.error_count + 1;
}

unfoldable pub count_invalid : Str → VerificationReport → VerificationReport
count_invalid name report = record report {
  invalid_filenames = report.invalid_filenames ++ name ∷ [];
  error_count = report.error_count + 1;
}

unfoldable pub count_object : VerificationReport → VerificationReport
count_object report = record report { total_objects = report.total_objects + 1 }

module _ {C : Type 0} (env : Environment) (lru : LruCache C) where
  unfoldable pub verify : ℕ → Str → ContentStore C → Option (Result Bool × ContentStore C)
  unfolding verdict
  verify now hash s = elim (read env lru now hash s) [
    | none ↦ none
    | some result ↦ some (verdict result.0, result.1)
  ]

  unfoldable pub verify_single_object :
      ℕ → Str → ContentStore C → Option (Result Bool × ContentStore C)
  unfolding object_verdict
  verify_single_object now hash s = elim (read env lru now hash s) [
    | none ↦ none
    | some result ↦ some (object_verdict result.0, result.1)
  ]

  -- A file of the walk, by the names of its directories and its own together. ContentHash::from_hex takes
  -- 64 hexadecimal digits; the names
  -- are in lower case, as the store writes them.
  unfoldable pub verify_file :
      ℕ → Str → VerificationReport → ContentStore C → Option (VerificationReport × ContentStore C)
  unfolding verify_single_object count_verdict count_invalid count_object
  verify_file now name report s =
      if validate_content_hash name
      then elim (verify_single_object now name s) [
        | none ↦ none
        | some result ↦ some (count_object (count_verdict name result.0 report), result.1)
      ]
      else some (count_object (count_invalid name report), s)

  -- The files in the order in which the walk meets them, each read at its own instant.
  unfoldable pub verify_files :
      List (ℕ × Str)
      → VerificationReport
      → ContentStore C
      → Option (VerificationReport × ContentStore C)
  unfolding verify_file
  verify_files [] report s = some (report, s)
  verify_files ((now, name) ∷ names) report s = elim (verify_file now name report s) [
    | none ↦ none
    | some state ↦ verify_files names state.0 state.1
  ]

  unfoldable pub verify_integrity :
      List (ℕ × Str) → ContentStore C → Option (VerificationReport × ContentStore C)
  unfolding verify_files empty_report
  verify_integrity names s = verify_files names empty_report s

  unfoldable pub prefetch_all : List (ℕ × Str) → ContentStore C → Option (ContentStore C)
  unfolding read
  prefetch_all [] s = some s
  prefetch_all ((now, hash) ∷ hashes) s = elim (lru.peek hash s.cache.chunks) [
    | some chunk ↦ prefetch_all hashes s
    | none ↦ elim (read env lru now hash s) [
      | none ↦ none
      | some result ↦ prefetch_all hashes result.1
    ]
  ]

  unfoldable pub prefetch : List (ℕ × Str) → ContentStore C → Option (ContentStore C)
  unfolding prefetch_all
  prefetch hashes s =
      let fetched = prefetch_all hashes s in
      if not s.config.cache_config.prefetch_enabled then some s else fetched
