-- ===== src/Sync/Diff/Tests.antt =====
-- The diff's theorems at concrete inputs.
use mathlib.Core.List.Perm
use landropic.Prelude.{◌≡◌, List, [], ◌∷◌, some, none, Str, codes, length}
use landropic.Index.Manifest.{ManifestEntry, Manifest}
use landropic.Prelude.{refl, ◌&&◌, not, str_eq, contains}
use landropic.Prelude.Dict.{lookup, insert}
use landropic.Sync.Diff.{DiffResult, FileChange, ChangeType, added, deleted, new_computer}
use landropic.Sync.Diff.Compute.{
  Env, compute_diff, IncrementalDiff, new_incremental, acknowledge_changes, acknowledge_pending,
  unacknowledged, get_pending,
}
use landropic.Sync.Diff.Exact.{IsWalk}
use landropic.Sync.Diff.Report.{Reports, compute_diff-Reports}
use landropic.Sync.Diff.Pending.{changes_of, acknowledge_changes-get_pending}
use landropic.Sync.Diff.Needed.{needs}
use landropic.Sync.Diff.Totals.{AddsUp, compute_diff-AddsUp}

-- A hash of one number, in place of the crate's, texts that stand for themselves, and maps walked
-- in the order of their entries.
abbrev toy_env : Env
toy_env = record {
  blake3 = λ bytes. length bytes ∷ [];
  hex_decode = λ text. some text;
  visit = λ d. d;
  visit_groups = λ d. d;
  log2_ceil = λ n. n;
}

toy_env-IsWalk : IsWalk toy_env.visit
toy_env-IsWalk d = Perm.refl d

abbrev entry : Str → Str → List Str → ManifestEntry
entry path content chunks = record {
  path = path;
  size = 5;
  modified_at = 0;
  content_hash = content;
  chunk_hashes = chunks;
  mode = none;
}

abbrev manifest_of : List ManifestEntry → Manifest
manifest_of files = record {
  folder_id = codes "f";
  version = 1;
  files = files;
  created_at = 0;
  manifest_hash = none;
}

abbrev before : Manifest
before = manifest_of (
    entry (codes "a") (codes "1") (codes "x" ∷ [])
    ∷ entry (codes "b") (codes "2") (codes "y" ∷ [])
    ∷ [])

abbrev behind : Manifest
behind = manifest_of (
    entry (codes "a") (codes "3") (codes "x" ∷ codes "z" ∷ [])
    ∷ entry (codes "c") (codes "4") (codes "y" ∷ [])
    ∷ [])

compute_diff-Reports_example :
    (r : DiffResult) × (compute_diff toy_env (new_computer []) before behind ≡ some r)
    × Reports (new_computer []) before behind r
compute_diff-Reports_example =
    compute_diff-Reports toy_env toy_env-IsWalk (new_computer []) before behind

compute_diff-AddsUp_example :
    (r : DiffResult) × (compute_diff toy_env (new_computer []) before behind ≡ some r)
    × AddsUp (new_computer []) r
compute_diff-AddsUp_example = compute_diff-AddsUp toy_env (new_computer []) before behind

abbrev change : Str → ChangeType → List Str → FileChange
change path change_type chunks = record {
  path = path;
  change_type = change_type;
  source_entry = none;
  target_entry = none;
  required_chunks = chunks;
  transfer_size = 0;
}

-- A file that needs two chunks, and a deleted one.
abbrev tracker : IncrementalDiff
tracker = record (new_incremental []) {
  pending_changes =
      (
        codes "p",
        change (codes "a") added (codes "x" ∷ codes "z" ∷ []) ∷ change (codes "b") deleted [] ∷ [],
      )
      ∷ [];
}

acknowledge_changes-get_pending_example :
    needs
      (changes_of
        (get_pending (acknowledge_changes tracker (codes "p") (codes "x" ∷ [])) (codes "p")))
      (codes "z")
    ≡ needs (changes_of (get_pending tracker (codes "p"))) (codes "z")
      && not (str_eq (codes "p") (codes "p") && contains (codes "x" ∷ []) (codes "z"))
acknowledge_changes-get_pending_example =
    acknowledge_changes-get_pending tracker (codes "p") (codes "p") (codes "x" ∷ []) (codes "z")

-- The deletion is gone with the acknowledgement of a chunk of another file.
deletion_forgotten :
    get_pending (acknowledge_changes tracker (codes "p") (codes "x" ∷ [])) (codes "p")
    ≡ some (change (codes "a") added (codes "z" ∷ []) ∷ [])
unfolding get_pending acknowledge_changes acknowledge_pending unacknowledged contains str_eq lookup
    insert
deletion_forgotten = refl
