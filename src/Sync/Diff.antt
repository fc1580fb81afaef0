-- ===== src/Sync/Diff.antt =====
-- landro-sync/src/diff.rs: the diff of two manifests. `Env` holds what the code takes from elsewhere:
-- the crates blake3 and hex, the orders in which HashMaps happen to be walked, and the rounded
-- logarithm of f64. Sizes stay below 2 ^ 64. `none` is a Merkle loop out of fuel.
pub mod Compute
pub mod Change
pub mod Exact
pub mod Report
pub mod Needed
pub mod Totals
pub mod Pending
mod Tests
use landropic.Prelude.{
  ℕ, zero, suc, ◌+◌, ◌*◌, min, List, [], ◌∷◌, ◌++◌, map, Option, none, some, Bool, true, false,
  ◌||◌, ◌&&◌, not, Str, str_eq, contains, if◌then◌else◌, length, ltb, leb, ◌==◌, codes,
}
use landropic.Prelude.Dict.{Dict, lookup, insert}
use landropic.Prelude.Sort.{sort_by}
use landropic.Index.Manifest.{ManifestEntry, Manifest, file_map, is_empty, is_none}
use landropic.Index.Merkle.{calculate_hash, le_bytes}

pub data ChangeType : Type 0 where
  added modified deleted metadata_only : ChangeType

pub record FileChange : Type 0 where
  pub path : Str
  pub change_type : ChangeType
  pub source_entry : Option ManifestEntry
  pub target_entry : Option ManifestEntry
  pub required_chunks : List Str
  pub transfer_size : ℕ

unfoldable pub requires_transfer : FileChange → Bool
requires_transfer c = not (is_empty c.required_chunks)

-- The match of `priority`, on the type and the transfer size.
unfoldable pub type_priority : ChangeType → ℕ → ℕ
type_priority modified size = 100
type_priority added size = if ltb size 1000000 then 80 else 50
type_priority metadata_only size = 20
type_priority deleted size = 10

unfoldable pub priority : FileChange → ℕ
unfolding type_priority
priority c = type_priority c.change_type c.transfer_size

pub record DiffStats : Type 0 where
  pub files_added : ℕ
  pub files_modified : ℕ
  pub files_deleted : ℕ
  pub files_metadata_only : ℕ
  pub bytes_to_add : ℕ
  pub bytes_to_modify : ℕ
  pub bytes_to_delete : ℕ
  pub total_chunks : ℕ
  pub unique_chunks : ℕ

abbrev pub no_stats : DiffStats
no_stats = record {
  files_added = 0;
  files_modified = 0;
  files_deleted = 0;
  files_metadata_only = 0;
  bytes_to_add = 0;
  bytes_to_modify = 0;
  bytes_to_delete = 0;
  total_chunks = 0;
  unique_chunks = 0;
}

pub record MerkleProof : Type 0 where
  pub root : List ℕ
  pub subtree_hashes : List (List ℕ)
  pub depth : ℕ

pub record DiffResult : Type 0 where
  pub changes : List FileChange
  pub total_transfer_size : ℕ
  pub required_chunks : List Str
  pub stats : DiffStats
  pub merkle_proof : Option MerkleProof

unfoldable pub has_changes : DiffResult → Bool
has_changes r = not (is_empty r.changes)

-- `a` does not come behind `b`: the higher priority first, then the smaller transfer.
unfoldable pub change_le : FileChange → FileChange → Bool
change_le a b =
    if ltb (priority b) (priority a)
    then true
    else if ltb (priority a) (priority b)
    then false
    else leb a.transfer_size b.transfer_size

unfoldable pub prioritize_changes : DiffResult → DiffResult
prioritize_changes r = record r { changes = sort_by change_le r.changes }

pub record DiffComputer : Type 0 where
  pub chunk_cache : List Str
  pub enable_merkle_proofs : Bool
  pub max_merkle_depth : ℕ

-- DiffComputer::new
abbrev pub new_computer : List Str → DiffComputer
new_computer chunk_cache = record {
  chunk_cache = chunk_cache;
  enable_merkle_proofs = true;
  max_merkle_depth = 10;
}

unfoldable pub find_required_chunks : DiffComputer → List Str → List Str
find_required_chunks d [] = []
find_required_chunks d (hash ∷ hashes) =
    let rest = find_required_chunks d hashes in
    if not (contains d.chunk_cache hash) then hash ∷ rest else rest

unfoldable pub compute_chunk_diff : DiffComputer → List Str → List Str → List Str
compute_chunk_diff d source_chunks [] = []
compute_chunk_diff d source_chunks (hash ∷ hashes) =
    let rest = compute_chunk_diff d source_chunks hashes in
    if not (contains source_chunks hash) && not (contains d.chunk_cache hash)
    then hash ∷ rest
    else rest

abbrev pub average_chunk_size : ℕ
average_chunk_size = 512 * 1024

unfoldable pub calculate_transfer_size : List Str → ℕ
calculate_transfer_size chunk_hashes = length chunk_hashes * average_chunk_size

-- HashSet::extend
unfoldable pub extend : List Str → List Str → List Str
extend set [] = set
extend set (h ∷ hs) = extend (if contains set h then set else h ∷ set) hs

-- What the two loops of `compute_diff` build up.
pub record Progress : Type 0 where
  pub changes : List FileChange
  pub required_chunks : List Str
  pub stats : DiffStats

-- File added.
unfoldable pub add_change : DiffComputer → Progress → Str → ManifestEntry → Progress
add_change d p path target_entry =
    let required = find_required_chunks d target_entry.chunk_hashes in
    record {
      changes =
          p.changes
          ++ record {
            path = path;
            change_type = added;
            source_entry = none;
            target_entry = some target_entry;
            required_chunks = required;
            transfer_size = calculate_transfer_size required;
          }
            ∷ [];
      required_chunks = extend p.required_chunks required;
      stats = record p.stats {
        files_added = p.stats.files_added + 1;
        bytes_to_add = p.stats.bytes_to_add + target_entry.size;
      };
    }

-- File in both with another content hash.
unfoldable pub modify_change :
    DiffComputer → Progress → Str → ManifestEntry → ManifestEntry → Progress
modify_change d p path source_entry target_entry =
    let required = compute_chunk_diff d source_entry.chunk_hashes target_entry.chunk_hashes in
    if is_empty required && (source_entry.size == target_entry.size)
    then record {
      changes =
          p.changes
          ++ record {
            path = path;
            change_type = metadata_only;
            source_entry = some source_entry;
            target_entry = some target_entry;
            required_chunks = [];
            transfer_size = 0;
          }
            ∷ [];
      required_chunks = p.required_chunks;
      stats = record p.stats { files_metadata_only = p.stats.files_metadata_only + 1 };
    }
    else record {
      changes =
          p.changes
          ++ record {
            path = path;
            change_type = modified;
            source_entry = some source_entry;
            target_entry = some target_entry;
            required_chunks = required;
            transfer_size = calculate_transfer_size required;
          }
            ∷ [];
      required_chunks = extend p.required_chunks required;
      stats = record p.stats {
        files_modified = p.stats.files_modified + 1;
        bytes_to_modify = p.stats.bytes_to_modify + target_entry.size;
      };
    }

-- One round of the first loop, at what the source has under the path.
unfoldable pub target_step :
    DiffComputer → Progress → Str → ManifestEntry → Option ManifestEntry → Progress
unfolding add_change modify_change
target_step d p path target_entry none = add_change d p path target_entry
target_step d p path target_entry (some source_entry) =
    if not (str_eq source_entry.content_hash target_entry.content_hash)
    then modify_change d p path source_entry target_entry
    else p

unfoldable pub target_loop :
    DiffComputer → Dict ManifestEntry → Progress → List (Str × ManifestEntry) → Progress
target_loop d source_map p [] = p
target_loop d source_map p ((path, target_entry) ∷ rest) =
    target_loop d source_map (target_step d p path target_entry (lookup path source_map)) rest

-- One round of the second loop: a file of the source that the target lacks.
unfoldable pub source_step : Progress → Str → ManifestEntry → Option ManifestEntry → Progress
source_step p path source_entry (some target_entry) = p
source_step p path source_entry none = record {
  changes =
      p.changes
      ++ record {
        path = path;
        change_type = deleted;
        source_entry = some source_entry;
        target_entry = none;
        required_chunks = [];
        transfer_size = 0;
      }
        ∷ [];
  required_chunks = p.required_chunks;
  stats = record p.stats {
    files_deleted = p.stats.files_deleted + 1;
    bytes_to_delete = p.stats.bytes_to_delete + source_entry.size;
  };
}

unfoldable pub source_loop : Dict ManifestEntry → Progress → List (Str × ManifestEntry) → Progress
source_loop target_map p [] = p
source_loop target_map p ((path, source_entry) ∷ rest) =
    source_loop target_map (source_step p path source_entry (lookup path target_map)) rest

unfoldable pub chunk_count : List FileChange → ℕ
chunk_count [] = 0
chunk_count (c ∷ cs) = length c.required_chunks + chunk_count cs

unfoldable pub transfer_total : List FileChange → ℕ
transfer_total [] = 0
transfer_total (c ∷ cs) = c.transfer_size + transfer_total cs
