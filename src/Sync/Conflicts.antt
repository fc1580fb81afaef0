-- ===== src/Sync/Conflicts.antt =====
-- landro-sync/src/conflict_detection.rs: the conflicts of two manifests, and their resolution.
-- Instants are numbers of nanoseconds, and `now` is the time of a check, for each path its own. `visit_paths` is the order
-- in which a HashSet of paths happens to be walked. What is only logged is left out.
mod Clear
mod Conflicting
mod Detect
mod Resolve
mod Tests
use landropic.Prelude.{
  ℕ, List, [], ◌∷◌, ◌++◌, Option, none, some, Bool, true, false, not, ◌&&◌, Str, str_eq,
  if◌then◌else◌, ltb,
}
use landropic.Prelude.Dict.{Dict, lookup, insert}
use landropic.Index.Manifest.{ManifestEntry, Manifest, file_map}
use landropic.Sync.Diff.{extend}

pub data ConflictType : Type 0 where
  both_modified deleted_modified create_create : ConflictType

pub record Conflict : Type 0 where
  pub file_path : Str
  pub conflict_type : ConflictType
  pub local_entry : Option ManifestEntry
  pub remote_entry : Option ManifestEntry
  pub detected_at : ℕ
  pub resolved : Bool

pub data ConflictResolution : Type 0 where
  keep_local keep_remote keep_newer manual : ConflictResolution

pub record ConflictDetectionConfig : Type 0 where
  pub default_resolution : ConflictResolution
  pub simultaneous_change_window : ℕ
  pub auto_resolve : Bool

-- ConflictDetectionConfig::default; the window is ten seconds.
abbrev pub default_config : ConflictDetectionConfig
default_config = record {
  default_resolution = keep_newer;
  simultaneous_change_window = 10000000000;
  auto_resolve = true;
}

pub record ConflictDetector : Type 0 where
  pub config : ConflictDetectionConfig
  pub detected_conflicts : Dict Conflict

-- ConflictDetector::new
abbrev pub new_detector : ConflictDetectionConfig → ConflictDetector
new_detector config = record { config = config; detected_conflicts = [] }

abbrev pub conflict_at :
    ℕ → Str → ConflictType → Option ManifestEntry → Option ManifestEntry → Conflict
conflict_at now path conflict_type local_entry remote_entry = record {
  file_path = path;
  conflict_type = conflict_type;
  local_entry = local_entry;
  remote_entry = remote_entry;
  detected_at = now;
  resolved = false;
}

unfoldable pub check_file_conflict :
    ℕ → Str → Option ManifestEntry → Option ManifestEntry → Option ℕ → Option Conflict
check_file_conflict now path (some local) (some remote) (some last_sync) =
    if not (str_eq local.content_hash remote.content_hash)
    then (if ltb last_sync local.modified_at && ltb last_sync remote.modified_at
        then some (conflict_at now path both_modified (some local) (some remote))
        else none)
    else none
check_file_conflict now path (some local) (some remote) none =
    if not (str_eq local.content_hash remote.content_hash)
    then some (conflict_at now path both_modified (some local) (some remote))
    else none
check_file_conflict now path (some local) none (some last_sync) =
    if ltb last_sync local.modified_at
    then some (conflict_at now path deleted_modified (some local) none)
    else none
check_file_conflict now path (some local) none none = none
check_file_conflict now path none (some remote) (some last_sync) =
    if ltb last_sync remote.modified_at
    then some (conflict_at now path deleted_modified none (some remote))
    else none
check_file_conflict now path none (some remote) none = none
check_file_conflict now path none none last_sync_time = none

abbrev pub keys {ℓ} : {V : Type ℓ} → Dict V → List Str
keys [] = []
keys ((k, v) ∷ d) = k ∷ keys d

-- One round of the loop over the paths, at what the check gives.
unfoldable pub record_conflict :
    Str → Option Conflict → List Conflict × ConflictDetector → List Conflict × ConflictDetector
record_conflict path none (conflicts, d) = (conflicts, d)
record_conflict path (some conflict) (conflicts, d) = (
  conflicts ++ conflict ∷ [],
  record d { detected_conflicts = insert path conflict d.detected_conflicts },
)

unfoldable pub detect_loop :
    (Str → Option Conflict)
    → List Str
    → List Conflict × ConflictDetector
    → List Conflict × ConflictDetector
unfolding record_conflict
detect_loop check [] found = found
detect_loop check (path ∷ paths) found =
    detect_loop check paths (record_conflict path (check path) found)

unfoldable pub check_path : (Str → ℕ) → Manifest → Manifest → Option ℕ → Str → Option Conflict
unfolding check_file_conflict
check_path now local remote last_sync_time path =
    check_file_conflict (now path) path (lookup path (file_map local.files))
      (lookup path (file_map remote.files)) last_sync_time

unfoldable pub detect_conflicts :
    (List Str → List Str)
    → (Str → ℕ)
    → Manifest
    → Manifest
    → Option ℕ
    → ConflictDetector
    → List Conflict × ConflictDetector
unfolding check_path detect_loop extend
detect_conflicts visit_paths now local remote last_sync_time d =
    let all_paths =
      extend (extend [] (keys (file_map local.files))) (keys (file_map remote.files)) in
    detect_loop (check_path now local remote last_sync_time) (visit_paths all_paths) ([], d)

-- The newer of two files; at equal times the local one.
unfoldable pub newer : ManifestEntry → ManifestEntry → ConflictResolution
newer local remote =
    if ltb remote.modified_at local.modified_at
    then keep_local
    else if ltb local.modified_at remote.modified_at
    then keep_remote
    else keep_local

unfoldable pub choose :
    ConflictResolution
    → ConflictType
    → Option ManifestEntry
    → Option ManifestEntry
    → ConflictResolution
unfolding newer
choose keep_newer both_modified (some local) (some remote) = newer local remote
choose other both_modified (some local) (some remote) = other
choose default_resolution both_modified local remote = manual
choose default_resolution deleted_modified (some local) remote = keep_local
choose default_resolution deleted_modified none remote = keep_remote
choose default_resolution create_create local remote = default_resolution

abbrev pub is_manual : ConflictResolution → Bool
is_manual manual = true
is_manual _ = false

-- The conflict is marked in place; it is given back as it is afterwards.
unfoldable pub auto_resolve_conflict : ConflictDetector → Conflict → ConflictResolution × Conflict
unfolding choose
auto_resolve_conflict d conflict =
    let resolution =
      choose d.config.default_resolution conflict.conflict_type conflict.local_entry
        conflict.remote_entry in
    if not d.config.auto_resolve
    then (manual, conflict)
    else (resolution, record conflict { resolved = not (is_manual resolution) })

unfoldable pub unresolved : List Conflict → List Conflict
unresolved [] = []
unresolved (c ∷ cs) = let rest = unresolved cs in if not c.resolved then c ∷ rest else rest

unfoldable pub mark_resolved : Str → ConflictDetector → ConflictDetector
mark_resolved file_path d = elim (lookup file_path d.detected_conflicts) [
  | none ↦ d
  | some conflict ↦ record d {
    detected_conflicts =
        insert file_path (record conflict { resolved = true }) d.detected_conflicts;
  }
]

unfoldable pub retain_unresolved : Dict Conflict → Dict Conflict
retain_unresolved [] = []
retain_unresolved ((path, conflict) ∷ rest) =
    let kept = retain_unresolved rest in
    if not conflict.resolved then (path, conflict) ∷ kept else kept

unfoldable pub clear_resolved_conflicts : ConflictDetector → ConflictDetector
unfolding retain_unresolved
clear_resolved_conflicts d = record d {
  detected_conflicts = retain_unresolved d.detected_conflicts;
}
