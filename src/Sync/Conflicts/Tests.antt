-- ===== src/Sync/Conflicts/Tests.antt =====
-- The theorems on conflicts at concrete inputs, and runs of the resolution.
use landropic.Prelude.{
  Option, contains, false, if◌then◌else◌, ◌⊎◌, ℕ, ◌≡◌, refl, List, [], ◌∷◌, some, none, true, Str,
  str_eq, codes,
}
use landropic.Prelude.Dict.{lookup, Distinct}
use landropic.Index.Manifest.{ManifestEntry, Manifest, file_map}
use landropic.Sync.Conflicts.{
  Conflict, ConflictDetector, keep_local, both_modified, conflict_at, default_config, new_detector,
  clear_resolved_conflicts, mark_resolved, check_file_conflict, detect_conflicts,
  auto_resolve_conflict, choose, newer,
}
use mathlib.Core.List.{Mem}
use landropic.Sync.Conflicts.Conflicting.{Conflicting}
use landropic.Sync.Conflicts.Detect.{paths_of, detect_conflicts-Conflicting}
use landropic.Sync.Conflicts.Clear.{if_unresolved, clear_resolved_conflicts-mark_resolved}
use landropic.Sync.Conflicts.Resolve.{type_of, mirror, flip, auto_resolve_conflict-mirror}

abbrev entry : Str → ℕ → Str → ManifestEntry
entry path time content = record {
  path = path;
  size = 5;
  modified_at = time;
  content_hash = content;
  chunk_hashes = [];
  mode = none;
}

abbrev manifest_of : List ManifestEntry → Manifest
manifest_of files = record {
  folder_id = codes "f";
  version = 1;
  files = files;
  created_at = 0;
  manifest_hash = none;
}

abbrev ours : ManifestEntry
ours = entry (codes "a") 20 (codes "1")

abbrev theirs : ManifestEntry
theirs = entry (codes "a") 30 (codes "2")

abbrev detector : ConflictDetector
detector = new_detector default_config

abbrev found : Conflict
found = conflict_at 40 (codes "a") both_modified (some ours) (some theirs)

abbrev found_there : Conflict
found_there = record (mirror found) { detected_at = 50 }

auto_resolve_conflict-mirror_example :
    (check_file_conflict 50 (codes "a") (some theirs) (some ours) (some 10) ≡ some found_there)
    × (((auto_resolve_conflict detector found_there).0
          ≡ flip (auto_resolve_conflict detector found).0)
        × (((auto_resolve_conflict detector found).1.resolved ≡ true)
            × ((auto_resolve_conflict detector found_there).1.resolved ≡ true)))
auto_resolve_conflict-mirror_example =
    auto_resolve_conflict-mirror detector 40 50 (codes "a") (some ours) (some theirs) (some 10)
      found refl refl (unfold check_file_conflict str_eq in refl) refl

abbrev detected : List Conflict × ConflictDetector
detected =
    detect_conflicts (λ paths. paths) (λ path. 40) (manifest_of (ours ∷ []))
      (manifest_of (theirs ∷ [])) (some 10) detector

abbrev local_entry : Option ManifestEntry
local_entry = lookup (codes "a") (file_map (ours ∷ []))

abbrev remote_entry : Option ManifestEntry
remote_entry = lookup (codes "a") (file_map (theirs ∷ []))

abbrev expected : Conflict
expected = conflict_at 40 (codes "a") (type_of local_entry remote_entry) local_entry remote_entry

detect_conflicts-Conflicting_example :
    (Conflicting local_entry remote_entry (some 10)
      × ((lookup (codes "a") detected.1.detected_conflicts ≡ some expected)
          × Mem expected detected.0))
    ⊎ (¬ (Conflicting local_entry remote_entry (some 10))
        × ((lookup (codes "a") detected.1.detected_conflicts
              ≡ lookup (codes "a") detector.detected_conflicts)
            × (contains (paths_of detected.0) (codes "a") ≡ false)))
detect_conflicts-Conflicting_example =
    detect_conflicts-Conflicting (λ paths. paths) (λ set k. refl) (λ path. 40)
      (manifest_of (ours ∷ [])) (manifest_of (theirs ∷ [])) (some 10) detector (codes "a")

abbrev holding : ConflictDetector
holding = record detector { detected_conflicts = (codes "a", found) ∷ [] }

holding-Distinct : Distinct holding.detected_conflicts
unfolding lookup
holding-Distinct = (refl, tt)

clear_resolved_conflicts-mark_resolved_example :
    lookup
      (codes "a")
      (clear_resolved_conflicts (mark_resolved (codes "a") holding)).detected_conflicts
    ≡ (if str_eq (codes "a") (codes "a")
        then none
        else if_unresolved (lookup (codes "a") holding.detected_conflicts))
clear_resolved_conflicts-mark_resolved_example =
    clear_resolved_conflicts-mark_resolved (codes "a") (codes "a") holding holding-Distinct

-- Of two files changed at the same instant each peer keeps its own.
abbrev tied : Conflict
tied =
    conflict_at 40 (codes "a") both_modified (some ours) (some (entry (codes "a") 20 (codes "2")))

tied_stays :
    ((auto_resolve_conflict detector tied).0 ≡ keep_local)
    × ((auto_resolve_conflict detector (mirror tied)).0 ≡ keep_local)
unfolding auto_resolve_conflict choose newer
tied_stays = (refl, refl)
