-- ===== src/Index/Manifest.antt =====
-- landro-index/src/manifest.rs: entries, manifests, and the comparison of two manifests.
-- An instant is a number of nanoseconds since 1970, and times before are left out; hashes are the hex texts that the code keeps.
-- `visit` is the order in which a HashMap of entries happens to be walked.
use landropic.Prelude.{
  ℕ, ◌+◌, List, [], ◌∷◌, ◌++◌, Option, none, some, Bool, true, false, ◌||◌, not, Str, str_eq,
  if◌then◌else◌, length,
}
use landropic.Prelude.Dict.{Dict, lookup, collect}

pub record ManifestEntry : Type 0 where
  pub path : Str
  pub size : ℕ
  pub modified_at : ℕ
  pub content_hash : Str
  pub chunk_hashes : List Str
  pub mode : Option ℕ

pub record Manifest : Type 0 where
  pub folder_id : Str
  pub version : ℕ
  pub files : List ManifestEntry
  pub created_at : ℕ
  pub manifest_hash : Option Str

-- Manifest::new, at the time `now`.
unfoldable pub new : ℕ → Str → ℕ → Manifest
new now folder_id version = record {
  folder_id = folder_id;
  version = version;
  files = [];
  created_at = now;
  manifest_hash = none;
}

unfoldable pub add_file : Manifest → ManifestEntry → Manifest
add_file m entry = record m { files = m.files ++ entry ∷ [] }

unfoldable pub sizes : List ManifestEntry → ℕ
sizes [] = 0
sizes (f ∷ fs) = f.size + sizes fs

unfoldable pub total_size : Manifest → ℕ
unfolding sizes
total_size m = sizes m.files

unfoldable pub file_count : Manifest → ℕ
file_count m = length m.files

pub record ManifestDiff : Type 0 where
  pub added : List ManifestEntry
  pub modified : List ManifestEntry
  pub deleted : List ManifestEntry

-- files.iter().map(|f| (f.path.clone(), f)).collect()
abbrev pub keyed : List ManifestEntry → List (Str × ManifestEntry)
keyed [] = []
keyed (f ∷ fs) = (f.path, f) ∷ keyed fs

unfoldable pub file_map : List ManifestEntry → Dict ManifestEntry
file_map files = collect [] (keyed files)

abbrev pub is_none {ℓ} : {A : Type ℓ} → Option A → Bool
is_none none = true
is_none (some a) = false

-- The loop over the files of `other`, of which it keeps the new ones.
unfoldable pub added_files : Dict ManifestEntry → List (Str × ManifestEntry) → List ManifestEntry
added_files self_map [] = []
added_files self_map ((path, file) ∷ rest) =
    let later = added_files self_map rest in
    elim (lookup path self_map) [ none ↦ file ∷ later | some self_file ↦ later ]

-- The same loop, of which it keeps the changed ones.
unfoldable pub modified_files : Dict ManifestEntry → List (Str × ManifestEntry) → List ManifestEntry
modified_files self_map [] = []
modified_files self_map ((path, file) ∷ rest) =
    let later = modified_files self_map rest in
    elim (lookup path self_map) [
      | none ↦ later
      | some self_file ↦
          if str_eq self_file.content_hash file.content_hash then later else file ∷ later
    ]

-- The loop over the files of `self`.
unfoldable pub deleted_files : Dict ManifestEntry → List (Str × ManifestEntry) → List ManifestEntry
deleted_files other_map [] = []
deleted_files other_map ((path, file) ∷ rest) =
    let later = deleted_files other_map rest in
    if is_none (lookup path other_map) then file ∷ later else later

abbrev pub Visit : Type 0
Visit = Dict ManifestEntry → List (Str × ManifestEntry)

unfoldable pub diff : Visit → Manifest → Manifest → ManifestDiff
diff visit self other =
    let self_map = file_map self.files in
    let other_map = file_map other.files in
    record {
      added = added_files self_map (visit other_map);
      modified = modified_files self_map (visit other_map);
      deleted = deleted_files other_map (visit self_map);
    }

abbrev pub is_empty {ℓ} : {A : Type ℓ} → List A → Bool
is_empty [] = true
is_empty (x ∷ xs) = false

unfoldable pub has_changes : ManifestDiff → Bool
has_changes d = not (is_empty d.added) || (not (is_empty d.modified) || not (is_empty d.deleted))

unfoldable pub change_count : ManifestDiff → ℕ
change_count d = length d.added + length d.modified + length d.deleted
