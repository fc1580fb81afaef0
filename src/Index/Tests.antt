-- ===== src/Index/Tests.antt =====
-- The theorems on Merkle roots at concrete manifests.
use mathlib.Core.List.Perm
use landropic.Prelude.{
  ◌≡◌, ◌↔◌, refl, ℕ, List, [], ◌∷◌, Option, some, none, true, Str, str_eq, codes, length,
}
use landropic.Prelude.Dict.{Distinct, lookup}
use landropic.Index.Manifest.{ManifestEntry, Manifest, keyed}
use landropic.Index.Merkle.{calculate_hash, finalize, verify}
use landropic.Index.Integrity.{calculate_hash-perm, verify-finalize}

abbrev toy_hash : List ℕ → List ℕ
toy_hash bytes = length bytes ∷ []

abbrev toy_decode : Str → Option (List ℕ)
toy_decode text = some text

abbrev entry : Str → Str → ManifestEntry
entry path content = record {
  path = path;
  size = 5;
  modified_at = 0;
  content_hash = content;
  chunk_hashes = [];
  mode = none;
}

abbrev manifest_of : List ManifestEntry → Manifest
manifest_of files = record {
  folder_id = codes "f";
  version = 1;
  files = files;
  created_at = 0;
  manifest_hash = none;
}

abbrev first : ManifestEntry
first = entry (codes "a") (codes "1")

abbrev second : ManifestEntry
second = entry (codes "bb") (codes "2")

two_files-Distinct : Distinct (keyed (first ∷ second ∷ []))
unfolding lookup str_eq
two_files-Distinct = (refl, (refl, tt))

calculate_hash-perm_example :
    calculate_hash toy_hash toy_decode (manifest_of (first ∷ second ∷ []))
    ≡ calculate_hash toy_hash toy_decode (manifest_of (second ∷ first ∷ []))
calculate_hash-perm_example =
    calculate_hash-perm toy_hash toy_decode (manifest_of (first ∷ second ∷ []))
      (manifest_of (second ∷ first ∷ [])) two_files-Distinct (Perm.swap second first [])

verify-finalize_example :
    (hash : Str) × (finalize toy_hash toy_decode (λ h. h) (manifest_of (first ∷ []))
      ≡ some (record (manifest_of (first ∷ [])) { manifest_hash = some hash }))
    × ((stored : Option Str)
        → (verify toy_hash toy_decode
              (λ h. h)
              (record (manifest_of (first ∷ [])) { manifest_hash = stored })
            ≡ some true)
          ↔ (stored ≡ some hash))
verify-finalize_example = verify-finalize toy_hash toy_decode (λ h. h) (manifest_of (first ∷ []))
