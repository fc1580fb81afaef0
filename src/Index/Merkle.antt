-- ===== src/Index/Merkle.antt =====
-- landro-index/src/manifest.rs: the Merkle root of a manifest, `finalize` and `verify`.
-- The crates blake3 and hex are parameters: a hasher that is fed pieces in turn gives the hash of
-- the pieces put together. The 32 bytes of a root are kept as they are.
use landropic.Prelude.{
  ℕ, zero, suc, ◌/◌, ◌%◌, List, [], ◌∷◌, ◌++◌, map, Option, none, some, Bool, false, Str, str_eq,
  str_le, length, replicate,
}
use landropic.Prelude.Sort.{sort_by}
use landropic.Index.Manifest.{ManifestEntry, Manifest}

-- to_le_bytes, of `n` bytes.
abbrev pub le_bytes : ℕ → ℕ → List ℕ
le_bytes zero x = []
le_bytes (suc n) x = (x % 256) ∷ le_bytes n (x / 256)

abbrev pub path_le : ManifestEntry → ManifestEntry → Bool
path_le a b = str_le a.path b.path

module _ (blake3 : List ℕ → List ℕ) (hex_decode : Str → Option (List ℕ)) where
  -- hex::decode(..).unwrap_or_else(|_| vec![0; 32])
  abbrev pub decoded : Str → List ℕ
  decoded text = elim (hex_decode text) [ none ↦ replicate 32 0 | some bytes ↦ bytes ]

  abbrev pub decoded_all : List Str → List ℕ
  decoded_all [] = []
  decoded_all (h ∷ hs) = decoded h ++ decoded_all hs

  abbrev pub mode_bytes : Option ℕ → List ℕ
  mode_bytes (some mode) = le_bytes 4 mode
  mode_bytes none = replicate 4 0

  unfoldable pub hash_file_entry : ManifestEntry → List ℕ
  hash_file_entry file = blake3 (
      file.path
      ++ (le_bytes 8 file.size
          ++ (decoded file.content_hash
              ++ (mode_bytes file.mode
                  ++ (le_bytes 8 (file.modified_at / 1000000000)
                      ++ decoded_all file.chunk_hashes)))))

  unfoldable pub hash_pairs : List (List ℕ) → List (List ℕ)
  hash_pairs [] = []
  hash_pairs (h ∷ []) = blake3 (h ++ h) ∷ []
  hash_pairs (h ∷ k ∷ hs) = blake3 (h ++ k) ∷ hash_pairs hs

  -- The `while` loop: a level of more than one hash is halved. The fuel is the number of hashes.
  unfoldable pub merkle_levels : ℕ → List (List ℕ) → Option (List ℕ)
  merkle_levels fuel [] = none
  merkle_levels fuel (h ∷ []) = some h
  merkle_levels zero (h ∷ k ∷ hs) = none
  merkle_levels (suc fuel) (h ∷ k ∷ hs) = merkle_levels fuel (hash_pairs (h ∷ k ∷ hs))

  unfoldable pub root_of : List ManifestEntry → Option (List ℕ)
  unfolding merkle_levels
  root_of [] = some (blake3 [])
  root_of (f ∷ fs) = merkle_levels (length (f ∷ fs)) (map hash_file_entry (f ∷ fs))

  unfoldable pub calculate_hash : Manifest → Option (List ℕ)
  unfolding root_of sort_by
  calculate_hash m = root_of (sort_by path_le m.files)

  module _ (to_hex : List ℕ → Str) where
    unfoldable pub finalize : Manifest → Option Manifest
    finalize m = elim (calculate_hash m) [
      | none ↦ none
      | some hash ↦ some (record m { manifest_hash = some (to_hex hash) })
    ]

    unfoldable pub verify : Manifest → Option Bool
    verify m = elim m.manifest_hash [
      | none ↦ some false
      | some stored_hash ↦ elim (calculate_hash m) [
        | none ↦ none
        | some hash ↦ some (str_eq (to_hex hash) stored_hash)
      ]
    ]
