-- ===== src/Index/Integrity.antt =====
-- The Merkle root exists, seals a manifest, and does not depend on the order of its files.
use mathlib.Core.List.{Perm, Mem, mem-cons, mem-cons_self, mem-cons_of_mem, not-mem-nil}
use mathlib.Core.Logic.Or
use mathlib.Core.Option
use mathlib.Core.Path.{subst, sym, ◌∙◌}
use mathlib.Core.List.Perm
use landropic.Prelude.{
  ℕ, zero, suc, ◌≤◌, ◌≡◌, ◌↔◌, ◌⊎◌, inl, inr, refl, ap, List, [], ◌∷◌, map, Option, none, some,
  true, Str, str_eq_iff, str_le, length, arith,
}
use landropic.Prelude.Sort.{sort_by, sort_by-perm, sort_by-IsSorted, IsSorted, IsSorted-unique}
use landropic.Prelude.Dict.{Distinct, lookup}
use landropic.Prelude.Walk.{lookup-mem}
use landropic.Index.Manifest.{keyed, ManifestEntry, Manifest}
use landropic.Index.Merkle.{
  path_le, hash_file_entry, hash_pairs, merkle_levels, root_of, calculate_hash, finalize, verify,
}

str_le_total : (s t : Str) → (str_le s t ≡ true) ⊎ (str_le t s ≡ true)
unfolding str_le
str_le_total [] t = inl refl
str_le_total (a ∷ as') [] = inr refl
str_le_total (a ∷ as') (b ∷ bs) = ground (arith, str_le_total as' bs)

str_le_trans : (s t u : Str) → str_le s t ≡ true → str_le t u ≡ true → str_le s u ≡ true
unfolding str_le
str_le_trans [] t u h k = refl
str_le_trans (a ∷ as') [] u h k = cc
str_le_trans (a ∷ as') (b ∷ bs) [] h k = cc
str_le_trans (a ∷ as') (b ∷ bs) (c ∷ cs) h k = ground (arith, str_le_trans as' bs cs)

str_le_antisymm : (s t : Str) → str_le s t ≡ true → str_le t s ≡ true → s ≡ t
unfolding str_le
str_le_antisymm [] [] h k = refl
str_le_antisymm [] (b ∷ bs) h k = cc
str_le_antisymm (a ∷ as') [] h k = cc
str_le_antisymm (a ∷ as') (b ∷ bs) h k = ground (arith, str_le_antisymm as' bs)

pub entry_set : IsSet ManifestEntry
entry_set = hlevel

sort_by-IsSorted_files : (fs : List ManifestEntry) → IsSorted path_le (sort_by path_le fs)
sort_by-IsSorted_files =
    sort_by-IsSorted path_le (λ a b. str_le_total a.path b.path)
      (λ a b c. str_le_trans a.path b.path c.path)

mem-keyed :
    (files : List ManifestEntry) (a : ManifestEntry) → Mem a files → Mem (a.path, a) (keyed files)
mem-keyed [] a m = absurd (not-mem-nil m)
mem-keyed (f ∷ fs) a m =
    Or.elim (hlevel) (mem-cons.0 m)
      (λ e. subst (λ b. Mem (b.path, b) (keyed (f ∷ fs))) (sym e) mem-cons_self)
      (λ later. mem-cons_of_mem (f.path, f) (mem-keyed fs a later))

same_entry :
    (files : List ManifestEntry)
    → Distinct (keyed files)
    → (a b : ManifestEntry) → Mem a files
    → Mem b files
    → a.path ≡ b.path
    → a ≡ b
same_entry files h a b ma mb e =
    let fa = lookup-mem entry_set a.path a (keyed files) h (mem-keyed files a ma) in
    let fb = lookup-mem entry_set b.path b (keyed files) h (mem-keyed files b mb) in
    Option.some_inj.0 (sym fa ∙ ap (λ p. lookup p (keyed files)) e ∙ fb)

module _ (blake3 : List ℕ → List ℕ) (hex_decode : Str → Option (List ℕ)) where
  length-hash_pairs-le : (hs : List (List ℕ)) → length (hash_pairs blake3 hex_decode hs) ≤ length hs
  unfolding hash_pairs
  length-hash_pairs-le [] = omega arith
  length-hash_pairs-le (h ∷ []) = omega arith
  length-hash_pairs-le (h ∷ k ∷ hs) = omega (arith, length-hash_pairs-le hs)

  -- As many rounds as hashes are enough to come down to one.
  merkle_levels_total :
      (fuel : ℕ) (h : List ℕ) (hs : List (List ℕ))
      → length hs ≤ fuel
      → (root : List ℕ) × (merkle_levels blake3 hex_decode fuel (h ∷ hs) ≡ some root)
  unfolding merkle_levels hash_pairs
  merkle_levels_total fuel h [] e = (h, refl)
  merkle_levels_total zero h (k ∷ hs) e = elim e [ ]
  merkle_levels_total (suc fuel) h (k ∷ hs) e =
      merkle_levels_total fuel _ (hash_pairs blake3 hex_decode hs)
        (omega (arith, length-hash_pairs-le hs))

  length-leaves :
      (fs : List ManifestEntry) → length (map (hash_file_entry blake3 hex_decode) fs) ≡ length fs
  length-leaves [] = refl
  length-leaves (f ∷ fs) = ap suc (length-leaves fs)

  root_of_total :
      (fs : List ManifestEntry) → (root : List ℕ) × (root_of blake3 hex_decode fs ≡ some root)
  unfolding root_of
  root_of_total [] = (blake3 [], refl)
  root_of_total (f ∷ fs) =
      merkle_levels_total (suc (length fs)) _ (map (hash_file_entry blake3 hex_decode) fs)
        (omega (arith, length-leaves fs))

  pub calculate_hash_total :
      (m : Manifest) → (root : List ℕ) × (calculate_hash blake3 hex_decode m ≡ some root)
  unfolding calculate_hash
  calculate_hash_total m = root_of_total (sort_by path_le m.files)

  -- The root does not depend on the order of the files, where no path stands twice.
  pub calculate_hash-perm :
      (m n : Manifest)
      → Distinct (keyed m.files)
      → Perm m.files n.files
      → calculate_hash blake3 hex_decode m ≡ calculate_hash blake3 hex_decode n
  unfolding calculate_hash
  calculate_hash-perm m n unique p = ap (root_of blake3 hex_decode) (
      IsSorted-unique path_le entry_set (sort_by path_le m.files) (sort_by path_le n.files)
        (λ a b ma mb h k.
          same_entry m.files unique a b ((Perm.mem_iff (sort_by-perm path_le m.files)).0 ma)
            ((Perm.mem_iff (sort_by-perm path_le m.files)).0 mb)
            (str_le_antisymm a.path b.path h k))
        (sort_by-IsSorted_files m.files) (sort_by-IsSorted_files n.files)
        (Perm.trans (sort_by-perm path_le m.files)
          (Perm.trans p (Perm.symm (sort_by-perm path_le n.files)))))

  module _ (to_hex : List ℕ → Str) where
    verify_stored :
        (m : Manifest) (root : List ℕ) (stored : Option Str)
        → calculate_hash blake3 hex_decode m ≡ some root
        → (verify blake3 hex_decode to_hex (record m { manifest_hash = stored }) ≡ some true)
          ↔ (stored ≡ some (to_hex root))
    unfolding verify calculate_hash
    verify_stored m root none e = (λ v. cc, λ v. cc)
    verify_stored m root (some s) e = (
      λ v. ground (arith, e, str_eq_iff (to_hex root) s),
      λ v. ground (arith, e, str_eq_iff (to_hex root) s),
    )

    -- `finalize` succeeds on every manifest and changes nothing but the stored hash; with that hash
    -- stored, and with no other and not with none, the manifest verifies.
    pub verify-finalize :
        (m : Manifest)
        → (hash : Str) × (finalize blake3 hex_decode to_hex m
            ≡ some (record m { manifest_hash = some hash }))
          × ((stored : Option Str)
              → (verify blake3 hex_decode to_hex (record m { manifest_hash = stored }) ≡ some true)
                ↔ (stored ≡ some hash))
    unfolding finalize
    verify-finalize m =
        let (root, e) = calculate_hash_total m in
        (to_hex root, rw (e, finalize) refl, λ stored. verify_stored m root stored e)
