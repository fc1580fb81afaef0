-- ===== src/Sync/Diff/Report.antt =====
-- The theorems on `compute_diff`: it returns, and what its result holds.
use mathlib.Core.List.{Mem, filter_map}
use mathlib.Core.List.Perm
use mathlib.Core.Path.{subst}
use landropic.Prelude.{
  ◌≡◌, ◌↔◌, ◌⊎◌, inl, inr, sym, ap, ◌∙◌, [], ◌++◌, Option, none, some, true, ◌&&◌, arith, ltb,
  Bool-cases, length,
}
use landropic.Prelude.Dict.{lookup}
use landropic.Prelude.Sort.{sort_by, sort_by-perm, sort_by-IsSorted, IsSorted}
use landropic.Index.Manifest.{Manifest, file_map}
use landropic.Index.Integrity.{calculate_hash_total}
use landropic.Sync.Diff.{
  FileChange, DiffResult, DiffComputer, MerkleProof, change_le, prioritize_changes, no_stats,
}
use landropic.Sync.Diff.Compute.{
  Env, compute_merkle_proof, merkle_proof_at, compute_changes, assemble, compute_diff,
}
use landropic.Sync.Diff.Change.{
  change_for, target_loop-changes, source_loop-changes, target_change, source_change,
}
use landropic.Sync.Diff.Exact.{IsWalk, found_iff, file_map-Distinct}

module _ (env : Env) (d : DiffComputer) where
  compute_merkle_proof_total :
      (source target : Manifest)
      → (proof : Option MerkleProof) × (compute_merkle_proof env d source target ≡ some proof)
  unfolding compute_merkle_proof
  compute_merkle_proof_total source target =
      let (s, s_e) = calculate_hash_total env.blake3 env.hex_decode source in
      let (t, t_e) = calculate_hash_total env.blake3 env.hex_decode target in
      elim (Bool-cases (ltb (length source.files) 100 && ltb (length target.files) 100)) [
        | inl small ↦ (none, ground (arith, small))
        | inr large ↦ (merkle_proof_at env d target s t, ground (arith, large, s_e, t_e))
      ]

  -- The result is the loops' outcome with its totals, sorted.
  pub compute_diff_total :
      (source target : Manifest)
      → (proof : Option MerkleProof) × (compute_diff env d source target
          ≡ some (prioritize_changes (assemble env (compute_changes env d source target) proof)))
  unfolding compute_diff
  compute_diff_total source target =
      let (proof, e) = compute_merkle_proof_total source target in
      elim (Bool-cases d.enable_merkle_proofs) [
        | inl on ↦ (proof, ground (arith, e))
        | inr off ↦ (none, ground arith)
      ]

change_le_total : (a b : FileChange) → (change_le a b ≡ true) ⊎ (change_le b a ≡ true)
unfolding change_le
change_le_total a b = ground arith

change_le_trans :
    (a b c : FileChange) → change_le a b ≡ true → change_le b c ≡ true → change_le a c ≡ true
unfolding change_le
change_le_trans a b c h k = ground arith

-- What the result of a diff reports of the two manifests.
pub record Reports (d : DiffComputer) (source target : Manifest) (r : DiffResult) : Type 0 where
  -- A change is reported exactly when the two entries under its path call for it.
  pub exact :
      (c : FileChange)
      → Mem c r.changes ↔ (
          change_for d c.path
            (lookup c.path (file_map source.files))
            (lookup c.path (file_map target.files))
          ≡ some c)
  -- The changes come by falling priority, and by rising transfer size where that is equal.
  pub sorted : IsSorted change_le r.changes

module _ (env : Env) (walk : IsWalk env.visit) (d : DiffComputer) (source target : Manifest) where
  changes_found :
      (compute_changes env d source target).changes
      ≡ filter_map (target_change d (file_map source.files)) (env.visit (file_map target.files))
        ++ filter_map (source_change d (file_map target.files)) (env.visit (file_map source.files))
  unfolding compute_changes
  changes_found =
      source_loop-changes d (file_map target.files) _ (env.visit (file_map source.files))
      ∙ ap
          (λ front.
            front
            ++ filter_map (source_change d (file_map target.files))
                (env.visit (file_map source.files)))
          (target_loop-changes d (file_map source.files)
            (record { changes = []; required_chunks = []; stats = no_stats })
            (env.visit (file_map target.files)))

  -- `compute_diff` returns a result on every two manifests, in whatever order maps are walked, and
  -- its changes are exact and sorted.
  pub compute_diff-Reports :
      (r : DiffResult) × (compute_diff env d source target ≡ some r) × Reports d source target r
  unfolding prioritize_changes assemble
  compute_diff-Reports =
      let (proof, e) = compute_diff_total env d source target in
      let p = compute_changes env d source target in
      (
        prioritize_changes (assemble env p proof),
        e,
        record {
          exact = λ c.
              let moved : Mem c (sort_by change_le p.changes) ↔ Mem c p.changes =
                Perm.mem_iff (sort_by-perm change_le p.changes) in
              let (down, up) =
                found_iff d (file_map source.files) (file_map target.files)
                  (env.visit (file_map source.files)) (env.visit (file_map target.files))
                  (walk (file_map source.files)) (walk (file_map target.files))
                  (file_map-Distinct source.files) (file_map-Distinct target.files) c in
              (
                λ m. down (subst (Mem c) changes_found (moved.0 m)),
                λ h. moved.1 (subst (Mem c) (sym changes_found) (up h)),
              );
          sorted = sort_by-IsSorted change_le change_le_total change_le_trans p.changes;
        },
      )
