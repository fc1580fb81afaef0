-- ===== src/Sync/Diff/Compute.antt =====
-- landro-sync/src/diff.rs: the Merkle proof, `compute_diff` as a whole, and `IncrementalDiff`.
use landropic.Prelude.{
  ℕ, min, List, [], ◌∷◌, ◌++◌, Option, none, some, ◌&&◌, not, Str, str_eq, contains, if◌then◌else◌,
  length, ltb, ◌==◌,
}
use landropic.Prelude.Dict.{Dict, lookup, insert, remove}
use landropic.Index.Manifest.{ManifestEntry, Manifest, Visit, file_map, is_empty}
use landropic.Index.Merkle.{calculate_hash, le_bytes}
use landropic.Sync.Diff.{
  FileChange, DiffResult, DiffComputer, MerkleProof, Progress, no_stats, has_changes, target_loop,
  source_loop, chunk_count, transfer_total, prioritize_changes, new_computer,
}

-- What the code takes from elsewhere: the crates blake3 and hex, the orders in which maps are
-- walked, and f64's log2 followed by ceil.
pub record Env : Type 0 where
  pub blake3 : List ℕ → List ℕ
  pub hex_decode : Str → Option (List ℕ)
  pub visit : Visit
  pub visit_groups : Dict (List ManifestEntry) → List (Str × List ManifestEntry)
  pub log2_ceil : ℕ → ℕ

-- file.path.split('/').next(): what stands before the first slash.
unfoldable pub first_component : Str → Str
first_component [] = []
first_component (b ∷ bs) = let rest = first_component bs in if b == b'/' then [] else b ∷ rest

-- subtrees.entry(key).or_insert_with(Vec::new).push(file)
unfoldable pub push_group :
    Str → ManifestEntry → Dict (List ManifestEntry) → Dict (List ManifestEntry)
push_group key file groups = elim (lookup key groups) [
  | none ↦ insert key (file ∷ []) groups
  | some files ↦ insert key (files ++ file ∷ []) groups
]

unfoldable pub subtrees : Dict (List ManifestEntry) → List ManifestEntry → Dict (List ManifestEntry)
unfolding push_group first_component
subtrees groups [] = groups
subtrees groups (f ∷ fs) = subtrees (push_group (first_component f.path) f groups) fs

abbrev pub subtree_bytes : List ManifestEntry → List ℕ
subtree_bytes [] = []
subtree_bytes (f ∷ fs) = (f.path ++ (le_bytes 8 f.size ++ f.content_hash)) ++ subtree_bytes fs

module _ (env : Env) where
  abbrev pub group_hashes : List (Str × List ManifestEntry) → List (List ℕ)
  group_hashes [] = []
  group_hashes ((key, files) ∷ rest) = env.blake3 (subtree_bytes files) ∷ group_hashes rest

  unfoldable pub compute_subtree_hashes : Manifest → List (List ℕ)
  unfolding subtrees
  compute_subtree_hashes manifest = group_hashes (env.visit_groups (subtrees [] manifest.files))

  unfoldable pub calculate_tree_depth : DiffComputer → ℕ → ℕ
  calculate_tree_depth d file_count = min (env.log2_ceil file_count) d.max_merkle_depth

  -- At the two roots; equal roots need no proof.
  unfoldable pub merkle_proof_at : DiffComputer → Manifest → List ℕ → List ℕ → Option MerkleProof
  unfolding calculate_tree_depth compute_subtree_hashes
  merkle_proof_at d target source_root target_root =
      if str_eq source_root target_root
      then none
      else some (record {
        root = target_root;
        subtree_hashes = compute_subtree_hashes target;
        depth = calculate_tree_depth d (length target.files);
      })

  unfoldable pub compute_merkle_proof :
      DiffComputer → Manifest → Manifest → Option (Option MerkleProof)
  unfolding merkle_proof_at
  compute_merkle_proof d source target =
      if ltb (length source.files) 100 && ltb (length target.files) 100
      then some none
      else elim (calculate_hash env.blake3 env.hex_decode source) [
        | none ↦ none
        | some source_root ↦ elim (calculate_hash env.blake3 env.hex_decode target) [
          | none ↦ none
          | some target_root ↦ some (merkle_proof_at d target source_root target_root)
        ]
      ]

  -- The two loops, in the orders in which the maps are walked.
  unfoldable pub compute_changes : DiffComputer → Manifest → Manifest → Progress
  unfolding target_loop source_loop
  compute_changes d source target =
      let source_map = file_map source.files in
      let target_map = file_map target.files in
      let start : Progress = record { changes = []; required_chunks = []; stats = no_stats } in
      source_loop target_map (target_loop d source_map start (env.visit target_map))
        (env.visit source_map)

  -- The result before it is sorted.
  unfoldable pub assemble : Progress → Option MerkleProof → DiffResult
  assemble p proof = record {
    changes = p.changes;
    total_transfer_size = transfer_total p.changes;
    required_chunks = p.required_chunks;
    stats = record p.stats {
      unique_chunks = length p.required_chunks;
      total_chunks = chunk_count p.changes;
    };
    merkle_proof = proof;
  }

  unfoldable pub compute_diff : DiffComputer → Manifest → Manifest → Option DiffResult
  unfolding assemble prioritize_changes
  compute_diff d source target =
      let p = compute_changes d source target in
      if d.enable_merkle_proofs
      then elim (compute_merkle_proof d source target) [
        | none ↦ none
        | some proof ↦ some (prioritize_changes (assemble p proof))
      ]
      else some (prioritize_changes (assemble p none))

pub record IncrementalDiff : Type 0 where
  pub last_versions : Dict ℕ
  pub pending_changes : Dict (List FileChange)
  pub diff_computer : DiffComputer

-- IncrementalDiff::new
abbrev pub new_incremental : List Str → IncrementalDiff
new_incremental chunk_cache = record {
  last_versions = [];
  pending_changes = [];
  diff_computer = new_computer chunk_cache;
}

unfoldable pub track : IncrementalDiff → Str → ℕ → DiffResult → IncrementalDiff
track t peer_id version diff = record t {
  pending_changes =
      if has_changes diff then insert peer_id diff.changes t.pending_changes else t.pending_changes;
  last_versions = insert peer_id version t.last_versions;
}

-- The diff goes from the peer's manifest to the current one.
unfoldable pub compute_incremental :
    Env → IncrementalDiff → Str → Manifest → Manifest → Option (DiffResult × IncrementalDiff)
unfolding track
compute_incremental env t peer_id current_manifest peer_manifest =
    elim (compute_diff env t.diff_computer peer_manifest current_manifest) [
      | none ↦ none
      | some diff ↦ some (diff, track t peer_id current_manifest.version diff)
    ]

-- change.required_chunks.retain(|h| !chunk_hashes.contains(h))
unfoldable pub unacknowledged : List Str → List Str → List Str
unacknowledged chunk_hashes [] = []
unacknowledged chunk_hashes (h ∷ hs) =
    let rest = unacknowledged chunk_hashes hs in
    if not (contains chunk_hashes h) then h ∷ rest else rest

-- The loop over the pending changes, and the `retain` behind it.
unfoldable pub acknowledge_pending : List Str → List FileChange → List FileChange
unfolding unacknowledged
acknowledge_pending chunk_hashes [] = []
acknowledge_pending chunk_hashes (c ∷ cs) =
    let left = unacknowledged chunk_hashes c.required_chunks in
    let rest = acknowledge_pending chunk_hashes cs in
    if not (is_empty left) then record c { required_chunks = left } ∷ rest else rest

unfoldable pub acknowledge_changes : IncrementalDiff → Str → List Str → IncrementalDiff
unfolding acknowledge_pending
acknowledge_changes t peer_id chunk_hashes = elim (lookup peer_id t.pending_changes) [
  | none ↦ t
  | some pending ↦
      let left = acknowledge_pending chunk_hashes pending in
      record t {
        pending_changes =
            if is_empty left
            then remove peer_id t.pending_changes
            else insert peer_id left t.pending_changes;
      }
]

unfoldable pub get_pending : IncrementalDiff → Str → Option (List FileChange)
get_pending t peer_id = lookup peer_id t.pending_changes

unfoldable pub reset_peer : IncrementalDiff → Str → IncrementalDiff
reset_peer t peer_id = record t {
  last_versions = remove peer_id t.last_versions;
  pending_changes = remove peer_id t.pending_changes;
}
