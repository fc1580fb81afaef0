-- ===== src/Sync/Diff/Totals.antt =====
-- The totals that `compute_diff` reports, and the set of chunks that it asks for.
use landropic.Prelude.{
  IsDistinct, ℕ, suc, ◌+◌, ◌*◌, ◌≤◌, ◌≡◌, inl, inr, refl, sym, ◌∙◌, List, [], ◌∷◌, ◌++◌, Option,
  none, some, true, false, ◌&&◌, ◌||◌, Str, str_eq, contains, arith, ◌==◌, Bool-cases, length,
  length-append,
}
use landropic.Prelude.Dict.{Dict, lookup}
use landropic.Prelude.Sort.{sort_by, insert_sorted}
use landropic.Index.Manifest.{ManifestEntry, Manifest, file_map, is_empty}
use landropic.Sync.Diff.{
  FileChange, DiffResult, DiffComputer, Progress, DiffStats, change_le, prioritize_changes,
  no_stats, target_loop, source_loop, compute_chunk_diff, calculate_transfer_size,
  average_chunk_size, extend, target_step, source_step, chunk_count, transfer_total,
}
use landropic.Sync.Diff.Compute.{Env, compute_changes, assemble, compute_diff}
use landropic.Sync.Diff.Report.{compute_diff_total}
use landropic.Sync.Diff.Needed.{
  needs, chunk_count-append, contains-compute_chunk_diff, contains-extend,
  contains-find_required_chunks, contains-nil, length-extend-le, needs-append,
  transfer_total-append,
}

abbrev files_of : DiffStats → ℕ
files_of s = s.files_added + s.files_modified + s.files_deleted + s.files_metadata_only

extend-IsDistinct : (set hs : List Str) → IsDistinct set → IsDistinct (extend set hs)
unfolding extend
extend-IsDistinct set [] d = d
extend-IsDistinct set (x ∷ hs) d = elim (Bool-cases (contains set x)) [
  | inl known ↦ rw known (extend-IsDistinct set hs d)
  | inr fresh ↦ rw fresh (extend-IsDistinct (x ∷ set) hs (fresh, d))
]

-- What the loops keep.
record Tallies (d : DiffComputer) (p : Progress) : Type 0 where
  counted : files_of p.stats ≡ length p.changes
  transfer : transfer_total p.changes ≡ chunk_count p.changes * average_chunk_size
  unique : length p.required_chunks ≤ chunk_count p.changes
  distinct : IsDistinct p.required_chunks
  required : (h : Str) → contains p.required_chunks h ≡ needs p.changes h
  uncached : (h : Str) → contains p.required_chunks h ≡ true → contains d.chunk_cache h ≡ false

-- One more change, whose chunks go into the set.
Tallies-push :
    (d : DiffComputer) (p : Progress) (c : FileChange) (stats : DiffStats)
    → c.transfer_size ≡ length c.required_chunks * average_chunk_size
    → files_of stats ≡ files_of p.stats + 1
    → ((h : Str) → contains c.required_chunks h ≡ true → contains d.chunk_cache h ≡ false)
    → Tallies d p
    → Tallies d (record {
      changes = p.changes ++ c ∷ [];
      required_chunks = extend p.required_chunks c.required_chunks;
      stats = stats;
    })
Tallies-push d p c stats size files fresh t = record {
  counted = omega (arith, length-append p.changes (c ∷ []), t.counted);
  transfer =
      omega (arith, transfer_total-append p.changes c, chunk_count-append p.changes c, t.transfer);
  unique = omega (
    arith,
    chunk_count-append p.changes c,
    length-extend-le p.required_chunks c.required_chunks,
    t.unique,
  );
  distinct = extend-IsDistinct p.required_chunks c.required_chunks t.distinct;
  required = λ h. ground (
    arith,
    contains-extend p.required_chunks c.required_chunks h,
    needs-append p.changes c h,
    t.required h,
  );
  uncached = λ h e.
      ground (arith, contains-extend p.required_chunks c.required_chunks h, t.uncached h, fresh h);
}

module _ (d : DiffComputer) where
  target_step-Tallies :
      (p : Progress) (path : Str) (t : ManifestEntry) (s : Option ManifestEntry)
      → Tallies d p
      → Tallies d (target_step d p path t s)
  unfolding target_step calculate_transfer_size extend
  target_step-Tallies p path t none h =
      Tallies-push d p _ _ refl (omega arith)
        (λ x e. ground (arith, contains-find_required_chunks d t.chunk_hashes x)) h
  target_step-Tallies p path t (some s) h =
      elim (Bool-cases (str_eq s.content_hash t.content_hash)) [
        | inl same ↦ rw same h
        | inr differ ↦
            let required = compute_chunk_diff d s.chunk_hashes t.chunk_hashes in
            elim (Bool-cases (is_empty required && (s.size == t.size))) [
              | inl meta ↦
                  rw (differ, meta)
                    (Tallies-push d p _ _ refl (omega arith) (λ x e. ground (arith, contains-nil x))
                      h)
              | inr content ↦
                  rw (differ, content)
                    (Tallies-push d p _ _ refl (omega arith)
                      (λ x e.
                        ground
                          (arith, contains-compute_chunk_diff d s.chunk_hashes t.chunk_hashes x))
                      h)
            ]
      ]

  source_step-Tallies :
      (p : Progress) (path : Str) (s : ManifestEntry) (t : Option ManifestEntry)
      → Tallies d p
      → Tallies d (source_step p path s t)
  unfolding source_step extend contains
  source_step-Tallies p path s none h = Tallies-push d p _ _ refl (omega arith) (λ x e. cc) h
  source_step-Tallies p path s (some t) h = h

  target_loop-Tallies :
      (source_map : Dict ManifestEntry) (p : Progress) (l : List (Str × ManifestEntry))
      → Tallies d p
      → Tallies d (target_loop d source_map p l)
  unfolding target_loop
  target_loop-Tallies source_map p [] h = h
  target_loop-Tallies source_map p ((path, t) ∷ l) h =
      target_loop-Tallies source_map (target_step d p path t (lookup path source_map)) l
        (target_step-Tallies p path t (lookup path source_map) h)

  source_loop-Tallies :
      (target_map : Dict ManifestEntry) (p : Progress) (l : List (Str × ManifestEntry))
      → Tallies d p
      → Tallies d (source_loop target_map p l)
  unfolding source_loop
  source_loop-Tallies target_map p [] h = h
  source_loop-Tallies target_map p ((path, s) ∷ l) h =
      source_loop-Tallies target_map (source_step p path s (lookup path target_map)) l
        (source_step-Tallies p path s (lookup path target_map) h)

  start-Tallies : Tallies d (record { changes = []; required_chunks = []; stats = no_stats })
  unfolding chunk_count transfer_total contains needs
  start-Tallies = record {
    counted = refl;
    transfer = refl;
    unique = omega arith;
    distinct = tt;
    required = λ h. refl;
    uncached = λ h e. ground arith;
  }

  compute_changes-Tallies :
      (env : Env) (source target : Manifest) → Tallies d (compute_changes env d source target)
  unfolding compute_changes
  compute_changes-Tallies env source target =
      source_loop-Tallies (file_map target.files) _ (env.visit (file_map source.files)) (
        target_loop-Tallies (file_map source.files) _ (env.visit (file_map target.files))
          start-Tallies)

length-insert_sorted :
    (c : FileChange) (cs : List FileChange)
    → length (insert_sorted change_le c cs) ≡ suc (length cs)
unfolding insert_sorted
length-insert_sorted c [] = refl
length-insert_sorted c (x ∷ cs) = ground (arith, length-insert_sorted c cs)

length-sort_by : (cs : List FileChange) → length (sort_by change_le cs) ≡ length cs
unfolding sort_by
length-sort_by [] = refl
length-sort_by (c ∷ cs) =
    omega (arith, length-insert_sorted c (sort_by change_le cs), length-sort_by cs)

needs-insert_sorted :
    (c : FileChange) (cs : List FileChange) (h : Str)
    → needs (insert_sorted change_le c cs) h ≡ contains c.required_chunks h || needs cs h
unfolding insert_sorted needs
needs-insert_sorted c [] h = refl
needs-insert_sorted c (x ∷ cs) h = ground (arith, needs-insert_sorted c cs h)

needs-sort_by : (cs : List FileChange) (h : Str) → needs (sort_by change_le cs) h ≡ needs cs h
unfolding sort_by needs
needs-sort_by [] h = refl
needs-sort_by (c ∷ cs) h =
    ground (arith, needs-insert_sorted c (sort_by change_le cs) h, needs-sort_by cs h)

chunk_count-insert_sorted :
    (c : FileChange) (cs : List FileChange)
    → chunk_count (insert_sorted change_le c cs) ≡ length c.required_chunks + chunk_count cs
unfolding insert_sorted chunk_count
chunk_count-insert_sorted c [] = refl
chunk_count-insert_sorted c (x ∷ cs) = ground (arith, chunk_count-insert_sorted c cs)

chunk_count-sort_by : (cs : List FileChange) → chunk_count (sort_by change_le cs) ≡ chunk_count cs
unfolding sort_by chunk_count
chunk_count-sort_by [] = refl
chunk_count-sort_by (c ∷ cs) =
    omega (arith, chunk_count-insert_sorted c (sort_by change_le cs), chunk_count-sort_by cs)

-- The chunks that the changes need, those of several changes repeated
abbrev pub chunks_of : List FileChange → ℕ
chunks_of [] = 0
chunks_of (c ∷ cs) = length c.required_chunks + chunks_of cs

chunk_count-chunks_of : (cs : List FileChange) → chunk_count cs ≡ chunks_of cs
unfolding chunk_count
chunk_count-chunks_of [] = refl
chunk_count-chunks_of (c ∷ cs) = omega (arith, chunk_count-chunks_of cs)

-- The totals of a result, against its changes.
pub record AddsUp (d : DiffComputer) (r : DiffResult) : Type 0 where
  -- Each change is counted under one kind.
  pub files :
      r.stats.files_added + r.stats.files_modified + r.stats.files_deleted
        + r.stats.files_metadata_only
      ≡ length r.changes
  -- The bytes to transfer are 512 KB for each chunk of each change.
  pub total : r.stats.total_chunks ≡ chunks_of r.changes
  pub bytes : r.total_transfer_size ≡ chunks_of r.changes * (512 * 1024)
  -- The required chunks stand once each, and are counted.
  pub distinct : IsDistinct r.required_chunks
  pub unique : r.stats.unique_chunks ≡ length r.required_chunks
  pub at_most : r.stats.unique_chunks ≤ r.stats.total_chunks
  -- The set asks for a chunk exactly when some change needs it, and never for a cached one.
  pub required : (h : Str) → contains r.required_chunks h ≡ needs r.changes h
  pub uncached : (h : Str) → contains r.required_chunks h ≡ true → contains d.chunk_cache h ≡ false

-- `compute_diff` returns on every two manifests, and the totals of its result fit its changes: each
-- change counts under one kind, the bytes are 512 KB for each chunk of each change, and the required
-- chunks, once each and counted, are exactly what some change needs, no more of them than all changes
-- need together, none of them in the cache.
pub compute_diff-AddsUp :
    (env : Env) (d : DiffComputer) (source target : Manifest)
    → (r : DiffResult) × (compute_diff env d source target ≡ some r) × AddsUp d r
unfolding prioritize_changes assemble
compute_diff-AddsUp env d source target =
    let (proof, e) = compute_diff_total env d source target in
    let p = compute_changes env d source target in
    let t = compute_changes-Tallies d env source target in
    let counted : chunk_count p.changes ≡ chunks_of (sort_by change_le p.changes) =
      sym (chunk_count-sort_by p.changes) ∙ chunk_count-chunks_of (sort_by change_le p.changes) in
    (
      prioritize_changes (assemble env p proof),
      e,
      record {
        files = t.counted ∙ sym (length-sort_by p.changes);
        total = counted;
        bytes = omega (arith, t.transfer, counted);
        distinct = t.distinct;
        unique = refl;
        at_most = t.unique;
        required = λ h. t.required h ∙ sym (needs-sort_by p.changes h);
        uncached = t.uncached;
      },
    )
