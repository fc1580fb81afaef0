-- ===== src/Sync/Diff/Needed.antt =====
-- The chunks that changes need, and how sets and counts of them grow.
use landropic.Prelude.{
  ◌+◌, ◌≤◌, ◌≡◌, refl, List, [], ◌∷◌, ◌++◌, Bool, false, not, ◌&&◌, ◌||◌, Str, str_eq_iff, contains,
  arith, if◌then◌else◌, length,
}
use landropic.Sync.Diff.{
  FileChange, DiffComputer, find_required_chunks, compute_chunk_diff, extend, chunk_count,
  transfer_total,
}

-- Some change needs the chunk.
unfoldable pub needs : List FileChange → Str → Bool
needs [] h = false
needs (c ∷ cs) h = contains c.required_chunks h || needs cs h

pub contains-nil : (h : Str) → contains [] h ≡ false
unfolding contains
contains-nil h = refl

pub contains-extend :
    (set hs : List Str) (h : Str) → contains (extend set hs) h ≡ contains set h || contains hs h
unfolding contains extend
contains-extend set [] h = ground arith
contains-extend set (x ∷ hs) h =
    ground (arith, contains-extend (if contains set x then set else x ∷ set) hs h, str_eq_iff x h)

pub length-extend-le : (set hs : List Str) → length (extend set hs) ≤ length set + length hs
unfolding extend
length-extend-le set [] = omega arith
length-extend-le set (x ∷ hs) =
    ground (arith, length-extend-le (if contains set x then set else x ∷ set) hs)

-- A required chunk is one of the file's that is not in the cache.
pub contains-find_required_chunks :
    (d : DiffComputer) (hs : List Str) (h : Str)
    → contains (find_required_chunks d hs) h ≡ contains hs h && not (contains d.chunk_cache h)
unfolding find_required_chunks contains
contains-find_required_chunks d [] h = refl
contains-find_required_chunks d (x ∷ hs) h =
    ground (arith, contains-find_required_chunks d hs h, str_eq_iff x h)

pub contains-compute_chunk_diff :
    (d : DiffComputer) (source hs : List Str) (h : Str)
    → contains (compute_chunk_diff d source hs) h
      ≡ contains hs h && (not (contains source h) && not (contains d.chunk_cache h))
unfolding compute_chunk_diff contains
contains-compute_chunk_diff d source [] h = refl
contains-compute_chunk_diff d source (x ∷ hs) h =
    ground (arith, contains-compute_chunk_diff d source hs h, str_eq_iff x h)

pub chunk_count-append :
    (cs : List FileChange) (c : FileChange)
    → chunk_count (cs ++ c ∷ []) ≡ chunk_count cs + length c.required_chunks
unfolding chunk_count
chunk_count-append [] c = omega arith
chunk_count-append (x ∷ cs) c = omega (arith, chunk_count-append cs c)

pub transfer_total-append :
    (cs : List FileChange) (c : FileChange)
    → transfer_total (cs ++ c ∷ []) ≡ transfer_total cs + c.transfer_size
unfolding transfer_total
transfer_total-append [] c = omega arith
transfer_total-append (x ∷ cs) c = omega (arith, transfer_total-append cs c)

pub needs-append :
    (cs : List FileChange) (c : FileChange) (h : Str)
    → needs (cs ++ c ∷ []) h ≡ needs cs h || contains c.required_chunks h
unfolding needs
needs-append [] c h = ground arith
needs-append (x ∷ cs) c h = ground (arith, needs-append cs c h)
