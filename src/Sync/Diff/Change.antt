-- ===== src/Sync/Diff/Change.antt =====
-- The change that two entries call for, and the loops as filters of what they walk over.
use mathlib.Core.List.{
  filter_map, filter_map-cons-none, filter_map-cons-some, append_assoc, append-nil,
}
use landropic.Prelude.{
  ◌≡◌, inl, inr, refl, sym, ap, ◌∙◌, List, [], ◌∷◌, ◌++◌, Option, none, some, ◌&&◌, Str, str_eq,
  arith, if◌then◌else◌, ◌==◌, Option-cases,
}
use landropic.Prelude.Dict.{Dict, lookup}
use landropic.Index.Manifest.{ManifestEntry, is_empty}
use landropic.Sync.Diff.{
  FileChange, DiffComputer, Progress, added, modified, deleted, metadata_only, find_required_chunks,
  compute_chunk_diff, calculate_transfer_size, target_step, target_loop, source_step, source_loop,
}

-- The change that the entries of source and target under a path call for, if any.
abbrev pub change_for :
    DiffComputer → Str → Option ManifestEntry → Option ManifestEntry → Option FileChange
change_for d path none none = none
change_for d path none (some target) =
    let required = find_required_chunks d target.chunk_hashes in
    some (record {
      path = path;
      change_type = added;
      source_entry = none;
      target_entry = some target;
      required_chunks = required;
      transfer_size = calculate_transfer_size required;
    })
change_for d path (some source) none = some (record {
  path = path;
  change_type = deleted;
  source_entry = some source;
  target_entry = none;
  required_chunks = [];
  transfer_size = 0;
})
change_for d path (some source) (some target) =
    let required = compute_chunk_diff d source.chunk_hashes target.chunk_hashes in
    if str_eq source.content_hash target.content_hash
    then none
    else if is_empty required && (source.size == target.size)
    then some (record {
      path = path;
      change_type = metadata_only;
      source_entry = some source;
      target_entry = some target;
      required_chunks = [];
      transfer_size = 0;
    })
    else some (record {
      path = path;
      change_type = modified;
      source_entry = some source;
      target_entry = some target;
      required_chunks = required;
      transfer_size = calculate_transfer_size required;
    })

pub change_for-path :
    (d : DiffComputer) (path : Str) (s t : Option ManifestEntry) (c : FileChange)
    → change_for d path s t ≡ some c
    → c.path ≡ path
change_for-path d path none none c e = cc
change_for-path d path none (some t) c e = ground arith
change_for-path d path (some s) none c e = ground arith
change_for-path d path (some s) (some t) c e = ground arith

-- At most one item.
abbrev item : Option FileChange → List FileChange
item none = []
item (some c) = c ∷ []

target_step-changes :
    (d : DiffComputer) (p : Progress) (path : Str) (t : ManifestEntry) (s : Option ManifestEntry)
    → (target_step d p path t s).changes ≡ p.changes ++ item (change_for d path s (some t))
unfolding target_step
target_step-changes d p path t none = refl
target_step-changes d p path t (some s) = ground (arith, append-nil p.changes)

source_step-changes :
    (d : DiffComputer) (p : Progress) (path : Str) (s : ManifestEntry) (t : Option ManifestEntry)
    → (source_step p path s t).changes
      ≡ p.changes ++ item (elim t [ none ↦ change_for d path (some s) none | some t' ↦ none ])
unfolding source_step
source_step-changes d p path s none = refl
source_step-changes d p path s (some t) = sym (append-nil p.changes)

abbrev pub target_change :
    DiffComputer → Dict ManifestEntry → Str × ManifestEntry → Option FileChange
target_change d source_map (path, t) = change_for d path (lookup path source_map) (some t)

abbrev pub source_change :
    DiffComputer → Dict ManifestEntry → Str × ManifestEntry → Option FileChange
source_change d target_map (path, s) = elim (lookup path target_map) [
  | none ↦ change_for d path (some s) none
  | some t ↦ none
]

item-filter_map :
    (f : Str × ManifestEntry → Option FileChange) (x : Str × ManifestEntry)
    (l : List (Str × ManifestEntry))
    → item (f x) ++ filter_map f l ≡ filter_map f (x ∷ l)
item-filter_map f x l = elim (Option-cases (f x)) [
  | inl e ↦ rw (e, filter_map-cons-none f x l e) refl
  | inr (c, e) ↦ rw (e, filter_map-cons-some f x l e) refl
]

-- One round of a loop that appends, and the rounds behind it.
grow :
    (front : List FileChange) {next : List FileChange} (f : Str × ManifestEntry → Option FileChange)
    (x : Str × ManifestEntry) (l : List (Str × ManifestEntry))
    → next ≡ front ++ item (f x)
    → next ++ filter_map f l ≡ front ++ filter_map f (x ∷ l)
grow front f x l e =
    ap (λ n. n ++ filter_map f l) e
    ∙ (append_assoc front (item (f x)) (filter_map f l) ∙ ap (◌++◌ front) (item-filter_map f x l))

pub target_loop-changes :
    (d : DiffComputer) (source_map : Dict ManifestEntry) (p : Progress)
    (l : List (Str × ManifestEntry))
    → (target_loop d source_map p l).changes
      ≡ p.changes ++ filter_map (target_change d source_map) l
unfolding target_loop filter_map
target_loop-changes d source_map p [] = sym (append-nil p.changes)
target_loop-changes d source_map p ((path, t) ∷ l) =
    target_loop-changes d source_map (target_step d p path t (lookup path source_map)) l
    ∙ grow p.changes (target_change d source_map) (path, t) l
        (target_step-changes d p path t (lookup path source_map))

pub source_loop-changes :
    (d : DiffComputer) (target_map : Dict ManifestEntry) (p : Progress)
    (l : List (Str × ManifestEntry))
    → (source_loop target_map p l).changes ≡ p.changes ++ filter_map (source_change d target_map) l
unfolding source_loop filter_map
source_loop-changes d target_map p [] = sym (append-nil p.changes)
source_loop-changes d target_map p ((path, s) ∷ l) =
    source_loop-changes d target_map (source_step p path s (lookup path target_map)) l
    ∙ grow p.changes (source_change d target_map) (path, s) l
        (source_step-changes d p path s (lookup path target_map))
