-- ===== src/Sync/Diff/Exact.antt =====
-- What `compute_diff` reports: for each path, the change that the two entries there call for.
use mathlib.Core.List.{Perm, Mem, filter_map, mem-filter_map, mem-append}
use mathlib.Core.List.Perm
use mathlib.Core.Logic.{∥∥₁_elim}
use mathlib.Core.Path.{subst}
use mathlib.Core.Logic.Or
use landropic.Prelude.{
  ◌≡◌, ◌↔◌, inl, inr, sym, List, [], ◌∷◌, ◌++◌, Option, none, some, Str, str_eq_iff, arith,
  Option-cases,
}
use landropic.Prelude.Dict.{
  Dict, lookup, lookup-insert, insert, collect, Distinct, collect-Distinct,
}
use landropic.Prelude.Walk.{mem-lookup, lookup-mem}
use landropic.Index.Manifest.{ManifestEntry, Visit, keyed, file_map}
use landropic.Index.Integrity.{entry_set}
use landropic.Sync.Diff.{FileChange, DiffComputer}
use landropic.Sync.Diff.Change.{change_for, change_for-path, target_change, source_change}

-- In a file map each entry stands under its own path.
abbrev Keyed : Dict ManifestEntry → Type 0
Keyed d = (k : Str) (v : ManifestEntry) → lookup k d ≡ some v → v.path ≡ k

collect-Keyed :
    (d : Dict ManifestEntry) (fs : List ManifestEntry) → Keyed d → Keyed (collect d (keyed fs))
unfolding collect
collect-Keyed d [] h = h
collect-Keyed d (f ∷ fs) h =
    collect-Keyed (insert f.path f d) fs
      (λ k v e. ground (arith, lookup-insert f.path k f d, h k v, str_eq_iff f.path k))

pub file_map-Keyed : (fs : List ManifestEntry) → Keyed (file_map fs)
unfolding file_map lookup
file_map-Keyed fs = collect-Keyed [] fs (λ k v e. cc)

pub file_map-Distinct : (fs : List ManifestEntry) → Distinct (file_map fs)
unfolding file_map
file_map-Distinct fs = collect-Distinct [] (keyed fs) tt

-- The order in which a map is walked passes each entry once.
abbrev pub IsWalk : Visit → Type 0
IsWalk visit = (d : Dict ManifestEntry) → Perm (visit d) d

change_set : IsSet (Option FileChange)
change_set = hlevel

module _ (d : DiffComputer) (source_map target_map : Dict ManifestEntry)
    (source_walk target_walk : List (Str × ManifestEntry))
    (source_once : Perm source_walk source_map) (target_once : Perm target_walk target_map)
    (source_distinct : Distinct source_map) (target_distinct : Distinct target_map) where
  abbrev found : List FileChange
  found =
      filter_map (target_change d source_map) target_walk
      ++ filter_map (source_change d target_map) source_walk

  abbrev Called : FileChange → Type 0
  Called c = change_for d c.path (lookup c.path source_map) (lookup c.path target_map) ≡ some c

  change_at :
      (c : FileChange) (path : Str)
      → c.path ≡ path
      → change_for d path (lookup path source_map) (lookup path target_map) ≡ some c
      → Called c
  change_at c path same e =
      subst (λ q. change_for d q (lookup q source_map) (lookup q target_map) ≡ some c) (sym same) e

  from_target :
      (c : FileChange) → Mem c (filter_map (target_change d source_map) target_walk) → Called c
  from_target c m = ∥∥₁_elim ((mem-filter_map _ target_walk).0 m) (change_set _ _) λ (x, here, e).
      let there =
        lookup-mem entry_set x.0 x.1 target_map target_distinct
          ((Perm.mem_iff target_once).0 here) in
      let path = change_for-path d x.0 (lookup x.0 source_map) (some x.1) c e in
      change_at c x.0 path (rw there e)

  from_source :
      (c : FileChange) → Mem c (filter_map (source_change d target_map) source_walk) → Called c
  from_source c m = ∥∥₁_elim ((mem-filter_map _ source_walk).0 m) (change_set _ _) λ (x, here, e).
      let there =
        lookup-mem entry_set x.0 x.1 source_map source_distinct
          ((Perm.mem_iff source_once).0 here) in
      elim (Option-cases (lookup x.0 target_map)) [
        | inl gone ↦
            let e' : change_for d x.0 (some x.1) none ≡ some c = ground (arith, e, gone) in
            let path = change_for-path d x.0 (some x.1) none c e' in
            change_at c x.0 path (rw (there, gone) e')
        | inr (t, kept) ↦ absurd (ground (arith, e, kept))
      ]

  to_target :
      (c : FileChange) (t : ManifestEntry)
      → lookup c.path target_map ≡ some t
      → Called c
      → Mem c (filter_map (target_change d source_map) target_walk)
  to_target c t there e = (mem-filter_map _ target_walk).1 ∣ (
    (c.path, t),
    (Perm.mem_iff target_once).1 (mem-lookup entry_set c.path t target_map there),
    rw there at e,
  ) ∣₁

  to_source :
      (c : FileChange) (s : ManifestEntry)
      → lookup c.path target_map ≡ none
      → lookup c.path source_map ≡ some s
      → Called c
      → Mem c (filter_map (source_change d target_map) source_walk)
  to_source c s gone there e = (mem-filter_map _ source_walk).1 ∣ (
    (c.path, s),
    (Perm.mem_iff source_once).1 (mem-lookup entry_set c.path s source_map there),
    ground (arith, e, gone, there),
  ) ∣₁

  pub found_iff : (c : FileChange) → Mem c found ↔ Called c
  found_iff c = (
    λ m. Or.elim (change_set _ _) (mem-append.0 m) (from_target c) (from_source c),
    λ e. elim (Option-cases (lookup c.path target_map)) [
      | inr (t, there) ↦ mem-append.1 (Or.inl (to_target c t there e))
      | inl gone ↦ elim (Option-cases (lookup c.path source_map)) [
        | inr (s, there) ↦ mem-append.1 (Or.inr (to_source c s gone there e))
        | inl nowhere ↦ absurd (ground (arith, e, gone, nowhere))
      ]
    ],
  )
