-- ===== src/Sync/Conflicts/Detect.antt =====
-- What `detect_conflicts` reports and stores.
use mathlib.Core.Path.{ap}
use mathlib.Core.List.{Mem, mem-cons_self, mem-cons_of_mem, append-nil, append_assoc}
use mathlib.Core.Option.{some_inj}
use landropic.Prelude.{
  ℕ, ◌≡◌, ◌⊎◌, ◌∙◌, sym, ◌++◌, refl, inl, inr, List, [], ◌∷◌, Option, none, some, true, false, not,
  ◌||◌, Str, str_eq, str_eq_iff, contains, if◌then◌else◌, arith, Bool-cases, Option-cases,
}
use landropic.Prelude.Dict.{Dict, lookup, insert, lookup-insert}
use landropic.Index.Manifest.{ManifestEntry, Manifest, file_map, is_none}
use landropic.Sync.Diff.{extend}
use landropic.Sync.Diff.Needed.{contains-extend}
use landropic.Sync.Conflicts.Resolve.{type_of}
use landropic.Sync.Conflicts.Conflicting.{Conflicting, check_file_conflict-Conflicting}
use landropic.Sync.Conflicts.{
  conflict_at, Conflict, ConflictDetector, check_file_conflict, check_path, record_conflict,
  detect_loop, detect_conflicts, keys,
}

-- What stands under a path after its check.
abbrev pub or_before : Option Conflict → Option Conflict → Option Conflict
or_before none before = before
or_before (some conflict) before = some conflict

record_conflict-lookup :
    (path k : Str) (c : Option Conflict) (cs : List Conflict) (d : ConflictDetector)
    → lookup k (record_conflict path c (cs, d)).1.detected_conflicts ≡ (
        if str_eq path k
        then or_before c (lookup k d.detected_conflicts)
        else lookup k d.detected_conflicts)
unfolding record_conflict
record_conflict-lookup path k none cs d = ground arith
record_conflict-lookup path k (some c) cs d =
    ground (arith, lookup-insert path k c d.detected_conflicts)

or_before_twice : (c b : Option Conflict) → or_before c (or_before c b) ≡ or_before c b
or_before_twice none b = refl
or_before_twice (some c) b = refl

detect_loop-lookup :
    (check : Str → Option Conflict) (paths : List Str) (k : Str)
    (found : List Conflict × ConflictDetector)
    → lookup k (detect_loop check paths found).1.detected_conflicts ≡ (
        if contains paths k
        then or_before (check k) (lookup k found.1.detected_conflicts)
        else lookup k found.1.detected_conflicts)
unfolding detect_loop contains
detect_loop-lookup check [] k found = refl
detect_loop-lookup check (path ∷ paths) k (cs, d) =
    let later = detect_loop-lookup check paths k (record_conflict path (check path) (cs, d)) in
    let here = record_conflict-lookup path k (check path) cs d in
    elim (Bool-cases (str_eq path k)) [
      | inl same ↦
          let moved : check path ≡ check k = ap check ((str_eq_iff path k).0 same) in
          ground
            (arith, later, here, moved, or_before_twice (check k) (lookup k d.detected_conflicts))
      | inr other ↦ ground (arith, later, here)
    ]

keys-lookup : (d : Dict ManifestEntry) (k : Str) → contains (keys d) k ≡ not (is_none (lookup k d))
unfolding contains lookup
keys-lookup [] k = refl
keys-lookup ((j, v) ∷ d) k = ground (arith, keys-lookup d k)

is_none-none : (o : Option ManifestEntry) → is_none o ≡ true → o ≡ none
is_none-none none p = refl
is_none-none (some a) p = cc

check_path-unknown :
    (now : Str → ℕ) (local remote : Manifest) (last : Option ℕ) (k : Str)
    → contains (keys (file_map local.files)) k ≡ false
    → contains (keys (file_map remote.files)) k ≡ false
    → check_path now local remote last k ≡ none
unfolding check_path check_file_conflict
check_path-unknown now local remote last k p q =
    let no_local =
      is_none-none (lookup k (file_map local.files))
        (ground (arith, keys-lookup (file_map local.files) k)) in
    let no_remote =
      is_none-none (lookup k (file_map remote.files))
        (ground (arith, keys-lookup (file_map remote.files) k)) in
    rw (no_local, no_remote) refl

check_path-lookup :
    (visit_paths : List Str → List Str)
    → ((set : List Str) (k : Str) → contains (visit_paths set) k ≡ contains set k)
    → (now : Str → ℕ) (local remote : Manifest) (last : Option ℕ) (d : ConflictDetector) (k : Str)
    → lookup k (detect_conflicts visit_paths now local remote last d).1.detected_conflicts
      ≡ or_before (check_path now local remote last k) (lookup k d.detected_conflicts)
unfolding detect_conflicts contains
check_path-lookup visit_paths walk now local remote last d k =
    let locals = keys (file_map local.files) in
    let remotes = keys (file_map remote.files) in
    let check = check_path now local remote last in
    let all_paths = extend (extend [] locals) remotes in
    let stored = detect_loop-lookup check (visit_paths all_paths) k ([], d) in
    let walked = walk all_paths k in
    let outer = contains-extend (extend [] locals) remotes k in
    let inner = contains-extend [] locals k in
    elim (Bool-cases (contains locals k || contains remotes k)) [
      | inl known ↦ ground (arith, stored, walked, outer, inner, known)
      | inr unknown ↦
          let unchecked =
            check_path-unknown now local remote last k (ground arith) (ground arith) in
          ground (arith, stored, walked, outer, inner, unchecked)
    ]

-- The conflicts that a walk reports, in its order.
abbrev gather : (Str → Option Conflict) → List Str → List Conflict
gather check [] = []
gather check (path ∷ paths) = elim (check path) [
  | none ↦ gather check paths
  | some c ↦ c ∷ gather check paths
]

abbrev pub paths_of : List Conflict → List Str
paths_of [] = []
paths_of (c ∷ cs) = c.file_path ∷ paths_of cs

detect_loop-gather :
    (check : Str → Option Conflict) (paths : List Str) (cs : List Conflict) (d : ConflictDetector)
    → (detect_loop check paths (cs, d)).0 ≡ cs ++ gather check paths
unfolding detect_loop record_conflict
detect_loop-gather check [] cs d = sym (append-nil cs)
detect_loop-gather check (path ∷ paths) cs d = elim (Option-cases (check path)) [
  | inl clear ↦ rw (clear, detect_loop, gather) (detect_loop-gather check paths cs d)
  | inr (c, found) ↦
      rw (found, detect_loop, gather)
        (detect_loop-gather check paths (cs ++ c ∷ [])
            (record d { detected_conflicts = insert path c d.detected_conflicts })
          ∙ append_assoc cs (c ∷ []) (gather check paths))
]

gather-Mem :
    (check : Str → Option Conflict) (paths : List Str) (k : Str) (c : Conflict)
    → check k ≡ some c
    → contains paths k ≡ true
    → Mem c (gather check paths)
unfolding contains
gather-Mem check [] k c found there = absurd cc
gather-Mem check (path ∷ paths) k c found there = elim (Bool-cases (str_eq path k)) [
  | inl same ↦
      let here : check path ≡ some c = ap check ((str_eq_iff path k).0 same) ∙ found in
      rw (here, gather) mem-cons_self
  | inr other ↦
      let later = gather-Mem check paths k c found (ground arith) in
      elim (Option-cases (check path)) [
        | inl clear ↦ rw (clear, gather) later
        | inr (c', here) ↦ rw (here, gather) (mem-cons_of_mem c' later)
      ]
]

gather-paths_of :
    (check : Str → Option Conflict) (paths : List Str) (k : Str)
    → ((path : Str) (c : Conflict) → check path ≡ some c → c.file_path ≡ path)
    → check k ≡ none
    → contains (paths_of (gather check paths)) k ≡ false
unfolding contains
gather-paths_of check [] k own clear = refl
gather-paths_of check (path ∷ paths) k own clear = elim (Option-cases (check path)) [
  | inl none_here ↦ rw (none_here, gather) (gather-paths_of check paths k own clear)
  | inr (c, found) ↦
      let elsewhere : str_eq path k ≡ false = elim (Bool-cases (str_eq path k)) [
        | inl same ↦
            let clash : some c ≡ none = sym found ∙ ap check ((str_eq_iff path k).0 same) ∙ clear in
            cc
        | inr other ↦ other
      ] in
      rw (found, gather, own path c found)
        (ground (arith, elsewhere, gather-paths_of check paths k own clear))
]

check_path-file_path :
    (now : Str → ℕ) (local remote : Manifest) (last : Option ℕ) (path : Str) (c : Conflict)
    → check_path now local remote last path ≡ some c
    → c.file_path ≡ path
unfolding check_path
check_path-file_path now local remote last path c e =
    let l = lookup path (file_map local.files) in
    let r = lookup path (file_map remote.files) in
    elim (check_file_conflict-Conflicting (now path) path l r last) [
      | inl (h, found) ↦
          let same = some_inj.0 (sym found ∙ e) in ap (λ (x : Conflict). x.file_path) (sym same)
      | inr (h, clear) ↦ let clash : none ≡ some c = sym clear ∙ e in cc
    ]

visited :
    (visit_paths : List Str → List Str)
    → ((set : List Str) (k : Str) → contains (visit_paths set) k ≡ contains set k)
    → (now : Str → ℕ) (local remote : Manifest) (last : Option ℕ) (k : Str) (c : Conflict)
    → check_path now local remote last k ≡ some c
    → contains
        (visit_paths
          (extend (extend [] (keys (file_map local.files))) (keys (file_map remote.files))))
        k
      ≡ true
unfolding contains
visited visit_paths walk now local remote last k c found =
    let locals = keys (file_map local.files) in
    let remotes = keys (file_map remote.files) in
    let walked = walk (extend (extend [] locals) remotes) k in
    let outer = contains-extend (extend [] locals) remotes k in
    let inner = contains-extend [] locals k in
    elim (Bool-cases (contains locals k || contains remotes k)) [
      | inl known ↦ ground (arith, walked, outer, inner, known)
      | inr unknown ↦
          let unchecked =
            check_path-unknown now local remote last k (ground arith) (ground arith) in
          let clash : none ≡ some c = sym unchecked ∙ found in cc
    ]

-- Over a walk of all paths, in any order: after `detect_conflicts`, a path whose two entries are in conflict has this conflict
-- stored and reported; a path whose entries are not has what was stored before, and no conflict of it is reported.
pub detect_conflicts-Conflicting :
    (visit_paths : List Str → List Str)
    → ((set : List Str) (k : Str) → contains (visit_paths set) k ≡ contains set k)
    → (now : Str → ℕ) (local remote : Manifest) (last : Option ℕ) (d : ConflictDetector) (k : Str)
    → let l = lookup k (file_map local.files) in
      let r = lookup k (file_map remote.files) in
      let c = conflict_at (now k) k (type_of l r) l r in
      let (reported, after) = detect_conflicts visit_paths now local remote last d in
      (Conflicting l r last × ((lookup k after.detected_conflicts ≡ some c) × Mem c reported))
      ⊎ (¬ (Conflicting l r last)
          × ((lookup k after.detected_conflicts ≡ lookup k d.detected_conflicts)
              × (contains (paths_of reported) k ≡ false)))
unfolding detect_conflicts check_path
detect_conflicts-Conflicting visit_paths walk now local remote last d k =
    let l = lookup k (file_map local.files) in
    let r = lookup k (file_map remote.files) in
    let check = check_path now local remote last in
    let all_paths =
      extend (extend [] (keys (file_map local.files))) (keys (file_map remote.files)) in
    let stored = check_path-lookup visit_paths walk now local remote last d k in
    let listed = detect_loop-gather check (visit_paths all_paths) [] d in
    elim (check_file_conflict-Conflicting (now k) k l r last) [
      | inl (h, found) ↦ inl (
        h,
        (
          stored ∙ ap (λ c. or_before c (lookup k d.detected_conflicts)) found,
          rw listed (
              gather-Mem check (visit_paths all_paths) k _ found
                (visited visit_paths walk now local remote last k _ found)),
        ),
      )
      | inr (h, clear) ↦ inr (
        h,
        (
          stored ∙ ap (λ c. or_before c (lookup k d.detected_conflicts)) clear,
          rw listed (
              gather-paths_of check (visit_paths all_paths) k
                (check_path-file_path now local remote last) clear),
        ),
      )
    ]
