-- ===== src/Sync/Conflicts/Clear.antt =====
-- What `clear_resolved_conflicts` leaves.
use mathlib.Core.Path.{subst}
use landropic.Prelude.{
  ◌≡◌, refl, inl, inr, [], ◌∷◌, Option, none, some, true, not, Str, str_eq, str_eq_iff,
  if◌then◌else◌, arith, Bool-cases, Option-cases,
}
use landropic.Prelude.Dict.{Dict, lookup, insert, lookup-insert, Distinct, insert-Distinct}
use landropic.Sync.Conflicts.{
  Conflict, ConflictDetector, mark_resolved, clear_resolved_conflicts, retain_unresolved,
}

abbrev pub if_unresolved : Option Conflict → Option Conflict
if_unresolved none = none
if_unresolved (some c) = if not c.resolved then some c else none

retain_unresolved-lookup :
    (k : Str) (d : Dict Conflict)
    → Distinct d
    → lookup k (retain_unresolved d) ≡ if_unresolved (lookup k d)
unfolding retain_unresolved lookup
retain_unresolved-lookup k [] h = refl
retain_unresolved-lookup k ((j, c) ∷ d) h = elim (Bool-cases (str_eq j k)) [
  | inl same ↦
      let gone : lookup k d ≡ none = subst (λ x. lookup x d ≡ none) ((str_eq_iff j k).0 same) h.0 in
      ground (arith, retain_unresolved-lookup k d h.1, gone, same)
  | inr other ↦ ground (arith, retain_unresolved-lookup k d h.1, other)
]

-- In a store with one conflict for each path: once a path is marked as resolved and resolved conflicts
-- are cleared, the path has no conflict, and every other has what it had if that is unresolved.
pub clear_resolved_conflicts-mark_resolved :
    (path k : Str) (d : ConflictDetector)
    → Distinct d.detected_conflicts
    → lookup k (clear_resolved_conflicts (mark_resolved path d)).detected_conflicts
      ≡ (if str_eq path k then none else if_unresolved (lookup k d.detected_conflicts))
unfolding clear_resolved_conflicts mark_resolved
clear_resolved_conflicts-mark_resolved path k d h =
    elim (Option-cases (lookup path d.detected_conflicts)) [
      | inl absent ↦ elim (Bool-cases (str_eq path k)) [
        | inl same ↦
            let gone : lookup k d.detected_conflicts ≡ none =
              subst (λ x. lookup x d.detected_conflicts ≡ none) ((str_eq_iff path k).0 same)
                absent in
            ground (arith, absent, gone, same, retain_unresolved-lookup k d.detected_conflicts h)
        | inr other ↦
            ground (arith, absent, other, retain_unresolved-lookup k d.detected_conflicts h)
      ]
      | inr (c, present) ↦
          let marked = record c { resolved = true } in
          ground (
            arith,
            present,
            lookup-insert path k marked d.detected_conflicts,
            retain_unresolved-lookup k (insert path marked d.detected_conflicts)
                (insert-Distinct path marked d.detected_conflicts h),
          )
    ]
