-- ===== src/Sync/Recovery/Log.antt =====
-- What the recovery log holds of an operation.
use landropic.Prelude.{
  List, [], ◌∷◌, Option, none, some, true, Str, str_eq, str_eq_iff, if◌then◌else◌, ◌≡◌, refl, sym,
  ◌∙◌, arith, Bool-cases, by_test, inl, inr,
}
use mathlib.Core.Option
use landropic.Sync.Recovery.{
  Operation, LogLine, entry, blank, unreadable, update_or_append, is_incomplete,
  incomplete_operations, kept_lines, joined_lines,
}

-- The first operation with the identity
unfoldable pub find_operation : Str → List Operation → Option Operation
find_operation id [] = none
find_operation id (op ∷ ops) = if str_eq op.id id then some op else find_operation id ops

-- The first line of the operation
unfoldable pub logged : Str → List LogLine → Option Operation
logged id [] = none
logged id (blank ∷ lines) = logged id lines
logged id (unreadable text ∷ lines) = logged id lines
logged id (entry op ∷ lines) = if str_eq op.id id then some op else logged id lines

pub logged-update_or_append :
    (id : Str) (op : Operation) (lines : List LogLine)
    → logged id (update_or_append op lines) ≡ (if str_eq op.id id then some op else logged id lines)
unfolding logged update_or_append
logged-update_or_append id op [] = refl
logged-update_or_append id op (blank ∷ lines) = logged-update_or_append id op lines
logged-update_or_append id op (unreadable text ∷ lines) = logged-update_or_append id op lines
logged-update_or_append id op (entry old ∷ lines) = ground (
  arith,
  str_eq_iff old.id op.id,
  str_eq_iff op.id id,
  str_eq_iff old.id id,
  logged-update_or_append id op lines,
)

logged-kept_lines :
    (id gone : Str) (lines : List LogLine)
    → logged id (kept_lines gone lines) ≡ (if str_eq gone id then none else logged id lines)
unfolding logged kept_lines
logged-kept_lines id gone [] = ground arith
logged-kept_lines id gone (blank ∷ lines) = logged-kept_lines id gone lines
logged-kept_lines id gone (unreadable text ∷ lines) = logged-kept_lines id gone lines
logged-kept_lines id gone (entry op ∷ lines) = ground (
  arith,
  str_eq_iff op.id gone,
  str_eq_iff op.id id,
  str_eq_iff gone id,
  logged-kept_lines id gone lines,
)

logged-joined_lines :
    (id : Str) (lines : List LogLine) → logged id (joined_lines lines) ≡ logged id lines
unfolding logged joined_lines
logged-joined_lines id [] = refl
logged-joined_lines id (line ∷ lines) = refl

pub logged-removed :
    (id gone : Str) (lines : List LogLine)
    → logged id (joined_lines (kept_lines gone lines))
      ≡ (if str_eq gone id then none else logged id lines)
logged-removed id gone lines =
    logged-joined_lines id (kept_lines gone lines) ∙ logged-kept_lines id gone lines

-- An incomplete operation of the log is loaded.
pub find_operation-incomplete_operations :
    (id : Str) (op : Operation) (lines : List LogLine)
    → logged id lines ≡ some op
    → is_incomplete op.status ≡ true
    → find_operation id (incomplete_operations lines) ≡ some op
unfolding logged incomplete_operations find_operation
find_operation-incomplete_operations id op [] e h = absurd cc
find_operation-incomplete_operations id op (blank ∷ lines) e h =
    find_operation-incomplete_operations id op lines e h
find_operation-incomplete_operations id op (unreadable text ∷ lines) e h =
    find_operation-incomplete_operations id op lines e h
find_operation-incomplete_operations id op (entry old ∷ lines) e h =
    elim (Bool-cases (str_eq old.id id)) [
      | inl same ↦
          let first : some old ≡ some op = rw (sym e, same) refl in
          let loaded : is_incomplete old.status ≡ true = rw (Option.some_inj.0 first) h in
          rw (loaded, same) first
      | inr other ↦
          let later = find_operation-incomplete_operations id op lines (rw (sym e, other) refl) h in
          by_test (λ (ops : List Operation). find_operation id ops ≡ some op)
            (is_incomplete old.status) (λ loaded. rw other later) (λ skipped. later)
    ]
