-- ===== src/Sync/Conflicts/Conflicting.antt =====
-- When two entries of a path are in conflict.
use landropic.Prelude.{
  ℕ, ◌≡◌, ◌≢◌, ◌<◌, ◌⊎◌, ◌∙◌, sym, refl, inl, inr, Option, none, some, true, false, ltb, ◌&&◌, Str,
  str_eq, str_eq_iff, arith, Bool-cases,
}
use landropic.Index.Manifest.{ManifestEntry}
use landropic.Sync.Conflicts.Resolve.{type_of}
use landropic.Sync.Conflicts.{conflict_at, check_file_conflict}

-- Both sides changed the content of a file after the last sync, or without a last sync have other contents; or one side
-- changed it after the last sync and the other side does not have it.
abbrev pub Conflicting : Option ManifestEntry → Option ManifestEntry → Option ℕ → Type 0
Conflicting (some l) (some r) (some last) =
    (l.content_hash ≢ r.content_hash) × ((last < l.modified_at) × (last < r.modified_at))
Conflicting (some l) (some r) none = l.content_hash ≢ r.content_hash
Conflicting (some l) none (some last) = last < l.modified_at
Conflicting none (some r) (some last) = last < r.modified_at
Conflicting (some l) none none = ⊥
Conflicting none (some r) none = ⊥
Conflicting none none last = ⊥

str_ne : (a b : Str) → str_eq a b ≡ false → a ≢ b
str_ne a b e same = let clash : true ≡ false = sym ((str_eq_iff a b).1 same) ∙ e in cc

pub check_file_conflict-Conflicting :
    (now : ℕ) (path : Str) (l r : Option ManifestEntry) (last : Option ℕ)
    → (Conflicting l r last
        × (check_file_conflict now path l r last ≡ some (conflict_at now path (type_of l r) l r)))
      ⊎ (¬ (Conflicting l r last) × (check_file_conflict now path l r last ≡ none))
unfolding check_file_conflict
check_file_conflict-Conflicting now path (some l) (some r) (some last) =
    elim (Bool-cases (str_eq l.content_hash r.content_hash)) [
      | inl same ↦
          inr (λ h. h.0 ((str_eq_iff l.content_hash r.content_hash).0 same), ground (arith, same))
      | inr other ↦ elim (Bool-cases (ltb last l.modified_at && ltb last r.modified_at)) [
        | inl late ↦ inl (
          (
            str_ne l.content_hash r.content_hash other,
            (ground (arith, late), ground (arith, late)),
          ),
          ground (arith, other, late),
        )
        | inr early ↦ inr (λ h. ground (arith, early, h.1.0, h.1.1), ground (arith, other, early))
      ]
    ]
check_file_conflict-Conflicting now path (some l) (some r) none =
    elim (Bool-cases (str_eq l.content_hash r.content_hash)) [
      | inl same ↦
          inr (λ h. h ((str_eq_iff l.content_hash r.content_hash).0 same), ground (arith, same))
      | inr other ↦ inl (str_ne l.content_hash r.content_hash other, ground (arith, other))
    ]
check_file_conflict-Conflicting now path (some l) none (some last) =
    elim (Bool-cases (ltb last l.modified_at)) [
      | inl late ↦ inl (ground (arith, late), ground (arith, late))
      | inr early ↦ inr (λ h. ground (arith, early, h), ground (arith, early))
    ]
check_file_conflict-Conflicting now path none (some r) (some last) =
    elim (Bool-cases (ltb last r.modified_at)) [
      | inl late ↦ inl (ground (arith, late), ground (arith, late))
      | inr early ↦ inr (λ h. ground (arith, early, h), ground (arith, early))
    ]
check_file_conflict-Conflicting now path (some l) none none = inr (λ e. e, refl)
check_file_conflict-Conflicting now path none (some r) none = inr (λ e. e, refl)
check_file_conflict-Conflicting now path none none last = inr (λ e. e, refl)
