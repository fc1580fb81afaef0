-- ===== src/Proto/Sessions.antt =====
-- landro-proto/src/validation.rs and a session: accepted greetings in the handlers of
-- landro-sync/src/protocol.rs.
use mathlib.Core.Path.{sym, subst, ap, ◌∙◌}
use landropic.Prelude.{
  ℕ, ◌≡◌, refl, List, [], ◌∷◌, none, some, true, false, Str, codes, str_eq, str_eq_iff, inl, inr,
  Bool-cases, arith, ◌==◌,
}
use landropic.Proto.Messages.{Hello}
use landropic.Proto.Version.{
  split, prepend, parse_u32, version_of, parse_version, is_compatible, is_our_major, ◌>>=◌,
}
use landropic.Proto.Validation.{valid, Unicode, validate_hello}
use landropic.Sync.Session.{
  ContentStore, SyncEnv, Session, initializing, failed, err, incompatible_version,
}
use landropic.Sync.Session.Handlers.{handle_hello, major_of, is_version_compatible}

-- The part before the first dot is what both version checks read.
major-split : (v : Str) → (rest : List Str) × (split b'.' v ≡ major_of v ∷ rest)
unfolding split prepend major_of
major-split [] = ([], refl)
major-split (b ∷ bs) =
    let (rest, e) = major-split bs in
    elim (Bool-cases (b == b'.')) [
      | inl cut ↦ (split b'.' bs, ground arith)
      | inr kept ↦ (rest, ground (arith, e))
    ]

one-refused : (rest : List Str) → is_our_major (version_of (codes "1" ∷ rest)) ≡ false
unfolding version_of parse_u32
one-refused [] = refl
one-refused (p ∷ []) = refl
one-refused (p ∷ q ∷ r ∷ rest) = refl
one-refused (p ∷ q ∷ []) =
    elim (parse_u32 p)
      as (λ minor.
        is_our_major
          (some 1 >>= λ major. minor >>= λ m. parse_u32 q >>= λ patch. some (major, m, patch))
        ≡ false) [
          | none ↦ refl
          | some m ↦
              elim (parse_u32 q)
                as (λ patch. is_our_major (patch >>= λ p. some (1, m, p)) ≡ false) [
                  | none ↦ refl
                  | some p' ↦ refl
                ]
        ]

is_compatible-is_version_compatible :
    (v : Str) → is_compatible v ≡ true → is_version_compatible v ≡ false
unfolding is_compatible parse_version is_version_compatible
is_compatible-is_version_compatible v e =
    let (rest, s) = major-split v in
    elim (Bool-cases (str_eq (codes "1") (major_of v))) [
      | inl one ↦
          let m : codes "1" ≡ major_of v = (str_eq_iff (codes "1") (major_of v)).0 one in
          let refused =
            subst (λ x. is_our_major (version_of (x ∷ rest)) ≡ false) m (one-refused rest) in
          let clash : true ≡ false = sym e ∙ ap (λ x. is_our_major (version_of x)) s ∙ refused in cc
      | inr other ↦ other
    ]

-- A greeting that the validation accepts is refused by a session that waits for one, whoever sends it: the
-- session fails with an incompatible version.
pub validate_hello-handle_hello :
    {C : Type 0} (u : Unicode) (env : SyncEnv) (store : ContentStore C) (now : ℕ) (m : Hello)
    (s : Session C)
    → validate_hello u m ≡ valid
    → s.state ≡ initializing
    → handle_hello env store now m s ≡ (
      err incompatible_version,
      record s { state = failed (codes "Incompatible protocol version") },
    )
unfolding validate_hello handle_hello
validate_hello-handle_hello u env store now m s v p =
    let refused = is_compatible-is_version_compatible m.version (ground arith) in
    rw (p, refused) refl
