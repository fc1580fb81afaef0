-- ===== src/Proto/Paths.antt =====
-- landro-proto/src/validation.rs: what an accepted path, file entry and manifest have.
use mathlib.Core.List.{Mem, mem-cons, not-mem-nil}
use mathlib.Core.Logic.Or
use mathlib.Core.Path.{ap, ◌∙◌}
use landropic.Prelude.{
  ℕ, ◌≤◌, ◌≡◌, refl, List, [], ◌∷◌, Bool, true, false, ◌&&◌, ◌||◌, not, Str, codes, str_eq, inl,
  inr, Bool-cases, length, arith, All, ◌≢◌, ◌++◌, ◌==◌,
}
use landropic.Proto.Messages.{FileEntry, ProtoManifest}
use landropic.Proto.Version.{split, prepend}
use landropic.Proto.Validation.{
  Checked, valid, Unicode, validate_path, has_byte, has_dots, starts_with, validate_all,
  check_hash_bytes, validate_manifest, validate_file_entry, validate_chunk_count,
}

-- No part is two dots.
abbrev pub no_dots : List Str → Bool
no_dots [] = true
no_dots (part ∷ parts) = not (str_eq part (codes "..")) && no_dots parts

abbrev first_of : List Str → Str
first_of [] = []
first_of (part ∷ parts) = part

starts_with-prepend :
    (b : ℕ) (parts : List Str)
    → starts_with b'.' (first_of (prepend b parts)) ≡ true
    → (b == b'.') ≡ true
unfolding prepend
starts_with-prepend b [] q = q
starts_with-prepend b (part ∷ parts) q = q

starts_with-split :
    (sep : ℕ) (s : Str)
    → starts_with b'.' (first_of (split sep s)) ≡ true
    → starts_with b'.' s ≡ true
unfolding split
starts_with-split sep [] p = p
starts_with-split sep (b ∷ bs) p = elim (Bool-cases (b == sep)) [
  | inl cut ↦ absurd (ground arith)
  | inr kept ↦ starts_with-prepend b (split sep bs) (ground arith)
]

no_dots-prepend :
    (b : ℕ) (parts : List Str)
    → no_dots parts ≡ true
    → ((b == b'.') && starts_with b'.' (first_of parts)) ≡ false
    → no_dots (prepend b parts) ≡ true
unfolding prepend str_eq
no_dots-prepend b [] p q = ground arith
no_dots-prepend b ([] ∷ parts) p q = ground arith
no_dots-prepend b ((c ∷ cs) ∷ parts) p q = ground arith

no_dots-split : (sep : ℕ) (s : Str) → has_dots s ≡ false → no_dots (split sep s) ≡ true
unfolding has_dots split str_eq
no_dots-split sep [] p = refl
no_dots-split sep (b ∷ bs) p =
    let later = no_dots-split sep bs (ground arith) in
    let start = starts_with-split sep bs in
    let same = no_dots-prepend b (split sep bs) later in ground (arith, later, start, same)

no_null_bytes : (path : Str) → has_byte 0 path ≡ false → All (λ b. b ≢ 0) path
unfolding has_byte
no_null_bytes [] e = tt
no_null_bytes (b ∷ bs) e = (ground (arith, e), no_null_bytes bs (ground (arith, e)))

has_dots-append : (before after : Str) → has_dots (before ++ (b'.' ∷ b'.' ∷ after)) ≡ true
unfolding has_dots
has_dots-append [] after = refl
has_dots-append (b ∷ before) after = ground (arith, has_dots-append before after)

-- A path that neither begins with a separator nor goes up: it may begin with the letter of a drive.
pub record IsRelative (path : Str) : Type 0 where
  pub short : length path ≤ 4096
  pub no_null : All (λ b. b ≢ 0) path
  pub no_slash : (rest : Str) → path ≢ b'/' ∷ rest
  pub no_backslash : (rest : Str) → path ≢ b'\\' ∷ rest
  -- No two dots stand next to each other.
  pub no_dots_inside : (before after : Str) → path ≢ before ++ (b'.' ∷ b'.' ∷ after)
  -- Neither as Unix cuts a path up nor as Windows does is a part of it the parent directory.
  pub below : (no_dots (split b'/' path) && no_dots (split b'\\' path)) ≡ true

-- A path that the validation accepts is at most 4096 bytes long, has no null byte, begins with neither a slash nor a
-- backslash and has no two dots next to each other, so that no part of it between slashes, or between backslashes, is two
-- dots. It may begin with the letter of a Windows drive.
pub validate_path-IsRelative : (path : Str) → validate_path path ≡ valid → IsRelative path
unfolding validate_path
validate_path-IsRelative path e =
    let dots : has_dots path ≡ false = ground arith in
    let relative : (starts_with b'/' path || starts_with b'\\' path) ≡ false = ground arith in
    record {
      short = ground arith;
      no_null = no_null_bytes path (ground arith);
      no_slash = λ rest same.
          let starts : starts_with b'/' path ≡ true = rw same refl in
          absurd (ground (arith, relative, starts));
      no_backslash = λ rest same.
          let starts : starts_with b'\\' path ≡ true = rw same refl in
          absurd (ground (arith, relative, starts));
      no_dots_inside = λ before after same.
          let found : has_dots path ≡ true = rw same (has_dots-append before after) in
          absurd (ground (arith, dots, found));
      below = ground (arith, no_dots-split b'/' path, no_dots-split b'\\' path);
    }

checked_set : IsSet Checked
checked_set = hlevel

validate_all-Mem {ℓ} :
    {A : Type ℓ} (check : A → Checked) (xs : List A) (x : A)
    → validate_all check xs ≡ valid
    → Mem x xs
    → check x ≡ valid
unfolding validate_all
validate_all-Mem check [] x e m = absurd (not-mem-nil m)
validate_all-Mem check (y ∷ ys) x e m =
    Or.elim (checked_set _ _) (mem-cons.0 m) (λ same. ap check same ∙ ground arith)
      (λ later. validate_all-Mem check ys x (ground arith) later)

-- What an accepted file entry has.
pub record IsClean (entry : FileEntry) : Type 0 where
  pub path : IsRelative entry.path
  pub content : length entry.content_hash ≡ 32
  pub few : length entry.chunk_hashes ≤ 100000
  pub chunks : (h : List ℕ) → Mem h entry.chunk_hashes → length h ≡ 32

-- Every file of a manifest that the validation accepts has a path as validate_path accepts it (no null byte, no separator at its
-- beginning, no two dots next to each other), hashes of 32 bytes and at most 100,000 chunks.
pub validate_manifest-IsClean :
    (u : Unicode) (m : ProtoManifest)
    → validate_manifest u m ≡ valid
    → (entry : FileEntry) → Mem entry m.files
    → IsClean entry
unfolding validate_manifest validate_file_entry validate_chunk_count
validate_manifest-IsClean u m v entry here =
    let checked : validate_file_entry entry ≡ valid =
      validate_all-Mem validate_file_entry m.files entry (ground arith) here in
    record {
      path = validate_path-IsRelative entry.path (ground arith);
      content = ground arith;
      few = ground arith;
      chunks = λ h at.
          let hash : check_hash_bytes h ≡ valid =
            validate_all-Mem check_hash_bytes entry.chunk_hashes h (ground arith) at in
          ground arith;
    }
