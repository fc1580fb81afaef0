-- ===== src/Cas/Packfile/Open.antt =====
-- A packfile as it is laid out: the header, the data, the entry table and the footer.
use landropic.Prelude.{
  ℕ, ◌+◌, ◌*◌, ◌^◌, ◌<◌, ◌≡◌, refl, List, [], ◌∷◌, ◌++◌, length, length-append, drop, arith, ap,
  ◌∙◌, All, str_eq,
}
use mathlib.Core.Path.{subst}
use landropic.Cas.Packfile.{
  ok, to_le, header, read_exact, PackfileEntry, table, write_at, ensure, table_offset, open_table,
  open_pack, packfile_magic,
}
use landropic.Cas.Packfile.Layout.{from_le-to_le8, read_exact-append, drop-append}
use landropic.Cas.Packfile.Entries.{
  IsWritable, length-table, read_entries-table, indexed, summed, append_assoc,
}

-- The whole file.
unfoldable pub packed : ℕ → List ℕ → List PackfileEntry → List ℕ → List ℕ
packed count body es footer = header count ++ (body ++ (table es ++ footer))

pub length-header : (count : ℕ) → length (header count) ≡ 26
unfolding header to_le
length-header count = refl

-- The count is written over the placeholder.
pub write_at-header :
    (count : ℕ) (rest : List ℕ)
    → write_at 18 (to_le 8 count) (header 0 ++ rest) ≡ header count ++ rest
unfolding write_at header to_le
write_at-header count rest = refl

open_pack-header :
    (count : ℕ) (rest : List ℕ)
    → count < 2 ^ 64
    → open_pack (header count ++ rest) ≡ open_table (header count ++ rest) count
unfolding open_pack open_table table_offset header to_le ensure str_eq
open_pack-header count rest h =
    let a = read_exact-append 14 packfile_magic (to_le 4 1 ++ (to_le 8 count ++ rest)) refl in
    let b = read_exact-append 4 (to_le 4 1) (to_le 8 count ++ rest) refl in
    let c = read_exact-append 8 (to_le 8 count) rest refl in
    rw (a, b, c, from_le-to_le8 count h) refl

pub append_nil : (xs : List ℕ) → xs ++ [] ≡ xs
append_nil [] = refl
append_nil (x ∷ xs) = ap (◌∷◌ x) (append_nil xs)

length-packed :
    (count : ℕ) (body : List ℕ) (es : List PackfileEntry) (footer : List ℕ)
    → All IsWritable es
    → length footer ≡ 32
    → length (packed count body es footer) ≡ 26 + length body + 44 * length es + 32
unfolding packed
length-packed count body es footer h k = omega (
  arith,
  length-append (header count) (body ++ (table es ++ footer)),
  length-append body (table es ++ footer),
  length-append (table es) footer,
  length-header count,
  length-table es h,
)

-- Behind the header and a prefix of the rest.
pub drop-header :
    (count : ℕ) (pre post : List ℕ) (pos : ℕ)
    → pos ≡ 26 + length pre
    → drop pos (header count ++ (pre ++ post)) ≡ post
drop-header count pre post pos h =
    let long : length (header count ++ pre) ≡ pos =
      omega (arith, length-append (header count) pre, length-header count) in
    let whole = append_assoc (header count) pre post in
    subst (λ k. drop k (header count ++ (pre ++ post)) ≡ post) long
      (subst (λ file. drop (length (header count ++ pre)) file ≡ post) whole
        (drop-append (header count ++ pre) post))

pub open_pack-packed :
    (body : List ℕ) (es : List PackfileEntry) (footer : List ℕ)
    → All IsWritable es
    → length footer ≡ 32
    → 26 + length body + 44 * length es + 32 < 2 ^ 64
    → open_pack (packed (length es) body es footer)
      ≡ ok (record { entries = indexed es []; total_packed_size = summed es 0 })
unfolding open_table table_offset packed
open_pack-packed body es footer h k fits =
    let count = length es in
    let small : count < 2 ^ 64 = omega arith in
    let at : table_offset (length (packed count body es footer)) count ≡ 26 + length body =
      omega (arith, length-packed count body es footer h k) in
    let rest : drop (table_offset (length (packed count body es footer)) count)
          (packed count body es footer)
        ≡ table es ++ footer =
      drop-header count body (table es ++ footer) _ at in
    let last : read_exact 32 footer ≡ ok (footer, []) =
      subst (λ xs. read_exact 32 xs ≡ ok (footer, [])) (append_nil footer)
        (read_exact-append 32 footer [] k) in
    open_pack-header count (body ++ (table es ++ footer)) small
    ∙ rw (rest, read_entries-table es footer [] 0 h, last) refl
