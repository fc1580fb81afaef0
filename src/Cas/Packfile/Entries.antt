-- ===== src/Cas/Packfile/Entries.antt =====
-- The entry table, written and read back.
use landropic.Prelude.{
  ℕ, suc, ◌+◌, ◌*◌, ◌%◌, ◌^◌, ◌<◌, ◌≡◌, refl, List, [], ◌∷◌, ◌++◌, true, length, length-append,
  arith, ap, ◌∙◌, All, Str, str_eq, str_eq_iff, str_eq_refl, Bool-cases, inl, inr, some, contains,
}
use landropic.Prelude.Dict.{Dict, lookup, insert, lookup-insert}
use mathlib.Core.Path.{subst}
use landropic.Cas.Packfile.{ok, to_le, PackfileEntry, table, read_entries}
use landropic.Cas.Packfile.Layout.{length-to_le, from_le-to_le4, from_le-to_le8, read_exact-append}

-- The entry can be written: its hash has 32 bytes, its offset fits a u64 and its size a u32.
pub record IsWritable (e : PackfileEntry) : Type 0 where
  pub hash_fits : length e.hash ≡ 32
  pub offset_fits : e.offset < 2 ^ 64
  pub size_fits : e.size < 2 ^ 32

length_entry :
    (e : PackfileEntry) (bytes : List ℕ)
    → IsWritable e
    → length (e.hash ++ (to_le 8 e.offset ++ (to_le 4 e.size ++ bytes))) ≡ 44 + length bytes
length_entry e bytes h = omega (
  arith,
  length-append e.hash (to_le 8 e.offset ++ (to_le 4 e.size ++ bytes)),
  length-append (to_le 8 e.offset) (to_le 4 e.size ++ bytes),
  length-append (to_le 4 e.size) bytes,
  length-to_le 8 e.offset,
  length-to_le 4 e.size,
  h.hash_fits,
)

pub length-table :
    (es : List PackfileEntry) → All IsWritable es → length (table es) ≡ 44 * length es
unfolding table
length-table [] h = refl
length-table (e ∷ es) h =
    let rest = length-table es h.1 in
    let count : 44 + length (table es) ≡ 44 * length (e ∷ es) = omega (arith, rest) in
    length_entry e (table es) h.0 ∙ count

-- The entries as the reader keeps them.
pub indexed : List PackfileEntry → Dict PackfileEntry → Dict PackfileEntry
indexed [] d = d
indexed (e ∷ es) d = indexed es (insert e.hash e d)

pub summed : List PackfileEntry → ℕ → ℕ
summed [] n = n
summed (e ∷ es) n = summed es ((n + e.size) % 2 ^ 64)

pub append_assoc : (xs ys zs : List ℕ) → (xs ++ ys) ++ zs ≡ xs ++ (ys ++ zs)
append_assoc [] ys zs = refl
append_assoc (x ∷ xs) ys zs = ap (◌∷◌ x) (append_assoc xs ys zs)

read_entry :
    (e : PackfileEntry) (es : List PackfileEntry) (bytes : List ℕ) (d : Dict PackfileEntry) (n : ℕ)
    → IsWritable e
    → read_entries (suc (length es)) (e.hash ++ (to_le 8 e.offset ++ (to_le 4 e.size ++ bytes))) d n
      ≡ read_entries (length es) bytes (insert e.hash e d) ((n + e.size) % 2 ^ 64)
unfolding read_entries
read_entry e es bytes d n h =
    let a =
      read_exact-append 32 e.hash (to_le 8 e.offset ++ (to_le 4 e.size ++ bytes)) h.hash_fits in
    let b =
      read_exact-append 8 (to_le 8 e.offset) (to_le 4 e.size ++ bytes) (length-to_le 8 e.offset) in
    let c = read_exact-append 4 (to_le 4 e.size) bytes (length-to_le 4 e.size) in
    rw (a, b, c, from_le-to_le8 e.offset h.offset_fits, from_le-to_le4 e.size h.size_fits) refl

pub read_entries-table :
    (es : List PackfileEntry) (rest : List ℕ) (d : Dict PackfileEntry) (n : ℕ)
    → All IsWritable es
    → read_entries (length es) (table es ++ rest) d n ≡ ok (indexed es d, summed es n, rest)
unfolding read_entries table indexed summed
read_entries-table [] rest d n h = refl
read_entries-table (e ∷ es) rest d n h =
    let more = table es ++ rest in
    let a23 : (to_le 8 e.offset ++ (to_le 4 e.size ++ table es)) ++ rest
        ≡ to_le 8 e.offset ++ (to_le 4 e.size ++ (table es ++ rest)) =
      append_assoc (to_le 8 e.offset) (to_le 4 e.size ++ table es) rest
      ∙ ap (λ bytes. to_le 8 e.offset ++ bytes) (append_assoc (to_le 4 e.size) (table es) rest) in
    let a : table (e ∷ es) ++ rest
        ≡ e.hash ++ (to_le 8 e.offset ++ (to_le 4 e.size ++ (table es ++ rest))) =
      append_assoc e.hash (to_le 8 e.offset ++ (to_le 4 e.size ++ table es)) rest
      ∙ ap (λ bytes. e.hash ++ bytes) a23 in
    ap (λ bytes. read_entries (suc (length es)) bytes d n) a
    ∙ read_entry e es (table es ++ rest) d n h.0
    ∙ read_entries-table es rest (insert e.hash e d) ((n + e.size) % 2 ^ 64) h.1

-- Where a hash leads, after the entries: to one that is as it should be.
unfoldable pub Leads : (PackfileEntry → Type 0) → Str → Dict PackfileEntry → Type 0
Leads P hash d = (e : PackfileEntry) × ((lookup hash d ≡ some e) × (P e × (e.hash ≡ hash)))

insert-Leads :
    (P : PackfileEntry → Type 0) (hash : Str) (e : PackfileEntry) (d : Dict PackfileEntry)
    → P e
    → Leads P hash d
    → Leads P hash (insert e.hash e d)
unfolding Leads
insert-Leads P hash e d p (f, (found, rest)) = elim (Bool-cases (str_eq e.hash hash)) [
  | inl hit ↦
      (e, (ground (arith, lookup-insert e.hash hash e d, hit), (p, (str_eq_iff e.hash hash).0 hit)))
  | inr miss ↦ (f, (ground (arith, lookup-insert e.hash hash e d, miss, found), rest))
]

insert_self-Leads :
    (P : PackfileEntry → Type 0) (e : PackfileEntry) (d : Dict PackfileEntry)
    → P e
    → Leads P e.hash (insert e.hash e d)
unfolding Leads
insert_self-Leads P e d p =
    (e, (ground (arith, lookup-insert e.hash e.hash e d, str_eq_refl e.hash), (p, refl)))

indexed-Leads :
    (P : PackfileEntry → Type 0) (es : List PackfileEntry) (d : Dict PackfileEntry) (hash : Str)
    → All P es
    → Leads P hash d
    → Leads P hash (indexed es d)
unfolding indexed
indexed-Leads P [] d hash h l = l
indexed-Leads P (e ∷ es) d hash h l =
    indexed-Leads P es (insert e.hash e d) hash h.1 (insert-Leads P hash e d h.0 l)

unfoldable pub hashes : List PackfileEntry → List Str
hashes [] = []
hashes (e ∷ es) = e.hash ∷ hashes es

-- The hash of each entry of the table leads to an entry of the table with that hash.
pub listed-Leads :
    (P : PackfileEntry → Type 0) (es : List PackfileEntry) (d : Dict PackfileEntry) (hash : Str)
    → All P es
    → contains (hashes es) hash ≡ true
    → Leads P hash (indexed es d)
unfolding indexed contains hashes
listed-Leads P [] d hash h c = absurd cc
listed-Leads P (e ∷ es) d hash h c = elim (Bool-cases (str_eq e.hash hash)) [
  | inl hit ↦
      let same = (str_eq_iff e.hash hash).0 hit in
      indexed-Leads P es (insert e.hash e d) hash h.1
        (subst (λ k. Leads P k (insert e.hash e d)) same (insert_self-Leads P e d h.0))
  | inr miss ↦ listed-Leads P es (insert e.hash e d) hash h.1 (ground (arith, c, miss))
]
