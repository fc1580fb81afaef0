-- ===== src/Cas/Packfile/Write.antt =====
-- What a writer has written after its chunks.
use landropic.Prelude.{
  ℕ, ◌+◌, ◌-◌, ◌^◌, ◌<◌, ◌≡◌, refl, List, [], ◌∷◌, ◌++◌, true, false, length, length-append, arith,
  ap, sym, ◌∙◌, All, All-mono, All-append, Str, str_eq, str_eq_refl, contains, ltb, ◌||◌,
}
use landropic.Cas.Packfile.{Result, ok, header, PackfileEntry, PackfileWriter, add_chunk, ◌>>=◌}
use landropic.Cas.Packfile.Entries.{append_assoc, hashes}
use landropic.Cas.Packfile.Open.{append_nil}

-- The total size of the chunks.
unfoldable pub total : List (List ℕ) → ℕ
total [] = 0
total (chunk ∷ chunks) = length chunk + total chunks

module _ (blake3 : List ℕ → Str) where
  -- Each chunk is added under its hash.
  unfoldable pub add_all : List (List ℕ) → PackfileWriter → Result PackfileWriter
  add_all [] w = ok w
  add_all (chunk ∷ chunks) w = add_chunk (blake3 chunk) chunk w >>= add_all chunks

  -- The body holds the bytes of the entry at its place.
  pub record Holds (body : List ℕ) (e : PackfileEntry) : Type 0 where
    pub before : List ℕ
    pub bytes : List ℕ
    pub after : List ℕ
    pub parts : body ≡ before ++ (bytes ++ after)
    pub placed : e.offset ≡ 26 + length before
    pub sized : e.size ≡ length bytes
    pub small : length bytes < 2 ^ 32
    pub hashed : blake3 bytes ≡ e.hash

  pub longer_parts :
      (body more : List ℕ) (e : PackfileEntry) (h : Holds body e)
      → body ++ more ≡ h.before ++ (h.bytes ++ (h.after ++ more))
  longer_parts body more e h =
      ap (λ b. b ++ more) h.parts
      ∙ append_assoc h.before (h.bytes ++ h.after) more
      ∙ ap (λ b. h.before ++ b) (append_assoc h.bytes h.after more)

  pub Holds-append :
      (body more : List ℕ) (e : PackfileEntry) → Holds body e → Holds (body ++ more) e
  Holds-append body more e h = record {
    before = h.before;
    bytes = h.bytes;
    after = h.after ++ more;
    parts = longer_parts body more e h;
    placed = h.placed;
    sized = h.sized;
    small = h.small;
    hashed = h.hashed;
  }

  -- The writer has written a header and a body that holds its entries.
  pub record Written (body : List ℕ) (w : PackfileWriter) : Type 0 where
    pub filed : w.file ≡ header 0 ++ body
    pub positioned : w.data_offset ≡ 26 + length body
    pub held : All (Holds body) w.entries

  add_chunk-Written :
      (chunk body : List ℕ) (w : PackfileWriter)
      → length chunk < 2 ^ 32
      → Written body w
      → (w' : PackfileWriter) × ((add_chunk (blake3 chunk) chunk w ≡ ok w')
          × (Written (body ++ chunk) w'
              × (w'.entries
                  ≡ w.entries
                    ++ record { hash = blake3 chunk; offset = w.data_offset; size = length chunk }
                      ∷ [])))
  unfolding add_chunk
  add_chunk-Written chunk body w small v =
      let fits : ltb (2 ^ 32 - 1) (length chunk) ≡ false = ground arith in
      let entry : PackfileEntry = record {
        hash = blake3 chunk;
        offset = w.data_offset;
        size = length chunk;
      } in
      let w' : PackfileWriter = record {
        file = w.file ++ chunk;
        entries = w.entries ++ entry ∷ [];
        data_offset = w.data_offset + length chunk;
      } in
      let here : Holds (body ++ chunk) entry = record {
        before = body;
        bytes = chunk;
        after = [];
        parts = ap (λ b. body ++ b) (sym (append_nil chunk));
        placed = v.positioned;
        sized = refl;
        small = small;
        hashed = refl;
      } in
      (
        w',
        (
          rw (fits, add_chunk) refl,
          (
            record {
              filed = ap (λ f. f ++ chunk) v.filed ∙ append_assoc (header 0) body chunk;
              positioned = omega (arith, v.positioned, length-append body chunk);
              held =
                  All-append (Holds (body ++ chunk)) w.entries (entry ∷ [])
                    (All-mono w.entries (Holds-append body chunk) v.held) (here, tt);
            },
            refl,
          ),
        ),
      )

  contains-snoc :
      (es : List PackfileEntry) (e : PackfileEntry) (hash : Str)
      → contains (hashes (es ++ e ∷ [])) hash ≡ contains (hashes es) hash || str_eq e.hash hash
  unfolding contains hashes
  contains-snoc [] e hash = ground arith
  contains-snoc (f ∷ es) e hash = ground (arith, contains-snoc es e hash)

  -- The writer after the chunks.
  pub record Filled (chunks : List (List ℕ)) (body : List ℕ) (w : PackfileWriter) (body' : List ℕ)
      (w' : PackfileWriter) : Type 0 where
    pub written : Written body' w'
    pub measured : length body' ≡ length body + total chunks
    pub counted : length w'.entries ≡ length w.entries + length chunks
    kept :
        (hash : Str)
        → contains (hashes w.entries) hash ≡ true
        → contains (hashes w'.entries) hash ≡ true
    pub listed : All (λ chunk. contains (hashes w'.entries) (blake3 chunk) ≡ true) chunks

  pub add_all-Filled :
      (chunks : List (List ℕ)) (body : List ℕ) (w : PackfileWriter)
      → All (λ chunk. length chunk < 2 ^ 32) chunks
      → Written body w
      → (w' : PackfileWriter) × ((add_all chunks w ≡ ok w')
          × ((body' : List ℕ) × Filled chunks body w body' w'))
  unfolding add_all total
  add_all-Filled [] body w small v = (
    w,
    (
      refl,
      (
        body,
        record {
          written = v;
          measured = omega arith;
          counted = omega arith;
          kept = λ hash h. h;
          listed = tt;
        },
      ),
    ),
  )
  add_all-Filled (chunk ∷ chunks) body w small v =
      let (w1, (e1, (v1, entries1))) = add_chunk-Written chunk body w small.0 v in
      let (w', (e', (body', filled))) = add_all-Filled chunks (body ++ chunk) w1 small.1 v1 in
      let entry : PackfileEntry = record {
        hash = blake3 chunk;
        offset = w.data_offset;
        size = length chunk;
      } in
      let snoc : (hash : Str)
          → contains (hashes w1.entries) hash
            ≡ contains (hashes w.entries) hash || str_eq (blake3 chunk) hash =
        λ hash.
          ap (λ es. contains (hashes es) hash) entries1 ∙ contains-snoc w.entries entry hash in
      let longer : length w1.entries ≡ length w.entries + 1 =
        ap (λ (es : List PackfileEntry). length es) entries1
        ∙ length-append w.entries (entry ∷ []) in
      (
        w',
        (
          rw e1 e',
          (
            body',
            record {
              written = filled.written;
              measured = omega (arith, filled.measured, length-append body chunk);
              counted = omega (arith, filled.counted, longer);
              kept = λ hash h. filled.kept hash (ground (arith, snoc hash, h));
              listed = (
                filled.kept (blake3 chunk)
                    (ground (arith, snoc (blake3 chunk), str_eq_refl (blake3 chunk))),
                filled.listed,
              );
            },
          ),
        ),
      )
