-- ===== src/Bloom/Members.antt =====
-- A filter answers yes for everything that was added to it.
use landropic.Prelude.{
  ℕ, zero, suc, ◌+◌, ◌/◌, ◌%◌, ◌<◌, max, ◌≡◌, refl, List, [], ◌∷◌, Bool, true, false, ◌&&◌, ◌||◌,
  Str, length, length-replicate, replicate, All, ◌==◌, ==_iff, arith, Bool-cases, inl, inr,
}
use mathlib.Core.List.{Mem, mem-cons, not-mem-nil}
use mathlib.Core.Logic.Or
use mathlib.Core.Path.{ap, ◌∙◌}
use landropic.Prelude.Outcome.{ok, Returns}
use landropic.Index.Manifest.{ManifestEntry, Manifest, total_size}
use landropic.Bloom.Filter.{
  BloomFilter, Sizing, new, bit_position, add_bits, add, contains_bits, might_contain,
  ManifestSummary, BloomEnv, add_files, from_manifest,
}
use landropic.Bloom.Bits.{IsByte, bit_at, get_bit-bit_at, set_bit-bit_at}

module _ (sip : Str → ℕ → ℕ) where
  -- Some seed hashes the item to the position.
  hits : ℕ → ℕ → ℕ → Str → ℕ → Bool
  hits zero i m item q = false
  hits (suc rounds) i m item q = (sip item i % m == q) || hits rounds (i + 1) m item q

  -- The bits of all seeds are set.
  covers : ℕ → ℕ → ℕ → Str → List ℕ → Bool
  covers zero i m item bits = true
  covers (suc rounds) i m item bits =
      bit_at bits (sip item i % m) && covers rounds (i + 1) m item bits

  abbrev Fits : ℕ → List ℕ → Type 0
  Fits m bits = (0 < m) × (length bits ≡ (m + 7) / 8) × All IsByte bits

  bit_position_lem :
      (m : ℕ) (item : Str) (i : ℕ) → 0 < m → bit_position sip m item i ≡ ok (sip item i % m)
  unfolding bit_position
  bit_position_lem m item i h = ground arith

  position-lt : (x m n : ℕ) → 0 < m → n ≡ (m + 7) / 8 → (x % m) / 8 < n
  position-lt x m n h e = let r : x % m < m = omega arith in omega arith

  add_bits-hits :
      (rounds i m : ℕ) (item : Str) (bits : List ℕ)
      → Fits m bits
      → Returns
          (λ bits'.
            Fits m bits' × ((q : ℕ) → bit_at bits' q ≡ bit_at bits q || hits rounds i m item q))
          (add_bits sip rounds i m item bits)
  unfolding add_bits hits
  add_bits-hits zero i m item bits h = (bits, refl, (h, λ q. ground arith))
  add_bits-hits (suc rounds) i m item bits (pos, len, bytes) =
      let p : ℕ = sip item i % m in
      let (bits1, e1, len1, bytes1, at1) =
        set_bit-bit_at bits p (position-lt (sip item i) m (length bits) pos len) bytes in
      let (bits2, e2, (fits2, at2)) =
        add_bits-hits rounds (i + 1) m item bits1 (pos, len1 ∙ len, bytes1) in
      (bits2, rw (bit_position_lem m item i pos, e1) e2, (fits2, λ q. ground (arith, at2 q, at1 q)))

  contains_bits-covers :
      (rounds i m : ℕ) (item : Str) (bits : List ℕ)
      → Fits m bits
      → contains_bits sip rounds i m item bits ≡ ok (covers rounds i m item bits)
  unfolding contains_bits covers
  contains_bits-covers zero i m item bits h = refl
  contains_bits-covers (suc rounds) i m item bits (pos, len, bytes) =
      let p : ℕ = sip item i % m in
      let e = get_bit-bit_at bits p (position-lt (sip item i) m (length bits) pos len) in
      let rest = contains_bits-covers rounds (i + 1) m item bits (pos, len, bytes) in
      elim (Bool-cases (bit_at bits p)) [
        | inl set ↦ rw (bit_position_lem m item i pos, e, set) rest
        | inr clear ↦ rw (bit_position_lem m item i pos, e, clear) refl
      ]

  covers-hits :
      (rounds i m : ℕ) (item : Str) (bits : List ℕ)
      → ((q : ℕ) → hits rounds i m item q ≡ true → bit_at bits q ≡ true)
      → covers rounds i m item bits ≡ true
  unfolding covers hits
  covers-hits zero i m item bits h = refl
  covers-hits (suc rounds) i m item bits h =
      let here : bit_at bits (sip item i % m) ≡ true =
        h (sip item i % m) (ground (arith, ==_iff (sip item i % m) (sip item i % m))) in
      let rest = covers-hits rounds (i + 1) m item bits (λ q k. h q (ground (arith, k))) in
      ground (arith, here, rest)

  covers_mono :
      (rounds i m : ℕ) (item : Str) (bits bits' : List ℕ)
      → ((q : ℕ) → bit_at bits q ≡ true → bit_at bits' q ≡ true)
      → covers rounds i m item bits ≡ true
      → covers rounds i m item bits' ≡ true
  unfolding covers
  covers_mono zero i m item bits bits' h c = refl
  covers_mono (suc rounds) i m item bits bits' h c =
      ground (arith, h (sip item i % m), covers_mono rounds (i + 1) m item bits bits' h)

  -- A filter of a size above zero, whose bytes are as many as its bits want.
  pub record IsSized (f : BloomFilter) : Type 0 where
    pub fits : Fits f.num_bits f.bits

  pub holds : Str → BloomFilter → Bool
  holds item f = covers f.num_hashes 0 f.num_bits item f.bits

  pub might_contain-holds :
      (item : Str) (f : BloomFilter) → IsSized f → might_contain sip item f ≡ ok (holds item f)
  unfolding might_contain holds
  might_contain-holds item f v = contains_bits-covers f.num_hashes 0 f.num_bits item f.bits v.fits

  -- The filter `g` holds the item and all that `f` holds.
  record Grown (item : Str) (f g : BloomFilter) : Type 0 where
    sized : IsSized g
    counted : g.num_elements ≡ f.num_elements + 1
    held : holds item g ≡ true
    kept : (x : Str) → holds x f ≡ true → holds x g ≡ true

  add-Grown : (item : Str) (f : BloomFilter) → IsSized f → Returns (Grown item f) (add sip item f)
  unfolding add holds
  add-Grown item f v =
      let (bits, e, (fits, at)) = add_bits-hits f.num_hashes 0 f.num_bits item f.bits v.fits in
      (
        record f { bits = bits; num_elements = f.num_elements + 1 },
        rw e refl,
        record {
          sized = record { fits = fits };
          counted = refl;
          held = covers-hits f.num_hashes 0 f.num_bits item bits (λ q h. ground (arith, at q));
          kept = λ x c.
              covers_mono f.num_hashes 0 f.num_bits x f.bits bits (λ q h. ground (arith, at q)) c;
        },
      )

  All-replicate-IsByte : (n : ℕ) → All IsByte (replicate n 0)
  All-replicate-IsByte zero = tt
  All-replicate-IsByte (suc n) = (omega arith, All-replicate-IsByte n)

  new-IsSized : (sizing : Sizing) (n : ℕ) → 0 < sizing.optimal_num_bits n → IsSized (new sizing n)
  unfolding new
  new-IsSized sizing n h = record {
    fits = (
      h,
      length-replicate ((sizing.optimal_num_bits n + 7) / 8) 0,
      All-replicate-IsByte ((sizing.optimal_num_bits n + 7) / 8),
    );
  }

module _ (env : BloomEnv) where
  -- The two filters hold the paths and the content hashes of the files.
  abbrev HoldsAll : List ManifestEntry → BloomFilter × BloomFilter → Type 0
  HoldsAll files fs =
      (file : ManifestEntry)
      → Mem file files
      → (holds env.sip file.path fs.0 ≡ true) × (holds env.sip file.content_hash fs.1 ≡ true)

  record Filled (files : List ManifestEntry) (fs gs : BloomFilter × BloomFilter) : Type 0 where
    sized : IsSized env.sip gs.0 × IsSized env.sip gs.1
    all : HoldsAll files gs
    kept : (x : Str) → holds env.sip x fs.0 ≡ true → holds env.sip x gs.0 ≡ true
    kept_hashes : (x : Str) → holds env.sip x fs.1 ≡ true → holds env.sip x gs.1 ≡ true

  bool_set : IsSet Bool
  bool_set = hlevel

  add_files-Filled :
      (files : List ManifestEntry) (f g : BloomFilter)
      → IsSized env.sip f
      → IsSized env.sip g
      → Returns (Filled files (f, g)) (add_files env files (f, g))
  unfolding add_files
  add_files-Filled [] f g v w = (
    (f, g),
    refl,
    record {
      sized = (v, w);
      all = λ file m. absurd (not-mem-nil m);
      kept = λ x h. h;
      kept_hashes = λ x h. h;
    },
  )
  add_files-Filled (file ∷ files) f g v w =
      let (f1, e1, grown) = add-Grown env.sip file.path f v in
      let (g1, e2, grown') = add-Grown env.sip file.content_hash g w in
      let (gs, e, filled) = add_files-Filled files f1 g1 grown.sized grown'.sized in
      (
        gs,
        rw (e1, e2) e,
        record {
          sized = filled.sized;
          all = λ x m. (
            Or.elim (bool_set _ _) (mem-cons.0 m)
                (λ same.
                  ap (λ (y : ManifestEntry). holds env.sip y.path gs.0) same
                  ∙ filled.kept file.path grown.held)
                (λ later. (filled.all x later).0),
            Or.elim (bool_set _ _) (mem-cons.0 m)
                (λ same.
                  ap (λ (y : ManifestEntry). holds env.sip y.content_hash gs.1) same
                  ∙ filled.kept_hashes file.content_hash grown'.held)
                (λ later. (filled.all x later).1),
          );
          kept = λ x h. filled.kept x (grown.kept x h);
          kept_hashes = λ x h. filled.kept_hashes x (grown'.kept x h);
        },
      )

  -- What the summary of a manifest promises.
  pub record Summarizes (manifest : Manifest) (s : ManifestSummary) : Type 0 where
    pub paths :
        (file : ManifestEntry)
        → Mem file manifest.files
        → might_contain env.sip file.path s.path_filter ≡ ok true
    pub hashes :
        (file : ManifestEntry)
        → Mem file manifest.files
        → might_contain env.sip file.content_hash s.hash_filter ≡ ok true
    -- A filter answers on every text.
    pub answers : (x : Str) → Returns (λ _. Unit {0}) (might_contain env.sip x s.path_filter)
    pub counted : s.file_count ≡ length manifest.files
    pub totalled : s.total_size ≡ total_size manifest

  -- Where the filters get at least one bit, the summary of every manifest is made, and its filters answer yes
  -- for the path and for the content hash of each of its files.
  pub from_manifest-Summarizes :
      (now : ℕ) (manifest : Manifest) (device_id root_path : Str)
      → 0 < env.sizing.optimal_num_bits (max (length manifest.files) 100)
      → Returns
          (λ s. Summarizes manifest s × (s.device_id ≡ device_id) × (s.root_path ≡ root_path))
          (from_manifest env now manifest device_id root_path)
  unfolding from_manifest
  from_manifest-Summarizes now manifest device_id root_path h =
      let empty = new env.sizing (max (length manifest.files) 100) in
      let v = new-IsSized env.sip env.sizing (max (length manifest.files) 100) h in
      let (gs, e, filled) = add_files-Filled manifest.files empty empty v v in
      let summary : ManifestSummary = record {
        device_id = device_id;
        root_path = root_path;
        path_filter = gs.0;
        hash_filter = gs.1;
        file_count = length manifest.files;
        total_size = total_size manifest;
        generated_at = now;
        manifest_checksum = env.checksum manifest;
      } in
      (
        summary,
        rw e refl,
        (
          record {
            paths = λ file m.
                might_contain-holds env.sip file.path gs.0 filled.sized.0
                ∙ ap ok (filled.all file m).0;
            hashes = λ file m.
                might_contain-holds env.sip file.content_hash gs.1 filled.sized.1
                ∙ ap ok (filled.all file m).1;
            answers =
                λ x. (holds env.sip x gs.0, might_contain-holds env.sip x gs.0 filled.sized.0, tt);
            counted = refl;
            totalled = refl;
          },
          refl,
          refl,
        ),
      )
