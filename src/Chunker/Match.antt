-- ===== src/Chunker/Match.antt =====
-- What the scan finds: the first position at which the rolling hash matches the mask.
use Prim.Native.Nat.{bit_and}
use mathlib.Core.Path.{subst}
use landropic.Prelude.{
  ℕ, zero, suc, ◌+◌, ◌-◌, ◌≤◌, ◌<◌, min, ◌≡◌, refl, ap, ◌∙◌, ◌⊎◌, inl, inr, ◌||◌, true, false, List,
  [], ◌∷◌, some, arith, ltb, leb, ◌==◌, length, get_elem?, get_or, get_elem?-lt, Bool-cases,
}
use landropic.Prelude.Outcome.{ok, Returns}
use landropic.Chunker.Config.{Chunker}
use landropic.Chunker.Boundary.{
  window_size, push_byte, roll, init_hash, scan, scan_step, find_chunk_boundary,
}

-- The hash of the `n` bytes from `start` on, from the empty hash: the newest byte comes last.
unfoldable pub hash_of : List ℕ → List ℕ → ℕ → ℕ → ℕ
hash_of gear bytes start zero = 0
hash_of gear bytes start (suc n) =
    push_byte gear (hash_of gear bytes start n) (get_or bytes (start + n) 0)

-- The hash after `n` steps of the window that begins at `start`.
unfoldable pub rolled : List ℕ → List ℕ → ℕ → ℕ → ℕ
rolled gear bytes start zero = hash_of gear bytes start window_size
rolled gear bytes start (suc n) =
    roll gear (rolled gear bytes start n) (get_or bytes (start + n) 0)
      (get_or bytes (start + window_size + n) 0)

-- The position `start + window_size + n` is a match.
abbrev pub Matches : Chunker → List ℕ → ℕ → ℕ → Type 0
Matches c bytes start n = bit_and (rolled c.gear_table bytes start (suc n)) c.mask ≡ 0

-- The answer `to` of a search from `start` up to `limit`: just past the first match, or the limit
-- when no position below it matches.
pub data FirstMatch (c : Chunker) (bytes : List ℕ) (start limit to : ℕ) : Type 0 where
  found :
      (n : ℕ)
      → to ≡ suc (start + window_size + n)
      → to ≤ limit
      → Matches c bytes start n
      → ((m : ℕ) → m < n → ¬ Matches c bytes start m)
      → FirstMatch c bytes start limit to
  none_found :
      to ≡ limit
      → ((m : ℕ) → start + window_size + m < limit → ¬ Matches c bytes start m)
      → FirstMatch c bytes start limit to

get_or-some : (xs : List ℕ) (i : ℕ) {a : ℕ} → get_elem? xs i ≡ some a → get_or xs i 0 ≡ a
get_or-some [] i e = ground arith
get_or-some (x ∷ xs) zero e = ground arith
get_or-some (x ∷ xs) (suc i) e = get_or-some xs i e

init_hash-hash_of :
    (gear bytes : List ℕ) (start done rounds all pos : ℕ)
    → done + rounds ≡ all
    → start + done ≡ pos
    → pos + rounds ≤ length bytes
    → init_hash gear bytes rounds pos (hash_of gear bytes start done)
      ≡ ok (hash_of gear bytes start all)
unfolding init_hash
init_hash-hash_of gear bytes start done zero all pos e f h =
    let same : done ≡ all = omega arith in ap (λ n. ok (hash_of gear bytes start n)) same
init_hash-hash_of gear bytes start done (suc rounds) all pos e f h =
    let (byte, byte_e) = get_elem?-lt bytes pos (omega arith) in
    let ih =
      init_hash-hash_of gear bytes start (suc done) rounds all (pos + 1) (omega arith) (omega arith)
        (omega arith) in
    let read : get_or bytes (start + done) 0 ≡ byte = rw f (get_or-some bytes pos byte_e) in
    let pushed : push_byte gear (hash_of gear bytes start done) byte
        ≡ hash_of gear bytes start (suc done) =
      unfold hash_of in rw read in
    rw (byte_e) (ap (init_hash gear bytes rounds (pos + 1)) pushed ∙ ih)

lt_cases : (m n : ℕ) → m < suc n → (m < n) ⊎ (m ≡ n)
lt_cases m n h = grind arith

no_earlier :
    (c : Chunker) (bytes : List ℕ) (start n : ℕ)
    → ((m : ℕ) → m < n → ¬ Matches c bytes start m)
    → ¬ Matches c bytes start n
    → (m : ℕ) → m < suc n
    → ¬ Matches c bytes start m
no_earlier c bytes start n earlier here m h hit = elim (lt_cases m n h) [
  | inl less ↦ earlier m less hit
  | inr same ↦ here (subst (Matches c bytes start) same hit)
]

-- One round of the scan, at the hash that the window has there.
scan_round :
    (c : Chunker) (bytes : List ℕ) (start limit rounds n pos : ℕ)
    → start + window_size + n ≡ pos
    → pos < length bytes
    → scan c.gear_table c.mask bytes limit (suc rounds) pos (rolled c.gear_table bytes start n)
      ≡ (elim (bit_and (rolled c.gear_table bytes start (suc n)) c.mask == 0) [
        | true ↦ ok (pos + 1)
        | false ↦
            scan c.gear_table c.mask bytes limit rounds
              (pos + 1)
              (rolled c.gear_table bytes start (suc n))
      ])
scan_round c bytes start limit rounds n pos e h =
    let (old_byte, old_e) = get_elem?-lt bytes (pos - window_size) (omega arith) in
    let (new_byte, new_e) = get_elem?-lt bytes pos h in
    let place : pos - window_size ≡ start + n = omega arith in
    let old : get_or bytes (start + n) 0 ≡ old_byte =
      rw (← place) (get_or-some bytes (pos - window_size) old_e) in
    let new : get_or bytes (start + window_size + n) 0 ≡ new_byte =
      rw e (get_or-some bytes pos new_e) in
    let stepped : roll c.gear_table (rolled c.gear_table bytes start n) old_byte new_byte
        ≡ rolled c.gear_table bytes start (suc n) =
      unfold rolled in rw (old, new) in
    scan_step c.gear_table c.mask bytes limit rounds pos (rolled c.gear_table bytes start n) old_e
      new_e
    ∙ ap
        (λ next. elim (bit_and next c.mask == 0) [
          | true ↦ ok (pos + 1)
          | false ↦ scan c.gear_table c.mask bytes limit rounds (pos + 1) next
        ])
        stepped

scan-FirstMatch :
    (c : Chunker) (bytes : List ℕ) (start limit rounds n pos : ℕ)
    → start + window_size + n ≡ pos
    → pos + rounds ≡ limit
    → limit ≤ length bytes
    → ((m : ℕ) → m < n → ¬ Matches c bytes start m)
    → Returns
        (FirstMatch c bytes start limit)
        (scan c.gear_table c.mask bytes limit rounds pos (rolled c.gear_table bytes start n))
unfolding scan
scan-FirstMatch c bytes start limit zero n pos e f h earlier =
    (limit, refl, none_found refl (λ m lt. earlier m (omega arith)))
scan-FirstMatch c bytes start limit (suc rounds) n pos e f h earlier =
    let round = scan_round c bytes start limit rounds n pos e (omega arith) in
    elim (Bool-cases (bit_and (rolled c.gear_table bytes start (suc n)) c.mask == 0)) [
      | inl hit ↦
          (pos + 1, round ∙ rw hit refl, found n (omega arith) (omega arith) (ground arith) earlier)
      | inr miss ↦
          let (to, e', first) =
            scan-FirstMatch c bytes start limit rounds (suc n) (pos + 1) (omega arith) (omega arith)
              h (no_earlier c bytes start n earlier (λ hit. ground arith)) in
          (to, round ∙ rw miss e', first)
    ]

hash_of_zero : (gear bytes : List ℕ) (start : ℕ) → hash_of gear bytes start 0 ≡ 0
unfolding hash_of
hash_of_zero gear bytes start = refl

rolled_zero :
    (gear bytes : List ℕ) (start : ℕ)
    → rolled gear bytes start 0 ≡ hash_of gear bytes start window_size
unfolding rolled
rolled_zero gear bytes start = refl

-- The search from `start_pos` up to `max_pos` returns, and its answer is just past the first
-- position whose rolling hash has no bit of the mask; where none has, or the window does not fit
-- below the limit, the answer is the limit: `max_pos`, or the end of the buffer before it.
pub find_chunk_boundary-FirstMatch :
    (c : Chunker) (bytes : List ℕ) (start_pos max_pos : ℕ)
    → Returns
        (FirstMatch c bytes start_pos (min max_pos (length bytes)))
        (find_chunk_boundary c bytes start_pos max_pos)
unfolding find_chunk_boundary
find_chunk_boundary-FirstMatch c bytes start_pos max_pos =
    elim (Bool-cases (leb (length bytes) start_pos || leb max_pos start_pos)) [
      | inl early ↦ (limit, ground arith, none_found refl (λ m lt. absurd (ground arith)))
      | inr on ↦
          elim (Bool-cases (
            ltb (length bytes) (start_pos + window_size)
            || ltb max_pos (start_pos + window_size))) [
              | inl short ↦ (limit, ground arith, none_found refl (λ m lt. absurd (ground arith)))
              | inr long ↦
                  let init =
                    init_hash-hash_of c.gear_table bytes start_pos 0 window_size window_size
                      start_pos (omega arith) (omega arith) (ground arith) in
                  let (to, e, first) =
                    scan-FirstMatch c bytes start_pos limit (limit - (start_pos + window_size)) 0
                      (start_pos + window_size) (omega arith) (ground arith) (omega arith)
                      (λ m lt. absurd (omega arith)) in
                  (
                    to,
                    ground (
                      arith,
                      init,
                      e,
                      hash_of_zero c.gear_table bytes start_pos,
                      rolled_zero c.gear_table bytes start_pos,
                    ),
                    first,
                  )
            ]
    ]
  where
    limit : ℕ
    limit = min max_pos (length bytes)
