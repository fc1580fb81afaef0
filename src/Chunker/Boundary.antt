-- ===== src/Chunker/Boundary.antt =====
-- landro-chunker/src/chunker.rs: `find_chunk_boundary`, the rolling hash and its scan.
-- A byte indexes the table of 256 entries by its type, so that access needs no check; an access to
-- the buffer out of bounds panics.
use Prim.Native.Nat.{bit_and}
use landropic.Prelude.{
  ℕ, zero, suc, ◌+◌, ◌-◌, ◌≤◌, ◌<◌, min, ◌≡◌, refl, sym, some, ◌||◌, true, false, List, arith, ltb,
  leb, ◌==◌, if◌then◌else◌, length, get_elem?, get_or, get_elem?-lt, Bool-cases, inl, inr,
}
use mathlib.Core.Path.{subst}
use landropic.Prelude.Outcome.{Outcome, ok, ◌>>=◌, or_panic, Returns}
use landropic.Prelude.Word.{wrapping_add, wrapping_sub, rotate_left}
use landropic.Chunker.Config.{Chunker}

abbrev pub window_size : ℕ
window_size = 48

-- hash.rotate_left(1).wrapping_add(gear_table[byte])
unfoldable pub push_byte : List ℕ → ℕ → ℕ → ℕ
push_byte gear hash byte = wrapping_add (rotate_left hash 1) (get_or gear byte 0)

-- The update of the scan: the oldest byte is taken out, then the new one pushed.
unfoldable pub roll : List ℕ → ℕ → ℕ → ℕ → ℕ
roll gear hash old_byte new_byte =
    push_byte gear (wrapping_sub hash (rotate_left (get_or gear old_byte 0) window_size)) new_byte

-- The first loop: `rounds` bytes from `pos` on.
unfoldable pub init_hash : List ℕ → List ℕ → ℕ → ℕ → ℕ → Outcome ℕ
init_hash gear bytes zero pos hash = ok hash
init_hash gear bytes (suc rounds) pos hash = do
  byte ← or_panic (get_elem? bytes pos)
  init_hash gear bytes rounds (pos + 1) (push_byte gear hash byte)

-- The second loop: `rounds` positions from `pos` on; `limit` is the answer when none matches.
unfoldable pub scan : List ℕ → ℕ → List ℕ → ℕ → ℕ → ℕ → ℕ → Outcome ℕ
scan gear mask bytes limit zero pos hash = ok limit
scan gear mask bytes limit (suc rounds) pos hash = do
  old_byte ← or_panic (get_elem? bytes (pos - window_size))
  new_byte ← or_panic (get_elem? bytes pos)
  let next = roll gear hash old_byte new_byte
  elim (bit_and next mask == 0) [
    | true ↦ ok (pos + 1)
    | false ↦ scan gear mask bytes limit rounds (pos + 1) next
  ]

unfoldable pub find_chunk_boundary : Chunker → List ℕ → ℕ → ℕ → Outcome ℕ
find_chunk_boundary c bytes start_pos max_pos =
    let len : ℕ = length bytes in
    let limit : ℕ = min max_pos len in
    if leb len start_pos || leb max_pos start_pos
    then ok limit
    else if ltb len (start_pos + window_size) || ltb max_pos (start_pos + window_size)
    then ok limit
    else do
      hash ← init_hash c.gear_table bytes window_size start_pos 0
      let first = start_pos + window_size
      scan c.gear_table c.mask bytes limit (limit - first) first hash

pub init_hash_total :
    (gear bytes : List ℕ) (rounds pos hash : ℕ)
    → pos + rounds ≤ length bytes
    → Returns (λ _. Unit {0}) (init_hash gear bytes rounds pos hash)
unfolding init_hash
init_hash_total gear bytes zero pos hash h = (hash, refl, tt)
init_hash_total gear bytes (suc rounds) pos hash h =
    let (byte, e) = get_elem?-lt bytes pos (omega arith) in
    rw e (init_hash_total gear bytes rounds (pos + 1) (push_byte gear hash byte) (omega arith))

-- One round, with the two bytes in hand.
pub scan_step :
    (gear : List ℕ) (mask : ℕ) (bytes : List ℕ) (limit rounds pos hash : ℕ) {old_byte new_byte : ℕ}
    → get_elem? bytes (pos - window_size) ≡ some old_byte
    → get_elem? bytes pos ≡ some new_byte
    → scan gear mask bytes limit (suc rounds) pos hash
      ≡ (elim (bit_and (roll gear hash old_byte new_byte) mask == 0) [
        | true ↦ ok (pos + 1)
        | false ↦ scan gear mask bytes limit rounds (pos + 1) (roll gear hash old_byte new_byte)
      ])
unfolding scan
scan_step gear mask bytes limit rounds pos hash old_e new_e = rw (old_e, new_e) refl

-- Where the positions are in range, the scan answers a position that it passed, or the limit.
scan_total :
    (gear : List ℕ) (mask : ℕ) (bytes : List ℕ) (limit rounds pos hash : ℕ)
    → pos + rounds ≤ length bytes
    → pos + rounds ≤ limit
    → window_size ≤ pos
    → Returns (λ r. (pos ≤ r) × (r ≤ limit)) (scan gear mask bytes limit rounds pos hash)
unfolding scan
scan_total gear mask bytes limit zero pos hash h k w = (limit, refl, (omega arith, omega arith))
scan_total gear mask bytes limit (suc rounds) pos hash h k w =
    let (old_byte, old_e) = get_elem?-lt bytes (pos - window_size) (omega arith) in
    let (new_byte, new_e) = get_elem?-lt bytes pos (omega arith) in
    let next : ℕ = roll gear hash old_byte new_byte in
    let (r, e, (low, high)) =
      scan_total gear mask bytes limit rounds (pos + 1) next (omega arith) (omega arith)
        (omega arith) in
    subst (Returns (λ r. (pos ≤ r) × (r ≤ limit)))
      (sym (scan_step gear mask bytes limit rounds pos hash old_e new_e))
      (elim (bit_and next mask == 0)
        as (λ b.
          Returns (λ r. (pos ≤ r) × (r ≤ limit))
            (elim b [
              | true ↦ ok (pos + 1)
              | false ↦ scan gear mask bytes limit rounds (pos + 1) next
            ])) [
              | true ↦ (pos + 1, refl, (omega arith, omega arith))
              | false ↦ (r, e, (omega arith, high))
            ])

-- Between a start inside the buffer and a limit above it, the boundary search returns, never reads
-- out of bounds, and its answer is past the start and at most the limit or the buffer's end.
pub find_chunk_boundary_total :
    (c : Chunker) (bytes : List ℕ) (start_pos max_pos : ℕ)
    → start_pos < length bytes
    → start_pos < max_pos
    → Returns
        (λ r. (start_pos < r) × (r ≤ min max_pos (length bytes)))
        (find_chunk_boundary c bytes start_pos max_pos)
unfolding find_chunk_boundary
find_chunk_boundary_total c bytes start_pos max_pos h k =
    elim (Bool-cases
      (ltb (length bytes) (start_pos + window_size) || ltb max_pos (start_pos + window_size))) [
        | inl short ↦ (min max_pos (length bytes), ground arith, (omega arith, omega arith))
        | inr long ↦
            let (hash, hash_e, _) =
              init_hash_total c.gear_table bytes window_size start_pos 0 (ground arith) in
            let (r, e, (low, high)) =
              scan_total c.gear_table c.mask bytes (min max_pos (length bytes))
                (min max_pos (length bytes) - (start_pos + window_size)) (start_pos + window_size)
                hash (ground arith) (ground arith) (ground arith) in
            (r, ground arith, (omega arith, high))
      ]
