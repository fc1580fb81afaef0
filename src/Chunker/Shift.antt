-- ===== src/Chunker/Shift.antt =====
-- The boundary search and the slices behind bytes that are put in front: positions move on by their
-- number.
use Prim.Native.Nat.{bit_and}
use mathlib.Core.Path.{fun_ext}
use landropic.Prelude.{
  ℕ, zero, suc, ◌+◌, ◌-◌, ◌≤◌, ◌<◌, min, ◌≡◌, refl, sym, ap, ◌||◌, true, false, List, [], ◌∷◌, ◌++◌,
  Option, none, some, arith, ltb, leb, ◌==◌, length, drop, get_elem?, length-append, Bool-cases,
  inl, inr,
}
use landropic.Prelude.Outcome.{Outcome, ok, panicked, exhausted, ◌>>=◌, or_panic}
use landropic.Chunker.Config.{Chunker}
use landropic.Chunker.Boundary.{window_size, push_byte, roll, init_hash, scan, find_chunk_boundary}
use landropic.Chunker.Split.{slice, chunk_end}

get_elem?-append {ℓ} :
    {A : Type ℓ} (p rest : List A) (i k : ℕ)
    → length p + i ≡ k
    → get_elem? (p ++ rest) k ≡ get_elem? rest i
get_elem?-append [] rest i k e = let e' : k ≡ i = omega arith in ap (get_elem? rest) e'
get_elem?-append (x ∷ p) rest i zero e = absurd (omega arith)
get_elem?-append (x ∷ p) rest i (suc k) e = get_elem?-append p rest i k (omega arith)

drop-append {ℓ} :
    {A : Type ℓ} (p rest : List A) (i k : ℕ) → length p + i ≡ k → drop k (p ++ rest) ≡ drop i rest
drop-append [] rest i k e = let e' : k ≡ i = omega arith in ap (λ j. drop j rest) e'
drop-append (x ∷ p) rest i zero e = absurd (omega arith)
drop-append (x ∷ p) rest i (suc k) e = drop-append p rest i k (omega arith)

-- A position is moved on by `o`.
abbrev pub moved : ℕ → Outcome ℕ → Outcome ℕ
moved o r = r >>= λ to. ok (o + to)

-- Two reads that agree, and continuations that agree up to the move.
two_reads :
    (o n : Option ℕ) (k : ℕ) (f g : ℕ → ℕ → Outcome ℕ)
    → ((a b : ℕ) → f a b ≡ moved k (g a b))
    → (or_panic o >>= λ a. or_panic n >>= λ b. f a b)
      ≡ moved k (or_panic o >>= λ a. or_panic n >>= λ b. g a b)
two_reads none n k f g h = refl
two_reads (some a) none k f g h = refl
two_reads (some a) (some b) k f g h = h a b

module _ (p rest : List ℕ) where
  init_hash-append :
      (gear : List ℕ) (rounds pos pos' hash : ℕ)
      → length p + pos ≡ pos'
      → init_hash gear (p ++ rest) rounds pos' hash ≡ init_hash gear rest rounds pos hash
  unfolding init_hash
  init_hash-append gear zero pos pos' hash e = refl
  init_hash-append gear (suc rounds) pos pos' hash e = rw (get_elem?-append p rest pos pos' e) (
      ap (◌>>=◌ (or_panic (get_elem? rest pos))) (
        fun_ext λ byte.
          init_hash-append gear rounds (pos + 1) (pos' + 1) (push_byte gear hash byte)
            (omega arith)))

  scan-append :
      (gear : List ℕ) (mask limit limit' rounds pos pos' hash : ℕ)
      → length p + pos ≡ pos'
      → length p + limit ≡ limit'
      → window_size ≤ pos
      → scan gear mask (p ++ rest) limit' rounds pos' hash
        ≡ moved (length p) (scan gear mask rest limit rounds pos hash)
  unfolding scan
  scan-append gear mask limit limit' zero pos pos' hash e f w = ap ok (sym f)
  scan-append gear mask limit limit' (suc rounds) pos pos' hash e f w =
      rw
        (
          get_elem?-append p rest pos pos' e,
          get_elem?-append p rest (pos - window_size) (pos' - window_size) (omega arith),
        )
        (two_reads (get_elem? rest (pos - window_size)) (get_elem? rest pos) (length p) _ _ λ a b.
          let next : ℕ = roll gear hash a b in
          elim (bit_and next mask == 0)
            as (λ t.
              (elim t [
                | true ↦ ok (pos' + 1)
                | false ↦ scan gear mask (p ++ rest) limit' rounds (pos' + 1) next
              ])
              ≡ moved (length p) (elim t [
                | true ↦ ok (pos + 1)
                | false ↦ scan gear mask rest limit rounds (pos + 1) next
              ])) [
                | true ↦ ap ok (omega arith)
                | false ↦
                    scan-append gear mask limit limit' rounds (pos + 1) (pos' + 1) next
                      (omega arith) f (omega arith)
              ])

  pub length_sum : length (p ++ rest) ≡ length p + length rest
  length_sum = length-append p rest

  -- The search proper, behind the two early returns.
  searched :
      (c : Chunker) (first first' end end' rounds : ℕ) (r : Outcome ℕ)
      → length p + first ≡ first'
      → length p + end ≡ end'
      → window_size ≤ first
      → (r >>= λ hash. scan c.gear_table c.mask (p ++ rest) end' rounds first' hash)
        ≡ moved (length p) (r >>= λ hash. scan c.gear_table c.mask rest end rounds first hash)
  searched c first first' end end' rounds (ok hash) e f w =
      scan-append c.gear_table c.mask end end' rounds first first' hash e f w
  searched c first first' end end' rounds panicked e f w = refl
  searched c first first' end end' rounds exhausted e f w = refl

  pub find_chunk_boundary-append :
      (c : Chunker) (start start' limit limit' : ℕ)
      → length p + start ≡ start'
      → length p + limit ≡ limit'
      → find_chunk_boundary c (p ++ rest) start' limit'
        ≡ moved (length p) (find_chunk_boundary c rest start limit)
  unfolding find_chunk_boundary
  find_chunk_boundary-append c start start' limit limit' e f =
      elim (Bool-cases (leb (length rest) start || leb limit start)) [
        | inl early ↦ ground (arith, length_sum)
        | inr on ↦
            elim (Bool-cases
              (ltb (length rest) (start + window_size) || ltb limit (start + window_size))) [
                | inl short ↦ ground (arith, length_sum)
                | inr long ↦
                    let rounds : min limit (length rest) - (start + window_size)
                        ≡ min limit' (length (p ++ rest)) - (start' + window_size) =
                      omega (arith, length_sum) in
                    ground (
                      arith,
                      length_sum,
                      rounds,
                      init_hash-append c.gear_table window_size start start' 0 e,
                      searched c (start + window_size) (start' + window_size)
                          (min limit (length rest)) (min limit' (length (p ++ rest)))
                          (min limit (length rest) - (start + window_size))
                          (init_hash c.gear_table rest window_size start 0) (omega arith)
                          (omega (arith, length_sum)) (omega arith),
                    )
              ]
      ]

  pub chunk_end-append :
      (c : Chunker) (start start' : ℕ)
      → length p + start ≡ start'
      → start < length rest
      → chunk_end c (p ++ rest) start' ≡ moved (length p) (chunk_end c rest start)
  unfolding chunk_end
  chunk_end-append c start start' e h = ground (
    arith,
    length_sum,
    find_chunk_boundary-append c (start + min c.config.min_size (length rest - start))
        (start' + min c.config.min_size (length (p ++ rest) - start'))
        (min (start + c.config.max_size) (length rest))
        (min (start' + c.config.max_size) (length (p ++ rest))) (omega (arith, length_sum))
        (omega (arith, length_sum)),
  )

  pub slice-append :
      (from from' to to' : ℕ)
      → length p + from ≡ from'
      → length p + to ≡ to'
      → slice (p ++ rest) from' to' ≡ slice rest from to
  unfolding slice
  slice-append from from' to to' e f =
      let size : to' - from' ≡ to - from = omega arith in
      ground (arith, length_sum, drop-append p rest from from' e, size)
