-- ===== src/Bloom/Bits.antt =====
-- Setting a bit in a byte, and in a list of bytes.
use Prim.Native.Nat.{bit_and, bit_or}
use landropic.Prelude.{
  ℕ, zero, suc, ◌+◌, ◌≤◌, ◌/◌, ◌%◌, ◌^◌, ◌<◌, ◌≡◌, ◌≢◌, refl, inl, inr, List, Option, none, some,
  Bool, true, false, not, ◌&&◌, ◌||◌, if◌then◌else◌, length, length-set, get_elem?, get_elem?-lt,
  get_elem?-set_self, get_elem?-set_ne, set, All, All-set, All-get_elem?, ltb, ◌==◌, ==_iff, arith,
  Bool-cases, ltb→lt,
}
use mathlib.Core.Path.{ap, sym, subst, ◌∙◌}
use landropic.Prelude.Outcome.{ok}
use landropic.Bloom.Filter.{set_bit, get_bit}

-- The test holds of the values `from`, `from + 1`, … as many as there are.
holds_from : (ℕ → Bool) → (from count : ℕ) → Bool
holds_from test from zero = true
holds_from test from (suc count) = if test from then holds_from test (from + 1) count else false

holds_from-at :
    (test : ℕ → Bool) (from count i : ℕ)
    → holds_from test from count ≡ true
    → from ≤ i
    → i < from + count
    → test i ≡ true
unfolding holds_from
holds_from-at test from zero i h low high = absurd (omega arith)
holds_from-at test from (suc count) i h low high = elim (Bool-cases (from == i)) [
  | inl here ↦
      let at : from ≡ i = (==_iff from i).0 here in
      let met : test from ≡ true = ground (arith, h) in subst (λ k. test k ≡ true) at met
  | inr later ↦ holds_from-at test (from + 1) count i (ground arith) (ground arith) (omega arith)
]

abbrev holds_below : ℕ → (ℕ → Bool) → Bool
holds_below count test = holds_from test 0 count

holds_below-at :
    (count : ℕ) (test : ℕ → Bool) (i : ℕ)
    → holds_below count test ≡ true
    → i < count
    → test i ≡ true
holds_below-at count test i h lt = holds_from-at test 0 count i h (omega arith) (omega arith)

abbrev has_bit : ℕ → ℕ → Bool
has_bit byte i = if bit_and byte (2 ^ i) == 0 then false else true

abbrev same : Bool → Bool → Bool
same a b = if a then b else not b

same-eq : (a b : Bool) → same a b ≡ true → a ≡ b
same-eq a b h = ground arith

or_table :
    holds_below 256 (λ byte. holds_below 8 (λ i.
      ltb (bit_or byte (2 ^ i)) 256
      && holds_below 8 (λ j. same (has_bit (bit_or byte (2 ^ i)) j) (has_bit byte j || (i == j)))))
    ≡ true
unfolding holds_from
or_table = refl

abbrev pub IsByte : ℕ → Type 0
IsByte byte = byte < 256

and_left : (a b : Bool) → (a && b) ≡ true → a ≡ true
and_left a b h = ground arith

and_right : (a b : Bool) → (a && b) ≡ true → b ≡ true
and_right a b h = ground arith

bit_or-IsByte : (byte i : ℕ) → IsByte byte → i < 8 → IsByte (bit_or byte (2 ^ i))
bit_or-IsByte byte i h k =
    ltb→lt _ _ (and_left _ _ (holds_below-at 8 _ i (holds_below-at 256 _ byte or_table h) k))

has_bit-bit_or :
    (byte i j : ℕ)
    → IsByte byte
    → i < 8
    → j < 8
    → has_bit (bit_or byte (2 ^ i)) j ≡ has_bit byte j || (i == j)
has_bit-bit_or byte i j h k l = same-eq _ _ (
    holds_below-at 8 _ j
      (and_right _ _ (holds_below-at 8 _ i (holds_below-at 256 _ byte or_table h) k)) l)

-- Is the bit set? Out of range it is not.
abbrev bit_of : Option ℕ → ℕ → Bool
bit_of none i = false
bit_of (some byte) i = has_bit byte i

abbrev pub bit_at : List ℕ → ℕ → Bool
bit_at bits p = bit_of (get_elem? bits (p / 8)) (p % 8)

position_eq : (p q : ℕ) → p / 8 ≡ q / 8 → (p == q) ≡ ((p % 8) == (q % 8))
position_eq p q h = ground arith

bit_at-some :
    (bits : List ℕ) (q byte : ℕ)
    → get_elem? bits (q / 8) ≡ some byte
    → bit_at bits q ≡ has_bit byte (q % 8)
bit_at-some bits q byte e = ap (λ o. bit_of o (q % 8)) e

-- In range, a read gives the bit, and a write sets that bit and no other.
pub get_bit-bit_at :
    (bits : List ℕ) (p : ℕ) → p / 8 < length bits → get_bit bits p ≡ ok (bit_at bits p)
unfolding get_bit
get_bit-bit_at bits p h = let (byte, e) = get_elem?-lt bits (p / 8) h in rw (e, get_bit) refl

pub set_bit-bit_at :
    (bits : List ℕ) (p : ℕ)
    → p / 8 < length bits
    → All IsByte bits
    → (bits' : List ℕ) × (set_bit bits p ≡ ok bits')
      × (length bits' ≡ length bits)
      × All IsByte bits'
      × ((q : ℕ) → bit_at bits' q ≡ bit_at bits q || (p == q))
unfolding set_bit
set_bit-bit_at bits p h bytes =
    let (byte, e) = get_elem?-lt bits (p / 8) h in
    let small : IsByte byte = All-get_elem? IsByte bits (p / 8) byte bytes e in
    let byte' = bit_or byte (2 ^ (p % 8)) in
    (
      set bits (p / 8) byte',
      rw (e, set_bit) refl,
      length-set bits (p / 8) byte',
      All-set IsByte bits (p / 8) byte' (bit_or-IsByte byte (p % 8) small (omega arith)) bytes,
      λ q. elim (Bool-cases ((p / 8) == (q / 8))) [
        | inl near ↦
            let here : p / 8 ≡ q / 8 = (==_iff (p / 8) (q / 8)).0 near in
            let before = bit_at-some bits q byte (ap (get_elem? bits) (sym here) ∙ e) in
            let after = bit_at-some (set bits (p / 8) byte') q byte' (
              ap (get_elem? (set bits (p / 8) byte')) (sym here)
              ∙ get_elem?-set_self bits (p / 8) byte' h) in
            after
            ∙ has_bit-bit_or byte (p % 8) (q % 8) small (omega arith) (omega arith)
            ∙ ap (λ b. b || ((p % 8) == (q % 8))) (sym before)
            ∙ ap (λ b. bit_at bits q || b) (sym (position_eq p q here))
        | inr far ↦
            let ne : p / 8 ≢ q / 8 = λ here. ground (arith, far) in
            ap (λ o. bit_of o (q % 8)) (get_elem?-set_ne bits (p / 8) (q / 8) byte' ne)
            ∙ ground (arith, far)
      ],
    )
