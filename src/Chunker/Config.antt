-- ===== src/Chunker/Config.antt =====
-- landro-chunker/src/chunker.rs: `ChunkerConfig`, its validation, and `Chunker::new`.
use Prim.Native.Nat.{bit_xor}
use landropic.Prelude.{
  ℕ, zero, suc, ◌+◌, ◌-◌, ◌*◌, ◌^◌, ◌||◌, List, [], ◌∷◌, ltb, leb, ◌==◌, if◌then◌else◌,
}
use landropic.Prelude.Word.{wrapping_add, wrapping_mul, shift_left, shift_right}

pub record ChunkerConfig : Type 0 where
  pub min_size : ℕ
  pub avg_size : ℕ
  pub max_size : ℕ
  pub mask_bits : ℕ

-- The messages of `ChunkerError::InvalidConfig`, one for each check.
pub data ConfigError : Type 0 where
  min_not_below_avg avg_not_below_max min_below_limit max_above_limit mask_bits_out_of_range :
      ConfigError

pub data Result {ℓ} (A : Type ℓ) : Type ℓ where
  ok : A → Result A
  err : ConfigError → Result A

infixl 5 ◌>>=◌
abbrev pub ◌>>=◌ {ℓ κ} : {A : Type ℓ} {B : Type κ} → Result A → (A → Result B) → Result B
ok a >>= f = f a
err e >>= f = err e

abbrev pub default_config : ChunkerConfig
default_config = record {
  min_size = 256 * 1024;
  avg_size = 1024 * 1024;
  max_size = 4 * 1024 * 1024;
  mask_bits = 20;
}

abbrev pub min_chunk_size : ℕ
min_chunk_size = 256

abbrev pub max_chunk_size : ℕ
max_chunk_size = 16 * 1024 * 1024

unfoldable pub validate : ChunkerConfig → Result (Unit {0})
validate c =
    if leb c.avg_size c.min_size
    then err min_not_below_avg
    else if leb c.max_size c.avg_size
    then err avg_not_below_max
    else if ltb c.min_size min_chunk_size
    then err min_below_limit
    else if ltb max_chunk_size c.max_size
    then err max_above_limit
    else if (c.mask_bits == 0) || ltb 32 c.mask_bits
    then err mask_bits_out_of_range
    else ok tt

-- One round of the xorshift generator.
xorshift : ℕ → ℕ
xorshift state =
    let a : ℕ = bit_xor state (shift_left state 13) in
    let b : ℕ = bit_xor a (shift_right a 7) in bit_xor b (shift_left b 17)

-- `rounds` entries of the table from index `i` on.
gear_from : ℕ → ℕ → ℕ → List ℕ
unfolding xorshift
gear_from zero i state = []
gear_from (suc rounds) i state =
    let next : ℕ = xorshift state in
    wrapping_add next (wrapping_mul i 0x517c_c1b7_2722_0a95) ∷ gear_from rounds (i + 1) next

unfoldable pub generate_gear_table : List ℕ
unfolding gear_from
generate_gear_table = gear_from 256 0 0x45aa_bbcc_ddee_ff00

pub record Chunker : Type 0 where
  pub config : ChunkerConfig
  pub mask : ℕ
  pub gear_table : List ℕ

unfoldable pub new : ChunkerConfig → Result Chunker
unfolding validate
new config = do
  _ ← validate config
  ok (record { config = config; mask = 2 ^ config.mask_bits - 1; gear_table = generate_gear_table })
