-- ===== src/Bloom/Compression.antt =====
-- landro-daemon/src/bloom_diff.rs, module compression. The crates bincode and zstd are parameters.
use landropic.Prelude.{
  ℕ, ltb, ◌<◌, List, [], ◌∷◌, Option, none, some, Bool, true, false, ◌&&◌, ◌==◌, ◌≡◌, refl, drop,
  length, arith,
}
use landropic.Bloom.Handler.{DiffProtocolMessage}

-- bincode::serialize and deserialize, zstd::encode_all at level 3 and decode_all; `none` is an error.
pub record Codec : Type 0 where
  pub serialize : DiffProtocolMessage → Option (List ℕ)
  pub deserialize : List ℕ → Option DiffProtocolMessage
  pub encode_all : List ℕ → Option (List ℕ)
  pub decode_all : List ℕ → Option (List ℕ)

infixl 5 ◌>>=◌
abbrev pub ◌>>=◌ {ℓ κ} : {A : Type ℓ} {B : Type κ} → Option A → (A → Option B) → Option B
none >>= f = none
some a >>= f = f a

-- data.len() > 2 && data[0] == 0xCA && data[1] == 0xFE
unfoldable pub has_header : List ℕ → Bool
has_header [] = false
has_header (a ∷ []) = false
has_header (a ∷ b ∷ rest) = ltb 2 (length (a ∷ b ∷ rest)) && (a == 202) && (b == 254)

has_header-marked : (z : ℕ) (zs : List ℕ) → has_header (202 ∷ 254 ∷ z ∷ zs) ≡ true
unfolding has_header
has_header-marked z zs = ground arith

has_header-tagged : (tag : ℕ) (rest : List ℕ) → tag < 6 → has_header (tag ∷ rest) ≡ false
unfolding has_header
has_header-tagged tag [] h = refl
has_header-tagged tag (b ∷ rest) h = ground arith

module _ (codec : Codec) where
  unfoldable pub compress_message : DiffProtocolMessage → Option (List ℕ)
  compress_message message = do
    data_ ← codec.serialize message
    compressed ← codec.encode_all data_
    some (202 ∷ 254 ∷ compressed)

  unfoldable pub decompress_message : List ℕ → Option DiffProtocolMessage
  unfolding has_header
  decompress_message bytes = elim (has_header bytes) [
    | true ↦ do decompressed ← codec.decode_all (drop 2 bytes); codec.deserialize decompressed
    | false ↦ codec.deserialize bytes
  ]

  -- A message whose bytes the codec reads back, with a tag below 6 first as bincode writes it, is read back as
  -- itself, whether its bytes were compressed or sent plain.
  pub decompress_message-compress_message :
      (message : DiffProtocolMessage) (tag z : ℕ) (rest zs : List ℕ)
      → tag < 6
      → codec.serialize message ≡ some (tag ∷ rest)
      → codec.deserialize (tag ∷ rest) ≡ some message
      → codec.encode_all (tag ∷ rest) ≡ some (z ∷ zs)
      → codec.decode_all (z ∷ zs) ≡ some (tag ∷ rest)
      → ((compress_message message >>= decompress_message) ≡ some message)
        × ((codec.serialize message >>= decompress_message) ≡ some message)
  unfolding compress_message decompress_message
  decompress_message-compress_message message tag z rest zs h s d c u =
      (rw (s, c, marked) refl, rw (s, plain) refl)
    where
      marked : decompress_message (202 ∷ 254 ∷ z ∷ zs) ≡ some message
      marked = rw (has_header-marked z zs, u, decompress_message) d

      plain : decompress_message (tag ∷ rest) ≡ some message
      plain = rw (has_header-tagged tag rest h, decompress_message) d
