-- ===== src/Bloom/Filter.antt =====
-- landro-daemon/src/bloom_diff.rs: BloomFilter and ManifestSummary. The crate siphasher is the
-- parameter `sip`, the hash of a text under a seed; `Sizing` holds the sizes that f64 logarithms
-- give for a rate of 1%. Reads out of bounds and a remainder by zero panic.
use Prim.Native.Nat.{bit_and, bit_or}
use landropic.Prelude.{
  ℕ, zero, suc, ◌+◌, ◌/◌, ◌%◌, ◌^◌, max, List, [], ◌∷◌, Option, none, some, Bool, true, false, Str,
  if◌then◌else◌, length, get_elem?, set, replicate, ◌==◌,
}
use landropic.Prelude.Outcome.{Outcome, ok, panicked, ◌>>=◌}
use landropic.Index.Manifest.{ManifestEntry, Manifest, total_size}

-- optimal_num_bits and optimal_num_hashes
pub record Sizing : Type 0 where
  pub optimal_num_bits : ℕ → ℕ
  pub optimal_num_hashes : ℕ → ℕ → ℕ

-- BloomFilter, without the rate that it only stores.
pub record BloomFilter : Type 0 where
  pub bits : List ℕ
  pub num_bits : ℕ
  pub num_hashes : ℕ
  pub num_elements : ℕ

unfoldable pub new : Sizing → ℕ → BloomFilter
new sizing expected_elements =
    let num_bits = sizing.optimal_num_bits expected_elements in
    record {
      bits = replicate ((num_bits + 7) / 8) 0;
      num_bits = num_bits;
      num_hashes = sizing.optimal_num_hashes num_bits expected_elements;
      num_elements = 0;
    }

-- self.bits[bit_pos / 8] |= 1 << (bit_pos % 8)
unfoldable pub set_bit : List ℕ → ℕ → Outcome (List ℕ)
set_bit bits bit_pos = elim (get_elem? bits (bit_pos / 8)) [
  | none ↦ panicked
  | some byte ↦ ok (set bits (bit_pos / 8) (bit_or byte (2 ^ (bit_pos % 8))))
]

-- self.bits[bit_pos / 8] & (1 << (bit_pos % 8)) != 0
unfoldable pub get_bit : List ℕ → ℕ → Outcome Bool
get_bit bits bit_pos = elim (get_elem? bits (bit_pos / 8)) [
  | none ↦ panicked
  | some byte ↦ ok (if bit_and byte (2 ^ (bit_pos % 8)) == 0 then false else true)
]

module _ (sip : Str → ℕ → ℕ) where
  -- hash % self.num_bits
  unfoldable pub bit_position : ℕ → Str → ℕ → Outcome ℕ
  bit_position num_bits item i = if num_bits == 0 then panicked else ok (sip item i % num_bits)

  -- The loop over the seeds, with the rounds left.
  unfoldable pub add_bits : ℕ → ℕ → ℕ → Str → List ℕ → Outcome (List ℕ)
  unfolding set_bit bit_position
  add_bits zero i num_bits item bits = ok bits
  add_bits (suc rounds) i num_bits item bits = do
    bit_pos ← bit_position num_bits item i
    bits' ← set_bit bits bit_pos
    add_bits rounds (i + 1) num_bits item bits'

  unfoldable pub add : Str → BloomFilter → Outcome BloomFilter
  unfolding add_bits
  add item f = do
    bits ← add_bits f.num_hashes 0 f.num_bits item f.bits
    ok (record f { bits = bits; num_elements = f.num_elements + 1 })

  unfoldable pub contains_bits : ℕ → ℕ → ℕ → Str → List ℕ → Outcome Bool
  unfolding get_bit bit_position
  contains_bits zero i num_bits item bits = ok true
  contains_bits (suc rounds) i num_bits item bits = do
    bit_pos ← bit_position num_bits item i
    found ← get_bit bits bit_pos
    elim found [ false ↦ ok false | true ↦ contains_bits rounds (i + 1) num_bits item bits ]

  unfoldable pub might_contain : Str → BloomFilter → Outcome Bool
  unfolding contains_bits
  might_contain item f = contains_bits f.num_hashes 0 f.num_bits item f.bits

-- `checksum` is the hash of the manifest's debug text.
pub record ManifestSummary : Type 0 where
  pub device_id : Str
  pub root_path : Str
  pub path_filter : BloomFilter
  pub hash_filter : BloomFilter
  pub file_count : ℕ
  pub total_size : ℕ
  pub generated_at : ℕ
  pub manifest_checksum : List ℕ

-- What the handler and the summaries take from elsewhere: siphasher, f64, blake3 of a debug text,
-- bincode's sizes (`none` is an error), decimal texts, and the order in which manifests are walked.
pub record BloomEnv : Type 0 where
  pub sip : Str → ℕ → ℕ
  pub sizing : Sizing
  pub checksum : Manifest → List ℕ
  pub manifest_size : Manifest → Option ℕ
  pub summary_size : ManifestSummary → Option ℕ
  pub decimal : ℕ → Str
  pub visit_manifests : List (Str × Manifest) → List (Str × Manifest)

module _ (env : BloomEnv) where
  -- The loop that fills the two filters.
  unfoldable pub add_files :
      List ManifestEntry → BloomFilter × BloomFilter → Outcome (BloomFilter × BloomFilter)
  unfolding add
  add_files [] filters = ok filters
  add_files (file ∷ files) (path_filter, hash_filter) = do
    path_filter' ← add env.sip file.path path_filter
    hash_filter' ← add env.sip file.content_hash hash_filter
    add_files files (path_filter', hash_filter')

  unfoldable pub from_manifest : ℕ → Manifest → Str → Str → Outcome ManifestSummary
  unfolding new add_files
  from_manifest now manifest device_id root_path =
      let file_count = length manifest.files in
      let empty = new env.sizing (max file_count 100) in
      do
        filters ← add_files manifest.files (empty, empty)
        ok (record {
          device_id = device_id;
          root_path = root_path;
          path_filter = filters.0;
          hash_filter = filters.1;
          file_count = file_count;
          total_size = total_size manifest;
          generated_at = now;
          manifest_checksum = env.checksum manifest;
        })
