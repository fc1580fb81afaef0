-- ===== src/Bloom/Tests.antt =====
-- Runs of the Bloom filters and of the exchange, with a toy hash: two peers hold a file under one
-- path with two contents.
use landropic.Prelude.{
  ◌+◌, ◌*◌, List, [], ◌∷◌, none, some, true, Bool, str_eq, Str, codes, length, ◌≡◌, refl, arith,
}
use landropic.Prelude.Outcome.{ok, panicked, Returns}
use landropic.Index.Manifest.{ManifestEntry, Manifest}
use landropic.Bloom.Filter.{BloomFilter, might_contain, ManifestSummary, BloomEnv, from_manifest}
use landropic.Prelude.Dict.{lookup, insert}
use landropic.Bloom.Members.{holds, might_contain-holds, Summarizes, from_manifest-Summarizes}
use landropic.Bloom.Handler.{
  DiffProtocolHandler, acknowledge, silent, new_handler, handle_message, handle_summary_request,
  handle_acknowledge, start_diff, handle_summary_response,
}
use landropic.Bloom.Compression.{Codec}
use landropic.Bloom.Exchange.{
  AsksForAbsent, handle_summary_response-AsksForAbsent, TellsNothing, deliver, exchange,
  exchange-TellsNothing,
}
use landropic.Bloom.Progress.{AllStaged, fresh, started, IsReachable-AllStaged}

abbrev toy_env : BloomEnv
toy_env = record {
  sip = λ item i. length item * 3 + i;
  sizing = record { optimal_num_bits = λ n. 16; optimal_num_hashes = λ m n. 2 };
  checksum = λ m. [];
  manifest_size = λ m. some 500;
  summary_size = λ s. some 200;
  decimal = λ n. codes "0";
  visit_manifests = λ ms. ms;
}

abbrev entry : Str → Str → ManifestEntry
entry path content_hash = record {
  path = path;
  size = 3;
  modified_at = 0;
  content_hash = content_hash;
  chunk_hashes = content_hash ∷ [];
  mode = none;
}

abbrev folder : List ManifestEntry → Manifest
folder files = record {
  folder_id = codes "f";
  version = 1;
  files = files;
  created_at = 0;
  manifest_hash = none;
}

abbrev ours : Manifest
ours = folder (entry (codes "a.txt") (codes "11") ∷ entry (codes "notes") (codes "22") ∷ [])

abbrev theirs : Manifest
theirs = folder (entry (codes "a.txt") (codes "99") ∷ [])

abbrev remote : DiffProtocolHandler
remote = record {
  device_id = codes "B";
  manifests = (codes "/f", theirs) ∷ [];
  summaries = [];
  progress = [];
}

abbrev local : DiffProtocolHandler
local = record {
  device_id = codes "A";
  manifests = (codes "/f", ours) ∷ [];
  summaries = [];
  progress = [];
}

abbrev empty_filter : BloomFilter
empty_filter = record { bits = []; num_bits = 0; num_hashes = 1; num_elements = 0 }

-- A filter of no bits, which a peer may send, makes the lookup panic.
empty_filter_panics : might_contain toy_env.sip (codes "a.txt") empty_filter ≡ panicked
unfolding might_contain
empty_filter_panics = refl

-- Where only the contents differ the peers find no difference, and nothing is asked.
same_paths :
    exchange toy_env 0
      (codes "B")
      (codes "/f")
      (folder (entry (codes "a.txt") (codes "11") ∷ []))
      local
      remote
    ≡ ok silent
unfolding exchange handle_message start_diff handle_summary_request lookup str_eq deliver
    handle_summary_response insert handle_acknowledge
same_paths = refl

from_manifest-Summarizes_example :
    Returns
      (λ s. Summarizes toy_env ours s × (s.device_id ≡ codes "A") × (s.root_path ≡ codes "/f"))
      (from_manifest toy_env 7 ours (codes "A") (codes "/f"))
from_manifest-Summarizes_example =
    from_manifest-Summarizes toy_env 7 ours (codes "A") (codes "/f") (omega arith)

abbrev their_summary : ManifestSummary
their_summary = record {
  device_id = codes "B";
  root_path = codes "/f";
  path_filter = record { bits = 0 ∷ 128 ∷ []; num_bits = 16; num_hashes = 1; num_elements = 1 };
  hash_filter = record { bits = 0 ∷ 0 ∷ []; num_bits = 16; num_hashes = 1; num_elements = 0 };
  file_count = 1;
  total_size = 3;
  generated_at = 0;
  manifest_checksum = [];
}

answers : (x : Str) → (b : Bool) × (might_contain toy_env.sip x their_summary.path_filter ≡ ok b)
answers x = (
  holds toy_env.sip x their_summary.path_filter,
  might_contain-holds toy_env.sip x their_summary.path_filter
      (record { fits = (omega arith, refl, (omega arith, (omega arith, tt))) }),
)

handle_summary_response-AsksForAbsent_example :
    Returns
      (AsksForAbsent toy_env ours their_summary (codes "A-0"))
      (handle_summary_response toy_env 0 their_summary (codes "A-0") local)
unfolding lookup str_eq
handle_summary_response-AsksForAbsent_example =
    handle_summary_response-AsksForAbsent toy_env 0 their_summary (codes "A-0") local ours 500 200
      refl refl refl (omega arith) answers

exchange-TellsNothing_example :
    Returns (TellsNothing toy_env) (exchange toy_env 0 (codes "B") (codes "/f") ours local remote)
unfolding lookup str_eq
exchange-TellsNothing_example =
    exchange-TellsNothing toy_env 0 (codes "B") (codes "/f") ours theirs local remote 500 (λ s. 200)
      refl (λ s. refl) (omega arith) (omega arith) refl refl

IsReachable-AllStaged_example :
    AllStaged
      (start_diff toy_env 5 (codes "B") (codes "/f") ours (new_handler (codes "A"))).1.progress
IsReachable-AllStaged_example =
    IsReachable-AllStaged toy_env (started 5 (codes "B") (codes "/f") ours (fresh (codes "A")))

-- bincode on one message, and a packer that reverses.
abbrev toy_codec : Codec
toy_codec = record {
  serialize = λ message. some (5 ∷ 1 ∷ []);
  deserialize = λ bytes. some (acknowledge [] true none);
  encode_all = λ bytes. some (1 ∷ 5 ∷ []);
  decode_all = λ bytes. some (5 ∷ 1 ∷ []);
}
