-- ===== src/Bloom/Handler.antt =====
-- landro-daemon/src/bloom_diff.rs: DiffProtocolHandler, its messages and its handlers. The logged
-- estimate of similarity is left out. A handler gives its reply and the state after it.
use landropic.Prelude.{
  ℕ, ◌-◌, List, [], ◌∷◌, Option, none, some, Bool, true, false, Str, codes, contains, length, ◌++◌,
}
use landropic.Prelude.Outcome.{Outcome, ok, ◌>>=◌}
use landropic.Prelude.Dict.{Dict, lookup, insert}
use landropic.Index.Manifest.{ManifestEntry, Manifest}
use landropic.Bloom.Filter.{BloomFilter, ManifestSummary, BloomEnv, might_contain, from_manifest}

pub data DiffProtocolMessage : Type 0 where
  request_summary : (path request_id : Str) → DiffProtocolMessage
  send_summary : (summary : ManifestSummary) (request_id : Str) → DiffProtocolMessage
  request_diff_details : (suspected_paths : List Str) (request_id : Str) → DiffProtocolMessage
  send_diff_details : (file_details : Dict ManifestEntry) (request_id : Str) → DiffProtocolMessage
  request_chunks : (chunk_hashes : List Str) (request_id : Str) → DiffProtocolMessage
  acknowledge : (request_id : Str) (success : Bool) (message : Option Str) → DiffProtocolMessage

pub data DiffStage : Type 0 where
  initializing : DiffStage
  exchanging_summaries : DiffStage
  comparing_manifests : DiffStage
  requesting_details : DiffStage
  transferring_chunks : DiffStage
  completed : DiffStage

-- DiffProgress, without the estimate that is never set.
pub record DiffProgress : Type 0 where
  pub peer_id : Str
  pub stage : DiffStage
  pub progress_percent : ℕ
  pub files_compared : ℕ
  pub differences_found : ℕ
  pub bytes_saved : ℕ
  pub started_at : ℕ

-- The keys are compared as the bytes of a path; Rust compares paths by their parts, so that there `a//b` is the key `a/b`.
pub record DiffProtocolHandler : Type 0 where
  pub device_id : Str
  pub manifests : Dict Manifest
  pub summaries : Dict ManifestSummary
  pub progress : Dict DiffProgress

-- Result<Option<DiffProtocolMessage>, _>
pub data Reply : Type 0 where
  failed : Reply
  silent : Reply
  replies : DiffProtocolMessage → Reply

unfoldable pub new_handler : Str → DiffProtocolHandler
new_handler device_id = record {
  device_id = device_id;
  manifests = [];
  summaries = [];
  progress = [];
}

-- if let Some(progress) = progress_map.get_mut(key)
unfoldable pub update_progress :
    Str → (DiffProgress → DiffProgress) → Dict DiffProgress → Dict DiffProgress
update_progress key f progress = elim (lookup key progress) [
  | none ↦ progress
  | some p ↦ insert key (f p) progress
]

-- for progress in progress_map.values_mut()
unfoldable pub update_all : (DiffProgress → DiffProgress) → Dict DiffProgress → Dict DiffProgress
update_all f [] = []
update_all f ((k, p) ∷ progress) = (k, f p) ∷ update_all f progress

unfoldable pub begin_comparison : DiffProgress → DiffProgress
begin_comparison p = record p { stage = comparing_manifests; progress_percent = 25 }

unfoldable pub begin_transfer : ℕ → DiffProgress → DiffProgress
begin_transfer details p = elim p.stage [
  | requesting_details ↦ record p {
    stage = transferring_chunks;
    progress_percent = 75;
    files_compared = details;
  }
  | _ ↦ p
]

unfoldable pub finish : DiffProgress → DiffProgress
finish p = elim p.stage [
  | completed ↦ p
  | _ ↦ record p { stage = completed; progress_percent = 100 }
]

-- The loop over the files of the manifests that collects what is asked for.
unfoldable pub collect_details :
    List Str → List ManifestEntry → Dict ManifestEntry → Dict ManifestEntry
collect_details suspected_paths [] details = details
collect_details suspected_paths (file ∷ files) details = elim (contains suspected_paths file.path) [
  | true ↦ collect_details suspected_paths files (insert file.path file details)
  | false ↦ collect_details suspected_paths files details
]

unfoldable pub collect_manifests :
    List Str → List (Str × Manifest) → Dict ManifestEntry → Dict ManifestEntry
unfolding collect_details
collect_manifests suspected_paths [] details = details
collect_manifests suspected_paths ((path, manifest) ∷ rest) details =
    collect_manifests suspected_paths rest (collect_details suspected_paths manifest.files details)

unfoldable pub ask_details : List Str → Str → DiffProtocolMessage
ask_details [] request_id = acknowledge request_id true (some (codes "No differences found"))
ask_details (path ∷ paths) request_id = request_diff_details (path ∷ paths) request_id

module _ (env : BloomEnv) where
  -- The message and the state that `start_diff` leaves, at the time `now`.
  unfoldable pub start_diff :
      ℕ → Str → Str → Manifest → DiffProtocolHandler → DiffProtocolMessage × DiffProtocolHandler
  start_diff now peer_id path local_manifest h = (
    request_summary path (h.device_id ++ codes "-" ++ env.decimal now),
    record h {
      manifests = insert path local_manifest h.manifests;
      progress =
          insert peer_id
            (record {
              peer_id = peer_id;
              stage = initializing;
              progress_percent = 0;
              files_compared = 0;
              differences_found = 0;
              bytes_saved = 0;
              started_at = now;
            })
            h.progress;
    },
  )

  unfoldable pub handle_summary_request :
      ℕ → Str → Str → DiffProtocolHandler → Outcome (Reply × DiffProtocolHandler)
  unfolding from_manifest
  handle_summary_request now path request_id h = elim (lookup path h.manifests) [
    | none ↦ ok (replies (acknowledge request_id false (some (codes "Manifest not found"))), h)
    | some manifest ↦ do
      summary ← from_manifest env now manifest h.device_id path
      ok (replies (send_summary summary request_id), h)
  ]

  -- The loop over the local files: the paths that the peer's filter does not contain.
  unfoldable pub suspected : BloomFilter → List ManifestEntry → Outcome (List Str)
  unfolding might_contain
  suspected f [] = ok []
  suspected f (file ∷ files) = do
    found ← might_contain env.sip file.path f
    paths ← suspected f files
    ok (elim found [ true ↦ paths | false ↦ file.path ∷ paths ])

  -- The end of the comparison: the sizes, the progress and the reply.
  unfoldable pub conclude :
      Manifest
      → ManifestSummary
      → List Str
      → Str
      → DiffProtocolHandler
      → Reply × DiffProtocolHandler
  unfolding update_progress ask_details
  conclude local_manifest summary paths request_id h = elim (env.manifest_size local_manifest) [
    | none ↦ (failed, h)
    | some full_manifest_size ↦ elim (env.summary_size summary) [
      | none ↦ (failed, h)
      | some summary_size ↦ (
        replies (ask_details paths request_id),
        record h {
          progress =
              update_progress summary.device_id
                (λ p. record p {
                  bytes_saved = full_manifest_size - summary_size;
                  differences_found = length paths;
                })
                h.progress;
        },
      )
    ]
  ]

  -- The summary is stored and the progress of its sender set, before anything is compared.
  unfoldable pub accept_summary : ManifestSummary → DiffProtocolHandler → DiffProtocolHandler
  unfolding update_progress begin_comparison
  accept_summary summary h = record h {
    summaries = insert summary.device_id summary h.summaries;
    progress = update_progress summary.device_id begin_comparison h.progress;
  }

  unfoldable pub handle_summary_response :
      ℕ → ManifestSummary → Str → DiffProtocolHandler → Outcome (Reply × DiffProtocolHandler)
  unfolding accept_summary conclude suspected from_manifest
  handle_summary_response now summary request_id h =
      let stored = accept_summary summary h in
      elim (lookup summary.root_path h.manifests) [
        | none ↦ ok (silent, stored)
        | some local_manifest ↦ do
          local_summary ← from_manifest env now local_manifest h.device_id summary.root_path
          paths ← suspected summary.path_filter local_manifest.files
          ok (conclude local_manifest summary paths request_id stored)
      ]

  unfoldable pub handle_details_request :
      List Str → Str → DiffProtocolHandler → Reply × DiffProtocolHandler
  unfolding collect_manifests
  handle_details_request suspected_paths request_id h = (
    replies (
        send_diff_details (collect_manifests suspected_paths (env.visit_manifests h.manifests) [])
          request_id),
    h,
  )

  unfoldable pub handle_details_response :
      Dict ManifestEntry → Str → DiffProtocolHandler → Reply × DiffProtocolHandler
  unfolding begin_transfer update_all
  handle_details_response file_details request_id h =
      (silent, record h { progress = update_all (begin_transfer (length file_details)) h.progress })

  unfoldable pub handle_chunks_request :
      List Str → Str → DiffProtocolHandler → Reply × DiffProtocolHandler
  handle_chunks_request chunk_hashes request_id h = (
    replies (
        acknowledge request_id true
          (some (codes "Would send " ++ env.decimal (length chunk_hashes) ++ codes " chunks"))),
    h,
  )

  unfoldable pub handle_acknowledge :
      Str → Bool → Option Str → DiffProtocolHandler → Reply × DiffProtocolHandler
  unfolding finish update_all
  handle_acknowledge request_id success message h =
      (silent, record h { progress = update_all finish h.progress })

  unfoldable pub handle_message :
      ℕ → DiffProtocolMessage → DiffProtocolHandler → Outcome (Reply × DiffProtocolHandler)
  handle_message now (request_summary path request_id) h =
      handle_summary_request now path request_id h
  handle_message now (send_summary summary request_id) h =
      handle_summary_response now summary request_id h
  handle_message now (request_diff_details paths request_id) h =
      ok (handle_details_request paths request_id h)
  handle_message now (send_diff_details details request_id) h =
      ok (handle_details_response details request_id h)
  handle_message now (request_chunks hashes request_id) h =
      ok (handle_chunks_request hashes request_id h)
  handle_message now (acknowledge request_id success message) h =
      ok (handle_acknowledge request_id success message h)
