-- ===== src/Bloom/Progress.antt =====
-- The stages that the progress of a peer goes through.
use landropic.Prelude.{
  ℕ, List, [], ◌∷◌, Option, none, some, Str, ◌≡◌, refl, All, arith, str_eq, Bool-cases,
  Option-cases, inl, inr,
}
use mathlib.Core.Path.{subst}
use landropic.Prelude.Outcome.{Outcome, ok, panicked, exhausted, ◌>>=◌}
use landropic.Prelude.Dict.{Dict, lookup, insert}
use landropic.Index.Manifest.{Manifest}
use landropic.Bloom.Filter.{ManifestSummary, BloomEnv, from_manifest}
use landropic.Bloom.Handler.{
  DiffProtocolMessage, request_summary, send_summary, request_diff_details, send_diff_details,
  request_chunks, acknowledge, DiffStage, initializing, exchanging_summaries, comparing_manifests,
  requesting_details, transferring_chunks, completed, DiffProgress, DiffProtocolHandler, Reply,
  new_handler, update_progress, update_all, begin_comparison, begin_transfer, finish,
  accept_summary, conclude, start_diff, suspected, handle_summary_request, handle_summary_response,
  handle_details_request, handle_details_response, handle_chunks_request, handle_acknowledge,
  handle_message,
}

-- The percentage that goes with a stage; `none` for the stages that are never entered.
pub stage_percent : DiffStage → Option ℕ
stage_percent initializing = some 0
stage_percent exchanging_summaries = none
stage_percent comparing_manifests = some 25
stage_percent requesting_details = none
stage_percent transferring_chunks = none
stage_percent completed = some 100

abbrev pub IsStaged : DiffProgress → Type 0
IsStaged p = stage_percent p.stage ≡ some p.progress_percent

-- The progress of each peer has its percentage, and is in no stage that is never entered.
abbrev pub AllStaged : Dict DiffProgress → Type 0
AllStaged progress = All (λ (entry : Str × DiffProgress). IsStaged entry.1) progress

insert-AllStaged :
    (k : Str) (p : DiffProgress) (progress : Dict DiffProgress)
    → IsStaged p
    → AllStaged progress
    → AllStaged (insert k p progress)
unfolding insert
insert-AllStaged k p [] v h = (v, tt)
insert-AllStaged k p ((j, q) ∷ progress) v h = elim (Bool-cases (str_eq j k)) [
  | inl hit ↦ rw (hit, insert) (v, h.1)
  | inr miss ↦ rw (miss, insert) (h.0, insert-AllStaged k p progress v h.1)
]

lookup-IsStaged :
    (k : Str) (p : DiffProgress) (progress : Dict DiffProgress)
    → lookup k progress ≡ some p
    → AllStaged progress
    → IsStaged p
unfolding lookup
lookup-IsStaged k p [] e h = absurd cc
lookup-IsStaged k p ((j, q) ∷ progress) e h = elim (Bool-cases (str_eq j k)) [
  | inl hit ↦ ground (arith, h.0)
  | inr miss ↦ lookup-IsStaged k p progress (ground arith) h.1
]

update_progress-AllStaged :
    (k : Str) (f : DiffProgress → DiffProgress) (progress : Dict DiffProgress)
    → ((p : DiffProgress) → IsStaged p → IsStaged (f p))
    → AllStaged progress
    → AllStaged (update_progress k f progress)
unfolding update_progress
update_progress-AllStaged k f progress keeps h = elim (Option-cases (lookup k progress)) [
  | inl gone ↦ rw (gone, update_progress) h
  | inr (p, found) ↦
      rw (found, update_progress)
        (insert-AllStaged k (f p) progress (keeps p (lookup-IsStaged k p progress found h)) h)
]

update_all-AllStaged :
    (f : DiffProgress → DiffProgress) (progress : Dict DiffProgress)
    → ((p : DiffProgress) → IsStaged p → IsStaged (f p))
    → AllStaged progress
    → AllStaged (update_all f progress)
unfolding update_all
update_all-AllStaged f [] keeps h = tt
update_all-AllStaged f ((k, p) ∷ progress) keeps h =
    (keeps p h.0, update_all-AllStaged f progress keeps h.1)

begin_transfer-IsStaged : (n : ℕ) (p : DiffProgress) → IsStaged p → IsStaged (begin_transfer n p)
unfolding begin_transfer stage_percent
begin_transfer-IsStaged n p h = ground arith

finish-IsStaged : (p : DiffProgress) → IsStaged p → IsStaged (finish p)
unfolding finish stage_percent
finish-IsStaged p h = ground arith

module _ (env : BloomEnv) where
  -- The state that a handler leaves, where it returns, is staged.
  abbrev LeavesStaged : Outcome (Reply × DiffProtocolHandler) → Type 0
  LeavesStaged (ok r) = AllStaged r.1.progress
  LeavesStaged panicked = Unit
  LeavesStaged exhausted = Unit

  bind-LeavesStaged :
      {A : Type 0} (r : Outcome A) (f : A → Outcome (Reply × DiffProtocolHandler))
      → ((a : A) → LeavesStaged (f a))
      → LeavesStaged (r >>= f)
  bind-LeavesStaged (ok a) f h = h a
  bind-LeavesStaged panicked f h = tt
  bind-LeavesStaged exhausted f h = tt

  accept_summary-AllStaged :
      (s : ManifestSummary) (h : DiffProtocolHandler)
      → AllStaged h.progress
      → AllStaged (accept_summary env s h).progress
  unfolding accept_summary begin_comparison stage_percent
  accept_summary-AllStaged s h v =
      update_progress-AllStaged s.device_id begin_comparison h.progress (λ p k. refl) v

  conclude-AllStaged :
      (m : Manifest) (s : ManifestSummary) (paths : List Str) (request_id : Str)
      (h : DiffProtocolHandler)
      → AllStaged h.progress
      → AllStaged (conclude env m s paths request_id h).1.progress
  unfolding conclude
  conclude-AllStaged m s paths request_id h v = elim (Option-cases (env.manifest_size m)) [
    | inl e ↦ rw (e, conclude) v
    | inr (n, e) ↦ elim (Option-cases (env.summary_size s)) [
      | inl e' ↦ rw (e, e', conclude) v
      | inr (k, e') ↦
          rw (e, e', conclude) (update_progress-AllStaged s.device_id _ h.progress (λ p q. q) v)
    ]
  ]

  handle_summary_response-AllStaged :
      (now : ℕ) (s : ManifestSummary) (request_id : Str) (h : DiffProtocolHandler)
      → AllStaged h.progress
      → LeavesStaged (handle_summary_response env now s request_id h)
  unfolding handle_summary_response
  handle_summary_response-AllStaged now s request_id h v =
      elim (Option-cases (lookup s.root_path h.manifests)) [
        | inl gone ↦ rw (gone, handle_summary_response) (accept_summary-AllStaged s h v)
        | inr (m, found) ↦
            rw (found, handle_summary_response)
              (bind-LeavesStaged (from_manifest env now m h.device_id s.root_path) _ (λ own.
                bind-LeavesStaged (suspected env s.path_filter m.files) _ (λ paths.
                  conclude-AllStaged m s paths request_id (accept_summary env s h)
                    (accept_summary-AllStaged s h v))))
      ]

  handle_summary_request-AllStaged :
      (now : ℕ) (path request_id : Str) (h : DiffProtocolHandler)
      → AllStaged h.progress
      → LeavesStaged (handle_summary_request env now path request_id h)
  unfolding handle_summary_request
  handle_summary_request-AllStaged now path request_id h v =
      elim (Option-cases (lookup path h.manifests)) [
        | inl gone ↦ rw (gone, handle_summary_request) v
        | inr (m, found) ↦
            rw (found, handle_summary_request)
              (bind-LeavesStaged (from_manifest env now m h.device_id path) _ (λ s. v))
      ]

  handle_message-AllStaged :
      (now : ℕ) (message : DiffProtocolMessage) (h : DiffProtocolHandler)
      → AllStaged h.progress
      → LeavesStaged (handle_message env now message h)
  unfolding handle_message handle_details_request handle_details_response handle_chunks_request
      handle_acknowledge
  handle_message-AllStaged now (request_summary path request_id) h v =
      handle_summary_request-AllStaged now path request_id h v
  handle_message-AllStaged now (send_summary s request_id) h v =
      handle_summary_response-AllStaged now s request_id h v
  handle_message-AllStaged now (request_diff_details paths request_id) h v = v
  handle_message-AllStaged now (send_diff_details details request_id) h v =
      update_all-AllStaged _ h.progress (begin_transfer-IsStaged _) v
  handle_message-AllStaged now (request_chunks hashes request_id) h v = v
  handle_message-AllStaged now (acknowledge request_id success message) h v =
      update_all-AllStaged finish h.progress finish-IsStaged v

  -- The states that a handler reaches: it starts a diff, or handles a message at some time.
  pub data IsReachable : DiffProtocolHandler → Type 0 where
    fresh : (device_id : Str) → IsReachable (new_handler device_id)
    started :
        (now : ℕ) (peer_id path : Str) (manifest : Manifest) {h : DiffProtocolHandler}
        → IsReachable h
        → IsReachable (start_diff env now peer_id path manifest h).1
    handled :
        (now : ℕ) (message : DiffProtocolMessage) {h h' : DiffProtocolHandler} (r : Reply)
        → IsReachable h
        → handle_message env now message h ≡ ok (r, h')
        → IsReachable h'

  -- In each state that a handler reaches, the progress of every peer is in the stage initializing, comparing or
  -- completed, and its percentage is 0, 25 or 100 with it.
  pub IsReachable-AllStaged : {h : DiffProtocolHandler} → IsReachable h → AllStaged h.progress
  unfolding new_handler start_diff stage_percent
  IsReachable-AllStaged (fresh device_id) = tt
  IsReachable-AllStaged (started now peer_id path manifest {h} r) =
      insert-AllStaged peer_id _ h.progress refl (IsReachable-AllStaged r)
  IsReachable-AllStaged (handled now message {h} {h'} reply r e) =
      subst LeavesStaged e (handle_message-AllStaged now message h (IsReachable-AllStaged r))
