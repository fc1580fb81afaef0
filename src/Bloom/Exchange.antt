-- ===== src/Bloom/Exchange.antt =====
-- What a peer asks for after it has seen a summary, and what it gets.
use landropic.Prelude.{
  ℕ, ◌<◌, max, List, [], ◌∷◌, some, Bool, true, false, ◌||◌, Str, str_eq, str_eq_iff, str_eq_refl,
  contains, codes, length, ◌≡◌, ◌↔◌, ◌++◌, refl, arith, Bool-cases, inl, inr,
}
use mathlib.Core.List.{Mem, mem-cons_self, mem-cons_of_mem}
use mathlib.Core.Path.{ap, sym, subst, ◌∙◌}
use landropic.Prelude.Outcome.{Outcome, ok, ◌>>=◌, Returns}
use landropic.Prelude.Dict.{Dict, lookup, lookup-insert}
use landropic.Index.Manifest.{ManifestEntry, Manifest}
use landropic.Bloom.Filter.{BloomFilter, ManifestSummary, BloomEnv, might_contain}
use landropic.Bloom.Members.{Summarizes, from_manifest-Summarizes}
use landropic.Bloom.Handler.{
  request_summary, send_summary, request_diff_details, send_diff_details, request_chunks,
  acknowledge, handle_acknowledge, DiffProtocolHandler, Reply, failed, silent, replies, suspected,
  ask_details, conclude, accept_summary, collect_details, collect_manifests, start_diff,
  handle_summary_request, handle_summary_response, handle_details_request, handle_message,
}

-- A file of the list has the path.
pub listed : List ManifestEntry → Str → Bool
listed [] x = false
listed (file ∷ files) x = str_eq file.path x || listed files x

module _ (env : BloomEnv) where
  -- The filter answers on every text.
  abbrev pub Answers : BloomFilter → Type 0
  Answers f = (x : Str) → (b : Bool) × (might_contain env.sip x f ≡ ok b)

  answers_once :
      (x : Str) (f : BloomFilter)
      → might_contain env.sip x f ≡ ok true
      → might_contain env.sip x f ≡ ok false
      → ⊥
  answers_once x f e e' = let absurdity : ok true ≡ ok false = sym e ∙ e' in cc

  suspected_iff :
      (f : BloomFilter) (files : List ManifestEntry)
      → Answers f
      → Returns
          (λ paths.
            (x : Str)
            → (contains paths x ≡ true)
              ↔ ((listed files x ≡ true) × (might_contain env.sip x f ≡ ok false)))
          (suspected env f files)
  unfolding suspected contains listed
  suspected_iff f [] answers = ([], refl, λ x. (λ h. absurd cc, λ h. h.0))
  suspected_iff f (file ∷ files) answers =
      let (found, e) = answers file.path in
      let (paths, e', known) = suspected_iff f files answers in
      elim (Bool-cases found) [
        | inl hit ↦ (
          paths,
          rw (e, e', hit) refl,
          λ x. (
            λ h. let (l, m) = (known x).0 h in (ground (arith, l), m),
            λ h. elim (Bool-cases (str_eq file.path x)) [
              | inl same ↦
                  let present : might_contain env.sip x f ≡ ok true =
                    subst (λ y. might_contain env.sip y f ≡ ok true)
                      ((str_eq_iff file.path x).0 same) (e ∙ ap ok hit) in
                  absurd (answers_once x f present h.1)
              | inr other ↦ (known x).1 (ground (arith, h.0), h.1)
            ],
          ),
        )
        | inr miss ↦ (
          file.path ∷ paths,
          rw (e, e', miss) refl,
          λ x. elim (Bool-cases (str_eq file.path x)) [
            | inl same ↦
                let absent : might_contain env.sip x f ≡ ok false =
                  subst (λ y. might_contain env.sip y f ≡ ok false)
                    ((str_eq_iff file.path x).0 same) (e ∙ ap ok miss) in
                (λ h. (ground arith, absent), λ h. ground arith)
            | inr other ↦ (
              λ h. let (l, m) = (known x).0 (ground (arith, h)) in (ground (arith, l), m),
              λ h. let k = (known x).1 (ground (arith, h.0), h.1) in ground (arith, k),
            )
          ],
        )
      ]

  -- The reply asks for the local paths that the filter lacks, and for no others.
  pub AsksForAbsent : Manifest → ManifestSummary → Str → Reply × DiffProtocolHandler → Type 0
  AsksForAbsent local_manifest summary request_id r =
      (paths : List Str) × (r.0 ≡ replies (ask_details paths request_id))
      × (((x : Str)
            → (contains paths x ≡ true) ↔ (
                (listed local_manifest.files x ≡ true)
                × (might_contain env.sip x summary.path_filter ≡ ok false)))
          × (lookup summary.device_id r.1.summaries ≡ some summary))

  -- A summary of a folder that is also held here is stored, and the answer asks for the local paths that its
  -- filter lacks, where the sizes are known and the filters can be made and read.
  pub handle_summary_response-AsksForAbsent :
      (now : ℕ) (summary : ManifestSummary) (request_id : Str) (h : DiffProtocolHandler)
      (local_manifest : Manifest) (full part : ℕ)
      → lookup summary.root_path h.manifests ≡ some local_manifest
      → env.manifest_size local_manifest ≡ some full
      → env.summary_size summary ≡ some part
      → 0 < env.sizing.optimal_num_bits (max (length local_manifest.files) 100)
      → Answers summary.path_filter
      → Returns
          (AsksForAbsent local_manifest summary request_id)
          (handle_summary_response env now summary request_id h)
  unfolding handle_summary_response accept_summary conclude AsksForAbsent
  handle_summary_response-AsksForAbsent now summary request_id h local_manifest full part found
        sized sized' bits answers =
      let (own, e, own_summarizes) =
        from_manifest-Summarizes env now local_manifest h.device_id summary.root_path bits in
      let (paths, e', known) = suspected_iff summary.path_filter local_manifest.files answers in
      (
        conclude env local_manifest summary paths request_id (accept_summary env summary h),
        rw (found, e, e', handle_summary_response) refl,
        (
          paths,
          rw (sized, sized', conclude) refl,
          (
            known,
            rw (sized, sized', conclude)
                (ground (
                  arith,
                  lookup-insert summary.device_id summary.device_id summary h.summaries,
                  str_eq_refl summary.device_id,
                )),
          ),
        ),
      )

  -- A peer handles the reply of the other.
  unfoldable pub deliver : ℕ → Reply → DiffProtocolHandler → Outcome (Reply × DiffProtocolHandler)
  deliver now (replies message) h = handle_message env now message h
  deliver now silent h = ok (silent, h)
  deliver now failed h = ok (failed, h)

  -- `local` starts with `remote`, and the replies go to and fro until the details come.
  unfoldable pub exchange :
      ℕ → Str → Str → Manifest → DiffProtocolHandler → DiffProtocolHandler → Outcome Reply
  exchange now peer_id path local_manifest local remote =
      let (request, local1) = start_diff env now peer_id path local_manifest local in
      do
        (summary, remote1) ← handle_message env now request remote
        (question, local2) ← deliver now summary local1
        (answer, remote2) ← deliver now question remote1
        ok answer

  -- No details of any file.
  pub TellsNothing : Reply → Type 0
  TellsNothing (replies (send_diff_details file_details request_id)) = file_details ≡ []
  TellsNothing (replies (request_summary path request_id)) = ⊥
  TellsNothing (replies (send_summary summary request_id)) = ⊥
  TellsNothing (replies (request_diff_details paths request_id)) = ⊥
  TellsNothing (replies (request_chunks hashes request_id)) = ⊥
  TellsNothing (replies (acknowledge request_id success message)) = ⊥
  TellsNothing silent = Unit
  TellsNothing failed = Unit

  collect_details-none :
      (paths : List Str) (files : List ManifestEntry) (details : Dict ManifestEntry)
      → ((file : ManifestEntry) → Mem file files → contains paths file.path ≡ false)
      → collect_details paths files details ≡ details
  unfolding collect_details
  collect_details-none paths [] details h = refl
  collect_details-none paths (file ∷ files) details h =
      rw (h file mem-cons_self, collect_details)
        (collect_details-none paths files details (λ x m. h x (mem-cons_of_mem file m)))

  -- A peer asks for details of paths that the filter of the other lacks.
  absent-disjoint :
      (manifest local_manifest : Manifest) (summary : ManifestSummary) (paths : List Str)
      → Summarizes env manifest summary
      → ((x : Str)
          → (contains paths x ≡ true) ↔ (
              (listed local_manifest.files x ≡ true)
              × (might_contain env.sip x summary.path_filter ≡ ok false)))
      → (file : ManifestEntry) → Mem file manifest.files
      → contains paths file.path ≡ false
  absent-disjoint manifest local_manifest summary paths s known file m =
      elim (Bool-cases (contains paths file.path)) [
        | inl asked ↦ absurd (
            answers_once file.path summary.path_filter (s.paths file m)
              ((known file.path).0 asked).1)
        | inr free ↦ free
      ]

  reply-TellsNothing :
      (now : ℕ) (manifest : Manifest) (path request_id : Str) (paths : List Str)
      (remote : DiffProtocolHandler)
      → env.visit_manifests remote.manifests ≡ (path, manifest) ∷ []
      → ((file : ManifestEntry) → Mem file manifest.files → contains paths file.path ≡ false)
      → Returns
          (λ r. TellsNothing r.0)
          (deliver now (replies (ask_details paths request_id)) remote)
  unfolding deliver handle_message handle_details_request handle_acknowledge collect_manifests
      ask_details TellsNothing
  reply-TellsNothing now manifest path request_id [] remote visits free = (
    (
      silent,
      (handle_acknowledge env request_id true (some (codes "No differences found")) remote).1,
    ),
    refl,
    tt,
  )
  reply-TellsNothing now manifest path request_id (p ∷ paths) remote visits free = (
    handle_details_request env (p ∷ paths) request_id remote,
    refl,
    rw (visits, handle_details_request) (collect_details-none (p ∷ paths) manifest.files [] free),
  )

  summary_request-Summarizes :
      (now : ℕ) (path request_id : Str) (h : DiffProtocolHandler) (manifest : Manifest)
      → lookup path h.manifests ≡ some manifest
      → 0 < env.sizing.optimal_num_bits (max (length manifest.files) 100)
      → (s : ManifestSummary) × (handle_message env now (request_summary path request_id) h
          ≡ ok (replies (send_summary s request_id), h))
        × (Summarizes env manifest s × (s.device_id ≡ h.device_id) × (s.root_path ≡ path))
  unfolding handle_message handle_summary_request
  summary_request-Summarizes now path request_id h manifest found bits =
      let (s, e, p) = from_manifest-Summarizes env now manifest h.device_id path bits in
      (s, rw (found, e, handle_summary_request) refl, p)

  exchange-run :
      (now : ℕ) (peer_id path : Str) (local_manifest : Manifest)
      (local remote : DiffProtocolHandler) (s : ManifestSummary) (request_id : Str)
      (question : Reply) (local2 : DiffProtocolHandler)
      → handle_message env now (start_diff env now peer_id path local_manifest local).0 remote
        ≡ ok (replies (send_summary s request_id), remote)
      → handle_summary_response env now s request_id
          (start_diff env now peer_id path local_manifest local).1
        ≡ ok (question, local2)
      → Returns (λ r. TellsNothing r.0) (deliver now question remote)
      → Returns TellsNothing (exchange now peer_id path local_manifest local remote)
  unfolding exchange deliver handle_message
  exchange-run now peer_id path local_manifest local remote s request_id question local2 sent asked
        ((answer, remote2), told, nothing) =
      (answer, rw (sent, asked, told) refl, nothing)

  -- Where the sizes are known, the filters get at least one bit and the remote peer holds one folder, the one that
  -- is compared: the exchange runs to its end, and the local peer gets details of no file.
  pub exchange-TellsNothing :
      (now : ℕ) (peer_id path : Str) (local_manifest manifest : Manifest)
      (local remote : DiffProtocolHandler) (full : ℕ) (part : ManifestSummary → ℕ)
      → env.manifest_size local_manifest ≡ some full
      → ((s : ManifestSummary) → env.summary_size s ≡ some (part s))
      → 0 < env.sizing.optimal_num_bits (max (length local_manifest.files) 100)
      → 0 < env.sizing.optimal_num_bits (max (length manifest.files) 100)
      → lookup path remote.manifests ≡ some manifest
      → env.visit_manifests remote.manifests ≡ (path, manifest) ∷ []
      → Returns TellsNothing (exchange now peer_id path local_manifest local remote)
  unfolding exchange start_diff deliver AsksForAbsent
  exchange-TellsNothing now peer_id path local_manifest manifest local remote full part sized sized'
        bits bits' found visits =
      let local1 = (start_diff env now peer_id path local_manifest local).1 in
      let request_id : Str = local.device_id ++ codes "-" ++ env.decimal now in
      let (summary, sent, (s, _, root)) =
        summary_request-Summarizes now path request_id remote manifest found bits' in
      let own : lookup summary.root_path local1.manifests ≡ some local_manifest = rw root (
        ground (arith, lookup-insert path path local_manifest local.manifests, str_eq_refl path)) in
      let answers : Answers summary.path_filter = λ x. let (b, eb, _) = s.answers x in (b, eb) in
      let ((question, local2), asked, (paths, asks, (known, _))) =
        handle_summary_response-AsksForAbsent now summary request_id local1 local_manifest full
          (part summary) own sized (sized' summary) bits answers in
      let told =
        reply-TellsNothing now manifest path request_id paths remote visits
          (absent-disjoint manifest local_manifest summary paths s known) in
      exchange-run now peer_id path local_manifest local remote summary request_id question local2
        sent asked
        (subst (λ q. Returns (λ r. TellsNothing r.0) (deliver now q remote)) (sym asks) told)
