-- ===== src/Sync/Session/Wants.antt =====
-- landro-sync/src/protocol.rs, handle_manifest: what a session asks its peer for.
use mathlib.Core.List.{Mem, mem-cons_self, mem-cons_of_mem}
use mathlib.Core.Option
use mathlib.Core.Path.{subst, sym, ◌∙◌}
use landropic.Prelude.{
  ℕ, ◌≡◌, refl, inl, inr, List, [], ◌∷◌, Option, none, some, Bool, true, false, ◌||◌, Str, contains,
  arith, Bool-cases, ◌⊎◌, length, take,
}
use landropic.Prelude.Dict.{Dict, lookup, lookup-insert, insert, collect}
use landropic.Index.Manifest
use landropic.Index.Manifest.{ManifestEntry, Manifest, keyed, file_map}
use landropic.Index.Integrity.{verify-finalize}
use landropic.Sync.Diff.{FileChange, DiffResult, DiffComputer}
use landropic.Sync.Diff.Compute.{Env, compute_diff, compute_incremental, track, IncrementalDiff}
use landropic.Sync.Diff.Change.{change_for}
use landropic.Sync.Diff.Exact.{IsWalk}
use landropic.Sync.Diff.Report.{Reports, compute_diff-Reports}
use landropic.Sync.Diff.Totals.{AddsUp, compute_diff-AddsUp}
use landropic.Sync.Diff.Needed.{needs, contains-find_required_chunks, contains-compute_chunk_diff}
use landropic.Sync.Session.{
  transferring, ProtoManifest, Want, ContentStore, SyncEnv, Session, Result,
}
use landropic.Sync.Session.Handlers.{
  handle_manifest, proto_to_manifest, diff_against, accept_diff, is_computing_diff, decoded_hashes,
  add_entries, max_want_chunks,
}

-- Some file has the chunk.
unfoldable pub owned : List ManifestEntry → Str → Bool
owned [] h = false
owned (f ∷ fs) h = contains f.chunk_hashes h || owned fs h

collected-owned :
    (d : Dict ManifestEntry) (files : List ManifestEntry) (k : Str) (t : ManifestEntry) (h : Str)
    → lookup k (collect d (keyed files)) ≡ some t
    → contains t.chunk_hashes h ≡ true
    → (lookup k d ≡ some t) ⊎ (owned files h ≡ true)
unfolding collect owned
collected-owned d [] k t h e c = inl e
collected-owned d (f ∷ fs) k t h e c = elim (collected-owned (insert f.path f d) fs k t h e c) [
  | inl there ↦ ground (arith, lookup-insert f.path k f d)
  | inr later ↦ inr (ground (arith, later))
]

needs-Mem :
    (cs : List FileChange) (h : Str)
    → needs cs h ≡ true
    → (c : FileChange) × Mem c cs × (contains c.required_chunks h ≡ true)
unfolding needs
needs-Mem [] h p = cc
needs-Mem (c ∷ cs) h p = elim (Bool-cases (contains c.required_chunks h)) [
  | inl here ↦ (c, mem-cons_self, here)
  | inr not_here ↦
      let (c', m, q) = needs-Mem cs h (ground (arith, p)) in (c', mem-cons_of_mem c m, q)
]

-- A change that needs a chunk has a target entry with that chunk.
change_for-required :
    (d : DiffComputer) (path : Str) (s t : Option ManifestEntry) (c : FileChange) (h : Str)
    → change_for d path s t ≡ some c
    → contains c.required_chunks h ≡ true
    → (entry : ManifestEntry) × (t ≡ some entry) × (contains entry.chunk_hashes h ≡ true)
unfolding contains
change_for-required d path none none c h e q = cc
change_for-required d path none (some t) c h e q =
    (t, refl, ground (arith, contains-find_required_chunks d t.chunk_hashes h))
change_for-required d path (some s) none c h e q = absurd (ground arith)
change_for-required d path (some s) (some t) c h e q =
    (t, refl, ground (arith, contains-compute_chunk_diff d s.chunk_hashes t.chunk_hashes h))

module _ (env : Env) (walk : IsWalk env.visit) (d : DiffComputer) (source target : Manifest) where
  needed-owned :
      (r : DiffResult)
      → Reports d source target r
      → (h : Str) → needs r.changes h ≡ true
      → owned target.files h ≡ true
  unfolding lookup collect file_map
  needed-owned r v h p =
      let (c, m, q) = needs-Mem r.changes h p in
      let (t, e, k) =
        change_for-required d c.path (lookup c.path (file_map source.files))
          (lookup c.path (file_map target.files)) c h ((v.exact c).0 m) q in
      elim (collected-owned [] target.files c.path t h e k) [
        | inl nowhere ↦ absurd (ground arith)
        | inr there ↦ there
      ]

  -- What a diff requires is in the target.
  required-owned :
      (r : DiffResult) × (compute_diff env d source target ≡ some r)
      × ((h : Str)
          → contains r.required_chunks h ≡ true
          → (owned target.files h ≡ true) × (contains d.chunk_cache h ≡ false))
  required-owned =
      let (r, e, v) = compute_diff-Reports env walk d source target in
      let (r', e', a') = compute_diff-AddsUp env d source target in
      let a = subst (AddsUp d) (Option.some_inj.0 (sym e' ∙ e)) a' in
      (r, e, λ h p. (needed-owned r v h (sym (a.required h) ∙ p), a.uncached h p))

module _ {C : Type 0} (env : SyncEnv) (store : ContentStore C) (now : ℕ) where
  -- What the handler asks for, in the session that it leaves.
  pub record AsksForOwn (our : Manifest) (cache : List Str) (want : Want) (s : Session C)
      : Type 0 where
    pub state : s.state ≡ transferring (length s.wanted_chunks) 0
    pub hashes :
        want.chunk_hashes
        ≡ decoded_hashes env store now (take max_want_chunks (env.visit_set s.wanted_chunks))
    pub own :
        (h : Str)
        → contains s.wanted_chunks h ≡ true
        → (owned our.files h ≡ true) × (contains cache h ≡ false)

  abbrev pub Asks : Session C → Manifest → Result Want × Session C → Type 0
  Asks s our r =
      (want : Want) × (r.0 ≡ Result.ok want)
      × AsksForOwn our s.diff_tracker.diff_computer.chunk_cache want r.1

  proto_to_manifest_total :
      (m : ProtoManifest) → (peer : Manifest) × (proto_to_manifest env store now m ≡ some peer)
  unfolding proto_to_manifest
  proto_to_manifest_total m =
      let (hash, e, _) =
        verify-finalize env.diff_env.blake3 env.diff_env.hex_decode env.hex_encode
          (add_entries env store now (Manifest.new now m.folder_id 1) m.files) in
      (_, e)

  accept_diff-Asks :
      (peer our : Manifest) (diff : DiffResult) (tracker : IncrementalDiff) (s t : Session C)
      → ((h : Str)
          → contains diff.required_chunks h ≡ true
          → (owned our.files h ≡ true)
            × (contains s.diff_tracker.diff_computer.chunk_cache h ≡ false))
      → Asks s our (accept_diff env store now peer diff tracker t)
  unfolding accept_diff
  accept_diff-Asks peer our diff tracker s t own =
      (_, refl, record { state = refl; hashes = refl; own = own })

  -- With the conversion, the manifest and the diff at hand, the handler accepts the diff.
  handle_manifest-accept_diff :
      (m : ProtoManifest) (our peer : Manifest) (diff : DiffResult) (s : Session C)
      → is_computing_diff s.state ≡ true
      → s.our_manifest ≡ some our
      → proto_to_manifest env store now m ≡ some peer
      → compute_diff env.diff_env s.diff_tracker.diff_computer peer our ≡ some diff
      → handle_manifest env store now m s
        ≡ accept_diff env store now peer diff
            (track s.diff_tracker s.peer_id our.version diff)
            (record s { peer_manifest = some m })
  unfolding handle_manifest diff_against compute_incremental
  handle_manifest-accept_diff m our peer diff s p loaded converted computed =
      rw (p, converted, loaded, computed, diff_against, compute_incremental) refl

  -- In a session that computes its diff and has loaded its own manifest, `handle_manifest` succeeds on
  -- every manifest of the peer. It asks for at most a hundred of the wanted chunks, and each wanted
  -- chunk is one of a file of its own manifest, whatever the peer's manifest lists.
  pub handle_manifest-AsksForOwn :
      IsWalk env.diff_env.visit
      → (m : ProtoManifest) (our : Manifest) (s : Session C) → is_computing_diff s.state ≡ true
      → s.our_manifest ≡ some our
      → Asks s our (handle_manifest env store now m s)
  handle_manifest-AsksForOwn walk m our s p loaded =
      let (peer, converted) = proto_to_manifest_total m in
      let (diff, computed, own) =
        required-owned env.diff_env walk s.diff_tracker.diff_computer peer our in
      subst (Asks s our)
        (sym (handle_manifest-accept_diff m our peer diff s p loaded converted computed))
        (accept_diff-Asks peer our diff (track s.diff_tracker s.peer_id our.version diff) s
          (record s { peer_manifest = some m }) own)
