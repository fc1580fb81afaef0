-- ===== src/Cas/Store/Partial/Whole.antt =====
-- The pieces of a resumable write make the object.
use landropic.Prelude.{
  ℕ, ◌+◌, ◌%◌, ◌<◌, List, [], ◌∷◌, ◌++◌, Option, none, some, Bool, true, false, Str, str_eq_refl,
  length, length-append, ltb, ◌==◌, if◌then◌else◌, ◌≡◌, refl, sym, ◌∙◌, ap, arith, All,
}
use mathlib.Core.Path.{subst}
use mathlib.Core.List.{append_assoc, append-nil}
use landropic.Prelude.Dict.{lookup, lookup-insert_self, lookup-remove}
use landropic.Prelude.Word.{u64_mod}
use landropic.Cas.Packfile.{Result, ok, CasError}
use landropic.Cas.Store.{ContentStore, ObjectRef}
use landropic.Cas.Store.Disk.{file_exists}
use landropic.Cas.Store.Operations.{reference, add_to_dedup, count_write}
use landropic.Cas.Store.Partial.{
  PartialTransfer, new, is_expired, open_partial, put_partial, remove_partial,
  start_resumable_write, continue_resumable_write, complete_resumable_write, check_and_store,
  store_partial, has_size, rename_partial,
}

-- The pieces together
unfoldable pub joined : List (ℕ × List ℕ) → List ℕ
joined [] = []
joined ((now, bytes) ∷ pieces) = bytes ++ joined pieces

-- The transfer is not expired at the instant of any piece.
abbrev pub IsTimely : ℕ → ℕ × List ℕ → Type 0
IsTimely expires_at piece = ltb expires_at piece.0 ≡ false

module _ {C : Type 0} where
  -- The pieces in turn, each with its instant, as far as no error stops them.
  unfoldable pub continue_all :
      List (ℕ × List ℕ)
      → PartialTransfer × ContentStore C
      → Option CasError × (PartialTransfer × ContentStore C)
  unfolding continue_resumable_write
  continue_all [] state = (none, state)
  continue_all ((now, bytes) ∷ pieces) (p, s) =
      let (failed, state) = continue_resumable_write now bytes p s in
      let rest = continue_all pieces state in elim failed [ none ↦ rest | some e ↦ (some e, state) ]

  -- The partial file holds what was received.
  abbrev Holds : List ℕ → PartialTransfer → ContentStore C → Type 0
  Holds written p s =
      (lookup p.temp_name s.files.partials ≡ some written) × (p.bytes_received ≡ length written)

  -- A transfer that holds bytes, or that has not received any.
  abbrev IsReady : List ℕ → PartialTransfer → ContentStore C → Type 0
  IsReady written p s = (open_partial p s.files ≡ ok written) × (p.bytes_received ≡ length written)

  -- What no piece changes
  abbrev Same : PartialTransfer → PartialTransfer → ContentStore C → ContentStore C → Type 0
  Same p p' s s' =
      ((p'.temp_name ≡ p.temp_name) × (p'.expires_at ≡ p.expires_at))
      × (((p'.expected_hash ≡ p.expected_hash) × (p'.total_size ≡ p.total_size))
          × (s'.files.objects ≡ s.files.objects))

  Holds-IsReady :
      (written : List ℕ) (p : PartialTransfer) (s : ContentStore C)
      → Holds written p s
      → IsReady written p s
  unfolding open_partial
  Holds-IsReady [] p s (there, count) = (rw (ap (λ n. n == 0) count, open_partial) refl, count)
  Holds-IsReady (b ∷ bs) p s (there, count) =
      let filled : (p.bytes_received == 0) ≡ false = ground (arith, count) in
      (rw (filled, there, open_partial) refl, count)

  -- The transfer and the store after a piece
  abbrev Continued :
      List ℕ
      → PartialTransfer
      → ContentStore C
      → Option CasError × (PartialTransfer × ContentStore C)
      → Type 0
  Continued written p s r = (r.0 ≡ none) × (Holds written r.1.0 r.1.1 × Same p r.1.0 s r.1.1)

  continue_resumable_write-Continued :
      (now : ℕ) (bytes written : List ℕ) (p : PartialTransfer) (s : ContentStore C)
      → IsReady written p s
      → ltb p.expires_at now ≡ false
      → length written + length bytes < u64_mod
      → Continued (written ++ bytes) p s (continue_resumable_write now bytes p s)
  unfolding continue_resumable_write is_expired put_partial
  continue_resumable_write-Continued now bytes written p s (opens, count) timely small =
      rw (timely, opens, continue_resumable_write, is_expired)
        (
          refl,
          (
            (
              lookup-insert_self p.temp_name (written ++ bytes) s.files.partials,
              omega (arith, count, length-append written bytes),
            ),
            ((refl, refl), ((refl, refl), refl)),
          ),
        )

  -- A first piece, and the others after it
  continue_all-Continued :
      (now : ℕ) (bytes : List ℕ) (pieces : List (ℕ × List ℕ)) (written : List ℕ)
      (p : PartialTransfer) (s : ContentStore C)
      → IsReady written p s
      → All (IsTimely p.expires_at) ((now, bytes) ∷ pieces)
      → length written + length (bytes ++ joined pieces) < u64_mod
      → Continued
          (written ++ (bytes ++ joined pieces))
          p
          s
          (continue_all ((now, bytes) ∷ pieces) (p, s))
  unfolding continue_all joined
  continue_all-Continued now bytes [] written p s ready (timely, done) small =
      let sizes = length-append bytes [] in
      let continued =
        continue_resumable_write-Continued now bytes written p s ready timely
          (omega (arith, sizes)) in
      rw (continued.0, append-nil bytes, continue_all) (refl, continued.1)
  continue_all-Continued now bytes ((next, more) ∷ pieces) written p s ready (timely, later) small =
      let sizes = length-append bytes (more ++ joined pieces) in
      let (fine, (h, ((name, expiry), ((hash, size), objects)))) =
        continue_resumable_write-Continued now bytes written p s ready timely
          (omega (arith, sizes)) in
      let (p', s') = (continue_resumable_write now bytes p s).1 in
      let (fine', (h', ((name', expiry'), ((hash', size'), objects')))) =
        continue_all-Continued next more pieces (written ++ bytes) p' s'
          (Holds-IsReady (written ++ bytes) p' s' h)
          (subst (λ e. All (IsTimely e) ((next, more) ∷ pieces)) (sym expiry) later)
          (omega (arith, sizes, length-append written bytes)) in
      let last = (continue_all ((next, more) ∷ pieces) (p', s')).1 in
      rw (fine, continue_all)
        (
          fine',
          (
            subst (λ w. Holds w last.0 last.1) (append_assoc written bytes (more ++ joined pieces))
                h',
            ((name' ∙ name, expiry' ∙ expiry), ((hash' ∙ hash, size' ∙ size), objects' ∙ objects)),
          ),
        )

module _ {C : Type 0} (blake3 : List ℕ → Str) where
  -- The bytes are an object, to which the result refers, and the partial file is gone.
  abbrev pub IsStored : Str → List ℕ → Result ObjectRef × ContentStore C → Type 0
  IsStored name whole r =
      (r.0 ≡ ok (reference (blake3 whole) whole))
      × ((lookup (blake3 whole) r.1.files.objects ≡ some whole)
          × (lookup name r.1.files.partials ≡ none))

  store_partial-IsStored :
      (p : PartialTransfer) (whole : List ℕ) (s : ContentStore C)
      → lookup (blake3 whole) s.files.objects ≡ none
      → IsStored p.temp_name whole (store_partial p (blake3 whole) whole s)
  unfolding store_partial rename_partial add_to_dedup count_write remove_partial file_exists
  store_partial-IsStored p whole s fresh =
      let hash = blake3 whole in
      rw (fresh, store_partial, file_exists)
        (
          refl,
          (
            lookup-insert_self hash whole s.files.objects,
            lookup-remove p.temp_name p.temp_name s.files.partials
                ∙ ap (λ (b : Bool). if b then none else lookup p.temp_name s.files.partials)
                    (str_eq_refl p.temp_name),
          ),
        )

  complete_resumable_write-IsStored :
      (now : ℕ) (p : PartialTransfer) (whole : List ℕ) (s : ContentStore C)
      → ltb p.expires_at now ≡ false
      → lookup p.temp_name s.files.partials ≡ some whole
      → p.expected_hash ≡ some (blake3 whole)
      → p.total_size ≡ some (length whole)
      → length whole < u64_mod
      → lookup (blake3 whole) s.files.objects ≡ none
      → IsStored p.temp_name whole (complete_resumable_write blake3 now p s)
  unfolding complete_resumable_write check_and_store has_size is_expired
  complete_resumable_write-IsStored now p whole s timely there hash size small fresh =
      let sized : (length whole % u64_mod == length whole) ≡ true = ground (arith, small) in
      rw
        (
          timely,
          there,
          hash,
          str_eq_refl (blake3 whole),
          size,
          sized,
          complete_resumable_write,
          check_and_store,
          has_size,
          is_expired,
        )
        (store_partial-IsStored p whole s fresh)

  -- A resumable write is started with the hash and the size of the pieces together, which no object has, at least one piece
  -- arrives, none of them later than 24 hours after the start, and neither is the completion: no piece is refused, the pieces
  -- together are stored, the result refers to them, and the partial file is gone.
  pub complete_resumable_write-continue_all :
      (started now first_now : ℕ) (name : Str) (first : List ℕ) (pieces : List (ℕ × List ℕ))
      (s : ContentStore C)
      → All (IsTimely (started + 86400)) ((first_now, first) ∷ pieces)
      → ltb (started + 86400) now ≡ false
      → length (first ++ joined pieces) < u64_mod
      → lookup (blake3 (first ++ joined pieces)) s.files.objects ≡ none
      → let whole = first ++ joined pieces in
        let opened =
          start_resumable_write started name (some (blake3 whole)) (some (length whole)) s in
        let (failed, (p, s')) = continue_all ((first_now, first) ∷ pieces) opened in
        (failed ≡ none) × IsStored name whole (complete_resumable_write blake3 now p s')
  unfolding start_resumable_write new continue_all joined open_partial
  complete_resumable_write-continue_all started now first_now name first pieces s timely on_time
        small fresh =
      let whole = first ++ joined pieces in
      let (p0, s0) =
        start_resumable_write started name (some (blake3 whole)) (some (length whole)) s in
      let (fine, (h, ((name', expiry), ((hash, size), objects)))) =
        continue_all-Continued first_now first pieces [] p0 s0 (refl, refl) timely
          (omega (arith, small)) in
      let (p, s') = (continue_all ((first_now, first) ∷ pieces) (p0, s0)).1 in
      let stored =
        complete_resumable_write-IsStored now p whole s' (ap (λ e. ltb e now) expiry ∙ on_time) h.0
          hash size small (ap (lookup (blake3 whole)) objects ∙ fresh) in
      (fine, subst (λ n. IsStored n whole (complete_resumable_write blake3 now p s')) name' stored)
