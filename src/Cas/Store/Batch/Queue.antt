-- ===== src/Cas/Store/Batch/Queue.antt =====
-- What becomes of the chunks of a batch.
use landropic.Prelude.{
  ℕ, List, [], ◌∷◌, ◌++◌, Option, none, some, true, false, Str, length, map, str_eq, str_eq_refl,
  ◌≡◌, refl, sym, ◌∙◌, ap, arith, All, Option-cases, Bool-cases, inl, inr, ◌⊎◌,
}
use mathlib.Core.Path.{ap₂, subst}
use mathlib.Core.List.{append_assoc, append-nil}
use landropic.Prelude.Dict.{lookup, All-lookup}
use landropic.Cas.Packfile.{Result, ok}
use landropic.Cas.Manager.{find_pending}
use landropic.Cas.Store.{LruCache, ContentStore, ObjectRef}
use landropic.Cas.Store.Operations.{Environment, reference, validate_object_size, count_dedup_hit}
use landropic.Cas.Store.Batch.{
  should_flush, flush_if_due, write_batch, push_all, push_pending, hash_of,
}

-- A chunk of a permitted size, without a hash of its own
abbrev pub IsPlain : List ℕ × Option Str → Type 0
IsPlain chunk = (validate_object_size (length chunk.0) ≡ true) × (chunk.1 ≡ none)

-- The index describes each object under its own hash.
abbrev pub NamesItself : Str × ObjectRef → Type 0
NamesItself entry = entry.1.hash ≡ entry.0

module _ {C : Type 0} (env : Environment) (lru : LruCache C) where
  -- The hash waits to be written, or the index has it.
  abbrev pub IsKnown : Str → ContentStore C → Type 0
  IsKnown hash s =
      ((bytes : List ℕ) × (find_pending hash s.batch_writer.pending ≡ some bytes))
      ⊎ ((r : ObjectRef) × (lookup hash s.dedup_index ≡ some r))

  find_pending-append :
      (hash : Str) (bytes : List ℕ) (xs ys : List (Str × List ℕ))
      → find_pending hash xs ≡ some bytes
      → find_pending hash (xs ++ ys) ≡ some bytes
  unfolding find_pending
  find_pending-append hash bytes [] ys e = absurd cc
  find_pending-append hash bytes ((h, b) ∷ xs) ys e =
      ground (arith, e, find_pending-append hash bytes xs ys)

  find_pending-snoc :
      (hash : Str) (bytes : List ℕ) (xs : List (Str × List ℕ))
      → (found : List ℕ) × (find_pending hash (xs ++ (hash, bytes) ∷ []) ≡ some found)
  unfolding find_pending
  find_pending-snoc hash bytes [] = (bytes, ground (arith, str_eq_refl hash))
  find_pending-snoc hash bytes ((h, b) ∷ xs) = elim (Bool-cases (str_eq h hash)) [
    | inl same ↦ (b, rw same refl)
    | inr other ↦ let (found, e) = find_pending-snoc hash bytes xs in (found, rw other e)
  ]

  push_pending-IsKnown :
      (hash other : Str) (bytes : List ℕ) (s : ContentStore C)
      → IsKnown hash s
      → IsKnown hash (push_pending other bytes s)
  unfolding push_pending
  push_pending-IsKnown hash other bytes s (inl (found, e)) =
      inl (found, find_pending-append hash found s.batch_writer.pending ((other, bytes) ∷ []) e)
  push_pending-IsKnown hash other bytes s (inr known) = inr known

  -- What is known stays known.
  push_all-IsKnown :
      (hash : Str) (chunks : List (List ℕ × Option Str)) (results : List ObjectRef)
      (s : ContentStore C)
      → IsKnown hash s
      → IsKnown hash (push_all env lru chunks results s).1
  unfolding push_all count_dedup_hit
  push_all-IsKnown hash [] results s h = h
  push_all-IsKnown hash ((bytes, expected) ∷ chunks) results s h =
      elim (Bool-cases (validate_object_size (length bytes))) [
        | inr large ↦ rw (large, push_all) h
        | inl small ↦
            let own = hash_of env lru bytes expected in
            elim (Option-cases (lookup own s.dedup_index)) [
              | inr (r, there) ↦
                  rw (small, there, push_all)
                    (push_all-IsKnown hash chunks (results ++ r ∷ []) (count_dedup_hit s) h)
              | inl fresh ↦
                  rw (small, fresh, push_all)
                    (push_all-IsKnown hash chunks (results ++ reference own bytes ∷ [])
                      (push_pending own bytes s) (push_pending-IsKnown hash own bytes s h))
            ]
      ]

  abbrev own_hashes : List (List ℕ × Option Str) → List Str
  own_hashes chunks = map (λ (chunk : List ℕ × Option Str). env.blake3 chunk.0) chunks

  abbrev hashes_of : List ObjectRef → List Str
  hashes_of refs = map (λ (r : ObjectRef). r.hash) refs

  -- The references are those of the chunks, in order, and each chunk waits or is in the index.
  abbrev pub Queues :
      List (List ℕ × Option Str)
      → List ObjectRef
      → Result (List ObjectRef) × ContentStore C
      → Type 0
  Queues chunks results r =
      (refs : List ObjectRef) × ((r.0 ≡ ok (results ++ refs))
        × ((hashes_of refs ≡ own_hashes chunks)
            × All (λ chunk. IsKnown (env.blake3 chunk.0) r.1) chunks))

  -- A chunk that is known, and the others behind it
  Queues-cons :
      (bytes : List ℕ) (chunks : List (List ℕ × Option Str)) (results : List ObjectRef)
      (r : ObjectRef) (s : ContentStore C)
      → r.hash ≡ env.blake3 bytes
      → IsKnown (env.blake3 bytes) s
      → Queues chunks (results ++ r ∷ []) (push_all env lru chunks (results ++ r ∷ []) s)
      → Queues ((bytes, none) ∷ chunks) results (push_all env lru chunks (results ++ r ∷ []) s)
  Queues-cons bytes chunks results r s same known (refs, (answered, (hashes, others))) = (
    r ∷ refs,
    (
      answered ∙ ap ok (append_assoc results (r ∷ []) refs),
      (
        ap₂ ◌∷◌ same hashes,
        (push_all-IsKnown (env.blake3 bytes) chunks (results ++ r ∷ []) s known, others),
      ),
    ),
  )

  push_all-Queues :
      (chunks : List (List ℕ × Option Str)) (results : List ObjectRef) (s : ContentStore C)
      → All IsPlain chunks
      → All NamesItself s.dedup_index
      → Queues chunks results (push_all env lru chunks results s)
  unfolding push_all count_dedup_hit push_pending hash_of reference
  push_all-Queues [] results s plain named = ([], (ap ok (sym (append-nil results)), (refl, tt)))
  push_all-Queues ((bytes, some expected) ∷ chunks) results s plain named = absurd cc
  push_all-Queues ((bytes, none) ∷ chunks) results s plain named =
      let hash = env.blake3 bytes in
      elim (Option-cases (lookup hash s.dedup_index)) [
        | inr (r, there) ↦
            let s' = count_dedup_hit s in
            let pushed : push_all env lru ((bytes, none) ∷ chunks) results s
                ≡ push_all env lru chunks (results ++ r ∷ []) s' =
              rw (plain.0.0, there, push_all) refl in
            subst (Queues ((bytes, none) ∷ chunks) results) (sym pushed) (
              Queues-cons bytes chunks results r s'
                (All-lookup NamesItself hash r s.dedup_index named there) (inr (r, there))
                (push_all-Queues chunks (results ++ r ∷ []) s' plain.1 named))
        | inl fresh ↦
            let s' = push_pending hash bytes s in
            let r = reference hash bytes in
            let pushed : push_all env lru ((bytes, none) ∷ chunks) results s
                ≡ push_all env lru chunks (results ++ r ∷ []) s' =
              rw (plain.0.0, fresh, push_all) refl in
            subst (Queues ((bytes, none) ∷ chunks) results) (sym pushed) (
              Queues-cons bytes chunks results r s' refl
                (inl (find_pending-snoc hash bytes s.batch_writer.pending))
                (push_all-Queues chunks (results ++ r ∷ []) s' plain.1 named))
      ]

  -- A batch of chunks of permitted sizes, without hashes of their own, that is not flushed at once: where the index describes each
  -- object under its own hash, write_batch answers with the hashes of the chunks, in order, and each of these hashes waits to be
  -- written or is in the index.
  pub write_batch-Queues :
      (now : ℕ) (chunks : List (List ℕ × Option Str)) (s : ContentStore C)
      → All IsPlain chunks
      → All NamesItself s.dedup_index
      → should_flush now (push_all env lru chunks [] s).1.batch_writer ≡ false
      → (r : Result (List ObjectRef) × ContentStore C) × ((write_batch env lru now chunks s
            ≡ some r)
          × Queues chunks [] r)
  unfolding write_batch flush_if_due
  write_batch-Queues now chunks s plain named waits =
      let (refs, (answered, rest)) = push_all-Queues chunks [] s plain named in
      let s' = (push_all env lru chunks [] s).1 in
      (
        (ok refs, s'),
        (rw (answered, write_batch) (rw (waits, flush_if_due) refl), (refs, (refl, rest))),
      )
