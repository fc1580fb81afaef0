-- ===== src/Resume/Updates.antt =====
-- What the updates of a checkpoint keep.
use landropic.Prelude.{
  IsDistinct, List, [], ◌∷◌, ◌++◌, true, false, not, ◌||◌, ◌&&◌, Str, contains, str_eq, str_eq_iff,
  ◌≡◌, refl, arith, Bool-cases, inl, inr,
}
use landropic.Bloom.Handler.{
  DiffStage, initializing, exchanging_summaries, comparing_manifests, requesting_details,
  transferring_chunks, completed,
}
use landropic.Resume.{
  ResumeCheckpoint, CheckpointUpdate, stage_update, progress, chunk_transferred, chunk_failed,
  bytes_transferred, error, complete, without, apply_stage, apply_update,
}

contains-snoc :
    (xs : List Str) (x y : Str) → contains (xs ++ x ∷ []) y ≡ contains xs y || str_eq x y
unfolding contains
contains-snoc [] x y = ground arith
contains-snoc (z ∷ xs) x y = ground (arith, contains-snoc xs x y)

IsDistinct-snoc :
    (xs : List Str) (x : Str) → contains xs x ≡ false → IsDistinct xs → IsDistinct (xs ++ x ∷ [])
unfolding contains
IsDistinct-snoc [] x h d = (refl, tt)
IsDistinct-snoc (z ∷ xs) x h d = (
  ground (arith, contains-snoc xs x z, d.0, h, str_eq_iff z x, str_eq_iff x z),
  IsDistinct-snoc xs x (ground (arith, h)) d.1,
)

contains-without :
    (x : Str) (xs : List Str) (y : Str)
    → contains (without x xs) y ≡ contains xs y && not (str_eq x y)
unfolding contains without
contains-without x [] y = refl
contains-without x (z ∷ xs) y =
    ground (arith, contains-without x xs y, str_eq_iff z x, str_eq_iff z y, str_eq_iff x y)

IsDistinct-without : (x : Str) (xs : List Str) → IsDistinct xs → IsDistinct (without x xs)
unfolding without
IsDistinct-without x [] d = tt
IsDistinct-without x (z ∷ xs) d =
    ground (arith, contains-without x xs z, d.0, IsDistinct-without x xs d.1)

-- The chunks that were transferred, and those that failed, are listed once each.
pub record IsTidy (c : ResumeCheckpoint) : Type 0 where
  pub transferred : IsDistinct c.chunks_transferred
  pub failed : IsDistinct c.chunks_failed

-- The updates in turn.
pub apply_all : List CheckpointUpdate → ResumeCheckpoint → ResumeCheckpoint
apply_all [] c = c
apply_all (update ∷ updates) c = apply_all updates (apply_update update c)

apply_stage-IsTidy :
    (stage : DiffStage) (c : ResumeCheckpoint) → IsTidy c → IsTidy (apply_stage stage c)
unfolding apply_stage
apply_stage-IsTidy initializing c t = record { transferred = t.transferred; failed = t.failed }
apply_stage-IsTidy exchanging_summaries c t = record {
  transferred = t.transferred;
  failed = t.failed;
}
apply_stage-IsTidy comparing_manifests c t = record {
  transferred = t.transferred;
  failed = t.failed;
}
apply_stage-IsTidy requesting_details c t = record {
  transferred = t.transferred;
  failed = t.failed;
}
apply_stage-IsTidy transferring_chunks c t = record {
  transferred = t.transferred;
  failed = t.failed;
}
apply_stage-IsTidy completed c t = record { transferred = t.transferred; failed = t.failed }

apply_update-IsTidy :
    (update : CheckpointUpdate) (c : ResumeCheckpoint) → IsTidy c → IsTidy (apply_update update c)
unfolding apply_update
apply_update-IsTidy (stage_update stage) c t = apply_stage-IsTidy stage c t
apply_update-IsTidy (progress percent) c t = record {
  transferred = t.transferred;
  failed = t.failed;
}
apply_update-IsTidy (chunk_transferred h) c t =
    elim (Bool-cases (contains c.chunks_transferred h)) [
      | inl old ↦ rw (old, apply_update) t
      | inr fresh ↦
          rw (fresh, apply_update)
            (record {
              transferred = IsDistinct-snoc c.chunks_transferred h fresh t.transferred;
              failed = IsDistinct-without h c.chunks_failed t.failed;
            })
    ]
apply_update-IsTidy (chunk_failed h) c t = elim (Bool-cases (contains c.chunks_failed h)) [
  | inl old ↦ rw (old, apply_update) (record { transferred = t.transferred; failed = t.failed })
  | inr fresh ↦
      rw (fresh, apply_update)
        (record {
          transferred = t.transferred;
          failed = IsDistinct-snoc c.chunks_failed h fresh t.failed;
        })
]
apply_update-IsTidy (bytes_transferred bytes) c t = record {
  transferred = t.transferred;
  failed = t.failed;
}
apply_update-IsTidy (error message) c t = record { transferred = t.transferred; failed = t.failed }
apply_update-IsTidy complete c t = record { transferred = t.transferred; failed = t.failed }

apply_update-keeps :
    (update : CheckpointUpdate) (c : ResumeCheckpoint) (hash : Str)
    → contains c.chunks_transferred hash ≡ true
    → contains (apply_update update c).chunks_transferred hash ≡ true
unfolding apply_update apply_stage
apply_update-keeps (stage_update stage) c hash h = ground arith
apply_update-keeps (progress percent) c hash h = h
apply_update-keeps (chunk_transferred x) c hash h =
    ground (arith, contains-snoc c.chunks_transferred x hash)
apply_update-keeps (chunk_failed x) c hash h = h
apply_update-keeps (bytes_transferred bytes) c hash h = h
apply_update-keeps (error message) c hash h = h
apply_update-keeps complete c hash h = h

-- Over any updates a tidy checkpoint stays tidy, and a chunk that was transferred stays so.
pub apply_all-IsTidy :
    (updates : List CheckpointUpdate) (c : ResumeCheckpoint)
    → IsTidy c
    → IsTidy (apply_all updates c)
      × ((hash : Str)
          → contains c.chunks_transferred hash ≡ true
          → contains (apply_all updates c).chunks_transferred hash ≡ true)
unfolding apply_all
apply_all-IsTidy [] c t = (t, λ hash h. h)
apply_all-IsTidy (update ∷ updates) c t =
    let (tidy, kept) =
      apply_all-IsTidy updates (apply_update update c) (apply_update-IsTidy update c t) in
    (tidy, λ hash h. kept hash (apply_update-keeps update c hash h))
