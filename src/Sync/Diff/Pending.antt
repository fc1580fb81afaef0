-- ===== src/Sync/Diff/Pending.antt =====
-- landro-sync/src/diff.rs, IncrementalDiff: what an acknowledgement leaves pending.
use mathlib.Core.Path.{subst, sym, ap, ◌∙◌}
use landropic.Prelude.{
  ◌≡◌, refl, inl, inr, List, [], ◌∷◌, Option, none, some, Bool, true, false, not, ◌&&◌, Str, str_eq,
  str_eq_iff, contains, if◌then◌else◌, arith, Option-cases,
}
use landropic.Prelude.Dict.{Dict, lookup, insert, remove, lookup-insert, lookup-remove}
use landropic.Index.Manifest.{is_empty}
use landropic.Sync.Diff.{FileChange}
use landropic.Sync.Diff.Compute.{
  IncrementalDiff, unacknowledged, acknowledge_pending, acknowledge_changes, get_pending,
}
use landropic.Sync.Diff.Needed.{needs}

abbrev pub changes_of : Option (List FileChange) → List FileChange
changes_of none = []
changes_of (some changes) = changes

contains-unacknowledged :
    (acked hs : List Str) (h : Str)
    → contains (unacknowledged acked hs) h ≡ contains hs h && not (contains acked h)
unfolding unacknowledged contains
contains-unacknowledged acked [] h = refl
contains-unacknowledged acked (x ∷ hs) h =
    ground (arith, contains-unacknowledged acked hs h, str_eq_iff x h)

is_empty-contains : (hs : List Str) (h : Str) → is_empty hs ≡ true → contains hs h ≡ false
unfolding contains
is_empty-contains [] h p = refl
is_empty-contains (x ∷ hs) h p = cc

needs-acknowledge_pending :
    (acked : List Str) (cs : List FileChange) (h : Str)
    → needs (acknowledge_pending acked cs) h ≡ needs cs h && not (contains acked h)
unfolding needs acknowledge_pending
needs-acknowledge_pending acked [] h = refl
needs-acknowledge_pending acked (c ∷ cs) h = ground (
  arith,
  needs-acknowledge_pending acked cs h,
  contains-unacknowledged acked c.required_chunks h,
  is_empty-contains (unacknowledged acked c.required_chunks) h,
)

is_empty-needs : (cs : List FileChange) (h : Str) → is_empty cs ≡ true → needs cs h ≡ false
unfolding needs
is_empty-needs [] h p = refl
is_empty-needs (c ∷ cs) h p = cc

-- What is stored for a peer after the loop.
stored-lookup :
    (left : List FileChange) (peer_id k : Str) (d : Dict (List FileChange))
    → lookup k (if is_empty left then remove peer_id d else insert peer_id left d)
      ≡ (if str_eq peer_id k then (if is_empty left then none else some left) else lookup k d)
stored-lookup left peer_id k d =
    ground (arith, lookup-insert peer_id k left d, lookup-remove peer_id k d)

needs-left :
    (left : List FileChange) (h : Str)
    → needs (changes_of (if is_empty left then none else some left)) h ≡ needs left h
unfolding needs
needs-left [] h = refl
needs-left (c ∷ cs) h = refl

left_needs :
    (pending : List FileChange) (acked : List Str) (own : Bool) (before : Option (List FileChange))
    (h : Str)
    → (own ≡ true → before ≡ some pending)
    → needs
        (changes_of (
          if own
          then (if is_empty (acknowledge_pending acked pending)
              then none
              else some (acknowledge_pending acked pending))
          else before))
        h
      ≡ needs (changes_of before) h && not (own && contains acked h)
left_needs pending acked true before h p =
    needs-left (acknowledge_pending acked pending) h
    ∙ needs-acknowledge_pending acked pending h
    ∙ ap (λ o. needs (changes_of o) h && not (contains acked h)) (sym (p refl))
left_needs pending acked false before h p = ground arith

idle_needs :
    (acked : List Str) (own : Bool) (before : Option (List FileChange)) (h : Str)
    → (own ≡ true → before ≡ none)
    → needs (changes_of before) h ≡ needs (changes_of before) h && not (own && contains acked h)
unfolding needs
idle_needs acked true before h p = rw (p refl) refl
idle_needs acked false before h p = ground arith

acknowledge_idle :
    (t : IncrementalDiff) (peer_id : Str) (acked : List Str)
    → lookup peer_id t.pending_changes ≡ none
    → acknowledge_changes t peer_id acked ≡ t
unfolding acknowledge_changes
acknowledge_idle t peer_id acked e = rw (e, acknowledge_changes) refl

acknowledge_busy :
    (t : IncrementalDiff) (peer_id : Str) (acked : List Str) (pending : List FileChange)
    → lookup peer_id t.pending_changes ≡ some pending
    → acknowledge_changes t peer_id acked ≡ record t {
      pending_changes =
          if is_empty (acknowledge_pending acked pending)
          then remove peer_id t.pending_changes
          else insert peer_id (acknowledge_pending acked pending) t.pending_changes;
    }
unfolding acknowledge_changes
acknowledge_busy t peer_id acked pending e = rw (e, acknowledge_changes) refl

-- After an acknowledgement by a peer, what is pending for that peer needs exactly the chunks that it needed
-- before and that were not acknowledged; what is pending for every other peer needs what it needed.
pub acknowledge_changes-get_pending :
    (t : IncrementalDiff) (peer_id k : Str) (acked : List Str) (h : Str)
    → needs (changes_of (get_pending (acknowledge_changes t peer_id acked) k)) h
      ≡ needs (changes_of (get_pending t k)) h && not (str_eq peer_id k && contains acked h)
unfolding get_pending
acknowledge_changes-get_pending t peer_id k acked h =
    let claim : Option (List FileChange) → Type 0 = λ o.
      needs (changes_of o) h
      ≡ needs (changes_of (lookup k t.pending_changes)) h
        && not (str_eq peer_id k && contains acked h) in
    elim (Option-cases (lookup peer_id t.pending_changes)) [
      | inl idle ↦
          subst (λ x. claim (lookup k x.pending_changes))
            (sym (acknowledge_idle t peer_id acked idle))
            (idle_needs acked (str_eq peer_id k) (lookup k t.pending_changes) h (λ same.
              subst (λ x. lookup x t.pending_changes ≡ none) ((str_eq_iff peer_id k).0 same) idle))
      | inr (pending, busy) ↦
          subst (λ x. claim (lookup k x.pending_changes))
            (sym (acknowledge_busy t peer_id acked pending busy))
            (subst claim
              (sym (stored-lookup (acknowledge_pending acked pending) peer_id k t.pending_changes))
              (left_needs pending acked (str_eq peer_id k) (lookup k t.pending_changes) h (λ same.
                subst (λ x. lookup x t.pending_changes ≡ some pending)
                  ((str_eq_iff peer_id k).0 same) busy)))
    ]
