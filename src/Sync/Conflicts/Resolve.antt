-- ===== src/Sync/Conflicts/Resolve.antt =====
-- The two peers of a conflict resolve it alike.
use landropic.Prelude.{
  ℕ, ◌≡◌, refl, Option, none, some, Bool, true, false, not, Str, str_eq_iff, arith, ◌==◌, ap,
}
use landropic.Index.Manifest.{ManifestEntry}
use landropic.Sync.Conflicts.{
  Conflict, ConflictType, both_modified, deleted_modified, ConflictResolution, keep_local,
  keep_remote, keep_newer, ConflictDetector, check_file_conflict, auto_resolve_conflict, choose,
  newer, is_manual, manual,
}

-- The conflict as the other peer sees it, and the answer that means the same file there.
abbrev pub mirror : Conflict → Conflict
mirror c = record c { local_entry = c.remote_entry; remote_entry = c.local_entry }

abbrev pub flip : ConflictResolution → ConflictResolution
flip keep_local = keep_remote
flip keep_remote = keep_local
flip other = other

-- Two files were not changed at the same instant.
abbrev pub untied : Option ManifestEntry → Option ManifestEntry → Bool
untied (some a) (some b) = not (a.modified_at == b.modified_at)
untied a b = true

check_file_conflict-mirror :
    (now : ℕ) (path : Str) (local remote : Option ManifestEntry) (last : Option ℕ) (c : Conflict)
    → check_file_conflict now path local remote last ≡ some c
    → check_file_conflict now path remote local last ≡ some (mirror c)
unfolding check_file_conflict
check_file_conflict-mirror now path (some l) (some r) (some t) c e =
    ground
      (arith, str_eq_iff l.content_hash r.content_hash, str_eq_iff r.content_hash l.content_hash)
check_file_conflict-mirror now path (some l) (some r) none c e =
    ground
      (arith, str_eq_iff l.content_hash r.content_hash, str_eq_iff r.content_hash l.content_hash)
check_file_conflict-mirror now path (some l) none (some t) c e = ground arith
check_file_conflict-mirror now path (some l) none none c e = cc
check_file_conflict-mirror now path none (some r) (some t) c e = ground arith
check_file_conflict-mirror now path none (some r) none c e = cc
check_file_conflict-mirror now path none none last c e = cc

-- A conflict has the two entries that were checked, and the type that they make.
abbrev pub type_of : Option ManifestEntry → Option ManifestEntry → ConflictType
type_of (some l) (some r) = both_modified
type_of l r = deleted_modified

check_file_conflict-fields :
    (now : ℕ) (path : Str) (local remote : Option ManifestEntry) (last : Option ℕ) (c : Conflict)
    → check_file_conflict now path local remote last ≡ some c
    → (c.conflict_type ≡ type_of local remote) × (c.local_entry ≡ local) × (c.remote_entry ≡ remote)
unfolding check_file_conflict
check_file_conflict-fields now path (some l) (some r) (some t) c e = ground arith
check_file_conflict-fields now path (some l) (some r) none c e = ground arith
check_file_conflict-fields now path (some l) none (some t) c e = ground arith
check_file_conflict-fields now path (some l) none none c e = cc
check_file_conflict-fields now path none (some r) (some t) c e = ground arith
check_file_conflict-fields now path none (some r) none c e = cc
check_file_conflict-fields now path none none last c e = cc

newer-mirror :
    (l r : ManifestEntry) → (l.modified_at == r.modified_at) ≡ false → newer r l ≡ flip (newer l r)
unfolding newer
newer-mirror l r p = ground arith

abbrev present : Option ManifestEntry → Option ManifestEntry → Bool
present none none = false
present l r = true

choose-type_of :
    (local remote : Option ManifestEntry)
    → present local remote ≡ true
    → untied local remote ≡ true
    → choose keep_newer (type_of local remote) remote local
      ≡ flip (choose keep_newer (type_of local remote) local remote)
unfolding choose
choose-type_of (some l) (some r) p u = newer-mirror l r (ground arith)
choose-type_of (some l) none p u = refl
choose-type_of none (some r) p u = refl
choose-type_of none none p u = cc

check_file_conflict-present :
    (now : ℕ) (path : Str) (local remote : Option ManifestEntry) (last : Option ℕ) (c : Conflict)
    → check_file_conflict now path local remote last ≡ some c
    → present local remote ≡ true
unfolding check_file_conflict
check_file_conflict-present now path none none last c e = cc
check_file_conflict-present now path none (some r) last c e = refl
check_file_conflict-present now path (some l) none last c e = refl
check_file_conflict-present now path (some l) (some r) last c e = refl

choose-mirror :
    (now : ℕ) (path : Str) (local remote : Option ManifestEntry) (last : Option ℕ) (c : Conflict)
    → check_file_conflict now path local remote last ≡ some c
    → untied local remote ≡ true
    → choose keep_newer c.conflict_type c.remote_entry c.local_entry
      ≡ flip (choose keep_newer c.conflict_type c.local_entry c.remote_entry)
choose-mirror now path local remote last c e u =
    let (kind, l, r) = check_file_conflict-fields now path local remote last c e in
    rw (kind, l, r)
      (choose-type_of local remote (check_file_conflict-present now path local remote last c e) u)

choose-automatic :
    (local remote : Option ManifestEntry)
    → present local remote ≡ true
    → is_manual (choose keep_newer (type_of local remote) local remote) ≡ false
unfolding choose newer
choose-automatic (some l) (some r) p = ground arith
choose-automatic (some l) none p = refl
choose-automatic none (some r) p = refl
choose-automatic none none p = cc

flip-automatic : (a b : ConflictResolution) → a ≡ flip b → is_manual b ≡ false → is_manual a ≡ false
flip-automatic a keep_local e h = rw e refl
flip-automatic a keep_remote e h = rw e refl
flip-automatic a keep_newer e h = rw e refl
flip-automatic a manual e h = cc

check_file_conflict-now :
    (now other : ℕ) (path : Str) (local remote : Option ManifestEntry) (last : Option ℕ)
    (c : Conflict)
    → check_file_conflict now path local remote last ≡ some c
    → check_file_conflict other path local remote last ≡ some (record c { detected_at = other })
unfolding check_file_conflict
check_file_conflict-now now other path (some l) (some r) (some t) c e = ground arith
check_file_conflict-now now other path (some l) (some r) none c e = ground arith
check_file_conflict-now now other path (some l) none (some t) c e = ground arith
check_file_conflict-now now other path (some l) none none c e = cc
check_file_conflict-now now other path none (some r) (some t) c e = ground arith
check_file_conflict-now now other path none (some r) none c e = cc
check_file_conflict-now now other path none none last c e = cc

-- Two peers have the same time of the last sync, see the same two files, that were not changed at the same instant, and resolve
-- conflicts automatically with the default strategy. At whatever instants they look, what is a conflict for the one is the mirrored
-- conflict for the other; both mark it as resolved, and they choose the same file.
pub auto_resolve_conflict-mirror :
    (d : ConflictDetector) (now other : ℕ) (path : Str) (local remote : Option ManifestEntry)
    (last : Option ℕ) (c : Conflict)
    → d.config.default_resolution ≡ keep_newer
    → d.config.auto_resolve ≡ true
    → check_file_conflict now path local remote last ≡ some c
    → untied local remote ≡ true
    → let theirs : Conflict = record (mirror c) { detected_at = other } in
      (check_file_conflict other path remote local last ≡ some theirs)
      × (((auto_resolve_conflict d theirs).0 ≡ flip (auto_resolve_conflict d c).0)
          × (((auto_resolve_conflict d c).1.resolved ≡ true)
              × ((auto_resolve_conflict d theirs).1.resolved ≡ true)))
unfolding auto_resolve_conflict
auto_resolve_conflict-mirror d now other path local remote last c n auto e u =
    let mirrored =
      check_file_conflict-now now other path remote local last (mirror c)
        (check_file_conflict-mirror now path local remote last c e) in
    let flipped = choose-mirror now path local remote last c e u in
    let (kind, l, r) = check_file_conflict-fields now path local remote last c e in
    let here : is_manual (choose keep_newer c.conflict_type c.local_entry c.remote_entry) ≡ false =
      rw (kind, l, r)
        (choose-automatic local remote
          (check_file_conflict-present now path local remote last c e)) in
    let there : is_manual (choose keep_newer c.conflict_type c.remote_entry c.local_entry) ≡ false =
      flip-automatic _ _ flipped here in
    (mirrored, rw (n, auto) (flipped, (ap not here, ap not there)))
