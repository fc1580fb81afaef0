-- ===== src/Cas/Store/Crash.antt =====
-- A write that is cut off, and the recovery after it.
use landropic.Prelude.{ℕ, List, Option, none, some, Str, ◌≡◌, All}
use landropic.Prelude.Dict.{Dict, lookup}
use landropic.Cas.Store.{Files}

-- Each object has the hash that it is filed under.
abbrev pub Intact : (List ℕ → Str) → Dict (List ℕ) → Type 0
Intact blake3 objects = All (λ object. blake3 object.1 ≡ object.0) objects

-- What was stored is there, as it was.
abbrev pub Kept : Option (List ℕ) → Option (List ℕ) → Type 0
Kept none after = Unit
Kept (some bytes) after = after ≡ some bytes

module _ (blake3 : List ℕ → Str) where
  -- The objects are intact, and those that were there before are there, as they were.
  abbrev Safe : Files → Files → Type 0
  Safe before f =
      Intact blake3 f.objects
      × ((name : Str) (found : List ℕ)
          → lookup name before.objects ≡ some found
          → lookup name f.objects ≡ some found)
