-- ===== src/Proto/Version.antt =====
-- landro-proto/src/lib.rs: VersionNegotiator.
use landropic.Prelude.{
  ℕ, ◌+◌, ◌-◌, ◌*◌, ◌^◌, List, [], ◌∷◌, Option, none, some, Bool, false, ◌&&◌, Str, if◌then◌else◌,
  ltb, leb, ◌==◌,
}

abbrev pub protocol_version_major : ℕ
protocol_version_major = 0

-- The first part grows by a byte.
unfoldable pub prepend : ℕ → List Str → List Str
prepend b [] = (b ∷ []) ∷ []
prepend b (part ∷ parts) = (b ∷ part) ∷ parts

-- str::split at one byte; there is always a part.
unfoldable pub split : ℕ → Str → List Str
unfolding prepend
split sep [] = [] ∷ []
split sep (b ∷ bs) = let rest = split sep bs in if b == sep then [] ∷ rest else prepend b rest

-- str::parse::<u32>: decimal digits, after a plus sign or not, of a number below 2 ^ 32.
unfoldable pub digits : ℕ → Str → Option ℕ
digits value [] = some value
digits value (b ∷ bs) =
    let next = value * 10 + (b - b'0') in
    let rest = digits next bs in
    if leb b'0' b && (leb b b'9' && ltb next (2 ^ 32)) then rest else none

unfoldable pub parse_u32 : Str → Option ℕ
unfolding digits
parse_u32 [] = none
parse_u32 (b ∷ []) = digits 0 (b ∷ [])
parse_u32 (b ∷ c ∷ bs) = if b == b'+' then digits 0 (c ∷ bs) else digits 0 (b ∷ c ∷ bs)

infixl 5 ◌>>=◌
abbrev pub ◌>>=◌ : {A B : Type 0} → Option A → (A → Option B) → Option B
none >>= f = none
some a >>= f = f a

unfoldable pub version_of : List Str → Option (ℕ × ℕ × ℕ)
version_of (p ∷ q ∷ r ∷ []) = do
  major ← parse_u32 p
  minor ← parse_u32 q
  patch ← parse_u32 r
  some (major, minor, patch)
version_of _ = none

unfoldable pub parse_version : Str → Option (ℕ × ℕ × ℕ)
unfolding version_of split
parse_version version = version_of (split b'.' version)

abbrev pub is_our_major : Option (ℕ × ℕ × ℕ) → Bool
is_our_major none = false
is_our_major (some (major, minor, patch)) = major == protocol_version_major

unfoldable pub is_compatible : Str → Bool
unfolding parse_version
is_compatible peer_version = is_our_major (parse_version peer_version)
