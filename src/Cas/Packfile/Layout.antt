-- ===== src/Cas/Packfile/Layout.antt =====
-- Bytes of numbers, and reads from what was written.
use landropic.Prelude.{
  ℕ, zero, suc, ◌/◌, ◌^◌, ◌<◌, ◌≡◌, refl, List, [], ◌∷◌, ◌++◌, false, length, length-append, take,
  drop, ltb, arith, ap, sym,
}
use landropic.Cas.Packfile.{ok, to_le, from_le, read_exact}

pub length-to_le : (w n : ℕ) → length (to_le w n) ≡ w
unfolding to_le
length-to_le zero n = refl
length-to_le (suc w) n = ap suc (length-to_le w (n / 256))

pub from_le-to_le4 : (n : ℕ) → n < 2 ^ 32 → from_le (to_le 4 n) ≡ n
unfolding to_le from_le
from_le-to_le4 n h = omega arith

pub from_le-to_le8 : (n : ℕ) → n < 2 ^ 64 → from_le (to_le 8 n) ≡ n
unfolding to_le from_le
from_le-to_le8 n h = omega arith

pub take-append : {A : Type 0} (xs ys : List A) → take (length xs) (xs ++ ys) ≡ xs
take-append [] ys = refl
take-append (x ∷ xs) ys = ap (◌∷◌ x) (take-append xs ys)

pub drop-append : {A : Type 0} (xs ys : List A) → drop (length xs) (xs ++ ys) ≡ ys
drop-append [] ys = refl
drop-append (x ∷ xs) ys = drop-append xs ys

pub read_exact-append :
    (n : ℕ) (xs ys : List ℕ) → length xs ≡ n → read_exact n (xs ++ ys) ≡ ok (xs, ys)
unfolding read_exact
read_exact-append n xs ys h =
    rw (sym h, read_exact)
      (let long : ltb (length (xs ++ ys)) (length xs) ≡ false =
          ground (arith, length-append xs ys) in
        rw (long, take-append xs ys, drop-append xs ys) refl)
