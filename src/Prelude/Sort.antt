-- ===== src/Prelude/Sort.antt =====
-- Rust's stable `sort_by`, as insertion from the right: equal items keep their order.
use mathlib.Core.List.{Perm, Mem, mem-cons, mem-cons_self, mem-cons_of_mem, not-mem-nil}
use mathlib.Core.Logic.Or
use mathlib.Core.List.Perm
use landropic.Prelude.Tests.{if◌then◌else◌, Bool-cases}
use landropic.Prelude.Lists.{All, All-mono}
use mathlib.Core.Path.{◌≡◌, sym, ap₂, subst}
use mathlib.Core.Logic.{◌⊎◌, inl, inr}
use mathlib.Core.Bool.{Bool, Bool-set, true, false}
use mathlib.Core.List.{List, [], ◌∷◌}
use native.Mathlib.Omega.{arith}

-- `le a b` when `cmp(a, b)` is not Greater.
module _ {ℓ} {A : Type ℓ} (le : A → A → Bool) where
  unfoldable pub insert_sorted : A → List A → List A
  insert_sorted a [] = a ∷ []
  insert_sorted a (x ∷ xs) = if le a x then a ∷ x ∷ xs else x ∷ insert_sorted a xs

  unfoldable pub sort_by : List A → List A
  unfolding insert_sorted
  sort_by [] = []
  sort_by (x ∷ xs) = insert_sorted x (sort_by xs)

  insert_sorted-perm : (a : A) (xs : List A) → Perm (insert_sorted a xs) (a ∷ xs)
  unfolding insert_sorted
  insert_sorted-perm a [] = Perm.refl (a ∷ [])
  insert_sorted-perm a (x ∷ xs) = elim (Bool-cases (le a x)) [
    | inl e ↦ rw e (Perm.refl (a ∷ x ∷ xs))
    | inr e ↦ rw e (Perm.trans (Perm.cons x (insert_sorted-perm a xs)) (Perm.swap a x xs))
  ]

  pub sort_by-perm : (xs : List A) → Perm (sort_by xs) xs
  unfolding sort_by
  sort_by-perm [] = Perm.nil
  sort_by-perm (x ∷ xs) =
      Perm.trans (insert_sorted-perm x (sort_by xs)) (Perm.cons x (sort_by-perm xs))

  -- Every item is at most each item behind it.
  abbrev pub IsSorted : List A → Type ℓ
  IsSorted [] = Unit
  IsSorted (x ∷ xs) = All (λ y. le x y ≡ true) xs × IsSorted xs

module _ {ℓ} {A : Type ℓ} (le : A → A → Bool) where
  insert_sorted-All :
      (P : A → Type 0) (a : A) (xs : List A) → P a → All P xs → All P (insert_sorted le a xs)
  unfolding insert_sorted
  insert_sorted-All P a [] h k = (h, tt)
  insert_sorted-All P a (x ∷ xs) h k =
      elim (le a x) as (λ b. All P (if b then a ∷ x ∷ xs else x ∷ insert_sorted le a xs)) [
        | true ↦ (h, k)
        | false ↦ (k.0, insert_sorted-All P a xs h k.1)
      ]

  module _ (total : (a b : A) → (le a b ≡ true) ⊎ (le b a ≡ true))
      (trans : (a b c : A) → le a b ≡ true → le b c ≡ true → le a c ≡ true) where
    insert_sorted-IsSorted :
        (a : A) (xs : List A) → IsSorted le xs → IsSorted le (insert_sorted le a xs)
    unfolding insert_sorted
    insert_sorted-IsSorted a [] h = (tt, tt)
    insert_sorted-IsSorted a (x ∷ xs) h = elim (Bool-cases (le a x)) [
      | inl e ↦ rw e ((e, All-mono xs (λ y. trans a x y e) h.0), h)
      | inr e ↦ rw e (
        insert_sorted-All (λ y. le x y ≡ true) a xs
            (elim (total a x) [ inl f ↦ absurd (ground arith) | inr f ↦ f ]) h.0,
        insert_sorted-IsSorted a xs h.1,
      )
    ]

    pub sort_by-IsSorted : (xs : List A) → IsSorted le (sort_by le xs)
    unfolding sort_by
    sort_by-IsSorted [] = tt
    sort_by-IsSorted (x ∷ xs) = insert_sorted-IsSorted x (sort_by le xs) (sort_by-IsSorted xs)

  All-mem :
      (P : A → Type 0)
      → ((a : A) → IsProp (P a))
      → {a : A} (xs : List A) → All P xs
      → Mem a xs
      → P a
  All-mem P p [] h m = absurd (not-mem-nil m)
  All-mem P p {a} (x ∷ xs) h m = Or.elim (p a) (mem-cons.0 m) (λ e. rw e h.0) (All-mem P p xs h.1)

  -- Two sorted orders of the same items are equal, where items that tie are equal.
  pub IsSorted-unique :
      IsSet A
      → (xs ys : List A) → ((a b : A) → Mem a xs → Mem b xs → le a b ≡ true → le b a ≡ true → a ≡ b)
      → IsSorted le xs
      → IsSorted le ys
      → Perm xs ys
      → xs ≡ ys
  IsSorted-unique set [] ys ties h k p = sym (Perm.eq-nil (Perm.symm p))
  IsSorted-unique set (x ∷ xs) [] ties h k p = Perm.eq-nil p
  IsSorted-unique set (x ∷ xs) (y ∷ ys) ties h k p = ap₂ ◌∷◌ heads (
      IsSorted-unique set xs ys (λ a b m n. ties a b (mem-cons_of_mem x m) (mem-cons_of_mem x n))
        h.1 k.1 (Perm.cons_inv (subst (λ z. Perm (x ∷ xs) (z ∷ ys)) (sym heads) p)))
    where
      there : Mem y (x ∷ xs)
      there = (Perm.mem_iff p).1 mem-cons_self

      heads : x ≡ y
      heads =
          Or.elim (set x y) (mem-cons.0 ((Perm.mem_iff p).0 mem-cons_self)) (λ e. e)
            λ x_later.
              Or.elim (set x y) (mem-cons.0 there) (λ e. sym e)
                λ y_later.
                  ties x y mem-cons_self there
                    (All-mem (λ z. le x z ≡ true) (λ z. Bool-set _ _) xs h.0 y_later)
                    (All-mem (λ z. le y z ≡ true) (λ z. Bool-set _ _) ys k.0 x_later)
