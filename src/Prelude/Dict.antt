-- ===== src/Prelude/Dict.antt =====
-- Rust's HashMap with text keys, as an association list with one entry for each key. The order of
-- entries means nothing: where the code iterates over a map, its model is given the order.
use landropic.Prelude.Tests.{if◌then◌else◌, Bool-cases, by_test}
use mathlib.Core.Option
use mathlib.Core.Logic.{inl, inr}
use landropic.Prelude.Text.{Str, str_eq, str_eq_iff}
use landropic.Prelude.Lists.{All}
use mathlib.Core.Path.{◌≡◌, refl, sym, ap₂, subst}
use mathlib.Core.Option.{Option, none, some}
use mathlib.Core.List.{List, [], ◌∷◌}
use native.Mathlib.Omega.{arith}

abbrev pub Dict {ℓ} : Type ℓ → Type ℓ
Dict V = List (Str × V)

module _ {ℓ} {V : Type ℓ} where
  -- get
  unfoldable pub lookup : Str → Dict V → Option V
  lookup k [] = none
  lookup k ((j, v) ∷ d) = if str_eq j k then some v else lookup k d

  -- insert
  unfoldable pub insert : Str → V → Dict V → Dict V
  insert k v [] = (k, v) ∷ []
  insert k v ((j, w) ∷ d) = if str_eq j k then (k, v) ∷ d else (j, w) ∷ insert k v d

  -- remove
  unfoldable pub remove : Str → Dict V → Dict V
  remove k [] = []
  remove k ((j, w) ∷ d) = let rest = remove k d in if str_eq j k then rest else (j, w) ∷ rest

  -- collect: a later entry with the same key replaces an earlier one.
  unfoldable pub collect : Dict V → List (Str × V) → Dict V
  collect d [] = d
  collect d ((k, v) ∷ entries) = collect (insert k v d) entries

  pub lookup-insert :
      (k j : Str) (v : V) (d : Dict V)
      → lookup j (insert k v d) ≡ (if str_eq k j then some v else lookup j d)
  unfolding lookup insert
  lookup-insert k j v [] = refl
  lookup-insert k j v ((i, w) ∷ d) =
      ground (arith, str_eq_iff k j, str_eq_iff i k, str_eq_iff i j, lookup-insert k j v d)

  pub lookup-remove :
      (k j : Str) (d : Dict V) → lookup j (remove k d) ≡ (if str_eq k j then none else lookup j d)
  unfolding lookup remove
  lookup-remove k j [] = ground arith
  lookup-remove k j ((i, w) ∷ d) =
      ground (arith, str_eq_iff k j, str_eq_iff i k, str_eq_iff i j, lookup-remove k j d)

  -- No key stands twice.
  abbrev pub Distinct : Dict V → Type ℓ
  Distinct [] = Unit
  Distinct ((k, v) ∷ d) = (lookup k d ≡ none) × Distinct d

  pub insert-Distinct : (k : Str) (v : V) (d : Dict V) → Distinct d → Distinct (insert k v d)
  unfolding insert lookup
  insert-Distinct k v [] h = (refl, tt)
  insert-Distinct k v ((j, w) ∷ d) h =
      ground (arith, str_eq_iff j k, str_eq_iff k j, lookup-insert k j v d, insert-Distinct k v d)

  pub remove-Distinct : (k : Str) (d : Dict V) → Distinct d → Distinct (remove k d)
  unfolding remove
  remove-Distinct k [] h = tt
  remove-Distinct k ((j, w) ∷ d) h = ground (arith, lookup-remove k j d, remove-Distinct k d h.1)

  pub collect-Distinct :
      (d : Dict V) (entries : List (Str × V)) → Distinct d → Distinct (collect d entries)
  unfolding collect
  collect-Distinct d [] h = h
  collect-Distinct d ((k, v) ∷ entries) h =
      collect-Distinct (insert k v d) entries (insert-Distinct k v d h)

  -- What all entries have, an entry that is looked up has.
  pub All-lookup {κ} :
      (P : Str × V → Type κ) (k : Str) (v : V) (d : Dict V)
      → All P d
      → lookup k d ≡ some v
      → P (k, v)
  unfolding lookup
  All-lookup P k v [] h e = absurd cc
  All-lookup P k v ((j, w) ∷ d) h e = elim (Bool-cases (str_eq j k)) [
    | inl same ↦
        let name : j ≡ k = (str_eq_iff j k).0 same in
        let value : some w ≡ some v = rw (sym e, same) refl in
        subst P (ap₂ (λ (a : Str) (b : V). (a, b)) name (Option.some_inj.0 value)) h.0
    | inr differs ↦ All-lookup P k v d h.1 (rw (sym e, differs) refl)
  ]

  pub All-insert {κ} :
      (P : Str × V → Type κ) (k : Str) (v : V) (d : Dict V)
      → P (k, v)
      → All P d
      → All P (insert k v d)
  unfolding insert
  All-insert P k v [] p h = (p, tt)
  All-insert P k v ((j, w) ∷ d) p h =
      by_test (All P) (str_eq j k) (λ hit. (p, h.1)) (λ miss. (h.0, All-insert P k v d p h.1))

  pub All-remove {κ} : (P : Str × V → Type κ) (k : Str) (d : Dict V) → All P d → All P (remove k d)
  unfolding remove
  All-remove P k [] h = tt
  All-remove P k ((j, w) ∷ d) h =
      by_test (All P) (str_eq j k) (λ hit. All-remove P k d h.1)
        (λ miss. (h.0, All-remove P k d h.1))

  pub lookup-insert_self : (k : Str) (v : V) (d : Dict V) → lookup k (insert k v d) ≡ some v
  lookup-insert_self k v d = ground (arith, str_eq_iff k k, lookup-insert k k v d)

  pub lookup-insert_absent :
      (k j : Str) (v w : V) (d : Dict V)
      → lookup k d ≡ none
      → lookup j d ≡ some w
      → lookup j (insert k v d) ≡ some w
  lookup-insert_absent k j v w d absent there =
      ground (arith, absent, there, str_eq_iff k j, lookup-insert k j v d)
