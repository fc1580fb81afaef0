-- ===== src/Prelude/Walk.antt =====
-- Walks over a map: each entry once, in some order.
use mathlib.Core.List.{Mem, mem-cons, mem-cons_self, mem-cons_of_mem, not-mem-nil}
use mathlib.Core.Logic.Or
use landropic.Prelude.Tests.{Bool-cases}
use landropic.Prelude.Text.{Str, str_eq, str_eq_iff}
use landropic.Prelude.Dict.{Dict, lookup, Distinct}
use mathlib.Core.Path.{◌≡◌, ap, subst, sym}
use mathlib.Core.Logic.{inl, inr}
use mathlib.Core.Option.{Option, some}
use mathlib.Core.List.{[], ◌∷◌}
use native.Mathlib.Omega.{arith}

module _ {V : Type 0} (set : IsSet V) where
  option_set : IsSet (Option V)
  option_set = hlevel set

  pub mem-lookup : (k : Str) (v : V) (d : Dict V) → lookup k d ≡ some v → Mem (k, v) d
  unfolding lookup
  mem-lookup k v [] e = cc
  mem-lookup k v ((j, w) ∷ d) e = elim (Bool-cases (str_eq j k)) [
    | inl hit ↦
        let same : ◌≡◌ {A = Str × V} (k, v) (j, w) = ground (arith, str_eq_iff j k) in
        subst (λ p. Mem p ((j, w) ∷ d)) (sym same) mem-cons_self
    | inr miss ↦ mem-cons_of_mem (j, w) (mem-lookup k v d (ground arith))
  ]

  pub lookup-mem : (k : Str) (v : V) (d : Dict V) → Distinct d → Mem (k, v) d → lookup k d ≡ some v
  unfolding lookup
  lookup-mem k v [] h m = absurd (not-mem-nil m)
  lookup-mem k v ((j, w) ∷ d) h m =
      Or.elim (option_set _ _) (mem-cons.0 m)
        (λ e.
          ground (arith, ap (λ (p : Str × V). p.0) e, ap (λ (p : Str × V). p.1) e, str_eq_iff j k))
        λ later.
          let found = lookup-mem k v d h.1 later in ground (arith, str_eq_iff j k, found, h.0)
