-- ===== src/Base/Keyed.antt =====
-- Dictionaries in which no key stands twice, and sums over their values.
use Prim.Native.Nat.{ℕ, ◌+◌}
use mathlib.Core.Path.{◌≡◌, refl, ap}
use mathlib.Core.Option.{none, some}
use mathlib.Core.List.{[], ◌∷◌, ◌++◌}
use mathlib.Core.Logic.{inl, inr}
use native.Mathlib.Omega.{arith}
use nut_blast.Base.Tests.{Bool-cases}
use nut_blast.Base.Equality.{PartialEq, ◌==◌, beq→eq}
use nut_blast.Base.Maps.{Dict, lookup, insert, lookup-insert}

module _ {ℓ κ} {K : Type ℓ} {V : Type κ} ⦃e : PartialEq K⦄ where
  -- No key stands twice.
  abbrev pub IsKeyed : Dict K V → Type κ
  IsKeyed [] = Unit
  IsKeyed ((k, v) ∷ d) = (lookup k d ≡ none) × IsKeyed d

  pub IsKeyed-insert : (k : K) (v : V) (d : Dict K V) → IsKeyed d → IsKeyed (insert k v d)
  unfolding insert lookup
  IsKeyed-insert k v [] h = (refl, tt)
  IsKeyed-insert k v ((j, w) ∷ d) h = elim (Bool-cases (j == k)) [
    | inl old ↦ rw old (ground (arith, h.0, beq→eq j k old), h.1)
    | inr new ↦ rw new (
      ground (arith, lookup-insert k j v d, h.0, e.same_iff j k, e.same_iff k j),
      IsKeyed-insert k v d h.1,
    )
  ]

  -- A key that is new goes to the end.
  pub insert-append :
      (k : K) (v : V) (d : Dict K V) → lookup k d ≡ none → insert k v d ≡ d ++ (k, v) ∷ []
  unfolding insert lookup
  insert-append k v [] h = refl
  insert-append k v ((j, w) ∷ d) h = elim (Bool-cases (j == k)) [
    | inl old ↦ absurd (ground (arith, old))
    | inr new ↦ rw new (ap (λ r. (j, w) ∷ r) (insert-append k v d (rw new at h)))
  ]

  -- The sum of a weight over the values.
  unfoldable pub tally : (V → ℕ) → Dict K V → ℕ
  tally w [] = 0
  tally w ((k, v) ∷ d) = w v + tally w d

  pub tally-insert_old :
      (w : V → ℕ) (k : K) (v u : V) (d : Dict K V)
      → lookup k d ≡ some u
      → tally w (insert k v d) + w u ≡ tally w d + w v
  unfolding tally insert lookup
  tally-insert_old w k v u [] h = absurd (cc)
  tally-insert_old w k v u ((j, x) ∷ d) h = ground (arith, tally-insert_old w k v u d)

  pub tally-insert_new :
      (w : V → ℕ) (k : K) (v : V) (d : Dict K V)
      → lookup k d ≡ none
      → tally w (insert k v d) ≡ tally w d + w v
  unfolding tally insert lookup
  tally-insert_new w k v [] h = omega arith
  tally-insert_new w k v ((j, x) ∷ d) h = ground (arith, tally-insert_new w k v d)
