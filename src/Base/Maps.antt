-- ===== src/Base/Maps.antt =====
-- `HashMap` and `IndexMap` as association lists: `get`, `insert`, `remove`, `retain`.
use Prim.Native.Nat.{◌+◌, ◌≤◌}
use mathlib.Core.Path.{sym, ap, ◌∙◌, ◌≡◌, refl}
use mathlib.Core.Bool.{true, Bool, false}
use mathlib.Core.Option.{Option, none, some}
use mathlib.Core.List.{List, [], ◌∷◌}
use native.Mathlib.Omega.{arith}
use mathlib.Core.Logic.{◌⊎◌, inl, inr}
use mathlib.Core.Path.{subst}
use nut_blast.Base.Tests.{Bool-cases, some_inj, none≢some, if◌then◌else◌, is_some}
use nut_blast.Base.Equality.{PartialEq, ◌==◌, beq_refl, beq→eq}
use nut_blast.Base.Lists.{length}

abbrev pub Dict {ℓ κ} : Type ℓ → Type κ → Type (ℓ ⊔ κ)
Dict K V = List (K × V)

module _ {ℓ κ} {K : Type ℓ} {V : Type κ} ⦃e : PartialEq K⦄ where
  unfoldable pub lookup : K → Dict K V → Option V
  lookup k [] = none
  lookup k ((j, v) ∷ d) = if j == k then some v else lookup k d

  -- A key that is there keeps its place; a new one goes to the end.
  unfoldable pub insert : K → V → Dict K V → Dict K V
  insert k v [] = (k, v) ∷ []
  insert k v ((j, w) ∷ d) = if j == k then (k, v) ∷ d else (j, w) ∷ insert k v d

  unfoldable pub erase : K → Dict K V → Dict K V
  erase k [] = []
  erase k ((j, w) ∷ d) = let rest = erase k d in if j == k then rest else (j, w) ∷ rest

  unfoldable pub contains_key : K → Dict K V → Bool
  unfolding lookup
  contains_key k d = is_some (lookup k d)

  pub lookup-insert :
      (k j : K) (v : V) (d : Dict K V)
      → lookup j (insert k v d) ≡ (if k == j then some v else lookup j d)
  unfolding lookup insert
  lookup-insert k j v [] = refl
  lookup-insert k j v ((i, w) ∷ d) =
      ground (arith, e.same_iff k j, e.same_iff i k, e.same_iff i j, lookup-insert k j v d)

  pub lookup-erase :
      (k j : K) (d : Dict K V) → lookup j (erase k d) ≡ (if k == j then none else lookup j d)
  unfolding lookup erase
  lookup-erase k j [] = ground arith
  lookup-erase k j ((i, w) ∷ d) =
      ground (arith, e.same_iff k j, e.same_iff i k, e.same_iff i j, lookup-erase k j d)

  pub length-insert_le : (k : K) (v : V) (d : Dict K V) → length (insert k v d) ≤ length d + 1
  unfolding insert
  length-insert_le k v [] = omega arith
  length-insert_le k v ((i, w) ∷ d) = ground (arith, length-insert_le k v d)

  pub length-insert_old :
      (k : K) (v w : V) (d : Dict K V) → lookup k d ≡ some w → length (insert k v d) ≡ length d
  unfolding insert lookup
  length-insert_old k v w [] h = ground arith
  length-insert_old k v w ((i, u) ∷ d) h = ground (arith, length-insert_old k v w d)

  -- A predicate of the values, for every entry.
  abbrev pub AllValues {μ} : (V → Type μ) → Dict K V → Type μ
  AllValues P [] = Unit
  AllValues P ((k, v) ∷ d) = P v × AllValues P d

  pub AllValues-insert {μ} :
      (P : V → Type μ) (k : K) (v : V) (d : Dict K V)
      → P v
      → AllValues P d
      → AllValues P (insert k v d)
  unfolding insert
  AllValues-insert P k v [] p h = (p, tt)
  AllValues-insert P k v ((j, w) ∷ d) p h = elim (Bool-cases (j == k)) [
    | inl old ↦ rw old (p, h.1)
    | inr new ↦ rw new (h.0, AllValues-insert P k v d p h.1)
  ]

  pub AllValues-erase {μ} :
      (P : V → Type μ) (k : K) (d : Dict K V) → AllValues P d → AllValues P (erase k d)
  unfolding erase
  AllValues-erase P k [] h = tt
  AllValues-erase P k ((j, w) ∷ d) h = elim (Bool-cases (j == k)) [
    | inl old ↦ rw old (AllValues-erase P k d h.1)
    | inr new ↦ rw new (h.0, AllValues-erase P k d h.1)
  ]

  pub AllValues-lookup {μ} :
      (P : V → Type μ) (k : K) (v : V) (d : Dict K V) → AllValues P d → lookup k d ≡ some v → P v
  unfolding lookup
  AllValues-lookup P k v [] h e = absurd (cc)
  AllValues-lookup P k v ((j, w) ∷ d) h e = elim (Bool-cases (j == k)) [
    | inl old ↦ subst P (some_inj (rw old at e)) h.0
    | inr new ↦ AllValues-lookup P k v d h.1 (rw new at e)
  ]

  pub lookup-insert_self : (k : K) (v : V) (d : Dict K V) → lookup k (insert k v d) ≡ some v
  lookup-insert_self k v d = simp (lookup-insert, beq_refl)

  pub lookup-insert_ne :
      (k j : K) (v : V) (d : Dict K V) → (k == j) ≡ false → lookup j (insert k v d) ≡ lookup j d
  lookup-insert_ne k j v d h = rw (lookup-insert k j v d, h)

  -- What a dictionary that was written to has: the new entry, or an old one.
  pub lookup-insert_inv :
      (k j : K) (v w : V) (d : Dict K V)
      → lookup j (insert k v d) ≡ some w
      → ((k ≡ j) × (v ≡ w)) ⊎ (((k == j) ≡ false) × (lookup j d ≡ some w))
  lookup-insert_inv k j v w d h = elim (Bool-cases (k == j)) [
    | inl same ↦ inl (beq→eq k j same, some_inj (rw (lookup-insert k j v d, same) at h))
    | inr other ↦ inr (other, rw (lookup-insert k j v d, other) at h)
  ]

  pub lookup-erase_inv :
      (k j : K) (w : V) (d : Dict K V)
      → lookup j (erase k d) ≡ some w
      → ((k == j) ≡ false) × (lookup j d ≡ some w)
  lookup-erase_inv k j w d h = elim (Bool-cases (k == j)) [
    | inl same ↦ absurd (none≢some (rw (lookup-erase k j d, same) at h))
    | inr other ↦ (other, rw (lookup-erase k j d, other) at h)
  ]

  pub lookup-erase_ne :
      (k j : K) (d : Dict K V) → (k == j) ≡ false → lookup j (erase k d) ≡ lookup j d
  lookup-erase_ne k j d h = rw (lookup-erase k j d, h)

  pub lookup-insert_at :
      (k j : K) (v : V) (d : Dict K V) → (k == j) ≡ true → lookup j (insert k v d) ≡ some v
  lookup-insert_at k j v d h = rw (lookup-insert k j v d, h)

  -- Keys that a dictionary tells apart.
  pub beq_false_of_lookup :
      (k j : K) (v : V) (d : Dict K V) → lookup k d ≡ some v → lookup j d ≡ none → (k == j) ≡ false
  beq_false_of_lookup k j v d there gone = elim (Bool-cases (k == j)) [
    | inl same ↦
        absurd (none≢some (sym gone ∙ ap (λ i. lookup i d) (sym (beq→eq k j same)) ∙ there))
    | inr apart ↦ apart
  ]

  pub length-erase_le : (k : K) (d : Dict K V) → length (erase k d) ≤ length d
  unfolding erase
  length-erase_le k [] = omega arith
  length-erase_le k ((j, w) ∷ d) = ground (arith, length-erase_le k d)
