-- ===== src/Base/Members.antt =====
-- Members of the lists that `filter_map` and `take` make.
use mathlib.Core.Path.{◌≡◌, refl, sym, ap, ◌∙◌, subst}
use mathlib.Core.Bool.{true}
use mathlib.Core.Option.{Option, some}
use mathlib.Core.List.{List, [], ◌∷◌, ◌++◌, map, Memᴰ}
use mathlib.Core.List.Memᴰ
use mathlib.Core.Logic.{inl, inr}
use native.Mathlib.Omega.{arith}
use Prim.Native.Nat.{ℕ, zero, suc, ◌≤◌}
use nut_blast.Base.Tests.{Bool-cases, Option-cases, none≢some, some_inj}
use nut_blast.Base.Equality.{PartialEq, ◌==◌, beq→eq}
use nut_blast.Base.Lists.{length, filter_map, filter_map_skips, filter_map_takes, take}
use nut_blast.Base.Sets.{contains}

module _ {ℓ κ} {A : Type ℓ} {B : Type κ} where
  -- Each member comes from a value of the function.
  pub Mem-filter_map_inv :
      (f : A → Option B) (xs : List A) (b : B) → Memᴰ b (filter_map f xs) → (a : A) × (f a ≡ some b)
  Mem-filter_map_inv f [] b m = elim m [ ]
  Mem-filter_map_inv f (x ∷ xs) b m = elim (Option-cases (f x)) [
    | inl skipped ↦ Mem-filter_map_inv f xs b (subst (Memᴰ b) (filter_map_skips f x xs skipped) m)
    | inr (y, taken) ↦ elim (Memᴰ.cases_cons (subst (Memᴰ b) (filter_map_takes f x y xs taken) m)) [
      | inl here ↦ (x, ground (arith, taken, here))
      | inr there ↦ Mem-filter_map_inv f xs b there
    ]
  ]

  pub Mem-filter_map :
      ⦃e : PartialEq A⦄ (f : A → Option B) (xs : List A) (a : A) (b : B)
      → contains a xs ≡ true
      → f a ≡ some b
      → Memᴰ b (filter_map f xs)
  unfolding contains
  Mem-filter_map f [] a b inside h = absurd (cc)
  Mem-filter_map f (x ∷ xs) a b inside h = elim (Option-cases (f x)) [
    | inl skipped ↦ elim (Bool-cases (x == a)) [
      | inl here ↦ absurd (none≢some (sym skipped ∙ ap f (beq→eq x a here) ∙ h))
      | inr apart ↦
          subst (Memᴰ b) (sym (filter_map_skips f x xs skipped))
            (Mem-filter_map f xs a b (ground (arith, inside, apart)) h)
    ]
    | inr (y, taken) ↦
        subst (Memᴰ b) (sym (filter_map_takes f x y xs taken)) (elim (Bool-cases (x == a)) [
          | inl here ↦ Memᴰ.head (some_inj (sym h ∙ ap f (sym (beq→eq x a here)) ∙ taken))
          | inr apart ↦ Memᴰ.tail (Mem-filter_map f xs a b (ground (arith, inside, apart)) h)
        ])
  ]

pub Mem-take_inv {ℓ} : {A : Type ℓ} (n : ℕ) (xs : List A) (x : A) → Memᴰ x (take n xs) → Memᴰ x xs
Mem-take_inv zero xs x m = elim m [ ]
Mem-take_inv (suc n) [] x m = elim m [ ]
Mem-take_inv (suc n) (y ∷ xs) x (Memᴰ.head e) = Memᴰ.head e
Mem-take_inv (suc n) (y ∷ xs) x (Memᴰ.tail m) = Memᴰ.tail (Mem-take_inv n xs x m)

pub take_all {ℓ} : {A : Type ℓ} (n : ℕ) (xs : List A) → length xs ≤ n → take n xs ≡ xs
take_all zero [] h = refl
take_all (suc n) [] h = refl
take_all zero (x ∷ xs) h = absurd (omega (arith, h))
take_all (suc n) (x ∷ xs) h = ap (λ ys. x ∷ ys) (take_all n xs (omega (arith, h)))

module _ {ℓ} {A : Type ℓ} where
  pub Mem-append_left : (a : A) (xs ys : List A) → Memᴰ a xs → Memᴰ a (xs ++ ys)
  Mem-append_left a [] ys m = elim m [ ]
  Mem-append_left a (x ∷ xs) ys (Memᴰ.head e) = Memᴰ.head e
  Mem-append_left a (x ∷ xs) ys (Memᴰ.tail m) = Memᴰ.tail (Mem-append_left a xs ys m)

  pub Mem-append_right : (a : A) (xs ys : List A) → Memᴰ a ys → Memᴰ a (xs ++ ys)
  Mem-append_right a [] ys m = m
  Mem-append_right a (x ∷ xs) ys m = Memᴰ.tail (Mem-append_right a xs ys m)

pub Mem-map {ℓ κ} :
    {A : Type ℓ} {B : Type κ} (f : A → B) (xs : List A) (a : A) → Memᴰ a xs → Memᴰ (f a) (map f xs)
Mem-map f [] a m = elim m [ ]
Mem-map f (x ∷ xs) a (Memᴰ.head e) = Memᴰ.head (ap f e)
Mem-map f (x ∷ xs) a (Memᴰ.tail m) = Memᴰ.tail (Mem-map f xs a m)
