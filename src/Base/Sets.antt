-- ===== src/Base/Sets.antt =====
-- `HashSet` as a list with no element twice.
use Prim.Native.Nat.{◌+◌, ◌≤◌}
use mathlib.Core.Path.{refl, sym, ap, ◌∙◌, ◌≡◌}
use mathlib.Core.Bool.{true, Bool, false, ◌||◌}
use mathlib.Core.List.{List, [], ◌∷◌}
use native.Mathlib.Omega.{arith}
use mathlib.Core.Logic.{inl, inr}
use mathlib.Core.Option.{none, some}
use nut_blast.Base.Tests.{Bool-cases, none≢some, if◌then◌else◌}
use nut_blast.Base.Equality.{PartialEq, ◌==◌, beq→eq}
use nut_blast.Base.Lists.{head?, length, filter}

module _ {ℓ} {A : Type ℓ} ⦃e : PartialEq A⦄ where
  unfoldable pub contains : A → List A → Bool
  contains a [] = false
  contains a (x ∷ xs) = x == a || contains a xs

  unfoldable pub add : A → List A → List A
  unfolding contains
  add a xs = if contains a xs then xs else a ∷ xs

  unfoldable pub remove : A → List A → List A
  remove a [] = []
  remove a (x ∷ xs) = let rest = remove a xs in if x == a then rest else x ∷ rest

  -- No element stands twice.
  abbrev pub IsSetList : List A → Type 0
  IsSetList [] = Unit {0}
  IsSetList (x ∷ xs) = (contains x xs ≡ false) × IsSetList xs

  pub contains-add : (a b : A) (xs : List A) → contains b (add a xs) ≡ (a == b || contains b xs)
  unfolding add
  contains-add a b xs = ground (arith, e.same_iff a b)

  pub contains-remove :
      (a b : A) (xs : List A) → contains b (remove a xs) ≡ (if a == b then false else contains b xs)
  unfolding remove contains
  contains-remove a b [] = ground arith
  contains-remove a b (x ∷ xs) =
      ground (arith, e.same_iff a b, e.same_iff x a, e.same_iff x b, contains-remove a b xs)

  pub length-add_new :
      (a : A) (xs : List A) → contains a xs ≡ false → length (add a xs) ≡ length xs + 1
  unfolding add
  length-add_new a xs h = ground arith

  pub length-add_le : (a : A) (xs : List A) → length (add a xs) ≤ length xs + 1
  unfolding add
  length-add_le a xs = ground arith

  pub length-remove_le : (a : A) (xs : List A) → length (remove a xs) ≤ length xs
  unfolding remove
  length-remove_le a [] = omega arith
  length-remove_le a (x ∷ xs) = ground (arith, length-remove_le a xs)

  pub IsSetList-add : (a : A) (xs : List A) → IsSetList xs → IsSetList (add a xs)
  unfolding add
  IsSetList-add a xs h = elim (Bool-cases (contains a xs)) [
    | inl old ↦ rw old h
    | inr new ↦ rw new (new, h)
  ]

  pub IsSetList-remove : (a : A) (xs : List A) → IsSetList xs → IsSetList (remove a xs)
  unfolding remove
  IsSetList-remove a [] h = tt
  IsSetList-remove a (x ∷ xs) h = elim (Bool-cases (x == a)) [
    | inl here ↦ rw here (IsSetList-remove a xs h.1)
    | inr apart ↦ rw apart (ground (arith, contains-remove a x xs, h.0), IsSetList-remove a xs h.1)
  ]

  pub contains-head : (a : A) (xs : List A) → head? xs ≡ some a → contains a xs ≡ true
  unfolding contains
  contains-head a [] h = absurd (none≢some h)
  contains-head a (x ∷ xs) h = ground (arith, e.same_iff x a)

  pub contains-no_head : (a : A) (xs : List A) → head? xs ≡ none → contains a xs ≡ false
  unfolding contains
  contains-no_head a [] h = refl
  contains-no_head a (x ∷ xs) h = absurd (none≢some (sym h))

  pub length-remove_lt :
      (a : A) (xs : List A) → contains a xs ≡ true → length (remove a xs) + 1 ≤ length xs
  unfolding remove contains
  length-remove_lt a [] h = absurd (ground (arith, h))
  length-remove_lt a (x ∷ xs) h = ground (arith, h, length-remove_lt a xs, length-remove_le a xs)

  -- A set that is part of a list is no longer than it.
  pub length_le_of_part :
      (xs ys : List A)
      → IsSetList xs
      → ((a : A) → contains a xs ≡ true → contains a ys ≡ true)
      → length xs ≤ length ys
  unfolding contains
  length_le_of_part [] ys set h = omega arith
  length_le_of_part (x ∷ xs) ys (new, set) h =
      let inside : contains x ys ≡ true = h x (ground (arith, e.same_iff x x)) in
      let rest = length_le_of_part xs (remove x ys) set (λ a m. elim (Bool-cases (x == a)) [
        | inl same ↦ absurd (ground (arith, new, m, ap (λ b. contains b xs) (beq→eq x a same)))
        | inr apart ↦ ground (arith, contains-remove x a ys, apart, h a (ground (arith, m)))
      ]) in
      omega (arith, length-remove_lt x ys inside, rest)

  pub contains-filter_inv :
      (p : A → Bool) (a : A) (xs : List A)
      → contains a (filter p xs) ≡ true
      → (p a ≡ true) × (contains a xs ≡ true)
  unfolding contains
  contains-filter_inv p a [] h = absurd (ground (arith, h))
  contains-filter_inv p a (x ∷ xs) h = elim (Bool-cases (p x)) [
    | inl passes ↦ elim (Bool-cases (x == a)) [
      | inl here ↦ (ap p (sym (beq→eq x a here)) ∙ passes, ground (arith, here))
      | inr apart ↦
          let (k, m) = contains-filter_inv p a xs (ground (arith, passes, apart, h)) in
          (k, ground (arith, m))
    ]
    | inr fails ↦ let (k, m) = contains-filter_inv p a xs (rw fails at h) in (k, ground (arith, m))
  ]

  pub contains-filter :
      (p : A → Bool) (a : A) (xs : List A)
      → p a ≡ true
      → contains a xs ≡ true
      → contains a (filter p xs) ≡ true
  unfolding contains
  contains-filter p a [] k h = h
  contains-filter p a (x ∷ xs) k h = elim (Bool-cases (p x)) [
    | inl passes ↦ elim (Bool-cases (x == a)) [
      | inl here ↦ rw passes (ground (arith, here))
      | inr apart ↦ rw passes (ground (arith, contains-filter p a xs k (ground (arith, h, apart))))
    ]
    | inr fails ↦ elim (Bool-cases (x == a)) [
      | inl here ↦ absurd (ground (arith, k, fails, ap p (beq→eq x a here)))
      | inr apart ↦ rw fails (contains-filter p a xs k (ground (arith, h, apart)))
    ]
  ]

  pub IsSetList-filter : (p : A → Bool) (xs : List A) → IsSetList xs → IsSetList (filter p xs)
  IsSetList-filter p [] h = tt
  IsSetList-filter p (x ∷ xs) (new, set) = elim (Bool-cases (p x)) [
    | inl passes ↦ rw passes (
      elim (Bool-cases (contains x (filter p xs))) [
        | inl old ↦ absurd (ground (arith, new, (contains-filter_inv p x xs old).1))
        | inr fresh ↦ fresh
      ],
      IsSetList-filter p xs set,
    )
    | inr fails ↦ rw fails (IsSetList-filter p xs set)
  ]
