-- ===== src/Base/Equality.antt =====
-- `PartialEq`, for the keys of maps and the elements of sets.
use Prim.Native.Nat.{ℕ}
use Prim.Native.String.{String}
use mathlib.Core.Path.{◌≡◌, refl}
use mathlib.Core.Logic.{◌↔◌, ◌≢◌}
use mathlib.Core.Bool.{Bool, true, false}
use native.Mathlib.Omega.{arith}
use text.Mathlib.Text.{◌==◌ as string_same}
use text.Mathlib.TextEquality.{eq_iff}
use nut_blast.Base.Tests.{nat_beq, nat_beq_iff, Bool-cases}

-- A test of equality, and that it decides the paths.
pub record PartialEq {κ} (K : Type κ) : Type κ where
  pub same : K → K → Bool
  pub same_iff : (j k : K) → (same j k ≡ true) ↔ (j ≡ k)

module _ {κ} {K : Type κ} ⦃q : PartialEq K⦄ where
  infix 50 ◌==◌
  abbrev pub ◌==◌ : K → K → Bool
  j == k = q.same j k

  pub beq_refl : (k : K) → (k == k) ≡ true
  beq_refl k = (q.same_iff k k).1 refl

  pub beq→eq : (j k : K) → (j == k) ≡ true → j ≡ k
  beq→eq j k h = (q.same_iff j k).0 h

  pub beq_false_of_ne : (j k : K) → j ≢ k → (j == k) ≡ false
  beq_false_of_ne j k h = ground (arith, q.same_iff j k, Bool-cases (j == k))

instance abbrev pub nat_eq : PartialEq ℕ
nat_eq = record { same_iff = nat_beq_iff; same = nat_beq }

instance abbrev pub string_eq : PartialEq String
string_eq = record { same_iff = eq_iff; same = string_same }
