-- ===== src/Float/Exact.antt =====
-- The interface at exact arithmetic, in billionths: its laws can be met.
use nut_blast.Base.{ℕ, ◌≤◌, ◌+◌, ◌-◌, ◌*◌, ◌/◌, ◌^◌, ◌≡◌, refl, true, false, arith, leb, ltb}
use nut_blast.Float.{Float}

abbrev pub min : ℕ → ℕ → ℕ
min a b = elim (leb a b) [ true ↦ a | false ↦ b ]

pub of_usize-le_lem : (a b : ℕ) → a ≤ b → leb (a * 10 ^ 9) (b * 10 ^ 9) ≡ true
of_usize-le_lem a b h = ground arith

pub min-le_lem : (a b : ℕ) → true ≡ true → true ≡ true → leb (min a b) b ≡ true
min-le_lem a b _ _ = ground arith

pub sub-le_lem : (a b : ℕ) → true ≡ true → true ≡ true → leb b a ≡ true → leb (a - b) a ≡ true
sub-le_lem a b _ _ _ = ground arith

pub le_of_not_lt_lem : (a b : ℕ) → true ≡ true → true ≡ true → ltb a b ≡ false → leb b a ≡ true
le_of_not_lt_lem a b _ _ h = ground arith

pub le_trans_lem : (a b c : ℕ) → leb a b ≡ true → leb b c ≡ true → leb a c ≡ true
le_trans_lem a b c h k = ground arith

abbrev pub exact : Float
exact = record {
  Val = ℕ;
  of_usize = λ n. n * 10 ^ 9;
  as_secs = λ d. d;
  add = ◌+◌;
  mul = λ a b. a * b / 10 ^ 9;
  sub = ◌-◌;
  min = min;
  le = leb;
  lt = ltb;
  is_finite = λ _. true;
  is_nonneg = λ _. true;
  of_usize_nonneg = λ n. refl;
  of_usize_finite = λ n _. refl;
  of_usize-le = of_usize-le_lem;
  as_secs_nonneg = λ d. refl;
  as_secs_finite = λ d. refl;
  add_nonneg = λ a b _ _. refl;
  mul_nonneg = λ a b _ _ _ _. refl;
  min_nonneg = λ a b _ _. refl;
  min-le = min-le_lem;
  sub_nonneg = λ a b _ _ _. refl;
  sub-le = sub-le_lem;
  le_of_not_lt = le_of_not_lt_lem;
  le_trans = le_trans_lem;
  finite_of_le = λ a b _ _ _. refl;
}
