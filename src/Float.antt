-- ===== src/Float.antt =====
-- `f32`, an interface: the operations that the bucket calls, and what IEEE 754 says of them.
pub mod Exact
use nut_blast.Base.{ℕ, ◌<◌, ◌≤◌, ◌^◌, ◌≡◌, Bool, true, false}

pub record Float : Type 1 where
  pub Val : Type 0
  -- `n as f32` of a `usize`, and the literals of the program, which are whole.
  pub of_usize : ℕ → Val
  -- `Duration::as_secs_f32`, of nanoseconds.
  pub as_secs : ℕ → Val
  pub add : Val → Val → Val
  pub mul : Val → Val → Val
  pub sub : Val → Val → Val
  pub min : Val → Val → Val
  pub le : Val → Val → Bool
  pub lt : Val → Val → Bool
  -- Neither NaN nor infinite.
  pub is_finite : Val → Bool
  -- At least 0, hence no NaN.
  pub is_nonneg : Val → Bool
  pub of_usize_nonneg : (n : ℕ) → is_nonneg (of_usize n) ≡ true
  pub of_usize_finite : (n : ℕ) → n < 2 ^ 64 → is_finite (of_usize n) ≡ true
  -- Rounding is monotone.
  pub of_usize-le : (a b : ℕ) → a ≤ b → le (of_usize a) (of_usize b) ≡ true
  pub as_secs_nonneg : (d : ℕ) → is_nonneg (as_secs d) ≡ true
  pub as_secs_finite : (d : ℕ) → is_finite (as_secs d) ≡ true
  -- A sum or a product may round up to infinity.
  pub add_nonneg :
      (a b : Val) → is_nonneg a ≡ true → is_nonneg b ≡ true → is_nonneg (add a b) ≡ true
  pub mul_nonneg :
      (a b : Val)
      → is_nonneg a ≡ true
      → is_finite a ≡ true
      → is_nonneg b ≡ true
      → is_finite b ≡ true
      → is_nonneg (mul a b) ≡ true
  pub min_nonneg :
      (a b : Val) → is_nonneg a ≡ true → is_nonneg b ≡ true → is_nonneg (min a b) ≡ true
  pub min-le : (a b : Val) → is_nonneg a ≡ true → is_nonneg b ≡ true → le (min a b) b ≡ true
  pub sub_nonneg :
      (a b : Val)
      → is_finite a ≡ true
      → is_nonneg b ≡ true
      → le b a ≡ true
      → is_nonneg (sub a b) ≡ true
  pub sub-le :
      (a b : Val) → is_finite a ≡ true → is_nonneg b ≡ true → le b a ≡ true → le (sub a b) a ≡ true
  -- Comparison is total where no NaN is in sight.
  pub le_of_not_lt :
      (a b : Val) → is_nonneg a ≡ true → is_nonneg b ≡ true → lt a b ≡ false → le b a ≡ true
  pub le_trans : (a b c : Val) → le a b ≡ true → le b c ≡ true → le a c ≡ true
  pub finite_of_le :
      (a b : Val) → is_nonneg a ≡ true → le a b ≡ true → is_finite b ≡ true → is_finite a ≡ true
