-- ===== src/Double.antt =====
-- `double`, which the program computes with and does not implement: any type with the operations that
-- the source uses. Laws are named one by one, and a theorem takes those that it needs.
pub mod Fixed
use synledger_core.Prelude.{ℕ, ◌≡◌, Bool, true, false, if◌then◌else◌}
use synledger_core.Prelude.Int.{ℤ}

pub record Double (D : Type 0) : Type 0 where
  -- `literal m k` is the constant m / 10^k of the source: 0.05 is `literal 5 2`.
  pub literal : ℕ → ℕ → D
  -- Conversion from `int`, from `size_t`, and `static_cast<int>`.
  pub of_int : ℤ → D
  pub of_size : ℕ → D
  pub trunc : D → ℤ
  pub add : D → D → D
  pub sub : D → D → D
  pub mul : D → D → D
  pub div : D → D → D
  -- `a < b`, false at NaN.
  pub lt : D → D → Bool

-- `0.0` and `std::max` of two doubles.
abbrev pub nought : {D : Type 0} ⦃d : Double D⦄ → D
nought ⦃d⦄ = d.literal 0 1

abbrev pub max : {D : Type 0} ⦃d : Double D⦄ → D → D → D
max ⦃d⦄ a b = if d.lt a b then b else a

-- What the theorems need of a `double`; all of it holds of IEEE 754 numbers, NaN included.
pub record IsOrdered (D : Type 0) ⦃d : Double D⦄ : Type 0 where
  -- `<` holds one way round at most, and never between a value and itself.
  pub asymmetric : (a b : D) → d.lt a b ≡ true → d.lt b a ≡ false
  pub irreflexive : (a : D) → d.lt a a ≡ false
  -- A constant of the source is not below 0.
  pub literal_nonneg : (m k : ℕ) → d.lt (d.literal m k) (d.literal 0 1) ≡ false
