-- ===== src/Double.antt =====
-- `double`: the C++ arithmetic and <cmath> are no code of the repository, so a type of doubles and
-- its operations are a parameter of every definition that computes with them.
use gpuviz.Base.{
  ℕ, ◌+◌, ◌-◌, ◌*◌, ◌/◌, ◌^◌, ◌%◌, ltb, leb, arith, ◌≡◌, Bool, true, false, if◌then◌else◌,
}
use gpuviz.Base.Words.{u64_mod}

pub record DoubleOps (D : Type 0) : Type 0 where
  -- Conversions from and to an unsigned integer.
  pub of_nat : ℕ → D
  pub to_nat : D → ℕ
  -- The conversion to `uint32_t`; out of its range C++ leaves it open.
  pub to_u32 : D → ℕ
  pub add : D → D → D
  pub sub : D → D → D
  pub mul : D → D → D
  pub div : D → D → D
  -- The tests `<` and `<=`; `a > b` is `lt b a`.
  pub lt : D → D → Bool
  pub le : D → D → Bool
  pub log : D → D
  pub pow : D → D → D
  pub floor : D → D
  pub ceil : D → D
  -- `std::numeric_limits<double>::max()`, `lowest()` and `min()`.
  pub largest : D
  pub smallest_positive : D
  pub lowest : D

-- IEEE 754: `<` is a strict order. A comparison with a NaN is false, so this holds with NaNs too.
pub record IsStrictOrder {D : Type 0} (o : DoubleOps D) : Type 0 where
  pub lt_irrefl : (x : D) → o.lt x x ≡ false
  pub lt_trans : (x y z : D) → o.lt x y ≡ true → o.lt y z ≡ true → o.lt x z ≡ true

module _ {D : Type 0} ⦃o : DoubleOps D⦄ where
  -- `std::max(a, b)`.
  abbrev pub fmax : D → D → D
  fmax a b = if o.lt a b then b else a

-- Whole numbers as doubles: an instance on which the definitions run.
abbrev pub whole_ops : DoubleOps ℕ
whole_ops = record {
  of_nat = λ n. n;
  to_nat = λ n. n;
  to_u32 = λ n. n % 2 ^ 32;
  add = λ a b. a + b;
  sub = λ a b. a - b;
  mul = λ a b. a * b;
  div = λ a b. a / b;
  lt = ltb;
  le = leb;
  log = λ a. a;
  pow = λ a b. a ^ b;
  floor = λ a. a;
  ceil = λ a. a;
  largest = u64_mod;
  smallest_positive = 1;
  lowest = 0;
}

pub whole_ops-IsStrictOrder : IsStrictOrder whole_ops
whole_ops-IsStrictOrder = record {
  lt_irrefl = λ x. ground arith;
  lt_trans = λ x y z h k. ground arith;
}
