-- ===== src/P2p/Float.antt =====
-- `f64`, as crates/variance-p2p/src/rate_limiter.rs computes with it. The checker has no floating-point
-- numbers, so their type and operations are a parameter. The laws are those of IEEE 754 doubles, each
-- under the condition that it needs there (a NaN is no less than itself, and counts are exact up to
-- 2 ^ 53).
use variance.Prelude.{ℕ, suc, ◌≡◌, Bool, true, ◌≤◌, ◌-◌, ◌^◌, leb}

pub record Float : Type 1 where
  pub F64 : Type 0
  pub of_u32 : ℕ → F64
  -- `Duration::as_secs_f64` of a duration in nanoseconds.
  pub as_secs_f64 : ℕ → F64
  pub add : F64 → F64 → F64
  pub sub : F64 → F64 → F64
  pub mul : F64 → F64 → F64
  pub div : F64 → F64 → F64
  pub min : F64 → F64 → F64
  pub le : F64 → F64 → Bool
  pub min-le : (a m : F64) → le m m ≡ true → le (min a m) m ≡ true
  pub min_of_le : (a m : F64) → le a m ≡ true → min a m ≡ a
  pub sub-one-le :
      (a m : F64) → le (of_u32 1) a ≡ true → le a m ≡ true → le (sub a (of_u32 1)) m ≡ true
  -- Taking one off and putting it back is exact for a value between 1 and 2 ^ 32.
  pub sub-add-one :
      (a : F64)
      → le (of_u32 1) a ≡ true
      → le a (of_u32 (2 ^ 32 - 1)) ≡ true
      → add (sub a (of_u32 1)) (of_u32 1) ≡ a
  pub le_trans : (a b c : F64) → le a b ≡ true → le b c ≡ true → le a c ≡ true
  -- Counts are exact.
  pub le-of_u32 : (a b : ℕ) → a ≤ 2 ^ 32 - 1 → b ≤ 2 ^ 32 - 1 → le (of_u32 a) (of_u32 b) ≡ leb a b
  pub sub-of_u32 : (a : ℕ) → suc a ≤ 2 ^ 32 - 1 → sub (of_u32 (suc a)) (of_u32 1) ≡ of_u32 a
  -- No time gives no tokens, at a finite rate.
  pub add-zero :
      (a rate : F64)
      → le (of_u32 0) rate ≡ true
      → le rate (of_u32 (2 ^ 32 - 1)) ≡ true
      → le a a ≡ true
      → add a (mul (as_secs_f64 0) rate) ≡ a
