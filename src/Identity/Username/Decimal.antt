-- ===== src/Identity/Username/Decimal.antt =====
-- The digits of a number.
use variance.Prelude.{
  ℕ, zero, suc, ◌+◌, ◌-◌, ◌*◌, ◌/◌, ◌%◌, ◌^◌, ◌<◌, ◌≡◌, refl, Text, [], ◌∷◌, ◌++◌, arith, ltb,
  Bool-cases, inl, inr,
}
use native.Mathlib.Nat.{pow-suc}
use variance.Identity.Username.{decimal}

-- The number that digits stand for, after those that are read.
abbrev value : ℕ → Text → ℕ
value read [] = read
value read (d ∷ ds) = value (read * 10 + (d - 48)) ds

value-append :
    (read : ℕ) (ds : Text) (d : ℕ) → value read (ds ++ d ∷ []) ≡ value read ds * 10 + (d - 48)
value-append read [] d = refl
value-append read (c ∷ ds) d = value-append (read * 10 + (c - 48)) ds d

-- With the fuel for its digits, a number's decimal digits stand for it.
value-decimal : (fuel n : ℕ) → n < 10 ^ suc fuel → value 0 (decimal fuel n) ≡ n
unfolding decimal
value-decimal zero n h = omega arith
value-decimal (suc fuel) n h = elim (Bool-cases (ltb n 10)) [
  | inl small ↦ rw (small, decimal) (omega arith)
  | inr large ↦
      let front : n / 10 < 10 ^ suc fuel = omega (arith, pow-suc 10 (suc fuel)) in
      rw
        (
          large,
          decimal,
          value-append 0 (decimal fuel (n / 10)) (48 + n % 10),
          value-decimal fuel (n / 10) front,
        )
        (omega arith)
]
