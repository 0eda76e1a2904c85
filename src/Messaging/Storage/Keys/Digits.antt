-- ===== src/Messaging/Storage/Keys/Digits.antt =====
-- Digits of a fixed width.
use variance.Prelude.{
  ℕ, zero, suc, ◌+◌, ◌-◌, ◌*◌, ◌/◌, ◌%◌, ◌^◌, ◌<◌, ◌≡◌, refl, Text, [], ◌∷◌, ◌++◌, some, true,
  false, arith, contains, list_eq, nat_eq, ltb, ◌||◌, Bool-cases, inl, inr, length, length-append,
}
use mathlib.Core.List.{append_assoc}
use native.Mathlib.Nat.{pow-suc}
use variance.Messaging.Storage.Sled.{lex_ltb}
use variance.Messaging.Storage.Keys.{fixed, read_digits}

tenth_lt : (w n : ℕ) → n < 10 ^ suc w → n / 10 < 10 ^ w
tenth_lt w n h = omega (arith, pow-suc 10 w)

read_digits-append :
    (n : ℕ) (s : Text) (d : ℕ) (m : ℕ)
    → d < 10
    → read_digits n s ≡ some m
    → read_digits n (s ++ (48 + d) ∷ []) ≡ some (m * 10 + d)
unfolding read_digits
read_digits-append n [] d m h e = ground arith
read_digits-append n (c ∷ s) d m h e = ground (arith, read_digits-append (n * 10 + (c - 48)) s d m)

pub read_digits-fixed : (w n : ℕ) → n < 10 ^ w → read_digits 0 (fixed w n) ≡ some n
unfolding fixed read_digits
read_digits-fixed zero n h = ground arith
read_digits-fixed (suc w) n h = ground (
  arith,
  read_digits-append 0 (fixed w (n / 10)) (n % 10) (n / 10),
  read_digits-fixed w (n / 10) (tenth_lt w n h),
)

contains-append : (c : ℕ) (s t : Text) → contains c (s ++ t) ≡ (contains c s || contains c t)
unfolding contains
contains-append c [] t = refl
contains-append c (x ∷ s) t = ground (arith, contains-append c s t)

-- Digits are no colon.
pub contains-fixed : (w n : ℕ) → contains 58 (fixed w n) ≡ false
unfolding fixed contains
contains-fixed zero n = refl
contains-fixed (suc w) n =
    ground
      (arith, contains-append 58 (fixed w (n / 10)) ((48 + n % 10) ∷ []), contains-fixed w (n / 10))

pub length-fixed : (w n : ℕ) → length (fixed w n) ≡ w
unfolding fixed
length-fixed zero n = refl
length-fixed (suc w) n =
    omega
      (arith, length-append {0} (fixed w (n / 10)) ((48 + n % 10) ∷ []), length-fixed w (n / 10))

pub lex_ltb-cancel : (p s t : Text) → lex_ltb (p ++ s) (p ++ t) ≡ lex_ltb s t
unfolding lex_ltb
lex_ltb-cancel [] s t = refl
lex_ltb-cancel (x ∷ p) s t = ground (arith, lex_ltb-cancel p s t)

regroup :
    (w m n : ℕ) (s t : Text)
    → lex_ltb (fixed w (m / 10) ++ (48 + m % 10) ∷ s) (fixed w (n / 10) ++ (48 + n % 10) ∷ t) ≡ true
    → lex_ltb (fixed (suc w) m ++ s) (fixed (suc w) n ++ t) ≡ true
unfolding fixed
regroup w m n s t h =
    rw
      (
        append_assoc (fixed w (m / 10)) ((48 + m % 10) ∷ []) s,
        append_assoc (fixed w (n / 10)) ((48 + n % 10) ∷ []) t,
      )
      h

last_digit :
    (w m n : ℕ) (s t : Text)
    → m < n
    → m / 10 ≡ n / 10
    → lex_ltb (fixed w (m / 10) ++ (48 + m % 10) ∷ s) (fixed w (n / 10) ++ (48 + n % 10) ∷ t) ≡ true
unfolding lex_ltb
last_digit w m n s t h e =
    rw (e, lex_ltb-cancel (fixed w (n / 10)) ((48 + m % 10) ∷ s) ((48 + n % 10) ∷ t)) (ground arith)

-- Digits of one width are in the order of their numbers, whatever follows.
pub lex_ltb-fixed :
    (w m n : ℕ) (s t : Text) → m < n → n < 10 ^ w → lex_ltb (fixed w m ++ s) (fixed w n ++ t) ≡ true
lex_ltb-fixed zero m n s t h k = absurd (omega arith)
lex_ltb-fixed (suc w) m n s t h k = elim (Bool-cases (ltb (m / 10) (n / 10))) [
  | inl less ↦
      regroup w m n s t (lex_ltb-fixed w (m / 10) (n / 10) _ _ (ground arith) (tenth_lt w n k))
  | inr same ↦ regroup w m n s t (last_digit w m n s t h (ground arith))
]
