-- ===== src/Identity/Username/Parse/Format.antt =====
-- The round trip of a formatted name.
use variance.Prelude.{
  ℕ, ◌+◌, ◌/◌, ◌%◌, ◌^◌, ◌≡◌, ◌≤◌, ◌<◌, refl, ap, Text, [], ◌∷◌, ◌++◌, none, some, true, false, eqb,
  ltb, leb, contains, arith, Bool-cases, inl, inr, list_eq, nat_eq,
}
use variance.Messaging.Storage.Keys.{fixed, read_digits}
use variance.Messaging.Storage.Keys.Digits.{read_digits-fixed}
use variance.Identity.Username.{
  decimal, pad4, format_username, min_discriminator, max_discriminator,
}
use variance.Identity.Username.Parse.{rsplit_hash, read_u32, parse_u32, without_at, parse_username}

four :
    {a b c d a' b' c' d' : ℕ}
    → a ≡ a'
    → b ≡ b'
    → c ≡ c'
    → d ≡ d'
    → ◌≡◌ {A = Text} (a ∷ b ∷ c ∷ d ∷ []) (a' ∷ b' ∷ c' ∷ d' ∷ [])
four p q r s = cc

-- Four digits, of which the first are zeros.
pad4-decimal : (d : ℕ) → d < 10 ^ 4 → pad4 (decimal 9 d) ≡ fixed 4 d
unfolding pad4 decimal fixed
pad4-decimal d h = elim (Bool-cases (ltb d 10)) [
  | inl one ↦
      let small : d < 10 = ground arith in
      rw one (four (omega arith) (omega arith) (omega arith) (omega arith))
  | inr more ↦ elim (Bool-cases (ltb (d / 10) 10)) [
    | inl two ↦
        let small : d / 10 < 10 = ground arith in
        rw (more, two) (four (omega arith) (omega arith) (omega arith) (omega arith))
    | inr more₂ ↦ elim (Bool-cases (ltb (d / 10 / 10) 10)) [
      | inl three ↦
          let small : d / 10 / 10 < 10 = ground arith in
          rw (more, more₂, three) (four (omega arith) (omega arith) (omega arith) (omega arith))
      | inr more₃ ↦
          let small : d / 10 / 10 / 10 < 10 = omega arith in
          let last : ltb (d / 10 / 10 / 10) 10 ≡ true = ground arith in
          rw (more, more₂, more₃, last)
            (four (omega arith) (omega arith) (omega arith) (omega arith))
    ]
  ]
]

rsplit_hash-none : (s : Text) → contains 35 s ≡ false → rsplit_hash s ≡ none
unfolding rsplit_hash contains
rsplit_hash-none [] h = refl
rsplit_hash-none (c ∷ s) h = ground (arith, rsplit_hash-none s)

rsplit_hash-join : (a b : Text) → contains 35 b ≡ false → rsplit_hash (a ++ 35 ∷ b) ≡ some (a, b)
unfolding rsplit_hash
rsplit_hash-join [] b h = rw (rsplit_hash-none b h) refl
rsplit_hash-join (c ∷ a) b h = rw (rsplit_hash-join a b h, rsplit_hash) refl

four_digits : (d : ℕ) → contains 35 (fixed 4 d) ≡ false
unfolding fixed contains
four_digits d = ground arith

parse_u32-fixed : (d : ℕ) → d < 10 ^ 4 → parse_u32 (fixed 4 d) ≡ some d
unfolding parse_u32 read_u32 fixed
parse_u32-fixed d h =
    let no_plus : eqb (48 + d / 10 / 10 / 10 % 10) 43 ≡ false = ground arith in
    let read : read_digits 0 (
          (48 + d / 10 / 10 / 10 % 10)
          ∷ (48 + d / 10 / 10 % 10)
          ∷ (48 + d / 10 % 10)
          ∷ (48 + d % 10)
          ∷ [])
        ≡ some d =
      read_digits-fixed 4 d h in
    let fits : ltb d (2 ^ 32) ≡ true = ground arith in rw (no_plus, read, fits) refl

format_username-fixed :
    (name : Text) (d : ℕ) → d < 10 ^ 4 → format_username name d ≡ name ++ 35 ∷ fixed 4 d
unfolding format_username
format_username-fixed name d h = ap (λ digits. name ++ 35 ∷ digits) (pad4-decimal d h)

-- The name and the discriminator are read back of a formatted name, also after an `@`, for a name that
-- does not begin with an `@` and a discriminator from 1 to 9999.
pub parse_username-format_username :
    (c : ℕ) (cs : Text) (d : ℕ)
    → eqb c 64 ≡ false
    → 1 ≤ d
    → d ≤ 9999
    → (parse_username (format_username (c ∷ cs) d) ≡ some (c ∷ cs, d))
      × (parse_username (64 ∷ format_username (c ∷ cs) d) ≡ some (c ∷ cs, d))
unfolding parse_username without_at
parse_username-format_username c cs d plain some_d small =
    let formatted = format_username-fixed (c ∷ cs) d (omega arith) in
    let split = rsplit_hash-join (c ∷ cs) (fixed 4 d) (four_digits d) in
    let read = parse_u32-fixed d (omega arith) in
    let from : leb min_discriminator d ≡ true = ground arith in
    let to : leb d max_discriminator ≡ true = ground arith in
    (
      rw (formatted, parse_username, without_at, plain, split, read, from, to) refl,
      rw (formatted, parse_username, without_at, split, read, from, to) refl,
    )
