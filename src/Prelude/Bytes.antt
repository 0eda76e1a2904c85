-- ===== src/Prelude/Bytes.antt =====
-- Little-endian bytes of machine integers (`to_le_bytes`), and lists cut at a known length.
use Prim.Native.Nat.{ℕ, zero, suc, ◌-◌, ◌/◌, ◌%◌, ◌^◌, ◌<◌}
use mathlib.Core.Path.{◌≡◌, refl, ap}
use mathlib.Core.List.{List, [], ◌∷◌, ◌++◌}
use native.Mathlib.Nat.{pow-suc}
use native.Mathlib.Omega.{arith}
use variance.Prelude.Lists.{length}
use variance.Prelude.Int.{ℤ, pos, negsuc, ◌≤ℤ◌, i64_min, i64_max}

pub le_bytes : ℕ → ℕ → List ℕ
le_bytes zero n = []
le_bytes (suc k) n = n % 256 ∷ le_bytes k (n / 256)

pub length-le_bytes : (k n : ℕ) → length (le_bytes k n) ≡ k
unfolding le_bytes
length-le_bytes zero n = refl
length-le_bytes (suc k) n = ap suc (length-le_bytes k (n / 256))

div_bound : (a k : ℕ) → a < 256 ^ suc k → a / 256 < 256 ^ k
div_bound a k h = omega (arith, pow-suc 256 k)

pub le_bytes-injective :
    (k a b : ℕ) → a < 256 ^ k → b < 256 ^ k → le_bytes k a ≡ le_bytes k b → a ≡ b
unfolding le_bytes
le_bytes-injective zero a b ha hb e = omega arith
le_bytes-injective (suc k) a b ha hb e =
    let ih = le_bytes-injective k (a / 256) (b / 256) (div_bound a k ha) (div_bound b k hb) in
    ground (arith, ih)

-- The 64 bits of an `i64`.
unfoldable pub i64_bits : ℤ → ℕ
i64_bits (pos n) = n % 2 ^ 64
i64_bits (negsuc n) = 2 ^ 64 - 1 - n % 2 ^ 64

unfoldable pub i64_le_bytes : ℤ → List ℕ
i64_le_bytes t = le_bytes 8 (i64_bits t)

unfoldable pub i32_le_bytes : ℕ → List ℕ
i32_le_bytes n = le_bytes 4 n

abbrev pub IsI64 : ℤ → Type 0
IsI64 t = (i64_min ≤ℤ t) × (t ≤ℤ i64_max)

pub i64_bits-injective : (a b : ℤ) → IsI64 a → IsI64 b → i64_bits a ≡ i64_bits b → a ≡ b
unfolding i64_bits
i64_bits-injective a b ha hb e = ground arith

pub length-i64_le_bytes : (t : ℤ) → length (i64_le_bytes t) ≡ 8
unfolding i64_le_bytes
length-i64_le_bytes t = length-le_bytes 8 (i64_bits t)

pub i64_bits-lt : (t : ℤ) → i64_bits t < 256 ^ 8
unfolding i64_bits
i64_bits-lt t = ground arith

pub i64_le_bytes-injective : (a b : ℤ) → IsI64 a → IsI64 b → i64_le_bytes a ≡ i64_le_bytes b → a ≡ b
unfolding i64_le_bytes
i64_le_bytes-injective a b ha hb e =
    i64_bits-injective a b ha hb
      (le_bytes-injective 8 (i64_bits a) (i64_bits b) (i64_bits-lt a) (i64_bits-lt b) e)

module _ {ℓ} {A : Type ℓ} where
  -- Two lists that start with parts of one length agree part by part.
  pub append-cancel :
      (xs ys us vs : List A) → length xs ≡ length ys → xs ++ us ≡ ys ++ vs → (xs ≡ ys) × (us ≡ vs)
  append-cancel [] [] us vs h e = (refl, e)
  append-cancel [] (y ∷ ys) us vs h e = absurd (omega arith)
  append-cancel (x ∷ xs) [] us vs h e = absurd (omega arith)
  append-cancel (x ∷ xs) (y ∷ ys) us vs h e =
      ground (arith, append-cancel xs ys us vs (omega arith))

-- The 32 bits of an `i32`, and its bytes.
unfoldable pub signed_i32_bits : ℤ → ℕ
signed_i32_bits (pos n) = n % 2 ^ 32
signed_i32_bits (negsuc n) = 2 ^ 32 - 1 - n % 2 ^ 32

unfoldable pub signed_i32_le_bytes : ℤ → List ℕ
signed_i32_le_bytes n = le_bytes 4 (signed_i32_bits n)

pub length-signed_i32_le_bytes : (n : ℤ) → length (signed_i32_le_bytes n) ≡ 4
unfolding signed_i32_le_bytes
length-signed_i32_le_bytes n = length-le_bytes 4 (signed_i32_bits n)

abbrev pub IsI32 : ℤ → Type 0
IsI32 t = (negsuc (2 ^ 31 - 1) ≤ℤ t) × (t ≤ℤ pos (2 ^ 31 - 1))

signed_i32_bits-injective :
    (a b : ℤ) → IsI32 a → IsI32 b → signed_i32_bits a ≡ signed_i32_bits b → a ≡ b
unfolding signed_i32_bits
signed_i32_bits-injective a b ha hb e = ground arith

signed_i32_bits-lt : (t : ℤ) → signed_i32_bits t < 256 ^ 4
unfolding signed_i32_bits
signed_i32_bits-lt t = ground arith

pub signed_i32_le_bytes-injective :
    (a b : ℤ) → IsI32 a → IsI32 b → signed_i32_le_bytes a ≡ signed_i32_le_bytes b → a ≡ b
unfolding signed_i32_le_bytes
signed_i32_le_bytes-injective a b ha hb e = signed_i32_bits-injective a b ha hb (
    le_bytes-injective 4 (signed_i32_bits a) (signed_i32_bits b) (signed_i32_bits-lt a)
      (signed_i32_bits-lt b) e)
