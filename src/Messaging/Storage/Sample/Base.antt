-- ===== src/Messaging/Storage/Sample/Base.antt =====
-- Codecs for the tests: a message as a list of numbers, each list after its length.
use variance.Prelude.{
  ℕ, zero, suc, ◌≡◌, refl, ap, Text, List, [], ◌∷◌, ◌++◌, Option, none, some, Result, ok, err,
  length,
}
use variance.Prelude.Int.{ℤ, pos, negsuc}
use variance.Messaging.Storage.Sled.{Codec}

-- Writing before more text, and reading with the text that is left.
pub record Coder (A : Type 0) : Type 0 where
  pub write : A → Text → Text
  pub read : Text → Option (A × Text)
  pub read_write : (a : A) (r : Text) → read (write a r) ≡ some (a, r)

abbrev pub and_then :
    {A B : Type 0} → Option (A × Text) → (A → Text → Option (B × Text)) → Option (B × Text)
and_then none f = none
and_then (some (a, r)) f = f a r

abbrev pub read_number : Text → Option (ℕ × Text)
read_number [] = none
read_number (n ∷ r) = some (n, r)

abbrev pub number : Coder ℕ
number = record { write = λ n r. n ∷ r; read = read_number; read_write = λ n r. refl }

abbrev pub both : {A B : Type 0} → Coder A → Coder B → Coder (A × B)
both c d = record {
  write = λ p r. c.write p.0 (d.write p.1 r);
  read = λ s. and_then (c.read s) (λ a r. and_then (d.read r) (λ b r. some ((a, b), r)));
  read_write = λ p r. rw (c.read_write p.0 (d.write p.1 r), d.read_write p.1 r) refl;
}

abbrev pub as_type :
    {A B : Type 0} (f : A → B) (g : B → A) → ((b : B) → f (g b) ≡ b) → Coder A → Coder B
as_type f g back c = record {
  write = λ b r. c.write (g b) r;
  read = λ s. and_then (c.read s) (λ a r. some (f a, r));
  read_write = λ b r. rw (c.read_write (g b) r) (ap (λ x. some (x, r)) (back b));
}

abbrev pub write_numbers : List ℕ → Text → Text
write_numbers xs r = length xs ∷ (xs ++ r)

abbrev pub split_at : ℕ → Text → Option (List ℕ × Text)
split_at zero r = some ([], r)
split_at (suc n) [] = none
split_at (suc n) (x ∷ r) = and_then (split_at n r) (λ xs r. some (x ∷ xs, r))

pub split_at-append : (xs : List ℕ) (r : Text) → split_at (length xs) (xs ++ r) ≡ some (xs, r)
split_at-append [] r = refl
split_at-append (x ∷ xs) r = rw (split_at-append xs r) refl

abbrev pub read_numbers : Text → Option (List ℕ × Text)
read_numbers [] = none
read_numbers (n ∷ r) = split_at n r

abbrev pub numbers : Coder (List ℕ)
numbers = record { write = write_numbers; read = read_numbers; read_write = split_at-append }

abbrev pub write_int : ℤ → Text → Text
write_int (pos n) r = 0 ∷ n ∷ r
write_int (negsuc n) r = 1 ∷ n ∷ r

abbrev pub read_int : Text → Option (ℤ × Text)
read_int (zero ∷ n ∷ r) = some (pos n, r)
read_int (suc k ∷ n ∷ r) = some (negsuc n, r)
read_int _ = none

pub read_int-write_int : (z : ℤ) (r : Text) → read_int (write_int z r) ≡ some (z, r)
read_int-write_int (pos n) r = refl
read_int-write_int (negsuc n) r = refl

abbrev pub int : Coder ℤ
int = record { write = write_int; read = read_int; read_write = read_int-write_int }

abbrev pub write_opt : {A : Type 0} → Coder A → Option A → Text → Text
write_opt c none r = 0 ∷ r
write_opt c (some a) r = 1 ∷ c.write a r

abbrev pub read_opt : {A : Type 0} → Coder A → Text → Option (Option A × Text)
read_opt c [] = none
read_opt c (zero ∷ r) = some (none, r)
read_opt c (suc k ∷ r) = and_then (c.read r) (λ a r. some (some a, r))

pub read_opt-write_opt :
    {A : Type 0} (c : Coder A) (o : Option A) (r : Text)
    → read_opt c (write_opt c o r) ≡ some (o, r)
read_opt-write_opt c none r = refl
read_opt-write_opt c (some a) r = rw (c.read_write a r) refl

abbrev pub opt : {A : Type 0} → Coder A → Coder (Option A)
opt c = record { write = write_opt c; read = read_opt c; read_write = read_opt-write_opt c }

abbrev pub write_each : {A : Type 0} → Coder A → List A → Text → Text
write_each c [] r = r
write_each c (x ∷ xs) r = c.write x (write_each c xs r)

abbrev pub read_each : {A : Type 0} → Coder A → ℕ → Text → Option (List A × Text)
read_each c zero r = some ([], r)
read_each c (suc n) r =
    and_then (c.read r) (λ a r. and_then (read_each c n r) (λ xs r. some (a ∷ xs, r)))

read_each-write_each :
    {A : Type 0} (c : Coder A) (xs : List A) (r : Text)
    → read_each c (length xs) (write_each c xs r) ≡ some (xs, r)
read_each-write_each c [] r = refl
read_each-write_each c (x ∷ xs) r =
    rw (c.read_write x (write_each c xs r), read_each-write_each c xs r) refl

abbrev pub read_many : {A : Type 0} → Coder A → Text → Option (List A × Text)
read_many c [] = none
read_many c (n ∷ r) = read_each c n r

pub read_many-write_many :
    {A : Type 0} (c : Coder A) (xs : List A) (r : Text)
    → read_many c (length xs ∷ write_each c xs r) ≡ some (xs, r)
read_many-write_many c xs r = read_each-write_each c xs r

abbrev pub many : {A : Type 0} → Coder A → Coder (List A)
many c = record {
  write = λ xs r. length xs ∷ write_each c xs r;
  read = read_many c;
  read_write = read_many-write_many c;
}

-- A codec from a coder, for a text that is read to its end.
abbrev pub read_all : {A : Type 0} → Option (A × Text) → Result Text A
read_all (some (a, [])) = ok a
read_all _ = err []

abbrev pub codec_of : {A : Type 0} → Coder A → Codec A
codec_of c = record {
  encode = λ a. c.write a [];
  decode = λ s. read_all (c.read s);
  decode_encode = λ a. ap read_all (c.read_write a []);
}
