-- ===== src/Messaging/Storage/Entries/Last.antt =====
-- The last messages of a list, read backwards.
use variance.Prelude.{
  ℕ, zero, suc, ◌≡◌, refl, ap, ap₂, sym, ◌∙◌, Text, List, [], ◌∷◌, ◌++◌, Bool, ok, err, length,
  take, retain, map, leb, arith, Bool-cases, Result-cases, inl, inr, if◌then◌else◌, length-append,
}
use mathlib.Core.List.{reverse, reverse-cons, reverse-append, reverse-reverse, append-nil}
use variance.Messaging.Storage.Sled.{Codec}
use variance.Messaging.Storage.Entries.{Scanned, decode_some, readable}

module _ {A : Type 0} where
  -- The last elements, as many as are asked for.
  unfoldable pub take_last : ℕ → List A → List A
  take_last n [] = []
  take_last n (x ∷ xs) =
      let rest = take_last n xs in if leb (suc (length xs)) n then x ∷ xs else rest

  length-reverse : (xs : List A) → length (reverse xs) ≡ length xs
  length-reverse [] = refl
  length-reverse (x ∷ xs) =
      rw (reverse-cons x xs) (omega (arith, length-append (reverse xs) (x ∷ []), length-reverse xs))

  take-snoc :
      (n : ℕ) (ys : List A) (x : A)
      → take n (ys ++ x ∷ []) ≡ (if leb (suc (length ys)) n then ys ++ x ∷ [] else take n ys)
  take-snoc zero ys x = ground arith
  take-snoc (suc zero) [] x = refl
  take-snoc (suc (suc n)) [] x = ground arith
  take-snoc (suc n) (y ∷ ys) x = ground (arith, take-snoc n ys x)

  reverse-take-reverse : (n : ℕ) (xs : List A) → reverse (take n (reverse xs)) ≡ take_last n xs
  unfolding take_last
  reverse-take-reverse zero [] = refl
  reverse-take-reverse (suc n) [] = refl
  reverse-take-reverse n (x ∷ xs) =
      ap (λ r. reverse (take n r)) (reverse-cons x xs)
      ∙ ap reverse (take-snoc n (reverse xs) x)
      ∙ elim (Bool-cases (leb (suc (length xs)) n)) [
        | inl all ↦
            rw (length-reverse xs, all)
              (reverse-append (reverse xs) (x ∷ []) ∙ ap (◌∷◌ x) (reverse-reverse xs))
        | inr some ↦ rw (length-reverse xs, some) (reverse-take-reverse n xs)
      ]

  retain-append : (p : A → Bool) (xs ys : List A) → retain p (xs ++ ys) ≡ retain p xs ++ retain p ys
  retain-append p [] ys = refl
  retain-append p (x ∷ xs) ys = ground (arith, retain-append p xs ys)

  retain-reverse : (p : A → Bool) (xs : List A) → retain p (reverse xs) ≡ reverse (retain p xs)
  retain-reverse p [] = refl
  retain-reverse p (x ∷ xs) =
      ap (retain p) (reverse-cons x xs)
      ∙ retain-append p (reverse xs) (x ∷ [])
      ∙ elim (Bool-cases (p x)) [
        | inl keep ↦
            rw keep
              (ap (λ r. r ++ x ∷ []) (retain-reverse p xs) ∙ sym (reverse-cons x (retain p xs)))
        | inr drop ↦ rw drop (append-nil (retain p (reverse xs)) ∙ retain-reverse p xs)
      ]

module _ {M : Type 0} (codec : Codec M) where
  decode_some-append :
      (xs ys : Scanned)
      → decode_some codec (xs ++ ys) ≡ decode_some codec xs ++ decode_some codec ys
  unfolding decode_some
  decode_some-append [] ys = refl
  decode_some-append (err e ∷ xs) ys = decode_some-append xs ys
  decode_some-append (ok (k, v) ∷ xs) ys = elim (Result-cases (codec.decode v)) [
    | inl (m, good) ↦ rw (decode_some, good) (ap (◌∷◌ m) (decode_some-append xs ys))
    | inr (x, bad) ↦ rw (decode_some, bad) (decode_some-append xs ys)
  ]

  decode_some-readable :
      (es : List (Text × M))
      → decode_some codec (reverse (readable codec es)) ≡ reverse (map (λ e. e.1) es)
  unfolding decode_some
  decode_some-readable [] = refl
  decode_some-readable (e ∷ es) =
      let last : decode_some codec (ok (e.0, codec.encode e.1) ∷ []) ≡ e.1 ∷ [] =
        rw (decode_some, codec.decode_encode e.1) refl in
      ap (decode_some codec) (reverse-cons (ok (e.0, codec.encode e.1)) (readable codec es))
      ∙ decode_some-append (reverse (readable codec es)) (ok (e.0, codec.encode e.1) ∷ [])
      ∙ ap₂ (◌++◌) (decode_some-readable es) last
      ∙ sym (reverse-cons e.1 (map (λ e. e.1) es))

  -- Reading backwards, up to a limit, and turning the result round gives the last messages of those
  -- that are asked for.
  pub latest_lem :
      (n : ℕ) (p : M → Bool) (es : List (Text × M))
      → reverse (take n (retain p (decode_some codec (reverse (readable codec es)))))
        ≡ take_last n (retain p (map (λ e. e.1) es))
  latest_lem n p es =
      rw (decode_some-readable es, retain-reverse p (map (λ e. e.1) es))
        (reverse-take-reverse n (retain p (map (λ e. e.1) es)))
