-- ===== src/Messaging/Storage/Io.antt =====
-- Operations on a state that may fail, with `?` as the bind of a `do` block. What was done before a
-- failure stays done.
use variance.Prelude.{◌≡◌, refl, ap, arith, Result, ok, err}
use variance.Messaging.Errors.{Error}

abbrev pub Io : Type 0 → Type 0 → Type 0
Io S A = S → S × Result Error A

-- What follows a step, from what the step left and returned.
abbrev pub after : {S A B : Type 0} → (A → Io S B) → S × Result Error A → S × Result Error B
after f (s, ok a) = f a s
after f (s, err e) = (s, err e)

infixl 5 ◌>>=◌ ◌>>◌
abbrev pub ◌>>=◌ : {S A B : Type 0} → Io S A → (A → Io S B) → Io S B
◌>>=◌ m f s = after f (m s)

abbrev pub ◌>>◌ : {S B : Type 0} → Io S (Unit {0}) → Io S B → Io S B
m >> k = m >>= λ _. k

abbrev pub return : {S A : Type 0} → A → Io S A
return a s = (s, ok a)

abbrev pub fail : {S A : Type 0} → Error → Io S A
fail e s = (s, err e)

-- A result that needs no state.
abbrev pub lift : {S A : Type 0} → Result Error A → Io S A
lift r s = (s, r)

-- A read of the state.
abbrev pub read : {S A : Type 0} → (S → Result Error A) → Io S A
read f s = (s, f s)

-- A step that is followed by others succeeds where they do in the end.
pub after-eq-ok :
    {S A B : Type 0} (f : A → Io S B) (p : S × Result Error A) (t : S) (b : B)
    → after f p ≡ (t, ok b)
    → (s : S) × (a : A) × (p ≡ (s, ok a)) × (f a s ≡ (t, ok b))
after-eq-ok f (s, ok a) t b e = (s, a, refl, e)
after-eq-ok f (s, err x) t b e = absurd (ground (arith, ap (λ p. p.1) e))
