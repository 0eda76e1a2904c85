-- ===== src/Messaging/Storage/Keys/Order.antt =====
-- The order of the keys in a tree.
use variance.Prelude.{◌≡◌, refl, Text, [], ◌∷◌, ◌++◌, true, false, arith, ◌&&◌, not}
use variance.Prelude.Int.{ℤ, pos, negsuc, ltb_ℤ}
use variance.Messaging.Storage.Sled.{lex_ltb, starts_with}
use variance.Messaging.Storage.Keys.{fixed, timestamp_020, joined, message_key, conversation_id}
use variance.Messaging.Storage.Keys.Digits.{lex_ltb-fixed, lex_ltb-cancel}
use variance.Messaging.Storage.Keys.Parse.{IsTimestamp}

-- Of two keys with the same prefix, the one with the earlier time comes first in the order of
-- bytes, whatever the ids, for times that are not before 1970.
pub lex_ltb-message_key :
    (prefix : Text) (t u : ℤ) (id other : Text)
    → IsTimestamp t
    → IsTimestamp u
    → ltb_ℤ t u ≡ true
    → lex_ltb (message_key prefix t id) (message_key prefix u other) ≡ true
unfolding message_key timestamp_020
lex_ltb-message_key prefix (pos m) (pos n) id other hm hn h =
    rw
      (
        lex_ltb-cancel prefix (58 ∷ joined (fixed 20 m) id) (58 ∷ joined (fixed 20 n) other),
        lex_ltb-cancel (58 ∷ []) (joined (fixed 20 m) id) (joined (fixed 20 n) other),
      )
      (lex_ltb-fixed 20 m n (58 ∷ id) (58 ∷ other) (ground arith) (omega arith))
lex_ltb-message_key prefix (negsuc m) u id other hm hn h = elim hm [ ]
lex_ltb-message_key prefix (pos m) (negsuc n) id other hm hn h = elim hn [ ]

pub lex_ltb_antisym : (s t : Text) → lex_ltb s t ≡ false → lex_ltb t s ≡ false → s ≡ t
unfolding lex_ltb
lex_ltb_antisym [] [] h k = refl
lex_ltb_antisym [] (y ∷ t) h k = cc
lex_ltb_antisym (x ∷ s) [] h k = cc
lex_ltb_antisym (x ∷ s) (y ∷ t) h k = ground (arith, lex_ltb_antisym s t)

pub lex_ltb_asym : (s t : Text) → lex_ltb s t ≡ true → lex_ltb t s ≡ false
unfolding lex_ltb
lex_ltb_asym [] [] h = refl
lex_ltb_asym [] (y ∷ t) h = refl
lex_ltb_asym (x ∷ s) [] h = cc
lex_ltb_asym (x ∷ s) (y ∷ t) h = ground (arith, lex_ltb_asym s t)

pub lex_ltb_irreflexive : (s : Text) → lex_ltb s s ≡ false
unfolding lex_ltb
lex_ltb_irreflexive [] = refl
lex_ltb_irreflexive (x ∷ s) = ground (arith, lex_ltb_irreflexive s)

-- Two users have one conversation, whoever asks.
pub conversation_id_comm : (a b : Text) → conversation_id a b ≡ conversation_id b a
unfolding conversation_id
conversation_id_comm a b = ground (arith, lex_ltb_antisym a b, lex_ltb_asym a b, lex_ltb_asym b a)

-- The keys from `p:` up to `p;` are those that begin with `p:`.
pub range_prefix :
    (p k : Text)
    → (not (lex_ltb k (p ++ 58 ∷ [])) && lex_ltb k (p ++ 59 ∷ [])) ≡ starts_with (p ++ 58 ∷ []) k
unfolding lex_ltb starts_with
range_prefix [] [] = refl
range_prefix [] (c ∷ k) = ground arith
range_prefix (x ∷ p) [] = refl
range_prefix (x ∷ p) (c ∷ k) = ground (arith, range_prefix p k)
