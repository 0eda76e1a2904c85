-- ===== src/Messaging/Storage/Keys/Parse.antt =====
-- What is read back of a key.
use variance.Prelude.{
  ℕ, zero, suc, ◌+◌, ◌/◌, ◌%◌, ◌^◌, ◌<◌, ◌≡◌, refl, ap, Text, [], ◌∷◌, ◌++◌, none, some, false,
  arith, contains, list_eq, nat_eq,
}
use mathlib.Core.List.{append_assoc}
use variance.Prelude.Int.{ℤ, pos, negsuc}
use variance.Messaging.Storage.Keys.{
  fixed, timestamp_020, joined, message_key, direct_key, group_key, conversation_id, rsplit_colon,
  read_digits, read_i64, in_i64, parse_i64, parse_direct_key, parse_group_key_timestamp,
}
use variance.Messaging.Storage.Keys.Digits.{read_digits-fixed, contains-fixed}

rsplit_colon-none : (s : Text) → contains 58 s ≡ false → rsplit_colon s ≡ none
unfolding rsplit_colon contains
rsplit_colon-none [] h = refl
rsplit_colon-none (c ∷ s) h = ground (arith, rsplit_colon-none s)

pub rsplit_colon-joined :
    (before after : Text)
    → contains 58 after ≡ false
    → rsplit_colon (joined before after) ≡ some (before, after)
unfolding rsplit_colon
rsplit_colon-joined [] after h = ground (arith, rsplit_colon-none after h)
rsplit_colon-joined (c ∷ before) after h = ground (arith, rsplit_colon-joined before after h)

-- A time in milliseconds that is not before 1970.
abbrev pub IsTimestamp : ℤ → Type 0
IsTimestamp (pos n) = n < 2 ^ 63
IsTimestamp (negsuc n) = ⊥

-- What `fixed` begins with.
first_digit : (w n : ℕ) → (d : ℕ) × (rest : Text) × (d < 10) × (fixed (suc w) n ≡ (48 + d) ∷ rest)
unfolding fixed
first_digit zero n = (n % 10, [], omega arith, refl)
first_digit (suc w) n =
    let (d, rest, small, e) = first_digit w (n / 10) in
    (d, rest ++ (48 + n % 10) ∷ [], small, ap (λ s. s ++ (48 + n % 10) ∷ []) e)

parse_i64-digits :
    (d : ℕ) (rest : Text) (n : ℕ)
    → d < 10
    → n < 2 ^ 63
    → read_digits 0 ((48 + d) ∷ rest) ≡ some n
    → parse_i64 ((48 + d) ∷ rest) ≡ some (pos n)
unfolding parse_i64 read_i64 in_i64
parse_i64-digits d rest n small h e = ground arith

parse_i64-fixed : (n : ℕ) → n < 2 ^ 63 → parse_i64 (fixed 20 n) ≡ some (pos n)
parse_i64-fixed n h =
    let (d, rest, small, e) = first_digit 19 n in
    rw e (parse_i64-digits d rest n small h (rw (← e) (read_digits-fixed 20 n (omega arith))))

pub parse_i64-timestamp_020 : (t : ℤ) → IsTimestamp t → parse_i64 (timestamp_020 t) ≡ some t
unfolding timestamp_020
parse_i64-timestamp_020 (pos n) h = parse_i64-fixed n h
parse_i64-timestamp_020 (negsuc n) h = elim h [ ]

contains-timestamp_020 : (t : ℤ) → IsTimestamp t → contains 58 (timestamp_020 t) ≡ false
unfolding timestamp_020
contains-timestamp_020 (pos n) h = contains-fixed 20 n
contains-timestamp_020 (negsuc n) h = elim h [ ]

-- The two splits that every reader of a key makes.
pub rsplit_colon-message_key :
    (prefix : Text) (t : ℤ) (id : Text)
    → IsTimestamp t
    → contains 58 id ≡ false
    → (rsplit_colon (message_key prefix t id) ≡ some (joined prefix (timestamp_020 t), id))
      × (rsplit_colon (joined prefix (timestamp_020 t)) ≡ some (prefix, timestamp_020 t))
unfolding message_key
rsplit_colon-message_key prefix t id ht hid = (
  rw (← append_assoc prefix (58 ∷ timestamp_020 t) (58 ∷ id))
      (rsplit_colon-joined (joined prefix (timestamp_020 t)) id hid),
  rsplit_colon-joined prefix (timestamp_020 t) (contains-timestamp_020 t ht),
)

-- The conversation and the time are read back of a direct message's key, and the time of a group
-- message's key, where the id has no colon and the time is not before 1970.
pub parse_direct_key-direct_key :
    (sender recipient group_id : Text) (t : ℤ) (id : Text)
    → IsTimestamp t
    → contains 58 id ≡ false
    → (parse_direct_key (direct_key sender recipient t id)
        ≡ some (conversation_id sender recipient, t))
      × (parse_group_key_timestamp (group_key group_id t id) ≡ some t)
unfolding direct_key group_key parse_direct_key parse_group_key_timestamp
parse_direct_key-direct_key sender recipient group_id t id ht hid =
    let (p, q) = rsplit_colon-message_key (conversation_id sender recipient) t id ht hid in
    let (p', q') = rsplit_colon-message_key group_id t id ht hid in
    let d = parse_i64-timestamp_020 t ht in
    (rw (p, q, d, parse_direct_key) refl, rw (p', q', d, parse_group_key_timestamp) refl)
