-- ===== src/Messaging/Storage/Keys.antt =====
-- crates/variance-messaging/src/storage/mod.rs: the keys of messages, and what is read back of them.
pub mod Digits
pub mod Parse
pub mod Order
use variance.Prelude.{
  ℕ, zero, suc, ◌+◌, ◌-◌, ◌*◌, ◌/◌, ◌%◌, ◌^◌, Text, List, [], ◌∷◌, ◌++◌, Option, none, some, Bool,
  true, false, ◌&&◌, is_empty, leb, ltb, eqb, codes, if◌then◌else◌, ◌==◌, nat_eq,
}
use mathlib.Core.List.{reverse}
use variance.Prelude.Int.{ℤ, pos, negsuc}
use variance.Messaging.Storage.Sled.{lex_ltb}

-- A number's digits, as many as are asked for.
unfoldable pub fixed : ℕ → ℕ → Text
fixed zero n = []
fixed (suc w) n = fixed w (n / 10) ++ (48 + n % 10) ∷ []

-- `{:020}` of an `i64`, which has at most 19 digits; the width counts the sign.
unfoldable pub timestamp_020 : ℤ → Text
timestamp_020 (pos n) = fixed 20 n
timestamp_020 (negsuc n) = 45 ∷ fixed 19 (suc n)

-- `{a}:{b}`.
abbrev pub joined : Text → Text → Text
joined a b = a ++ 58 ∷ b

-- `dids.sort()`, and the two with a colon between them.
unfoldable pub conversation_id : Text → Text → Text
conversation_id did1 did2 = if lex_ltb did2 did1 then joined did2 did1 else joined did1 did2

-- `{prefix}:{timestamp:020}:{id}`.
unfoldable pub message_key : Text → ℤ → Text → Text
message_key prefix timestamp id = joined prefix (joined (timestamp_020 timestamp) id)

unfoldable pub direct_key : Text → Text → ℤ → Text → Text
unfolding conversation_id message_key
direct_key sender recipient timestamp id =
    message_key (conversation_id sender recipient) timestamp id

unfoldable pub group_key : Text → ℤ → Text → Text
unfolding message_key
group_key group_id timestamp id = message_key group_id timestamp id

-- `rfind(':')`, with the text before and after it.
unfoldable pub rsplit_colon : Text → Option (Text × Text)
rsplit_colon [] = none
rsplit_colon (c ∷ cs) = elim (rsplit_colon cs) [
  | some (before, after) ↦ some (c ∷ before, after)
  | none ↦ if eqb c 58 then some ([], cs) else none
]

-- Digits, after a number that has been read.
unfoldable pub read_digits : ℕ → Text → Option ℕ
read_digits n [] = some n
read_digits n (c ∷ cs) =
    let rest = read_digits (n * 10 + (c - 48)) cs in if leb 48 c && leb c 57 then rest else none

abbrev pub neg_ℕ : ℕ → ℤ
neg_ℕ zero = pos 0
neg_ℕ (suc n) = negsuc n

unfoldable pub in_i64 : Bool → ℕ → Option ℤ
in_i64 negative n =
    if negative
    then (if leb n (2 ^ 63) then some (neg_ℕ n) else none)
    else (if ltb n (2 ^ 63) then some (pos n) else none)

unfoldable pub read_i64 : Bool → Text → Option ℤ
unfolding in_i64
read_i64 negative s =
    if is_empty s then none else elim (read_digits 0 s) [ none ↦ none | some n ↦ in_i64 negative n ]

-- `str::parse::<i64>`.
unfoldable pub parse_i64 : Text → Option ℤ
unfolding read_i64
parse_i64 [] = none
parse_i64 (c ∷ cs) =
    if eqb c 45
    then read_i64 true cs
    else (if eqb c 43 then read_i64 false cs else read_i64 false (c ∷ cs))

unfoldable pub parse_direct_key : Text → Option (Text × ℤ)
parse_direct_key key = elim (rsplit_colon key) [
  | none ↦ none
  | some (before_id, id) ↦ elim (rsplit_colon before_id) [
    | none ↦ none
    | some (conv_id, digits) ↦ elim (parse_i64 digits) [
      | none ↦ none
      | some timestamp ↦ some (conv_id, timestamp)
    ]
  ]
]

unfoldable pub parse_group_key_timestamp : Text → Option ℤ
parse_group_key_timestamp key = elim (rsplit_colon key) [
  | none ↦ none
  | some (before_id, id) ↦ elim (rsplit_colon before_id) [
    | none ↦ none
    | some (group_id, digits) ↦ parse_i64 digits
  ]
]

-- `strip_prefix`.
unfoldable pub strip_prefix : Text → Text → Option Text
strip_prefix [] s = some s
strip_prefix (p ∷ ps) [] = none
strip_prefix (p ∷ ps) (c ∷ s) = if p == c then strip_prefix ps s else none

-- `strip_suffix`.
unfoldable pub strip_suffix : Text → Text → Option Text
unfolding strip_prefix
strip_suffix p s = elim (strip_prefix (reverse p) (reverse s)) [
  | none ↦ none
  | some rest ↦ some (reverse rest)
]

abbrev pub ends_with : Text → Text → Bool
ends_with p s = elim (strip_suffix p s) [ none ↦ false | some rest ↦ true ]

unfoldable pub peer_did_from_conv_id : Text → Text → Option Text
peer_did_from_conv_id conv_id local_did = elim (strip_prefix (joined local_did []) conv_id) [
  | some rest ↦ some rest
  | none ↦ strip_suffix (58 ∷ local_did) conv_id
]
