-- ===== src/Messaging/Typing.antt =====
-- crates/variance-messaging/src/typing.rs: typing indicators. The two clocks are arguments: the wall
-- clock in milliseconds as an `i64`, whose differences wrap as in a release build, and the monotonic
-- clock (`Instant`) in nanoseconds. An operation reads its clock once.
pub mod Outbound
pub mod Inbound
mod Tests
use variance.Prelude.{
  ℕ, ◌-◌, ◌/◌, ◌^◌, Text, List, [], ◌∷◌, ◌++◌, Option, none, some, Bool, true, false, not, map,
  retain, is_empty, ltb, codes, if◌then◌else◌, ◌==◌, list_eq, nat_eq,
}
use variance.Prelude.Int.{ℤ, pos, ltb_ℤ, sub_i64}
use variance.Prelude.Map
use variance.Prelude.Map.{Map}

abbrev pub outbound_cooldown_ms : ℕ
outbound_cooldown_ms = 2000

abbrev pub compose_threshold_ms : ℕ
compose_threshold_ms = 300

pub data Recipient : Type 0 where
  recipient_did : Text → Recipient
  group_id : Text → Recipient

pub record TypingIndicator : Type 0 where
  pub sender_did : Text
  pub recipient : Option Recipient
  pub is_typing : Bool
  pub timestamp : ℤ

pub record TypingHandler : Type 0 where
  pub local_did : Text
  pub typing_states : Map Text (List (Text × ℤ))
  pub timeout_ms : ℤ
  pub last_outbound_start : Map Text ℕ
  pub compose_start : Map Text ℕ

unfoldable pub with_timeout : Text → ℤ → TypingHandler
with_timeout local_did timeout_ms = record {
  local_did = local_did;
  typing_states = [];
  timeout_ms = timeout_ms;
  last_outbound_start = [];
  compose_start = [];
}

unfoldable pub new_handler : Text → TypingHandler
unfolding with_timeout
new_handler local_did = with_timeout local_did (pos 5000)

-- `format!("group:{}", group_id)`.
unfoldable pub group_key : Text → Text
group_key id = codes "group:" ++ id

unfoldable pub send_typing_direct : TypingHandler → Text → Bool → ℤ → TypingIndicator
send_typing_direct h did is_typing now = record {
  sender_did = h.local_did;
  recipient = some (recipient_did did);
  is_typing = is_typing;
  timestamp = now;
}

unfoldable pub send_typing_group : TypingHandler → Text → Bool → ℤ → TypingIndicator
send_typing_group h id is_typing now = record {
  sender_did = h.local_did;
  recipient = some (group_id id);
  is_typing = is_typing;
  timestamp = now;
}

-- `start.elapsed().as_millis()`.
unfoldable pub elapsed_ms : ℕ → ℕ → ℕ
elapsed_ms start instant = (instant - start) / 10 ^ 6

unfoldable pub is_within_cooldown : TypingHandler → Text → ℕ → Bool
unfolding elapsed_ms
is_within_cooldown h key instant = elim (Map.get key h.last_outbound_start) [
  | some last ↦ ltb (elapsed_ms last instant) outbound_cooldown_ms
  | none ↦ false
]

-- The end that both kinds of typing-start share: the cooldown, and the note of a start that is sent.
unfoldable pub start_outbound :
    TypingHandler → Text → TypingIndicator → ℕ → TypingHandler × Option TypingIndicator
start_outbound h key indicator instant = if is_within_cooldown h key instant then (h, none) else (
  record h { last_outbound_start = Map.insert key instant h.last_outbound_start },
  some indicator,
)

unfoldable pub try_start_typing_direct :
    TypingHandler → Text → ℤ → ℕ → TypingHandler × Option TypingIndicator
try_start_typing_direct h did now instant =
    start_outbound h did (send_typing_direct h did true now) instant

unfoldable pub try_start_typing_group :
    TypingHandler → Text → ℤ → ℕ → TypingHandler × Option TypingIndicator
try_start_typing_group h id now instant = elim (Map.get (group_key id) h.compose_start) [
  | none ↦ (record h { compose_start = Map.insert (group_key id) instant h.compose_start }, none)
  | some start ↦
      if ltb (elapsed_ms start instant) compose_threshold_ms
      then (h, none)
      else start_outbound h (group_key id) (send_typing_group h id true now) instant
]

unfoldable pub clear_cooldown : TypingHandler → Text → TypingHandler
clear_cooldown h recipient = record h {
  last_outbound_start = Map.remove recipient h.last_outbound_start;
}

unfoldable pub clear_compose_start : TypingHandler → Text → TypingHandler
clear_compose_start h key = record h { compose_start = Map.remove key h.compose_start }

-- The conversation's users with what `retain` keeps; an empty entry is removed.
unfoldable pub shrink :
    (Text × ℤ → Bool) → Text → Map Text (List (Text × ℤ)) → Map Text (List (Text × ℤ))
shrink keep key states = elim (Map.get key states) [
  | none ↦ states
  | some users ↦
      if is_empty (retain keep users)
      then Map.remove key (Map.insert key (retain keep users) states)
      else Map.insert key (retain keep users) states
]

-- `now - timestamp < self.timeout_ms`.
unfoldable pub is_fresh : ℤ → ℤ → Text × ℤ → Bool
is_fresh timeout_ms now (did, timestamp) = ltb_ℤ (sub_i64 now timestamp) timeout_ms

unfoldable pub is_other : Text → Text × ℤ → Bool
is_other sender (did, timestamp) = not (did == sender)

unfoldable pub cleanup_expired : TypingHandler → Text → ℤ → TypingHandler
unfolding shrink
cleanup_expired h key now = record h {
  typing_states = shrink (is_fresh h.timeout_ms now) key h.typing_states;
}

-- `entry(key).or_default()`.
unfoldable pub users_of : Map Text (List (Text × ℤ)) → Text → List (Text × ℤ)
users_of states key = elim (Map.get key states) [ none ↦ [] | some users ↦ users ]

unfoldable pub key_of : Recipient → Text
unfolding group_key
key_of (recipient_did did) = did
key_of (group_id id) = group_key id

-- `receive_indicator` on the conversation's users, before the expired ones are cleaned up.
unfoldable pub note_sender :
    Text → TypingIndicator → Map Text (List (Text × ℤ)) → Map Text (List (Text × ℤ))
note_sender key i states =
    if i.is_typing
    then (Map.insert key
        (retain (is_other i.sender_did) (users_of states key) ++ (i.sender_did, i.timestamp) ∷ [])
        states)
    else shrink (is_other i.sender_did) key states

unfoldable pub receive_indicator : TypingHandler → TypingIndicator → ℤ → TypingHandler
receive_indicator h i now = elim i.recipient [
  | none ↦ h
  | some r ↦
      cleanup_expired (record h { typing_states = note_sender (key_of r) i h.typing_states })
        (key_of r) now
]

-- `get_typing_users_direct` and `get_typing_users_group`: who is typing under a key.
unfoldable pub get_typing_users : TypingHandler → Text → ℤ → TypingHandler × List Text
get_typing_users h key now =
    let h' = cleanup_expired h key now in (h', map (λ u. u.0) (users_of h'.typing_states key))

unfoldable pub get_typing_users_direct : TypingHandler → Text → ℤ → TypingHandler × List Text
unfolding get_typing_users
get_typing_users_direct h peer_did now = get_typing_users h peer_did now

unfoldable pub get_typing_users_group : TypingHandler → Text → ℤ → TypingHandler × List Text
unfolding get_typing_users group_key
get_typing_users_group h id now = get_typing_users h (group_key id) now

-- The loop of `cleanup_all_expired` over the keys that it has collected.
unfoldable pub cleanup_keys : TypingHandler → List Text → ℤ → TypingHandler
cleanup_keys h [] now = h
cleanup_keys h (key ∷ keys) now = cleanup_keys (cleanup_expired h key now) keys now

unfoldable pub cleanup_all_expired : TypingHandler → ℤ → TypingHandler
unfolding cleanup_keys
cleanup_all_expired h now = cleanup_keys h (map (λ e. e.0) h.typing_states) now
