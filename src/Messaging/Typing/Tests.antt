-- ===== src/Messaging/Typing/Tests.antt =====
-- A user who types to another and in a group, and sees two others type.
use variance.Prelude.{
  ◌≡◌, refl, arith, Text, [], ◌∷◌, none, some, true, codes, list_beq, list_eq, nat_eq, contains,
}
use variance.Prelude.Int.{pos, sub_i64, wrap_i64}
use variance.Prelude.Map
use variance.Messaging.Typing.{
  TypingHandler, TypingIndicator, group_id, new_handler, with_timeout, elapsed_ms,
  try_start_typing_direct, try_start_typing_group, send_typing_direct, start_outbound,
  is_within_cooldown, group_key, key_of, receive_indicator, get_typing_users, users_of, is_fresh,
  is_other, note_sender, shrink, cleanup_expired,
}
use variance.Messaging.Typing.Outbound.{
  Try, Try.direct, Try.group, attempt, run_tries, outbound_key, instant_of, run_tries-cooldown,
}
use variance.Messaging.Typing.Inbound.{receive-get_typing_users}

abbrev me : TypingHandler
me = new_handler (codes "me")

abbrev bob : Text
bob = codes "bob"

abbrev first : Try
first = direct bob (pos 7) 1000000

-- A second after the first start, with a keystroke in a group in between.
run_tries-cooldown_example :
    (attempt
      (run_tries (attempt me first).0 (group (codes "g") (pos 8) 500000000 ∷ []))
      (direct bob (pos 9) 1001000000)).1
    ≡ none
unfolding attempt try_start_typing_direct start_outbound is_within_cooldown new_handler with_timeout
    Map.get send_typing_direct instant_of elapsed_ms outbound_key
run_tries-cooldown_example =
    run_tries-cooldown me first (send_typing_direct me bob true (pos 7))
      (group (codes "g") (pos 8) 500000000 ∷ []) (direct bob (pos 9) 1001000000) refl
      (omega arith, tt) (omega arith) refl

abbrev composing : TypingHandler
composing = (try_start_typing_group me (codes "g") (pos 1) 0).0

abbrev typing : TypingIndicator
typing = record {
  sender_did = bob;
  recipient = some (group_id (codes "g"));
  is_typing = true;
  timestamp = pos 1000;
}

abbrev seen : TypingHandler
seen = receive_indicator me typing (pos 1001)

receive-get_typing_users_example :
    contains bob (get_typing_users seen (codes "group:g") (pos 5999)).1 ≡ true
unfolding group_key key_of new_handler with_timeout is_fresh sub_i64 wrap_i64
receive-get_typing_users_example =
    receive-get_typing_users me typing (group_id (codes "g")) (pos 1001) (pos 5999) refl

-- An entry whose sender wrote a time far ahead does not expire.
ahead_of_time_lasts :
    contains bob
      (get_typing_users
        (receive_indicator me (record typing { timestamp = pos 9999999 }) (pos 1001))
        (codes "group:g")
        (pos 999999)).1
    ≡ true
unfolding receive_indicator note_sender shrink cleanup_expired get_typing_users group_key key_of
    users_of list_beq new_handler with_timeout Map.get Map.insert is_fresh is_other sub_i64 wrap_i64
    contains
ahead_of_time_lasts = refl
