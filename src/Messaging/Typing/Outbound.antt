-- ===== src/Messaging/Typing/Outbound.antt =====
-- How often typing-starts go out.
use variance.Prelude.{
  ◌↔◌, ℕ, ◌≤◌, ◌<◌, ◌≡◌, Text, List, [], ◌∷◌, Option, none, some, true, false, arith, All,
  list_beq_iff, list_eq, nat_eq,
}
use variance.Prelude.Int.{ℤ}
use variance.Prelude.Map
use variance.Messaging.Typing.{
  TypingHandler, TypingIndicator, outbound_cooldown_ms, compose_threshold_ms, group_key, elapsed_ms,
  is_within_cooldown, start_outbound, try_start_typing_direct, try_start_typing_group,
  send_typing_group,
}

-- The last start under a key was at an instant.
abbrev pub Started : TypingHandler → Text → ℕ → Type 0
Started h key last = Map.get key h.last_outbound_start ≡ some last

start_outbound-Started :
    (h : TypingHandler) (key other : Text) (i : TypingIndicator) (last instant : ℕ)
    → Started h key last
    → elapsed_ms last instant < outbound_cooldown_ms
    → Started (start_outbound h other i instant).0 key last
unfolding start_outbound is_within_cooldown
start_outbound-Started h key other i last instant started soon =
    ground (arith, list_beq_iff other key, Map.get-insert other key instant h.last_outbound_start)

-- A start that goes out is noted under its key.
start_outbound-notes :
    (h : TypingHandler) (key : Text) (i j : TypingIndicator) (instant : ℕ)
    → (start_outbound h key i instant).1 ≡ some j
    → Started (start_outbound h key i instant).0 key instant
unfolding start_outbound
start_outbound-notes h key i j instant sent =
    ground (arith, Map.get-insert_self key instant h.last_outbound_start)

start_outbound-refuses :
    (h : TypingHandler) (key : Text) (i : TypingIndicator) (last instant : ℕ)
    → Started h key last
    → elapsed_ms last instant < outbound_cooldown_ms
    → (start_outbound h key i instant).1 ≡ none
unfolding start_outbound is_within_cooldown
start_outbound-refuses h key i last instant started soon = ground arith

-- A keystroke in a conversation with a user or in a group.
pub data Try : Type 0 where
  direct : Text → ℤ → ℕ → Try
  group : Text → ℤ → ℕ → Try

unfoldable pub attempt : TypingHandler → Try → TypingHandler × Option TypingIndicator
attempt h (direct did now instant) = try_start_typing_direct h did now instant
attempt h (group id now instant) = try_start_typing_group h id now instant

unfoldable pub instant_of : Try → ℕ
instant_of (direct did now instant) = instant
instant_of (group id now instant) = instant

unfoldable pub outbound_key : Try → Text
outbound_key (direct did now instant) = did
outbound_key (group id now instant) = group_key id

-- A number of keystrokes.
unfoldable pub run_tries : TypingHandler → List Try → TypingHandler
run_tries h [] = h
run_tries h (t ∷ ts) = run_tries (attempt h t).0 ts

attempt-Started :
    (h : TypingHandler) (key : Text) (t : Try) (last : ℕ)
    → Started h key last
    → elapsed_ms last (instant_of t) < outbound_cooldown_ms
    → Started (attempt h t).0 key last
unfolding attempt try_start_typing_direct try_start_typing_group instant_of
attempt-Started h key (direct did now instant) last started soon =
    start_outbound-Started h key did _ last instant started soon
attempt-Started h key (group id now instant) last started soon = ground (
  arith,
  start_outbound-Started h key (group_key id) (send_typing_group h id true now) last instant,
)

attempt-notes :
    (h : TypingHandler) (t : Try) (i : TypingIndicator)
    → (attempt h t).1 ≡ some i
    → Started (attempt h t).0 (outbound_key t) (instant_of t)
unfolding attempt try_start_typing_direct try_start_typing_group instant_of outbound_key
attempt-notes h (direct did now instant) i sent = start_outbound-notes h did _ i instant sent
attempt-notes h (group id now instant) i sent =
    ground
      (arith, start_outbound-notes h (group_key id) (send_typing_group h id true now) i instant)

attempt-refuses :
    (h : TypingHandler) (t : Try) (last : ℕ)
    → Started h (outbound_key t) last
    → elapsed_ms last (instant_of t) < outbound_cooldown_ms
    → (attempt h t).1 ≡ none
unfolding attempt try_start_typing_direct try_start_typing_group instant_of outbound_key
attempt-refuses h (direct did now instant) last started soon =
    start_outbound-refuses h did _ last instant started soon
attempt-refuses h (group id now instant) last started soon =
    ground (
      arith,
      start_outbound-refuses h (group_key id) (send_typing_group h id true now) last instant,
    )

run_tries-Started :
    (h : TypingHandler) (key : Text) (ts : List Try) (last : ℕ)
    → Started h key last
    → All (λ t. elapsed_ms last (instant_of t) < outbound_cooldown_ms) ts
    → Started (run_tries h ts) key last
unfolding run_tries
run_tries-Started h key [] last started soon = started
run_tries-Started h key (t ∷ ts) last started soon =
    run_tries-Started (attempt h t).0 key ts last (attempt-Started h key t last started soon.0)
      soon.1

-- Once a typing-start has been sent, no further one is sent under its key as long as the cooldown
-- of two seconds has not passed, whatever other keystrokes come between.
pub run_tries-cooldown :
    (h : TypingHandler) (sent : Try) (i : TypingIndicator) (ts : List Try) (t : Try)
    → (attempt h sent).1 ≡ some i
    → All (λ u. elapsed_ms (instant_of sent) (instant_of u) < outbound_cooldown_ms) ts
    → elapsed_ms (instant_of sent) (instant_of t) < outbound_cooldown_ms
    → outbound_key t ≡ outbound_key sent
    → (attempt (run_tries (attempt h sent).0 ts) t).1 ≡ none
run_tries-cooldown h sent i ts t e between soon same =
    attempt-refuses (run_tries (attempt h sent).0 ts) t (instant_of sent)
      (rw same (
        run_tries-Started (attempt h sent).0 (outbound_key sent) ts (instant_of sent)
          (attempt-notes h sent i e) between))
      soon

-- A group hears of typing exactly when the composition began at least 300 ms ago and no start went
-- to the group in the last two seconds; the first keystroke begins the composition.
pub try_start_typing_group_lem :
    (h : TypingHandler) (id : Text) (now : ℤ) (instant : ℕ)
    → (((try_start_typing_group h id now instant).1 ≡ some (send_typing_group h id true now)) ↔ (
        (start : ℕ) × (Map.get (group_key id) h.compose_start ≡ some start)
        × (compose_threshold_ms ≤ elapsed_ms start instant)
        × (is_within_cooldown h (group_key id) instant ≡ false)))
      × (Map.get (group_key id) h.compose_start ≡ none
          → Map.get (group_key id) (try_start_typing_group h id now instant).0.compose_start
            ≡ some instant)
unfolding try_start_typing_group start_outbound
try_start_typing_group_lem h id now instant =
    ground (arith, Map.get-insert_self (group_key id) instant h.compose_start)
