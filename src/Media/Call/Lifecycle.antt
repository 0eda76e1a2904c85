-- ===== src/Media/Call/Lifecycle.antt =====
-- The order of a call's states, and what an operation on one call leaves alone.
use variance.Prelude.{
  ℕ, ◌≤◌, Text, Option, none, some, ◌≡◌, inl, inr, true, false, refl, Bool-cases, ◌==◌, eq→≡, arith,
  list_eq, nat_eq,
}
use variance.Prelude.Map
use variance.Prelude.Map.{Map}
use variance.Media.Proto.{CallStatus, is_over}
use variance.Media.WebRtc.{WebRtc}
use variance.Media.Call.{Call, CallManager, put, drop_call}
use variance.Media.Call.Steps.{Request, step}
use variance.Media.Call.Effect.{
  Progress, stays, connects, answers, finishes, revives, Effect, idle, files, changes, leaves,
  step-Effect, is_peer_event, IsFresh,
}

-- How far a call has come; a call that has left the map has come furthest.
abbrev stage : CallStatus → ℕ
stage CallStatus.unspecified = 0
stage CallStatus.ringing = 1
stage CallStatus.connecting = 2
stage CallStatus.active = 3
stage CallStatus.ended = 4
stage CallStatus.failed = 4

-- From one state of an entry to the next: it stays out, it appears as a ringing call, it is taken
-- out, or it comes no less far than before.
abbrev pub Advances : {P : Type 0} → Option (Call P) → Option (Call P) → Type 0
Advances none none = Unit {0}
Advances none (some d) = d.status ≡ CallStatus.ringing
Advances (some c) none = Unit {0}
Advances (some c) (some d) = (stage c.status ≤ stage d.status) × (d.id ≡ c.id)

module _ {P : Type 0} where
  Progress-stage :
      (r : Request) (c d : Call P)
      → Progress r c d
      → is_peer_event r ≡ false
      → stage c.status ≤ stage d.status
  Progress-stage r c d (stays s t) h = rw s (omega arith)
  Progress-stage r c d (connects s t) h = rw (s, t) (omega arith)
  Progress-stage r c d (answers s t) h = rw (s, t) (omega arith)
  Progress-stage r c d (finishes now s t) h = last c.status d.status s
    where
      last : (a b : CallStatus) → is_over b ≡ true → stage a ≤ stage b
      last a b o = ground arith
  Progress-stage r c d (revives s t) h = cc

  Advances-refl : (o : Option (Call P)) → Advances o o
  Advances-refl none = tt
  Advances-refl (some c) = (omega arith, refl)

  Advances-none : (o : Option (Call P)) → Advances o none
  Advances-none none = tt
  Advances-none (some c) = tt

  -- One entry is written, and the others are what they were.
  insert-Advances :
      (id j : Text) (d : Call P) (calls : Map Text (Call P))
      → Advances (Map.get id calls) (some d)
      → Advances (Map.get j calls) (Map.get j (Map.insert id d calls))
  insert-Advances id j d calls h = elim (Bool-cases (id == j)) [
    | inl same ↦ rw (Map.get-insert id j d calls, same, ← eq→≡ id j same) h
    | inr other ↦ rw (Map.get-insert id j d calls, other) (Advances-refl (Map.get j calls))
  ]

  remove-Advances :
      (id j : Text) (d : Call P) (calls : Map Text (Call P))
      → Advances (Map.get j calls) (Map.get j (Map.remove id (Map.insert id d calls)))
  remove-Advances id j d calls = elim (Bool-cases (id == j)) [
    | inl same ↦
        rw (Map.get-remove id j (Map.insert id d calls), same) (Advances-none (Map.get j calls))
    | inr other ↦
        rw (Map.get-remove id j (Map.insert id d calls), other, Map.get-insert id j d calls, other)
          (Advances-refl (Map.get j calls))
  ]

  Effect-Advances :
      (m : CallManager P) (r : Request) (n : CallManager P) (j : Text)
      → Effect m r n
      → is_peer_event r ≡ false
      → IsFresh m r
      → Advances (Map.get j m.calls) (Map.get j n.calls)
  unfolding put drop_call
  Effect-Advances m r n j (idle e) h f = rw e (Advances-refl (Map.get j m.calls))
  Effect-Advances m r n j (files id c absent key pair s e) h f =
      rw e (insert-Advances id j c m.calls (rw (absent f) s))
  Effect-Advances m r n j (changes id c d found key parts p e) h f =
      rw e (insert-Advances id j d m.calls (rw found (Progress-stage r c d p h, key)))
  Effect-Advances m r n j (leaves id c d found e) h f = rw e (remove-Advances id j d m.calls)

module _ (w : WebRtc) where
  open w use {Connection}

  -- No request of the program takes a call back: where it does not come from the peer connection,
  -- and a created call has an id that is not in use, each entry of the map stays out, appears as
  -- ringing, is taken out, or keeps its id and comes no less far in the order ringing, connecting,
  -- active, over.
  pub step-Advances :
      (m : CallManager Connection) (r : Request) (j : Text)
      → is_peer_event r ≡ false
      → IsFresh m r
      → Advances (Map.get j m.calls) (Map.get j (step w m r).calls)
  step-Advances m r j h f = Effect-Advances m r (step w m r) j (step-Effect w m r) h f
