-- ===== src/Media/Call/WellFormed.antt =====
-- What holds of every call in the map, whatever requests came.
use variance.Prelude.{
  Text, List, [], ◌∷◌, none, ◌≡◌, ◌≢◌, ◌⊎◌, inl, false, ◌∙◌, arith, list_eq, nat_eq,
}
use variance.Prelude.Map
use variance.Media.Proto.{is_over}
use variance.Media.WebRtc.{WebRtc}
use variance.Media.Call.{Call, CallManager, new_manager, put, drop_call}
use variance.Media.Call.Steps.{Request, step, run}
use variance.Media.Call.Effect.{
  Progress, stays, connects, answers, finishes, revives, IsPair, Effect, idle, files, changes,
  leaves, step-Effect,
}

module _ {P : Type 0} where
  abbrev pub IsStamped : Call P → Type 0
  IsStamped c = (is_over c.status ≡ false) ⊎ (c.ended_at ≢ none)

  -- A call is filed under its id, is between the local user and one other, and has an end time once
  -- it is over.
  pub record IsFiled (local_did : Text) (call_id : Text) (c : Call P) : Type 0 where
    pub key : c.id ≡ call_id
    pub pair : IsPair local_did c
    pub stamped : IsStamped c

  abbrev pub IsWellFormed : CallManager P → Type 0
  IsWellFormed m = Map.Entries (IsFiled m.local_did) m.calls

  Progress-IsStamped : (r : Request) (c d : Call P) → Progress r c d → IsStamped c → IsStamped d
  Progress-IsStamped r c d (stays s t) h = ground arith
  Progress-IsStamped r c d (connects s t) h = ground arith
  Progress-IsStamped r c d (answers s t) h = ground arith
  Progress-IsStamped r c d (finishes now s t) h = ground arith
  Progress-IsStamped r c d (revives s t) h = ground arith

  -- The manager after a call has been put in, while the local DID stays.
  put-IsWellFormed :
      (m : CallManager P) (id : Text) (c : Call P)
      → IsFiled m.local_did id c
      → IsWellFormed m
      → IsWellFormed (put m id c)
  unfolding put
  put-IsWellFormed m id c new v = Map.insert-Entries (IsFiled m.local_did) id c m.calls new v

  drop_call-IsWellFormed :
      (m : CallManager P) (id : Text) (d : Call P)
      → IsWellFormed m
      → IsWellFormed (drop_call (put m id d) id)
  unfolding put drop_call
  drop_call-IsWellFormed m id d v j c h =
      v j c (
        ground
          (arith, Map.get-remove id j (Map.insert id d m.calls), Map.get-insert id j d m.calls))

  changed-IsFiled :
      (did id : Text) (r : Request) (c d : Call P)
      → IsFiled did id c
      → d.id ≡ c.id
      → d.participants ≡ c.participants
      → Progress r c d
      → IsFiled did id d
  changed-IsFiled did id r c d v e f p = record {
    key = e ∙ v.key;
    pair = rw f v.pair;
    stamped = Progress-IsStamped r c d p v.stamped;
  }

  Effect-IsWellFormed :
      (m : CallManager P) (r : Request) (n : CallManager P)
      → Effect m r n
      → IsWellFormed m
      → IsWellFormed n
  Effect-IsWellFormed m r n (idle e) v = rw e v
  Effect-IsWellFormed m r n (files id c _ key pair s e) v =
      rw e (put-IsWellFormed m id c (record { key = key; pair = pair; stamped = inl (rw s) }) v)
  Effect-IsWellFormed m r n (changes id c d found key parts p e) v =
      rw e (put-IsWellFormed m id d (changed-IsFiled _ id r c d (v id c found) key parts p) v)
  Effect-IsWellFormed m r n (leaves id c d found e) v = rw e (drop_call-IsWellFormed m id d v)

module _ (w : WebRtc) where
  open w use {Connection}

  -- Whatever requests and connection events reach a well-formed manager, every call that it then
  -- holds is filed under its own id, has the local user and one other as its participants, and has
  -- an end time if it is ended or failed.
  pub run-IsWellFormed :
      (m : CallManager Connection) (rs : List Request) → IsWellFormed m → IsWellFormed (run w m rs)
  unfolding run
  run-IsWellFormed m [] v = v
  run-IsWellFormed m (r ∷ rs) v =
      run-IsWellFormed (step w m r) rs (Effect-IsWellFormed m r _ (step-Effect w m r) v)

pub new_manager-IsWellFormed :
    {P : Type 0} (did : Text) (ice : List Text) → IsWellFormed {P = P} (new_manager did ice)
unfolding new_manager Map.get
new_manager-IsWellFormed did ice k c h = absurd (ground arith)
