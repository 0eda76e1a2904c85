-- ===== src/Media/Call/Tests.antt =====
-- The call manager on concrete calls, with a WebRTC stack whose connections are numbers and whose
-- connection 9 cannot be closed.
use variance.Prelude.{
  ℕ, Text, List, [], ◌∷◌, none, some, ◌≡◌, refl, ok, err, arith, eqb, if◌then◌else◌, list_beq,
  list_eq, nat_eq, ◌⊎◌, ◌+◌,
}
use variance.Prelude.Int.{pos}
use mathlib.Core.Option
use variance.Prelude.Map
use variance.Media.Proto.{CallType, CallStatus, ended}
use variance.Media.WebRtc.{WebRtc, PeerState}
use variance.Media.Errors.{webrtc_error}
use variance.Media.Call.{
  Call, CallManager, new_manager, create_call, accept_call, register_incoming_call, end_call,
  close_if_present, on_peer_connection_state_change,
}
use variance.Media.Call.Negotiation.{create_offer_for, handle_answer}
use variance.Media.Call.Steps.{
  Request, creates, registers, accepts, ends, offers, takes_answer, peer_changes, step, run,
}
use variance.Media.Call.WellFormed.{IsWellFormed, run-IsWellFormed, new_manager-IsWellFormed}
use variance.Media.Call.Lifecycle.{Advances, step-Advances}
use variance.Media.Call.Outcomes.{end_call_lem}

abbrev stack : WebRtc
stack = record {
  Connection = ℕ;
  Description = Text;
  sdp = λ d. d;
  new_peer_connection = λ servers. ok 1;
  create_data_channel = λ pc label. ok (pc + 1);
  create_offer = λ pc. ok (pc ∷ []);
  create_answer = λ pc. ok (pc ∷ []);
  offer = λ sdp. ok sdp;
  answer = λ sdp. ok sdp;
  set_local_description = λ pc d. ok pc;
  set_remote_description = λ pc d. ok pc;
  add_ice_candidate = λ pc candidate mid index. ok pc;
  close = λ pc. if eqb pc 9 then err [] else ok tt;
}

abbrev alice : Text
alice = 1 ∷ []

abbrev bob : Text
bob = 2 ∷ []

abbrev call_id : Text
call_id = 7 ∷ []

abbrev other_id : Text
other_id = 8 ∷ []

abbrev started : CallManager ℕ
started = new_manager alice []

abbrev held_call : Call ℕ
held_call = record {
  id = call_id;
  participants = alice ∷ bob ∷ [];
  call_type = CallType.audio;
  status = CallStatus.active;
  started_at = pos 10;
  ended_at = none;
  peer_connection = some 9;
}

-- One call whose connection cannot be closed.
abbrev stuck : CallManager ℕ
stuck = record { local_did = alice; calls = (call_id, held_call) ∷ []; ice_servers = [] }

abbrev requests : List Request
requests =
    creates call_id bob CallType.audio (pos 10)
    ∷ registers call_id bob CallType.video (pos 11)
    ∷ offers call_id
    ∷ takes_answer call_id (3 ∷ [])
    ∷ accepts call_id
    ∷ peer_changes call_id PeerState.connected (pos 12)
    ∷ ends call_id (pos 13)
    ∷ []

runs_out : (run stack started requests).calls ≡ []
unfolding run new_manager create_call register_incoming_call accept_call end_call Map.insert Map.get
    Map.remove Map.contains_key on_peer_connection_state_change list_beq handle_answer
    create_offer_for
runs_out = refl

offer_holds :
    Option.map
      (λ (c : Call ℕ). c.peer_connection)
      (Map.get call_id
        (run stack started
          (creates call_id bob CallType.audio (pos 10) ∷ offers call_id ∷ [])).calls)
    ≡ some (some 2)
unfolding run new_manager create_call Map.insert Map.get list_beq create_offer_for
offer_holds = refl

run-IsWellFormed_example : IsWellFormed (run stack started requests)
run-IsWellFormed_example =
    run-IsWellFormed stack started requests (new_manager-IsWellFormed alice [])

step-Advances_example :
    Advances
      (Map.get call_id stuck.calls)
      (Map.get call_id (step stack stuck (ends call_id (pos 13))).calls)
step-Advances_example = step-Advances stack stuck (ends call_id (pos 13)) call_id refl tt

end_call_lem_example :
    (((close_if_present stack.close (some 9) ≡ ok tt)
        × ((end_call stack.close stuck call_id (pos 13)).1
            ≡ ok (record held_call {
              status = ended;
              ended_at = some (pos 13);
              peer_connection = none;
            }))
        × (Map.get call_id (end_call stack.close stuck call_id (pos 13)).0.calls ≡ none))
      ⊎ ((e : Text) × (close_if_present stack.close (some 9) ≡ err e)
          × ((end_call stack.close stuck call_id (pos 13)).1
              ≡ err (webrtc_error "Failed to close peer connection: " e))
          × (Map.get call_id (end_call stack.close stuck call_id (pos 13)).0.calls
              ≡ some (record held_call { status = ended; ended_at = some (pos 13) }))))
    × (Map.get other_id (end_call stack.close stuck call_id (pos 13)).0.calls
        ≡ Map.get other_id stuck.calls)
unfolding Map.get list_beq
end_call_lem_example =
    end_call_lem stack.close stuck call_id other_id (pos 13) held_call refl (ground arith)
