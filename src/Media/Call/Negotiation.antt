-- ===== src/Media/Call/Negotiation.antt =====
-- crates/variance-media/src/call.rs: offers, answers and ICE candidates. The holder of a call's
-- connection is taken from the map first; in one task it is still the entry's when it is written.
use variance.Prelude.{
  ℕ, Text, Option, none, some, Result, ok, err, ◌>>=◌, map_err, ok_or, codes, list_eq, nat_eq,
}
use variance.Prelude.Map
use variance.Media.WebRtc.{WebRtc}
use variance.Media.Errors.{Error, call_not_found, invalid_state, webrtc_error}
use variance.Media.Call.{Call, CallManager, put}

module _ (w : WebRtc) where
  open w use {
    Connection, Description, sdp, new_peer_connection, create_data_channel, create_offer,
    create_answer, offer, answer, set_local_description, set_remote_description, add_ice_candidate,
  }

  -- `*pc_holder.lock().await = Some(..)`.
  unfoldable pub hold :
      CallManager Connection → Text → Call Connection → Connection → CallManager Connection
  unfolding put
  hold m call_id c pc = put m call_id (record c { peer_connection = some pc })

  -- `create_peer_connection`, without the handlers that it installs.
  unfoldable pub create_peer_connection : CallManager Connection → Result Error Connection
  create_peer_connection m =
      map_err (webrtc_error "Failed to create peer connection: ")
        (new_peer_connection m.ice_servers)

  unfoldable pub negotiate_offer : CallManager Connection → Result Error (Connection × Text)
  unfolding create_peer_connection
  negotiate_offer m = do
    pc ← create_peer_connection m
    pc₁ ←
        map_err (webrtc_error "Failed to create data channel: ")
          (create_data_channel pc (codes "variance"))
    o ← map_err (webrtc_error "Failed to create offer: ") (create_offer pc₁)
    pc₂ ← map_err (webrtc_error "Failed to set local description: ") (set_local_description pc₁ o)
    ok (pc₂, sdp o)

  unfoldable pub negotiate_answer : CallManager Connection → Text → Result Error (Connection × Text)
  unfolding create_peer_connection
  negotiate_answer m offer_sdp = do
    pc ← create_peer_connection m
    o ← map_err (webrtc_error "Invalid SDP offer: ") (offer offer_sdp)
    pc₁ ← map_err (webrtc_error "Failed to set remote description: ") (set_remote_description pc o)
    a ← map_err (webrtc_error "Failed to create answer: ") (create_answer pc₁)
    pc₂ ← map_err (webrtc_error "Failed to set local description: ") (set_local_description pc₁ a)
    ok (pc₂, sdp a)

  -- What the four operations below do with the outcome of their negotiation.
  unfoldable pub settle :
      {A : Type 0}
      → CallManager Connection
      → Text
      → Call Connection
      → Result Error (Connection × A)
      → CallManager Connection × Result Error A
  unfolding hold
  settle m call_id c (ok (pc, a)) = (hold m call_id c pc, ok a)
  settle m call_id c (err e) = (m, err e)

  unfoldable pub create_offer_for :
      CallManager Connection → Text → CallManager Connection × Result Error Text
  unfolding settle negotiate_offer
  create_offer_for m call_id = elim (Map.get call_id m.calls) [
    | none ↦ (m, err (call_not_found call_id))
    | some c ↦ settle m call_id c (negotiate_offer m)
  ]

  unfoldable pub handle_offer :
      CallManager Connection → Text → Text → CallManager Connection × Result Error Text
  unfolding settle negotiate_answer
  handle_offer m call_id offer_sdp = elim (Map.get call_id m.calls) [
    | none ↦ (m, err (call_not_found call_id))
    | some c ↦ settle m call_id c (negotiate_answer m offer_sdp)
  ]

  -- `pc_guard.as_ref().ok_or_else(..)`.
  unfoldable pub held : Call Connection → Result Error Connection
  held c = ok_or c.peer_connection (invalid_state (codes "No peer connection found for call"))

  unfoldable pub accept_answer : Call Connection → Text → Result Error (Connection × Unit {0})
  unfolding held
  accept_answer c answer_sdp = do
    pc ← held c
    a ← map_err (webrtc_error "Invalid SDP answer: ") (answer answer_sdp)
    pc' ← map_err (webrtc_error "Failed to set remote description: ") (set_remote_description pc a)
    ok (pc', tt)

  unfoldable pub handle_answer :
      CallManager Connection → Text → Text → CallManager Connection × Result Error (Unit {0})
  unfolding settle accept_answer
  handle_answer m call_id answer_sdp = elim (Map.get call_id m.calls) [
    | none ↦ (m, err (call_not_found call_id))
    | some c ↦ settle m call_id c (accept_answer c answer_sdp)
  ]

  unfoldable pub add_candidate :
      Call Connection → Text → Option Text → Option ℕ → Result Error (Connection × Unit {0})
  unfolding held
  add_candidate c candidate sdp_mid sdp_mline_index = do
    pc ← held c
    pc' ←
        map_err (webrtc_error "Failed to add ICE candidate: ")
          (add_ice_candidate pc candidate sdp_mid sdp_mline_index)
    ok (pc', tt)

  unfoldable pub handle_ice_candidate :
      CallManager Connection
      → Text
      → Text
      → Option Text
      → Option ℕ
      → CallManager Connection × Result Error (Unit {0})
  unfolding settle add_candidate
  handle_ice_candidate m call_id candidate sdp_mid sdp_mline_index =
      elim (Map.get call_id m.calls) [
        | none ↦ (m, err (call_not_found call_id))
        | some c ↦ settle m call_id c (add_candidate c candidate sdp_mid sdp_mline_index)
      ]
