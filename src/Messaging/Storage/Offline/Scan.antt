-- ===== src/Messaging/Storage/Offline/Scan.antt =====
-- What the loop over a mailbox finds.
use variance.Prelude.{
  ℕ, zero, suc, ◌+◌, ◌≡◌, refl, ap, sym, ◌∙◌, Text, List, [], ◌∷◌, ◌++◌, Option, none, some, Bool,
  true, false, not, Result, ok, map, retain, take, length, leb, arith, Bool-cases, inl, inr,
  length-append, All, contains, list_eq, nat_eq,
}
use mathlib.Core.List.{append_assoc, append-nil}
use variance.Prelude.Int.{ℤ, pos, leb_ℤ}
use variance.Messaging.Proto.{OfflineMessageEnvelope, EnvelopeMessage}
use variance.Messaging.Storage.Sled.{Sled, Codec}
use variance.Messaging.Storage.Keys.{message_key}
use variance.Messaging.Storage.Keys.Parse.{
  IsTimestamp, rsplit_colon-message_key, parse_i64-timestamp_020,
}
use variance.Messaging.Storage.Offline.{is_newer, before_id, fetch_loop, id_of, timestamp_of}

-- The time of a key under a mailbox decides.
pub is_newer-message_key :
    (prefix : Text) (t : ℤ) (id : Text) (since : Option ℤ)
    → IsTimestamp t
    → contains 58 id ≡ false
    → is_newer since (message_key prefix t id)
      ≡ elim since [ none ↦ true | some s ↦ not (leb_ℤ t s) ]
unfolding is_newer before_id
is_newer-message_key prefix t id none ht hid = refl
is_newer-message_key prefix t id (some s) ht hid =
    let (p, q) = rsplit_colon-message_key prefix t id ht hid in
    rw (p, is_newer, before_id, q, parse_i64-timestamp_020 t ht) refl

-- The time of an envelope's message.
unfoldable pub time_of : OfflineMessageEnvelope → ℤ
time_of e = elim e.message [ none ↦ pos 0 | some m ↦ timestamp_of m ]

-- A message of the mailbox is asked for.
unfoldable pub is_wanted : Option ℤ → OfflineMessageEnvelope → Bool
is_wanted none e = true
is_wanted (some since) e = not (leb_ℤ (time_of e) since)

-- An entry of the tree is an envelope under the key that it is stored with.
abbrev pub IsStored : Text → Text × OfflineMessageEnvelope → Type 0
IsStored prefix (key, e) =
    (m : EnvelopeMessage) × (e.message ≡ some m)
    × (key ≡ message_key prefix (timestamp_of m) (id_of m))
    × IsTimestamp (timestamp_of m)
    × (contains 58 (id_of m) ≡ false)

is_newer-is_wanted :
    (prefix key : Text) (e : OfflineMessageEnvelope) (since : Option ℤ)
    → IsStored prefix (key, e)
    → is_newer since key ≡ is_wanted since e
unfolding is_wanted time_of
is_newer-is_wanted prefix key e none (m, has, at, time, plain) =
    rw at (is_newer-message_key prefix (timestamp_of m) (id_of m) none time plain)
is_newer-is_wanted prefix key e (some since) (m, has, at, time, plain) =
    rw (at, has, time_of)
      (is_newer-message_key prefix (timestamp_of m) (id_of m) (some since) time plain)

abbrev pub entries_of :
    Codec OfflineMessageEnvelope
    → List (Text × OfflineMessageEnvelope)
    → List (Result Text (Text × Text))
entries_of codec es = map (λ e. ok (e.0, codec.encode e.1)) es

module _ (sled : Sled) (hex : Text → Text) (codec : Codec OfflineMessageEnvelope) where
  open codec use {decode_encode}

  pub fetch_loop_lem :
      (prefix : Text) (since : Option ℤ) (limit room : ℕ) (got : List OfflineMessageEnvelope)
      (es : List (Text × OfflineMessageEnvelope))
      → limit ≡ length got + suc room
      → All (IsStored prefix) es
      → fetch_loop sled hex codec since limit got (entries_of codec es)
        ≡ ok (got ++ take (suc room) (retain (is_wanted since) (map (λ e. e.1) es)))
  unfolding fetch_loop
  fetch_loop_lem prefix since limit room got [] l h = ap ok (sym (append-nil got))
  fetch_loop_lem prefix since limit zero got ((key, e) ∷ es) l h =
      elim (Bool-cases (is_wanted since e)) [
        | inl wanted ↦
            let newer : is_newer since key ≡ true =
              is_newer-is_wanted prefix key e since h.0 ∙ wanted in
            let full : leb limit (length (got ++ e ∷ [])) ≡ true =
              ground (arith, length-append got (e ∷ [])) in
            rw (newer, wanted, fetch_loop, decode_encode e, full) refl
        | inr unwanted ↦
            let older : is_newer since key ≡ false =
              is_newer-is_wanted prefix key e since h.0 ∙ unwanted in
            rw (older, unwanted, fetch_loop) (fetch_loop_lem prefix since limit zero got es l h.1)
      ]
  fetch_loop_lem prefix since limit (suc room) got ((key, e) ∷ es) l h =
      elim (Bool-cases (is_wanted since e)) [
        | inl wanted ↦
            let newer : is_newer since key ≡ true =
              is_newer-is_wanted prefix key e since h.0 ∙ wanted in
            let more : leb limit (length (got ++ e ∷ [])) ≡ false =
              ground (arith, length-append got (e ∷ [])) in
            rw (newer, wanted, fetch_loop, decode_encode e, more)
              (fetch_loop_lem prefix since limit room (got ++ e ∷ []) es
                  (omega (arith, length-append {0} got (e ∷ []))) h.1
                ∙ ap ok (append_assoc got (e ∷ []) _))
        | inr unwanted ↦
            let older : is_newer since key ≡ false =
              is_newer-is_wanted prefix key e since h.0 ∙ unwanted in
            rw (older, unwanted, fetch_loop)
              (fetch_loop_lem prefix since limit (suc room) got es l h.1)
      ]
