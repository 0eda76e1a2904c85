-- ===== src/Messaging/Storage/Sample.antt =====
-- Codecs for the tests, of the messages.
pub mod Base
use variance.Messaging.Storage.Sample.Base.{
  Coder, and_then, number, both, as_type, numbers, int, opt, codec_of,
}
use variance.Prelude.{
  ℕ, zero, suc, ◌+◌, ◌≡◌, refl, ap, Text, List, [], ◌∷◌, ◌++◌, Option, none, some, Result, ok, err,
  length,
}
use variance.Prelude.Int.{ℤ, pos, negsuc}
use variance.Messaging.Proto.{
  DirectMessage, GroupMessage, EnvelopeMessage, direct, group, OfflineMessageEnvelope,
}
use variance.Messaging.Receipts.{ReadReceipt}
use variance.Messaging.Storage.Sled.{Codec}

abbrev DirectFields : Type 0
DirectFields =
    Text × (Text × (Text × (List ℕ × (ℕ × (List ℕ × (ℤ × (ℤ × (Option Text × Option (List ℕ)))))))))

abbrev to_direct : DirectFields → DirectMessage
to_direct (a, (b, (c, (d, (e, (f, (g, (h, (i, j))))))))) = record {
  id = a;
  sender_did = b;
  recipient_did = c;
  ciphertext = d;
  olm_message_type = e;
  signature = f;
  timestamp = g;
  message_type = h;
  reply_to = i;
  sender_identity_key = j;
}

abbrev from_direct : DirectMessage → DirectFields
from_direct m = (
  m.id,
  (
    m.sender_did,
    (
      m.recipient_did,
      (
        m.ciphertext,
        (
          m.olm_message_type,
          (m.signature, (m.timestamp, (m.message_type, (m.reply_to, m.sender_identity_key)))),
        ),
      ),
    ),
  ),
)

abbrev direct_coder : Coder DirectMessage
direct_coder =
    as_type to_direct from_direct (λ m. refl)
      (both numbers (
        both numbers (
          both numbers (
            both numbers (
              both number
                (both numbers (both int (both int (both (opt numbers) (opt numbers))))))))))

abbrev GroupFields : Type 0
GroupFields = Text × (Text × (Text × (ℤ × (ℤ × (Option Text × List ℕ)))))

abbrev to_group : GroupFields → GroupMessage
to_group (a, (b, (c, (d, (e, (f, g)))))) = record {
  id = a;
  sender_did = b;
  group_id = c;
  timestamp = d;
  message_type = e;
  reply_to = f;
  mls_ciphertext = g;
}

abbrev from_group : GroupMessage → GroupFields
from_group m = (
  m.id,
  (m.sender_did, (m.group_id, (m.timestamp, (m.message_type, (m.reply_to, m.mls_ciphertext))))),
)

abbrev group_coder : Coder GroupMessage
group_coder =
    as_type to_group from_group (λ m. refl)
      (both numbers
        (both numbers (both numbers (both int (both int (both (opt numbers) numbers))))))

abbrev write_envelope : EnvelopeMessage → Text → Text
write_envelope (direct m) r = 0 ∷ direct_coder.write m r
write_envelope (group m) r = 1 ∷ group_coder.write m r

abbrev read_envelope : Text → Option (EnvelopeMessage × Text)
read_envelope [] = none
read_envelope (zero ∷ r) = and_then (direct_coder.read r) (λ m r. some (direct m, r))
read_envelope (suc k ∷ r) = and_then (group_coder.read r) (λ m r. some (group m, r))

pub read_envelope-write_envelope :
    (m : EnvelopeMessage) (r : Text) → read_envelope (write_envelope m r) ≡ some (m, r)
read_envelope-write_envelope (direct m) r = rw (direct_coder.read_write m r) refl
read_envelope-write_envelope (group m) r = rw (group_coder.read_write m r) refl

abbrev envelope_coder : Coder EnvelopeMessage
envelope_coder = record {
  write = write_envelope;
  read = read_envelope;
  read_write = read_envelope-write_envelope;
}

abbrev OfflineFields : Type 0
OfflineFields = List ℕ × (Option EnvelopeMessage × (ℤ × ℤ))

abbrev to_offline : OfflineFields → OfflineMessageEnvelope
to_offline (a, (b, (c, d))) = record {
  mailbox_token = a;
  message = b;
  stored_at = c;
  expires_at = d;
}

abbrev from_offline : OfflineMessageEnvelope → OfflineFields
from_offline e = (e.mailbox_token, (e.message, (e.stored_at, e.expires_at)))

abbrev offline_coder : Coder OfflineMessageEnvelope
offline_coder =
    as_type to_offline from_offline (λ m. refl)
      (both numbers (both (opt envelope_coder) (both int int)))

abbrev pub sample_codec : Codec OfflineMessageEnvelope
sample_codec = codec_of offline_coder

abbrev pub sample_direct : Codec DirectMessage
sample_direct = codec_of direct_coder

abbrev pub sample_group : Codec GroupMessage
sample_group = codec_of group_coder

abbrev ReceiptFields : Type 0
ReceiptFields = Text × (Text × (ℤ × (ℤ × List ℕ)))

abbrev to_receipt : ReceiptFields → ReadReceipt
to_receipt (a, (b, (c, (d, e)))) = record {
  message_id = a;
  reader_did = b;
  status = c;
  timestamp = d;
  signature = e;
}

abbrev from_receipt : ReadReceipt → ReceiptFields
from_receipt r = (r.message_id, (r.reader_did, (r.status, (r.timestamp, r.signature))))

abbrev pub sample_receipt : Codec ReadReceipt
sample_receipt = codec_of (
    as_type to_receipt from_receipt (λ r. refl)
      (both numbers (both numbers (both int (both int numbers)))))

-- In place of hexadecimal digits, digits and letters of another base without a colon.
abbrev pub sample_hex : Text → Text
sample_hex [] = []
sample_hex (c ∷ cs) = (c + 59) ∷ sample_hex cs
