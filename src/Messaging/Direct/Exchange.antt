-- ===== src/Messaging/Direct/Exchange.antt =====
-- crates/variance-messaging/src/direct.rs: the messages that are sent and received, their signatures
-- and their contents.
use variance.Prelude.{
  ℕ, Text, List, [], ◌∷◌, ◌++◌, Option, none, some, not, Result, ok, err, codes, length, eqb,
  map_err, ◌==◌, list_eq, nat_eq, if◌then◌else◌,
}
use variance.Prelude.Int.{ℤ, pos, negsuc}
use variance.Prelude.Bytes.{i32_le_bytes, i64_le_bytes}
use variance.Prelude.Map
use variance.Messaging.Errors.{Error, crypto, double_ratchet, stale_one_time_key, invalid_signature}
use variance.Messaging.Proto.{
  DirectMessage, MessageContent, MessageType, message_type_i32, text, image, file, audio, video,
}
use variance.Messaging.Olm.{
  OlmMessage, pre_key, normal, SessionCreationError, missing_one_time_key, other_creation,
}
use variance.Messaging.Storage.Io.{◌>>=◌, ◌>>◌, return, fail, lift}
use variance.Messaging.Storage.Sled.{decode_value}
use variance.Messaging.Direct.{
  Platform, DirectMessageHandler, Handling, stored, logged, put_session, persist_plaintext,
  load_plaintext, persist_session,
}

abbrev pub olm_message_type_self : ℕ
olm_message_type_self = 999

unfoldable pub signable_bytes : DirectMessage → List ℕ
signable_bytes m =
    m.id
    ++ (m.sender_did
        ++ (m.recipient_did
            ++ (m.ciphertext ++ (i32_le_bytes m.olm_message_type ++ i64_le_bytes m.timestamp))))

-- The type of the first attachment.
unfoldable pub attached_type : ℤ → MessageType
attached_type (pos n) =
    if eqb n 1
    then image
    else (if eqb n 2 then file else (if eqb n 3 then audio else (if eqb n 4 then video else text)))
attached_type (negsuc n) = text

unfoldable pub infer_message_type : MessageContent → ℤ
unfolding attached_type
infer_message_type content = elim content.attachments [
  | [] ↦ message_type_i32 text
  | first ∷ others ↦ message_type_i32 (attached_type first.attachment_type)
]

-- The error of a session that cannot be made from a first message.
unfoldable pub creation_error : SessionCreationError → Error
creation_error (missing_one_time_key e) =
    stale_one_time_key (codes "Failed to create inbound Olm session: " ++ e)
creation_error (other_creation e) = crypto (codes "Failed to create inbound Olm session: " ++ e)

module _ (p : Platform) where
  open p.signer use {SigningKey, VerifyingKey}
  open p.olm use {Account, Session, PublicKey, PreKey, Normal, Entropy}

  -- What a message that is sent takes from its surroundings: a new ULID, the time, a nonce for its
  -- plaintext and what the session draws.
  pub record Fresh : Type 0 where
    pub id : Text
    pub now : ℤ
    pub nonce : List ℕ
    pub entropy : Entropy

  unfoldable pub sign_message : DirectMessage → DirectMessageHandler p → List ℕ
  unfolding signable_bytes
  sign_message m h = p.signer.sign h.signing_key (signable_bytes m)

  unfoldable pub verify_message_with_key : DirectMessage → VerifyingKey → Result Error (Unit {0})
  unfolding signable_bytes
  verify_message_with_key m key =
      if not (eqb (length m.signature) 64)
      then err (invalid_signature m.id)
      else (if p.signer.verify key (signable_bytes m) m.signature
          then ok tt
          else err (invalid_signature m.id))

  -- The message with its signature.
  unfoldable pub signed_message :
      Fresh
      → Text
      → MessageContent
      → ℕ × List ℕ
      → Option (List ℕ)
      → DirectMessageHandler p
      → DirectMessage
  unfolding sign_message infer_message_type
  signed_message fresh recipient_did content parts sender_identity_key h =
      let unsigned : DirectMessage = record {
        id = fresh.id;
        sender_did = h.local_did;
        recipient_did = recipient_did;
        ciphertext = parts.1;
        olm_message_type = parts.0;
        signature = [];
        timestamp = fresh.now;
        message_type = infer_message_type content;
        reply_to = content.reply_to;
        sender_identity_key = sender_identity_key;
      } in
      record unsigned { signature = sign_message unsigned h }

  -- The message and its plaintext are stored.
  unfoldable pub keep : List ℕ → DirectMessage → MessageContent → Handling p (Unit {0})
  keep nonce m content =
      stored p (p.storage.store_direct m) >> persist_plaintext p nonce m.id content

  unfoldable pub send_self_message : Fresh → MessageContent → Handling p DirectMessage
  unfolding signed_message keep
  send_self_message fresh content h =
      let m =
        signed_message fresh h.local_did content (olm_message_type_self, p.codec.encode content)
          none h in
      (keep fresh.nonce m content >> return m) h

  -- The identity key goes with a message from which the recipient makes a session.
  unfoldable pub attached_key : OlmMessage PreKey Normal → DirectMessageHandler p → Option (List ℕ)
  attached_key (pre_key m) h = some (p.olm.to_vec h.identity_key)
  attached_key (normal m) h = none

  unfoldable pub send_encrypted : Fresh → Text → MessageContent → Session → Handling p DirectMessage
  unfolding signed_message attached_key keep
  send_encrypted fresh recipient_did content session h =
      let (session', olm_message) = p.olm.encrypt session (p.codec.encode content) fresh.entropy in
      let h' = put_session p recipient_did session' h in
      let m =
        signed_message fresh recipient_did content (p.olm.to_parts olm_message)
          (attached_key olm_message h') h' in
      (keep fresh.nonce m content >> logged p (persist_session p recipient_did) >> return m) h'

  unfoldable pub send_message : Fresh → Text → MessageContent → Handling p DirectMessage
  unfolding send_self_message send_encrypted
  send_message fresh recipient_did content h =
      if recipient_did == h.local_did
      then send_self_message fresh content h
      else elim (Map.get recipient_did h.sessions) [
        | none ↦ (h, err (double_ratchet (codes "No session with " ++ recipient_did)))
        | some session ↦ send_encrypted fresh recipient_did content session h
      ]

  abbrev pub decryption_failure : Text → Error
  decryption_failure e = crypto (codes "Decryption failure: " ++ e)

  -- A session that fails to decrypt a first message is stored too.
  unfoldable pub decrypt_pre_key : Text → Session → OlmMessage PreKey Normal → Handling p (List ℕ)
  decrypt_pre_key sender_did session m h =
      let (session', result) = p.olm.decrypt session m in
      (logged p (persist_session p sender_did) >> lift (map_err decryption_failure result))
        (put_session p sender_did session' h)

  unfoldable pub decrypt_normal : Text → Session → OlmMessage PreKey Normal → Handling p (List ℕ)
  decrypt_normal sender_did session m h =
      let (session', result) = p.olm.decrypt session m in
      (lift (map_err decryption_failure result) >>= λ plaintext.
      logged p (persist_session p sender_did) >> return plaintext)
        (put_session p sender_did session' h)

  unfoldable pub accept_session : Text → PublicKey → PreKey → Handling p (List ℕ)
  unfolding creation_error
  accept_session sender_did identity_key m h =
      let (account, result) = p.olm.create_inbound_session h.account identity_key m in
      let h' = record h { account = account } in
      elim result [
        | err e ↦ (h', err (creation_error e))
        | ok (session, plaintext) ↦
            (logged p (persist_session p sender_did) >> return plaintext)
              (put_session p sender_did session h')
      ]

  -- The identity key that a first message brings.
  unfoldable pub sender_key : DirectMessage → Result Error PublicKey
  sender_key m = elim m.sender_identity_key [
    | none ↦ err (crypto (codes "PreKey message missing sender_identity_key"))
    | some bytes ↦
        if eqb (length bytes) 32
        then ok (p.olm.from_bytes bytes)
        else err (crypto (codes "sender_identity_key must be exactly 32 bytes"))
  ]

  unfoldable pub decrypt_message : DirectMessage → OlmMessage PreKey Normal → Handling p (List ℕ)
  unfolding decrypt_pre_key decrypt_normal accept_session sender_key
  decrypt_message m (pre_key first) h = elim (Map.get m.sender_did h.sessions) [
    | some session ↦ decrypt_pre_key m.sender_did session (pre_key first) h
    | none ↦ (lift (sender_key m) >>= λ key. accept_session m.sender_did key first) h
  ]
  decrypt_message m (normal next) h = elim (Map.get m.sender_did h.sessions) [
    | some session ↦ decrypt_normal m.sender_did session (normal next) h
    | none ↦ (h, err (double_ratchet (codes "No session with " ++ m.sender_did)))
  ]

  -- The content is decoded, stored and returned.
  unfoldable pub keep_plaintext : List ℕ → DirectMessage → Text → Handling p MessageContent
  unfolding keep
  keep_plaintext nonce m plaintext =
      lift (decode_value p.codec plaintext) >>= λ content. keep nonce m content >> return content

  unfoldable pub receive_message : List ℕ → DirectMessage → Handling p MessageContent
  unfolding decrypt_message keep_plaintext
  receive_message nonce m =
      if eqb m.olm_message_type olm_message_type_self
      then keep_plaintext nonce m m.ciphertext
      else elim (p.olm.from_parts m.olm_message_type m.ciphertext) [
        | err e ↦ fail (crypto (codes "Failed to decode OlmMessage: " ++ e))
        | ok olm_message ↦ decrypt_message m olm_message >>= keep_plaintext nonce m
      ]

  unfoldable pub get_message_content : List ℕ → DirectMessage → Handling p MessageContent
  unfolding receive_message
  get_message_content nonce m = load_plaintext p m.id >>= λ found. elim found [
    | some content ↦ return content
    | none ↦ receive_message nonce m
  ]
