-- ===== src/Messaging/Groups/Recovery.antt =====
-- crates/variance-messaging/src/mls.rs: a group that is made anew, the plaintexts that are kept, and the
-- state that is exported and restored. Numbers in decimal and in hexadecimal digits, JSON, the
-- encryption at rest and the database are parameters.
use variance.Prelude.{
  ℕ, suc, Text, List, [], ◌∷◌, ◌++◌, Option, none, some, Result, ok, err, codes, length, take, drop,
  ltb, map, map_err, ◌==◌, list_eq, nat_eq, if◌then◌else◌, ◌≡◌,
}
use variance.Prelude.Map
use variance.Prelude.Map.{Map}
use variance.Messaging.Errors.{Error, encryption, decryption, mls_group, mls_key_package}
use variance.Messaging.Proto.{MessageContent}
use variance.Messaging.Storage.Io.{Io, ◌>>=◌, ◌>>◌, return, lift}
use variance.Messaging.Storage.Sled.{Sled, Codec, decode_value}
use variance.Messaging.Storage.GroupState.{store_group_plaintext, fetch_group_plaintext}
use variance.Messaging.Groups.{
  Crate, MlsGroupHandler, Handling, providing, create_group, add_member,
}
use variance.Messaging.Groups.Membership.{list_members, remove_group}
use variance.Messaging.Groups.Desync.{epoch_or_zero, clear_desync}

pub record MlsStateSnapshot : Type 0 where
  pub group_ids : List Text
  pub storage_entries : List (Text × Text)

-- The encodings of a snapshot, `hex` and `serde_json`.
pub record Encodings : Type 0 where
  pub to_decimal : ℕ → Text
  pub hex_encode : List ℕ → Text
  pub hex_decode : Text → Result Text (List ℕ)
  pub to_json : MlsStateSnapshot → Result Text (List ℕ)
  pub of_json : List ℕ → Result Text MlsStateSnapshot
  pub hex_decode-hex_encode : (bytes : List ℕ) → hex_decode (hex_encode bytes) ≡ ok bytes
  pub of_json-to_json :
      (s : MlsStateSnapshot) (bytes : List ℕ) → to_json s ≡ ok bytes → of_json bytes ≡ ok s

module _ {SigningKey : Type 0} (c : Crate SigningKey) (enc : Encodings) where
  open c.mls use {Provider, Group, KeyPackage, MessageOut, Entropy}

  pub record ReinitResult : Type 0 where
    pub new_group_id : Text
    pub welcomes : List (Text × MessageOut)
    pub members : List Text

  -- `self.list_members(group_id).unwrap_or_default()`.
  unfoldable pub members_or_none : Text → MlsGroupHandler c → List Text
  members_or_none id h = elim (list_members c id h) [ err e ↦ [] | ok dids ↦ dids ]

  -- The welcomes of the members who could be added, one after the other, with what is drawn for each,
  -- and the members. The failure to add one is logged only.
  unfoldable pub add_each :
      (Text → Entropy)
      → Text
      → Map Text KeyPackage
      → List Text
      → MlsGroupHandler c
      → MlsGroupHandler c × List (Text × MessageOut) × List Text
  add_each e id packages [] h = (h, [], [])
  add_each e id packages (did ∷ dids) h =
      if did == h.local_did then add_each e id packages dids h else elim (Map.get did packages) [
        | none ↦ add_each e id packages dids h
        | some kp ↦
            let (h', result) = add_member c (e did) id kp h in
            let (h'', welcomes, added) = add_each e id packages dids h' in
            (
              h'',
              elim result [ err x ↦ welcomes | ok r ↦ (did, r.welcome) ∷ welcomes ],
              elim result [ err x ↦ added | ok r ↦ did ∷ added ],
            )
      ]

  unfoldable pub new_id : Text → ℕ → Text
  new_id id old_epoch = id ++ (codes "-reinit-" ++ enc.to_decimal old_epoch)

  unfoldable pub reinitialize_group :
      (Text → Entropy) → Text → Map Text KeyPackage → Handling c ReinitResult
  unfolding members_or_none add_each new_id
  reinitialize_group e id packages h =
      let new_group_id = new_id id (epoch_or_zero c id h) in
      let old_members = members_or_none id h in
      (create_group c (e new_group_id) new_group_id >> λ h'.
      let (h'', welcomes, added) = add_each e new_group_id packages old_members h' in
      (
        h'',
        ok (record {
          new_group_id = new_group_id;
          welcomes = welcomes;
          members = h.local_did ∷ added;
        }),
      ))
        (clear_desync c id (remove_group c id h))

  unfoldable pub export_state : MlsGroupHandler c → Result Error (List ℕ)
  export_state h =
      map_err (λ x. mls_group (codes "Failed to serialize MLS state snapshot: " ++ x))
        (enc.to_json (record {
          group_ids = map (λ g. g.0) h.groups;
          storage_entries =
              map (λ e. (enc.hex_encode e.0, enc.hex_encode e.1)) (c.mls.values h.provider);
        }))

  -- The entries of a snapshot; a later one of a key takes the place of an earlier.
  unfoldable pub decode_entries :
      List (Text × Text) → Map (List ℕ) (List ℕ) → Result Error (Map (List ℕ) (List ℕ))
  decode_entries [] restored = ok restored
  decode_entries ((k_hex, v_hex) ∷ es) restored = elim (enc.hex_decode k_hex) [
    | err x ↦ err (mls_group (codes "Corrupted MLS snapshot: bad hex key: " ++ x))
    | ok k ↦ elim (enc.hex_decode v_hex) [
      | err x ↦ err (mls_group (codes "Corrupted MLS snapshot: bad hex value: " ++ x))
      | ok v ↦ decode_entries es (Map.insert k v restored)
    ]
  ]

  -- The groups that the provider has; the others are logged and left out.
  unfoldable pub load_each : List Text → MlsGroupHandler c → MlsGroupHandler c × ℕ
  load_each [] h = (h, 0)
  load_each (id ∷ ids) h = elim (c.mls.load h.provider id) [
    | err e ↦ load_each ids h
    | ok none ↦ load_each ids h
    | ok (some group) ↦
        let (h', restored) = load_each ids (record h { groups = Map.insert id group h.groups }) in
        (h', suc restored)
  ]

  abbrev pub set_values : Map (List ℕ) (List ℕ) → Handling c (Unit {0})
  set_values restored h = (record h { provider = c.mls.with_values restored h.provider }, ok tt)

  unfoldable pub restore_in_place : List ℕ → Handling c ℕ
  unfolding decode_entries load_each
  restore_in_place state_bytes =
      lift (
        map_err (λ x. mls_group (codes "Failed to deserialize MLS state snapshot: " ++ x))
          (enc.of_json state_bytes))
      >>= λ snapshot. lift (decode_entries snapshot.storage_entries []) >>= λ restored.
          set_values restored
          >> (λ h.
              providing c (c.mls.store_keypair h.signature_keypair)
                (λ x.
                  mls_key_package
                    (codes "Failed to re-store signature keypair after restore: " ++ x))
                h)
          >> (λ h. let (h', n) = load_each snapshot.group_ids h in (h', ok n))

-- AES-256-GCM, of which a nonce has 12 bytes.
pub record Sealing (Key : Type 0) : Type 0 where
  pub aes_encrypt : Key → List ℕ → List ℕ → Result (Unit {0}) (List ℕ)
  pub aes_decrypt : Key → List ℕ → List ℕ → Result (Unit {0}) (List ℕ)
  pub aes_decrypt-aes_encrypt :
      (key : Key) (nonce plaintext ciphertext : List ℕ)
      → aes_encrypt key nonce plaintext ≡ ok ciphertext
      → aes_decrypt key nonce ciphertext ≡ ok plaintext

module _ {SigningKey : Type 0} (c : Crate SigningKey) (sealing : Sealing c.Key) (sled : Sled)
    (codec : Codec MessageContent) where
  open sled use {Db}

  unfoldable pub persist_group_plaintext :
      List ℕ → Text → MessageContent → MlsGroupHandler c → Io Db (Unit {0})
  persist_group_plaintext nonce message_id content h =
      lift (
        map_err (λ x. encryption (codes "At-rest encryption of group plaintext failed"))
          (sealing.aes_encrypt h.storage_key nonce (codec.encode content)))
      >>= λ ciphertext. store_group_plaintext sled message_id (nonce ++ ciphertext)

  unfoldable pub decrypt_group_blob :
      MlsGroupHandler c → Text → Result Error (Option MessageContent)
  decrypt_group_blob h blob =
      if ltb (length blob) 12
      then err (decryption (codes "Stored group plaintext blob is too short"))
      else elim (sealing.aes_decrypt h.storage_key (take 12 blob) (drop 12 blob)) [
        | err x ↦ err (decryption (codes "At-rest decryption of group plaintext failed"))
        | ok plaintext ↦ elim (decode_value codec plaintext) [
          | err x ↦ err x
          | ok content ↦ ok (some content)
        ]
      ]

  unfoldable pub load_group_plaintext : Text → MlsGroupHandler c → Io Db (Option MessageContent)
  unfolding decrypt_group_blob
  load_group_plaintext message_id h = fetch_group_plaintext sled message_id >>= λ found.
      elim found [ none ↦ return none | some blob ↦ lift (decrypt_group_blob h blob) ]
