-- ===== src/Messaging/Groups/Membership.antt =====
-- crates/variance-messaging/src/mls.rs: the members and the messages of a group.
use variance.Prelude.{
  ℕ, Text, List, [], ◌∷◌, ◌++◌, Option, none, some, Bool, Result, ok, codes, map, map_err, ◌==◌,
  list_eq, nat_eq, if◌then◌else◌,
}
use variance.Prelude.Map
use variance.Prelude.Map.{Map}
use variance.Messaging.Errors.{
  Error, encryption, decryption, mls_group, mls_welcome, mls_key_package, mls_commit,
}
use variance.Messaging.OpenMls.{Processed, application, proposal, staged_commit, external_proposal}
use variance.Messaging.Storage.Io.{Io, ◌>>=◌, ◌>>◌, return, fail, lift}
use variance.Messaging.Groups.{
  Crate, MlsGroupHandler, RemoveMemberResult, DecryptedMessage, Handling, calling, providing,
  in_group, of_group, put_group,
}

module _ {SigningKey : Type 0} (c : Crate SigningKey) where
  open c.mls use {
    Provider, Group, KeyPackage, KeyPackageIn, MessageOut, MessageIn, ProtocolMessage, Proposal,
    StagedCommit, Welcome, StagedWelcome, GroupInfo, LeafNodeIndex, Entropy,
  }

  abbrev pub removed : MessageOut × Option MessageOut × Option GroupInfo → RemoveMemberResult c
  removed r = record { commit = r.0; welcome = r.1; group_info = r.2 }

  abbrev pub expelling :
      Entropy → LeafNodeIndex → MlsGroupHandler c → Io (Provider × Group) (RemoveMemberResult c)
  expelling e member_index h =
      calling c (c.mls.remove_members h.signature_keypair member_index e)
        (λ x. mls_commit (codes "Failed to remove member: " ++ x))
      >>= λ r.
          calling c c.mls.merge_pending_commit
            (λ x. mls_commit (codes "Failed to merge pending commit after remove: " ++ x))
          >> return (removed r)

  unfoldable pub remove_member : Entropy → Text → LeafNodeIndex → Handling c (RemoveMemberResult c)
  remove_member e id member_index h = in_group c id (expelling e member_index h) h

  -- The first member whose credential is the DID.
  unfoldable pub index_of : Text → List (LeafNodeIndex × List ℕ) → Option LeafNodeIndex
  index_of did [] = none
  index_of did ((index, credential) ∷ ms) =
      if credential == did then some index else index_of did ms

  unfoldable pub find_member_index :
      Text → Text → MlsGroupHandler c → Result Error (Option LeafNodeIndex)
  unfolding index_of
  find_member_index id member_did = of_group c id (λ g. index_of member_did (c.mls.members g))

  abbrev pub encrypting : Entropy → List ℕ → MlsGroupHandler c → Io (Provider × Group) MessageOut
  encrypting e plaintext h =
      calling c (c.mls.create_message h.signature_keypair plaintext e)
        (λ x. encryption (codes "MLS encrypt failed: " ++ x))

  unfoldable pub encrypt_message : Entropy → Text → List ℕ → Handling c MessageOut
  encrypt_message e id plaintext h = in_group c id (encrypting e plaintext h) h

  -- What a message that was processed does to the group.
  unfoldable pub apply_content :
      List ℕ × Processed Proposal StagedCommit → Io (Provider × Group) (Option (DecryptedMessage c))
  apply_content (credential, application bytes) =
      return (some (record { plaintext = bytes; sender_credential = credential }))
  apply_content (credential, proposal p) =
      calling c (c.mls.store_pending_proposal p)
        (λ x. mls_group (codes "Failed to store proposal: " ++ x))
      >> return none
  apply_content (credential, staged_commit s) =
      calling c (c.mls.merge_staged_commit s)
        (λ x. mls_commit (codes "Failed to merge staged commit: " ++ x))
      >> return none
  apply_content (credential, external_proposal) = return none

  unfoldable pub processing : MessageIn → Io (Provider × Group) (Option (DecryptedMessage c))
  unfolding apply_content
  processing message =
      lift (
        map_err (λ x. decryption (codes "Not a protocol message: " ++ x))
          (c.mls.try_into_protocol_message message))
      >>= λ protocol_message.
          calling c (c.mls.process_message protocol_message)
            (λ x. decryption (codes "MLS process_message failed: " ++ x))
          >>= apply_content

  unfoldable pub process_message : Text → MessageIn → Handling c (Option (DecryptedMessage c))
  unfolding processing
  process_message id message = in_group c id (processing message)

  -- The group is filed under its own id.
  unfoldable pub file_group : Group → Handling c Text
  file_group group =
      let id = c.from_utf8_lossy (c.mls.group_id group) in put_group c id group >> return id

  unfoldable pub join_group_from_welcome : MessageIn → Handling c Text
  unfolding file_group
  join_group_from_welcome welcome = elim (c.mls.extract welcome) [
    | none ↦ fail (mls_welcome (codes "Message is not a Welcome"))
    | some w ↦
        providing c (c.mls.new_from_welcome w)
          (λ x. mls_welcome (codes "Failed to stage welcome: " ++ x))
        >>= λ staged.
            providing c (c.mls.into_group staged)
              (λ x. mls_welcome (codes "Failed to join group from welcome: " ++ x))
            >>= file_group
  ]

  unfoldable pub list_members : Text → MlsGroupHandler c → Result Error (List Text)
  list_members id = of_group c id (λ g. map (λ m. c.from_utf8_lossy m.1) (c.mls.members g))

  unfoldable pub is_member : Text → MlsGroupHandler c → Bool
  is_member id h = Map.contains_key id h.groups

  unfoldable pub epoch : Text → MlsGroupHandler c → Result Error ℕ
  epoch id = of_group c id c.mls.epoch

  abbrev pub leaving : Entropy → MlsGroupHandler c → Io (Provider × Group) MessageOut
  leaving e h =
      calling c (c.mls.leave_group h.signature_keypair e)
        (λ x. mls_group (codes "Failed to leave group: " ++ x))

  unfoldable pub leave_group : Entropy → Text → Handling c MessageOut
  leave_group e id h = in_group c id (leaving e h) h

  abbrev pub updating : Entropy → MlsGroupHandler c → Io (Provider × Group) MessageOut
  updating e h =
      calling c (c.mls.self_update h.signature_keypair e)
        (λ x. mls_group (codes "Failed to self-update group: " ++ x))
      >>= λ commit.
          calling c c.mls.merge_pending_commit
            (λ x. mls_group (codes "Failed to merge self-update commit: " ++ x))
          >> return commit

  unfoldable pub self_update : Entropy → Text → Handling c MessageOut
  self_update e id h = in_group c id (updating e h) h

  abbrev pub commit_proposals : MlsGroupHandler c → Entropy → Io (Provider × Group) MessageOut
  commit_proposals h e =
      calling c (c.mls.commit_to_pending_proposals h.signature_keypair e)
        (λ x. mls_commit (codes "Failed to commit pending proposals: " ++ x))
      >>= λ commit.
          calling c c.mls.merge_pending_commit
            (λ x. mls_commit (codes "Failed to merge pending commit after proposal commit: " ++ x))
          >> return commit

  abbrev pub committing : Entropy → MlsGroupHandler c → Io (Provider × Group) (Option MessageOut)
  committing e h cell =
      if c.mls.pending_proposals cell.1
      then (commit_proposals h e >>= λ commit. return (some commit)) cell
      else (cell, ok none)

  unfoldable pub commit_pending_proposals : Entropy → Text → Handling c (Option MessageOut)
  commit_pending_proposals e id h = in_group c id (committing e h) h

  -- The failure to delete the state of the group is logged only.
  unfoldable pub remove_group : Text → MlsGroupHandler c → MlsGroupHandler c
  remove_group id h = elim (Map.get id h.groups) [
    | none ↦ h
    | some group ↦ record h {
      provider = (c.mls.delete (h.provider, group)).0.0;
      groups = Map.remove id h.groups;
    }
  ]

  unfoldable pub serialize_message : MessageOut → Result Error (List ℕ)
  serialize_message message =
      map_err (λ x. encryption (codes "Failed to serialize MLS message: " ++ x))
        (c.mls.serialize message)

  unfoldable pub deserialize_message : List ℕ → Result Error MessageIn
  deserialize_message bytes =
      map_err (λ x. decryption (codes "Failed to deserialize MLS message: " ++ x))
        (c.mls.deserialize bytes)

  unfoldable pub deserialize_key_package : List ℕ → Result Error KeyPackageIn
  deserialize_key_package bytes =
      map_err (λ x. decryption (codes "Failed to deserialize KeyPackage: " ++ x))
        (c.mls.deserialize_key_package bytes)

  unfoldable pub validate_key_package : KeyPackageIn → MlsGroupHandler c → Result Error KeyPackage
  validate_key_package kp_in h =
      map_err (λ x. mls_key_package (codes "KeyPackage validation failed: " ++ x))
        (c.mls.validate kp_in h.provider)

  unfoldable pub group_ids : MlsGroupHandler c → List Text
  group_ids h = map (λ e. e.0) h.groups
