-- ===== src/Messaging/Groups.antt =====
-- crates/variance-messaging/src/mls.rs: MlsGroupHandler, the groups and what is done in each. A lock
-- on a group is held for a whole operation, and locks are not poisoned.
pub mod Membership
pub mod Invites
pub mod Answers
pub mod Isolation
pub mod Plaintexts
pub mod Sample
mod Tests
pub mod Joining
pub mod Emptied
pub mod Reinit
pub mod DesyncRuns
pub mod Desync
pub mod Recovery
use variance.Prelude.{
  ℕ, Text, List, [], ◌∷◌, ◌++◌, Option, none, some, Bool, true, false, Result, ok, err, codes, map,
  map_err, ◌==◌, list_eq, nat_eq, if◌then◌else◌,
}
use variance.Prelude.Map
use variance.Prelude.Map.{Map}
use variance.Messaging.Errors.{
  Error, group_not_found, encryption, decryption, mls_group, mls_welcome, mls_key_package,
  mls_commit, mls_pending_commit, mls_no_pending_commit,
}
use variance.Messaging.OpenMls.{
  OpenMls, Processed, application, proposal, staged_commit, external_proposal,
}
use variance.Messaging.Storage.Io.{Io, ◌>>=◌, ◌>>◌, return, fail}

-- How many failures in a row there were, and whether the group is flagged.
pub record DesyncCounter : Type 0 where
  pub consecutive_failures : ℕ
  pub flagged : ℕ

-- The code that the handler calls: `hkdf` derives the key for stored plaintexts with a label, and
-- `from_utf8_lossy` is of the standard library.
pub record Crate (SigningKey : Type 0) : Type 1 where
  pub mls : OpenMls SigningKey
  pub from_utf8_lossy : List ℕ → Text
  pub Key : Type 0
  pub hkdf : SigningKey → Text → Key

module _ {SigningKey : Type 0} (c : Crate SigningKey) where
  open c.mls use {
    Provider, KeyPair, CredentialWithKey, Group, KeyPackage, KeyPackageIn, MessageOut, MessageIn,
    Proposal, StagedCommit, GroupInfo, LeafNodeIndex, Entropy,
  }

  pub record MlsGroupHandler : Type 0 where
    pub local_did : Text
    pub provider : Provider
    pub signature_keypair : KeyPair
    pub credential_with_key : CredentialWithKey
    pub groups : Map Text Group
    pub storage_key : c.Key
    pub desync_counters : Map Text DesyncCounter

  pub record AddMemberResult : Type 0 where
    pub commit : MessageOut
    pub welcome : MessageOut
    pub group_info : Option GroupInfo

  pub record RemoveMemberResult : Type 0 where
    pub commit : MessageOut
    pub welcome : Option MessageOut
    pub group_info : Option GroupInfo

  pub record DecryptedMessage : Type 0 where
    pub plaintext : List ℕ
    pub sender_credential : List ℕ

  abbrev pub Handling : Type 0 → Type 0
  Handling A = Io MlsGroupHandler A

  -- A call of the crate on a group, with its error in the program's terms.
  abbrev pub calling :
      {A : Type 0}
      → (Provider × Group → (Provider × Group) × Result Text A)
      → (Text → Error)
      → Io (Provider × Group) A
  calling call error cell = let (cell', r) = call cell in (cell', map_err error r)

  -- A call on the provider only.
  abbrev pub providing :
      {A : Type 0} → (Provider → Provider × Result Text A) → (Text → Error) → Handling A
  providing call error h =
      let (provider, r) = call h.provider in (record h { provider = provider }, map_err error r)

  unfoldable pub in_group : {A : Type 0} → Text → Io (Provider × Group) A → Handling A
  in_group id f h = elim (Map.get id h.groups) [
    | none ↦ (h, err (group_not_found id))
    | some group ↦
        let (cell, r) = f (h.provider, group) in
        (record h { provider = cell.0; groups = Map.insert id cell.1 h.groups }, r)
  ]

  unfoldable pub of_group : {A : Type 0} → Text → (Group → A) → MlsGroupHandler → Result Error A
  of_group id f h = elim (Map.get id h.groups) [
    | none ↦ err (group_not_found id)
    | some group ↦ ok (f group)
  ]

  unfoldable pub new_handler : Text → SigningKey → Result Error MlsGroupHandler
  new_handler local_did signing_key =
      let keypair = c.mls.from_raw signing_key in
      let (provider, stored) = c.mls.store_keypair keypair c.mls.default_provider in
      elim stored [
        | err e ↦ err (mls_key_package (codes "Failed to store signature keypair: " ++ e))
        | ok u ↦ ok (record {
          local_did = local_did;
          provider = provider;
          signature_keypair = keypair;
          credential_with_key = c.mls.credential_of local_did keypair;
          groups = [];
          storage_key = c.hkdf signing_key (codes "variance-group-plaintext-v1");
          desync_counters = [];
        })
      ]

  unfoldable pub generate_key_package : Entropy → Handling KeyPackage
  generate_key_package e h =
      providing (c.mls.build_key_package h.signature_keypair h.credential_with_key e)
        (λ x. mls_key_package (codes "Failed to build KeyPackage: " ++ x)) h

  unfoldable pub put_group : Text → Group → Handling (Unit {0})
  put_group id group h = (record h { groups = Map.insert id group h.groups }, ok tt)

  unfoldable pub create_group : Entropy → Text → Handling (Unit {0})
  unfolding put_group
  create_group e id h =
      (providing (c.mls.new_group h.signature_keypair h.credential_with_key id e)
            (λ x. mls_group (codes "Failed to create MLS group: " ++ x))
          >>= put_group id)
        h

  abbrev pub added : MessageOut × MessageOut × Option GroupInfo → AddMemberResult
  added r = record { commit = r.0; welcome = r.1; group_info = r.2 }

  -- What each operation does to its group.
  abbrev pub adding : Entropy → KeyPackage → MlsGroupHandler → Io (Provider × Group) AddMemberResult
  adding e key_package h =
      calling (c.mls.add_members h.signature_keypair key_package e)
        (λ x. mls_commit (codes "Failed to add member: " ++ x))
      >>= λ r.
          calling c.mls.merge_pending_commit
            (λ x. mls_commit (codes "Failed to merge pending commit after add: " ++ x))
          >> return (added r)

  abbrev pub inviting :
      Entropy → KeyPackage → MlsGroupHandler → Io (Provider × Group) AddMemberResult
  inviting e key_package h cell =
      if c.mls.pending_commit cell.1
      then (cell, err mls_pending_commit)
      else (calling (c.mls.add_members h.signature_keypair key_package e)
              (λ x. mls_commit (codes "Failed to add member (deferred): " ++ x))
            >>= λ r. return (added r))
          cell

  abbrev pub confirming : Text → Io (Provider × Group) (Unit {0})
  confirming id cell =
      if c.mls.pending_commit cell.1
      then calling c.mls.merge_pending_commit
          (λ x. mls_commit (codes "Failed to merge pending commit: " ++ x)) cell
      else (cell, err (mls_no_pending_commit id))

  abbrev pub cancelling : Text → Io (Provider × Group) (Unit {0})
  cancelling id cell =
      if c.mls.pending_commit cell.1
      then calling c.mls.clear_pending_commit
          (λ x. mls_commit (codes "Failed to clear pending commit: " ++ x)) cell
      else (cell, err (mls_no_pending_commit id))

  unfoldable pub add_member : Entropy → Text → KeyPackage → Handling AddMemberResult
  unfolding in_group
  add_member e id key_package h = in_group id (adding e key_package h) h

  unfoldable pub add_member_deferred : Entropy → Text → KeyPackage → Handling AddMemberResult
  unfolding in_group
  add_member_deferred e id key_package h = in_group id (inviting e key_package h) h

  unfoldable pub confirm_add_member : Text → Handling (Unit {0})
  unfolding in_group
  confirm_add_member id = in_group id (confirming id)

  unfoldable pub cancel_add_member : Text → Handling (Unit {0})
  unfolding in_group
  cancel_add_member id = in_group id (cancelling id)

  unfoldable pub has_pending_commit : Text → MlsGroupHandler → Result Error Bool
  unfolding of_group
  has_pending_commit id = of_group id c.mls.pending_commit
