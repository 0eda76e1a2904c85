-- ===== src/Messaging/OpenMls.antt =====
-- OpenMLS (RFC 9420), which is not in the repository, as a parameter: a group and the provider's
-- storage change together. Random numbers are an argument of what draws them. What is relied on of a
-- call that succeeds is what its documentation says of the commit that waits in a group, of the epoch
-- and of the members.
use variance.Prelude.{
  ℕ, suc, Text, List, [], ◌∷◌, ◌++◌, Option, Bool, true, false, Result, ok, err, map, ◌≡◌,
}
use variance.Prelude.Map.{Map}

-- `ProcessedMessageContent`, of which the last constructor stands for the kinds that are ignored.
pub data Processed (Proposal StagedCommit : Type 0) : Type 0 where
  application : List ℕ → Processed Proposal StagedCommit
  proposal : Proposal → Processed Proposal StagedCommit
  staged_commit : StagedCommit → Processed Proposal StagedCommit
  external_proposal : Processed Proposal StagedCommit

pub record OpenMls (SigningKey : Type 0) : Type 1 where
  pub Provider : Type 0
  pub KeyPair : Type 0
  pub CredentialWithKey : Type 0
  pub Group : Type 0
  pub KeyPackage : Type 0
  pub KeyPackageIn : Type 0
  pub MessageOut : Type 0
  pub MessageIn : Type 0
  pub ProtocolMessage : Type 0
  pub Proposal : Type 0
  pub StagedCommit : Type 0
  pub Welcome : Type 0
  pub StagedWelcome : Type 0
  pub GroupInfo : Type 0
  pub LeafNodeIndex : Type 0
  pub Entropy : Type 0
  pub default_provider : Provider
  -- `MemoryStorage.values`, and a provider with others.
  pub values : Provider → Map (List ℕ) (List ℕ)
  pub with_values : Map (List ℕ) (List ℕ) → Provider → Provider
  -- `SignatureKeyPair::from_raw` of the key's bytes, and its public key with the DID.
  pub from_raw : SigningKey → KeyPair
  pub credential_of : Text → KeyPair → CredentialWithKey
  -- The bytes of the identity in a credential, and of that in a key package.
  pub identity : CredentialWithKey → List ℕ
  pub package_identity : KeyPackage → List ℕ
  pub store_keypair : KeyPair → Provider → Provider × Result Text (Unit {0})
  pub build_key_package :
      KeyPair → CredentialWithKey → Entropy → Provider → Provider × Result Text KeyPackage
  pub validate : KeyPackageIn → Provider → Result Text KeyPackage
  pub new_group :
      KeyPair → CredentialWithKey → Text → Entropy → Provider → Provider × Result Text Group
  pub group_id : Group → List ℕ
  pub epoch : Group → ℕ
  -- The leaf of each member and the bytes of its credential.
  pub members : Group → List (LeafNodeIndex × List ℕ)
  -- Whether there is one.
  pub pending_commit : Group → Bool
  pub pending_proposals : Group → Bool
  pub add_members :
      KeyPair
      → KeyPackage
      → Entropy
      → Provider × Group
      → (Provider × Group) × Result Text (MessageOut × MessageOut × Option GroupInfo)
  pub remove_members :
      KeyPair
      → LeafNodeIndex
      → Entropy
      → Provider × Group
      → (Provider × Group) × Result Text (MessageOut × Option MessageOut × Option GroupInfo)
  pub merge_pending_commit : Provider × Group → (Provider × Group) × Result Text (Unit {0})
  pub clear_pending_commit : Provider × Group → (Provider × Group) × Result Text (Unit {0})
  pub create_message :
      KeyPair → List ℕ → Entropy → Provider × Group → (Provider × Group) × Result Text MessageOut
  pub process_message :
      ProtocolMessage
      → Provider × Group
      → (Provider × Group) × Result Text (List ℕ × Processed Proposal StagedCommit)
  pub store_pending_proposal :
      Proposal → Provider × Group → (Provider × Group) × Result Text (Unit {0})
  pub merge_staged_commit :
      StagedCommit → Provider × Group → (Provider × Group) × Result Text (Unit {0})
  pub leave_group :
      KeyPair → Entropy → Provider × Group → (Provider × Group) × Result Text MessageOut
  pub self_update :
      KeyPair → Entropy → Provider × Group → (Provider × Group) × Result Text MessageOut
  pub commit_to_pending_proposals :
      KeyPair → Entropy → Provider × Group → (Provider × Group) × Result Text MessageOut
  pub delete : Provider × Group → (Provider × Group) × Result Text (Unit {0})
  pub load : Provider → Text → Result Text (Option Group)
  pub try_into_protocol_message : MessageIn → Result Text ProtocolMessage
  -- The welcome of a message that is one.
  pub extract : MessageIn → Option Welcome
  pub new_from_welcome : Welcome → Provider → Provider × Result Text StagedWelcome
  pub into_group : StagedWelcome → Provider → Provider × Result Text Group
  pub serialize : MessageOut → Result Text (List ℕ)
  pub deserialize : List ℕ → Result Text MessageIn
  pub deserialize_key_package : List ℕ → Result Text KeyPackageIn
  -- A commit that adds a member waits in the group, which is otherwise the same.
  pub add_members_ok :
      (keys : KeyPair) (key_package : KeyPackage) (e : Entropy) (cell cell' : Provider × Group)
      (r : MessageOut × MessageOut × Option GroupInfo)
      → add_members keys key_package e cell ≡ (cell', ok r)
      → (pending_commit cell'.1 ≡ true)
        × (epoch cell'.1 ≡ epoch cell.1)
        × (members cell'.1 ≡ members cell.1)
  -- A new group has one member, its creator.
  pub new_group_ok :
      (keys : KeyPair) (credential : CredentialWithKey) (id : Text) (e : Entropy)
      (provider : Provider) (g : Group)
      → (new_group keys credential id e provider).1 ≡ ok g
      → map (λ m. m.1) (members g) ≡ identity credential ∷ []
  -- The owner of the key package is a member, at some leaf, once the commit is merged.
  pub merge_pending_commit-add_members :
      (keys : KeyPair) (key_package : KeyPackage) (e : Entropy)
      (cell cell' cell'' : Provider × Group) (r : MessageOut × MessageOut × Option GroupInfo)
      → add_members keys key_package e cell ≡ (cell', ok r)
      → merge_pending_commit cell' ≡ (cell'', ok tt)
      → (before : List (List ℕ)) × (behind : List (List ℕ)) × (map (λ m. m.1) (members cell.1)
          ≡ before ++ behind)
        × (map (λ m. m.1) (members cell''.1) ≡ before ++ (package_identity key_package ∷ behind))
  -- What fails leaves the members.
  pub add_members_err :
      (keys : KeyPair) (key_package : KeyPackage) (e : Entropy) (cell cell' : Provider × Group)
      (x : Text)
      → add_members keys key_package e cell ≡ (cell', err x)
      → members cell'.1 ≡ members cell.1
  pub merge_pending_commit_err :
      (cell cell' : Provider × Group) (x : Text)
      → merge_pending_commit cell ≡ (cell', err x)
      → members cell'.1 ≡ members cell.1
  -- One that is merged begins the next epoch, and one that is cleared leaves no trace.
  pub merge_pending_commit_ok :
      (cell cell' : Provider × Group)
      → merge_pending_commit cell ≡ (cell', ok tt)
      → (pending_commit cell'.1 ≡ false)
        × (pending_commit cell.1 ≡ true → epoch cell'.1 ≡ suc (epoch cell.1))
  pub clear_pending_commit_ok :
      (cell cell' : Provider × Group)
      → clear_pending_commit cell ≡ (cell', ok tt)
      → (pending_commit cell'.1 ≡ false)
        × (epoch cell'.1 ≡ epoch cell.1)
        × (members cell'.1 ≡ members cell.1)
