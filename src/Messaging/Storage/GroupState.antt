-- ===== src/Messaging/Storage/GroupState.antt =====
-- crates/variance-messaging/src/storage/group.rs: what is known of the groups, the state of MLS and the
-- cached plaintexts.
use variance.Prelude.{
  Text, List, [], ◌∷◌, Option, none, some, Bool, true, false, ok, err, codes, ◌==◌, list_eq, nat_eq,
  if◌then◌else◌,
}
use variance.Prelude.Int.{ℤ}
use variance.Messaging.Proto.{Group, GroupMember}
use variance.Messaging.Storage.Io.{Io, ◌>>=◌, ◌>>◌, return, fail, read}
use variance.Messaging.Storage.Sled.{
  Sled, Codec, decode_value, open_tree, tree_insert, tree_remove, tree_get,
}
use variance.Messaging.Storage.Entries.{decode_all}
use variance.Messaging.Storage.Group.{group_plaintext_tree}

abbrev pub group_metadata_tree : Text
group_metadata_tree = codes "group_metadata"

abbrev pub mls_state_tree : Text
mls_state_tree = codes "mls_provider_state"

-- The first member with a DID gets the role.
unfoldable pub set_role : Text → ℤ → List GroupMember → Option (List GroupMember)
set_role member_did new_role [] = none
set_role member_did new_role (m ∷ ms) =
    let rest = set_role member_did new_role ms in
    if m.did == member_did
    then some (
        record { did = m.did; role = new_role; joined_at = m.joined_at; nickname = m.nickname }
        ∷ ms)
    else elim rest [ none ↦ none | some ns ↦ some (m ∷ ns) ]

unfoldable pub with_members : Group → List GroupMember → Group
with_members g members = record {
  id = g.id;
  name = g.name;
  admin_did = g.admin_did;
  members = members;
  created_at = g.created_at;
  avatar_cid = g.avatar_cid;
  description = g.description;
  frozen = g.frozen;
}

module _ (sled : Sled) (codec : Codec Group) where
  open sled use {Db, iter}
  open codec use {encode, decode}

  unfoldable pub delete_group_metadata : Text → Io Db (Unit {0})
  delete_group_metadata group_id =
      open_tree sled group_metadata_tree >> tree_remove sled group_metadata_tree group_id

  unfoldable pub store_group_metadata : Group → Io Db (Unit {0})
  store_group_metadata group =
      open_tree sled group_metadata_tree
      >> tree_insert sled group_metadata_tree group.id (encode group)

  -- What cannot be decoded is as if it were missing.
  unfoldable pub decoded : Option Text → Option Group
  decoded none = none
  decoded (some value) = elim (decode value) [ err e ↦ none | ok group ↦ some group ]

  unfoldable pub fetch_group_metadata : Text → Io Db (Option Group)
  unfolding decoded
  fetch_group_metadata group_id =
      open_tree sled group_metadata_tree
      >> (tree_get sled group_metadata_tree group_id >>= λ value. return (decoded value))

  unfoldable pub fetch_all_group_metadata : Io Db (List Group)
  fetch_all_group_metadata =
      open_tree sled group_metadata_tree
      >> read (λ db. decode_all codec (iter db group_metadata_tree))

  -- The update of the group that is stored, where there is one.
  unfoldable pub update_role_of : Text → Text → ℤ → Option Text → Io Db Bool
  unfolding set_role with_members
  update_role_of group_id member_did new_role none = return false
  update_role_of group_id member_did new_role (some raw) = elim (decode_value codec raw) [
    | err e ↦ fail e
    | ok group ↦ elim (set_role member_did new_role group.members) [
      | none ↦ return false
      | some members ↦
          tree_insert sled group_metadata_tree group_id (encode (with_members group members))
          >> return true
    ]
  ]

  unfoldable pub update_member_role : Text → Text → ℤ → Io Db Bool
  unfolding update_role_of
  update_member_role group_id member_did new_role =
      open_tree sled group_metadata_tree
      >> (tree_get sled group_metadata_tree group_id
          >>= update_role_of group_id member_did new_role)

module _ (sled : Sled) where
  open sled use {Db}

  unfoldable pub store_mls_state : Text → Text → Io Db (Unit {0})
  store_mls_state local_did state =
      open_tree sled mls_state_tree >> tree_insert sled mls_state_tree local_did state

  unfoldable pub fetch_mls_state : Text → Io Db (Option Text)
  fetch_mls_state local_did =
      open_tree sled mls_state_tree >> tree_get sled mls_state_tree local_did

  unfoldable pub store_group_plaintext : Text → Text → Io Db (Unit {0})
  store_group_plaintext message_id blob =
      open_tree sled group_plaintext_tree >> tree_insert sled group_plaintext_tree message_id blob

  unfoldable pub fetch_group_plaintext : Text → Io Db (Option Text)
  fetch_group_plaintext message_id =
      open_tree sled group_plaintext_tree >> tree_get sled group_plaintext_tree message_id
