-- ===== src/Messaging/Storage/Invitations.antt =====
-- crates/variance-messaging/src/storage/invitations.rs: the invitations of a user, and those that a
-- user has sent. The codec of `OutboundInvite` is serde_json's.
use variance.Prelude.{
  Text, List, [], ◌∷◌, Option, none, some, Result, ok, err, codes, map, map_err, if◌then◌else◌,
}
use variance.Prelude.Int.{ℤ, ltb_ℤ, add_i64}
use variance.Messaging.Errors.{Error, storage_error, serialization_error}
use variance.Messaging.Proto.{GroupInvitation}
use variance.Messaging.Storage.Io.{Io, ◌>>=◌, ◌>>◌, return, read, lift}
use variance.Messaging.Storage.Sled.{
  Sled, Codec, decode_value, open_tree, tree_insert, tree_remove, tree_get, starts_with,
}
use variance.Messaging.Storage.Keys.{joined}
use variance.Messaging.Storage.Entries.{Scanned, ok_entries, decode_all, decode_opt, remove_each}

pub record OutboundInvite : Type 0 where
  pub invitation_bytes : Text
  pub created_at_ms : ℤ

abbrev pub pending_invitations_tree : Text
pending_invitations_tree = codes "pending_invitations"

abbrev pub outbound_invites_tree : Text
outbound_invites_tree = codes "outbound_invites"

-- `find(":did:")`, with the text before the colon and the text after it.
unfoldable pub split_did : Text → Option (Text × Text)
split_did [] = none
split_did (c ∷ cs) =
    if starts_with (codes ":did:") (c ∷ cs)
    then some ([], cs)
    else elim (split_did cs) [ none ↦ none | some (before, did) ↦ some (c ∷ before, did) ]

module _ (sled : Sled) (codec : Codec GroupInvitation) (json : Codec OutboundInvite) where
  open sled use {Db, iter, scan_prefix}

  unfoldable pub store_pending_invitation : GroupInvitation → Io Db (Unit {0})
  store_pending_invitation invitation =
      open_tree sled pending_invitations_tree
      >> tree_insert sled pending_invitations_tree invitation.group_id (codec.encode invitation)

  unfoldable pub fetch_pending_invitations : Io Db (List GroupInvitation)
  fetch_pending_invitations =
      open_tree sled pending_invitations_tree
      >> read (λ db. decode_all codec (iter db pending_invitations_tree))

  unfoldable pub fetch_pending_invitation : Text → Io Db (Option GroupInvitation)
  fetch_pending_invitation group_id =
      open_tree sled pending_invitations_tree
      >> (tree_get sled pending_invitations_tree group_id >>= λ value.
          lift (decode_opt codec value))

  unfoldable pub delete_pending_invitation : Text → Io Db (Unit {0})
  delete_pending_invitation group_id =
      open_tree sled pending_invitations_tree >> tree_remove sled pending_invitations_tree group_id

  unfoldable pub store_outbound_invite : Text → Text → GroupInvitation → ℤ → Io Db (Unit {0})
  store_outbound_invite group_id invitee_did invitation created_at_ms =
      open_tree sled outbound_invites_tree
      >> tree_insert sled outbound_invites_tree (joined group_id invitee_did) (
          json.encode
            (record { invitation_bytes = codec.encode invitation; created_at_ms = created_at_ms }))

  -- What is stored for an invite, read.
  unfoldable pub read_invite : Option Text → Result Error (Option (GroupInvitation × ℤ))
  read_invite none = ok none
  read_invite (some value) = elim (map_err serialization_error (json.decode value)) [
    | err e ↦ err e
    | ok envelope ↦ elim (decode_value codec envelope.invitation_bytes) [
      | err e ↦ err e
      | ok invitation ↦ ok (some (invitation, envelope.created_at_ms))
    ]
  ]

  unfoldable pub fetch_outbound_invite : Text → Text → Io Db (Option (GroupInvitation × ℤ))
  unfolding read_invite
  fetch_outbound_invite group_id invitee_did =
      open_tree sled outbound_invites_tree
      >> (tree_get sled outbound_invites_tree (joined group_id invitee_did) >>= λ value.
          lift (read_invite value))

  unfoldable pub delete_outbound_invite : Text → Text → Io Db (Unit {0})
  delete_outbound_invite group_id invitee_did =
      open_tree sled outbound_invites_tree
      >> tree_remove sled outbound_invites_tree (joined group_id invitee_did)

  unfoldable pub delete_all_outbound_invites_for_group : Text → Io Db (Unit {0})
  delete_all_outbound_invites_for_group group_id =
      open_tree sled outbound_invites_tree
      >> (read (λ db. ok (ok_entries (scan_prefix db outbound_invites_tree (joined group_id []))))
          >>= λ found. remove_each sled outbound_invites_tree (map (λ e. e.0) found))

  -- An entry of the tree with the group and the invitee that its key names; none where it cannot be read.
  unfoldable pub read_entry : Text → Text → Option (Text × (Text × (GroupInvitation × ℤ)))
  unfolding split_did
  read_entry key value = elim (json.decode value) [
    | err e ↦ none
    | ok envelope ↦ elim (split_did key) [
      | none ↦ none
      | some (group_id, invitee_did) ↦ elim (codec.decode envelope.invitation_bytes) [
        | err e ↦ none
        | ok invitation ↦ some (group_id, (invitee_did, (invitation, envelope.created_at_ms)))
      ]
    ]
  ]

  -- The loop of the two fetches, up to the first failure of the database.
  unfoldable pub read_entries :
      Scanned → Result Error (List (Text × (Text × (GroupInvitation × ℤ))))
  unfolding read_entry
  read_entries [] = ok []
  read_entries (err e ∷ es) = err (storage_error e)
  read_entries (ok (key, value) ∷ es) = elim (read_entries es) [
    | err e ↦ err e
    | ok invites ↦ ok (elim (read_entry key value) [ none ↦ invites | some i ↦ i ∷ invites ])
  ]

  unfoldable pub fetch_outbound_invites_for_group :
      Text → Io Db (List (Text × (GroupInvitation × ℤ)))
  unfolding read_entries
  fetch_outbound_invites_for_group group_id =
      open_tree sled outbound_invites_tree
      >> (read (λ db. read_entries (scan_prefix db outbound_invites_tree (joined group_id [])))
          >>= λ found. return (map (λ e. e.1) found))

  -- `created_at_ms + timeout_ms` wraps in a release build.
  unfoldable pub expired_invites :
      ℤ → ℤ → List (Text × (Text × (GroupInvitation × ℤ))) → List (Text × (Text × GroupInvitation))
  expired_invites timeout_ms now_ms [] = []
  expired_invites timeout_ms now_ms ((group_id, (invitee_did, (invitation, created_at_ms))) ∷ es) =
      let rest = expired_invites timeout_ms now_ms es in
      if ltb_ℤ (add_i64 created_at_ms timeout_ms) now_ms
      then (group_id, (invitee_did, invitation)) ∷ rest
      else rest

  unfoldable pub fetch_expired_outbound_invites :
      ℤ → ℤ → Io Db (List (Text × (Text × GroupInvitation)))
  unfolding read_entries expired_invites
  fetch_expired_outbound_invites timeout_ms now_ms =
      open_tree sled outbound_invites_tree
      >> (read (λ db. read_entries (iter db outbound_invites_tree)) >>= λ found.
          return (expired_invites timeout_ms now_ms found))
