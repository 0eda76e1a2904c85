-- ===== src/Messaging/Groups/Emptied.antt =====
-- crates/variance-messaging/src/mls.rs: what is left of a group that is removed, and the id of the new
-- one.
use variance.Prelude.{
  ℕ, Text, ◌++◌, none, false, codes, ◌≡◌, refl, ap, ◌∙◌, arith, length, length-append, Result-cases,
  Option-cases, inl, inr, eq_ne, ◌==◌, list_eq, nat_eq,
}
use variance.Prelude.Map
use variance.Prelude.Map.{Map}
use variance.Messaging.Groups.{Crate, MlsGroupHandler, put_group, create_group}
use variance.Messaging.Groups.Membership.{remove_group}
use variance.Messaging.Groups.Desync.{clear_desync}
use variance.Messaging.Groups.Recovery.{Encodings, new_id}
use variance.Messaging.Groups.Isolation.{OnlyGroup}

module _ {SigningKey : Type 0} (c : Crate SigningKey) (enc : Encodings) where
  open c.mls use {Provider, Group, KeyPackage, MessageOut, Entropy}

  pub new_id-other : (id : Text) (n : ℕ) → (new_id c enc id n == id) ≡ false
  unfolding new_id
  new_id-other id n = eq_ne (new_id c enc id n) id (λ same. longer (ap length same))
    where
      longer : length (new_id c enc id n) ≡ length id → ⊥
      longer e = ground (arith, length-append id (codes "-reinit-" ++ enc.to_decimal n))

  pub create_group-OnlyGroup :
      (e : Entropy) (id : Text) (h : MlsGroupHandler c) → OnlyGroup c id h (create_group c e id h).0
  unfolding create_group put_group
  create_group-OnlyGroup e id h =
      elim (Result-cases
        (c.mls.new_group h.signature_keypair h.credential_with_key id e h.provider).1) [
          | inl (g, made) ↦
              rw (create_group, made)
                (record {
                  same_did = refl;
                  same_counters = refl;
                  others = λ other apart. rw (Map.get-insert id other g h.groups, apart) refl;
                })
          | inr (x, failed) ↦
              rw (create_group, failed)
                (record { same_did = refl; same_counters = refl; others = λ other apart. refl })
        ]

  cleared_groups :
      (id : Text) (h : MlsGroupHandler c)
      → ((clear_desync c id h).groups ≡ h.groups)
        × ((clear_desync c id h).local_did ≡ h.local_did)
        × ((clear_desync c id h).credential_with_key ≡ h.credential_with_key)
  unfolding clear_desync
  cleared_groups id h = elim (Option-cases (Map.get id h.desync_counters)) [
    | inl absent ↦ rw (clear_desync, absent) (refl, refl, refl)
    | inr (d, found) ↦ rw (clear_desync, found) (refl, refl, refl)
  ]

  removed_group :
      (id : Text) (h : MlsGroupHandler c)
      → (Map.get id (remove_group c id h).groups ≡ none)
        × ((remove_group c id h).local_did ≡ h.local_did)
        × ((remove_group c id h).credential_with_key ≡ h.credential_with_key)
  unfolding remove_group
  removed_group id h = elim (Option-cases (Map.get id h.groups)) [
    | inl absent ↦ rw (remove_group, absent) (absent, refl, refl)
    | inr (g, found) ↦ rw (remove_group, found) (Map.get-remove_self id h.groups, refl, refl)
  ]

  -- What the old group leaves, where the new one is begun.
  pub emptied :
      (id : Text) (h : MlsGroupHandler c)
      → let start = clear_desync c id (remove_group c id h) in
        (Map.get id start.groups ≡ none)
        × (start.local_did ≡ h.local_did)
        × (start.credential_with_key ≡ h.credential_with_key)
  emptied id h =
      let (gone, did₁, credential₁) = removed_group id h in
      let (groups, did₂, credential₂) = cleared_groups id (remove_group c id h) in
      (ap (Map.get id) groups ∙ gone, did₂ ∙ did₁, credential₂ ∙ credential₁)
