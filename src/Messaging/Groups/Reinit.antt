-- ===== src/Messaging/Groups/Reinit.antt =====
-- crates/variance-messaging/src/mls.rs: what a group that is made anew consists of.
use variance.Prelude.{
  Text, List, ◌∷◌, some, true, false, ok, ◌≡◌, map, All, contains, ◌==◌, list_eq, nat_eq,
}
use variance.Prelude.Map
use variance.Prelude.Map.{Map}
use variance.Messaging.Groups.{Crate, MlsGroupHandler}
use variance.Messaging.Groups.Membership.{list_members}
use variance.Messaging.Groups.Recovery.{Encodings}

module _ {SigningKey : Type 0} (c : Crate SigningKey) (enc : Encodings) where
  open c.mls use {Provider, Group, KeyPackage, MessageOut, Entropy}

  -- A member who was invited again: one of the given users, not the local one, with a key package.
  abbrev pub IsInvited : Text → Map Text KeyPackage → List Text → Text × MessageOut → Type 0
  IsInvited local_did packages dids w =
      (contains w.0 dids ≡ true)
      × ((w.0 == local_did) ≡ false)
      × ((kp : KeyPackage) × (Map.get w.0 packages ≡ some kp))

  -- A group of the local user and of those who are sent a welcome.
  abbrev IsFilled :
      Text
      → Map Text KeyPackage
      → List Text
      → Text
      → MlsGroupHandler c
      → List (Text × MessageOut)
      → List Text
      → Type 0
  IsFilled local_did packages old id h welcomes members =
      (members ≡ local_did ∷ map (λ w. w.0) welcomes)
      × All (IsInvited local_did packages old) welcomes
      × ((listed : List Text) × (list_members c id h ≡ ok listed)
          × ((x : Text) → contains x listed ≡ contains x members))
