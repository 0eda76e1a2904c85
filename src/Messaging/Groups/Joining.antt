-- ===== src/Messaging/Groups/Joining.antt =====
-- crates/variance-messaging/src/mls.rs: who is a member after others were added.
use mathlib.Core.Path.{subst}
use mathlib.Core.List.{map-append}
use variance.Prelude.{
  ℕ, Text, List, [], ◌∷◌, ◌++◌, some, Result, ok, err, ◌≡◌, refl, sym, ap, ◌∙◌, arith, map,
  contains, Result-cases, Option-cases, Bool-cases, inl, inr, ◌==◌, ◌||◌, list_eq, nat_eq,
}
use variance.Prelude.Map
use variance.Prelude.Map.{Map}
use variance.Messaging.Errors.{Error}
use variance.Messaging.Groups.{
  Crate, MlsGroupHandler, AddMemberResult, of_group, adding, add_member, create_group, put_group,
}
use variance.Messaging.Groups.Membership.{list_members}
use variance.Messaging.Groups.Recovery.{Encodings, add_each}
use variance.Messaging.Groups.Invites.{in_group-some, of_group-some, of_group-changed}

contains-inserted :
    (x a : Text) (before behind : List Text)
    → contains x (before ++ (a ∷ behind)) ≡ (a == x || contains x (before ++ behind))
unfolding contains
contains-inserted x a [] behind = refl
contains-inserted x a (b ∷ before) behind = ground (arith, contains-inserted x a before behind)

module _ {SigningKey : Type 0} (c : Crate SigningKey) where
  open c.mls use {Provider, Group, KeyPackage, Entropy}

  -- The members of a group, as they are listed.
  abbrev pub names : Group → List Text
  names g = map (λ m. c.from_utf8_lossy m.1) (c.mls.members g)

  -- The user of a key package.
  abbrev pub owner : KeyPackage → Text
  owner kp = c.from_utf8_lossy (c.mls.package_identity kp)

  names-identities :
      (ms : List (c.mls.LeafNodeIndex × List ℕ))
      → map (λ m. c.from_utf8_lossy m.1) ms ≡ map c.from_utf8_lossy (map (λ m. m.1) ms)
  names-identities [] = refl
  names-identities (m ∷ ms) = ap (◌∷◌ (c.from_utf8_lossy m.1)) (names-identities ms)

  -- What adding a member does to the names, with success or without.
  abbrev pub Joins : KeyPackage → List Text → Result Error (AddMemberResult c) → List Text → Type 0
  Joins kp xs r ys = elim r [
    | err x ↦ ys ≡ xs
    | ok a ↦ (x : Text) → contains x ys ≡ (owner kp == x || contains x xs)
  ]

  inserted :
      (kp : KeyPackage) (g g' : Group) (before behind : List (List ℕ))
      → map (λ m. m.1) (c.mls.members g) ≡ before ++ behind
      → map (λ m. m.1) (c.mls.members g') ≡ before ++ (c.mls.package_identity kp ∷ behind)
      → (x : Text) → contains x (names g') ≡ (owner kp == x || contains x (names g))
  inserted kp g g' before behind old new x =
      let lossy = c.from_utf8_lossy in
      let was : names g ≡ map lossy before ++ map lossy behind =
        names-identities (c.mls.members g) ∙ ap (map lossy) old ∙ map-append lossy before behind in
      let is : names g' ≡ map lossy before ++ (owner kp ∷ map lossy behind) =
        names-identities (c.mls.members g')
        ∙ ap (map lossy) new
        ∙ map-append lossy before (c.mls.package_identity kp ∷ behind) in
      ap (contains x) is
      ∙ contains-inserted x (owner kp) (map lossy before) (map lossy behind)
      ∙ ap (λ ns. owner kp == x || contains x ns) (sym was)

  adding-Joins :
      (e : Entropy) (kp : KeyPackage) (h : MlsGroupHandler c) (cell : Provider × Group)
      → Joins kp (names cell.1) (adding c e kp h cell).1 (names (adding c e kp h cell).0.1)
  adding-Joins e kp h cell =
      let keys = h.signature_keypair in
      let cell' = (c.mls.add_members keys kp e cell).0 in
      let cell'' = (c.mls.merge_pending_commit cell').0 in
      elim (Result-cases (c.mls.add_members keys kp e cell).1) [
        | inl (r, made) ↦ elim (Result-cases (c.mls.merge_pending_commit cell').1) [
          | inl (u, done) ↦
              let (before, behind, old, new) =
                c.mls.merge_pending_commit-add_members keys kp e cell cell' cell'' r
                  (ap (λ q. (cell', q)) made) (ap (λ q. (cell'', q)) done) in
              rw (made, done) (inserted kp cell.1 cell''.1 before behind old new)
          | inr (x, failed) ↦
              rw (made, failed)
                (ap (map (λ m. c.from_utf8_lossy m.1)) (
                  c.mls.merge_pending_commit_err cell' cell'' x (ap (λ q. (cell'', q)) failed)
                  ∙ (c.mls.add_members_ok keys kp e cell cell' r (ap (λ q. (cell', q)) made)).2))
        ]
        | inr (x, failed) ↦ rw failed (
            ap (map (λ m. c.from_utf8_lossy m.1))
              (c.mls.add_members_err keys kp e cell cell' x (ap (λ q. (cell', q)) failed)))
      ]

  listed_equal : {xs ys : List Text} → ◌≡◌ {A = Result Error (List Text)} (ok xs) (ok ys) → xs ≡ ys
  listed_equal e = cc

  add_member-Joins :
      (e : Entropy) (id : Text) (kp : KeyPackage) (h : MlsGroupHandler c) (xs : List Text)
      → list_members c id h ≡ ok xs
      → (ys : List Text) × (list_members c id (add_member c e id kp h).0 ≡ ok ys)
        × Joins kp xs (add_member c e id kp h).1 ys
  unfolding add_member list_members of_group
  add_member-Joins e id kp h xs listed = elim (Option-cases (Map.get id h.groups)) [
    | inl absent ↦ absurd (ground (arith, rw (list_members, of_group, absent) at listed))
    | inr (g, found) ↦
        let r = adding c e kp h (h.provider, g) in
        let same = in_group-some c id (adding c e kp h) h g found in
        let known : names g ≡ xs =
          listed_equal (sym (of_group-some c id names h g found) ∙ listed) in
        (
          names r.0.1,
          of_group-changed c id names r.0 h (add_member c e id kp h).0 (ap (λ q. q.0) same),
          subst (λ q. Joins kp xs q (names r.0.1)) (sym (ap (λ q. q.1) same))
              (subst (λ zs. Joins kp zs r.1 (names r.0.1)) known
                (adding-Joins e kp h (h.provider, g))),
        )
  ]

  -- The creator is the only member of a new group.
  pub create_group-list_members :
      (e : Entropy) (id : Text) (h : MlsGroupHandler c) (u : Unit {0})
      → (create_group c e id h).1 ≡ ok u
      → list_members c id (create_group c e id h).0
        ≡ ok (c.from_utf8_lossy (c.mls.identity h.credential_with_key) ∷ [])
  unfolding create_group put_group list_members
  create_group-list_members e id h u done =
      let made = (c.mls.new_group h.signature_keypair h.credential_with_key id e h.provider).1 in
      elim (Result-cases made) [
        | inl (g, ok_group) ↦
            let h' = (create_group c e id h).0 in
            let stored : Map.get id h'.groups ≡ some g =
              rw (create_group, ok_group) (Map.get-insert_self id g h.groups) in
            of_group-some c id names h' g stored
            ∙ ap (λ xs. ok xs)
                (names-identities (c.mls.members g)
                  ∙ ap (map c.from_utf8_lossy) (
                      c.mls.new_group_ok h.signature_keypair h.credential_with_key id e h.provider g
                        ok_group))
        | inr (x, failed) ↦ absurd (ground (arith, rw (create_group, failed) at done))
      ]

  module _ (enc : Encodings) where
    -- Those who are sent a welcome are those who were added.
    pub add_each-welcomes :
        (e : Text → Entropy) (id : Text) (packages : Map Text KeyPackage) (dids : List Text)
        (h : MlsGroupHandler c)
        → let (h', welcomes, joined) = add_each c enc e id packages dids h in
          joined ≡ map (λ w. w.0) welcomes
    unfolding add_each
    add_each-welcomes e id packages [] h = refl
    add_each-welcomes e id packages (did ∷ dids) h = elim (Bool-cases (did == h.local_did)) [
      | inl own ↦ rw (add_each, own) (add_each-welcomes e id packages dids h)
      | inr other ↦ elim (Option-cases (Map.get did packages)) [
        | inl absent ↦ rw (add_each, other, absent) (add_each-welcomes e id packages dids h)
        | inr (kp, found) ↦
            let h' = (add_member c (e did) id kp h).0 in
            elim (Result-cases (add_member c (e did) id kp h).1) [
              | inl (r, accepted) ↦
                  rw (add_each, other, found, accepted)
                    (ap (◌∷◌ did) (add_each-welcomes e id packages dids h'))
              | inr (x, refused) ↦
                  rw (add_each, other, found, refused) (add_each-welcomes e id packages dids h')
            ]
      ]
    ]

    -- The members of a group to which others were added are those from before and those who were
    -- added, where each key package is of the user whose it is said to be.
    pub add_each-list_members :
        (e : Text → Entropy) (id : Text) (packages : Map Text KeyPackage) (dids : List Text)
        (h : MlsGroupHandler c) (xs : List Text)
        → ((did : Text) (kp : KeyPackage) → Map.get did packages ≡ some kp → owner kp ≡ did)
        → list_members c id h ≡ ok xs
        → (ys : List Text) × (list_members c id (add_each c enc e id packages dids h).0 ≡ ok ys)
          × ((x : Text)
              → contains x ys
                ≡ (contains x (add_each c enc e id packages dids h).2 || contains x xs))
    unfolding add_each contains
    add_each-list_members e id packages [] h xs owned listed = (xs, listed, λ x. refl)
    add_each-list_members e id packages (did ∷ dids) h xs owned listed =
        elim (Bool-cases (did == h.local_did)) [
          | inl own ↦
              rw (add_each, own) (add_each-list_members e id packages dids h xs owned listed)
          | inr other ↦ elim (Option-cases (Map.get did packages)) [
            | inl absent ↦
                rw (add_each, other, absent)
                  (add_each-list_members e id packages dids h xs owned listed)
            | inr (kp, found) ↦
                let h' = (add_member c (e did) id kp h).0 in
                let (ys, listed', joins) = add_member-Joins (e did) id kp h xs listed in
                let (zs, all, rest) =
                  add_each-list_members e id packages dids h' ys owned listed' in
                let mine = owned did kp found in
                elim (Result-cases (add_member c (e did) id kp h).1) [
                  | inl (r, accepted) ↦
                      let joined = rw accepted at joins in
                      rw (add_each, other, found, accepted)
                        (zs, all, λ x. ground (arith, rest x, joined x, ap (λ o. o == x) mine))
                  | inr (x, refused) ↦
                      let same = rw refused at joins in
                      rw (add_each, other, found, refused)
                        (
                          zs,
                          all,
                          λ x.
                              rest x
                              ∙ ap
                                  (λ ys.
                                    contains x (add_each c enc e id packages dids h').2
                                    || contains x ys)
                                  same,
                        )
                ]
          ]
        ]
