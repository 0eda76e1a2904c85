-- ===== src/Messaging/Groups/Isolation.antt =====
-- crates/variance-messaging/src/mls.rs: what is done in one group leaves the others.
use variance.Prelude.{
  ℕ, Text, List, [], ◌∷◌, Bool, false, ◌≡◌, refl, ◌∙◌, arith, Option-cases, inl, inr, ◌==◌, list_eq,
  nat_eq, ◌||◌,
}
use variance.Prelude.Map
use variance.Messaging.Storage.Io.{Io}
use variance.Messaging.Groups.{
  Crate, MlsGroupHandler, in_group, adding, inviting, confirming, cancelling, add_member,
  add_member_deferred, confirm_add_member, cancel_add_member,
}
use variance.Messaging.Groups.Membership.{
  expelling, encrypting, processing, leaving, updating, committing, remove_member, encrypt_message,
  process_message, leave_group, self_update, commit_pending_proposals, remove_group,
}
use variance.Messaging.Groups.Invites.{in_group-some, in_group-none}

module _ {SigningKey : Type 0} (c : Crate SigningKey) where
  open c.mls use {Provider, Group, KeyPackage, MessageIn, LeafNodeIndex, Entropy}

  -- What can be done in a group.
  pub data Action : Type 0 where
    add : Entropy → KeyPackage → Action
    invite : Entropy → KeyPackage → Action
    confirm : Action
    cancel : Action
    expel : Entropy → LeafNodeIndex → Action
    encrypt : Entropy → List ℕ → Action
    process : MessageIn → Action
    leave : Entropy → Action
    update : Entropy → Action
    commit : Entropy → Action
    drop : Action

  unfoldable pub act : Text → Action → MlsGroupHandler c → MlsGroupHandler c
  act id (add e kp) h = (add_member c e id kp h).0
  act id (invite e kp) h = (add_member_deferred c e id kp h).0
  act id confirm h = (confirm_add_member c id h).0
  act id cancel h = (cancel_add_member c id h).0
  act id (expel e index) h = (remove_member c e id index h).0
  act id (encrypt e plaintext) h = (encrypt_message c e id plaintext h).0
  act id (process m) h = (process_message c id m h).0
  act id (leave e) h = (leave_group c e id h).0
  act id (update e) h = (self_update c e id h).0
  act id (commit e) h = (commit_pending_proposals c e id h).0
  act id drop h = remove_group c id h

  unfoldable pub run : List (Text × Action) → MlsGroupHandler c → MlsGroupHandler c
  unfolding act
  run [] h = h
  run ((id, a) ∷ rest) h = run rest (act id a h)

  -- The handler's identity, the counters and all groups but one are the same.
  pub record OnlyGroup (id : Text) (h h' : MlsGroupHandler c) : Type 0 where
    pub same_did : h'.local_did ≡ h.local_did
    pub same_counters : h'.desync_counters ≡ h.desync_counters
    pub others :
        (other : Text) → (id == other) ≡ false → Map.get other h'.groups ≡ Map.get other h.groups

  in_group-OnlyGroup :
      {A : Type 0} (id : Text) (f : Io (Provider × Group) A) (h : MlsGroupHandler c)
      → OnlyGroup id h (in_group c id f h).0
  in_group-OnlyGroup id f h = elim (Option-cases (Map.get id h.groups)) [
    | inl absent ↦
        rw (in_group-none c id f h absent)
          (record { same_did = refl; same_counters = refl; others = λ other ne. refl })
    | inr (g, found) ↦
        let cell = (f (h.provider, g)).0 in
        rw (in_group-some c id f h g found) (record {
          same_did = refl;
          same_counters = refl;
          others = λ other ne. rw (Map.get-insert id other cell.1 h.groups, ne) refl;
        })
  ]

  remove_group-OnlyGroup :
      (id : Text) (h : MlsGroupHandler c) → OnlyGroup id h (remove_group c id h)
  unfolding remove_group
  remove_group-OnlyGroup id h = elim (Option-cases (Map.get id h.groups)) [
    | inl absent ↦
        rw (remove_group, absent)
          (record { same_did = refl; same_counters = refl; others = λ other ne. refl })
    | inr (g, found) ↦
        rw (remove_group, found)
          (record {
            same_did = refl;
            same_counters = refl;
            others = λ other ne. rw (Map.get-remove id other h.groups, ne) refl;
          })
  ]

  pub act-OnlyGroup : (id : Text) (a : Action) (h : MlsGroupHandler c) → OnlyGroup id h (act id a h)
  unfolding act add_member add_member_deferred confirm_add_member cancel_add_member remove_member
      encrypt_message process_message leave_group self_update commit_pending_proposals
  act-OnlyGroup id (add e kp) h = in_group-OnlyGroup id (adding c e kp h) h
  act-OnlyGroup id (invite e kp) h = in_group-OnlyGroup id (inviting c e kp h) h
  act-OnlyGroup id confirm h = in_group-OnlyGroup id (confirming c id) h
  act-OnlyGroup id cancel h = in_group-OnlyGroup id (cancelling c id) h
  act-OnlyGroup id (expel e index) h = in_group-OnlyGroup id (expelling c e index h) h
  act-OnlyGroup id (encrypt e plaintext) h = in_group-OnlyGroup id (encrypting c e plaintext h) h
  act-OnlyGroup id (process m) h = in_group-OnlyGroup id (processing c m) h
  act-OnlyGroup id (leave e) h = in_group-OnlyGroup id (leaving c e h) h
  act-OnlyGroup id (update e) h = in_group-OnlyGroup id (updating c e h) h
  act-OnlyGroup id (commit e) h = in_group-OnlyGroup id (committing c e h) h
  act-OnlyGroup id drop h = remove_group-OnlyGroup id h

  -- Whether a group is among those in which something is done.
  abbrev pub touches : Text → List (Text × Action) → Bool
  touches other [] = false
  touches other ((id, a) ∷ rest) = (id == other) || touches other rest

  -- Whatever is done in groups, by adding, inviting or removing members, by messages of any kind or
  -- by leaving them, those in which nothing is done stay as they are, and so do the handler's DID
  -- and the counters of failures.
  pub run-others :
      (rest : List (Text × Action)) (h : MlsGroupHandler c) (other : Text)
      → touches other rest ≡ false
      → (Map.get other (run rest h).groups ≡ Map.get other h.groups)
        × ((run rest h).local_did ≡ h.local_did)
        × ((run rest h).desync_counters ≡ h.desync_counters)
  unfolding run
  run-others [] h other apart = (refl, refl, refl)
  run-others ((id, a) ∷ rest) h other apart =
      let here : (id == other) ≡ false = ground arith in
      let there : touches other rest ≡ false = ground arith in
      let only = act-OnlyGroup id a h in
      let (kept, did, counters) = run-others rest (act id a h) other there in
      (kept ∙ only.others other here, did ∙ only.same_did, counters ∙ only.same_counters)
