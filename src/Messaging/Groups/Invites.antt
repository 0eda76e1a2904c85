-- ===== src/Messaging/Groups/Invites.antt =====
-- crates/variance-messaging/src/mls.rs: an invitation that waits for its answer.
use variance.Prelude.{
  suc, Text, none, some, true, false, Result, ok, err, codes, ◌++◌, ◌≡◌, refl, sym, ap, ◌∙◌, arith,
  map, map_err, Result-cases, Option-cases, Bool-cases, inl, inr, list_eq, nat_eq,
}
use variance.Prelude.Map
use variance.Messaging.Errors.{Error, group_not_found, mls_commit, mls_pending_commit}
use variance.Messaging.Storage.Io.{Io}
use variance.Messaging.Groups.{
  Crate, MlsGroupHandler, AddMemberResult, calling, in_group, of_group, inviting, confirming,
  cancelling, add_member_deferred, cancel_add_member, has_pending_commit,
}
use variance.Messaging.Groups.Membership.{list_members, epoch}

module _ {SigningKey : Type 0} (c : Crate SigningKey) where
  open c.mls use {Provider, Group, KeyPackage, MessageOut, Entropy}

  -- A handler whose provider and group have changed.
  abbrev pub put_cell : Text → Provider × Group → MlsGroupHandler c → MlsGroupHandler c
  put_cell id cell h = record h { provider = cell.0; groups = Map.insert id cell.1 h.groups }

  pub in_group-some :
      {A : Type 0} (id : Text) (f : Io (Provider × Group) A) (h : MlsGroupHandler c) (g : Group)
      → Map.get id h.groups ≡ some g
      → in_group c id f h ≡ (put_cell id (f (h.provider, g)).0 h, (f (h.provider, g)).1)
  unfolding in_group
  in_group-some id f h g found = rw (in_group, found) refl

  pub in_group-none :
      {A : Type 0} (id : Text) (f : Io (Provider × Group) A) (h : MlsGroupHandler c)
      → Map.get id h.groups ≡ none
      → in_group c id f h ≡ (h, err (group_not_found id))
  unfolding in_group
  in_group-none id f h absent = rw (in_group, absent) refl

  -- What is refused leaves the handler as it is.
  pub in_group-same :
      {A : Type 0} (id : Text) (f : Io (Provider × Group) A) (h : MlsGroupHandler c) (g : Group)
      (e : Error)
      → Map.get id h.groups ≡ some g
      → f (h.provider, g) ≡ ((h.provider, g), err e)
      → in_group c id f h ≡ (h, err e)
  in_group-same id f h g e found refused =
      in_group-some id f h g found
      ∙ ap (λ r. (put_cell id r.0 h, r.1)) refused
      ∙ ap (λ groups. (record h { groups = groups }, err e)) (Map.insert-get id g h.groups found)

  -- A success was one of the group.
  pub in_group-ok :
      {A : Type 0} (id : Text) (f : Io (Provider × Group) A) (h h' : MlsGroupHandler c) (a : A)
      → in_group c id f h ≡ (h', ok a)
      → (g : Group) × (Map.get id h.groups ≡ some g)
        × (◌≡◌ {A = Result Error A} (f (h.provider, g)).1 (ok a))
        × (h' ≡ put_cell id (f (h.provider, g)).0 h)
  in_group-ok id f h h' a e = elim (Option-cases (Map.get id h.groups)) [
    | inl absent ↦ absurd (ground (arith, ap (λ q. q.1) (sym (in_group-none id f h absent) ∙ e)))
    | inr (g, found) ↦
        let done = sym (in_group-some id f h g found) ∙ e in
        (g, found, ap (λ q. q.1) done, sym (ap (λ q. q.0) done))
  ]

  called-ok :
      {A : Type 0} (call : Provider × Group → (Provider × Group) × Result Text A)
      (error : Text → Error) (cell : Provider × Group) (a : A)
      → ◌≡◌ {A = Result Error A} (calling c call error cell).1 (ok a)
      → call cell ≡ ((calling c call error cell).0, ok a)
  called-ok {A} call error cell a e = go (call cell) e
    where
      go :
          (r : (Provider × Group) × Result Text A)
          → ◌≡◌ {A = Result Error A} (map_err error r.1) (ok a)
          → r ≡ (r.0, ok a)
      go (cell, ok b) e = ap (λ x. (cell, ok x)) (ok_equal e)
        where
          ok_equal : {x y : A} → ◌≡◌ {A = Result Error A} (ok x) (ok y) → x ≡ y
          ok_equal e = cc
      go (cell, err x) e = absurd (refuted e)
        where
          refuted : {y : Error} → ◌≡◌ {A = Result Error A} (err y) (ok a) → ⊥
          refuted e = cc

  -- What is asked of a group that was found, and of one that was changed.
  pub of_group-some :
      {A : Type 0} (id : Text) (f : Group → A) (h : MlsGroupHandler c) (g : Group)
      → Map.get id h.groups ≡ some g
      → of_group c id f h ≡ ok (f g)
  unfolding of_group
  of_group-some id f h g found = rw (of_group, found) refl

  of_group-put_cell :
      {A : Type 0} (id : Text) (f : Group → A) (cell : Provider × Group) (h : MlsGroupHandler c)
      → of_group c id f (put_cell id cell h) ≡ ok (f cell.1)
  of_group-put_cell id f cell h =
      of_group-some id f (put_cell id cell h) cell.1 (Map.get-insert_self id cell.1 h.groups)

  -- What is asked of a group gives the same after a change that keeps it.
  pub of_group-kept :
      {A : Type 0} (id : Text) (f : Group → A) (cell : Provider × Group) (h h' : MlsGroupHandler c)
      (g : Group)
      → Map.get id h.groups ≡ some g
      → h' ≡ put_cell id cell h
      → f cell.1 ≡ f g
      → of_group c id f h' ≡ of_group c id f h
  of_group-kept {A} id f cell h h' g found changed same =
      ap (of_group c id f) changed
      ∙ of_group-put_cell id f cell h
      ∙ ap (λ a. ok a) same
      ∙ sym (of_group-some id f h g found)

  pub of_group-changed :
      {A : Type 0} (id : Text) (f : Group → A) (cell : Provider × Group) (h h' : MlsGroupHandler c)
      → h' ≡ put_cell id cell h
      → of_group c id f h' ≡ ok (f cell.1)
  of_group-changed id f cell h h' changed =
      ap (of_group c id f) changed ∙ of_group-put_cell id f cell h

  blocked :
      (e : Entropy) (id : Text) (kp : KeyPackage) (h : MlsGroupHandler c) (g : Group)
      → Map.get id h.groups ≡ some g
      → c.mls.pending_commit g ≡ true
      → add_member_deferred c e id kp h ≡ (h, err mls_pending_commit)
  unfolding add_member_deferred
  blocked e id kp h g found pending =
      in_group-same id (inviting c e kp h) h g mls_pending_commit found (rw pending refl)

  invite-ok :
      (kp : KeyPackage) (e : Entropy) (h : MlsGroupHandler c) (cell : Provider × Group)
      (r : AddMemberResult c)
      → ◌≡◌ {A = Result Error (AddMemberResult c)} (inviting c e kp h cell).1 (ok r)
      → (c.mls.pending_commit (inviting c e kp h cell).0.1 ≡ true)
        × (c.mls.epoch (inviting c e kp h cell).0.1 ≡ c.mls.epoch cell.1)
        × (c.mls.members (inviting c e kp h cell).0.1 ≡ c.mls.members cell.1)
  invite-ok kp e h cell r ran = elim (Bool-cases (c.mls.pending_commit cell.1)) [
    | inl waits ↦ absurd (ground (arith, rw waits at ran))
    | inr free ↦
        let sent = c.mls.add_members h.signature_keypair kp e cell in
        elim (Result-cases sent.1) [
          | inl (raw, accepted) ↦
              rw (free, accepted)
                (c.mls.add_members_ok h.signature_keypair kp e cell sent.0 raw
                  (ap (λ x. (sent.0, x)) accepted))
          | inr (x, failed) ↦ absurd (ground (arith, rw (free, failed) at ran))
        ]
  ]

  -- While an invitation waits the group's epoch and members are what they were, and no other member
  -- can be invited: the attempt is refused and changes nothing.
  pub add_member_deferred_lem :
      (e e' : Entropy) (id : Text) (kp kp' : KeyPackage) (h h' : MlsGroupHandler c)
      (r : AddMemberResult c)
      → add_member_deferred c e id kp h ≡ (h', ok r)
      → (has_pending_commit c id h' ≡ ok true)
        × (epoch c id h' ≡ epoch c id h)
        × (list_members c id h' ≡ list_members c id h)
        × (add_member_deferred c e' id kp' h' ≡ (h', err mls_pending_commit))
  unfolding add_member_deferred has_pending_commit epoch list_members
  add_member_deferred_lem e e' id kp kp' h h' r done =
      let (g, found, ran, changed) = in_group-ok id (inviting c e kp h) h h' r done in
      let cell = (inviting c e kp h (h.provider, g)).0 in
      let (pending, same_epoch, same_members) = invite-ok kp e h (h.provider, g) r ran in
      let there : Map.get id h'.groups ≡ some cell.1 =
        ap (λ k. Map.get id k.groups) changed ∙ Map.get-insert_self id cell.1 h.groups in
      (
        of_group-changed id c.mls.pending_commit cell h h' changed ∙ ap (λ b. ok b) pending,
        of_group-kept id c.mls.epoch cell h h' g found changed same_epoch,
        of_group-kept id (λ g. map (λ m. c.from_utf8_lossy m.1) (c.mls.members g)) cell h h' g found
            changed (ap (map (λ m. c.from_utf8_lossy m.1)) same_members),
        blocked e' id kp' h' cell.1 there pending,
      )

  pub cancel-ok :
      (id : Text) (cell : Provider × Group)
      → ◌≡◌ {A = Result Error (Unit {0})} (cancelling c id cell).1 (ok tt)
      → (c.mls.pending_commit (cancelling c id cell).0.1 ≡ false)
        × (c.mls.epoch (cancelling c id cell).0.1 ≡ c.mls.epoch cell.1)
        × (c.mls.members (cancelling c id cell).0.1 ≡ c.mls.members cell.1)
  cancel-ok id cell ran = elim (Bool-cases (c.mls.pending_commit cell.1)) [
    | inl waits ↦ rw waits (
        c.mls.clear_pending_commit_ok cell (c.mls.clear_pending_commit cell).0 (
          called-ok c.mls.clear_pending_commit
            (λ x. mls_commit (codes "Failed to clear pending commit: " ++ x)) cell tt
            (rw waits at ran)))
    | inr free ↦ absurd (ground (arith, rw free at ran))
  ]

  pub confirm-ok :
      (id : Text) (cell : Provider × Group)
      → ◌≡◌ {A = Result Error (Unit {0})} (confirming c id cell).1 (ok tt)
      → (c.mls.pending_commit (confirming c id cell).0.1 ≡ false)
        × (c.mls.epoch (confirming c id cell).0.1 ≡ suc (c.mls.epoch cell.1))
  confirm-ok id cell ran = elim (Bool-cases (c.mls.pending_commit cell.1)) [
    | inl waits ↦
        let (cleared, next) =
          c.mls.merge_pending_commit_ok cell (c.mls.merge_pending_commit cell).0 (
            called-ok c.mls.merge_pending_commit
              (λ x. mls_commit (codes "Failed to merge pending commit: " ++ x)) cell tt
              (rw waits at ran)) in
        rw waits (cleared, next waits)
    | inr free ↦ absurd (ground (arith, rw free at ran))
  ]

  -- An invitation that was sent and then cancelled leaves no trace: nothing waits, and the epoch
  -- and the members are those from before the invitation.
  pub cancel_add_member-add_member_deferred :
      (e : Entropy) (id : Text) (kp : KeyPackage) (h h' h'' : MlsGroupHandler c)
      (r : AddMemberResult c)
      → add_member_deferred c e id kp h ≡ (h', ok r)
      → cancel_add_member c id h' ≡ (h'', ok tt)
      → (has_pending_commit c id h'' ≡ ok false)
        × (epoch c id h'' ≡ epoch c id h)
        × (list_members c id h'' ≡ list_members c id h)
  unfolding cancel_add_member has_pending_commit epoch list_members
  cancel_add_member-add_member_deferred e id kp h h' h'' r invited cancelled =
      let (_, epoch_before, members_before, _) =
        add_member_deferred_lem e e id kp kp h h' r invited in
      let (g, found, ran, changed) = in_group-ok id (cancelling c id) h' h'' tt cancelled in
      let cell = (cancelling c id (h'.provider, g)).0 in
      let (cleared, same_epoch, same_members) = cancel-ok id (h'.provider, g) ran in
      (
        of_group-changed id c.mls.pending_commit cell h' h'' changed ∙ ap (λ b. ok b) cleared,
        of_group-kept id c.mls.epoch cell h' h'' g found changed same_epoch ∙ epoch_before,
        of_group-kept id (λ g. map (λ m. c.from_utf8_lossy m.1) (c.mls.members g)) cell h' h'' g
              found changed (ap (map (λ m. c.from_utf8_lossy m.1)) same_members)
            ∙ members_before,
      )
