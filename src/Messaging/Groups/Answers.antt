-- ===== src/Messaging/Groups/Answers.antt =====
-- crates/variance-messaging/src/mls.rs: the answers to an invitation, and those to none.
use variance.Prelude.{
  ℕ, suc, Text, some, false, Result, ok, err, ◌≡◌, refl, sym, ap, ◌∙◌, arith, Option-cases, inl,
  inr, list_eq, nat_eq,
}
use variance.Prelude.Map
use variance.Messaging.Errors.{Error, mls_no_pending_commit}
use variance.Messaging.Groups.{
  Crate, MlsGroupHandler, AddMemberResult, of_group, confirming, cancelling, add_member_deferred,
  confirm_add_member, cancel_add_member, has_pending_commit,
}
use variance.Messaging.Groups.Membership.{epoch}
use variance.Messaging.Groups.Invites.{
  in_group-same, in_group-ok, of_group-changed, of_group-some, confirm-ok, add_member_deferred_lem,
}

module _ {SigningKey : Type 0} (c : Crate SigningKey) where
  open c.mls use {Provider, Group, KeyPackage, Entropy}

  -- An invitation that was sent and then accepted begins the next epoch, and nothing waits.
  pub confirm_add_member-add_member_deferred :
      (e : Entropy) (id : Text) (kp : KeyPackage) (h h' h'' : MlsGroupHandler c)
      (r : AddMemberResult c)
      → add_member_deferred c e id kp h ≡ (h', ok r)
      → confirm_add_member c id h' ≡ (h'', ok tt)
      → (has_pending_commit c id h'' ≡ ok false)
        × ((n : ℕ) × (epoch c id h ≡ ok n) × (epoch c id h'' ≡ ok (suc n)))
  unfolding confirm_add_member has_pending_commit epoch
  confirm_add_member-add_member_deferred e id kp h h' h'' r invited confirmed =
      let (_, epoch_before, _, _) = add_member_deferred_lem c e e id kp kp h h' r invited in
      let (g, found, ran, changed) = in_group-ok c id (confirming c id) h' h'' tt confirmed in
      let cell = (confirming c id (h'.provider, g)).0 in
      let (cleared, next) = confirm-ok c id (h'.provider, g) ran in
      (
        of_group-changed c id c.mls.pending_commit cell h' h'' changed ∙ ap (λ b. ok b) cleared,
        (
          c.mls.epoch g,
          sym epoch_before ∙ of_group-some c id c.mls.epoch h' g found,
          of_group-changed c id c.mls.epoch cell h' h'' changed ∙ ap (λ n. ok n) next,
        ),
      )

  -- A group of which something is known is there.
  of_group-ok :
      {A : Type 0} (id : Text) (f : Group → A) (h : MlsGroupHandler c) (a : A)
      → of_group c id f h ≡ ok a
      → (g : Group) × (Map.get id h.groups ≡ some g) × (f g ≡ a)
  unfolding of_group
  of_group-ok {A} id f h a e = elim (Option-cases (Map.get id h.groups)) [
    | inl absent ↦ absurd (ground (arith, rw (of_group, absent) at e))
    | inr (g, found) ↦ (g, found, ok_equal (rw (of_group, found) at e))
  ]
    where
      ok_equal : {x y : A} → ◌≡◌ {A = Result Error A} (ok x) (ok y) → x ≡ y
      ok_equal e = cc

  -- Where no invitation waits, an answer to one is refused and changes nothing, so that an answer
  -- that comes twice does nothing the second time.
  pub answers-refused :
      (id : Text) (h : MlsGroupHandler c)
      → has_pending_commit c id h ≡ ok false
      → (confirm_add_member c id h ≡ (h, err (mls_no_pending_commit id)))
        × (cancel_add_member c id h ≡ (h, err (mls_no_pending_commit id)))
  unfolding has_pending_commit confirm_add_member cancel_add_member
  answers-refused id h free =
      let (g, found, none_waits) = of_group-ok id c.mls.pending_commit h false free in
      (
        in_group-same c id (confirming c id) h g (mls_no_pending_commit id) found
            (rw none_waits refl),
        in_group-same c id (cancelling c id) h g (mls_no_pending_commit id) found
            (rw none_waits refl),
      )
