-- ===== src/Messaging/Groups/Tests.antt =====
-- A user in two groups.
use variance.Prelude.{
  ℕ, ◌≡◌, refl, Text, List, [], ◌∷◌, none, Bool, true, false, ok, err, list_beq, list_eq, nat_eq,
}
use variance.Prelude.Map
use variance.Prelude.Map.{Map}
use variance.Messaging.Errors.{mls_pending_commit}
use variance.Messaging.Groups.{
  MlsGroupHandler, AddMemberResult, in_group, add_member_deferred, confirm_add_member,
  cancel_add_member, has_pending_commit,
}
use variance.Messaging.Groups.Membership.{list_members, epoch}
use variance.Messaging.Groups.Desync.{is_desynced, clear_desync}
use variance.Messaging.Groups.DesyncRuns.{has_three, process_outcomes, info, process_outcomes_lem}
use variance.Messaging.Groups.Invites.{
  add_member_deferred_lem, cancel_add_member-add_member_deferred,
}
use variance.Messaging.Groups.Recovery.{ReinitResult, reinitialize_group}
use variance.Messaging.Groups.Isolation.{run, add, encrypt, run-others}
use variance.Messaging.Groups.Sample.{toy_crate, toy_encodings}

abbrev Handler : Type 0
Handler = MlsGroupHandler toy_crate

abbrev user : Handler
user = record {
  local_did = 7 ∷ [];
  provider = [];
  signature_keypair = 7;
  credential_with_key = 7 ∷ [];
  groups =
      (1 ∷ [], (1 ∷ [], 4, none, (0, 7 ∷ []) ∷ (1, 8 ∷ []) ∷ []))
      ∷ (2 ∷ [], (2 ∷ [], 5, none, (0, 7 ∷ []) ∷ []))
      ∷ [];
  storage_key = 7;
  desync_counters = [];
}

abbrev invited : Handler
invited = (add_member_deferred toy_crate 0 (1 ∷ []) 9 user).0

abbrev sent : AddMemberResult toy_crate
sent = record { commit = 7 ∷ []; welcome = 9 ∷ []; group_info = none }

inviting_9 : add_member_deferred toy_crate 0 (1 ∷ []) 9 user ≡ (invited, ok sent)
unfolding add_member_deferred in_group Map.get Map.insert list_beq
inviting_9 = refl

abbrev cancelled : Handler
cancelled = (cancel_add_member toy_crate (1 ∷ []) invited).0

cancelling_9 : cancel_add_member toy_crate (1 ∷ []) invited ≡ (cancelled, ok tt)
unfolding add_member_deferred cancel_add_member in_group Map.get Map.insert list_beq
cancelling_9 = refl

abbrev confirmed : Handler
confirmed = (confirm_add_member toy_crate (1 ∷ []) invited).0

confirming_9 : confirm_add_member toy_crate (1 ∷ []) invited ≡ (confirmed, ok tt)
unfolding add_member_deferred confirm_add_member in_group Map.get Map.insert list_beq
confirming_9 = refl

add_member_deferred_lem_example :
    (has_pending_commit toy_crate (1 ∷ []) invited ≡ ok true)
    × (epoch toy_crate (1 ∷ []) invited ≡ epoch toy_crate (1 ∷ []) user)
    × (list_members toy_crate (1 ∷ []) invited ≡ list_members toy_crate (1 ∷ []) user)
    × (add_member_deferred toy_crate 1 (1 ∷ []) 10 invited ≡ (invited, err mls_pending_commit))
add_member_deferred_lem_example =
    add_member_deferred_lem toy_crate 0 1 (1 ∷ []) 9 10 user invited sent inviting_9

cancel_add_member-add_member_deferred_example :
    (has_pending_commit toy_crate (1 ∷ []) cancelled ≡ ok false)
    × (epoch toy_crate (1 ∷ []) cancelled ≡ epoch toy_crate (1 ∷ []) user)
    × (list_members toy_crate (1 ∷ []) cancelled ≡ list_members toy_crate (1 ∷ []) user)
cancel_add_member-add_member_deferred_example =
    cancel_add_member-add_member_deferred toy_crate 0 (1 ∷ []) 9 user invited cancelled sent
      inviting_9 cancelling_9

run-others_example :
    (Map.get
        (2 ∷ [])
        (run toy_crate ((1 ∷ [], add 0 9) ∷ (1 ∷ [], encrypt 0 (3 ∷ [])) ∷ []) user).groups
      ≡ Map.get (2 ∷ []) user.groups)
    × ((run toy_crate ((1 ∷ [], add 0 9) ∷ (1 ∷ [], encrypt 0 (3 ∷ [])) ∷ []) user).local_did
        ≡ user.local_did)
    × ((run toy_crate ((1 ∷ [], add 0 9) ∷ (1 ∷ [], encrypt 0 (3 ∷ [])) ∷ []) user).desync_counters
        ≡ user.desync_counters)
unfolding list_beq
run-others_example =
    run-others toy_crate ((1 ∷ [], add 0 9) ∷ (1 ∷ [], encrypt 0 (3 ∷ [])) ∷ []) user (2 ∷ []) refl

abbrev outcomes : List Bool
outcomes = false ∷ true ∷ false ∷ false ∷ false ∷ true ∷ []

process_outcomes_lem_example :
    (is_desynced toy_crate
        (1 ∷ [])
        (process_outcomes toy_crate (1 ∷ []) outcomes (clear_desync toy_crate (1 ∷ []) user)).0
      ≡ true)
    × ((process_outcomes toy_crate (1 ∷ []) outcomes (clear_desync toy_crate (1 ∷ []) user)).1
        ≡ info toy_crate (1 ∷ []) (clear_desync toy_crate (1 ∷ []) user) 3 ∷ [])
unfolding has_three
process_outcomes_lem_example = process_outcomes_lem toy_crate (1 ∷ []) outcomes user

-- The group of two is made anew, with a key package of the other member.
abbrev draws : Text → ℕ
draws did = 0

abbrev packages : Map Text ℕ
packages = (8 ∷ [], 8) ∷ []

abbrev anew : Handler
anew = (reinitialize_group toy_crate toy_encodings draws (1 ∷ []) packages user).0

abbrev result : ReinitResult toy_crate toy_encodings
result = record {
  new_group_id = 1 ∷ 45 ∷ 114 ∷ 101 ∷ 105 ∷ 110 ∷ 105 ∷ 116 ∷ 45 ∷ 4 ∷ [];
  welcomes = (8 ∷ [], 8 ∷ []) ∷ [];
  members = (7 ∷ []) ∷ (8 ∷ []) ∷ [];
}
