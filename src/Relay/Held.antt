-- ===== src/Relay/Held.antt =====
-- The reservations that all peers hold, where no peer stands twice in the map.
use variance.Prelude.{
  ℕ, ◌+◌, ◌-◌, ◌≡◌, ◌≤◌, refl, Text, [], ◌∷◌, none, some, arith, list_eq, nat_eq, list_beq_iff, eqb,
  Option-cases, inl, inr, if◌then◌else◌,
}
use variance.Prelude.Map
use variance.Prelude.Map.{Map}
use variance.Relay.{reservations_of, release}

-- The sum of all peers' reservations.
unfoldable pub held : Map Text ℕ → ℕ
held [] = 0
held ((peer, count) ∷ m) = count + held m

-- No peer stands twice.
abbrev pub AreUnique : Map Text ℕ → Type 0
AreUnique [] = Unit
AreUnique ((peer, count) ∷ m) = (Map.get peer m ≡ none) × AreUnique m

pub insert-AreUnique :
    (peer : Text) (n : ℕ) (m : Map Text ℕ) → AreUnique m → AreUnique (Map.insert peer n m)
unfolding Map.insert Map.get
insert-AreUnique peer n [] h = ground arith
insert-AreUnique peer n ((p, c) ∷ m) h = ground (
  arith,
  list_beq_iff p peer,
  list_beq_iff peer p,
  Map.get-insert peer p n m,
  insert-AreUnique peer n m h.1,
)

pub remove-AreUnique : (peer : Text) (m : Map Text ℕ) → AreUnique m → AreUnique (Map.remove peer m)
unfolding Map.remove
remove-AreUnique peer [] h = tt
remove-AreUnique peer ((p, c) ∷ m) h =
    ground (arith, list_beq_iff p peer, Map.get-remove peer p m, remove-AreUnique peer m h.1)

pub held-insert :
    (peer : Text) (n : ℕ) (m : Map Text ℕ)
    → held (Map.insert peer n m) + reservations_of peer m ≡ held m + n
unfolding held Map.insert reservations_of Map.get
held-insert peer n [] = omega arith
held-insert peer n ((p, c) ∷ m) = ground (arith, held-insert peer n m)

remove-absent :
    (peer : Text) (m : Map Text ℕ) → Map.get peer m ≡ none → held (Map.remove peer m) ≡ held m
unfolding held Map.remove Map.get
remove-absent peer [] h = refl
remove-absent peer ((p, c) ∷ m) h = ground (arith, remove-absent peer m)

pub held-remove :
    (peer : Text) (m : Map Text ℕ)
    → AreUnique m
    → held (Map.remove peer m) + reservations_of peer m ≡ held m
unfolding held Map.remove reservations_of Map.get
held-remove peer [] h = refl
held-remove peer ((p, c) ∷ m) h =
    ground (arith, held-remove peer m h.1, list_beq_iff p peer, remove-absent peer m)

pub reservations_of-le_held : (peer : Text) (m : Map Text ℕ) → reservations_of peer m ≤ held m
unfolding held reservations_of Map.get
reservations_of-le_held peer [] = omega arith
reservations_of-le_held peer ((p, c) ∷ m) = ground (arith, reservations_of-le_held peer m)

pub release-AreUnique : (peer : Text) (m : Map Text ℕ) → AreUnique m → AreUnique (release peer m)
unfolding release
release-AreUnique peer m h = elim (Option-cases (Map.get peer m)) [
  | inl e ↦ rw (e, release) h
  | inr (count, e) ↦
      rw (e, release)
        (ground (
          arith,
          insert-AreUnique peer (count - 1) m h,
          remove-AreUnique peer (Map.insert peer (count - 1) m),
        ))
]

pub reservations_of_lem :
    (peer : Text) (m : Map Text ℕ)
    → ((Map.get peer m ≡ none) → reservations_of peer m ≡ 0)
      × ((n : ℕ) → Map.get peer m ≡ some n → reservations_of peer m ≡ n)
unfolding reservations_of
reservations_of_lem peer m = (λ e. rw (e, reservations_of), λ n e. rw (e, reservations_of))

pub held-release :
    (peer : Text) (m : Map Text ℕ)
    → AreUnique m
    → held (release peer m) ≡ held m - (if eqb (reservations_of peer m) 0 then 0 else 1)
unfolding release
held-release peer m h = elim (Option-cases (Map.get peer m)) [
  | inl e ↦ rw (e, release) (ground (arith, (reservations_of_lem peer m).0 e))
  | inr (n, e) ↦
      rw (e, release)
        (ground (
          arith,
          (reservations_of_lem peer m).1 n e,
          reservations_of-le_held peer m,
          held-insert peer (n - 1) m,
          held-remove peer (Map.insert peer (n - 1) m) (insert-AreUnique peer (n - 1) m h),
          (reservations_of_lem peer (Map.insert peer (n - 1) m)).1 (n - 1)
              (Map.get-insert_self peer (n - 1) m),
        ))
]
