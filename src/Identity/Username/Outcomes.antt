-- ===== src/Identity/Username/Outcomes.antt =====
-- What a local registration leaves.
use variance.Prelude.{
  ℕ, ◌⊎◌, zero, suc, ◌≡◌, refl, Text, Option-cases, none, some, Bool-cases, inl, inr, Result-cases,
  ok, err, ◌++◌, list_eq, nat_eq,
}
use variance.Prelude.Map
use variance.Identity.Errors.{Error, username_taken}
use variance.Identity.Username.{
  UsernameRegistry, Unicode, compound_key, forget, put_mapping, try_discriminators,
  max_discriminator_attempts, register_local, validate_username, get_username,
}

-- The user has the name and the name leads to the user.
abbrev pub IsRegistered : UsernameRegistry → Text → Text → ℕ → Type 0
IsRegistered r did name discriminator =
    (get_username r did ≡ some (name, discriminator))
    × (Map.get (compound_key name discriminator) r.local_cache ≡ some did)

try-Outcome :
    (r : UsernameRegistry) (name did : Text) (attempts : ℕ) (draw : ℕ → ℕ)
    → let after = try_discriminators r name did attempts draw in
      (((discriminator : ℕ) × (after.1 ≡ some (name, discriminator))
          × IsRegistered after.0 did name discriminator)
        ⊎ ((after.1 ≡ none) × (after.0 ≡ r)))
unfolding try_discriminators get_username put_mapping
try-Outcome r name did zero draw = inr (refl, refl)
try-Outcome r name did (suc attempts) draw =
    elim (Bool-cases (Map.contains_key (compound_key name (draw 0)) r.local_cache)) [
      | inl taken ↦
          rw (taken, try_discriminators) (try-Outcome r name did attempts (λ i. draw (suc i)))
      | inr free ↦
          rw (free, try_discriminators)
            (inl (
              draw 0,
              refl,
              (
                Map.get-insert_self did (name, draw 0) r.reverse_cache,
                Map.get-insert_self (compound_key name (draw 0)) did r.local_cache,
              ),
            ))
    ]

-- A user who is forgotten has no name.
forget-get_username : (r : UsernameRegistry) (did : Text) → get_username (forget r did) did ≡ none
unfolding forget get_username
forget-get_username r did = elim (Option-cases (Map.get did r.reverse_cache)) [
  | inl e ↦ rw (e, forget) e
  | inr (p, e) ↦ rw (e, forget) (Map.get-remove_self did r.reverse_cache)
]

module _ (unicode : Unicode) where
  open unicode use {to_lowercase}

  -- A registration of a valid name either gives the user the name in lower case with some
  -- discriminator, or is refused as taken, and then the user has no name, not even an earlier one.
  -- An invalid name is refused for the reason that its validation gives, and changes nothing.
  pub register_local_lem :
      (r : UsernameRegistry) (username did : Text) (draw : ℕ → ℕ)
      → let after = register_local unicode r username did draw in
        ((validate_username unicode username ≡ ok tt)
          × (((discriminator : ℕ) × (after.1 ≡ ok (to_lowercase username, discriminator))
                × IsRegistered after.0 did (to_lowercase username) discriminator)
              ⊎ ((reason : Text) × (after.1
                    ≡ err (username_taken (to_lowercase username ++ reason)))
                  × (get_username after.0 did ≡ none))))
        ⊎ ((e : Error) × (validate_username unicode username ≡ err e)
            × (after.1 ≡ err e)
            × (after.0 ≡ r))
  unfolding register_local
  register_local_lem r username did draw =
      elim (Result-cases (validate_username unicode username)) [
        | inl (u, v) ↦
            elim (try-Outcome (forget r did) (to_lowercase username) did max_discriminator_attempts
              draw) [
                | inl (disc, e, f) ↦ rw (v, e, register_local) (inl (refl, inl (disc, refl, f)))
                | inr (e, f) ↦
                    rw (v, e, register_local)
                      (inl (refl, inr (_, refl, rw f (forget-get_username r did))))
              ]
        | inr (x, v) ↦ rw (v, register_local) (inr (x, refl, refl, refl))
      ]
