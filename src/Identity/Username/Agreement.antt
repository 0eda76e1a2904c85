-- ===== src/Identity/Username/Agreement.antt =====
-- The two maps of the registry agree.
use variance.Prelude.{
  ℕ, zero, suc, ◌≡◌, ◌≢◌, refl, ap, Text, Option-cases, none, some, Bool-cases, inl, inr, arith,
  Result-cases, list_eq, nat_eq, list_beq_iff, eq→≡, ◌==◌,
}
use variance.Prelude.Map
use variance.Prelude.Map.{Map}
use variance.Identity.Username.{
  UsernameRegistry, Unicode, compound_key, forget, put_mapping, try_discriminators, cache_or_refuse,
  max_discriminator_attempts, register_local, register_with_discriminator, cache_mapping,
  validate_username,
}

-- Whom a name leads to has that name.
abbrev pub Agrees : UsernameRegistry → Type 0
Agrees r =
    (key did : Text)
    → Map.get key r.local_cache ≡ some did
    → ((name : Text) × (discriminator : ℕ) × (Map.get did r.reverse_cache
          ≡ some (name, discriminator))
        × (compound_key name discriminator ≡ key))

-- No name leads to a user.
abbrev pub IsNameless : UsernameRegistry → Text → Type 0
IsNameless r did = (key : Text) → Map.get key r.local_cache ≢ some did

IsNameless-of_absent :
    (r : UsernameRegistry) (did : Text)
    → Agrees r
    → Map.get did r.reverse_cache ≡ none
    → IsNameless r did
IsNameless-of_absent r did h absent key e = let (name, disc, found, _) = h key did e in ground arith

same_key :
    (did other name : Text) (disc : ℕ) (name' : Text) (disc' : ℕ) (m : Map Text (Text × ℕ))
    → Map.get did m ≡ some (name, disc)
    → Map.get other m ≡ some (name', disc')
    → did ≡ other
    → compound_key name disc ≡ compound_key name' disc'
same_key did other name disc name' disc' m e f same =
    let g : ◌≡◌ {A = Text × ℕ} (name, disc) (name', disc') = ground arith in
    ap (λ p. compound_key p.0 p.1) g

pub forget-Agrees :
    (r : UsernameRegistry) (did : Text)
    → Agrees r
    → Agrees (forget r did) × IsNameless (forget r did) did
unfolding forget
forget-Agrees r did h = elim (Option-cases (Map.get did r.reverse_cache)) [
  | inl e ↦ rw (e, forget) (h, IsNameless-of_absent r did h e)
  | inr ((name, disc), e) ↦
      rw (e, forget)
        (
          λ key other f.
              let old : Map.get key r.local_cache ≡ some other =
                ground (arith, Map.get-remove (compound_key name disc) key r.local_cache) in
              let (name', disc', found, keyed) = h key other old in
              let kept : Map.get other (Map.remove did r.reverse_cache) ≡ some (name', disc') =
                elim (Bool-cases (did == other)) [
                  | inl same ↦ absurd (
                      ground (
                        arith,
                        same_key did other name disc name' disc' r.reverse_cache e found
                            (eq→≡ did other same),
                        list_beq_iff (compound_key name disc) key,
                        Map.get-remove (compound_key name disc) key r.local_cache,
                      ))
                  | inr differs ↦ rw (Map.get-remove did other r.reverse_cache, differs) found
                ] in
              (name', disc', kept, keyed),
          λ key f.
              let old : Map.get key r.local_cache ≡ some did =
                ground (arith, Map.get-remove (compound_key name disc) key r.local_cache) in
              let (name', disc', found, keyed) = h key did old in
              ground (
                arith,
                same_key did did name disc name' disc' r.reverse_cache e found refl,
                list_beq_iff (compound_key name disc) key,
                Map.get-remove (compound_key name disc) key r.local_cache,
              ),
        )
]

pub put_mapping-Agrees :
    (r : UsernameRegistry) (name : Text) (disc : ℕ) (did : Text)
    → Agrees r
    → IsNameless r did
    → Agrees (put_mapping r name disc did)
unfolding put_mapping
put_mapping-Agrees r name disc did h nameless key other f =
    elim (Bool-cases (compound_key name disc == key)) [
      | inl same ↦
          let whom : did ≡ other =
            ground (arith, Map.get-insert (compound_key name disc) key did r.local_cache) in
          (
            name,
            disc,
            rw (← whom) (Map.get-insert_self did (name, disc) r.reverse_cache),
            eq→≡ (compound_key name disc) key same,
          )
      | inr new ↦
          let old : Map.get key r.local_cache ≡ some other =
            ground (arith, Map.get-insert (compound_key name disc) key did r.local_cache) in
          let (name', disc', found, keyed) = h key other old in
          let differs : did ≢ other = λ e. nameless key (rw e old) in
          (
            name',
            disc',
            rw (Map.get-insert_ne did other (name, disc) r.reverse_cache differs) found,
            keyed,
          )
    ]

pub try-Agrees :
    (r : UsernameRegistry) (name did : Text) (attempts : ℕ) (draw : ℕ → ℕ)
    → Agrees r
    → IsNameless r did
    → Agrees (try_discriminators r name did attempts draw).0
unfolding try_discriminators
try-Agrees r name did zero draw h nameless = h
try-Agrees r name did (suc attempts) draw h nameless =
    elim (Bool-cases (Map.contains_key (compound_key name (draw 0)) r.local_cache)) [
      | inl taken ↦
          rw (taken, try_discriminators)
            (try-Agrees r name did attempts (λ i. draw (suc i)) h nameless)
      | inr free ↦ rw (free, try_discriminators) (put_mapping-Agrees r name (draw 0) did h nameless)
    ]

module _ (unicode : Unicode) where
  open unicode use {to_lowercase}

  register_local-Agrees :
      (r : UsernameRegistry) (username did : Text) (draw : ℕ → ℕ)
      → Agrees r
      → Agrees (register_local unicode r username did draw).0
  unfolding register_local
  register_local-Agrees r username did draw h =
      elim (Result-cases (validate_username unicode username)) [
        | inl (u, e) ↦
            rw (e, register_local)
              (let (agrees, nameless) = forget-Agrees r did h in
                try-Agrees (forget r did) (to_lowercase username) did max_discriminator_attempts
                  draw agrees nameless)
        | inr (x, e) ↦ rw (e, register_local) h
      ]

  -- Whom a name leads to has that name, after a local registration and after a name from the
  -- network is cached, if it was so before; after a registration with a given discriminator too, if
  -- the user had no name.
  pub register-Agrees :
      (r : UsernameRegistry) (username did : Text) (discriminator : ℕ) (draw : ℕ → ℕ)
      → Agrees r
      → Agrees (register_local unicode r username did draw).0
        × Agrees (cache_mapping unicode r username discriminator did)
        × (Map.get did r.reverse_cache ≡ none
            → Agrees (register_with_discriminator unicode r username discriminator did).0)
  unfolding cache_mapping register_with_discriminator cache_or_refuse
  register-Agrees r username did discriminator draw h =
      let (agrees, nameless) = forget-Agrees r did h in
      (
        register_local-Agrees r username did draw h,
        put_mapping-Agrees (forget r did) (to_lowercase username) discriminator did agrees nameless,
        λ absent.
            elim (Bool-cases (
              Map.contains_key (compound_key (to_lowercase username) discriminator)
                r.local_cache)) [
                  | inl taken ↦ rw (taken, register_with_discriminator) h
                  | inr free ↦
                      rw (free, register_with_discriminator)
                        (put_mapping-Agrees r (to_lowercase username) discriminator did h
                          (IsNameless-of_absent r did h absent))
                ],
      )
