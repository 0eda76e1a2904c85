-- ===== src/Identity/Username/Tests.antt =====
-- Two users and the names they take, with ASCII for Unicode.
use variance.Prelude.{
  Text, ◌++◌, ℕ, ◌+◌, ◌≡◌, refl, arith, [], ◌∷◌, ◌&&◌, none, some, ok, err, ◌⊎◌, list_eq, nat_eq,
  codes, leb, list_beq, map, if◌then◌else◌,
}
use variance.Prelude.Map
use variance.Identity.Errors.{Error, username_taken}
use variance.Identity.Username.{
  Unicode, UsernameRegistry, new_registry, register_local, cache_mapping, lookup_exact,
  get_username, get_display_name, format_username, compound_key, forget, put_mapping,
  validate_username, register_with_discriminator,
}
use variance.Identity.Username.Agreement.{Agrees, register-Agrees}
use variance.Identity.Username.Outcomes.{IsRegistered, register_local_lem}

abbrev ascii : Unicode
ascii = record {
  len_utf8 = λ c. 1;
  is_alphanumeric = λ c. leb 48 c && leb c 122;
  to_lowercase = map (λ c. if leb 65 c && leb c 90 then c + 32 else c);
}

abbrev alice : UsernameRegistry
alice = (register_local ascii new_registry (codes "Alice") (1 ∷ []) (λ i. 42)).0

displayed : get_display_name alice (1 ∷ []) ≡ some (codes "alice#0042")
unfolding get_display_name Map.get register_local validate_username Map.contains_key forget
    new_registry put_mapping Map.insert list_beq format_username
displayed = refl

-- The name of one user is cached for another; when the first one renames, the other's name is gone.
renaming_evicts :
    (lookup_exact ascii (cache_mapping ascii alice (codes "alice") 42 (2 ∷ [])) (codes "alice") 42
      ≡ some (2 ∷ []))
    × (lookup_exact ascii
          (register_local ascii
            (cache_mapping ascii alice (codes "alice") 42 (2 ∷ []))
            (codes "bob")
            (1 ∷ [])
            (λ i. 7)).0
          (codes "alice")
          42
        ≡ none)
unfolding lookup_exact Map.get cache_mapping put_mapping Map.insert forget register_local
    validate_username Map.contains_key new_registry list_beq compound_key Map.remove
renaming_evicts = (refl, refl)

register-Agrees_example :
    Agrees (register_local ascii new_registry (codes "Alice") (1 ∷ []) (λ i. 42)).0
    × Agrees (cache_mapping ascii new_registry (codes "Alice") 42 (1 ∷ []))
    × (Map.get (1 ∷ []) new_registry.reverse_cache ≡ none
        → Agrees (register_with_discriminator ascii new_registry (codes "Alice") 42 (1 ∷ [])).0)
unfolding new_registry Map.get
register-Agrees_example =
    register-Agrees ascii new_registry (codes "Alice") (1 ∷ []) 42 (λ i. 42)
      (λ key did e. absurd (ground arith))

register_local_lem_example :
    let after = register_local ascii new_registry (codes "Alice") (1 ∷ []) (λ i. 42) in
    ((validate_username ascii (codes "Alice") ≡ ok tt)
      × (((discriminator : ℕ) × (after.1 ≡ ok (codes "alice", discriminator))
            × IsRegistered after.0 (1 ∷ []) (codes "alice") discriminator)
          ⊎ ((reason : Text) × (after.1 ≡ err (username_taken (codes "alice" ++ reason)))
              × (get_username after.0 (1 ∷ []) ≡ none))))
    ⊎ ((e : Error) × (validate_username ascii (codes "Alice") ≡ err e)
        × (after.1 ≡ err e)
        × (after.0 ≡ new_registry))
register_local_lem_example =
    register_local_lem ascii new_registry (codes "Alice") (1 ∷ []) (λ i. 42)
