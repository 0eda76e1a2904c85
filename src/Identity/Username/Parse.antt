-- ===== src/Identity/Username/Parse.antt =====
-- crates/variance-identity/src/username.rs: the names that are read back.
pub mod Format
use variance.Prelude.{
  ℕ, ◌+◌, ◌*◌, ◌-◌, ◌^◌, ◌≡◌, refl, Text, List, [], ◌∷◌, ◌++◌, Option, none, some, Bool, true,
  false, ◌&&◌, eqb, ltb, leb, is_empty, codes, if◌then◌else◌, list_eq, nat_eq,
}
use variance.Prelude.Map.{Map}
use variance.Messaging.Storage.Keys.{read_digits, strip_prefix}
use variance.Identity.Username.{UsernameRegistry, min_discriminator, max_discriminator}

-- `rsplit_once('#')`.
unfoldable pub rsplit_hash : Text → Option (Text × Text)
rsplit_hash [] = none
rsplit_hash (c ∷ cs) = elim (rsplit_hash cs) [
  | some (before, after) ↦ some (c ∷ before, after)
  | none ↦ if eqb c 35 then some ([], cs) else none
]

unfoldable pub read_u32 : Text → Option ℕ
read_u32 s =
    if is_empty s
    then none
    else elim (read_digits 0 s) [ none ↦ none | some n ↦ if ltb n (2 ^ 32) then some n else none ]

-- `str::parse::<u32>`.
unfoldable pub parse_u32 : Text → Option ℕ
unfolding read_u32
parse_u32 [] = none
parse_u32 (c ∷ cs) = if eqb c 43 then read_u32 cs else read_u32 (c ∷ cs)

-- `strip_prefix('@').unwrap_or(formatted)`.
unfoldable pub without_at : Text → Text
without_at [] = []
without_at (c ∷ cs) = if eqb c 64 then cs else c ∷ cs

unfoldable pub parse_username : Text → Option (Text × ℕ)
unfolding without_at
parse_username formatted = elim (rsplit_hash (without_at formatted)) [
  | none ↦ none
  | some (name, digits) ↦ elim (parse_u32 digits) [
    | none ↦ none
    | some disc ↦
        if leb min_discriminator disc && leb disc max_discriminator then some (name, disc) else none
  ]
]

-- The discriminators of a name, and whom each leads to; the order is not the program's, which has none.
unfoldable pub lookup_loop : Text → Map Text Text → List (ℕ × Text)
lookup_loop prefix [] = []
lookup_loop prefix ((key, did) ∷ m) =
    let rest = lookup_loop prefix m in
    elim (strip_prefix prefix key) [
      | none ↦ rest
      | some digits ↦ elim (parse_u32 digits) [ none ↦ rest | some disc ↦ (disc, did) ∷ rest ]
    ]

unfoldable pub lookup_all : (Text → Text) → UsernameRegistry → Text → List (ℕ × Text)
unfolding lookup_loop
lookup_all to_lowercase r username = lookup_loop (to_lowercase username ++ codes "#") r.local_cache
