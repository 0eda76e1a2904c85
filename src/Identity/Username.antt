-- ===== src/Identity/Username.antt =====
-- crates/variance-identity/src/username.rs: the registry of user names. A text is the list of its
-- code points. Unicode's tables and the random discriminators are arguments.
mod Decimal
pub mod Agreement
pub mod Outcomes
pub mod Parse
mod Tests
use variance.Prelude.{
  ℕ, zero, suc, ◌+◌, ◌-◌, ◌/◌, ◌%◌, Text, List, [], ◌∷◌, ◌++◌, Option, none, some, Bool, true,
  false, not, ◌||◌, Result, ok, err, ◌>>◌, ensure, eqb, ltb, leb, length, replicate, all_of,
  is_empty, codes, if◌then◌else◌, list_eq, nat_eq,
}
use variance.Prelude.Map
use variance.Prelude.Map.{Map}
use variance.Identity.Errors.{Error, invalid_did, username_taken}

abbrev pub max_discriminator : ℕ
max_discriminator = 9999

abbrev pub min_discriminator : ℕ
min_discriminator = 1

abbrev pub min_username_length : ℕ
min_username_length = 3

abbrev pub max_username_length : ℕ
max_username_length = 32

abbrev pub max_discriminator_attempts : ℕ
max_discriminator_attempts = 100

pub record UsernameRegistry : Type 0 where
  pub local_cache : Map Text Text
  pub reverse_cache : Map Text (Text × ℕ)

unfoldable pub new_registry : UsernameRegistry
new_registry = record { local_cache = []; reverse_cache = [] }

-- The decimal digits of a number of at most `fuel + 1` digits; a `u32` has at most ten.
unfoldable pub decimal : ℕ → ℕ → Text
decimal zero n = (48 + n % 10) ∷ []
decimal (suc fuel) n =
    let front = decimal fuel (n / 10) in
    if ltb n 10 then (48 + n) ∷ [] else front ++ (48 + n % 10) ∷ []

-- `format!("{name}#{discriminator}")`.
unfoldable pub compound_key : Text → ℕ → Text
unfolding decimal
compound_key name discriminator = name ++ (codes "#" ++ decimal 9 discriminator)

-- `{:04}`.
unfoldable pub pad4 : Text → Text
pad4 s = replicate (4 - length s) 48 ++ s

unfoldable pub format_username : Text → ℕ → Text
unfolding pad4 decimal
format_username name discriminator = name ++ (codes "#" ++ pad4 (decimal 9 discriminator))

-- What the standard library knows of characters: `str::len` of a character, `char::is_alphanumeric`
-- and `str::to_lowercase`.
pub record Unicode : Type 0 where
  pub len_utf8 : ℕ → ℕ
  pub is_alphanumeric : ℕ → Bool
  pub to_lowercase : Text → Text

-- A name's entry and the key that it has in the local cache.
unfoldable pub forget : UsernameRegistry → Text → UsernameRegistry
forget r did = elim (Map.get did r.reverse_cache) [
  | none ↦ r
  | some (old_name, old_disc) ↦ record {
    local_cache = Map.remove (compound_key old_name old_disc) r.local_cache;
    reverse_cache = Map.remove did r.reverse_cache;
  }
]

unfoldable pub put_mapping : UsernameRegistry → Text → ℕ → Text → UsernameRegistry
put_mapping r name discriminator did = record {
  local_cache = Map.insert (compound_key name discriminator) did r.local_cache;
  reverse_cache = Map.insert did (name, discriminator) r.reverse_cache;
}

-- The loop of `register_local` over the attempts that are left, with the numbers that are drawn.
unfoldable pub try_discriminators :
    UsernameRegistry → Text → Text → ℕ → (ℕ → ℕ) → UsernameRegistry × Option (Text × ℕ)
try_discriminators r name did zero draw = (r, none)
try_discriminators r name did (suc attempts) draw =
    let rest = try_discriminators r name did attempts (λ i. draw (suc i)) in
    if Map.contains_key (compound_key name (draw 0)) r.local_cache
    then rest
    else (put_mapping r name (draw 0) did, some (name, draw 0))

unfoldable pub cache_or_refuse :
    UsernameRegistry → Text → ℕ → Text → UsernameRegistry × Result Error (Unit {0})
cache_or_refuse r name discriminator did =
    if Map.contains_key (compound_key name discriminator) r.local_cache
    then (r, err (username_taken (compound_key name discriminator)))
    else (put_mapping r name discriminator did, ok tt)

unfoldable pub get_username : UsernameRegistry → Text → Option (Text × ℕ)
get_username r did = Map.get did r.reverse_cache

unfoldable pub get_display_name : UsernameRegistry → Text → Option Text
get_display_name r did = elim (Map.get did r.reverse_cache) [
  | none ↦ none
  | some (name, discriminator) ↦ some (format_username name discriminator)
]

module _ (unicode : Unicode) where
  open unicode use {len_utf8, is_alphanumeric, to_lowercase}

  -- `str::len`, in bytes.
  unfoldable pub len : Text → ℕ
  len [] = 0
  len (c ∷ cs) = len_utf8 c + len cs

  unfoldable pub is_name_char : ℕ → Bool
  is_name_char c = is_alphanumeric c || (eqb c 95 || eqb c 45)

  unfoldable pub starts_alphanumeric : Text → Bool
  starts_alphanumeric [] = false
  starts_alphanumeric (c ∷ cs) = is_alphanumeric c

  unfoldable pub validate_username : Text → Result Error (Unit {0})
  unfolding len is_name_char starts_alphanumeric
  validate_username username =
      ensure (not (is_empty username)) (invalid_did (codes "Username cannot be empty"))
      >> (ensure (leb min_username_length (len username))
            (invalid_did (codes "Username too short (min 3 chars)"))
          >> (ensure (leb (len username) max_username_length)
                (invalid_did (codes "Username too long (max 32 chars)"))
              >> (ensure (all_of is_name_char username)
                    (invalid_did (codes "Username must be alphanumeric with underscores/hyphens"))
                  >> ensure (starts_alphanumeric username)
                      (invalid_did (codes "Username must start with alphanumeric character")))))

  unfoldable pub register_local :
      UsernameRegistry → Text → Text → (ℕ → ℕ) → UsernameRegistry × Result Error (Text × ℕ)
  unfolding try_discriminators
  register_local r username did draw = elim (validate_username username) [
    | err e ↦ (r, err e)
    | ok _ ↦
        let name = to_lowercase username in
        let (r', found) =
          try_discriminators (forget r did) name did max_discriminator_attempts draw in
        (
          r',
          elim found [
            | some given ↦ ok given
            | none ↦
                err (
                  username_taken
                    (name ++ codes " (no available discriminators after 100 attempts)"))
          ],
        )
  ]

  unfoldable pub register_with_discriminator :
      UsernameRegistry → Text → ℕ → Text → UsernameRegistry × Result Error (Unit {0})
  unfolding cache_or_refuse
  register_with_discriminator r username discriminator did =
      cache_or_refuse r (to_lowercase username) discriminator did

  unfoldable pub lookup_exact : UsernameRegistry → Text → ℕ → Option Text
  lookup_exact r username discriminator =
      Map.get (compound_key (to_lowercase username) discriminator) r.local_cache

  unfoldable pub cache_mapping : UsernameRegistry → Text → ℕ → Text → UsernameRegistry
  cache_mapping r username discriminator did =
      put_mapping (forget r did) (to_lowercase username) discriminator did
