-- ===== src/Prelude/Map.antt =====
-- Hash maps (`HashMap`, `DashMap`) as association lists, read through `get`.
use mathlib.Core.Path.{◌≡◌, refl, subst₂}
use mathlib.Core.Logic.{◌≢◌, ◌↔◌, inl, inr}
use mathlib.Core.Bool.{Bool, true, false}
use mathlib.Core.List.{List, [], ◌∷◌}
use mathlib.Core.Option.{Option, none, some}
use native.Mathlib.Omega.{arith}
use variance.Prelude.Tests.{if◌then◌else◌, Bool-cases}
use variance.Prelude.Eq.{Eq, ◌==◌, eq_self, eq→≡, eq_ne}

abbrev pub Map {ℓ κ} : Type ℓ → Type κ → Type (ℓ ⊔ κ)
Map K V = List (K × V)

module _ {ℓ κ} {K : Type ℓ} {V : Type κ} ⦃e : Eq K⦄ where
  unfoldable pub get : K → Map K V → Option V
  get k [] = none
  get k ((j, v) ∷ m) = if j == k then some v else get k m

  -- An entry of the key is replaced.
  unfoldable pub insert : K → V → Map K V → Map K V
  insert k v [] = (k, v) ∷ []
  insert k v ((j, w) ∷ m) = if j == k then (k, v) ∷ m else (j, w) ∷ insert k v m

  unfoldable pub remove : K → Map K V → Map K V
  remove k [] = []
  remove k ((j, w) ∷ m) = if j == k then remove k m else (j, w) ∷ remove k m

  unfoldable pub contains_key : K → Map K V → Bool
  contains_key k m = elim (get k m) [ none ↦ false | some _ ↦ true ]

  pub get-insert :
      (k j : K) (v : V) (m : Map K V) → get j (insert k v m) ≡ (if k == j then some v else get j m)
  unfolding get insert
  get-insert k j v [] = refl
  get-insert k j v ((i, w) ∷ m) =
      ground (arith, e.beq_iff k j, e.beq_iff i k, e.beq_iff i j, get-insert k j v m)

  pub get-remove : (k j : K) (m : Map K V) → get j (remove k m) ≡ (if k == j then none else get j m)
  unfolding get remove
  get-remove k j [] = ground arith
  get-remove k j ((i, w) ∷ m) =
      ground (arith, e.beq_iff k j, e.beq_iff i k, e.beq_iff i j, get-remove k j m)

  -- An entry that is inserted again.
  pub insert-get : (k : K) (v : V) (m : Map K V) → get k m ≡ some v → insert k v m ≡ m
  unfolding get insert
  insert-get k v [] found = cc
  insert-get k v ((j, w) ∷ m) found = ground (arith, e.beq_iff j k, insert-get k v m)

  pub get-insert_self : (k : K) (v : V) (m : Map K V) → get k (insert k v m) ≡ some v
  get-insert_self k v m = rw (get-insert k k v m, eq_self k)

  pub get-insert_ne : (k j : K) (v : V) (m : Map K V) → k ≢ j → get j (insert k v m) ≡ get j m
  get-insert_ne k j v m h = rw (get-insert k j v m, eq_ne k j h)

  pub get-remove_self : (k : K) (m : Map K V) → get k (remove k m) ≡ none
  get-remove_self k m = rw (get-remove k k m, eq_self k)

  pub get-remove_ne : (k j : K) (m : Map K V) → k ≢ j → get j (remove k m) ≡ get j m
  get-remove_ne k j m h = rw (get-remove k j m, eq_ne k j h)

  pub contains_key_iff : (k : K) (m : Map K V) → (contains_key k m ≡ true) ↔ (get k m ≢ none)
  unfolding contains_key
  contains_key_iff k m = ground arith

  -- A property of every key and the value that is found under it.
  abbrev pub Entries {μ} : (K → V → Type μ) → Map K V → Type (ℓ ⊔ κ ⊔ μ)
  Entries P m = (k : K) (v : V) → get k m ≡ some v → P k v

  pub insert-Entries {μ} :
      (P : K → V → Type μ) (k : K) (v : V) (m : Map K V)
      → P k v
      → Entries P m
      → Entries P (insert k v m)
  insert-Entries P k v m new old j w h = elim (Bool-cases (k == j)) [
    | inl same ↦
        let e : k ≡ j = eq→≡ k j same in
        let f : v ≡ w = ground (arith, get-insert k j v m) in subst₂ P e f new
    | inr other ↦ old j w (rw (get-insert k j v m, other) at h)
  ]

  pub remove-Entries {μ} :
      (P : K → V → Type μ) (k : K) (m : Map K V) → Entries P m → Entries P (remove k m)
  remove-Entries P k m old j w h = elim (Bool-cases (k == j)) [
    | inl same ↦ absurd (ground (arith, get-remove k j m))
    | inr other ↦ old j w (rw (get-remove k j m, other) at h)
  ]
