-- ===== src/Messaging/Offline/Cleanup.antt =====
-- What cleaning up leaves.
use variance.Prelude.{
  ℕ, suc, ◌≡◌, refl, ap, sym, ◌∙◌, Text, List, [], ◌∷◌, Bool, false, not, Result, ok, arith,
  Bool-cases, inl, inr, map, retain, length, ◌==◌, list_eq, nat_eq, eq_self, list_beq_iff, All,
}
use variance.Prelude.Int.{ℤ, leb_ℤ}
use variance.Prelude.Map
use variance.Prelude.Map.{Map}
use variance.Messaging.Errors.{Error}
use variance.Messaging.Proto.{OfflineMessageEnvelope}
use variance.Messaging.Storage.Io.{◌>>=◌, after-eq-ok, read, return}
use variance.Messaging.Storage.Sled.{Sled, Codec, tree_remove}
use variance.Messaging.Storage.Contents.{after_open, tree_remove-own}
use variance.Messaging.Storage.Offline
use variance.Messaging.Storage.Offline.{offline_tree, expired_keys, remove_keys}
use variance.Messaging.Storage.Offline.Scan.{entries_of}
use variance.Messaging.Offline.{cleanup_expired}
use variance.Messaging.Offline.Pages.{local_storage}

abbrev pub Entry : Type 0
Entry = Text × OfflineMessageEnvelope

-- The envelope's time is over.
abbrev pub is_expired : ℤ → Entry → Bool
is_expired now (key, e) = leb_ℤ e.expires_at now

-- No two entries have the same key.
abbrev pub Distinct : List Entry → Type 0
Distinct [] = Unit
Distinct (e ∷ es) = All (λ f. (e.0 == f.0) ≡ false) es × Distinct es

other_key : (k j : Text) → (k == j) ≡ false → (j == k) ≡ false
other_key k j h = ground (arith, list_beq_iff k j, list_beq_iff j k)

length-keys : (es : List Entry) → length (map (λ e. e.0) es) ≡ length es
length-keys [] = refl
length-keys (e ∷ es) = ap suc (length-keys es)

remove_all : List Text → Map Text Text → Map Text Text
remove_all [] m = m
remove_all (k ∷ ks) m = remove_all ks (Map.remove k m)

module _ (codec : Codec OfflineMessageEnvelope) where
  abbrev pub encoded : List Entry → Map Text Text
  encoded es = map (λ e. (e.0, codec.encode e.1)) es

  entries_of-encoded : (es : List Entry) → entries_of codec es ≡ map ok (encoded es)
  entries_of-encoded [] = refl
  entries_of-encoded (e ∷ es) = ap (◌∷◌ (ok (e.0, codec.encode e.1))) (entries_of-encoded es)

  remove_absent :
      (k : Text) (es : List Entry)
      → All (λ f. (k == f.0) ≡ false) es
      → Map.remove k (encoded es) ≡ encoded es
  unfolding Map.remove
  remove_absent k [] h = refl
  remove_absent k (e ∷ es) h =
      rw (other_key k e.0 h.0) (ap (◌∷◌ (e.0, codec.encode e.1)) (remove_absent k es h.1))

  remove_all-keep :
      (now : ℤ) (k v : Text) (m : Map Text Text) (es : List Entry)
      → All (λ f. (k == f.0) ≡ false) es
      → remove_all (map (λ e. e.0) (retain (is_expired now) es)) ((k, v) ∷ m)
        ≡ (k, v) ∷ remove_all (map (λ e. e.0) (retain (is_expired now) es)) m
  unfolding remove_all Map.remove
  remove_all-keep now k v m [] h = refl
  remove_all-keep now k v m (e ∷ es) h = elim (Bool-cases (is_expired now e)) [
    | inl over ↦
        rw (over, remove_all, Map.remove, h.0) (remove_all-keep now k v (Map.remove e.0 m) es h.1)
    | inr valid ↦ rw valid (remove_all-keep now k v m es h.1)
  ]

  remove_expired :
      (now : ℤ) (es : List Entry)
      → Distinct es
      → remove_all (map (λ e. e.0) (retain (is_expired now) es)) (encoded es)
        ≡ encoded (retain (λ e. not (is_expired now e)) es)
  unfolding remove_all Map.remove
  remove_expired now [] h = refl
  remove_expired now (e ∷ es) h = elim (Bool-cases (is_expired now e)) [
    | inl over ↦
        rw (over, remove_all, Map.remove, eq_self e.0)
          (rw (remove_absent e.0 es h.0) (remove_expired now es h.1))
    | inr valid ↦ rw valid (
        remove_all-keep now e.0 (codec.encode e.1) (encoded es) es h.0
        ∙ ap (◌∷◌ (e.0, codec.encode e.1)) (remove_expired now es h.1))
  ]

module _ (sled : Sled) (hex : Text → Text) (codec : Codec OfflineMessageEnvelope) where
  open sled use {Db, contents, iter}
  open codec use {decode_encode}

  number : {a b : ℕ} → ◌≡◌ {A = Result Error ℕ} (ok a) (ok b) → a ≡ b
  number e = cc

  expired_keys_lem :
      (now : ℤ) (es : List Entry)
      → expired_keys sled hex codec now (entries_of codec es)
        ≡ ok (map (λ e. e.0) (retain (is_expired now) es))
  unfolding expired_keys
  expired_keys_lem now [] = refl
  expired_keys_lem now ((k, e) ∷ es) = elim (Bool-cases (leb_ℤ e.expires_at now)) [
    | inl over ↦ rw (expired_keys, decode_encode e, expired_keys_lem now es, over) refl
    | inr valid ↦ rw (expired_keys, decode_encode e, expired_keys_lem now es, valid) refl
  ]

  remove_keys-contents :
      (tree : Text) (keys : List Text) (db db' : Db) (n : ℕ)
      → remove_keys sled hex codec tree keys db ≡ (db', ok n)
      → (contents db' tree ≡ remove_all keys (contents db tree)) × (n ≡ length keys)
  unfolding remove_keys remove_all
  remove_keys-contents tree [] db db' n e =
      (ap (λ p. contents p.0 tree) (sym e), sym (number (ap (λ p. p.1) e)))
  remove_keys-contents tree (k ∷ ks) db db' n e =
      let (db₁, u, first, rest) =
        after-eq-ok (λ _. remove_keys sled hex codec tree ks >>= λ deleted. return (suc deleted))
          (tree_remove sled tree k db) db' n e in
      let (db₂, deleted, more, last) =
        after-eq-ok (λ deleted. return (suc deleted)) (remove_keys sled hex codec tree ks db₁) db' n
          rest in
      let (left, count) = remove_keys-contents tree ks db₁ db₂ deleted more in
      (
        ap (λ p. contents p.0 tree) (sym last)
            ∙ left
            ∙ ap (remove_all ks) (tree_remove-own sled db db₁ tree k first),
        sym (number (ap (λ p. p.1) last)) ∙ ap suc count,
      )

  -- A cleanup that succeeds leaves exactly the envelopes whose time is not over, in their order,
  -- and returns how many it removed, where the tree can be read and no two entries have the same
  -- key.
  pub cleanup_expired_lem :
      (db db' : Db) (now : ℤ) (es : List Entry) (n : ℕ)
      → iter db offline_tree ≡ entries_of codec es
      → Distinct es
      → cleanup_expired (local_storage sled hex codec) now db ≡ (db', ok n)
      → (contents db' offline_tree ≡ encoded codec (retain (λ e. not (is_expired now e)) es))
        × (n ≡ length (retain (is_expired now) es))
  unfolding cleanup_expired Offline.cleanup_expired
  cleanup_expired_lem db db' now es n listed distinct cleaned =
      let sweep =
        read (λ db. expired_keys sled hex codec now (iter db offline_tree))
        >>= remove_keys sled hex codec offline_tree in
      let opened = after_open sled offline_tree sweep db db' n cleaned in
      let gone = map (λ e. e.0) (retain (is_expired now) es) in
      let removed : remove_keys sled hex codec offline_tree gone db ≡ (db', ok n) =
        rw (listed, expired_keys_lem now es) at opened in
      let (left, count) = remove_keys-contents offline_tree gone db db' n removed in
      let held =
        sled.iter_ok db offline_tree (encoded codec es) (listed ∙ entries_of-encoded codec es) in
      (
        left ∙ ap (remove_all gone) (sym held) ∙ remove_expired codec now es distinct,
        count ∙ length-keys (retain (is_expired now) es),
      )
