-- ===== src/Messaging/Storage/Contents.antt =====
-- What the calls of the storage do to the contents of the trees, where they succeed.
use variance.Prelude.{
  suc, ◌+◌, ◌≡◌, ◌≤◌, refl, ap, sym, ◌∙◌, Text, [], ◌∷◌, Option, some, false, Result, ok, err, map,
  map_err, retain, length, arith, Result-cases, inl, inr, list_beq_iff, eq_self, list_eq, nat_eq,
  ◌==◌, if◌then◌else◌,
}
use variance.Prelude.Map
use variance.Prelude.Map.{Map}
use variance.Messaging.Errors.{Error, storage_error}
use variance.Messaging.Storage.Io.{Io, ◌>>◌}
use variance.Messaging.Storage.Sled.{
  open_tree, Sled, starts_with, has_prefix, put, tree_insert, tree_remove, tree_get,
}

-- A call that returns no error in the program's terms returned none in the database's.
mapped_ok :
    {S : Type 0} (p : S × Result Text (Unit {0})) (s : S)
    → ◌≡◌ {A = S × Result Error (Unit {0})} (p.0, map_err storage_error p.1) (s, ok tt)
    → p ≡ (s, ok tt)
mapped_ok (t, ok u) s e = ap (λ q. (q.0, ok tt)) e
mapped_ok (t, err x) s e = absurd (ground (arith, ap (λ q. q.1) e))

value : {a b : Option Text} → ◌≡◌ {A = Result Error (Option Text)} (ok a) (ok b) → a ≡ b
value e = cc

module _ (sled : Sled) where
  open sled use {Db, contents, insert_ok, remove_ok}

  pub tree_insert-own :
      (db db' : Db) (t k v : Text)
      → tree_insert sled t k v db ≡ (db', ok tt)
      → contents db' t ≡ put k v (contents db t)
  tree_insert-own db db' t k v e =
      let changed = insert_ok db db' t k v (mapped_ok (sled.insert db t k v) db' e) t in
      rw (eq_self t) at changed

  pub tree_insert-other :
      (db db' : Db) (t k v u : Text)
      → tree_insert sled t k v db ≡ (db', ok tt)
      → (t == u) ≡ false
      → contents db' u ≡ contents db u
  tree_insert-other db db' t k v u e other =
      let changed = insert_ok db db' t k v (mapped_ok (sled.insert db t k v) db' e) u in
      rw other at changed

  pub tree_remove-own :
      (db db' : Db) (t k : Text)
      → tree_remove sled t k db ≡ (db', ok tt)
      → contents db' t ≡ Map.remove k (contents db t)
  tree_remove-own db db' t k e =
      let changed = remove_ok db db' t k (mapped_ok (sled.remove db t k) db' e) t in
      rw (eq_self t) at changed

  pub tree_remove-other :
      (db db' : Db) (t k u : Text)
      → tree_remove sled t k db ≡ (db', ok tt)
      → (t == u) ≡ false
      → contents db' u ≡ contents db u
  tree_remove-other db db' t k u e other =
      let changed = remove_ok db db' t k (mapped_ok (sled.remove db t k) db' e) u in
      rw other at changed

  pub tree_get-contents :
      (db db' : Db) (t k : Text) (v : Option Text)
      → tree_get sled t k db ≡ (db', ok v)
      → (db ≡ db') × (v ≡ Map.get k (contents db t))
  tree_get-contents db db' t k v e = elim (Result-cases (sled.get db t k)) [
    | inl (w, got) ↦
        let found = rw got at e in
        (ap (λ p. p.0) found, sym (value (ap (λ p. p.1) found)) ∙ sled.get_ok db t k w got)
    | inr (x, failed) ↦ absurd (ground (arith, ap (λ p. p.1) (rw failed at e)))
  ]

  -- What follows the opening of a tree finds the same database.
  pub after_open :
      {A : Type 0} (tree : Text) (k : Io Db A) (db db' : Db) (a : A)
      → (open_tree sled tree >> k) db ≡ (db', ok a)
      → k db ≡ (db', ok a)
  after_open tree k db db' a e = elim (Result-cases (sled.open_tree db tree)) [
    | inl (u, opened) ↦ rw opened at e
    | inr (x, failed) ↦ absurd (ground (arith, ap (λ p. p.1) (rw failed at e)))
  ]

pub get-put :
    (k j v : Text) (m : Map Text Text)
    → Map.get j (put k v m) ≡ (if k == j then some v else Map.get j m)
unfolding put Map.get
get-put k j v [] = refl
get-put k j v ((i, w) ∷ m) =
    ground (arith, list_beq_iff k j, list_beq_iff i k, list_beq_iff i j, get-put k j v m)

-- An insertion adds at most one entry, and none under a prefix that the key does not have.
pub count-put :
    (p k v : Text) (m : Map Text Text)
    → length (retain (has_prefix p) (put k v m))
      ≤ length (retain (has_prefix p) m) + (if starts_with p k then 1 else 0)
unfolding put
count-put p k v [] = ground arith
count-put p k v ((j, w) ∷ m) = ground (arith, count-put p k v m, list_beq_iff j k)

pub length-map_ok :
    (es : Map Text Text) → length (map {B = Result Text (Text × Text)} ok es) ≡ length es
length-map_ok [] = refl
length-map_ok (e ∷ es) = ap suc (length-map_ok es)
