-- ===== src/Messaging/Storage/Sled.antt =====
-- The embedded database `sled`, which is not in the repository: its calls are the fields of a record,
-- each of which may fail, with what its documentation promises of a call that succeeds, and that an
-- insertion or a removal, failed or not, leaves the other trees as they are. `contents` is what a tree holds, in the
-- order of its keys; the program cannot ask for it. Of the codecs, prost's and serde's, it is promised
-- that what is encoded can be decoded.
use variance.Prelude.{
  ◌≡◌, refl, sym, ap, Text, List, [], ◌∷◌, Option, Bool, true, false, Result, ok, map_err, map,
  retain, ltb, eqb, ◌==◌, list_eq, nat_eq, if◌then◌else◌, ◌&&◌, ◌||◌, not, arith,
}
use variance.Prelude.Map
use variance.Prelude.Map.{Map}
use variance.Messaging.Errors.{Error, storage_error, protocol_error}
use variance.Messaging.Storage.Io.{Io, read}

-- The order of keys: that of the bytes.
unfoldable pub lex_ltb : Text → Text → Bool
lex_ltb _ [] = false
lex_ltb [] (y ∷ ys) = true
lex_ltb (x ∷ xs) (y ∷ ys) = ltb x y || (eqb x y && lex_ltb xs ys)

unfoldable pub starts_with : Text → Text → Bool
starts_with [] s = true
starts_with (p ∷ ps) [] = false
starts_with (p ∷ ps) (c ∷ s) = eqb p c && starts_with ps s

-- Insertion into entries that are in the order of their keys.
unfoldable pub put : Text → Text → Map Text Text → Map Text Text
put k v [] = (k, v) ∷ []
put k v ((j, w) ∷ m) =
    if j == k then (k, v) ∷ m else (if lex_ltb k j then (k, v) ∷ (j, w) ∷ m else (j, w) ∷ put k v m)

abbrev pub in_range : Text → Text → Text × Text → Bool
in_range from to (k, v) = not (lex_ltb k from) && lex_ltb k to

abbrev pub is_from : Text → Text × Text → Bool
is_from from (k, v) = not (lex_ltb k from)

abbrev pub has_prefix : Text → Text × Text → Bool
has_prefix p (k, v) = starts_with p k

pub record Sled : Type 1 where
  pub Db : Type 0
  pub open_tree : Db → Text → Result Text (Unit {0})
  pub insert : Db → Text → Text → Text → Db × Result Text (Unit {0})
  pub remove : Db → Text → Text → Db × Result Text (Unit {0})
  pub get : Db → Text → Text → Result Text (Option Text)
  pub iter : Db → Text → List (Result Text (Text × Text))
  pub scan_prefix : Db → Text → Text → List (Result Text (Text × Text))
  pub range : Db → Text → Text → Text → List (Result Text (Text × Text))
  pub range_from : Db → Text → Text → List (Result Text (Text × Text))
  pub contents : Db → Text → Map Text Text
  pub insert_ok :
      (db db' : Db) (t k v : Text)
      → insert db t k v ≡ (db', ok tt)
      → (u : Text) → contents db' u ≡ (if t == u then put k v (contents db t) else contents db u)
  pub remove_ok :
      (db db' : Db) (t k : Text)
      → remove db t k ≡ (db', ok tt)
      → (u : Text)
      → contents db' u ≡ (if t == u then Map.remove k (contents db t) else contents db u)
  pub insert_other :
      (db : Db) (t k v u : Text) → (t == u) ≡ false → contents (insert db t k v).0 u ≡ contents db u
  pub remove_other :
      (db : Db) (t k u : Text) → (t == u) ≡ false → contents (remove db t k).0 u ≡ contents db u
  pub get_ok :
      (db : Db) (t k : Text) (v : Option Text) → get db t k ≡ ok v → v ≡ Map.get k (contents db t)
  pub iter_ok :
      (db : Db) (t : Text) (es : Map Text Text) → iter db t ≡ map ok es → es ≡ contents db t
  pub scan_prefix_ok :
      (db : Db) (t p : Text) (es : Map Text Text)
      → scan_prefix db t p ≡ map ok es
      → es ≡ retain (has_prefix p) (contents db t)
  pub range_ok :
      (db : Db) (t from to : Text) (es : Map Text Text)
      → range db t from to ≡ map ok es
      → es ≡ retain (in_range from to) (contents db t)
  pub range_from_ok :
      (db : Db) (t from : Text) (es : Map Text Text)
      → range_from db t from ≡ map ok es
      → es ≡ retain (is_from from) (contents db t)

pub record Codec (M : Type 0) : Type 0 where
  pub encode : M → Text
  pub decode : Text → Result Text M
  pub decode_encode : (m : M) → decode (encode m) ≡ ok m

-- The calls as the storage makes them, with its errors.
module _ (sled : Sled) where
  open sled use {Db}

  abbrev pub open_tree : Text → Io Db (Unit {0})
  open_tree t db = (db, map_err storage_error (sled.open_tree db t))

  abbrev pub tree_insert : Text → Text → Text → Io Db (Unit {0})
  tree_insert t k v db = let (db', r) = sled.insert db t k v in (db', map_err storage_error r)

  abbrev pub tree_remove : Text → Text → Io Db (Unit {0})
  tree_remove t k db = let (db', r) = sled.remove db t k in (db', map_err storage_error r)

  abbrev pub tree_get : Text → Text → Io Db (Option Text)
  tree_get t k = read (λ db. map_err storage_error (sled.get db t k))

module _ {M : Type 0} (codec : Codec M) where
  open codec use {decode}

  abbrev pub decode_value : Text → Result Error M
  decode_value v = map_err protocol_error (decode v)

-- A database in memory, which never fails.
pub ok-injective : {a b : Option Text} → ◌≡◌ {A = Result Text (Option Text)} (ok a) (ok b) → a ≡ b
ok-injective e = cc

pub map_ok-injective :
    (xs ys : Map Text Text)
    → ◌≡◌ {A = List (Result Text (Text × Text))} (map ok xs) (map ok ys)
    → ys ≡ xs
map_ok-injective [] [] e = refl
map_ok-injective [] (y ∷ ys) e = cc
map_ok-injective (x ∷ xs) [] e = cc
map_ok-injective (x ∷ xs) (y ∷ ys) e = ground (arith, map_ok-injective xs ys)

abbrev pub in_memory : Sled
in_memory = record {
  Db = Text → Map Text Text;
  open_tree = λ db t. ok tt;
  insert = λ db t k v. (λ u. if t == u then put k v (db t) else db u, ok tt);
  remove = λ db t k. (λ u. if t == u then Map.remove k (db t) else db u, ok tt);
  get = λ db t k. ok (Map.get k (db t));
  iter = λ db t. map ok (db t);
  scan_prefix = λ db t p. map ok (retain (has_prefix p) (db t));
  range = λ db t from to. map ok (retain (in_range from to) (db t));
  range_from = λ db t from. map ok (retain (is_from from) (db t));
  contents = λ db t. db t;
  insert_ok = λ db db' t k v e u. sym (ap (λ p. p.0 u) e);
  remove_ok = λ db db' t k e u. sym (ap (λ p. p.0 u) e);
  insert_other = λ db t k v u e. rw e refl;
  remove_other = λ db t k u e. rw e refl;
  get_ok = λ db t k v e. sym (ok-injective e);
  iter_ok = λ db t es e. map_ok-injective (db t) es e;
  scan_prefix_ok = λ db t p es e. map_ok-injective (retain (has_prefix p) (db t)) es e;
  range_ok = λ db t from to es e. map_ok-injective (retain (in_range from to) (db t)) es e;
  range_from_ok = λ db t from es e. map_ok-injective (retain (is_from from) (db t)) es e;
}
