-- ===== src/Messaging/Storage/RemoveAll.antt =====
-- The removal of entries by their keys.
use variance.Prelude.{
  ◌≡◌, refl, ap, sym, Result-cases, inl, inr, ◌∙◌, Text, List, [], ◌∷◌, false, ok, retain, map,
  arith, ◌==◌, eq_self, list_eq, nat_eq,
}
use variance.Prelude.Map
use variance.Prelude.Map.{Map}
use variance.Messaging.Storage.Io.{after-eq-ok}
use variance.Messaging.Storage.Sled.{Sled, has_prefix, tree_remove}
use variance.Messaging.Storage.Contents.{tree_remove-own}
use variance.Messaging.Storage.Entries.{ok_entries, remove_each, remove_logged, remove_cached}

unfoldable pub remove_all : List (Text × Text) → Map Text Text → Map Text Text
remove_all [] m = m
remove_all (e ∷ es) m = remove_all es (Map.remove e.0 m)

retain-remove :
    (p k : Text) (m : Map Text Text)
    → retain (has_prefix p) (Map.remove k m) ≡ Map.remove k (retain (has_prefix p) m)
unfolding Map.remove
retain-remove p k [] = refl
retain-remove p k ((j, v) ∷ m) = ground (arith, retain-remove p k m)

pub retain-remove_all :
    (p : Text) (es m : Map Text Text)
    → retain (has_prefix p) (remove_all es m) ≡ remove_all es (retain (has_prefix p) m)
unfolding remove_all
retain-remove_all p [] m = refl
retain-remove_all p (e ∷ es) m =
    retain-remove_all p es (Map.remove e.0 m) ∙ ap (remove_all es) (retain-remove p e.0 m)

remove_comm :
    (j k : Text) (m : Map Text Text) → Map.remove j (Map.remove k m) ≡ Map.remove k (Map.remove j m)
unfolding Map.remove
remove_comm j k [] = refl
remove_comm j k ((i, v) ∷ m) = ground (arith, remove_comm j k m)

remove_all-remove :
    (es : List (Text × Text)) (k : Text) (m : Map Text Text)
    → remove_all es (Map.remove k m) ≡ Map.remove k (remove_all es m)
unfolding remove_all
remove_all-remove [] k m = refl
remove_all-remove (e ∷ es) k m =
    ap (remove_all es) (remove_comm e.0 k m) ∙ remove_all-remove es k (Map.remove e.0 m)

-- Without their keys, no entries are left.
pub remove_all_self : (es : Map Text Text) → remove_all es es ≡ []
unfolding remove_all Map.remove
remove_all_self [] = refl
remove_all_self ((k, v) ∷ es) =
    rw (remove_all, eq_self k) (remove_all-remove es k es ∙ ap (Map.remove k) (remove_all_self es))

pub ok_entries-map : (es : Map Text Text) → ok_entries (map ok es) ≡ es
unfolding ok_entries
ok_entries-map [] = refl
ok_entries-map (e ∷ es) = ap (◌∷◌ e) (ok_entries-map es)

module _ (sled : Sled) where
  open sled use {Db, contents}

  pub remove_each-contents :
      (tree : Text) (es : Map Text Text) (db db' : Db)
      → remove_each sled tree (map (λ e. e.0) es) db ≡ (db', ok tt)
      → contents db' tree ≡ remove_all es (contents db tree)
  unfolding remove_each remove_all
  remove_each-contents tree [] db db' e = ap (λ p. contents p.0 tree) (sym e)
  remove_each-contents tree (x ∷ es) db db' e =
      let (db₁, u, first, rest) =
        after-eq-ok (λ _. remove_each sled tree (map (λ e. e.0) es)) (tree_remove sled tree x.0 db)
          db' tt e in
      remove_each-contents tree es db₁ db' rest
      ∙ ap (remove_all es) (tree_remove-own sled db db₁ tree x.0 first)

  remove_logged-other :
      (tree other : Text) (keys : List Text) (db : Db)
      → (tree == other) ≡ false
      → contents (remove_logged sled tree keys db).0 other ≡ contents db other
  unfolding remove_logged
  remove_logged-other tree other [] db different = refl
  remove_logged-other tree other (k ∷ ks) db different =
      remove_logged-other tree other ks (sled.remove db tree k).0 different
      ∙ sled.remove_other db tree k other different

  -- Whatever fails, the removal of cached plaintexts leaves the other trees as they are.
  pub remove_cached-other :
      (tree other : Text) (keys : List Text) (db : Db)
      → (tree == other) ≡ false
      → contents (remove_cached sled tree keys db).0 other ≡ contents db other
  unfolding remove_cached
  remove_cached-other tree other [] db different = refl
  remove_cached-other tree other (k ∷ ks) db different =
      elim (Result-cases (sled.open_tree db tree)) [
        | inl (u, opened) ↦ rw opened (remove_logged-other tree other (k ∷ ks) db different)
        | inr (x, failed) ↦ rw failed refl
      ]
