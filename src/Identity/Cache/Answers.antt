-- ===== src/Identity/Cache/Answers.antt =====
-- What the cache answers after a document was inserted.
use variance.Prelude.{
  ℕ, ◌+◌, ◌%◌, ◌^◌, ◌≡◌, ◌≤◌, ◌<◌, refl, ap, sym, ◌∙◌, Text, Option, none, some, true, false,
  Result, ok, err, map_err, leb, ltb, arith, Bool-cases, Result-cases, inl, inr, if◌then◌else◌,
  ◌||◌, eq_self, list_eq, nat_eq,
}
use variance.Prelude.Map
use variance.Prelude.Map.{Map}
use variance.Identity.Errors.{Error, storage_error}
use variance.Identity.Did.{Keys, Did, verify_document, without_secrets}
use variance.Messaging.Storage.Sled.{Sled, Codec, put}
use variance.Messaging.Storage.Contents.{get-put}
use variance.Identity.Cache
use variance.Identity.Cache.{
  Layer, CacheEntry, DiskEntry, Json, MultiLayerCache, disk_tree, disk_ttl, disk_get, disk_insert,
  layer_get, layer_insert, is_expired,
}

layer_get-insert :
    {V : Type 0} (layer : Layer V) (key : Text) (value : V) (now later : ℕ)
    → layer_get (layer_insert layer key value now) key later
      ≡ (if ltb (now + layer.ttl) later then none else some value)
unfolding layer_get layer_insert is_expired
layer_get-insert layer key value now later =
    rw
      (
        layer_get,
        Map.get-insert_self key (record { value = value; expires_at = now + layer.ttl })
            layer.entries,
      )
      refl

mapped_ok :
    {S : Type 0} (p : S × Result Text (Unit {0})) (s : S)
    → ◌≡◌ {A = S × Result Error (Unit {0})} (p.0, map_err storage_error p.1) (s, ok tt)
    → p ≡ (s, ok tt)
mapped_ok (t, ok u) s e = ap (λ q. (q.0, ok tt)) e
mapped_ok (t, err x) s e = absurd (ground (arith, ap (λ q. q.1) e))

module _ (sled : Sled) (keys : Keys) (did_json : Json keys) (entry_json : Codec DiskEntry) where
  open sled use {Db, contents}

  insert-accepted :
      (cache cache' : MultiLayerCache sled keys did_json entry_json) (key : Text) (d : Did keys)
      (instant now : ℕ)
      → Cache.insert sled keys did_json entry_json cache key d instant now ≡ (cache', ok tt)
      → (verify_document keys d ≡ ok tt)
        × (cache'.l1 ≡ layer_insert cache.l1 key d instant)
        × (cache'.l2 ≡ layer_insert cache.l2 key d instant)
        × (disk_insert sled keys did_json entry_json cache.l3 key d now ≡ (cache'.l3, ok tt))
  unfolding Cache.insert
  insert-accepted cache cache' key d instant now e = elim (Result-cases (verify_document keys d)) [
    | inl (u, good) ↦
        let done = rw (Cache.insert, good) at e in
        (
          good,
          ap (λ p. p.0.l1) (sym done),
          ap (λ p. p.0.l2) (sym done),
          ap (λ p. (p.0.l3, p.1)) done,
        )
    | inr (x, bad) ↦ absurd (ground (arith, ap (λ p. p.1) (rw (Cache.insert, bad) at e)))
  ]

  disk_entry : Did keys → ℕ → DiskEntry
  disk_entry d now = record {
    value = did_json.to_string d;
    expires_at = (now + disk_ttl sled keys did_json entry_json) % 2 ^ 64;
  }

  disk_insert-get :
      (db db' : Db) (key : Text) (d : Did keys) (now : ℕ) (found : Option Text)
      → disk_insert sled keys did_json entry_json db key d now ≡ (db', ok tt)
      → sled.get db' disk_tree key ≡ ok found
      → found ≡ some (entry_json.encode (disk_entry d now))
  unfolding disk_insert disk_entry
  disk_insert-get db db' key d now found stored got =
      let bytes = entry_json.encode (disk_entry d now) in
      let changed =
        sled.insert_ok db db' disk_tree key bytes
          (mapped_ok (sled.insert db disk_tree key bytes) db' stored) disk_tree in
      let held : contents db' disk_tree ≡ put key bytes (contents db disk_tree) =
        rw (eq_self disk_tree) at changed in
      sled.get_ok db' disk_tree key found got
      ∙ ap (Map.get key) held
      ∙ (rw (get-put key key bytes (contents db disk_tree), eq_self key) refl)

  -- On disk, a document is found without its secrets until its time is over.
  disk_get-fresh :
      (db db' : Db) (key : Text) (d : Did keys) (now later : ℕ) (found : Option Text)
      → disk_insert sled keys did_json entry_json db key d now ≡ (db', ok tt)
      → sled.get db' disk_tree key ≡ ok found
      → ltb later ((now + disk_ttl sled keys did_json entry_json) % 2 ^ 64) ≡ true
      → disk_get sled keys did_json entry_json db' key later
        ≡ (db', ok (some (without_secrets keys d)))
  unfolding disk_get disk_entry
  disk_get-fresh db db' key d now later found stored got fresh =
      rw
        (
          disk_get,
          got,
          disk_insert-get db db' key d now found stored got,
          entry_json.decode_encode (disk_entry d now),
          fresh,
          did_json.from_str-to_string d,
        )
        refl

  module _ (cache cache' : MultiLayerCache sled keys did_json entry_json) (key : Text)
      (d : Did keys) (instant now instant' now' : ℕ)
      (inserted : Cache.insert sled keys did_json entry_json cache key d instant now
        ≡ (cache', ok tt)) where
    answer : Result Error (Option (Did keys))
    unfolding Cache.get
    answer = (Cache.get sled keys did_json entry_json cache' key instant' now').1

    from_l1 : instant' ≤ instant + cache.l1.ttl → answer ≡ ok (some d)
    unfolding answer Cache.get
    from_l1 early =
        let (good, l1, l2, l3) = insert-accepted cache cache' key d instant now inserted in
        let hot : ltb (instant + cache.l1.ttl) instant' ≡ false = ground arith in
        rw (Cache.get, l1, layer_get-insert cache.l1 key d instant instant', hot) refl

    from_l2 :
        instant + cache.l1.ttl < instant' → instant' ≤ instant + cache.l2.ttl → answer ≡ ok (some d)
    unfolding answer Cache.get
    from_l2 late early =
        let (good, l1, l2, l3) = insert-accepted cache cache' key d instant now inserted in
        let cold : ltb (instant + cache.l1.ttl) instant' ≡ true = ground arith in
        let warm : ltb (instant + cache.l2.ttl) instant' ≡ false = ground arith in
        rw
          (
            Cache.get,
            l1,
            layer_get-insert cache.l1 key d instant instant',
            cold,
            l2,
            layer_get-insert cache.l2 key d instant instant',
            warm,
          )
          refl

    from_l3 :
        (found : Option Text)
        → instant + cache.l1.ttl < instant'
        → instant + cache.l2.ttl < instant'
        → sled.get cache'.l3 disk_tree key ≡ ok found
        → ltb now' ((now + disk_ttl sled keys did_json entry_json) % 2 ^ 64) ≡ true
        → answer ≡ ok (some (without_secrets keys d))
    unfolding answer Cache.get
    from_l3 found late later got fresh =
        let (good, l1, l2, l3) = insert-accepted cache cache' key d instant now inserted in
        let cold : ltb (instant + cache.l1.ttl) instant' ≡ true = ground arith in
        let cool : ltb (instant + cache.l2.ttl) instant' ≡ true = ground arith in
        rw
          (
            Cache.get,
            l1,
            layer_get-insert cache.l1 key d instant instant',
            cold,
            l2,
            layer_get-insert cache.l2 key d instant instant',
            cool,
            disk_get-fresh cache.l3 cache'.l3 key d now now' found l3 got fresh,
          )
          refl

  -- A document that insert accepts carries a signature that verifies, and for a day the cache finds
  -- it under its key, where the disk does not fail: with its secrets as long as a layer in memory
  -- has it, and without them afterwards.
  pub get-insert :
      (cache cache' : MultiLayerCache sled keys did_json entry_json) (key : Text) (d : Did keys)
      (instant now instant' now' : ℕ) (found : Option Text)
      → Cache.insert sled keys did_json entry_json cache key d instant now ≡ (cache', ok tt)
      → sled.get cache'.l3 disk_tree key ≡ ok found
      → ltb now' ((now + disk_ttl sled keys did_json entry_json) % 2 ^ 64) ≡ true
      → (verify_document keys d ≡ ok tt)
        × ((Cache.get sled keys did_json entry_json cache' key instant' now').1
            ≡ ok (
                some (
                  if leb instant' (instant + cache.l1.ttl) || leb instant' (instant + cache.l2.ttl)
                  then d
                  else without_secrets keys d)))
  unfolding answer
  get-insert cache cache' key d instant now instant' now' found inserted got fresh = (
    (insert-accepted cache cache' key d instant now inserted).0,
    elim (Bool-cases (leb instant' (instant + cache.l1.ttl))) [
      | inl hot ↦
          rw hot (from_l1 cache cache' key d instant now instant' now' inserted (ground arith))
      | inr cold ↦ elim (Bool-cases (leb instant' (instant + cache.l2.ttl))) [
        | inl warm ↦
            rw (cold, warm)
              (from_l2 cache cache' key d instant now instant' now' inserted (ground arith)
                (ground arith))
        | inr cool ↦
            rw (cold, cool)
              (from_l3 cache cache' key d instant now instant' now' inserted found (ground arith)
                (ground arith) got fresh)
      ]
    ],
  )
