-- ===== src/Identity/Cache.antt =====
-- crates/variance-identity/src/cache.rs: DIDs in two layers in memory and one on disk. The database and
-- the JSON of serde are parameters; the two clocks are arguments, an Instant in nanoseconds and the
-- system's time in seconds after 1970.
pub mod Answers
mod Tests
use variance.Prelude.{
  ℕ, ◌+◌, ◌*◌, ◌%◌, ◌^◌, ◌≡◌, Text, List, [], ◌∷◌, Option, none, some, Bool, true, false, not,
  Result, ok, err, map_err, codes, leb, ltb, is_empty, if◌then◌else◌, list_eq, nat_eq, retain,
}
use variance.Prelude.Map
use variance.Prelude.Map.{Map}
use variance.Identity.Errors.{Error, serialization_error, storage_error}
use variance.Identity.Did.{Keys, Did, verify_document, without_secrets}
use variance.Messaging.Storage.Sled.{Sled, Codec}

pub record CacheEntry (V : Type 0) : Type 0 where
  pub value : V
  pub expires_at : ℕ

-- L1Cache and L2Cache, which are the same.
pub record Layer (V : Type 0) : Type 0 where
  pub entries : Map Text (CacheEntry V)
  pub ttl : ℕ

module _ {V : Type 0} where
  unfoldable pub is_expired : ℕ → CacheEntry V → Bool
  is_expired now entry = ltb entry.expires_at now

  unfoldable pub layer_get : Layer V → Text → ℕ → Option V
  unfolding is_expired
  layer_get layer key now = elim (Map.get key layer.entries) [
    | none ↦ none
    | some entry ↦ if is_expired now entry then none else some entry.value
  ]

  unfoldable pub layer_insert : Layer V → Text → V → ℕ → Layer V
  layer_insert layer key value now = record layer {
    entries = Map.insert key (record { value = value; expires_at = now + layer.ttl }) layer.entries;
  }

  unfoldable pub layer_evict : Layer V → ℕ → Layer V
  unfolding is_expired
  layer_evict layer now = record layer {
    entries = retain (λ e. not (is_expired now e.1)) layer.entries;
  }

  unfoldable pub layer_remove : Layer V → Text → Layer V
  layer_remove layer key = record layer { entries = Map.remove key layer.entries }

-- The value is the JSON of a DID.
pub record DiskEntry : Type 0 where
  pub value : Text
  pub expires_at : ℕ

-- The default tree of the database.
abbrev pub disk_tree : Text
disk_tree = codes "__sled__default"

-- serde_json of a DID, which leaves its secrets out.
pub record Json (keys : Keys) : Type 0 where
  pub to_string : Did keys → Text
  pub from_str : Text → Result Text (Did keys)
  pub from_str-to_string : (d : Did keys) → from_str (to_string d) ≡ ok (without_secrets keys d)

module _ (sled : Sled) (keys : Keys) (did_json : Json keys) (entry_json : Codec DiskEntry) where
  open sled use {Db, iter}

  -- 24 hours.
  abbrev pub disk_ttl : ℕ
  disk_ttl = 24 * 60 * 60

  -- What a removal leaves, and its failure.
  abbrev pub disk_remove : Db → Text → Db × Result Error (Unit {0})
  disk_remove db key = let (db', r) = sled.remove db disk_tree key in (db', map_err storage_error r)

  unfoldable pub disk_get : Db → Text → ℕ → Db × Result Error (Option (Did keys))
  disk_get db key now = elim (sled.get db disk_tree key) [
    | err e ↦ (db, err (storage_error e))
    | ok none ↦ (db, ok none)
    | ok (some bytes) ↦ elim (entry_json.decode bytes) [
      | err e ↦ (db, err (serialization_error e))
      | ok entry ↦ elim (ltb now entry.expires_at) [
        | true ↦ elim (did_json.from_str entry.value) [
          | err e ↦ (db, err (serialization_error e))
          | ok did ↦ (db, ok (some did))
        ]
        | false ↦
            let (db', removed) = disk_remove db key in
            (db', elim removed [ err e ↦ err e | ok u ↦ ok none ])
      ]
    ]
  ]

  unfoldable pub disk_insert : Db → Text → Did keys → ℕ → Db × Result Error (Unit {0})
  disk_insert db key value now =
      let entry : DiskEntry = record {
        value = did_json.to_string value;
        expires_at = (now + disk_ttl) % 2 ^ 64;
      } in
      let (db', r) = sled.insert db disk_tree key (entry_json.encode entry) in
      (db', map_err storage_error r)

  -- The keys of the entries on disk whose time is over; what cannot be read stays.
  unfoldable pub expired_on_disk : ℕ → List (Result Text (Text × Text)) → List Text
  expired_on_disk now [] = []
  expired_on_disk now (err e ∷ es) = expired_on_disk now es
  expired_on_disk now (ok (key, bytes) ∷ es) =
      let rest = expired_on_disk now es in
      elim (entry_json.decode bytes) [
        | err e ↦ rest
        | ok entry ↦ if leb entry.expires_at now then key ∷ rest else rest
      ]

  -- A failure to remove a key is ignored.
  unfoldable pub remove_from_disk : Db → List Text → Db
  remove_from_disk db [] = db
  remove_from_disk db (key ∷ keys) = remove_from_disk (disk_remove db key).0 keys

  pub record MultiLayerCache : Type 0 where
    pub l1 : Layer (Did keys)
    pub l2 : Layer (Did keys)
    pub l3 : Db

  -- 5 minutes and 1 hour.
  unfoldable pub new_cache : Db → MultiLayerCache
  new_cache db = record {
    l1 = record { entries = []; ttl = 5 * 60 * 10 ^ 9 };
    l2 = record { entries = []; ttl = 60 * 60 * 10 ^ 9 };
    l3 = db;
  }

  unfoldable pub get :
      MultiLayerCache → Text → ℕ → ℕ → MultiLayerCache × Result Error (Option (Did keys))
  unfolding layer_get layer_insert disk_get
  get cache key instant now = elim (layer_get cache.l1 key instant) [
    | some did ↦ (cache, ok (some did))
    | none ↦ elim (layer_get cache.l2 key instant) [
      | some did ↦ (record cache { l1 = layer_insert cache.l1 key did instant }, ok (some did))
      | none ↦
          let (l3', found) = disk_get cache.l3 key now in
          elim found [
            | err e ↦ (record cache { l3 = l3' }, err e)
            | ok none ↦ (record cache { l3 = l3' }, ok none)
            | ok (some did) ↦ (
              record cache {
                l1 = layer_insert cache.l1 key did instant;
                l2 = layer_insert cache.l2 key did instant;
                l3 = l3';
              },
              ok (some did),
            )
          ]
    ]
  ]

  unfoldable pub insert :
      MultiLayerCache → Text → Did keys → ℕ → ℕ → MultiLayerCache × Result Error (Unit {0})
  unfolding layer_insert disk_insert
  insert cache key value instant now = elim (verify_document keys value) [
    | err e ↦ (cache, err e)
    | ok u ↦
        let (l3', stored) = disk_insert cache.l3 key value now in
        (
          record cache {
            l1 = layer_insert cache.l1 key value instant;
            l2 = layer_insert cache.l2 key value instant;
            l3 = l3';
          },
          stored,
        )
  ]

  unfoldable pub remove : MultiLayerCache → Text → MultiLayerCache
  unfolding layer_remove
  remove cache key = record cache {
    l1 = layer_remove cache.l1 key;
    l2 = layer_remove cache.l2 key;
    l3 = (disk_remove cache.l3 key).0;
  }

  unfoldable pub evict_expired : MultiLayerCache → ℕ → ℕ → MultiLayerCache
  unfolding layer_evict expired_on_disk remove_from_disk
  evict_expired cache instant now = record cache {
    l1 = layer_evict cache.l1 instant;
    l2 = layer_evict cache.l2 instant;
    l3 = remove_from_disk cache.l3 (expired_on_disk now (iter cache.l3 disk_tree));
  }
