-- ===== src/Messaging/Storage/Entries.antt =====
-- crates/variance-messaging/src/storage: what its modules do with the entries of a scan. A key is valid UTF-8.
pub mod Last
use variance.Prelude.{
  ℕ, suc, Text, List, [], ◌∷◌, ◌++◌, Option, none, some, Bool, true, false, Result, ok, err, map,
  length, map_err, ◌==◌, list_eq, nat_eq, if◌then◌else◌,
}
use variance.Messaging.Errors.{Error, storage_error}
use variance.Messaging.Storage.Io.{Io, ◌>>=◌, ◌>>◌, return, read}
use variance.Messaging.Storage.Keys.{rsplit_colon}
use variance.Messaging.Storage.Sled.{Sled, Codec, decode_value, open_tree, tree_remove}

abbrev pub Scanned : Type 0
Scanned = List (Result Text (Text × Text))

-- The entries, up to the first failure of the database, which is an error.
unfoldable pub entries : Scanned → Result Error (List (Text × Text))
entries [] = ok []
entries (err e ∷ es) = err (storage_error e)
entries (ok e ∷ es) = elim (entries es) [ err x ↦ err x | ok rest ↦ ok (e ∷ rest) ]

-- The entries without the failures.
unfoldable pub ok_entries : Scanned → List (Text × Text)
ok_entries [] = []
ok_entries (err e ∷ es) = ok_entries es
ok_entries (ok e ∷ es) = e ∷ ok_entries es

-- The key's part after its last colon, where it has one.
unfoldable pub message_ids : List (Text × Text) → List Text
message_ids [] = []
message_ids ((key, value) ∷ es) = elim (rsplit_colon key) [
  | none ↦ message_ids es
  | some (before, id) ↦ id ∷ message_ids es
]

module _ {M : Type 0} (codec : Codec M) where
  open codec use {decode}

  -- A scan that reads each entry, with the message that each holds.
  abbrev pub readable : List (Text × M) → Scanned
  readable es = map (λ e. ok (e.0, codec.encode e.1)) es

  -- The messages, up to the first failure of the database or of decoding.
  unfoldable pub decode_all : Scanned → Result Error (List M)
  decode_all [] = ok []
  decode_all (err e ∷ es) = err (storage_error e)
  decode_all (ok (key, value) ∷ es) = elim (decode_value codec value) [
    | err x ↦ err x
    | ok m ↦ elim (decode_all es) [ err x ↦ err x | ok ms ↦ ok (m ∷ ms) ]
  ]

  -- The messages that can be read and decoded.
  unfoldable pub decode_some : Scanned → List M
  decode_some [] = []
  decode_some (err e ∷ es) = decode_some es
  decode_some (ok (key, value) ∷ es) = elim (decode value) [
    | err x ↦ decode_some es
    | ok m ↦ m ∷ decode_some es
  ]

  -- What a key has, decoded.
  unfoldable pub decode_opt : Option Text → Result Error (Option M)
  decode_opt none = ok none
  decode_opt (some value) = elim (decode_value codec value) [ err e ↦ err e | ok m ↦ ok (some m) ]

module _ (sled : Sled) where
  open sled use {Db}

  -- Each of the keys is removed, up to the first failure.
  unfoldable pub remove_each : Text → List Text → Io Db (Unit {0})
  remove_each tree [] = return tt
  remove_each tree (key ∷ keys) = tree_remove sled tree key >> remove_each tree keys

  -- The call's failure is logged only.
  abbrev pub logged : Io Db (Unit {0}) → Io Db (Unit {0})
  logged call db = let (db', result) = call db in (db', ok tt)

  unfoldable pub remove_logged : Text → List Text → Io Db (Unit {0})
  remove_logged tree [] = return tt
  remove_logged tree (key ∷ keys) = logged (tree_remove sled tree key) >> remove_logged tree keys

  -- The cached plaintexts of deleted messages are removed too, as far as that succeeds.
  unfoldable pub remove_cached : Text → List Text → Io Db (Unit {0})
  unfolding remove_logged
  remove_cached tree [] = return tt
  remove_cached tree (id ∷ ids) = logged (open_tree sled tree >> remove_logged tree (id ∷ ids))
