-- ===== src/P2p/PeerStore.antt =====
-- crates/variance-p2p/src/peer_store.rs: which peer a DID was last seen as, in the tree `did_peer_map`.
-- libp2p's reading and writing of a PeerId are the parameter `codec`; a failure is logged only.
use variance.Prelude.{
  ◌≡◌, refl, ap, ◌∙◌, Text, List, [], ◌∷◌, Option, none, some, Bool, true, false, Result, ok, err,
  codes, arith, eq_self, list_eq, nat_eq,
}
use variance.Prelude.Map
use variance.Prelude.Map.{Map}
use variance.Messaging.Storage.Sled.{Sled, Codec, put}
use variance.Messaging.Storage.Contents.{get-put}

abbrev pub peer_tree : Text
peer_tree = codes "did_peer_map"

module _ {PeerId : Type 0} (sled : Sled) (codec : Codec PeerId) where
  open sled use {Db, contents, iter}
  open codec use {encode, decode, decode_encode}

  unfoldable pub insert : Db → Text → PeerId → Db × Bool
  insert db did peer_id =
      let (db', result) = sled.insert db peer_tree did (encode peer_id) in
      (db', elim result [ err e ↦ false | ok u ↦ true ])

  unfoldable pub get : Db → Text → Option PeerId
  get db did = elim (sled.get db peer_tree did) [
    | err e ↦ none
    | ok none ↦ none
    | ok (some bytes) ↦ elim (decode bytes) [ err e ↦ none | ok peer_id ↦ some peer_id ]
  ]

  -- The loop of `load_all` with the map that it fills; what cannot be read is left out.
  unfoldable pub load_loop : Map Text PeerId → List (Result Text (Text × Text)) → Map Text PeerId
  load_loop map [] = map
  load_loop map (err e ∷ es) = load_loop map es
  load_loop map (ok (did, bytes) ∷ es) = elim (decode bytes) [
    | err e ↦ load_loop map es
    | ok peer_id ↦ load_loop (Map.insert did peer_id map) es
  ]

  unfoldable pub load_all : Db → Map Text PeerId
  unfolding load_loop
  load_all db = load_loop [] (iter db peer_tree)

  unfoldable pub remove : Db → Text → Db
  remove db did = (sled.remove db peer_tree did).0

  inserted_ok :
      {S : Type 0} (p : S × Result Text (Unit {0})) (s : S)
      → ◌≡◌ {A = S × Bool} (p.0, elim p.1 [ err e ↦ false | ok u ↦ true ]) (s, true)
      → p ≡ (s, ok tt)
  inserted_ok (t, ok u) s e = ap (λ q. (q.0, ok tt)) e
  inserted_ok (t, err x) s e = absurd (ground (arith, ap (λ q. q.1) e))

  -- A peer that was stored is found under its DID, where the database does not fail.
  pub get-insert :
      (db db' : Db) (did : Text) (peer_id : PeerId) (found : Option Text)
      → insert db did peer_id ≡ (db', true)
      → sled.get db' peer_tree did ≡ ok found
      → get db' did ≡ some peer_id
  unfolding insert get
  get-insert db db' did peer_id found stored got =
      let changed =
        sled.insert_ok db db' peer_tree did (encode peer_id)
          (inserted_ok (sled.insert db peer_tree did (encode peer_id)) db' stored) peer_tree in
      let held : contents db' peer_tree ≡ put did (encode peer_id) (contents db peer_tree) =
        rw (eq_self peer_tree) at changed in
      let last : Map.get did (put did (encode peer_id) (contents db peer_tree))
          ≡ some (encode peer_id) =
        rw (get-put did did (encode peer_id) (contents db peer_tree), eq_self did) refl in
      let value : found ≡ some (encode peer_id) =
        sled.get_ok db' peer_tree did found got ∙ ap (Map.get did) held ∙ last in
      rw (get, got, value, decode_encode peer_id) refl
