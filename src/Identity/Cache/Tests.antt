-- ===== src/Identity/Cache/Tests.antt =====
-- A document in a cache over a database in memory.
use variance.Crypto.{toy}
use variance.Prelude.{
  ℕ, ◌≡◌, refl, ap, Text, List, [], ◌∷◌, Option, none, some, Result, ok, err, replicate, codes,
  list_beq, list_eq, nat_eq,
}
use variance.Prelude.Int.{ℤ, pos}
use variance.Prelude.Map
use variance.Identity.Did.{
  Keys, Did, DidDocument, VerificationMethod, Service, sign_document, verify_document,
  without_secrets, get_verifying_key, document_signing_bytes,
}
use variance.Identity.Cache
use variance.Identity.Cache.{
  disk_tree, Json, DiskEntry, MultiLayerCache, new_cache, layer_insert, layer_get, disk_insert,
  disk_get, is_expired,
}
use variance.Identity.Cache.Answers.{get-insert}
use variance.Messaging.Storage.Sample.Base.{
  Coder, number, both, as_type, numbers, int, opt, many, read_all, codec_of,
}
use variance.Messaging.Storage.Sled.{in_memory, Codec}

abbrev first_byte : List ℕ → Option ℕ
first_byte [] = none
first_byte (b ∷ bs) = some b

abbrev keys : Keys
keys = record {
  ed25519 = toy;
  X25519Secret = ℕ;
  from_bytes = first_byte;
  encode_document = λ d. d.id;
}

abbrev document : DidDocument
document = record {
  id = 1 ∷ [];
  authentication =
      record {
        id = 2 ∷ [];
        key_type = codes "Ed25519VerificationKey2020";
        controller = 1 ∷ [];
        public_key_multibase = replicate 32 7;
      }
      ∷ [];
  key_agreement = [];
  service = [];
  created_at = pos 0;
  updated_at = pos 0;
  display_name = none;
  avatar_cid = none;
  bio = none;
}

abbrev owner : Did keys
owner = record {
  id = 1 ∷ [];
  document = document;
  signing_key = some 7;
  x25519_secret = some 3;
  document_signature = some (replicate 64 7);
}

signed : sign_document keys (record owner { document_signature = none }) ≡ ok owner
unfolding sign_document
signed = refl

abbrev method : Coder VerificationMethod
method =
    as_type {A = Text × (Text × (Text × List ℕ))}
      (λ p. record {
        id = p.0;
        key_type = p.1.0;
        controller = p.1.1.0;
        public_key_multibase = p.1.1.1;
      })
      (λ m. (m.id, (m.key_type, (m.controller, m.public_key_multibase)))) (λ m. refl)
      (both numbers (both numbers (both numbers numbers)))

abbrev service : Coder Service
service =
    as_type {A = Text × (Text × (Text × List (Text × Text)))}
      (λ p. record {
        id = p.0;
        service_type = p.1.0;
        service_endpoint = p.1.1.0;
        metadata = p.1.1.1;
      })
      (λ s. (s.id, (s.service_type, (s.service_endpoint, s.metadata)))) (λ s. refl)
      (both numbers (both numbers (both numbers (many (both numbers numbers)))))

abbrev DocumentFields : Type 0
DocumentFields =
    Text
    × (List VerificationMethod
        × (List VerificationMethod
            × (List Service × (ℤ × (ℤ × (Option Text × (Option Text × Option Text)))))))

abbrev documents : Coder DidDocument
documents =
    as_type {A = DocumentFields}
      (λ p. record {
        id = p.0;
        authentication = p.1.0;
        key_agreement = p.1.1.0;
        service = p.1.1.1.0;
        created_at = p.1.1.1.1.0;
        updated_at = p.1.1.1.1.1.0;
        display_name = p.1.1.1.1.1.1.0;
        avatar_cid = p.1.1.1.1.1.1.1.0;
        bio = p.1.1.1.1.1.1.1.1;
      })
      (λ d. (
        d.id,
        (
          d.authentication,
          (
            d.key_agreement,
            (d.service, (d.created_at, (d.updated_at, (d.display_name, (d.avatar_cid, d.bio))))),
          ),
        ),
      ))
      (λ d. refl)
      (both numbers (
        both (many method) (
          both (many method) (
            both (many service)
              (both int (both int (both (opt numbers) (both (opt numbers) (opt numbers)))))))))

abbrev Stored : Type 0
Stored = Text × (DidDocument × Option (List ℕ))

abbrev stored : Coder Stored
stored = both numbers (both documents (opt numbers))

abbrev restored : Result Text Stored → Result Text (Did keys)
restored (err e) = err e
restored (ok p) = ok (record {
  id = p.0;
  document = p.1.0;
  signing_key = none;
  x25519_secret = none;
  document_signature = p.1.1;
})

restored-stored :
    (d : Did keys)
    → restored (read_all (stored.read (stored.write (d.id, (d.document, d.document_signature)) [])))
      ≡ ok (without_secrets keys d)
unfolding without_secrets
restored-stored d =
    ap (λ r. restored (read_all r))
      (stored.read_write (d.id, (d.document, d.document_signature)) [])

abbrev json : Json keys
json = record {
  to_string = λ d. stored.write (d.id, (d.document, d.document_signature)) [];
  from_str = λ s. restored (read_all (stored.read s));
  from_str-to_string = restored-stored;
}

abbrev entry_json : Codec DiskEntry
entry_json = codec_of (
    as_type {A = Text × ℕ} (λ p. record { value = p.0; expires_at = p.1 })
      (λ e. (e.value, e.expires_at)) (λ e. refl) (both numbers number))

abbrev empty : MultiLayerCache in_memory keys json entry_json
empty = record {
  l1 = record { entries = []; ttl = 5 };
  l2 = record { entries = []; ttl = 60 };
  l3 = λ t. [];
}

filled : MultiLayerCache in_memory keys json entry_json
unfolding Cache.insert
filled = (Cache.insert in_memory keys json entry_json empty (1 ∷ []) owner 100 1000).0

filled_ok :
    Cache.insert in_memory keys json entry_json empty (1 ∷ []) owner 100 1000 ≡ (filled, ok tt)
unfolding filled Cache.insert verify_document get_verifying_key document_signing_bytes list_beq
filled_ok = refl

get-insert_example :
    (verify_document keys owner ≡ ok tt)
    × ((Cache.get in_memory keys json entry_json filled (1 ∷ []) 161 1500).1
        ≡ ok (some (without_secrets keys owner)))
get-insert_example =
    get-insert in_memory keys json entry_json empty filled (1 ∷ []) owner 100 1000 161 1500
      (Map.get (1 ∷ []) (filled.l3 disk_tree)) filled_ok refl refl
