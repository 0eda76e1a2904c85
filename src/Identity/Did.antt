-- ===== src/Identity/Did.antt =====
-- crates/variance-identity/src/did.rs: a DID, its document and the document's signature. Ed25519 and the
-- encoding of a document by prost are parameters. An error's message ends before the number or the error of
-- another crate that the source adds.
use variance.Crypto.{Ed25519}
use variance.Prelude.{
  ℕ, Text, List, [], ◌∷◌, ◌++◌, Option, none, some, Result, ok, err, codes, length, eqb, ◌==◌,
  list_eq, nat_eq, if◌then◌else◌, not,
}
use variance.Prelude.Int.{ℤ}
use variance.Prelude.Map.{Map}
use variance.Identity.Errors.{Error, invalid_did, crypto, signature_verification, missing_signature}

pub record VerificationMethod : Type 0 where
  pub id : Text
  pub key_type : Text
  pub controller : Text
  pub public_key_multibase : List ℕ

pub record Service : Type 0 where
  pub id : Text
  pub service_type : Text
  pub service_endpoint : Text
  pub metadata : Map Text Text

pub record DidDocument : Type 0 where
  pub id : Text
  pub authentication : List VerificationMethod
  pub key_agreement : List VerificationMethod
  pub service : List Service
  pub created_at : ℤ
  pub updated_at : ℤ
  pub display_name : Option Text
  pub avatar_cid : Option Text
  pub bio : Option Text

-- What did.rs asks of Ed25519 beside the calls of the record.
pub record Keys : Type 1 where
  pub ed25519 : Ed25519
  pub X25519Secret : Type 0
  -- `VerifyingKey::from_bytes`, of 32 bytes.
  pub from_bytes : List ℕ → Option ed25519.VerifyingKey
  -- `encode_to_vec` of the document's message, which has the document's fields.
  pub encode_document : DidDocument → List ℕ

module _ (keys : Keys) where
  open keys use {ed25519, X25519Secret, from_bytes, encode_document}
  open ed25519 use {SigningKey, VerifyingKey, sign, verify}

  pub record Did : Type 0 where
    pub id : Text
    pub document : DidDocument
    pub signing_key : Option SigningKey
    pub x25519_secret : Option X25519Secret
    pub document_signature : Option (List ℕ)

  unfoldable pub get_verifying_key : Did → Result Error VerifyingKey
  get_verifying_key d = elim d.document.authentication [
    | [] ↦ err (invalid_did (d.id ++ codes ": No authentication method in DID document"))
    | m ∷ ms ↦
        if not (m.key_type == codes "Ed25519VerificationKey2020")
        then err (
            invalid_did (
              d.id
              ++ (codes ": Unsupported key type: "
                  ++ (m.key_type ++ codes ". Expected Ed25519VerificationKey2020"))))
        else (if not (eqb (length m.public_key_multibase) 32)
            then err (invalid_did (d.id ++ codes ": Public key must be 32 bytes"))
            else elim (from_bytes m.public_key_multibase) [
              | none ↦ err (invalid_did (d.id ++ codes ": Invalid Ed25519 public key"))
              | some key ↦ ok key
            ])
  ]

  unfoldable pub document_signing_bytes : Did → List ℕ
  document_signing_bytes d = encode_document d.document

  unfoldable pub sign_document : Did → Result Error Did
  unfolding document_signing_bytes
  sign_document d = elim d.signing_key [
    | none ↦ err (crypto (d.id ++ codes ": cannot sign without signing key"))
    | some key ↦ ok (record d { document_signature = some (sign key (document_signing_bytes d)) })
  ]

  -- A signature has 64 bytes.
  unfoldable pub verify_document : Did → Result Error (Unit {0})
  unfolding document_signing_bytes
  verify_document d = elim d.document_signature [
    | none ↦ err (missing_signature d.id)
    | some signature ↦
        if not (eqb (length signature) 64)
        then err (signature_verification d.id (codes "malformed signature"))
        else elim (get_verifying_key d) [
          | err e ↦ err e
          | ok key ↦
              if verify key (document_signing_bytes d) signature
              then ok tt
              else err (signature_verification d.id (codes "Ed25519 verification failed"))
        ]
  ]

  -- What serde keeps of a DID: all but the secrets.
  unfoldable pub without_secrets : Did → Did
  without_secrets d = record d { signing_key = none; x25519_secret = none }
