-- ===== src/P2p/IdentityHandler/Found.antt =====
-- crates/variance-p2p/src/handlers/identity.rs: the answers that say whom was found, written out.
use variance.Prelude.{
  ℕ, Text, List, [], Option, none, some, ◌≡◌, refl, Option-cases, inl, inr, list_eq, nat_eq,
}
use variance.Prelude.Int.{ℤ, pos}
use variance.Identity.Did.{Keys, Did}
use variance.Identity.Username.{format_username}
use variance.Identity.Protocol.{IdentityResponse, found, create_success_response, signature_or_none}
use variance.P2p.IdentityHandler.{LocalIdentity, display_name_of, local_document, answer_about_self}

module _ (keys : Keys) where
  -- What is answered about a document that was cached: the document, with its signature if it has
  -- one, and no keys.
  abbrev pub as_published : Did keys → ℤ → IdentityResponse
  as_published d now = record {
    result = some (
        found (record {
          did_document = some d.document;
          ipns_key = none;
          multiaddrs = [];
          discriminator = none;
          olm_identity_key = [];
          one_time_keys = [];
          mls_key_package = none;
          username = none;
          mailbox_token = [];
          document_signature = elim d.document_signature [ none ↦ [] | some signature ↦ signature ];
        }));
    timestamp = now;
  }

  pub success-as_published :
      (d : Did keys) (now : ℤ) → create_success_response keys d now ≡ as_published d now
  unfolding create_success_response signature_or_none
  success-as_published d now = elim (Option-cases d.document_signature) [
    | inl unsigned ↦ rw (create_success_response, as_published, unsigned) refl
    | inr (signature, signed) ↦ rw (create_success_response, as_published, signed) refl
  ]

  -- The name with its number, where both are set.
  abbrev pub shown_name : Option Text → Option ℕ → Option Text
  shown_name name number = elim name [
    | none ↦ none
    | some n ↦ elim number [ none ↦ none | some k ↦ some (format_username n k) ]
  ]

  display_name_of-shown_name :
      (name : Option Text) (number : Option ℕ)
      → display_name_of keys name number ≡ shown_name name number
  unfolding display_name_of
  display_name_of-shown_name none number = refl
  display_name_of-shown_name (some n) none = refl
  display_name_of-shown_name (some n) (some k) = refl

  -- What is answered about the local user: the user's keys and name with the document and its
  -- signature, or without a signature a document that has only the DID and the name.
  abbrev pub as_local : LocalIdentity keys → List (List ℕ) → ℤ → IdentityResponse
  as_local l one_time_keys now = record {
    result = some (
        found (record {
          did_document = some (elim l.did_struct [
            | some d ↦ d.document
            | none ↦ record {
              id = l.did;
              authentication = [];
              key_agreement = [];
              service = [];
              created_at = pos 0;
              updated_at = pos 0;
              display_name = shown_name l.username l.discriminator;
              avatar_cid = none;
              bio = none;
            }
          ]);
          ipns_key = none;
          multiaddrs = [];
          discriminator = l.discriminator;
          olm_identity_key = l.olm_identity_key;
          one_time_keys = one_time_keys;
          mls_key_package = l.mls_key_package;
          username = l.username;
          mailbox_token = l.mailbox_token;
          document_signature = elim l.did_struct [
            | some d ↦ elim d.document_signature [ none ↦ [] | some signature ↦ signature ]
            | none ↦ []
          ];
        }));
    timestamp = now;
  }

  pub self-as_local :
      (l : LocalIdentity keys) (one_time_keys : List (List ℕ)) (now : ℤ)
      → answer_about_self keys (record l { one_time_keys = one_time_keys }) now
        ≡ as_local l one_time_keys now
  unfolding answer_about_self local_document signature_or_none
  self-as_local l one_time_keys now = elim (Option-cases l.did_struct) [
    | inl unknown ↦
        rw
          (
            answer_about_self,
            local_document,
            unknown,
            display_name_of-shown_name l.username l.discriminator,
          )
          refl
    | inr (d, known) ↦ elim (Option-cases d.document_signature) [
      | inl unsigned ↦ rw (answer_about_self, local_document, as_local, known, unsigned) refl
      | inr (signature, signed) ↦
          rw (answer_about_self, local_document, as_local, known, signed) refl
    ]
  ]
