-- ===== src/Identity/Protocol.antt =====
-- crates/variance-identity/src/protocol.rs and crates/variance-proto/proto/identity.proto: the requests
-- and the answers of the identity protocol. A document on the wire has the fields of a document. The
-- clock is an argument.
use variance.Prelude.{ℕ, Text, List, [], Option, none, some}
use variance.Prelude.Int.{ℤ}
use variance.Identity.Did.{Keys, Did, DidDocument}

pub record UsernameQuery : Type 0 where
  pub username : Text
  pub discriminator : Option ℕ
  pub subnet_id : Option Text

pub data Query : Type 0 where
  username : UsernameQuery → Query
  did : Text → Query
  peer_id : Text → Query

pub record IdentityRequest : Type 0 where
  pub query : Option Query
  pub requester_did : Option Text
  pub timestamp : ℤ

pub record IdentityFound : Type 0 where
  pub did_document : Option DidDocument
  pub ipns_key : Option Text
  pub multiaddrs : List Text
  pub discriminator : Option ℕ
  pub olm_identity_key : List ℕ
  pub one_time_keys : List (List ℕ)
  pub mls_key_package : Option (List ℕ)
  pub username : Option Text
  pub mailbox_token : List ℕ
  pub document_signature : List ℕ

pub data Outcome : Type 0 where
  found : IdentityFound → Outcome
  not_found : Text → Text → Outcome
  error : Text → Text → Outcome

pub record IdentityResponse : Type 0 where
  pub result : Option Outcome
  pub timestamp : ℤ

unfoldable pub create_username_request : Text → Option Text → ℤ → IdentityRequest
create_username_request name requester_did now = record {
  query = some (username (record { username = name; discriminator = none; subnet_id = none }));
  requester_did = requester_did;
  timestamp = now;
}

unfoldable pub create_did_request : Text → Option Text → ℤ → IdentityRequest
create_did_request id requester_did now = record {
  query = some (did id);
  requester_did = requester_did;
  timestamp = now;
}

unfoldable pub create_peer_id_request : Text → Option Text → ℤ → IdentityRequest
create_peer_id_request id requester_did now = record {
  query = some (peer_id id);
  requester_did = requester_did;
  timestamp = now;
}

unfoldable pub create_not_found_response : Text → Text → ℤ → IdentityResponse
create_not_found_response query reason now = record {
  result = some (not_found query reason);
  timestamp = now;
}

unfoldable pub create_error_response : Text → Text → ℤ → IdentityResponse
create_error_response e details now = record { result = some (error e details); timestamp = now }

-- `unwrap_or_default` of a signature.
unfoldable pub signature_or_none : Option (List ℕ) → List ℕ
signature_or_none none = []
signature_or_none (some signature) = signature

module _ (keys : Keys) where
  unfoldable pub create_success_response : Did keys → ℤ → IdentityResponse
  unfolding signature_or_none
  create_success_response d now = record {
    result = some (
        found (record {
          did_document = some d.document;
          ipns_key = none;
          multiaddrs = [];
          discriminator = none;
          olm_identity_key = [];
          one_time_keys = [];
          mls_key_package = none;
          username = none;
          mailbox_token = [];
          document_signature = signature_or_none d.document_signature;
        }));
    timestamp = now;
  }
