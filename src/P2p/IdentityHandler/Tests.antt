-- ===== src/P2p/IdentityHandler/Tests.antt =====
-- A node that has been told of a document which shows the DID of someone else as its name.
use variance.Crypto.{toy}
use variance.Prelude.{
  ℕ, ◌≡◌, refl, Text, [], ◌∷◌, Option, none, some, inr, list_beq, list_eq, nat_eq,
}
use variance.Prelude.Int.{pos}
use variance.Prelude.Map
use variance.Identity.Did.{Keys, Did}
use variance.Identity.Protocol.{
  UsernameQuery, Query, did, username, peer_id, IdentityRequest, create_success_response,
}
use variance.P2p.IdentityHandler.{
  LocalIdentity, IdentityHandler, handle_request, resolve_did, resolve_cached, cache_did,
  update_one_time_keys,
}
use variance.P2p.IdentityHandler.Found.{as_published, as_local}
use variance.P2p.IdentityHandler.Answers.{
  names, cache_key, handle_request-cache_did, handle_request-update_one_time_keys,
}

abbrev keys : Keys
keys = record {
  ed25519 = toy;
  X25519Secret = ℕ;
  from_bytes = λ bytes. none;
  encode_document = λ d. d.id;
}

abbrev document : Text → Option Text → Did keys
document id name = record {
  id = id;
  document = record {
    id = id;
    authentication = [];
    key_agreement = [];
    service = [];
    created_at = pos 0;
    updated_at = pos 0;
    display_name = name;
    avatar_cid = none;
    bio = none;
  };
  signing_key = none;
  x25519_secret = none;
  document_signature = some (5 ∷ []);
}

abbrev me : LocalIdentity keys
me = record {
  did = 1 ∷ [];
  olm_identity_key = 2 ∷ [];
  one_time_keys = [];
  mls_key_package = none;
  username = none;
  discriminator = none;
  mailbox_token = [];
  did_struct = none;
}

abbrev node : IdentityHandler keys
node = record { peer_id = 9 ∷ []; cache = []; local_identity = some me }

abbrev asking : Query → IdentityRequest
asking q = record { query = some q; requester_did = none; timestamp = pos 0 }

abbrev by_name : UsernameQuery
by_name = record { username = 3 ∷ []; discriminator = none; subnet_id = none }

-- The document of 4, which shows the name 3, is what is answered for the DID 3, although the document
-- of 3 was cached before.
taken_over :
    handle_request keys (asking (did (3 ∷ []))) (pos 7) (
      cache_did keys
        (document (4 ∷ []) (some (3 ∷ [])))
        (cache_did keys (document (3 ∷ []) none) node))
    ≡ create_success_response keys (document (4 ∷ []) (some (3 ∷ []))) (pos 7)
unfolding handle_request resolve_did resolve_cached cache_did Map.get Map.insert list_beq
taken_over = refl

handle_request-cache_did_example :
    handle_request keys
      (asking (username by_name))
      (pos 7)
      (cache_did keys (document (4 ∷ []) (some (3 ∷ []))) node)
    ≡ as_published keys (document (4 ∷ []) (some (3 ∷ []))) (pos 7)
unfolding cache_key names list_beq
handle_request-cache_did_example =
    handle_request-cache_did keys (document (4 ∷ []) (some (3 ∷ []))) (asking (username by_name))
      (pos 7) node (username by_name) (3 ∷ []) refl refl

handle_request-update_one_time_keys_example :
    handle_request keys
      (asking (peer_id (9 ∷ [])))
      (pos 7)
      (update_one_time_keys keys ((6 ∷ []) ∷ []) node)
    ≡ as_local keys me ((6 ∷ []) ∷ []) (pos 7)
handle_request-update_one_time_keys_example =
    handle_request-update_one_time_keys keys (asking (peer_id (9 ∷ []))) (pos 7) me ((6 ∷ []) ∷ [])
      node refl (inr refl)
