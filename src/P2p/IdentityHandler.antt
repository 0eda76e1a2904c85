-- ===== src/P2p/IdentityHandler.antt =====
-- crates/variance-p2p/src/handlers/identity.rs: IdentityHandler, which answers who a peer asks about.
-- The clock is an argument, and a peer id is its text.
pub mod Answers
pub mod Found
mod Tests
use variance.Prelude.{
  ℕ, Text, List, [], ◌∷◌, Option, none, some, Bool, true, false, Result, ok, err, codes, ◌==◌,
  list_eq, nat_eq, if◌then◌else◌,
}
use variance.Prelude.Int.{ℤ, pos}
use variance.Prelude.Map
use variance.Prelude.Map.{Map}
use variance.Identity.Did.{Keys, Did, DidDocument}
use variance.Identity.Username.{format_username}
use variance.Identity.Protocol.{
  Query, did, username, peer_id, IdentityRequest, IdentityResponse, IdentityFound, found,
  create_not_found_response, create_error_response, create_success_response, signature_or_none,
}

module _ (keys : Keys) where
  pub record LocalIdentity : Type 0 where
    pub did : Text
    pub olm_identity_key : List ℕ
    pub one_time_keys : List (List ℕ)
    pub mls_key_package : Option (List ℕ)
    pub username : Option Text
    pub discriminator : Option ℕ
    pub mailbox_token : List ℕ
    pub did_struct : Option (Did keys)

  -- The keys of the cache are DIDs and user names.
  pub record IdentityHandler : Type 0 where
    pub peer_id : Text
    pub cache : Map Text (Did keys)
    pub local_identity : Option LocalIdentity

  unfoldable pub new_handler : Text → IdentityHandler
  new_handler id = record { peer_id = id; cache = []; local_identity = none }

  unfoldable pub set_local_identity :
      Text
      → List ℕ
      → List (List ℕ)
      → Option (List ℕ)
      → List ℕ
      → Option (Did keys)
      → IdentityHandler
      → IdentityHandler
  set_local_identity id olm_identity_key one_time_keys mls_key_package mailbox_token did_struct h =
      record h {
        local_identity = some (record {
          did = id;
          olm_identity_key = olm_identity_key;
          one_time_keys = one_time_keys;
          mls_key_package = mls_key_package;
          username = none;
          discriminator = none;
          mailbox_token = mailbox_token;
          did_struct = did_struct;
        });
      }

  abbrev pub update_local : (LocalIdentity → LocalIdentity) → IdentityHandler → IdentityHandler
  update_local f h = elim h.local_identity [
    | none ↦ h
    | some l ↦ record h { local_identity = some (f l) }
  ]

  unfoldable pub set_local_username : Text → ℕ → IdentityHandler → IdentityHandler
  set_local_username name number =
      update_local (λ l. record l { username = some name; discriminator = some number })

  unfoldable pub update_one_time_keys : List (List ℕ) → IdentityHandler → IdentityHandler
  update_one_time_keys one_time_keys =
      update_local (λ l. record l { one_time_keys = one_time_keys })

  unfoldable pub update_mls_key_package : List ℕ → IdentityHandler → IdentityHandler
  update_mls_key_package key_package =
      update_local (λ l. record l { mls_key_package = some key_package })

  unfoldable pub display_name_of : Option Text → Option ℕ → Option Text
  display_name_of (some name) (some number) = some (format_username name number)
  display_name_of _ _ = none

  -- The document of the local user and its signature.
  unfoldable pub local_document : LocalIdentity → DidDocument × List ℕ
  unfolding display_name_of
  local_document l = elim l.did_struct [
    | some d ↦ (d.document, signature_or_none d.document_signature)
    | none ↦ (
      record {
        id = l.did;
        authentication = [];
        key_agreement = [];
        service = [];
        created_at = pos 0;
        updated_at = pos 0;
        display_name = display_name_of l.username l.discriminator;
        avatar_cid = none;
        bio = none;
      },
      [],
    )
  ]

  unfoldable pub answer_about_self : LocalIdentity → ℤ → IdentityResponse
  unfolding local_document
  answer_about_self l now =
      let (document, signature) = local_document l in
      record {
        result = some (
            found (record {
              did_document = some document;
              ipns_key = none;
              multiaddrs = [];
              discriminator = l.discriminator;
              olm_identity_key = l.olm_identity_key;
              one_time_keys = l.one_time_keys;
              mls_key_package = l.mls_key_package;
              username = l.username;
              mailbox_token = l.mailbox_token;
              document_signature = signature;
            }));
        timestamp = now;
      }

  unfoldable pub resolve_cached : Text → Text → ℤ → IdentityHandler → IdentityResponse
  resolve_cached key reason now h = elim (Map.get key h.cache) [
    | some d ↦ create_success_response keys d now
    | none ↦ create_not_found_response key reason now
  ]

  unfoldable pub resolve_did : Text → ℤ → IdentityHandler → IdentityResponse
  unfolding answer_about_self resolve_cached
  resolve_did id now h =
      let cached =
        resolve_cached id
          (codes "DID not found in cache. IPFS/IPNS resolution not yet implemented.") now h in
      elim h.local_identity [
        | none ↦ cached
        | some l ↦ if l.did == id then answer_about_self l now else cached
      ]

  unfoldable pub resolve_username : Text → ℤ → IdentityHandler → IdentityResponse
  unfolding resolve_cached
  resolve_username name =
      resolve_cached name
        (codes "Username not found in cache. DHT provider lookup not yet implemented.")

  unfoldable pub resolve_peer_id : Text → ℤ → IdentityHandler → IdentityResponse
  unfolding resolve_did
  resolve_peer_id id now h =
      let unknown = create_not_found_response id (codes "No DID known for this PeerId") now in
      elim h.local_identity [
        | none ↦ unknown
        | some l ↦ if id == h.peer_id then resolve_did l.did now h else unknown
      ]

  unfoldable pub handle_request : IdentityRequest → ℤ → IdentityHandler → IdentityResponse
  unfolding resolve_did resolve_username resolve_peer_id
  handle_request request now h = elim request.query [
    | none ↦
        create_error_response (codes "Invalid request") (codes "Request must contain a query") now
    | some (did id) ↦ resolve_did id now h
    | some (username asked) ↦ resolve_username asked.username now h
    | some (peer_id id) ↦ resolve_peer_id id now h
  ]

  unfoldable pub cache_did : Did keys → IdentityHandler → IdentityHandler
  cache_did d h =
      let cache = Map.insert d.id d h.cache in
      elim d.document.display_name [
        | none ↦ record h { cache = cache }
        | some name ↦ record h { cache = Map.insert name d cache }
      ]

  unfoldable pub get_cached_did : Text → IdentityHandler → Option (Did keys)
  get_cached_did key h = Map.get key h.cache
