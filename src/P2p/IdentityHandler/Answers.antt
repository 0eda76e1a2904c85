-- ===== src/P2p/IdentityHandler/Answers.antt =====
-- crates/variance-p2p/src/handlers/identity.rs: what is answered.
use variance.Prelude.{
  ℕ, Text, List, Option, none, some, Bool, false, codes, ◌≡◌, ◌⊎◌, refl, sym, ap, ap₂, ◌∙◌, arith,
  Option-cases, Bool-cases, inl, inr, eq_self, ◌==◌, list_eq, nat_eq, if◌then◌else◌, ◌||◌,
}
use variance.Prelude.Int.{ℤ}
use variance.Prelude.Map
use variance.Identity.Did.{Keys, Did}
use variance.Identity.Protocol.{Query, did, username, peer_id, IdentityRequest}
use variance.P2p.IdentityHandler.{
  LocalIdentity, IdentityHandler, resolve_cached, resolve_did, resolve_username, resolve_peer_id,
  handle_request, cache_did, update_one_time_keys,
}
use variance.P2p.IdentityHandler.Found.{as_published, success-as_published, as_local, self-as_local}

module _ (keys : Keys) where
  -- Whether a document is filed under a key: its DID's id or the name that it shows.
  unfoldable pub names : Did keys → Text → Bool
  names d key =
      (d.id == key) || (elim d.document.display_name [ none ↦ false | some name ↦ name == key ])

  -- Whether a query is about the local user.
  unfoldable pub about_self : IdentityHandler keys → Text → Bool
  about_self h id = elim h.local_identity [ none ↦ false | some l ↦ l.did == id ]

  get-cache_did :
      (d : Did keys) (key : Text) (h : IdentityHandler keys)
      → Map.get key (cache_did keys d h).cache
        ≡ (if names d key then some d else Map.get key h.cache)
  unfolding cache_did names
  get-cache_did d key h = elim (Option-cases d.document.display_name) [
    | inl hidden ↦ rw (cache_did, names, hidden) (ground (arith, Map.get-insert d.id key d h.cache))
    | inr (name, shown) ↦
        rw (cache_did, names, shown)
          (ground (
            arith,
            Map.get-insert name key d (Map.insert d.id d h.cache),
            Map.get-insert d.id key d h.cache,
          ))
  ]

  -- What a request asks the cache for, if it does.
  unfoldable pub cache_key : IdentityHandler keys → Query → Option Text
  unfolding about_self
  cache_key h (did id) = if about_self h id then none else some id
  cache_key h (username asked) = some asked.username
  cache_key h (peer_id id) = none

  resolve_cached-cache_did :
      (d : Did keys) (key reason : Text) (now : ℤ) (h : IdentityHandler keys)
      → resolve_cached keys key reason now (cache_did keys d h)
        ≡ (if names d key then as_published keys d now else resolve_cached keys key reason now h)
  unfolding resolve_cached
  resolve_cached-cache_did d key reason now h = elim (Bool-cases (names d key)) [
    | inl named ↦
        rw (resolve_cached, get-cache_did d key h, named) (success-as_published keys d now)
    | inr apart ↦ rw (resolve_cached, get-cache_did d key h, apart) refl
  ]

  kept_identity :
      (d : Did keys) (h : IdentityHandler keys)
      → ((cache_did keys d h).local_identity ≡ h.local_identity)
        × ((cache_did keys d h).peer_id ≡ h.peer_id)
  unfolding cache_did
  kept_identity d h = elim (Option-cases d.document.display_name) [
    | inl hidden ↦ rw (cache_did, hidden) (refl, refl)
    | inr (name, shown) ↦ rw (cache_did, shown) (refl, refl)
  ]

  resolve_did-cached :
      (id : Text) (now : ℤ) (h : IdentityHandler keys)
      → about_self h id ≡ false
      → resolve_did keys id now h
        ≡ resolve_cached keys id
            (codes "DID not found in cache. IPFS/IPNS resolution not yet implemented.")
            now
            h
  unfolding resolve_did about_self
  resolve_did-cached id now h apart = elim (Option-cases h.local_identity) [
    | inl unset ↦ rw (resolve_did, unset) refl
    | inr (l, known) ↦ rw (resolve_did, known, rw (about_self, known) at apart) refl
  ]

  key_of : {a b : Text} → ◌≡◌ {A = Option Text} (some a) (some b) → a ≡ b
  key_of e = cc

  none_sought : {b : Text} → ◌≡◌ {A = Option Text} none (some b) → ⊥
  none_sought e = cc

  -- After a document was cached, whoever asks for the id of its DID, where that is not the local
  -- user's, or for the name that it shows gets the document and, if it has one, its signature, and
  -- no keys; and whoever asks for another DID or name that the cache is asked for gets the answer
  -- that would have been given before.
  pub handle_request-cache_did :
      (d : Did keys) (request : IdentityRequest) (now : ℤ) (h : IdentityHandler keys) (q : Query)
      (key : Text)
      → request.query ≡ some q
      → cache_key h q ≡ some key
      → handle_request keys request now (cache_did keys d h)
        ≡ (if names d key then as_published keys d now else handle_request keys request now h)
  unfolding handle_request cache_key resolve_username
  handle_request-cache_did d request now h (username named) key asked sought =
      let same : named.username ≡ key = cc in
      rw (handle_request, asked, same)
        (resolve_cached-cache_did d key
          (codes "Username not found in cache. DHT provider lookup not yet implemented.") now h)
  handle_request-cache_did d request now h (did id) key asked sought =
      elim (Bool-cases (about_self h id)) [
        | inl own ↦ absurd (ground (arith, rw own at sought))
        | inr apart ↦
            let same : id ≡ key = key_of (rw apart at sought) in
            let still : about_self (cache_did keys d h) id ≡ false =
              ap (λ l. about_self (record h { local_identity = l }) id) (kept_identity d h).0
              ∙ apart in
            let reason =
              codes "DID not found in cache. IPFS/IPNS resolution not yet implemented." in
            rw (handle_request, asked)
              (resolve_did-cached id now (cache_did keys d h) still
                ∙ resolve_cached-cache_did d id reason now h
                ∙ ap₂ (λ k r. if names d k then as_published keys d now else r) same
                    (sym (resolve_did-cached id now h apart)))
      ]
  handle_request-cache_did d request now h (peer_id id) key asked sought =
      absurd (none_sought sought)

  updated_keys :
      (l : LocalIdentity keys) (one_time_keys : List (List ℕ)) (h : IdentityHandler keys)
      → h.local_identity ≡ some l
      → update_one_time_keys keys one_time_keys h
        ≡ record h { local_identity = some (record l { one_time_keys = one_time_keys }) }
  unfolding update_one_time_keys
  updated_keys l one_time_keys h known = rw (update_one_time_keys, known) refl

  -- Whoever asks for the local user, by the DID or by the peer id of the node, is answered with the
  -- one-time keys that were set last, with the Olm key, the key package, the name and the mailbox
  -- token of the user, and with the document of the user and its signature, or, where no document
  -- is set, without a signature and with a document of the DID and the name only.
  pub handle_request-update_one_time_keys :
      (request : IdentityRequest) (now : ℤ) (l : LocalIdentity keys) (one_time_keys : List (List ℕ))
      (h : IdentityHandler keys)
      → h.local_identity ≡ some l
      → (request.query ≡ some (did l.did)) ⊎ (request.query ≡ some (peer_id h.peer_id))
      → handle_request keys request now (update_one_time_keys keys one_time_keys h)
        ≡ as_local keys l one_time_keys now
  unfolding handle_request resolve_did resolve_peer_id
  handle_request-update_one_time_keys request now l one_time_keys h known (inl by_did) =
      ap (handle_request keys request now) (updated_keys l one_time_keys h known)
      ∙ (rw (handle_request, by_did, resolve_did, eq_self l.did)
          (self-as_local keys l one_time_keys now))
  handle_request-update_one_time_keys request now l one_time_keys h known (inr by_peer) =
      ap (handle_request keys request now) (updated_keys l one_time_keys h known)
      ∙ (rw
          (handle_request, by_peer, resolve_peer_id, eq_self h.peer_id, resolve_did, eq_self l.did)
          (self-as_local keys l one_time_keys now))
