-- ===== src/Messaging/Direct/Sessions.antt =====
-- crates/variance-messaging/src/direct.rs: what the operations do to the sessions and the account.
use variance.Prelude.{
  Text, none, some, false, Result, ok, ◌≡◌, refl, sym, ap, ◌∙◌, Option-cases, inl, inr, ◌==◌,
  list_eq, nat_eq,
}
use variance.Prelude.Map
use variance.Messaging.Errors.{Error}
use variance.Messaging.Direct.{
  Platform, DirectMessageHandler, put_session, init_session_as_initiator, init_session_if_needed,
}
use variance.Messaging.Direct.Frames.{ChangesStore, persist_session-ChangesStore}
use mathlib.Core.Path.{subst}

module _ (p : Platform) where
  open p.olm use {Session, PublicKey, Entropy, PreKey, Normal}

  -- The sessions of all peers but one are the same.
  abbrev pub OnlySession : Text → DirectMessageHandler p → DirectMessageHandler p → Type 0
  OnlySession did h h' =
      (other : Text) → (did == other) ≡ false → Map.get other h'.sessions ≡ Map.get other h.sessions

  pub init_session_as_initiator-ChangesStore :
      (did : Text) (key otk : PublicKey) (entropy : Entropy) (h : DirectMessageHandler p)
      → ChangesStore p
          (put_session p did (p.olm.create_outbound_session h.account key otk entropy) h)
          (init_session_as_initiator p did key otk entropy h).0
  unfolding init_session_as_initiator
  init_session_as_initiator-ChangesStore did key otk entropy h =
      persist_session-ChangesStore p did
        (put_session p did (p.olm.create_outbound_session h.account key otk entropy) h)

  pub session_exists :
      (did : Text) (key otk : PublicKey) (entropy : Entropy) (h : DirectMessageHandler p)
      (session : Session)
      → Map.get did h.sessions ≡ some session
      → init_session_if_needed p did key otk entropy h ≡ (h, ok tt)
  unfolding init_session_if_needed Map.contains_key
  session_exists did key otk entropy h session present =
      rw (init_session_if_needed, Map.contains_key, present) refl

  pub session_missing :
      (did : Text) (key otk : PublicKey) (entropy : Entropy) (h : DirectMessageHandler p)
      → Map.get did h.sessions ≡ none
      → init_session_if_needed p did key otk entropy h
        ≡ init_session_as_initiator p did key otk entropy h
  unfolding init_session_if_needed Map.contains_key
  session_missing did key otk entropy h absent =
      rw (init_session_if_needed, Map.contains_key, absent) refl

  -- The session that a peer has, and the one that is made where there is none.
  abbrev pub session_or : Text → PublicKey → PublicKey → Entropy → DirectMessageHandler p → Session
  session_or did key otk entropy h = elim (Map.get did h.sessions) [
    | some session ↦ session
    | none ↦ p.olm.create_outbound_session h.account key otk entropy
  ]

  -- Init_session_if_needed leaves a session that is there, and otherwise makes one with the keys,
  -- though storing it may fail. The sessions of other peers and the account stay. Once it has
  -- returned, a second call finds the session and changes nothing, whatever its keys.
  pub init_session_if_needed_lem :
      (did : Text) (key otk key' otk' : PublicKey) (entropy entropy' : Entropy)
      (h h' : DirectMessageHandler p) (result : Result Error (Unit {0}))
      → init_session_if_needed p did key otk entropy h ≡ (h', result)
      → (Map.get did h'.sessions ≡ some (session_or did key otk entropy h))
        × OnlySession did h h'
        × (h'.account ≡ h.account)
        × (init_session_if_needed p did key' otk' entropy' h' ≡ (h', ok tt))
  init_session_if_needed_lem did key otk key' otk' entropy entropy' h h' result e =
      elim (Option-cases (Map.get did h.sessions)) [
        | inl absent ↦
            let session = p.olm.create_outbound_session h.account key otk entropy in
            let h₁ = put_session p did session h in
            let changed : h' ≡ record h₁ { store = h'.store } =
              subst (ChangesStore p h₁)
                (ap (λ q. q.0) (sym (session_missing did key otk entropy h absent) ∙ e))
                (init_session_as_initiator-ChangesStore did key otk entropy h) in
            let present : Map.get did h'.sessions ≡ some session =
              ap (λ g. Map.get did g.sessions) changed
              ∙ Map.get-insert_self did session h.sessions in
            (
              rw (session_or, absent) present,
              λ other ne.
                  ap (λ g. Map.get other g.sessions) changed
                  ∙ (rw (Map.get-insert did other session h.sessions, ne) refl),
              ap (λ g. g.account) changed,
              session_exists did key' otk' entropy' h' session present,
            )
        | inr (session, present) ↦
            let same : h ≡ h' =
              ap (λ q. q.0) (rw (session_exists did key otk entropy h session present) at e) in
            let there : Map.get did h'.sessions ≡ some session = rw same at present in
            (
              rw (session_or, present) there,
              λ other ne. ap (λ g. Map.get other g.sessions) (sym same),
              ap (λ g. g.account) (sym same),
              session_exists did key' otk' entropy' h' session there,
            )
      ]
