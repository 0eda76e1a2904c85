-- ===== src/Messaging/Olm.antt =====
-- The cryptography of direct messages that is not in the repository, as parameters: vodozemac's Olm
-- accounts and sessions (the Double Ratchet), AES-256-GCM and HKDF. Random numbers are an argument of
-- what draws them. `one_time_keys` are those that are not published yet. What is relied on: two sessions that belong together stay so under each message,
-- which comes out as it was put in; a key, a message and a pickled session can be written and read;
-- what is encrypted at rest can be decrypted with the same key and nonce.
use variance.Prelude.{ℕ, Text, List, Option, some, Result, ok, ◌≡◌, length, nat_eq}
use variance.Prelude.Map
use variance.Prelude.Map.{Map}

-- `vodozemac::olm::OlmMessage`.
pub data OlmMessage (PreKey Normal : Type 0) : Type 0 where
  pre_key : PreKey → OlmMessage PreKey Normal
  normal : Normal → OlmMessage PreKey Normal

-- `SessionCreationError`, with the text of its display.
pub data SessionCreationError : Type 0 where
  missing_one_time_key : Text → SessionCreationError
  other_creation : Text → SessionCreationError

pub record Olm : Type 1 where
  pub Account : Type 0
  pub Session : Type 0
  pub PublicKey : Type 0
  pub PreKey : Type 0
  pub Normal : Type 0
  pub Entropy : Type 0
  pub to_vec : PublicKey → List ℕ
  pub from_bytes : List ℕ → PublicKey
  pub curve25519_key : Account → PublicKey
  pub generate_one_time_keys : Account → ℕ → Entropy → Account
  pub one_time_keys : Account → Map ℕ PublicKey
  pub mark_keys_as_published : Account → Account
  pub generate_fallback_key : Account → Entropy → Account × Option PublicKey
  pub forget_fallback_key : Account → Account
  pub create_outbound_session : Account → PublicKey → PublicKey → Entropy → Session
  pub create_inbound_session :
      Account → PublicKey → PreKey → Account × Result SessionCreationError (Session × List ℕ)
  pub encrypt : Session → List ℕ → Entropy → Session × OlmMessage PreKey Normal
  pub decrypt : Session → OlmMessage PreKey Normal → Session × Result Text (List ℕ)
  pub to_parts : OlmMessage PreKey Normal → ℕ × List ℕ
  pub from_parts : ℕ → List ℕ → Result Text (OlmMessage PreKey Normal)
  -- `serde_json::to_string(&account.pickle())`, and the same of a session.
  pub account_json : Account → Result Text Text
  pub session_json : Session → Result Text Text
  -- `serde_json::from_str`, with `Session::from_pickle`.
  pub session_of_json : Text → Result Text Session
  pub length-to_vec : (k : PublicKey) → length (to_vec k) ≡ 32
  pub from_bytes-to_vec : (k : PublicKey) → from_bytes (to_vec k) ≡ k
  -- The type in the parts is 0 or 1.
  pub to_parts-type :
      (m : OlmMessage PreKey Normal) → (to_parts m).0 ≡ (elim m [ pre_key p ↦ 0 | normal n ↦ 1 ])
  pub from_parts-to_parts :
      (m : OlmMessage PreKey Normal) → from_parts (to_parts m).0 (to_parts m).1 ≡ ok m
  pub session_of_json-session_json :
      (s : Session) (json : Text) → session_json s ≡ ok json → session_of_json json ≡ ok s
  -- What one session sends the other can decrypt.
  pub IsPaired : Session → Session → Type 0
  pub decrypt-encrypt :
      (from to : Session) (plaintext : List ℕ) (entropy : Entropy)
      → IsPaired from to
      → ((decrypt to (encrypt from plaintext entropy).1).1 ≡ ok plaintext)
        × IsPaired
            (encrypt from plaintext entropy).0
            (decrypt to (encrypt from plaintext entropy).1).0
  -- The account holds the secret half of a one-time key that was published and has not been used.
  pub HasPublished : Account → PublicKey → Type 0
  pub mark_keys_as_published-HasPublished :
      (a : Account) (id : ℕ) (key : PublicKey)
      → Map.get id (one_time_keys a) ≡ some key
      → HasPublished (mark_keys_as_published a) key
  -- The first message of a session reaches the account that has published its keys.
  pub create_inbound_session-encrypt :
      (a b : Account) (key : PublicKey) (e e' : Entropy) (plaintext : List ℕ) (s : Session)
      (p : PreKey)
      → HasPublished b key
      → encrypt (create_outbound_session a (curve25519_key b) key e) plaintext e' ≡ (s, pre_key p)
      → (b' : Account) × (t : Session) × (create_inbound_session b (curve25519_key a) p
          ≡ (b', ok (t, plaintext)))
        × IsPaired s t

-- AES-256-GCM, and the key that HKDF-SHA256 derives from the bytes of the signing key for a label.
pub record Aead (SigningKey : Type 0) : Type 1 where
  pub Key : Type 0
  pub hkdf : SigningKey → Text → Key
  -- A nonce has 12 bytes.
  pub aes_encrypt : Key → List ℕ → List ℕ → Result (Unit {0}) (List ℕ)
  pub aes_decrypt : Key → List ℕ → List ℕ → Result (Unit {0}) (List ℕ)
  pub aes_decrypt-aes_encrypt :
      (key : Key) (nonce plaintext ciphertext : List ℕ)
      → aes_encrypt key nonce plaintext ≡ ok ciphertext
      → aes_decrypt key nonce ciphertext ≡ ok plaintext
