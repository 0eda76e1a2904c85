-- ===== src/Crypto.antt =====
-- Ed25519 as the crates call it (`ed25519_dalek`). The crate is not in the repository: its types and
-- calls are a parameter of the code that signs and verifies, with what its documentation promises.
use variance.Prelude.{
  ℕ, List, Bool, true, ◌≡◌, length, replicate, length-replicate, list_beq, eq_self, list_eq, nat_eq,
}

pub record Ed25519 : Type 1 where
  pub SigningKey : Type 0
  pub VerifyingKey : Type 0
  pub verifying_key : SigningKey → VerifyingKey
  -- `signing_key.sign(data).to_bytes().to_vec()`.
  pub sign : SigningKey → List ℕ → List ℕ
  -- `key.verify(data, signature).is_ok()`, for a signature of 64 bytes.
  pub verify : VerifyingKey → List ℕ → List ℕ → Bool
  pub length-sign : (k : SigningKey) (bytes : List ℕ) → length (sign k bytes) ≡ 64
  pub verify-sign :
      (k : SigningKey) (bytes : List ℕ) → verify (verifying_key k) bytes (sign k bytes) ≡ true

-- A scheme that keeps the promises, for concrete runs: a signature is 64 copies of the key, and a
-- verifying key accepts its own.
abbrev pub toy : Ed25519
toy = record {
  SigningKey = ℕ;
  VerifyingKey = ℕ;
  verifying_key = λ k. k;
  sign = λ k bytes. replicate 64 k;
  verify = λ k bytes signature. list_beq signature (replicate 64 k);
  length-sign = λ k bytes. length-replicate 64 k;
  verify-sign = λ k bytes. eq_self {A = List ℕ} (replicate 64 k);
}
