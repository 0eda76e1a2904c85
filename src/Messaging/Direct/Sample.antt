-- ===== src/Messaging/Direct/Sample.antt =====
-- A platform for the tests, in memory: sessions count their messages, which are not hidden.
use mathlib.Core.Path.{subst}
use variance.Prelude.{
  ℕ, zero, suc, Text, List, [], ◌∷◌, ◌++◌, Option, none, some, true, map, contains, Bool-cases, inl,
  inr, ◌==◌, Result, ok, err, ◌≡◌, refl, sym, ap, arith, length-replicate, replicate, eqb, eq_self,
  list_eq, nat_eq, if◌then◌else◌,
}
use variance.Prelude.Int.{ℤ}
use variance.Prelude.Map
use variance.Prelude.Map.{Map}
use variance.Crypto.{toy}
use variance.Messaging.Proto.{MessageContent, Attachment}
use variance.Messaging.Olm.{
  Olm, OlmMessage, pre_key, normal, SessionCreationError, missing_one_time_key,
}
use variance.Messaging.Storage.Sled.{Codec, in_memory}
use variance.Messaging.Storage.Sample.{sample_direct}
use variance.Messaging.Storage.Sample.Base.{
  Coder, number, both, as_type, numbers, int, opt, many, codec_of,
}
use variance.Messaging.Direct.{Platform}
use variance.Messaging.Direct.Local.{local_direct}

abbrev pub AttachmentFields : Type 0
AttachmentFields = ℤ × (Text × (Text × (ℕ × (Text × Option Text))))

abbrev pub to_attachment : AttachmentFields → Attachment
to_attachment (a, (b, (c, (d, (e, f))))) = record {
  attachment_type = a;
  cid = b;
  name = c;
  size = d;
  mime_type = e;
  thumbnail_cid = f;
}

abbrev pub from_attachment : Attachment → AttachmentFields
from_attachment a = (a.attachment_type, (a.cid, (a.name, (a.size, (a.mime_type, a.thumbnail_cid)))))

abbrev pub attachment_coder : Coder Attachment
attachment_coder =
    as_type to_attachment from_attachment (λ a. refl)
      (both int (both numbers (both numbers (both number (both numbers (opt numbers))))))

abbrev pub ContentFields : Type 0
ContentFields = Text × (List Attachment × (List Text × (Option Text × Map Text Text)))

abbrev pub to_content : ContentFields → MessageContent
to_content (a, (b, (c, (d, e)))) = record {
  text = a;
  attachments = b;
  mentions = c;
  reply_to = d;
  metadata = e;
}

abbrev pub from_content : MessageContent → ContentFields
from_content c = (c.text, (c.attachments, (c.mentions, (c.reply_to, c.metadata))))

abbrev pub sample_content : Codec MessageContent
sample_content = codec_of (
    as_type to_content from_content (λ c. refl)
      (both numbers (
        both (many attachment_coder)
          (both (many numbers) (both (opt numbers) (many (both numbers numbers)))))))

abbrev pub ToyAccount : Type 0
ToyAccount = ℕ × Map ℕ ℕ × List ℕ

-- An account is its key, its one-time keys that are not published and those that are; a session is the number of the next message.
abbrev pub Message : Type 0
Message = OlmMessage (List ℕ) (ℕ × List ℕ)

abbrev pub toy_encrypt : ℕ → List ℕ → ℕ × Message
toy_encrypt zero plaintext = (1, pre_key plaintext)
toy_encrypt (suc n) plaintext = (suc (suc n), normal (suc n, plaintext))

abbrev pub toy_decrypt : ℕ → Message → ℕ × Result Text (List ℕ)
toy_decrypt zero (pre_key plaintext) = (1, ok plaintext)
toy_decrypt (suc n) (pre_key plaintext) = (suc n, err [])
toy_decrypt n (normal (k, plaintext)) = if eqb k n then (suc n, ok plaintext) else (n, err [])

abbrev pub toy_to_parts : Message → ℕ × List ℕ
toy_to_parts (pre_key plaintext) = (0, plaintext)
toy_to_parts (normal (k, plaintext)) = (1, k ∷ plaintext)

abbrev pub toy_from_parts : ℕ → List ℕ → Result Text Message
toy_from_parts zero body = ok (pre_key body)
toy_from_parts (suc zero) (k ∷ plaintext) = ok (normal (k, plaintext))
toy_from_parts _ _ = err []

abbrev pub head_or_zero : List ℕ → ℕ
head_or_zero [] = 0
head_or_zero (n ∷ ns) = n

abbrev pub toy_of_json : Text → Result Text ℕ
toy_of_json (n ∷ []) = ok n
toy_of_json _ = err []

pub toy_parts : (m : Message) → toy_from_parts (toy_to_parts m).0 (toy_to_parts m).1 ≡ ok m
toy_parts (pre_key plaintext) = refl
toy_parts (normal (k, plaintext)) = refl

pub toy_type : (m : Message) → (toy_to_parts m).0 ≡ (elim m [ pre_key p ↦ 0 | normal n ↦ 1 ])
toy_type (pre_key plaintext) = refl
toy_type (normal (k, plaintext)) = refl

pub toy_pickled :
    (n : ℕ) (json : Text)
    → ◌≡◌ {A = Result Text Text} (ok (n ∷ [])) (ok json)
    → toy_of_json json ≡ ok n
toy_pickled n json e = rw (sym (same e)) refl
  where
    same : {a b : Text} → ◌≡◌ {A = Result Text Text} (ok a) (ok b) → a ≡ b
    same e = cc

pub toy_round :
    (from to : ℕ) (plaintext : List ℕ)
    → from ≡ to
    → ((toy_decrypt to (toy_encrypt from plaintext).1).1 ≡ ok plaintext)
      × ((toy_encrypt from plaintext).0 ≡ (toy_decrypt to (toy_encrypt from plaintext).1).0)
toy_round zero zero plaintext e = (refl, refl)
toy_round (suc n) to plaintext e = ground arith
toy_round zero (suc n) plaintext e = absurd (omega arith)

pub toy_first :
    (plaintext : List ℕ) (s : ℕ) (p : List ℕ)
    → ◌≡◌ {A = ℕ × Message} (toy_encrypt 0 plaintext) (s, pre_key p)
    → (s ≡ 1) × (p ≡ plaintext)
toy_first plaintext s p e = (sym (ap (λ q. q.0) e), sym (body (ap (λ q. q.1) e)))
  where
    body : {a b : List ℕ} → ◌≡◌ {A = Message} (pre_key a) (pre_key b) → a ≡ b
    body e = cc

-- A first message uses up a published key.
abbrev pub toy_inbound : ToyAccount → List ℕ → ToyAccount × Result SessionCreationError (ℕ × List ℕ)
toy_inbound (k, ready, []) plaintext = ((k, ready, []), err (missing_one_time_key []))
toy_inbound (k, ready, key ∷ keys) plaintext = ((k, ready, keys), ok (1, plaintext))

pub toy_accepts :
    (b : ToyAccount) (key : ℕ) (plaintext : List ℕ) (s : ℕ) (p : List ℕ)
    → contains key b.2 ≡ true
    → ◌≡◌ {A = ℕ × Message} (toy_encrypt 0 plaintext) (s, pre_key p)
    → (b' : ToyAccount) × (t : ℕ) × (toy_inbound b p ≡ (b', ok (t, plaintext))) × (s ≡ t)
unfolding contains
toy_accepts (k, ready, []) key plaintext s p held e = absurd (ground arith)
toy_accepts (k, ready, first ∷ keys) key plaintext s p held e =
    let (one, same) = toy_first plaintext s p e in
    ((k, ready, keys), 1, ap (toy_inbound (k, ready, first ∷ keys)) same, one)

pub toy_published :
    (id key : ℕ) (ready : Map ℕ ℕ) (published : List ℕ)
    → Map.get id ready ≡ some key
    → contains key (map (λ k. k.1) ready ++ published) ≡ true
unfolding Map.get contains
toy_published id key [] published found = absurd (ground arith)
toy_published id key ((j, other) ∷ ready) published found = elim (Bool-cases (j == id)) [
  | inl here ↦ let same : other ≡ key = value_of (rw here at found) in ground (arith, eq_self key)
  | inr apart ↦ ground (arith, toy_published id key ready published (rw apart at found))
]
  where
    value_of : {a b : ℕ} → ◌≡◌ {A = Option ℕ} (some a) (some b) → a ≡ b
    value_of e = cc

abbrev pub toy_olm : Olm
toy_olm = record {
  Account = ToyAccount;
  Session = ℕ;
  PublicKey = ℕ;
  PreKey = List ℕ;
  Normal = ℕ × List ℕ;
  Entropy = ℕ;
  to_vec = replicate 32;
  from_bytes = head_or_zero;
  curve25519_key = λ a. a.0;
  generate_one_time_keys = λ a count e. (a.0, (count, e) ∷ a.1, a.2);
  one_time_keys = λ a. a.1;
  mark_keys_as_published = λ a. (a.0, [], map (λ k. k.1) a.1 ++ a.2);
  generate_fallback_key = λ a e. (a, none);
  forget_fallback_key = λ a. a;
  create_outbound_session = λ a key otk e. 0;
  create_inbound_session = λ a key p. toy_inbound a p;
  encrypt = λ s plaintext e. toy_encrypt s plaintext;
  decrypt = toy_decrypt;
  to_parts = toy_to_parts;
  from_parts = toy_from_parts;
  account_json = λ a. ok [];
  session_json = λ s. ok (s ∷ []);
  session_of_json = toy_of_json;
  length-to_vec = length-replicate 32;
  from_bytes-to_vec = λ k. refl;
  to_parts-type = toy_type;
  from_parts-to_parts = toy_parts;
  session_of_json-session_json = toy_pickled;
  IsPaired = λ s t. s ≡ t;
  decrypt-encrypt = λ s t plaintext e paired. toy_round s t plaintext paired;
  HasPublished = λ a key. contains key a.2 ≡ true;
  mark_keys_as_published-HasPublished = λ a id key ready. toy_published id key a.1 a.2 ready;
  create_inbound_session-encrypt =
      λ a b key e e' plaintext s p held first. toy_accepts b key plaintext s p held first;
}

abbrev pub toy_open : ℕ → List ℕ → List ℕ → Result (Unit {0}) (List ℕ)
toy_open key nonce [] = err tt
toy_open key nonce (k ∷ plaintext) = if eqb k key then ok plaintext else err tt

pub toy_opened :
    (key : ℕ) (nonce plaintext ciphertext : List ℕ)
    → ◌≡◌ {A = Result (Unit {0}) (List ℕ)} (ok (key ∷ plaintext)) (ok ciphertext)
    → toy_open key nonce ciphertext ≡ ok plaintext
toy_opened key nonce plaintext ciphertext e =
    subst (λ c. toy_open key nonce c ≡ ok plaintext) (same e) (rw (eq_self key) refl)
  where
    same : {a b : List ℕ} → ◌≡◌ {A = Result (Unit {0}) (List ℕ)} (ok a) (ok b) → a ≡ b
    same e = cc

abbrev pub sample_platform : Platform
sample_platform = record {
  signer = toy;
  olm = toy_olm;
  aead = record {
    Key = ℕ;
    hkdf = λ key label. key;
    aes_encrypt = λ key nonce plaintext. ok (key ∷ plaintext);
    aes_decrypt = toy_open;
    aes_decrypt-aes_encrypt = toy_opened;
  };
  storage = local_direct in_memory sample_direct;
  codec = sample_content;
}
