-- ===== src/Messaging/Direct/Tests.antt =====
-- Two users with a database in memory, who send messages to each other.
use variance.Prelude.{
  ℕ, ◌≡◌, refl, replicate, some, List, [], ◌∷◌, none, some, ok, list_beq, nat_eq, list_eq,
}
use variance.Prelude.Int.{pos}
use variance.Prelude.Map
use variance.Messaging.Proto.{MessageContent, DirectMessage, message_type_i32}
use variance.Messaging.Storage.Io.{◌>>◌, return}
use variance.Messaging.Storage.Direct.{
  store_direct, store_plaintext, fetch_plaintext, store_session_pickle,
}
use variance.Messaging.Direct.{
  DirectMessageHandler, persist_plaintext, persist_session, init_session_if_needed,
  init_session_as_initiator, put_session, one_time_keys, mark_one_time_keys_as_published,
}
use variance.Messaging.Direct.Exchange.{
  Fresh, keep, keep_plaintext, decrypt_message, decrypt_pre_key, send_encrypted, signed_message,
  sign_message, infer_message_type, attached_key, send_message, receive_message,
  get_message_content,
}
use variance.Messaging.Direct.Contents.{
  get_message_content-send_message, get_message_content-receive_message,
}
use variance.Messaging.Direct.Sessions.{session_or, OnlySession, init_session_if_needed_lem}
use variance.Messaging.Direct.Receiving.{Received, receive_message-Received}
use variance.Messaging.Direct.Runs.{Keeps, run, init, send, receive, run-Keeps}
use variance.Messaging.Direct.Delivery.{IsConnected, receive_message-send_message}
use variance.Messaging.Direct.Conversation.{IsReliable, Sending, exchange, exchange_lem}
use variance.Messaging.Direct.First.{one_time_keys-HasPublished, receive_message-init_session}
use variance.Messaging.Direct.Sample.{sample_platform}

abbrev Handler : Type 0
Handler = DirectMessageHandler sample_platform

abbrev user : ℕ → Handler
user n = record {
  local_did = n ∷ [];
  signing_key = n;
  account = (n, (3, 33) ∷ [], []);
  identity_key = n;
  sessions = [];
  store = λ t. [];
  storage_key = n;
}

abbrev alice : Handler
alice = put_session sample_platform (8 ∷ []) 0 (user 7)

abbrev bob : Handler
bob = put_session sample_platform (7 ∷ []) 0 (user 8)

abbrev nonce : List ℕ
nonce = 0 ∷ 0 ∷ 0 ∷ 0 ∷ 0 ∷ 0 ∷ 0 ∷ 0 ∷ 0 ∷ 0 ∷ 0 ∷ 0 ∷ []

abbrev fresh : ℕ → Fresh sample_platform
fresh n = record { id = n ∷ []; now = pos n; nonce = nonce; entropy = 0 }

abbrev saying : ℕ → MessageContent
saying n = record { text = n ∷ []; attachments = []; mentions = []; reply_to = none; metadata = [] }

reliable : IsReliable sample_platform
unfolding store_direct store_plaintext
reliable = record {
  stores_direct = λ m s. refl;
  stores_plaintext = λ id blob s. refl;
  encrypts = λ key nonce plaintext. (key ∷ plaintext, refl);
}

connected : IsConnected sample_platform alice bob
unfolding list_beq Map.get Map.insert
connected = record { from = 0; to = 0; others = refl; sends = refl; receives = refl; paired = refl }

abbrev two : List (Sending sample_platform)
two =
    record { fresh = fresh 1; nonce = nonce; content = saying 4 }
    ∷ record { fresh = fresh 2; nonce = nonce; content = saying 5 }
    ∷ []

exchange_lem_example : exchange sample_platform two alice bob ≡ ok (saying 4) ∷ ok (saying 5) ∷ []
exchange_lem_example = exchange_lem sample_platform reliable two alice bob connected

-- The first message of Alice to Bob.
abbrev sent : DirectMessage
sent = record {
  id = 1 ∷ [];
  sender_did = 7 ∷ [];
  recipient_did = 8 ∷ [];
  ciphertext = 1 ∷ 4 ∷ 0 ∷ 0 ∷ 0 ∷ 0 ∷ [];
  olm_message_type = 0;
  signature = replicate 64 7;
  timestamp = pos 1;
  message_type = pos 1;
  reply_to = none;
  sender_identity_key = some (replicate 32 7);
}

abbrev after_sending : Handler → Handler
after_sending h = (send_message sample_platform (fresh 1) (8 ∷ []) (saying 4) h).0

sending :
    send_message sample_platform (fresh 1) (8 ∷ []) (saying 4) alice
    ≡ (after_sending alice, ok sent)
unfolding send_message send_encrypted list_beq Map.get Map.insert signed_message keep
    persist_plaintext sign_message infer_message_type message_type_i32 attached_key store_direct
    store_plaintext
sending = refl

get_message_content-send_message_example :
    get_message_content sample_platform nonce sent (after_sending alice)
    ≡ (after_sending alice, ok (saying 4))
unfolding fetch_plaintext
get_message_content-send_message_example =
    get_message_content-send_message sample_platform (fresh 1) nonce (8 ∷ []) (saying 4) alice
      (after_sending alice) sent _ refl sending refl

receive_message-send_message_example :
    (c : Handler) × (receive_message sample_platform nonce sent bob
      ≡ (keep sample_platform nonce sent (saying 4) >> return (saying 4)) c)
    × IsConnected sample_platform
        (after_sending alice)
        (receive_message sample_platform nonce sent bob).0
receive_message-send_message_example =
    receive_message-send_message sample_platform (fresh 1) nonce (saying 4) alice
      (after_sending alice) bob sent connected sending

abbrev after_receiving : Handler
after_receiving = (receive_message sample_platform nonce sent bob).0

receiving : receive_message sample_platform nonce sent bob ≡ (after_receiving, ok (saying 4))
unfolding receive_message list_beq Map.get Map.insert keep keep_plaintext decrypt_message
    decrypt_pre_key persist_plaintext persist_session store_direct store_plaintext
    store_session_pickle
receiving = refl

get_message_content-receive_message_example :
    get_message_content sample_platform [] sent after_receiving ≡ (after_receiving, ok (saying 4))
unfolding fetch_plaintext
get_message_content-receive_message_example =
    get_message_content-receive_message sample_platform nonce [] (saying 4) bob after_receiving sent
      _ refl receiving refl

receive_message-Received_example :
    Received sample_platform sent bob (receive_message sample_platform nonce sent bob).0
receive_message-Received_example = receive_message-Received sample_platform nonce sent bob

run-Keeps_example : Keeps sample_platform bob (
    run sample_platform
      (receive nonce sent ∷ send (fresh 2) (7 ∷ []) (saying 6) ∷ init (9 ∷ []) 4 5 0 ∷ [])
      bob)
run-Keeps_example =
    run-Keeps sample_platform
      (receive nonce sent ∷ send (fresh 2) (7 ∷ []) (saying 6) ∷ init (9 ∷ []) 4 5 0 ∷ []) bob

-- Bob, who has published his keys.
abbrev published : Handler
published = mark_one_time_keys_as_published sample_platform (user 8)

-- Alice makes her session from Bob's keys, and Bob his from her first message.
abbrev initiated : Handler
initiated = (init_session_if_needed sample_platform (8 ∷ []) 8 33 0 (user 7)).0

init_session_if_needed_lem_example :
    (Map.get (8 ∷ []) initiated.sessions
      ≡ some (session_or sample_platform (8 ∷ []) 8 33 0 (user 7)))
    × OnlySession sample_platform (8 ∷ []) (user 7) initiated
    × (initiated.account ≡ (user 7).account)
    × (init_session_if_needed sample_platform (8 ∷ []) 1 2 0 initiated ≡ (initiated, ok tt))
init_session_if_needed_lem_example =
    init_session_if_needed_lem sample_platform (8 ∷ []) 8 33 1 2 0 0 (user 7) initiated _ refl

abbrev as_initiator : Handler
as_initiator = (init_session_as_initiator sample_platform (8 ∷ []) 8 33 0 (user 7)).0

first_sending :
    send_message sample_platform (fresh 1) (8 ∷ []) (saying 4) as_initiator
    ≡ (after_sending as_initiator, ok sent)
unfolding init_session_as_initiator persist_session store_session_pickle send_message send_encrypted
    list_beq Map.get Map.insert signed_message keep persist_plaintext sign_message
    infer_message_type message_type_i32 attached_key store_direct store_plaintext
first_sending = refl

receive_message-init_session_example :
    (c : Handler) × (receive_message sample_platform nonce sent published
      ≡ (keep sample_platform nonce sent (saying 4) >> return (saying 4)) c)
    × IsConnected sample_platform
        (after_sending as_initiator)
        (receive_message sample_platform nonce sent published).0
unfolding Map.get list_beq mark_one_time_keys_as_published one_time_keys
receive_message-init_session_example =
    receive_message-init_session sample_platform 0 (fresh 1) nonce (saying 4) 33 (user 7)
      as_initiator (after_sending as_initiator) published sent 1 (1 ∷ 4 ∷ 0 ∷ 0 ∷ 0 ∷ 0 ∷ []) _ refl
      (one_time_keys-HasPublished sample_platform 3 33 (user 8) refl) refl refl refl refl
      first_sending
