-- ===== src/Lib.antt =====
-- The verification library of Variance, a peer-to-peer messenger with calls. The program is a set of
-- crates: variance-media (calls and the signed messages that set them up), variance-messaging (direct
-- and group messages, receipts, typing indicators), variance-p2p (the node, its protocols and its rate
-- limiter), variance-identity (DIDs and user names), variance-relay (the relay server), and around them
-- variance-app (HTTP API and event router). The event router hands what arrives from the network to the
-- handlers of media and messaging, and the API calls the same handlers for the local user; the node asks
-- the rate limiter before it answers a peer.
--
-- Which file models what:
--   Crypto.antt              Ed25519, as a parameter: sign and verify, and what is relied on of them
--   Media/Proto.antt         crates/variance-proto/proto/media.proto
--   Media/WebRtc.antt        the WebRTC stack, as a parameter
--   Media/Call.antt          crates/variance-media/src/call.rs: CallManager, one function for each method
--   Media/Call/Negotiation   offers, answers and candidates of the same file
--   Media/Call/Steps         requests and connection events as one step, and runs of them
--   Media/Signaling.antt     crates/variance-media/src/signaling.rs: SignalingHandler
--   P2p/Float.antt           f64, as a parameter
--   P2p/RateLimiter.antt     crates/variance-p2p/src/rate_limiter.rs: TokenBucket, PeerRateLimiter
--   P2p/PeerStore.antt       crates/variance-p2p/src/peer_store.rs: PeerStore, over Sled
--   P2p/IdentityHandler.antt crates/variance-p2p/src/handlers/identity.rs: IdentityHandler
--   Messaging/Receipts.antt  crates/variance-messaging/src/receipts.rs: ReceiptHandler
--   Messaging/Typing.antt    crates/variance-messaging/src/typing.rs: TypingHandler
--   Messaging/Proto.antt     crates/variance-proto/proto/messaging.proto: what is stored and relayed
--   Messaging/Offline.antt   crates/variance-messaging/src/offline.rs: OfflineRelayHandler, and the answer
--                            to a peer in crates/variance-p2p/src/handlers/offline.rs
--   Messaging/Olm.antt       vodozemac, AES-GCM and HKDF, as parameters
--   Messaging/Direct.antt    crates/variance-messaging/src/direct.rs: DirectMessageHandler, its keys,
--                            sessions and stored plaintexts; Direct/Exchange is what it sends and
--                            receives, Direct/Local the storage of Messaging/Storage as its storage
--   Messaging/OpenMls.antt   OpenMLS, as a parameter
--   Messaging/Groups.antt    crates/variance-messaging/src/mls.rs: MlsGroupHandler and invitations;
--                            Groups/Membership its members and messages, Groups/Desync the counters of
--                            failures, Groups/Recovery a group made anew, plaintexts and snapshots
--   Messaging/Storage        crates/variance-messaging/src/storage: Sled is the database, as a parameter,
--                            Io the operations on it, Keys the keys of mod.rs; Direct and Pending are
--                            direct.rs, Group and GroupState group.rs; Receipts, Invitations and Offline
--                            are the modules of these names
--   Identity/Did.antt        crates/variance-identity/src/did.rs: Did and the signature of its document
--   Identity/Protocol.antt   crates/variance-identity/src/protocol.rs: requests and responses
--   Identity/Cache.antt      crates/variance-identity/src/cache.rs: MultiLayerCache, over Sled
--   Identity/Username.antt   crates/variance-identity/src/username.rs: UsernameRegistry
--   App/RateLimit.antt       crates/variance-app/src/api/rate_limit.rs: LocalRateLimit
--   Relay.antt               crates/variance-relay/src/main.rs: RelayStats and the handling of events
--   Prelude                  lists, results, maps, integers of a fixed width and their bytes
-- The files in the folder of a component hold its proofs and, in Tests, runs on concrete values.
--
-- How the state corresponds to the code: a struct is a record with the source's fields; a method is a
-- function of its name that takes the record and returns it, with the result at the right. A HashMap or
-- a DashMap is an association list that is read through `get`. A String is the list of its bytes, in
-- Identity/Username that of its characters. What the code asks of its surroundings is an argument:
-- the clock, random bytes, the storage, the WebRTC stack, the signature scheme, Olm and MLS, the
-- encryption at rest, floating point, the database sled with the codecs of prost, serde and hex. A storage operation takes the database and
-- returns it with a result, an error included; a tree of the database holds its entries in the order
-- of their keys, and keys are valid UTF-8. An operation reads a clock once. A method that holds no
-- lock between two steps, as end_call while it closes a connection, is composed of these steps, so
-- that other requests can be put between them.
--
-- Bounds: an i32 or i64 is an integer, with the wrap-around of its subtraction written out; a usize of
-- the relay's counters wraps at 2 ^ 64. A discriminator, a u32, has at most ten decimal digits, which is
-- the fuel that `decimal` is given in Identity/Username.antt. Other loops are recursion on the list that
-- they go through or on the attempts that the source allows.
--
-- Not modelled: the codecs, the event loops around libp2p, the inside of MLS and of the Double Ratchet
-- (third-party crates), the HTTP API and the user interface. Of the storage, the pickle of the Olm
-- account and the names of peers are left out, and each operation is one step: two that run at the same
-- time are not put between each other. The creation of DIDs, the storage of documents in IPFS, the tokens
-- of mailboxes and the node's handler of signaling messages are not covered.
pub mod Prelude
pub mod Crypto
pub mod Media
pub mod P2p
pub mod Messaging
pub mod Identity
pub mod App
pub mod Relay
