-- ===== src/P2p/RateLimiter.antt =====
-- crates/variance-p2p/src/rate_limiter.rs: token buckets for each peer and protocol, and one for each
-- peer. Time is an argument of each call, in nanoseconds, read once for a whole check. A peer id and a
-- protocol label are texts.
pub mod Buckets
pub mod Index
pub mod Decisions
mod Tests
use variance.Prelude.{
  ℕ, ◌-◌, Text, List, [], ◌∷◌, ◌++◌, Option, none, some, Bool, true, false, if◌then◌else◌, codes,
  list_eq, nat_eq, pair_eq, length,
}
use variance.Prelude.Map
use variance.Prelude.Map.{Map}
use variance.P2p.Float.{Float}

pub data RateLimitDecision : Type 0 where
  allowed protocol_limited global_limited : RateLimitDecision

unfoldable pub is_allowed : RateLimitDecision → Bool
is_allowed allowed = true
is_allowed _ = false

pub data Label : Type 0 where
  identity direct_messages offline_messages typing_indicators signaling rename group_sync : Label

-- The constants of `mod protocol`.
unfoldable pub label_text : Label → Text
label_text identity = codes "identity"
label_text direct_messages = codes "direct_messages"
label_text offline_messages = codes "offline_messages"
label_text typing_indicators = codes "typing_indicators"
label_text signaling = codes "signaling"
label_text rename = codes "rename"
label_text group_sync = codes "group_sync"

module _ (f : Float) where
  open f use {F64, of_u32, as_secs_f64, add, sub, mul, div, min, le}

  pub record TokenBucket : Type 0 where
    pub tokens : F64
    pub max_tokens : F64
    pub refill_rate : F64
    pub last_refill : ℕ

  pub record BucketConfig : Type 0 where
    pub max_tokens : F64
    pub refill_rate : F64

  unfoldable pub new_bucket : BucketConfig → ℕ → TokenBucket
  new_bucket c now = record {
    tokens = c.max_tokens;
    max_tokens = c.max_tokens;
    refill_rate = c.refill_rate;
    last_refill = now;
  }

  -- `duration_since` gives zero where the clock did not advance.
  unfoldable pub refill : TokenBucket → ℕ → TokenBucket
  refill b now = record b {
    tokens =
        min (add b.tokens (mul (as_secs_f64 (now - b.last_refill)) b.refill_rate)) b.max_tokens;
    last_refill = now;
  }

  -- `try_consume` after its refill.
  unfoldable pub take_token : TokenBucket → TokenBucket × Bool
  take_token b =
      if le (of_u32 1) b.tokens
      then (record b { tokens = sub b.tokens (of_u32 1) }, true)
      else (b, false)

  unfoldable pub try_consume : TokenBucket → ℕ → TokenBucket × Bool
  unfolding take_token
  try_consume b now = take_token (refill b now)

  unfoldable pub from_window : ℕ → ℕ → BucketConfig
  from_window tokens window_secs = record {
    max_tokens = of_u32 tokens;
    refill_rate = div (of_u32 tokens) (of_u32 window_secs);
  }

  pub record PeerRateLimiter : Type 0 where
    pub protocol_buckets : Map (Text × Text) TokenBucket
    pub global_buckets : Map Text TokenBucket
    pub configs : Map Text BucketConfig
    pub global_config : BucketConfig
    pub peer_protocols : Map Text (List Text)

  unfoldable pub set_protocol_config : PeerRateLimiter → Text → BucketConfig → PeerRateLimiter
  set_protocol_config l protocol config = record l {
    configs = Map.insert protocol config l.configs;
  }

  unfoldable pub new_limiter : PeerRateLimiter
  unfolding set_protocol_config from_window label_text
  new_limiter =
      let l₀ : PeerRateLimiter = record {
        protocol_buckets = [];
        global_buckets = [];
        configs = [];
        global_config = from_window 500 60;
        peer_protocols = [];
      } in
      let l₁ = set_protocol_config l₀ (label_text direct_messages) (from_window 60 60) in
      let l₂ = set_protocol_config l₁ (label_text typing_indicators) (from_window 20 60) in
      let l₃ = set_protocol_config l₂ (label_text signaling) (from_window 30 60) in
      let l₄ = set_protocol_config l₃ (label_text identity) (from_window 10 60) in
      let l₅ = set_protocol_config l₄ (label_text offline_messages) (from_window 3 60) in
      let l₆ = set_protocol_config l₅ (label_text rename) (from_window 2 60) in
      set_protocol_config l₆ (label_text group_sync) (from_window 10 60)

  unfoldable pub with_global_config : BucketConfig → PeerRateLimiter
  unfolding new_limiter
  with_global_config config = record new_limiter { global_config = config }

  -- `peer_protocols.entry(peer).or_default()`.
  unfoldable pub protocols_of : PeerRateLimiter → Text → List Text
  protocols_of l peer = elim (Map.get peer l.peer_protocols) [ none ↦ [] | some ps ↦ ps ]

  -- `protocol_buckets.entry(key).or_insert_with(..)`: the bucket, and the limiter with a first request
  -- recorded in the index.
  unfoldable pub protocol_entry :
      PeerRateLimiter → Text → Text → BucketConfig → ℕ → PeerRateLimiter × TokenBucket
  unfolding new_bucket protocols_of
  protocol_entry l peer label config now = elim (Map.get (peer, label) l.protocol_buckets) [
    | some b ↦ (l, b)
    | none ↦ (
      record l {
        peer_protocols = Map.insert peer (protocols_of l peer ++ label ∷ []) l.peer_protocols;
      },
      new_bucket config now,
    )
  ]

  unfoldable pub global_entry : PeerRateLimiter → Text → ℕ → TokenBucket
  unfolding new_bucket
  global_entry l peer now = elim (Map.get peer l.global_buckets) [
    | some b ↦ b
    | none ↦ new_bucket l.global_config now
  ]

  unfoldable pub put_protocol : PeerRateLimiter → Text → Text → TokenBucket → PeerRateLimiter
  put_protocol l peer label b = record l {
    protocol_buckets = Map.insert (peer, label) b l.protocol_buckets;
  }

  unfoldable pub put_global : PeerRateLimiter → Text → TokenBucket → PeerRateLimiter
  put_global l peer b = record l { global_buckets = Map.insert peer b l.global_buckets }

  -- The token that a request took is put back where the other bucket denies it.
  unfoldable pub undo : TokenBucket → TokenBucket
  undo b = record b { tokens = min (add b.tokens (of_u32 1)) b.max_tokens }

  -- `check` past the protocol's bucket, which stands at `b` after it gave a token.
  unfoldable pub check_global :
      PeerRateLimiter → Text → Text → TokenBucket → ℕ → PeerRateLimiter × RateLimitDecision
  unfolding put_protocol put_global
  check_global l peer label b now =
      let (g, granted) = try_consume (global_entry l peer now) now in
      let l' = put_global l peer g in
      if granted then (l', allowed) else (put_protocol l' peer label (undo b), global_limited)

  unfoldable pub check_protocol :
      PeerRateLimiter → Text → Text → BucketConfig → ℕ → PeerRateLimiter × RateLimitDecision
  unfolding put_protocol
  check_protocol l peer label config now =
      let (l', b) = protocol_entry l peer label config now in
      let (b', granted) = try_consume b now in
      let l'' = put_protocol l' peer label b' in
      if granted then check_global l'' peer label b' now else (l'', protocol_limited)

  unfoldable pub check : PeerRateLimiter → Text → Text → ℕ → PeerRateLimiter × RateLimitDecision
  check l peer label now = elim (Map.get label l.configs) [
    | none ↦ (l, allowed)
    | some config ↦ check_protocol l peer label config now
  ]

  -- The loop of `remove_peer` over the labels of the index.
  unfoldable pub remove_all :
      Text → List Text → Map (Text × Text) TokenBucket → Map (Text × Text) TokenBucket
  remove_all peer [] m = m
  remove_all peer (p ∷ ps) m = remove_all peer ps (Map.remove (peer, p) m)

  unfoldable pub remove_peer : PeerRateLimiter → Text → PeerRateLimiter
  unfolding remove_all
  remove_peer l peer = elim (Map.get peer l.peer_protocols) [
    | none ↦ record l { global_buckets = Map.remove peer l.global_buckets }
    | some protocols ↦ record l {
      global_buckets = Map.remove peer l.global_buckets;
      peer_protocols = Map.remove peer l.peer_protocols;
      protocol_buckets = remove_all peer protocols l.protocol_buckets;
    }
  ]

  unfoldable pub tracked_peer_count : PeerRateLimiter → ℕ
  tracked_peer_count l = length l.global_buckets
