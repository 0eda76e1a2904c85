-- ===== src/P2p/RateLimiter/Decisions.antt =====
-- What a check decides, what it costs, and whom it concerns.
use variance.Prelude.{
  ℕ, ◌-◌, ◌^◌, ◌≡◌, ◌⊎◌, inl, inr, ◌∙◌, Text, some, Bool-cases, true, false, arith, ap, list_eq,
  nat_eq, pair_eq,
}
use variance.Prelude.Map
use variance.P2p.Float.{Float}
use variance.P2p.RateLimiter.{
  TokenBucket, BucketConfig, PeerRateLimiter, RateLimitDecision, allowed, protocol_limited,
  global_limited, refill, try_consume, undo, protocol_entry, global_entry, put_protocol,
  check_global, check_protocol,
}
use variance.P2p.RateLimiter.Buckets.{IsCapped, undo-try_consume}

module _ (f : Float) where
  open f use {of_u32, le}

  refused-refill :
      (b : TokenBucket f) (now : ℕ)
      → (try_consume f b now).1 ≡ false
      → (try_consume f b now).0 ≡ refill f b now
  unfolding try_consume
  refused-refill b now h = ground arith

  -- The bucket that stands for a peer on a protocol, once a check has come that far.
  abbrev pub Stands : PeerRateLimiter f → Text → Text → TokenBucket f → Type 0
  Stands l peer label b = Map.get (peer, label) l.protocol_buckets ≡ some b

  abbrev pub StandsGlobal : PeerRateLimiter f → Text → TokenBucket f → Type 0
  StandsGlobal l peer b = Map.get peer l.global_buckets ≡ some b

  check_global_lem :
      (l : PeerRateLimiter f) (peer label : Text) (b : TokenBucket f) (now : ℕ)
      → Stands l peer label b
      → let (l', d) = check_global f l peer label b now in
        let g = global_entry f l peer now in
        ((d ≡ allowed)
          × Stands l' peer label b
          × ((try_consume f g now).1 ≡ true)
          × StandsGlobal l' peer (try_consume f g now).0)
        ⊎ ((d ≡ global_limited)
            × Stands l' peer label (undo f b)
            × ((try_consume f g now).1 ≡ false)
            × StandsGlobal l' peer (refill f g now))
  unfolding check_global
  check_global_lem l peer label b now stands =
      let g = global_entry f l peer now in
      elim (Bool-cases (try_consume f g now).1) [
        | inl granted ↦ inl (
          ground (arith, granted),
          ground (arith, granted),
          granted,
          ground
              (arith, granted, Map.get-insert_self peer (try_consume f g now).0 l.global_buckets),
        )
        | inr refused ↦ inr (
          ground (arith, refused),
          ground (arith, refused, Map.get-insert_self (peer, label) (undo f b) l.protocol_buckets),
          refused,
          ground (
            arith,
            refused,
            refused-refill g now refused,
            Map.get-insert_self peer (try_consume f g now).0 l.global_buckets,
          ),
        )
      ]

  -- A decision on a request of a peer whose protocol bucket is `b` and whose global bucket is `g`,
  -- with the limiter before and after it.
  pub data Verdict (l l' : PeerRateLimiter f) (peer label : Text) (b g : TokenBucket f) (now : ℕ)
      : RateLimitDecision → Type 0 where
    by_protocol :
        (try_consume f b now).1 ≡ false
        → Stands l' peer label (refill f b now)
        → l'.global_buckets ≡ l.global_buckets
        → Verdict l l' peer label b g now protocol_limited
    by_global :
        (try_consume f b now).1 ≡ true
        → (try_consume f g now).1 ≡ false
        → Stands l' peer label (refill f b now)
        → StandsGlobal l' peer (refill f g now)
        → Verdict l l' peer label b g now global_limited
    granted :
        (try_consume f b now).1 ≡ true
        → (try_consume f g now).1 ≡ true
        → Stands l' peer label (try_consume f b now).0
        → StandsGlobal l' peer (try_consume f g now).0
        → Verdict l l' peer label b g now allowed

  protocol_entry-globals :
      (l : PeerRateLimiter f) (peer label : Text) (config : BucketConfig f) (now : ℕ)
      (b : TokenBucket f)
      → let l₀ = (protocol_entry f l peer label config now).0 in
        (l₀.global_buckets ≡ l.global_buckets)
        × (global_entry f (put_protocol f l₀ peer label b) peer now ≡ global_entry f l peer now)
  unfolding protocol_entry global_entry put_protocol
  protocol_entry-globals l peer label config now b = ground arith

  check_global-Verdict :
      (l l₀ : PeerRateLimiter f) (peer label : Text) (b g : TokenBucket f) (now : ℕ)
      → global_entry f l₀ peer now ≡ g
      → IsCapped f b
      → le b.max_tokens (of_u32 (2 ^ 32 - 1)) ≡ true
      → (try_consume f b now).1 ≡ true
      → Stands l₀ peer label (try_consume f b now).0
      → let (l', d) = check_global f l₀ peer label (try_consume f b now).0 now in
        Verdict l l' peer label b g now d
  check_global-Verdict l l₀ peer label b g now e v bound took stands =
      rw (← e) (elim (check_global_lem l₀ peer label (try_consume f b now).0 now stands) [
        | inl (d, keeps, passed, paid) ↦ rw d (granted took passed keeps paid)
        | inr (d, keeps, refused, same) ↦
            rw d (by_global took refused (rw (undo-try_consume f b now v bound took) at keeps) same)
      ])

  -- What a check of a known protocol decides and costs, for a peer whose bucket is capped below 2 ^
  -- 32: a refusal by the protocol's bucket leaves the global buckets, a refusal by the global
  -- bucket costs the protocol's bucket nothing, and an allowed request takes a token of each.
  pub check_protocol-Verdict :
      (l : PeerRateLimiter f) (peer label : Text) (config : BucketConfig f) (now : ℕ)
      (b : TokenBucket f)
      → (protocol_entry f l peer label config now).1 ≡ b
      → IsCapped f b
      → le b.max_tokens (of_u32 (2 ^ 32 - 1)) ≡ true
      → let (l', d) = check_protocol f l peer label config now in
        Verdict l l' peer label b (global_entry f l peer now) now d
  unfolding check_protocol
  check_protocol-Verdict l peer label config now b e v bound =
      let l₀ = (protocol_entry f l peer label config now).0 in
      let b' = (try_consume f b now).0 in
      let stands = Map.get-insert_self (peer, label) b' l₀.protocol_buckets in
      let (same, global) = protocol_entry-globals l peer label config now b' in
      rw e (elim (Bool-cases (try_consume f b now).1) [
        | inl took ↦ rw took (
            check_global-Verdict l (put_protocol f l₀ peer label b') peer label b
              (global_entry f l peer now) now global v bound took stands)
        | inr refused ↦
            rw refused (by_protocol refused (stands ∙ ap some (refused-refill b now refused)) same)
      ])
