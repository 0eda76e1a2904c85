-- ===== src/P2p/RateLimiter/Buckets.antt =====
-- One token bucket: its cap, and the burst that it lets through.
use variance.Prelude.{
  ℕ, zero, suc, ◌-◌, ◌≤◌, ◌^◌, ◌≡◌, refl, Bool-cases, true, false, inl, inr, arith, if◌then◌else◌,
  ◌∙◌,
}
use Prim.Native.Nat.{min as min_ℕ}
use variance.P2p.Float.{Float}
use variance.P2p.RateLimiter.{
  TokenBucket, BucketConfig, new_bucket, refill, try_consume, undo, take_token,
}

module _ (f : Float) where
  open f use {
    of_u32, min, le, sub, add, mul, as_secs_f64, min-le, min_of_le, sub-one-le, sub-add-one,
    le_trans, le-of_u32, sub-of_u32, add-zero,
  }

  -- A bucket holds no more than its maximum, which is a number.
  pub record IsCapped (b : TokenBucket f) : Type 0 where
    pub number : le b.max_tokens b.max_tokens ≡ true
    pub within : le b.tokens b.max_tokens ≡ true

  pub new_bucket-IsCapped :
      (c : BucketConfig f) (now : ℕ)
      → le c.max_tokens c.max_tokens ≡ true
      → IsCapped (new_bucket f c now)
  unfolding new_bucket
  new_bucket-IsCapped c now h = record { number = h; within = h }

  pub refill-IsCapped : (b : TokenBucket f) (now : ℕ) → IsCapped b → IsCapped (refill f b now)
  unfolding refill
  refill-IsCapped b now v = record { number = v.number; within = min-le _ b.max_tokens v.number }

  pub try_consume-IsCapped :
      (b : TokenBucket f) (now : ℕ) → IsCapped b → IsCapped (try_consume f b now).0
  unfolding try_consume
  try_consume-IsCapped b now v =
      let r = refill-IsCapped b now v in
      elim (Bool-cases (le (of_u32 1) (refill f b now).tokens)) [
        | inl full ↦ rw full (record { number = r.number; within = sub-one-le _ _ full r.within })
        | inr low ↦ rw low r
      ]

  pub undo-IsCapped : (b : TokenBucket f) → IsCapped b → IsCapped (undo f b)
  unfolding undo
  undo-IsCapped b v = record { number = v.number; within = min-le _ b.max_tokens v.number }

  refill-max : (b : TokenBucket f) (now : ℕ) → (refill f b now).max_tokens ≡ b.max_tokens
  unfolding refill
  refill-max b now = refl

  undo-taken :
      (r : TokenBucket f)
      → IsCapped r
      → le r.max_tokens (of_u32 (2 ^ 32 - 1)) ≡ true
      → (take_token f r).1 ≡ true
      → undo f (take_token f r).0 ≡ r
  unfolding take_token undo
  undo-taken r v bound granted = ground (
    arith,
    le_trans r.tokens r.max_tokens (of_u32 (2 ^ 32 - 1)) v.within bound,
    sub-add-one r.tokens,
    min_of_le r.tokens r.max_tokens v.within,
  )

  -- A token that is put back leaves the bucket as the refill made it: the request costs it nothing.
  pub undo-try_consume :
      (b : TokenBucket f) (now : ℕ)
      → IsCapped b
      → le b.max_tokens (of_u32 (2 ^ 32 - 1)) ≡ true
      → (try_consume f b now).1 ≡ true
      → undo f (try_consume f b now).0 ≡ refill f b now
  unfolding try_consume undo
  undo-try_consume b now v bound granted =
      undo-taken (refill f b now) (refill-IsCapped b now v) (rw (refill-max b now) bound)
        (ground arith)

  -- A refill at the time of the last one changes nothing.
  refill_same :
      (b : TokenBucket f) (now : ℕ)
      → b.last_refill ≡ now
      → le b.tokens b.tokens ≡ true
      → le b.tokens b.max_tokens ≡ true
      → le (of_u32 0) b.refill_rate ≡ true
      → le b.refill_rate (of_u32 (2 ^ 32 - 1)) ≡ true
      → refill f b now ≡ b
  unfolding refill
  refill_same b now t self cap low high =
      let none_passed : now - b.last_refill ≡ 0 = omega arith in
      rw none_passed (
        ground (
          arith,
          add-zero b.tokens b.refill_rate low high self,
          min_of_le b.tokens b.max_tokens cap,
        ))

  -- `n` requests at one moment, and how many of them pass.
  unfoldable pub burst : TokenBucket f → ℕ → ℕ → ℕ
  burst b now zero = 0
  burst b now (suc n) =
      let (b', granted) = try_consume f b now in
      let rest = burst b' now n in if granted then suc rest else rest

  -- A bucket of `k` tokens, at the time of its last refill and with a finite rate.
  pub record Holds (b : TokenBucket f) (k now : ℕ) : Type 0 where
    pub tokens : b.tokens ≡ of_u32 k
    pub bound : k ≤ 2 ^ 32 - 1
    pub refilled : b.last_refill ≡ now
    pub within : le b.tokens b.max_tokens ≡ true
    pub nonneg : le (of_u32 0) b.refill_rate ≡ true
    pub finite : le b.refill_rate (of_u32 (2 ^ 32 - 1)) ≡ true

  Holds-refill : (b : TokenBucket f) (k now : ℕ) → Holds b k now → refill f b now ≡ b
  Holds-refill b k now h =
      refill_same b now h.refilled (rw h.tokens (rw (le-of_u32 k k h.bound h.bound) (ground arith)))
        h.within h.nonneg h.finite

  drained : (b : TokenBucket f) (now : ℕ) → Holds b 0 now → try_consume f b now ≡ (b, false)
  unfolding try_consume
  drained b now h = rw (Holds-refill b 0 now h, h.tokens, le-of_u32 1 0 (omega arith) (omega arith))

  paid :
      (b : TokenBucket f) (k now : ℕ)
      → Holds b (suc k) now
      → (try_consume f b now ≡ (record b { tokens = of_u32 k }, true))
        × Holds (record b { tokens = of_u32 k }) k now
  unfolding try_consume
  paid b k now h =
      let one : le (of_u32 1) (of_u32 (suc k)) ≡ true =
        rw (le-of_u32 1 (suc k) (omega arith) h.bound) (ground arith) in
      let rest = sub-of_u32 k h.bound in
      (
        rw (Holds-refill b (suc k) now h) (ground (arith, one, rest)),
        record {
          tokens = refl;
          bound = omega arith;
          refilled = h.refilled;
          within =
              rw (← rest) (sub-one-le (of_u32 (suc k)) b.max_tokens one (rw (← h.tokens) h.within));
          nonneg = h.nonneg;
          finite = h.finite;
        },
      )

  burst_drained : (b : TokenBucket f) (n now : ℕ) → Holds b 0 now → burst b now n ≡ 0
  unfolding burst
  burst_drained b zero now h = refl
  burst_drained b (suc n) now h = rw (drained b now h) (burst_drained b n now h)

  -- A bucket of k tokens lets through exactly the first k of any number of requests that arrive at
  -- the time of its last refill.
  pub burst_lem : (b : TokenBucket f) (k n now : ℕ) → Holds b k now → burst b now n ≡ min_ℕ n k
  unfolding burst
  burst_lem b zero n now h = burst_drained b n now h ∙ omega arith
  burst_lem b (suc k) zero now h = omega arith
  burst_lem b (suc k) (suc n) now h =
      rw ((paid b k now h).0)
        (omega (arith, burst_lem (record b { tokens = of_u32 k }) k n now (paid b k now h).1))
