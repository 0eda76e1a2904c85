-- ===== src/P2p/RateLimiter/Tests.antt =====
-- The limiter over whole tokens: a stand-in for `f64` whose values are numbers, and which keeps the
-- laws.
use Prim.Native.Nat.{min as min_ℕ}
use variance.Prelude.{
  ℕ, suc, ◌+◌, ◌-◌, ◌*◌, ◌/◌, ◌^◌, ◌≡◌, refl, arith, leb, Text, [], ◌∷◌, true, list_eq, nat_eq,
  pair_eq, list_beq,
}
use variance.Prelude.Map
use variance.P2p.Float.{Float}
use variance.P2p.RateLimiter.{
  TokenBucket, BucketConfig, PeerRateLimiter, protocol_limited, new_limiter, refill, try_consume,
  from_window, check, check_protocol, check_global, protocol_entry, global_entry, label_text,
  rename,
}
use variance.P2p.RateLimiter.Decisions.{Verdict, check_protocol-Verdict}
use variance.P2p.RateLimiter.Index.{IsIndexed}

min-le_nat : (a m : ℕ) → leb m m ≡ true → leb (min_ℕ a m) m ≡ true
min-le_nat a m h = grind arith

min_of_le_nat : (a m : ℕ) → leb a m ≡ true → min_ℕ a m ≡ a
min_of_le_nat a m h = grind arith

sub-one-le_nat : (a m : ℕ) → leb 1 a ≡ true → leb a m ≡ true → leb (a - 1) m ≡ true
sub-one-le_nat a m one h = ground arith

sub-add-one_nat : (a : ℕ) → leb 1 a ≡ true → leb a (2 ^ 32 - 1) ≡ true → a - 1 + 1 ≡ a
sub-add-one_nat a one h = ground arith

le_trans_nat : (a b c : ℕ) → leb a b ≡ true → leb b c ≡ true → leb a c ≡ true
le_trans_nat a b c h k = ground arith

sub-suc : (a : ℕ) → suc a - 1 ≡ a
sub-suc a = omega arith

add-zero_nat : (a rate : ℕ) → a + 0 / 10 ^ 9 * rate ≡ a
add-zero_nat a rate = omega arith

abbrev whole : Float
whole = record {
  F64 = ℕ;
  of_u32 = λ n. n;
  as_secs_f64 = λ d. d / 10 ^ 9;
  add = λ a b. a + b;
  sub = λ a b. a - b;
  mul = λ a b. a * b;
  div = λ a b. a / b;
  min = min_ℕ;
  le = leb;
  min-le = min-le_nat;
  min_of_le = min_of_le_nat;
  sub-one-le = sub-one-le_nat;
  sub-add-one = sub-add-one_nat;
  le_trans = le_trans_nat;
  le-of_u32 = λ a b h k. refl;
  sub-of_u32 = λ a h. sub-suc a;
  add-zero = λ a rate low high h. add-zero_nat a rate;
}

abbrev peer : Text
peer = 1 ∷ []

abbrev other : Text
other = 2 ∷ []

-- A bucket of three tokens on a protocol of three in a minute.
abbrev three : TokenBucket whole
three = record { tokens = 3; max_tokens = 3; refill_rate = 0; last_refill = 5 }

abbrev start : PeerRateLimiter whole
start = record {
  protocol_buckets = ((peer, 9 ∷ []), three) ∷ [];
  global_buckets = [];
  configs = (9 ∷ [], record { max_tokens = 3; refill_rate = 0 }) ∷ [];
  global_config = record { max_tokens = 0; refill_rate = 0 };
  peer_protocols = (peer, (9 ∷ []) ∷ []) ∷ [];
}

-- The default budget of renames is two.
third_rename_is_limited :
    let c = λ (l : PeerRateLimiter whole). (check whole l peer (label_text rename) 0) in
    (c (c (c (new_limiter whole)).0).0).1 ≡ protocol_limited
unfolding new_limiter from_window check check_protocol check_global protocol_entry global_entry
    try_consume refill Map.get Map.insert list_beq label_text
third_rename_is_limited = refl

-- No request has come yet.
abbrev blank : PeerRateLimiter whole
blank = record start { protocol_buckets = []; peer_protocols = [] }

blank-IsIndexed : IsIndexed whole blank
unfolding Map.get
blank-IsIndexed p label b h = cc

-- One request has been refused by the global bucket, which is empty.
abbrev used : PeerRateLimiter whole
used = (check whole blank peer (9 ∷ []) 5).0

abbrev config : BucketConfig whole
config = record { max_tokens = 3; refill_rate = 0 }

check_protocol-Verdict_example :
    let (l', d) = check_protocol whole start peer (9 ∷ []) config 5 in
    Verdict whole start l' peer (9 ∷ []) three (global_entry whole start peer 5) 5 d
unfolding protocol_entry Map.get list_beq
check_protocol-Verdict_example =
    check_protocol-Verdict whole start peer (9 ∷ []) config 5 three refl
      (record { number = refl; within = refl }) refl
