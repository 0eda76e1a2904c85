-- ===== src/P2p/RateLimiter/Index.antt =====
-- The index from a peer to its protocols: every bucket is in it, so `remove_peer` forgets them all.
use variance.Prelude.{
  ℕ, ◌≡◌, ◌≢◌, refl, sym, Text, List, [], ◌∷◌, ◌++◌, none, some, Option-cases, Bool-cases, true,
  false, ◌&&◌, arith, inl, inr, if◌then◌else◌, contains, contains-append_self, contains-append_left,
  list_eq, nat_eq, pair_eq, list_beq_iff, ◌==◌, eq_ne, eq_self,
}
use variance.Prelude.Map
use variance.Prelude.Map.{Map}
use variance.P2p.Float.{Float}
use variance.P2p.RateLimiter.{
  TokenBucket, BucketConfig, PeerRateLimiter, protocols_of, protocol_entry, put_protocol,
  put_global, check_global, check_protocol, check, remove_all, remove_peer, try_consume,
  global_entry, undo,
}

module _ (f : Float) where
  -- Each bucket's protocol is in the index of its peer.
  abbrev pub IsIndexed : PeerRateLimiter f → Type 0
  IsIndexed l =
      (peer label : Text) (b : TokenBucket f)
      → Map.get (peer, label) l.protocol_buckets ≡ some b
      → contains label (protocols_of f l peer) ≡ true

  put_protocol-IsIndexed :
      (l : PeerRateLimiter f) (peer label : Text) (b : TokenBucket f)
      → contains label (protocols_of f l peer) ≡ true
      → IsIndexed l
      → IsIndexed (put_protocol f l peer label b)
  unfolding put_protocol protocols_of
  put_protocol-IsIndexed l peer label b listed v p q c h = ground (
    arith,
    Map.get-insert (peer, label) (p, q) b l.protocol_buckets,
    list_beq_iff peer p,
    list_beq_iff label q,
    v p q c,
  )

  -- The entry's protocol is listed, and what was listed stays.
  protocol_entry-listed :
      (l : PeerRateLimiter f) (peer label : Text) (config : BucketConfig f) (now : ℕ)
      → IsIndexed l
      → contains label (protocols_of f (protocol_entry f l peer label config now).0 peer) ≡ true
  unfolding protocol_entry
  protocol_entry-listed l peer label config now v =
      elim (Option-cases (Map.get (peer, label) l.protocol_buckets)) [
        | inl e ↦
            rw (e, protocol_entry)
              (ground (
                arith,
                Map.get-insert_self peer (protocols_of f l peer ++ label ∷ []) l.peer_protocols,
                contains-append_self label (protocols_of f l peer),
              ))
        | inr (b, e) ↦ rw (e, protocol_entry) (v peer label b e)
      ]

  protocol_entry-IsIndexed :
      (l : PeerRateLimiter f) (peer label : Text) (config : BucketConfig f) (now : ℕ)
      → IsIndexed l
      → IsIndexed (protocol_entry f l peer label config now).0
  unfolding protocol_entry
  protocol_entry-IsIndexed l peer label config now v p q c h = ground (
    arith,
    v p q c,
    list_beq_iff peer p,
    Map.get-insert peer p (protocols_of f l peer ++ label ∷ []) l.peer_protocols,
    contains-append_left q label (protocols_of f l peer),
  )

  check_global-IsIndexed :
      (l : PeerRateLimiter f) (peer label : Text) (b : TokenBucket f) (now : ℕ)
      → contains label (protocols_of f l peer) ≡ true
      → IsIndexed l
      → IsIndexed (check_global f l peer label b now).0
  unfolding check_global protocols_of
  check_global-IsIndexed l peer label b now listed v =
      let g = global_entry f l peer now in
      elim (Bool-cases (try_consume f g now).1) [
        | inl granted ↦ rw granted v
        | inr refused ↦ rw refused (
            put_protocol-IsIndexed (put_global f l peer (try_consume f g now).0) peer label
              (undo f b) listed v)
      ]

  check_protocol-IsIndexed :
      (l : PeerRateLimiter f) (peer label : Text) (config : BucketConfig f) (now : ℕ)
      → IsIndexed l
      → IsIndexed (check_protocol f l peer label config now).0
  unfolding check_protocol protocols_of
  check_protocol-IsIndexed l peer label config now v =
      let (l₀, b) = protocol_entry f l peer label config now in
      let b' = (try_consume f b now).0 in
      let listed = protocol_entry-listed l peer label config now v in
      let kept =
        put_protocol-IsIndexed l₀ peer label b' listed
          (protocol_entry-IsIndexed l peer label config now v) in
      elim (Bool-cases (try_consume f b now).1) [
        | inl granted ↦
            rw granted (
              check_global-IsIndexed (put_protocol f l₀ peer label b') peer label b' now listed
                kept)
        | inr refused ↦ rw refused kept
      ]

  -- A check keeps every protocol bucket in the index of its peer.
  pub check-IsIndexed :
      (l : PeerRateLimiter f) (peer label : Text) (now : ℕ)
      → IsIndexed l
      → IsIndexed (check f l peer label now).0
  unfolding check
  check-IsIndexed l peer label now v = elim (Option-cases (Map.get label l.configs)) [
    | inl e ↦ rw (e, check) v
    | inr (config, e) ↦ rw (e, check) (check_protocol-IsIndexed l peer label config now v)
  ]

  get-remove_all :
      (peer : Text) (ps : List Text) (m : Map (Text × Text) (TokenBucket f)) (p q : Text)
      → Map.get (p, q) (remove_all f peer ps m)
        ≡ (if peer == p && contains q ps then none else Map.get (p, q) m)
  unfolding remove_all contains
  get-remove_all peer [] m p q = ground arith
  get-remove_all peer (x ∷ ps) m p q = ground (
    arith,
    get-remove_all peer ps (Map.remove (peer, x) m) p q,
    Map.get-remove (peer, x) (p, q) m,
    list_beq_iff x q,
  )

  unlisted :
      (l : PeerRateLimiter f) (peer label : Text)
      → IsIndexed l
      → contains label (protocols_of f l peer) ≡ false
      → Map.get (peer, label) l.protocol_buckets ≡ none
  unlisted l peer label v absent = elim (Option-cases (Map.get (peer, label) l.protocol_buckets)) [
    | inl e ↦ e
    | inr (b, e) ↦ let listed = v peer label b e in cc
  ]

  emptied :
      (l : PeerRateLimiter f) (peer : Text) (ps : List Text) (label : Text)
      → IsIndexed l
      → Map.get peer l.peer_protocols ≡ some ps
      → Map.get (peer, label) (remove_all f peer ps l.protocol_buckets) ≡ none
  emptied l peer ps label v e = elim (Bool-cases (contains label ps)) [
    | inl listed ↦ rw (get-remove_all peer ps l.protocol_buckets peer label, eq_self peer, listed)
    | inr absent ↦
        rw (get-remove_all peer ps l.protocol_buckets peer label, eq_self peer, absent)
          (unlisted l peer label v (unfold protocols_of in rw (e, protocols_of) absent))
  ]

  -- A peer that is removed leaves nothing behind, where the index is complete, and the other peers
  -- keep their buckets.
  pub remove_peer_lem :
      (l : PeerRateLimiter f) (peer other label : Text)
      → IsIndexed l
      → other ≢ peer
      → let l' = remove_peer f l peer in
        (Map.get peer l'.global_buckets ≡ none)
        × (Map.get peer l'.peer_protocols ≡ none)
        × (Map.get (peer, label) l'.protocol_buckets ≡ none)
        × (Map.get other l'.global_buckets ≡ Map.get other l.global_buckets)
        × (Map.get (other, label) l'.protocol_buckets ≡ Map.get (other, label) l.protocol_buckets)
  unfolding remove_peer protocols_of contains
  remove_peer_lem l peer other label v ne = elim (Option-cases (Map.get peer l.peer_protocols)) [
    | inl e ↦
        rw (e, remove_peer)
          (
            Map.get-remove_self peer l.global_buckets,
            e,
            unlisted l peer label v (ground arith),
            Map.get-remove_ne peer other l.global_buckets (λ h. ne (sym h)),
            refl,
          )
    | inr (ps, e) ↦
        rw (e, remove_peer)
          (
            Map.get-remove_self peer l.global_buckets,
            Map.get-remove_self peer l.peer_protocols,
            emptied l peer ps label v e,
            Map.get-remove_ne peer other l.global_buckets (λ h. ne (sym h)),
            rw (
              get-remove_all peer ps l.protocol_buckets other label,
              eq_ne peer other (λ h. ne (sym h)),
            ),
          )
  ]
