-- ===== src/Messaging/Storage/Group/Since.antt =====
-- The messages of a group after a time.
use variance.Prelude.{
  ℕ, zero, suc, ◌+◌, ◌≡◌, ◌<◌, ◌^◌, refl, ap, sym, ◌∙◌, Text, List, [], ◌∷◌, ◌++◌, Bool, true,
  false, not, ok, map, retain, take, length, leb, ltb, arith, Bool-cases, inl, inr, All,
  length-append, take,
}
use mathlib.Core.List.{append_assoc, append-nil}
use variance.Prelude.Int.{ℤ, pos, ltb_ℤ, ◌+ℤ◌}
use variance.Prelude.Map.{Map}
use variance.Messaging.Proto.{GroupMessage}
use variance.Messaging.Storage.Sled.{Sled, Codec, lex_ltb, starts_with, is_from}
use variance.Messaging.Storage.Keys.{joined, message_key, group_key, timestamp_020}
use variance.Messaging.Storage.Keys.Order.{lex_ltb-message_key, lex_ltb_asym}
use variance.Messaging.Storage.Entries.{readable}
use variance.Messaging.Storage.Group.{
  group_tree, prefix, saturating_suc, since_loop, fetch_group_since,
}

-- Where a scan after a time begins.
abbrev pub start_key : Text → ℤ → Text
start_key group_id since = joined group_id (joined (timestamp_020 (saturating_suc since)) [])

-- A text with more text after it is not before it.
not_before : (s r : Text) → lex_ltb (s ++ r) s ≡ false
unfolding lex_ltb
not_before [] [] = refl
not_before [] (x ∷ r) = refl
not_before (x ∷ s) r = ground (arith, not_before s r)

suc_time : (since : ℕ) → suc since < 2 ^ 63 → saturating_suc (pos since) ≡ pos (suc since)
unfolding saturating_suc ◌+ℤ◌
suc_time since h = ground arith

-- Of one time, a message's key comes after the key with no id.
same_time :
    (group_id id : Text) (t : ℤ)
    → lex_ltb (message_key group_id t id) (message_key group_id t []) ≡ false
unfolding message_key
same_time group_id id t =
    rw (← again) (not_before (joined group_id (joined (timestamp_020 t) [])) id)
  where
    again :
        joined group_id (joined (timestamp_020 t) []) ++ id
        ≡ joined group_id (joined (timestamp_020 t) id)
    again =
        append_assoc group_id (58 ∷ joined (timestamp_020 t) []) id
        ∙ ap (λ r. group_id ++ 58 ∷ r) (append_assoc (timestamp_020 t) (58 ∷ []) id)

after_time :
    (group_id id : Text) (since t : ℕ)
    → suc since < 2 ^ 63
    → t < 2 ^ 63
    → not (lex_ltb (message_key group_id (pos t) id) (message_key group_id (pos (suc since)) []))
      ≡ ltb since t
after_time group_id id since t hs ht = elim (Bool-cases (ltb (suc since) t)) [
  | inl later ↦
      let order : lex_ltb (message_key group_id (pos (suc since)) [])
            (message_key group_id (pos t) id)
          ≡ true =
        lex_ltb-message_key group_id (pos (suc since)) (pos t) [] id hs ht (ground arith) in
      let back : lex_ltb (message_key group_id (pos t) id)
            (message_key group_id (pos (suc since)) [])
          ≡ false =
        lex_ltb_asym (message_key group_id (pos (suc since)) []) (message_key group_id (pos t) id)
          order in
      rw back (ground arith)
  | inr not_later ↦ elim (Bool-cases (ltb t (suc since))) [
    | inl earlier ↦
        let order : lex_ltb (message_key group_id (pos t) id)
              (message_key group_id (pos (suc since)) [])
            ≡ true =
          lex_ltb-message_key group_id (pos t) (pos (suc since)) id [] ht hs (ground arith) in
        rw order (ground arith)
    | inr not_earlier ↦
        let same : t ≡ suc since = ground arith in
        rw (same, same_time group_id id (pos (suc since))) (ground arith)
  ]
]

-- A message's key is not before the start where its time is after the one that is asked for.
is_from-group_key :
    (group_id id : Text) (since t : ℕ) (value : Text)
    → suc since < 2 ^ 63
    → t < 2 ^ 63
    → is_from (start_key group_id (pos since)) (group_key group_id (pos t) id, value) ≡ ltb since t
unfolding group_key message_key
is_from-group_key group_id id since t value hs ht =
    rw (suc_time since hs) (after_time group_id id since t hs ht)

starts_with-own : (g r : Text) → starts_with (joined g []) (joined g r) ≡ true
unfolding starts_with
starts_with-own [] r = refl
starts_with-own (x ∷ g) r = ground (arith, starts_with-own g r)

module _ (sled : Sled) (codec : Codec GroupMessage) where
  open sled use {Db, contents, range_from}

  abbrev pub encoded : List (Text × GroupMessage) → Map Text Text
  encoded es = map (λ e. (e.0, codec.encode e.1)) es

  -- An entry of the group under its message's key.
  abbrev pub IsEntry : Text → Text × GroupMessage → Type 0
  IsEntry group_id (key, m) =
      (t : ℕ) × (m.timestamp ≡ pos t) × (t < 2 ^ 63) × (key ≡ group_key group_id (pos t) m.id)

  -- Entries that come after the group's: the first is of another group.
  abbrev pub Leaves : Text → List (Text × GroupMessage) → Type 0
  Leaves group_id [] = Unit
  Leaves group_id (e ∷ es) = starts_with (prefix group_id) e.0 ≡ false

  since_loop_lem :
      (group_id : Text) (limit room : ℕ) (got : List GroupMessage)
      (es others : List (Text × GroupMessage))
      → limit ≡ length got + suc room
      → All (λ e. starts_with (prefix group_id) e.0 ≡ true) es
      → Leaves group_id others
      → since_loop sled codec group_id limit got (readable codec (es ++ others))
        ≡ ok (got ++ take (suc room) (map (λ e. e.1) es))
  unfolding since_loop
  since_loop_lem group_id limit room got [] [] l h o = ap ok (sym (append-nil got))
  since_loop_lem group_id limit room got [] (e ∷ es) l h o =
      rw (since_loop, o) (ap ok (sym (append-nil got)))
  since_loop_lem group_id limit zero got (e ∷ es) others l h o =
      let full : leb limit (length (got ++ e.1 ∷ [])) ≡ true =
        ground (arith, length-append got (e.1 ∷ [])) in
      rw (since_loop, h.0, codec.decode_encode e.1, full) refl
  since_loop_lem group_id limit (suc room) got (e ∷ es) others l h o =
      let more : leb limit (length (got ++ e.1 ∷ [])) ≡ false =
        ground (arith, length-append got (e.1 ∷ [])) in
      rw (since_loop, h.0, codec.decode_encode e.1, more)
        (since_loop_lem group_id limit room (got ++ e.1 ∷ []) es others
            (omega (arith, length-append {0} got (e.1 ∷ []))) h.1 o
          ∙ ap ok (append_assoc got (e.1 ∷ []) _))

  encoded-All :
      (start : Text) (others : List (Text × GroupMessage))
      → All (λ e. lex_ltb e.0 start ≡ false) others
      → retain (is_from start) (encoded others) ≡ encoded others
  encoded-All start [] h = refl
  encoded-All start (e ∷ es) h =
      rw h.0 (ap (◌∷◌ (e.0, codec.encode e.1)) (encoded-All start es h.1))

  none_smaller :
      (start : Text) (before rest : List (Text × GroupMessage))
      → All (λ e. lex_ltb e.0 start ≡ true) before
      → retain (is_from start) (encoded (before ++ rest)) ≡ retain (is_from start) (encoded rest)
  none_smaller start [] rest h = refl
  none_smaller start (e ∷ es) rest h = rw h.0 (none_smaller start es rest h.1)

  is_from-entry :
      (group_id : Text) (since : ℕ) (e : Text × GroupMessage)
      → suc since < 2 ^ 63
      → IsEntry group_id e
      → not (lex_ltb e.0 (start_key group_id (pos since))) ≡ ltb_ℤ (pos since) e.1.timestamp
  is_from-entry group_id since (key, m) hs (t, time, small, at) =
      rw (at, time) (is_from-group_key group_id m.id since t [] hs small ∙ ground arith)

  own_later :
      (group_id : Text) (since : ℕ) (es others : List (Text × GroupMessage))
      → suc since < 2 ^ 63
      → All (IsEntry group_id) es
      → All (λ e. lex_ltb e.0 (start_key group_id (pos since)) ≡ false) others
      → retain (is_from (start_key group_id (pos since))) (encoded (es ++ others))
        ≡ encoded (retain (λ e. ltb_ℤ (pos since) e.1.timestamp) es ++ others)
  own_later group_id since [] others hs h o = encoded-All (start_key group_id (pos since)) others o
  own_later group_id since (e ∷ es) others hs h o =
      rw (is_from-entry group_id since e hs h.0)
        (elim (Bool-cases (ltb_ℤ (pos since) e.1.timestamp)) [
          | inl after ↦
              rw after
                (ap (◌∷◌ (e.0, codec.encode e.1)) (own_later group_id since es others hs h.1 o))
          | inr before ↦ rw before (own_later group_id since es others hs h.1 o)
        ])

  own_prefix :
      (group_id : Text) (p : Text × GroupMessage → Bool) (es : List (Text × GroupMessage))
      → All (IsEntry group_id) es
      → All (λ e. starts_with (prefix group_id) e.0 ≡ true) (retain p es)
  unfolding group_key message_key
  own_prefix group_id p [] h = tt
  own_prefix group_id p (e ∷ es) ((t, time, small, at), h) = elim (Bool-cases (p e)) [
    | inl keep ↦ rw keep (
      rw at (starts_with-own group_id (joined (timestamp_020 (pos t)) e.1.id)),
      own_prefix group_id p es h,
    )
    | inr drop ↦ rw drop (own_prefix group_id p es h)
  ]

  readable-encoded : (es : List (Text × GroupMessage)) → map ok (encoded es) ≡ readable codec es
  readable-encoded [] = refl
  readable-encoded (e ∷ es) = ap (◌∷◌ (ok (e.0, codec.encode e.1))) (readable-encoded es)

  messages_later :
      (p : GroupMessage → Bool) (es : List (Text × GroupMessage))
      → map (λ e. e.1) (retain (λ e. p e.1) es) ≡ retain p (map (λ e. e.1) es)
  messages_later p [] = refl
  messages_later p (e ∷ es) = ground (arith, messages_later p es)

  leaves_lem :
      (group_id : Text) (others : List (Text × GroupMessage))
      → All (λ e. starts_with (prefix group_id) e.0 ≡ false) others
      → Leaves group_id others
  leaves_lem group_id [] h = tt
  leaves_lem group_id (e ∷ es) h = h.0

  -- Where the tree holds a group's messages between entries of other groups, before the start of
  -- the scan and after it, the group's messages after a time are returned in the order of their
  -- keys and as many as a limit above 0 allows, for times from 0 to below 2 ^ 63 - 1 and a scan
  -- that does not fail.
  pub fetch_group_since_lem :
      (db : Db) (group_id : Text) (since limit : ℕ) (before es others : List (Text × GroupMessage))
      → suc since < 2 ^ 63
      → sled.open_tree db group_tree ≡ ok tt
      → contents db group_tree ≡ encoded (before ++ (es ++ others))
      → range_from db group_tree (start_key group_id (pos since))
        ≡ map ok (retain (is_from (start_key group_id (pos since))) (contents db group_tree))
      → All (λ e. lex_ltb e.0 (start_key group_id (pos since)) ≡ true) before
      → All (IsEntry group_id) es
      → All (λ e. lex_ltb e.0 (start_key group_id (pos since)) ≡ false) others
      → All (λ e. starts_with (prefix group_id) e.0 ≡ false) others
      → fetch_group_since sled codec group_id (pos since) (suc limit) db ≡ (
        db,
        ok (take (suc limit) (retain (λ m. ltb_ℤ (pos since) m.timestamp) (map (λ e. e.1) es))),
      )
  unfolding fetch_group_since
  fetch_group_since_lem db group_id since limit before es others hs opened held scanned smaller own
        larger foreign =
      let start = start_key group_id (pos since) in
      let later = retain (λ e. ltb_ℤ (pos since) e.1.timestamp) es in
      let found : range_from db group_tree start ≡ readable codec (later ++ others) =
        scanned
        ∙ ap (map ok) (
            ap (retain (is_from start)) held
            ∙ none_smaller start before (es ++ others) smaller
            ∙ own_later group_id since es others hs own larger)
        ∙ readable-encoded (later ++ others) in
      rw
        (
          opened,
          found,
          since_loop_lem group_id (suc limit) limit [] later others (omega arith)
              (own_prefix group_id (λ e. ltb_ℤ (pos since) e.1.timestamp) es own)
              (leaves_lem group_id others foreign),
        )
        (ap (λ ms. (db, ok (take (suc limit) ms)))
          (messages_later (λ m. ltb_ℤ (pos since) m.timestamp) es))
