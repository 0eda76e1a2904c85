-- ===== src/Messaging/Groups/Sample.antt =====
-- A crate for the tests: a group is its id, its epoch, the members after the commit that
-- waits, if one does, and its members.
use mathlib.Core.Path.{subst}
use mathlib.Core.List.{map-append}
use variance.Messaging.Storage.Sled.{Codec}
use variance.Messaging.Storage.Sample.Base.{both, as_type, numbers, many, codec_of}
use variance.Prelude.{
  ℕ, suc, Text, List, [], ◌∷◌, ◌++◌, Option, none, some, true, false, Result, ok, err, map, ◌∙◌,
  ◌≡◌, refl, sym, ap, length, list_eq, nat_eq,
}
use variance.Prelude.Map.{Map}
use variance.Messaging.OpenMls.{OpenMls, application}
use variance.Messaging.Groups.{Crate}
use variance.Messaging.Groups.Recovery.{Encodings, MlsStateSnapshot}

abbrev pub Leaves : Type 0
Leaves = List (ℕ × List ℕ)

abbrev pub SampleGroup : Type 0
SampleGroup = Text × ℕ × Option Leaves × Leaves

abbrev pub Cell : Type 0
Cell = Map (List ℕ) (List ℕ) × SampleGroup

abbrev pub waiting : (Leaves → Option Leaves) → Cell → Cell
waiting change (provider, (id, epoch, pending, members)) =
    (provider, (id, epoch, change members, members))

abbrev pub merged : Option Leaves → Leaves → Leaves
merged none members = members
merged (some changed) members = changed

abbrev pub next : Cell → Cell
next (provider, (id, epoch, pending, members)) =
    (provider, (id, suc epoch, none, merged pending members))

-- The identity in a key package is its number.
abbrev pub joined : ℕ → Leaves → Option Leaves
joined kp members = some (members ++ (length members, kp ∷ []) ∷ [])

pub made_equal : {a b : SampleGroup} → ◌≡◌ {A = Result Text SampleGroup} (ok a) (ok b) → a ≡ b
made_equal e = cc

pub refuted : {A : Type 0} {a : A} {x : Text} → ◌≡◌ {A = Result Text A} (ok a) (err x) → ⊥
refuted e = cc

pub nothing_behind : (xs : List (List ℕ)) → xs ≡ xs ++ []
nothing_behind [] = refl
nothing_behind (x ∷ xs) = ap (◌∷◌ x) (nothing_behind xs)

pub toy_added :
    (kp : ℕ) (cell cell' cell'' : Cell)
    → waiting (joined kp) cell ≡ cell'
    → next cell' ≡ cell''
    → (before : List (List ℕ)) × (behind : List (List ℕ)) × (map (λ m. m.1) cell.1.3
        ≡ before ++ behind)
      × (map (λ m. m.1) cell''.1.3 ≡ before ++ (kp ∷ []) ∷ behind)
toy_added kp cell cell' cell'' added merged = (
  map (λ m. m.1) cell.1.3,
  [],
  nothing_behind (map (λ m. m.1) cell.1.3),
  ap (λ x. map (λ m. m.1) x.1.3) (sym merged)
      ∙ ap (λ x. map (λ m. m.1) (next x).1.3) (sym added)
      ∙ map-append (λ m. m.1) cell.1.3 ((length cell.1.3, kp ∷ []) ∷ []),
)

abbrev pub toy_mls : OpenMls ℕ
toy_mls = record {
  Provider = Map (List ℕ) (List ℕ);
  KeyPair = ℕ;
  CredentialWithKey = Text;
  Group = SampleGroup;
  KeyPackage = ℕ;
  KeyPackageIn = ℕ;
  MessageOut = List ℕ;
  MessageIn = List ℕ;
  ProtocolMessage = List ℕ;
  Proposal = ℕ;
  StagedCommit = ℕ;
  Welcome = List ℕ;
  StagedWelcome = List ℕ;
  GroupInfo = ℕ;
  LeafNodeIndex = ℕ;
  Entropy = ℕ;
  default_provider = [];
  values = λ p. p;
  with_values = λ m p. m;
  from_raw = λ k. k;
  credential_of = λ did k. did;
  identity = λ credential. credential;
  package_identity = λ kp. kp ∷ [];
  store_keypair = λ k p. (p, ok tt);
  build_key_package = λ k cred e p. (p, ok e);
  validate = λ k p. ok k;
  new_group = λ k did id e p. (p, ok (id, 0, none, (0, did) ∷ []));
  group_id = λ g. g.0;
  epoch = λ g. g.1;
  members = λ g. g.3;
  pending_commit = λ g. elim g.2 [ none ↦ false | some leaves ↦ true ];
  pending_proposals = λ g. false;
  add_members = λ k kp e cell. (waiting (joined kp) cell, ok (k ∷ [], kp ∷ [], none));
  remove_members = λ k i e cell. (waiting (λ ms. some ms) cell, ok (k ∷ [], none, none));
  merge_pending_commit = λ cell. (next cell, ok tt);
  clear_pending_commit = λ cell. (waiting (λ ms. none) cell, ok tt);
  create_message = λ k plaintext e cell. (cell, ok plaintext);
  process_message = λ m cell. (cell, ok ([], application m));
  store_pending_proposal = λ p cell. (cell, ok tt);
  merge_staged_commit = λ s cell. (next cell, ok tt);
  leave_group = λ k e cell. (cell, ok []);
  self_update = λ k e cell. (waiting (λ ms. some ms) cell, ok []);
  commit_to_pending_proposals = λ k e cell. (waiting (λ ms. some ms) cell, ok []);
  delete = λ cell. (cell, ok tt);
  load = λ p id. ok none;
  try_into_protocol_message = λ m. ok m;
  extract = λ m. some m;
  new_from_welcome = λ w p. (p, ok w);
  into_group = λ s p. (p, ok (s, 0, none, []));
  serialize = λ m. ok m;
  deserialize = λ bytes. ok bytes;
  deserialize_key_package = λ bytes. ok (length bytes);
  add_members_ok = λ k kp e cell cell' r done. (
    sym (ap (λ q. elim q.0.1.2 [ none ↦ false | some leaves ↦ true ]) done),
    sym (ap (λ q. q.0.1.1) done),
    sym (ap (λ q. q.0.1.3) done),
  );
  new_group_ok = λ k did id e p g done. sym (ap (λ g. map (λ m. m.1) g.3) (made_equal done));
  merge_pending_commit-add_members = λ k kp e cell cell' cell'' r added merged.
      toy_added kp cell cell' cell'' (ap (λ q. q.0) added) (ap (λ q. q.0) merged);
  add_members_err = λ k kp e cell cell' x failed. absurd (refuted (ap (λ q. q.1) failed));
  merge_pending_commit_err = λ cell cell' x failed. absurd (refuted (ap (λ q. q.1) failed));
  merge_pending_commit_ok = λ cell cell' done. (
    sym (ap (λ q. elim q.0.1.2 [ none ↦ false | some leaves ↦ true ]) done),
    λ pending. sym (ap (λ q. q.0.1.1) done),
  );
  clear_pending_commit_ok = λ cell cell' done. (
    sym (ap (λ q. elim q.0.1.2 [ none ↦ false | some leaves ↦ true ]) done),
    sym (ap (λ q. q.0.1.1) done),
    sym (ap (λ q. q.0.1.3) done),
  );
}

abbrev pub toy_crate : Crate ℕ
toy_crate = record { mls = toy_mls; from_utf8_lossy = λ bytes. bytes; Key = ℕ; hkdf = λ k label. k }

abbrev pub SnapshotFields : Type 0
SnapshotFields = List Text × List (Text × Text)

abbrev pub to_snapshot : SnapshotFields → MlsStateSnapshot
to_snapshot (a, b) = record { group_ids = a; storage_entries = b }

abbrev pub from_snapshot : MlsStateSnapshot → SnapshotFields
from_snapshot s = (s.group_ids, s.storage_entries)

abbrev pub snapshot_codec : Codec MlsStateSnapshot
snapshot_codec = codec_of (
    as_type to_snapshot from_snapshot (λ s. refl)
      (both (many numbers) (many (both numbers numbers))))

pub snapshot_read :
    (s : MlsStateSnapshot) (bytes : List ℕ)
    → ◌≡◌ {A = Result Text (List ℕ)} (ok (snapshot_codec.encode s)) (ok bytes)
    → snapshot_codec.decode bytes ≡ ok s
snapshot_read s bytes e =
    subst (λ b. snapshot_codec.decode b ≡ ok s) (same e) (snapshot_codec.decode_encode s)
  where
    same : {a b : List ℕ} → ◌≡◌ {A = Result Text (List ℕ)} (ok a) (ok b) → a ≡ b
    same e = cc

abbrev pub toy_encodings : Encodings
toy_encodings = record {
  to_decimal = λ n. n ∷ [];
  hex_encode = λ bytes. bytes;
  hex_decode = λ text. ok text;
  to_json = λ s. ok (snapshot_codec.encode s);
  of_json = snapshot_codec.decode;
  hex_decode-hex_encode = λ bytes. refl;
  of_json-to_json = snapshot_read;
}
