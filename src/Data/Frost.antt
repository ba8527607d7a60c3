-- ===== src/Data/Frost.antt =====
-- frost/types.ts, consensus/storage/types.ts and the types of consensus/signing/nonces.ts.
-- A hex string is a number: its place among all hex strings, by length and then in lexicographic
-- order, so that `===` and, between strings of one length, `<` are those of numbers.
use shieldnet.Prelude.{ℕ, List}

abbrev pub Hex : Type 0
Hex = ℕ

abbrev pub Address : Type 0
Address = ℕ

-- A string by the codes of its characters, where those matter.
abbrev pub Text : Type 0
Text = List ℕ

abbrev pub Bytes : Type 0
Bytes = List ℕ

abbrev pub GroupId : Type 0
GroupId = Hex

abbrev pub SignatureId : Type 0
SignatureId = Hex

abbrev pub ParticipantId : Type 0
ParticipantId = ℕ

-- A curve point by its affine coordinates; its methods are those of `External`.
pub record FrostPoint : Type 0 where
  pub x : ℕ
  pub y : ℕ

pub record ProofOfKnowledge : Type 0 where
  pub r : FrostPoint
  pub mu : ℕ

pub record Participant : Type 0 where
  pub id : ParticipantId
  pub address : Address

pub record PublicNonceCommitments : Type 0 where
  pub hiding_nonce_commitment : FrostPoint
  pub binding_nonce_commitment : FrostPoint

pub record NonceCommitments : Type 0 where
  pub hiding_nonce : ℕ
  pub binding_nonce : ℕ
  pub shared : PublicNonceCommitments

pub record NonceTree : Type 0 where
  pub commitments : List NonceCommitments
  pub leaves : List Hex
  pub root : Hex
