-- ===== src/Data/Event.antt =====
-- machine/transitions/types.ts: what the chain tells the state machine. `block` and `index`, which
-- every event has, stand in `EventTransition`; the field `id` is the constructor.
use shieldnet.Prelude.{ℕ, List, Bool}
use shieldnet.Data.Frost.{
  Hex, Address, GroupId, SignatureId, ParticipantId, FrostPoint, ProofOfKnowledge,
  PublicNonceCommitments,
}
use shieldnet.Data.Packet.{SafeTransaction}

pub record KeyGenEvent : Type 0 where
  pub gid : GroupId
  pub participants : Hex
  pub count : ℕ
  pub threshold : ℕ
  pub context : Hex

pub record KeyGenCommittedEvent : Type 0 where
  pub gid : GroupId
  pub identifier : ParticipantId
  pub pok : ProofOfKnowledge
  pub c : List FrostPoint
  pub committed : Bool

pub record KeyGenSecretSharedEvent : Type 0 where
  pub gid : GroupId
  pub identifier : ParticipantId
  pub y : FrostPoint
  pub f : List ℕ
  pub shared : Bool

pub record KeyGenComplaintSubmittedEvent : Type 0 where
  pub gid : GroupId
  pub plaintiff : ParticipantId
  pub accused : ParticipantId
  pub compromised : Bool

pub record KeyGenComplaintRespondedEvent : Type 0 where
  pub gid : GroupId
  pub plaintiff : ParticipantId
  pub accused : ParticipantId
  pub secret_share : ℕ

pub record KeyGenConfirmedEvent : Type 0 where
  pub gid : GroupId
  pub identifier : ParticipantId
  pub confirmed : Bool

pub record NonceCommitmentsHashEvent : Type 0 where
  pub gid : GroupId
  pub identifier : ParticipantId
  pub chunk : ℕ
  pub commitment : Hex

pub record SignRequestEvent : Type 0 where
  pub initiator : Address
  pub gid : GroupId
  pub message : Hex
  pub sid : SignatureId
  pub sequence : ℕ

pub record NonceCommitmentsEvent : Type 0 where
  pub sid : SignatureId
  pub identifier : ParticipantId
  pub nonces : PublicNonceCommitments

pub record SignatureShareEvent : Type 0 where
  pub sid : SignatureId
  pub selection_root : Hex
  pub identifier : ParticipantId
  pub z : ℕ

pub record SignedEvent : Type 0 where
  pub sid : SignatureId
  pub selection_root : Hex
  pub z : ℕ
  pub r : FrostPoint

pub record EpochEvent : Type 0 where
  pub active_epoch : ℕ
  pub proposed_epoch : ℕ
  pub rollover_block : ℕ
  pub group_key : FrostPoint

pub record TransactionProposedEvent : Type 0 where
  pub transaction_hash : Hex
  pub chain_id : ℕ
  pub safe : Address
  pub epoch : ℕ
  pub transaction : SafeTransaction

pub record TransactionAttestedEvent : Type 0 where
  pub transaction_hash : Hex
  pub epoch : ℕ

pub data Event : Type 0 where
  event_key_gen : KeyGenEvent → Event
  event_key_gen_committed : KeyGenCommittedEvent → Event
  event_key_gen_secret_shared : KeyGenSecretSharedEvent → Event
  event_key_gen_complaint_submitted : KeyGenComplaintSubmittedEvent → Event
  event_key_gen_complaint_responded : KeyGenComplaintRespondedEvent → Event
  event_key_gen_confirmed : KeyGenConfirmedEvent → Event
  event_nonce_commitments_hash : NonceCommitmentsHashEvent → Event
  event_sign_request : SignRequestEvent → Event
  event_nonce_commitments : NonceCommitmentsEvent → Event
  event_signature_share : SignatureShareEvent → Event
  event_signed : SignedEvent → Event
  event_epoch_proposed : EpochEvent → Event
  event_epoch_staged : EpochEvent → Event
  event_transaction_proposed : TransactionProposedEvent → Event
  event_transaction_attested : TransactionAttestedEvent → Event

pub record EventTransition : Type 0 where
  pub block : ℕ
  pub index : ℕ
  pub event : Event

pub data StateTransition : Type 0 where
  block_new : ℕ → StateTransition
  event_at : EventTransition → StateTransition
