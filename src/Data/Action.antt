-- ===== src/Data/Action.antt =====
-- consensus/protocol/types.ts: the calls that a handler asks the protocol to make.
use shieldnet.Prelude.{ℕ, List, Option}
use shieldnet.Data.Frost.{
  Hex, GroupId, SignatureId, ParticipantId, FrostPoint, ProofOfKnowledge, PublicNonceCommitments,
}

pub record RevealNonceCommitments : Type 0 where
  pub signature_id : SignatureId
  pub nonce_commitments : PublicNonceCommitments
  pub nonce_proof : List Hex

pub record PublishSignatureShare : Type 0 where
  pub signature_id : SignatureId
  pub signers_root : Hex
  pub signers_proof : List Hex
  pub group_commitment : FrostPoint
  pub commitment_share : FrostPoint
  pub signature_share : ℕ
  pub lagrange_coefficient : ℕ
  pub callback_context : Option Hex

pub record StartKeyGen : Type 0 where
  pub participants : Hex
  pub count : ℕ
  pub threshold : ℕ
  pub context : Hex
  pub participant_id : ParticipantId
  pub commitments : List FrostPoint
  pub pok : ProofOfKnowledge
  pub poap : List Hex

pub record PublishSecretShares : Type 0 where
  pub group_id : GroupId
  pub verification_share : FrostPoint
  pub shares : List ℕ

pub record ComplaintResponse : Type 0 where
  pub group_id : GroupId
  pub plaintiff : ParticipantId
  pub secret_share : ℕ

pub record AttestTransaction : Type 0 where
  pub epoch : ℕ
  pub transaction_hash : Hex
  pub signature_id : SignatureId

pub record StageEpoch : Type 0 where
  pub proposed_epoch : ℕ
  pub rollover_block : ℕ
  pub group_id : GroupId
  pub signature_id : SignatureId

-- The field `id` is the constructor.
pub data ProtocolAction : Type 0 where
  sign_request : GroupId → Hex → ProtocolAction
  sign_register_nonce_commitments : GroupId → Hex → ProtocolAction
  sign_reveal_nonce_commitments : RevealNonceCommitments → ProtocolAction
  sign_publish_signature_share : PublishSignatureShare → ProtocolAction
  key_gen_start : StartKeyGen → ProtocolAction
  key_gen_publish_secret_shares : PublishSecretShares → ProtocolAction
  key_gen_complain : GroupId → ParticipantId → ProtocolAction
  key_gen_complaint_response : ComplaintResponse → ProtocolAction
  key_gen_confirm : GroupId → Option Hex → ProtocolAction
  consensus_attest_transaction : AttestTransaction → ProtocolAction
  consensus_stage_epoch : StageEpoch → ProtocolAction
