-- ===== src/Data/State.antt =====
-- machine/types.ts: the two parts of the persisted state, the differences that handlers return, and
-- the configuration. A `Record` is a list of entries; a bigint key stands for its decimal text.
use shieldnet.Prelude.{ℕ, List, Option, Bool}
use shieldnet.Data.Frost.{Hex, GroupId, SignatureId, ParticipantId, Participant}
use shieldnet.Data.Packet.{Packet}
use shieldnet.Data.Action.{ProtocolAction}

pub record Complaints : Type 0 where
  pub unresponded : ℕ
  pub total : ℕ

pub record CollectingCommitments : Type 0 where
  pub group_id : GroupId
  pub next_epoch : ℕ
  pub deadline : ℕ

pub record CollectingShares : Type 0 where
  pub group_id : GroupId
  pub next_epoch : ℕ
  pub deadline : ℕ
  pub complaints : List (ℕ × Complaints)
  pub missing_shares_from : List ParticipantId
  pub last_participant : Option ParticipantId

pub record CollectingConfirmations : Type 0 where
  pub group_id : GroupId
  pub next_epoch : ℕ
  pub complaint_deadline : ℕ
  pub response_deadline : ℕ
  pub deadline : ℕ
  pub last_participant : Option ParticipantId
  pub complaints : List (ℕ × Complaints)
  pub missing_shares_from : List ParticipantId
  pub confirmations_from : List ParticipantId

pub record SignRollover : Type 0 where
  pub group_id : GroupId
  pub next_epoch : ℕ
  pub message : Hex

-- The field `id` is the constructor.
pub data RolloverState : Type 0 where
  waiting_for_genesis : RolloverState
  epoch_skipped : ℕ → RolloverState
  collecting_commitments : CollectingCommitments → RolloverState
  collecting_shares : CollectingShares → RolloverState
  collecting_confirmations : CollectingConfirmations → RolloverState
  sign_rollover : SignRollover → RolloverState
  epoch_staged : ℕ → RolloverState

-- What the members of the union `SigningState` do not share.
pub data SigningPhase : Type 0 where
  -- responsible, signers
  waiting_for_request : Option ParticipantId → List ParticipantId → SigningPhase
  -- signatureId, lastSigner
  collect_nonce_commitments : SignatureId → Option ParticipantId → SigningPhase
  -- signatureId, sharesFrom, lastSigner
  collect_signing_shares : SignatureId → List ParticipantId → Option ParticipantId → SigningPhase
  -- signatureId, responsible
  waiting_for_attestation : SignatureId → Option ParticipantId → SigningPhase

pub record SigningState : Type 0 where
  pub packet : Packet
  pub deadline : ℕ
  pub phase : SigningPhase

pub record GroupInfo : Type 0 where
  pub group_id : GroupId
  pub participant_id : ParticipantId

-- In a pair whose second part is optional, `none` or `false` asks for a deletion.
pub record ConsensusDiff : Type 0 where
  pub group_pending_nonces : Option (GroupId × Bool)
  pub active_epoch : Option ℕ
  pub genesis_group_id : Option GroupId
  pub epoch_group : Option (ℕ × GroupInfo)
  pub signature_id_to_message : Option (SignatureId × Option Hex)

-- An absent `actions` is the empty list.
pub record StateDiff : Type 0 where
  pub consensus : Option ConsensusDiff
  pub rollover : Option RolloverState
  pub signing : Option (Hex × Option SigningState)
  pub actions : List ProtocolAction

pub record ConsensusState : Type 0 where
  pub genesis_group_id : Option GroupId
  pub active_epoch : ℕ
  pub group_pending_nonces : List (GroupId × Bool)
  pub epoch_groups : List (ℕ × GroupInfo)
  pub signature_id_to_message : List (SignatureId × Hex)

pub record MachineStates : Type 0 where
  pub rollover : RolloverState
  pub signing : List (Hex × SigningState)

pub record MachineConfig : Type 0 where
  pub default_participants : List Participant
  pub genesis_salt : Hex
  pub key_gen_timeout : ℕ
  pub signing_timeout : ℕ
  pub blocks_per_epoch : ℕ
