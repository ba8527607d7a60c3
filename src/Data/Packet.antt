-- ===== src/Data/Packet.antt =====
-- consensus/verify/safeTx/schemas.ts and consensus/verify/rollover/schemas.ts: what validators sign.
use shieldnet.Prelude.{ℕ}
use shieldnet.Data.Frost.{Address, Text}

pub record SafeTransaction : Type 0 where
  pub chain_id : ℕ
  pub safe : Address
  pub to : Address
  pub value : ℕ
  pub call_data : Text
  pub operation : ℕ
  pub safe_tx_gas : ℕ
  pub base_gas : ℕ
  pub gas_price : ℕ
  pub gas_token : Address
  pub refund_receiver : Address
  pub nonce : ℕ

pub record ConsensusDomain : Type 0 where
  pub chain : ℕ
  pub consensus : Address

pub record TransactionProposal : Type 0 where
  pub epoch : ℕ
  pub transaction : SafeTransaction

pub record SafeTransactionPacket : Type 0 where
  pub domain : ConsensusDomain
  pub proposal : TransactionProposal

pub record Rollover : Type 0 where
  pub active_epoch : ℕ
  pub proposed_epoch : ℕ
  pub rollover_block : ℕ
  pub group_key_x : ℕ
  pub group_key_y : ℕ

pub record EpochRolloverPacket : Type 0 where
  pub domain : ConsensusDomain
  pub rollover : Rollover

-- The field `type` is the constructor.
pub data Packet : Type 0 where
  safe_transaction_packet : SafeTransactionPacket → Packet
  epoch_rollover_packet : EpochRolloverPacket → Packet
