-- ===== src/Verify.antt =====
-- validator/src/consensus/verify: the engine, its two handlers and their hashes. The set of verified
-- messages is `World.verified`.
use shieldnet.Prelude.{ℕ, [], ◌∷◌, Option, none, some, Bool, not, includes}
use shieldnet.Data.Frost.{Hex}
use shieldnet.Data.Packet.{
  SafeTransaction, ConsensusDomain, SafeTransactionPacket, EpochRolloverPacket, Packet,
  safe_transaction_packet, epoch_rollover_packet,
}
use shieldnet.Data.External.{
  External, uint8, uint64, uint256, bytes32, bytes_text, address, safe_tx, transaction_proposal,
  epoch_rollover,
}
use shieldnet.Store.Defs.{M, ◌>>=◌, ◌>>◌, ok, pure, throw_if, attempt, invalid_packet}

-- `PacketVerificationResult`, without the error's value.
pub data VerificationResult : Type 0 where
  valid : Hex → VerificationResult
  invalid : VerificationResult

abbrev pub mark_verified : Hex → M (Unit {0})
mark_verified message w = (ok tt, record w { verified = message ∷ w.verified })

unfoldable pub is_verified : Hex → M Bool
is_verified message w = (ok (includes message w.verified), w)

module _ (ext : External) where
  unfoldable pub safe_tx_hash : SafeTransaction → Hex
  safe_tx_hash t = ext.hash_typed_data (record {
    chain_id = t.chain_id;
    verifying_contract = t.safe;
    primary_type = safe_tx;
    message =
        address t.to
        ∷ uint256 t.value
        ∷ bytes_text t.call_data
        ∷ uint8 t.operation
        ∷ uint256 t.safe_tx_gas
        ∷ uint256 t.base_gas
        ∷ uint256 t.gas_price
        ∷ address t.gas_token
        ∷ address t.refund_receiver
        ∷ uint256 t.nonce
        ∷ [];
  })

  unfoldable pub safe_tx_proposal_hash : ConsensusDomain → ℕ → Hex → Hex
  safe_tx_proposal_hash domain epoch transaction_hash = ext.hash_typed_data (record {
    chain_id = domain.chain;
    verifying_contract = domain.consensus;
    primary_type = transaction_proposal;
    message = uint64 epoch ∷ bytes32 transaction_hash ∷ [];
  })

  unfoldable pub safe_tx_packet_hash : SafeTransactionPacket → Hex
  unfolding safe_tx_proposal_hash safe_tx_hash
  safe_tx_packet_hash packet =
      safe_tx_proposal_hash packet.domain packet.proposal.epoch
        (safe_tx_hash packet.proposal.transaction)

  unfoldable pub epoch_rollover_hash : EpochRolloverPacket → Hex
  epoch_rollover_hash packet = ext.hash_typed_data (record {
    chain_id = packet.domain.chain;
    verifying_contract = packet.domain.consensus;
    primary_type = epoch_rollover;
    message =
        uint64 packet.rollover.active_epoch
        ∷ uint64 packet.rollover.proposed_epoch
        ∷ uint64 packet.rollover.rollover_block
        ∷ uint256 packet.rollover.group_key_x
        ∷ uint256 packet.rollover.group_key_y
        ∷ [];
  })

  -- The handler of the packet's type: `SafeTransactionHandler` or `EpochRolloverHandler`.
  unfoldable pub hash_and_verify : Packet → M Hex
  unfolding safe_tx_packet_hash epoch_rollover_hash
  hash_and_verify (safe_transaction_packet packet) = do
    throw_if (not (ext.schema_accepts (safe_transaction_packet packet))) invalid_packet
    throw_if (not (ext.check_passes packet.proposal.transaction)) invalid_packet
    pure (safe_tx_packet_hash packet)
  hash_and_verify (epoch_rollover_packet packet) = do
    throw_if (not (ext.schema_accepts (epoch_rollover_packet packet))) invalid_packet
    pure (epoch_rollover_hash packet)

  unfoldable pub conclude : Option Hex → M VerificationResult
  conclude none = pure invalid
  conclude (some packet_id) = do mark_verified packet_id; pure (valid packet_id)

  unfoldable pub verify : Packet → M VerificationResult
  unfolding hash_and_verify conclude
  verify packet = do packet_id ← attempt (hash_and_verify packet); conclude packet_id
