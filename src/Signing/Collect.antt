-- ===== src/Signing/Collect.antt =====
-- validator/src/machine/signing/nonces.ts, shares.ts and completed.ts: what the signers send.
use shieldnet.Prelude.{ℕ, ◌+◌, ◌*◌, [], ◌∷◌, ◌++◌, Option, none, some, not, ◌==◌, if◌then◌else◌}
use shieldnet.Data.Frost.{Hex, SignatureId}
use shieldnet.Data.Packet.{Packet, safe_transaction_packet, epoch_rollover_packet}
use shieldnet.Data.Action.{sign_publish_signature_share}
use shieldnet.Data.Event.{NonceCommitmentsEvent, SignatureShareEvent, SignedEvent}
use shieldnet.Data.State.{
  RolloverState, SigningState, SigningPhase, StateDiff, ConsensusState, MachineStates,
  MachineConfig, sign_rollover, collect_nonce_commitments, collect_signing_shares,
  waiting_for_attestation,
}
use shieldnet.Data.External.{External, uint64, bytes32, stage_epoch, attest_transaction}
use shieldnet.Store.Defs.{M, ◌>>=◌, pure, throw, invalid_state}
use shieldnet.Client.Signing.{SignatureShare, handle_nonce_commitments, create_signature_share}
use shieldnet.Verify.{safe_tx_hash}
use shieldnet.State.Diff.{no_diff}
use shieldnet.Signing.Status.{tracked, set_signing}

module _ (ext : External) (cfg : MachineConfig) where
  unfoldable pub attestation_callback : Packet → Option Hex
  attestation_callback (safe_transaction_packet p) = some (
      ext.encode_function_data attest_transaction (
        uint64 p.proposal.epoch
        ∷ bytes32 (safe_tx_hash ext p.proposal.transaction)
        ∷ bytes32 ext.zero_hash
        ∷ []))
  attestation_callback (epoch_rollover_packet p) = none

  -- The callback that the chain runs when the signature is complete.
  unfoldable pub callback_context : RolloverState → Hex → Packet → Option Hex
  unfolding attestation_callback
  callback_context (sign_rollover r) message packet =
      if r.message == message
      then some (
          ext.encode_function_data stage_epoch (
            uint64 r.next_epoch
            ∷ uint64 (r.next_epoch * cfg.blocks_per_epoch)
            ∷ bytes32 r.group_id
            ∷ bytes32 ext.zero_hash
            ∷ []))
      else attestation_callback packet
  callback_context _ message packet = attestation_callback packet

  unfoldable pub publish_diff :
      RolloverState
      → Hex
      → SigningState
      → SignatureId
      → ℕ
      → NonceCommitmentsEvent
      → SignatureShare
      → StateDiff
  unfolding callback_context
  publish_diff rollover message status signature_id block event share =
      record (set_signing message (record {
        packet = status.packet;
        deadline = block + cfg.signing_timeout;
        phase = collect_signing_shares signature_id [] (some event.identifier);
      })) {
        actions =
            sign_publish_signature_share (record {
              signature_id = event.sid;
              signers_root = share.signers_root;
              signers_proof = share.signers_proof;
              group_commitment = share.group_commitment;
              commitment_share = share.commitment_share;
              signature_share = share.signature_share;
              lagrange_coefficient = share.lagrange_coefficient;
              callback_context = callback_context rollover message status.packet;
            })
            ∷ [];
      }

  unfoldable pub reveal_in_phase :
      RolloverState → Hex → SigningState → SigningPhase → ℕ → NonceCommitmentsEvent → M StateDiff
  unfolding publish_diff
  reveal_in_phase rollover message status (collect_nonce_commitments signature_id last) block
        event =
      do
        ready ← handle_nonce_commitments ext event.sid event.identifier event.nonces
        if not ready
            then pure (
                set_signing message (record status {
                  phase = collect_nonce_commitments signature_id (some event.identifier);
                }))
            else do
              share ← create_signature_share ext event.sid
              pure (publish_diff rollover message status signature_id block event share)
  reveal_in_phase rollover message status _ block event = pure no_diff

  unfoldable pub reveal_tracked :
      RolloverState → Option (Hex × SigningState) → ℕ → NonceCommitmentsEvent → M StateDiff
  unfolding reveal_in_phase
  reveal_tracked rollover none block event = pure no_diff
  reveal_tracked rollover (some (message, status)) block event =
      reveal_in_phase rollover message status status.phase block event

  unfoldable pub handle_revealed_nonces :
      ConsensusState → MachineStates → ℕ → NonceCommitmentsEvent → M StateDiff
  unfolding reveal_tracked
  handle_revealed_nonces consensus_state machine_states block event =
      reveal_tracked machine_states.rollover (tracked consensus_state machine_states event.sid)
        block event

unfoldable pub share_in_phase :
    Hex → SigningState → SigningPhase → SignatureShareEvent → M StateDiff
share_in_phase message status (collect_signing_shares signature_id shares_from last) event = pure (
    set_signing message (record status {
      phase =
          collect_signing_shares signature_id (shares_from ++ event.identifier ∷ [])
            (some event.identifier);
    }))
share_in_phase message status _ event = pure no_diff

unfoldable pub share_tracked : Option (Hex × SigningState) → SignatureShareEvent → M StateDiff
unfolding share_in_phase
share_tracked none event = pure no_diff
share_tracked (some (message, status)) event = share_in_phase message status status.phase event

unfoldable pub handle_signing_shares :
    ConsensusState → MachineStates → SignatureShareEvent → M StateDiff
unfolding share_tracked
handle_signing_shares consensus_state machine_states event =
    share_tracked (tracked consensus_state machine_states event.sid) event

module _ (cfg : MachineConfig) where
  unfoldable pub complete_in_phase : Hex → SigningState → SigningPhase → ℕ → M StateDiff
  complete_in_phase message status (collect_signing_shares signature_id shares_from none) block =
      throw invalid_state
  complete_in_phase message status (collect_signing_shares signature_id shares_from (some last))
        block =
      pure (
        set_signing message (record {
          packet = status.packet;
          deadline = block + cfg.signing_timeout;
          phase = waiting_for_attestation signature_id (some last);
        }))
  complete_in_phase message status _ block = pure no_diff

  unfoldable pub complete_tracked : Option (Hex × SigningState) → ℕ → M StateDiff
  unfolding complete_in_phase
  complete_tracked none block = pure no_diff
  complete_tracked (some (message, status)) block =
      complete_in_phase message status status.phase block

  unfoldable pub handle_signing_completed :
      ConsensusState → MachineStates → ℕ → SignedEvent → M StateDiff
  unfolding complete_tracked
  handle_signing_completed consensus_state machine_states block event =
      complete_tracked (tracked consensus_state machine_states event.sid) block
