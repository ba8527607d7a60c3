-- ===== src/Consensus.antt =====
-- validator/src/machine/consensus: the rollover of epochs, and the events of the consensus contract.
use shieldnet.Prelude.{
  ℕ, ◌+◌, ◌/◌, [], ◌∷◌, Option, none, some, Bool, true, false, not, ◌&&◌, ltb, ◌==◌, if◌then◌else◌,
}
use shieldnet.Prelude.Assoc.{get}
use shieldnet.Data.Frost.{Hex, SignatureId}
use shieldnet.Data.Packet.{Packet, safe_transaction_packet}
use shieldnet.Data.Action.{sign_register_nonce_commitments}
use shieldnet.Data.Event.{EpochEvent, TransactionProposedEvent, TransactionAttestedEvent}
use shieldnet.Data.State.{
  RolloverState, SignRollover, SigningState, SigningPhase, GroupInfo, StateDiff, ConsensusState,
  MachineStates, MachineConfig, waiting_for_genesis, epoch_skipped, collecting_commitments,
  collecting_shares, collecting_confirmations, sign_rollover, epoch_staged, waiting_for_request,
  waiting_for_attestation,
}
use shieldnet.Data.External.{External}
use shieldnet.Store.Defs.{M, ◌>>=◌, ◌>>◌, pure, throw_if, attempt, division_by_zero}
use shieldnet.Store.Groups.{participant_id}
use shieldnet.Client.Signing.{participant_ids, generate_nonce_tree}
use shieldnet.Verify.{VerificationResult, valid, invalid, verify, safe_tx_proposal_hash}
use shieldnet.State.Diff.{no_diff}
use shieldnet.Keygen.Group.{calc_group_context}
use shieldnet.Keygen.Trigger.{trigger_key_gen}
use shieldnet.Keygen.Shares.{if_member}
use shieldnet.Signing.Request.{consensus_or_empty}
use shieldnet.Signing.Status.{status_of, set_signing, forget_request}

-- The epoch that a rollover state is about; `none` in the genesis state.
abbrev pub next_epoch? : RolloverState → Option ℕ
next_epoch? waiting_for_genesis = none
next_epoch? (epoch_skipped e) = some e
next_epoch? (collecting_commitments r) = some r.next_epoch
next_epoch? (collecting_shares r) = some r.next_epoch
next_epoch? (collecting_confirmations r) = some r.next_epoch
next_epoch? (sign_rollover r) = some r.next_epoch
next_epoch? (epoch_staged e) = some e

abbrev pub is_staged : RolloverState → Bool
is_staged (epoch_staged _) = true
is_staged _ = false

-- `{ ...diff.consensus, activeEpoch }` when a staged epoch starts.
unfoldable pub activate : Bool → ℕ → StateDiff → StateDiff
activate false epoch diff = record diff { consensus = some (consensus_or_empty diff.consensus) }
activate true epoch diff = record diff {
  consensus = some (record (consensus_or_empty diff.consensus) { active_epoch = some epoch });
}

module _ (ext : External) (cfg : MachineConfig) where
  unfoldable pub start_next_epoch : Bool → ℕ → ℕ → M StateDiff
  unfolding activate
  start_next_epoch staged epoch block = do
    diff ←
        trigger_key_gen ext cfg (block / cfg.blocks_per_epoch + 1) (block + cfg.key_gen_timeout)
          cfg.default_participants (calc_group_context ext (block / cfg.blocks_per_epoch + 1))
    pure (activate staged epoch diff)

  unfoldable pub rollover_from : Bool → Option ℕ → ℕ → M StateDiff
  unfolding start_next_epoch
  rollover_from staged none block = pure no_diff
  rollover_from staged (some epoch) block =
      if not staged && epoch == 0
      then pure no_diff
      else if ltb (block / cfg.blocks_per_epoch) epoch
      then pure no_diff
      else start_next_epoch staged epoch block

  unfoldable pub check_epoch_rollover : RolloverState → ℕ → M StateDiff
  unfolding rollover_from
  check_epoch_rollover rollover block = do
    throw_if (cfg.blocks_per_epoch == 0) division_by_zero
    rollover_from (is_staged rollover) (next_epoch? rollover) block

-- The signature request of a message that waits for its attestation.
abbrev pub attestation_request : Option SigningState → Option SignatureId
attestation_request none = none
attestation_request (some status) = from_phase status.phase
  where
    from_phase : SigningPhase → Option SignatureId
    from_phase (waiting_for_attestation signature_id _) = some signature_id
    from_phase _ = none

module _ (ext : External) where
  unfoldable pub staged_diff : SignRollover → SignatureId → ℕ → Hex → StateDiff
  staged_diff rollover signature_id proposed_epoch nonce_tree_root = record {
    consensus = some (record (forget_request signature_id) {
      group_pending_nonces = some (rollover.group_id, true);
    });
    rollover = some (epoch_staged proposed_epoch);
    signing = some (rollover.message, none);
    actions = sign_register_nonce_commitments rollover.group_id nonce_tree_root ∷ [];
  }

  unfoldable pub prepare_group : SignRollover → SignatureId → EpochEvent → M StateDiff
  unfolding staged_diff
  prepare_group rollover signature_id event = do
    root ← generate_nonce_tree ext rollover.group_id
    pure (staged_diff rollover signature_id event.proposed_epoch root)

  unfoldable pub stage_attested : SignRollover → Option SignatureId → EpochEvent → M StateDiff
  unfolding prepare_group if_member
  stage_attested rollover none event = pure no_diff
  stage_attested rollover (some signature_id) event = do
    self ← attempt (participant_id rollover.group_id)
    if_member self (prepare_group rollover signature_id event)

  unfoldable pub stage_in : RolloverState → MachineStates → EpochEvent → M StateDiff
  unfolding stage_attested
  stage_in (sign_rollover r) machine_states event =
      stage_attested r (attestation_request (status_of machine_states r.message)) event
  stage_in _ machine_states event = pure no_diff

  unfoldable pub handle_epoch_staged : MachineStates → EpochEvent → M StateDiff
  unfolding stage_in
  handle_epoch_staged machine_states event = stage_in machine_states.rollover machine_states event

  unfoldable pub forget_attested : Hex → Option SignatureId → StateDiff
  forget_attested message none = no_diff
  forget_attested message (some signature_id) = record no_diff {
    consensus = some (forget_request signature_id);
    signing = some (message, none);
  }

  unfoldable pub attested_message : TransactionAttestedEvent → Hex
  attested_message event =
      safe_tx_proposal_hash ext (record { chain = ext.chain_id; consensus = ext.consensus })
        event.epoch event.transaction_hash

  unfoldable pub handle_transaction_attested :
      MachineStates → TransactionAttestedEvent → M StateDiff
  unfolding forget_attested attested_message
  handle_transaction_attested machine_states event = pure (
      forget_attested (attested_message event)
        (attestation_request (status_of machine_states (attested_message event))))

module _ (ext : External) (cfg : MachineConfig) where
  unfoldable pub proposal_packet : TransactionProposedEvent → Packet
  proposal_packet event = safe_transaction_packet (record {
    domain = record { chain = ext.chain_id; consensus = ext.consensus };
    proposal = record { epoch = event.epoch; transaction = event.transaction };
  })

  unfoldable pub track_proposal : GroupInfo → ℕ → Packet → VerificationResult → M StateDiff
  track_proposal group block packet invalid = pure no_diff
  track_proposal group block packet (valid message) = do
    ids ← participant_ids group.group_id
    pure (
        set_signing message (record {
          packet = packet;
          deadline = block + cfg.signing_timeout;
          phase = waiting_for_request none ids;
        }))

  unfoldable pub propose_in : Option GroupInfo → ℕ → TransactionProposedEvent → M StateDiff
  unfolding track_proposal proposal_packet
  propose_in none block event = pure no_diff
  propose_in (some group) block event = do
    result ← verify ext (proposal_packet event)
    track_proposal group block (proposal_packet event) result

  unfoldable pub handle_transaction_proposed :
      ConsensusState → ℕ → TransactionProposedEvent → M StateDiff
  unfolding propose_in
  handle_transaction_proposed consensus_state block event =
      propose_in (get event.epoch consensus_state.epoch_groups) block event
