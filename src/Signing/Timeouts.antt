-- ===== src/Signing/Timeouts.antt =====
-- validator/src/machine/signing/timeouts.ts: a signing ceremony that misses its deadline.
use shieldnet.Prelude.{
  ℕ, ◌+◌, ◌*◌, List, [], ◌∷◌, Option, none, some, not, ltb, ◌==◌, includes, keep, length, option_eq,
  if◌then◌else◌,
}
use shieldnet.Prelude.Assoc.{get}
use shieldnet.Data.Frost.{Hex, SignatureId, ParticipantId}
use shieldnet.Data.Packet.{Packet, safe_transaction_packet, epoch_rollover_packet}
use shieldnet.Data.Action.{
  ProtocolAction, sign_request, consensus_stage_epoch, consensus_attest_transaction,
}
use shieldnet.Data.State.{
  RolloverState, SigningState, SigningPhase, GroupInfo, StateDiff, ConsensusState, MachineStates,
  MachineConfig, sign_rollover, waiting_for_request, collect_nonce_commitments,
  collect_signing_shares, waiting_for_attestation,
}
use shieldnet.Data.External.{External}
use shieldnet.Store.Defs.{M, ◌>>=◌, pure, throw, unknown_epoch_group}
use shieldnet.Store.Groups.{participant_id, threshold}
use shieldnet.Store.Requests.{signing_group, signers, missing_nonces}
use shieldnet.Verify.{safe_tx_hash}
use shieldnet.State.Diff.{no_diff}
use shieldnet.Signing.Status.{set_signing, drop_signing, forget_request, epoch_of}

-- `signers.filter((id) => id !== responsible)`.
abbrev pub without_responsible : List ParticipantId → Option ParticipantId → List ParticipantId
without_responsible ids none = ids
without_responsible ids (some r) = keep (λ id. not (id == r)) ids

abbrev pub without_ids : List ParticipantId → List ParticipantId → List ParticipantId
without_ids missing ids = keep (λ id. not (includes id missing)) ids

module _ (ext : External) (cfg : MachineConfig) where
  unfoldable pub attest_action : SignatureId → Packet → List ProtocolAction
  attest_action signature_id (safe_transaction_packet p) =
      consensus_attest_transaction (record {
        epoch = p.proposal.epoch;
        transaction_hash = safe_tx_hash ext p.proposal.transaction;
        signature_id = signature_id;
      })
      ∷ []
  attest_action signature_id (epoch_rollover_packet p) = []

  -- The calls that submit the finished signature.
  unfoldable pub submit_actions : RolloverState → Hex → SignatureId → Packet → List ProtocolAction
  unfolding attest_action
  submit_actions (sign_rollover r) message signature_id packet =
      if message == r.message
      then consensus_stage_epoch (record {
        proposed_epoch = r.next_epoch;
        rollover_block = r.next_epoch * cfg.blocks_per_epoch;
        group_id = r.group_id;
        signature_id = signature_id;
      })
        ∷ []
      else attest_action signature_id packet
  submit_actions _ message signature_id packet = attest_action signature_id packet

  -- `waiting_for_attestation`: everyone was responsible, or the one who was is named.
  unfoldable pub attestation_timeout :
      RolloverState → ℕ → Hex → SigningState → SignatureId → Option ParticipantId → M StateDiff
  unfolding submit_actions
  attestation_timeout rollover block message status signature_id none =
      pure (record (drop_signing message) {
        consensus = some (forget_request signature_id);
        actions = submit_actions rollover message signature_id status.packet;
      })
  attestation_timeout rollover block message status signature_id (some responsible) = do
    group_id ← signing_group signature_id
    self ← participant_id group_id
    pure
        (record (set_signing message (record {
          packet = status.packet;
          deadline = block + cfg.signing_timeout;
          phase = waiting_for_attestation signature_id none;
        })) {
          consensus = some (forget_request signature_id);
          actions =
              if responsible == self
              then submit_actions rollover message signature_id status.packet
              else [];
        })

  -- The retry of `waiting_for_request` in a group that is known and has enough signers left.
  unfoldable pub request_again :
      ℕ → Hex → SigningState → Option ParticipantId → List ParticipantId → GroupInfo → StateDiff
  request_again block message status none remaining info = record (drop_signing message) {
    actions = sign_request info.group_id message ∷ [];
  }
  request_again block message status (some responsible) remaining info =
      record (set_signing message (record {
        packet = status.packet;
        deadline = block + cfg.signing_timeout;
        phase = waiting_for_request none remaining;
      })) {
        actions =
            if responsible == info.participant_id
            then sign_request info.group_id message ∷ []
            else [];
      }

  unfoldable pub request_timeout :
      ℕ
      → Hex
      → SigningState
      → Option ParticipantId
      → List ParticipantId
      → Option GroupInfo
      → M StateDiff
  unfolding request_again
  request_timeout block message status responsible remaining none = pure (drop_signing message)
  request_timeout block message status responsible remaining (some info) = do
    t ← threshold info.group_id
    pure (
        if ltb (length remaining) t
        then drop_signing message
        else request_again block message status responsible remaining info)

  unfoldable pub retry_diff :
      ℕ → Hex → SigningState → SignatureId → Option ParticipantId → List ParticipantId → StateDiff
  retry_diff block message status signature_id last_signer remaining =
      record (set_signing message (record {
        packet = status.packet;
        deadline = block + cfg.signing_timeout;
        phase = waiting_for_request last_signer remaining;
      })) { consensus = some (forget_request signature_id) }

  -- The group of the packet's epoch, and the signers that took part.
  unfoldable pub retry_without_missing :
      ℕ
      → Hex
      → SigningState
      → SignatureId
      → Option ParticipantId
      → List ParticipantId
      → Option GroupInfo
      → M StateDiff
  unfolding retry_diff
  retry_without_missing block message status signature_id last_signer remaining none =
      throw unknown_epoch_group
  retry_without_missing block message status signature_id last_signer remaining (some info) = do
    t ← threshold info.group_id
    if ltb (length remaining) t
        then pure (record (drop_signing message) { consensus = some (forget_request signature_id) })
        else do
          self ← participant_id info.group_id
          pure (record (retry_diff block message status signature_id last_signer remaining) {
            actions =
                if option_eq last_signer (some self)
                then sign_request info.group_id message ∷ []
                else [];
          })

  -- The `switch` of `checkSigningRequestTimeout`.
  unfoldable pub timeout_in_phase :
      ConsensusState → RolloverState → ℕ → Hex → SigningState → SigningPhase → M StateDiff
  unfolding attestation_timeout request_timeout retry_without_missing
  timeout_in_phase consensus_state rollover block message status
        (waiting_for_attestation signature_id responsible) =
      attestation_timeout rollover block message status signature_id responsible
  timeout_in_phase consensus_state rollover block message status
        (waiting_for_request responsible ids) =
      request_timeout block message status responsible (without_responsible ids responsible)
        (get (epoch_of status.packet) consensus_state.epoch_groups)
  timeout_in_phase consensus_state rollover block message status
        (collect_nonce_commitments signature_id last_signer) =
      do
        current ← signers signature_id
        missing ← missing_nonces signature_id
        retry_without_missing block message status signature_id last_signer
            (without_ids missing current)
            (get (epoch_of status.packet) consensus_state.epoch_groups)
  timeout_in_phase consensus_state rollover block message status
        (collect_signing_shares signature_id shares_from last_signer) =
      do
        current ← signers signature_id
        retry_without_missing block message status signature_id last_signer
            (without_ids (without_ids shares_from current) current)
            (get (epoch_of status.packet) consensus_state.epoch_groups)

  unfoldable pub check_signing_request_timeout :
      ConsensusState → RolloverState → ℕ → Hex → SigningState → M StateDiff
  unfolding timeout_in_phase
  check_signing_request_timeout consensus_state rollover block message status =
      if ltb block status.deadline
      then pure no_diff
      else timeout_in_phase consensus_state rollover block message status status.phase

  -- The loop over `Object.entries(machineStates.signing)`.
  unfoldable pub check_each :
      ConsensusState → RolloverState → ℕ → List (Hex × SigningState) → M (List StateDiff)
  unfolding check_signing_request_timeout
  check_each consensus_state rollover block [] = pure []
  check_each consensus_state rollover block ((message, status) ∷ rest) = do
    diff ← check_signing_request_timeout consensus_state rollover block message status
    diffs ← check_each consensus_state rollover block rest
    pure (diff ∷ diffs)

  unfoldable pub check_signing_timeouts : ConsensusState → MachineStates → ℕ → M (List StateDiff)
  unfolding check_each
  check_signing_timeouts consensus_state machine_states block =
      check_each consensus_state machine_states.rollover block machine_states.signing
