-- ===== src/Signing/Status.antt =====
-- How the signing handlers read the state of a message, and the diffs that write it.
use shieldnet.Prelude.{ℕ, Option, none, some}
use shieldnet.Prelude.Assoc.{get}
use shieldnet.Data.Frost.{Hex, SignatureId}
use shieldnet.Data.Packet.{Packet, safe_transaction_packet, epoch_rollover_packet}
use shieldnet.Data.State.{SigningState, StateDiff, ConsensusDiff, ConsensusState, MachineStates}
use shieldnet.State.Diff.{no_diff, no_consensus}

abbrev pub status_of : MachineStates → Hex → Option SigningState
status_of states message = get message states.signing

-- The message that a signature request is about, with its state.
abbrev pub tracked : ConsensusState → MachineStates → SignatureId → Option (Hex × SigningState)
tracked consensus_state machine_states sid =
    elim (get sid consensus_state.signature_id_to_message) as (λ _. Option (Hex × SigningState)) [
      | none ↦ none
      | some message ↦
          elim (status_of machine_states message) as (λ _. Option (Hex × SigningState)) [
            | none ↦ none
            | some status ↦ some (message, status)
          ]
    ]

abbrev pub set_signing : Hex → SigningState → StateDiff
set_signing message state = record no_diff { signing = some (message, some state) }

abbrev pub drop_signing : Hex → StateDiff
drop_signing message = record no_diff { signing = some (message, none) }

-- `{ signatureIdToMessage: [sid, undefined] }`.
abbrev pub forget_request : SignatureId → ConsensusDiff
forget_request sid = record no_consensus { signature_id_to_message = some (sid, none) }

-- The epoch of the group that signs the packet.
abbrev pub epoch_of : Packet → ℕ
epoch_of (epoch_rollover_packet p) = p.rollover.active_epoch
epoch_of (safe_transaction_packet p) = p.proposal.epoch
