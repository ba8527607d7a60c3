-- ===== src/Keygen/Confirmed.antt =====
-- validator/src/machine/keygen/confirmed.ts: the end of the ceremony.
use shieldnet.Prelude.{
  ℕ, ◌+◌, ◌*◌, List, [], ◌∷◌, ◌++◌, none, some, Bool, not, ◌==◌, every, includes, option_eq,
  if◌then◌else◌,
}
use shieldnet.Data.Frost.{Hex, ParticipantId, FrostPoint}
use shieldnet.Data.Packet.{Packet, epoch_rollover_packet}
use shieldnet.Data.Action.{sign_register_nonce_commitments}
use shieldnet.Data.Event.{KeyGenConfirmedEvent}
use shieldnet.Data.State.{
  RolloverState, CollectingConfirmations, StateDiff, ConsensusState, MachineConfig,
  collecting_confirmations, sign_rollover, epoch_staged, waiting_for_request,
}
use shieldnet.Data.External.{External}
use shieldnet.Store.Defs.{M, ◌>>=◌, pure, throw, require, no_group_public_key, invalid_epoch_packet}
use shieldnet.Store.Groups.{public_key}
use shieldnet.Client.Signing.{participant_ids, generate_nonce_tree}
use shieldnet.Verify.{VerificationResult, valid, invalid, verify}
use shieldnet.State.Diff.{no_diff, no_consensus}
use shieldnet.Data.Frost.{GroupId}

abbrev pub confirmations_with : CollectingConfirmations → ParticipantId → List ParticipantId
confirmations_with rollover identifier = rollover.confirmations_from ++ identifier ∷ []

unfoldable pub waiting_diff : CollectingConfirmations → ParticipantId → StateDiff
waiting_diff rollover identifier = record no_diff {
  rollover = some (
      collecting_confirmations (record rollover {
        confirmations_from = confirmations_with rollover identifier;
        last_participant = some identifier;
      }));
}

unfoldable pub genesis_diff : GroupId → Hex → StateDiff
genesis_diff group_id nonce_tree_root = record {
  consensus = some (record no_consensus { group_pending_nonces = some (group_id, Bool.true) });
  rollover = some (epoch_staged 0);
  signing = none;
  actions = sign_register_nonce_commitments group_id nonce_tree_root ∷ [];
}

module _ (ext : External) (cfg : MachineConfig) where
  unfoldable pub rollover_packet : ℕ → ℕ → FrostPoint → Packet
  rollover_packet active_epoch next_epoch key = epoch_rollover_packet (record {
    domain = record { chain = ext.chain_id; consensus = ext.consensus };
    rollover = record {
      active_epoch = active_epoch;
      proposed_epoch = next_epoch;
      rollover_block = next_epoch * cfg.blocks_per_epoch;
      group_key_x = key.x;
      group_key_y = key.y;
    };
  })

  unfoldable pub sign_diff :
      ℕ → CollectingConfirmations → ParticipantId → List ParticipantId → Packet → Hex → StateDiff
  sign_diff block rollover identifier participants packet message = record no_diff {
    rollover = some (
        sign_rollover (record {
          group_id = rollover.group_id;
          next_epoch = rollover.next_epoch;
          message = message;
        }));
    signing = some (
      message,
      some (record {
        packet = packet;
        deadline = block + cfg.signing_timeout;
        phase = waiting_for_request (some identifier) participants;
      }),
    );
  }

  unfoldable pub sign_verified :
      ℕ
      → CollectingConfirmations
      → ParticipantId
      → List ParticipantId
      → Packet
      → VerificationResult
      → M StateDiff
  unfolding sign_diff
  sign_verified block rollover identifier participants packet invalid = throw invalid_epoch_packet
  sign_verified block rollover identifier participants packet (valid message) =
      pure (sign_diff block rollover identifier participants packet message)

  -- The part for a group other than that of the genesis, when all have confirmed.
  unfoldable pub propose_rollover :
      ConsensusState
      → ℕ
      → CollectingConfirmations
      → KeyGenConfirmedEvent
      → List ParticipantId
      → M StateDiff
  unfolding sign_verified rollover_packet
  propose_rollover consensus_state block rollover event participants = do
    key ← public_key event.gid
    group_public_key ← require no_group_public_key key
    let packet = rollover_packet consensus_state.active_epoch rollover.next_epoch group_public_key
    result ← verify ext packet
    sign_verified block rollover event.identifier participants packet result

  unfoldable pub confirm :
      ConsensusState → ℕ → CollectingConfirmations → KeyGenConfirmedEvent → M StateDiff
  unfolding waiting_diff genesis_diff propose_rollover
  confirm consensus_state block rollover event = do
    participants ← participant_ids event.gid
    if not (every (λ p. includes p (confirmations_with rollover event.identifier)) participants)
        then pure (waiting_diff rollover event.identifier)
        else if option_eq consensus_state.genesis_group_id (some event.gid)
        then (do root ← generate_nonce_tree ext event.gid; pure (genesis_diff event.gid root))
        else propose_rollover consensus_state block rollover event participants

  unfoldable pub handle_key_gen_confirmed :
      ConsensusState → RolloverState → ℕ → KeyGenConfirmedEvent → M StateDiff
  unfolding confirm
  handle_key_gen_confirmed consensus_state (collecting_confirmations rollover) block event =
      if not (rollover.group_id == event.gid)
      then pure no_diff
      else confirm consensus_state block rollover event
  handle_key_gen_confirmed consensus_state _ block event = pure no_diff
