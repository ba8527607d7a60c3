-- ===== src/Signing/Request.antt =====
-- validator/src/machine/signing/sign.ts and preprocess.ts: a signing request, and the supply of nonces.
use shieldnet.Prelude.{
  ℕ, zero, suc, ◌+◌, List, [], ◌∷◌, ◌++◌, Option, none, some, Bool, true, false, not, ◌&&◌, ◌==◌,
  ltb, length, if◌then◌else◌,
}
use shieldnet.Prelude.Assoc.{get}
use shieldnet.Data.Frost.{Hex, GroupId, ParticipantId}
use shieldnet.Data.Action.{sign_register_nonce_commitments, sign_reveal_nonce_commitments}
use shieldnet.Data.Event.{SignRequestEvent, NonceCommitmentsHashEvent}
use shieldnet.Data.State.{
  RolloverState, SigningState, SigningPhase, GroupInfo, ConsensusDiff, StateDiff, ConsensusState,
  MachineStates, MachineConfig, epoch_staged, waiting_for_request, collect_nonce_commitments,
}
use shieldnet.Data.External.{External}
use shieldnet.Store.Defs.{M, ◌>>=◌, ◌>>◌, pure, throw, storage, out_of_fuel}
use shieldnet.Client.Nonces.{decode_sequence}
use shieldnet.Client.Signing.{
  OwnNonces, generate_nonce_tree, handle_nonce_commitments_hash, create_nonce_commitments,
  available_nonces_count,
}
use shieldnet.Verify.{is_verified}
use shieldnet.State.Diff.{no_diff, no_consensus}
use shieldnet.Signing.Status.{status_of}

abbrev pub nonce_threshold : ℕ
nonce_threshold = 100

abbrev pub is_epoch_staged : RolloverState → Bool
is_epoch_staged (epoch_staged _) = true
is_epoch_staged _ = false

-- `groupPendingNonces[groupId] === true`.
abbrev pub is_pending : Option Bool → Bool
is_pending none = false
is_pending (some b) = b

-- The bigint `availableNonces`, which may be negative, as a difference.
pub record Balance : Type 0 where
  pub gained : ℕ
  pub lost : ℕ

unfoldable pub request_nonces : GroupId → Hex → StateDiff
request_nonces group_id nonce_tree_root = record no_diff {
  consensus = some (record no_consensus { group_pending_nonces = some (group_id, true) });
  actions = sign_register_nonce_commitments group_id nonce_tree_root ∷ [];
}

-- `{ ...diff.consensus }`.
abbrev pub consensus_or_empty : Option ConsensusDiff → ConsensusDiff
consensus_or_empty none = no_consensus
consensus_or_empty (some c) = c

module _ (ext : External) where
  -- The loop of `checkAvailableNonces`, on fuel: it ends at the first chunk without nonces.
  unfoldable pub count_available : ℕ → GroupId → ℕ → ℕ → Balance → M Balance
  count_available zero group_id chunk offset total = throw out_of_fuel
  count_available (suc fuel) group_id chunk offset total = do
    nonces ← available_nonces_count ext group_id chunk
    let total' : Balance = record { gained = total.gained + nonces; lost = total.lost + offset }
    elim nonces as (λ _. M Balance) [
      | zero ↦ pure total'
      | suc _ ↦ count_available fuel group_id (chunk + 1) 0 total'
    ]

  -- The chunks that are linked, and one round more.
  unfoldable pub chunk_fuel : M ℕ
  chunk_fuel = do s ← storage; pure (suc (length s.chunk_nonces))

  unfoldable pub top_up_nonces : GroupId → ℕ → M StateDiff
  unfolding count_available chunk_fuel request_nonces
  top_up_nonces group_id seq = do
    fuel ← chunk_fuel
    available ←
        count_available fuel group_id (decode_sequence seq).chunk (decode_sequence seq).offset
          (record { gained = 0; lost = 0 })
    if ltb available.gained (nonce_threshold + available.lost)
        then (do root ← generate_nonce_tree ext group_id; pure (request_nonces group_id root))
        else pure no_diff

  unfoldable pub check_group_nonces : ConsensusState → Option GroupInfo → ℕ → M StateDiff
  unfolding top_up_nonces
  check_group_nonces consensus_state none seq = pure no_diff
  check_group_nonces consensus_state (some active_group) seq =
      if is_pending (get active_group.group_id consensus_state.group_pending_nonces)
      then pure no_diff
      else top_up_nonces active_group.group_id seq

  unfoldable pub check_available_nonces : ConsensusState → RolloverState → ℕ → M StateDiff
  unfolding check_group_nonces
  check_available_nonces consensus_state rollover seq =
      if consensus_state.active_epoch == 0 && not (is_epoch_staged rollover)
      then pure no_diff
      else check_group_nonces consensus_state
          (get consensus_state.active_epoch consensus_state.epoch_groups) seq

  unfoldable pub handle_preprocess : ConsensusState → NonceCommitmentsHashEvent → M StateDiff
  handle_preprocess consensus_state event = do
    handle_nonce_commitments_hash ext event.gid event.identifier event.commitment event.chunk
    pure (record no_diff {
      consensus = some (record no_consensus {
        group_pending_nonces =
            if is_pending (get event.gid consensus_state.group_pending_nonces)
            then some (event.gid, false)
            else none;
      });
    })

module _ (ext : External) (cfg : MachineConfig) where
  unfoldable pub reveal_diff :
      StateDiff → SigningState → ℕ → SignRequestEvent → OwnNonces → StateDiff
  reveal_diff diff status block event own = record {
    consensus = some (record (consensus_or_empty diff.consensus) {
      signature_id_to_message = some (event.sid, some event.message);
    });
    rollover = none;
    signing = some (
      event.message,
      some (record {
        packet = status.packet;
        deadline = block + cfg.signing_timeout;
        phase = collect_nonce_commitments event.sid none;
      }),
    );
    actions =
        diff.actions
        ++ sign_reveal_nonce_commitments (record {
          signature_id = event.sid;
          nonce_commitments = own.nonce_commitments;
          nonce_proof = own.nonce_proof;
        })
          ∷ [];
  }

  -- The part of `handleSign` for a message that waits for its request.
  unfoldable pub start_signing :
      StateDiff → SigningState → List ParticipantId → ℕ → SignRequestEvent → M StateDiff
  unfolding reveal_diff
  start_signing diff status signers block event = do
    known ← is_verified event.message
    if not known then pure diff else do
      own ← create_nonce_commitments ext event.gid event.sid event.message event.sequence signers
      pure (reveal_diff diff status block event own)

  unfoldable pub sign_in_phase :
      StateDiff → SigningState → SigningPhase → ℕ → SignRequestEvent → M StateDiff
  unfolding start_signing
  sign_in_phase diff status (waiting_for_request responsible signers) block event =
      start_signing diff status signers block event
  sign_in_phase diff status _ block event = pure diff

  unfoldable pub sign_with_status :
      StateDiff → Option SigningState → ℕ → SignRequestEvent → M StateDiff
  unfolding sign_in_phase
  sign_with_status diff none block event = pure diff
  sign_with_status diff (some status) block event =
      sign_in_phase diff status status.phase block event

  unfoldable pub handle_sign : ConsensusState → MachineStates → ℕ → SignRequestEvent → M StateDiff
  unfolding sign_with_status
  handle_sign consensus_state machine_states block event = do
    diff ← check_available_nonces ext consensus_state machine_states.rollover event.sequence
    sign_with_status diff (status_of machine_states event.message) block event
