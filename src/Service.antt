-- ===== src/Service.antt =====
-- validator/src/service/machine.ts: `SafenetStateMachine`. A transition computes on a local copy and
-- returns its differences. When it did not throw, they are stored, and then their actions are handed
-- to the protocol one by one, which may throw at one of them: the differences stay stored. The storage
-- is the one in memory, whose `applyDiff` does not throw.
use shieldnet.Prelude.{
  ℕ, ◌+◌, List, [], ◌∷◌, ◌++◌, Option, none, some, Bool, true, false, ◌&&◌, ◌||◌, ltb, leb, ◌==◌,
  if◌then◌else◌,
}
use shieldnet.Data.Action.{ProtocolAction}
use shieldnet.Data.Event.{
  Event, EventTransition, StateTransition, block_new, event_at, event_key_gen,
  event_key_gen_committed, event_key_gen_secret_shared, event_key_gen_complaint_submitted,
  event_key_gen_complaint_responded, event_key_gen_confirmed, event_nonce_commitments_hash,
  event_sign_request, event_nonce_commitments, event_signature_share, event_signed,
  event_epoch_proposed, event_epoch_staged, event_transaction_proposed, event_transaction_attested,
}
use shieldnet.Data.State.{StateDiff, ConsensusState, MachineStates, MachineConfig}
use shieldnet.Data.External.{External}
use shieldnet.Store.Defs.{World, Result, ok, err, M, ◌>>=◌, pure, stale_transition}
use shieldnet.State.Diff.{StateStorage, no_diff, apply_diff}
use shieldnet.State.Local.{
  TransitionState, new_transition_state, view_machines, view_consensus, apply,
}
use shieldnet.Keygen.Trigger.{handle_genesis_key_gen}
use shieldnet.Keygen.Shares.{handle_key_gen_committed, handle_key_gen_secret_shared}
use shieldnet.Keygen.Complaints.{handle_complaint_submitted, handle_complaint_responded}
use shieldnet.Keygen.Confirmed.{handle_key_gen_confirmed}
use shieldnet.Keygen.Timeouts.{check_key_gen_timeouts}
use shieldnet.Signing.Request.{handle_preprocess, handle_sign}
use shieldnet.Signing.Collect.{
  handle_revealed_nonces, handle_signing_shares, handle_signing_completed,
}
use shieldnet.Signing.Timeouts.{check_signing_timeouts}
use shieldnet.Consensus.{
  check_epoch_rollover, handle_epoch_staged, handle_transaction_proposed,
  handle_transaction_attested,
}
pub mod Order
pub mod Atomic
pub mod Settled
pub mod Deadlines

-- The fields that a transition changes even when it throws; the index -1 is `none`.
pub record Core : Type 0 where
  pub world : World
  pub last_processed_block : ℕ
  pub last_processed_index : Option ℕ

pub record Machine : Type 0 where
  pub core : Core
  pub storage : StateStorage
  -- how often `process` of the protocol was called
  pub calls : ℕ

-- The actions that the protocol took, whether it took all, and how often it was called by then.
pub record HandOver : Type 0 where
  pub taken : List ProtocolAction
  pub took_all : Bool
  pub calls : ℕ

-- What a transition leaves: the machine, the actions that the protocol took, and its result.
pub record Outcome : Type 0 where
  pub machine : Machine
  pub actions : List ProtocolAction
  pub succeeded : Bool

unfoldable pub core_result : {A : Type 0} → Core → Result A × World → Result A × Core
core_result core (r, w) = (r, record core { world = w })

-- `state.apply` for each diff.
unfoldable pub apply_all : List StateDiff → TransitionState → TransitionState
apply_all [] state = state
apply_all (diff ∷ diffs) state = apply_all diffs (apply diff state)

-- `index <= lastProcessedIndex`.
abbrev pub index_passed : ℕ → Option ℕ → Bool
index_passed index none = false
index_passed index (some last) = leb index last

-- The guard of `processEventTransition`.
unfoldable pub is_stale : EventTransition → Core → Bool
is_stale t core =
    ltb t.block core.last_processed_block
    || (t.block == core.last_processed_block && index_passed t.index core.last_processed_index)

-- `storage.applyDiff` for each diff, with the actions in order.
unfoldable pub commit_diffs : List StateDiff → StateStorage → StateStorage × List ProtocolAction
commit_diffs [] s = (s, [])
commit_diffs (diff ∷ diffs) s =
    let (s', actions) = apply_diff diff s in
    let (s'', more) = commit_diffs diffs s' in (s'', actions ++ more)

unfoldable pub diffs_of : Result TransitionState × Core → Result (List StateDiff) × Core
diffs_of (ok state, core) = (ok state.diffs, core)
diffs_of (err e, core) = (err e, core)

module _ (ext : External) (cfg : MachineConfig) where
  -- `protocol.process` for each action, up to the one at which it throws.
  unfoldable pub process_actions : ℕ → List ProtocolAction → HandOver
  process_actions calls [] = record { taken = []; took_all = true; calls = calls }
  process_actions calls (action ∷ actions) =
      let rest = process_actions (calls + 1) actions in
      if ext.protocol_throws calls action
      then record { taken = []; took_all = false; calls = calls + 1 }
      else record rest { taken = action ∷ rest.taken }

  -- The continuations `then` and `catch` of `checkNextTransition`.
  unfoldable pub settle_transition : Machine → Result (List StateDiff) × Core → Outcome
  unfolding commit_diffs process_actions
  settle_transition m (ok diffs, core) =
      let (s', actions) = commit_diffs diffs m.storage in
      let handed = process_actions m.calls actions in
      record {
        machine = record { core = core; storage = s'; calls = handed.calls };
        actions = handed.taken;
        succeeded = handed.took_all;
      }
  settle_transition m (err e, core) = record {
    machine = record m { core = core };
    actions = [];
    succeeded = false;
  }

  -- The three checks of `progressToBlock`, each on the state that the one before it left.
  unfoldable pub block_checks : ℕ → TransitionState → M TransitionState
  unfolding apply_all
  block_checks block s0 = do
    rollover_diff ← check_epoch_rollover ext cfg (view_machines s0.machines).rollover block
    let s1 = apply rollover_diff s0
    timeout_diff ← check_key_gen_timeouts ext cfg (view_machines s1.machines).rollover block
    let s2 = apply timeout_diff s1
    diffs ←
        check_signing_timeouts ext cfg (view_consensus s2.consensus) (view_machines s2.machines)
          block
    pure (apply_all diffs s2)

  unfoldable pub progress_to_block : ℕ → TransitionState → Core → Result TransitionState × Core
  unfolding block_checks core_result
  progress_to_block block state core =
      if leb block core.last_processed_block
      then (ok state, core)
      else core_result (record core { last_processed_block = block; last_processed_index = none })
          (block_checks block state core.world)

  unfoldable pub handle_event : ℕ → Event → ConsensusState → MachineStates → M StateDiff
  handle_event block (event_key_gen e) c m = handle_genesis_key_gen ext cfg c m e
  handle_event block (event_key_gen_committed e) c m =
      handle_key_gen_committed ext cfg m.rollover block e
  handle_event block (event_key_gen_secret_shared e) c m =
      handle_key_gen_secret_shared ext cfg m.rollover block e
  handle_event block (event_key_gen_complaint_submitted e) c m =
      handle_complaint_submitted ext cfg m.rollover block e
  handle_event block (event_key_gen_complaint_responded e) c m =
      handle_complaint_responded ext cfg m.rollover block e
  handle_event block (event_key_gen_confirmed e) c m =
      handle_key_gen_confirmed ext cfg c m.rollover block e
  handle_event block (event_nonce_commitments_hash e) c m = handle_preprocess ext c e
  handle_event block (event_sign_request e) c m = handle_sign ext cfg c m block e
  handle_event block (event_nonce_commitments e) c m = handle_revealed_nonces ext cfg c m block e
  handle_event block (event_signature_share e) c m = handle_signing_shares c m e
  handle_event block (event_signed e) c m = handle_signing_completed cfg c m block e
  handle_event block (event_epoch_proposed e) c m = pure no_diff
  handle_event block (event_epoch_staged e) c m = handle_epoch_staged ext m e
  handle_event block (event_transaction_proposed e) c m =
      handle_transaction_proposed ext cfg c block e
  handle_event block (event_transaction_attested e) c m = handle_transaction_attested ext m e

  -- The event's handler on the state that the block checks left.
  unfoldable pub event_diffs : EventTransition → TransitionState → M (List StateDiff)
  unfolding handle_event
  event_diffs t state = do
    diff ←
        handle_event t.block t.event (view_consensus state.consensus) (view_machines state.machines)
    pure (apply diff state).diffs

  -- Behind the `finally` that sets the index: the checks' failure goes on, or the event is handled.
  unfoldable pub after_checks :
      EventTransition → Result TransitionState × Core → Result (List StateDiff) × Core
  unfolding event_diffs core_result
  after_checks t (err e, core) = (err e, record core { last_processed_index = some t.index })
  after_checks t (ok state, core) =
      core_result (record core { last_processed_index = some t.index })
        (event_diffs t state core.world)

  unfoldable pub process_event_transition :
      EventTransition → Machine → Result (List StateDiff) × Core
  unfolding is_stale progress_to_block after_checks
  process_event_transition t m =
      if is_stale t m.core
      then (err stale_transition, m.core)
      else after_checks t (
          progress_to_block t.block (new_transition_state m.storage.machines m.storage.consensus)
            m.core)

  unfoldable pub perform_transition : StateTransition → Machine → Result (List StateDiff) × Core
  unfolding process_event_transition diffs_of progress_to_block
  perform_transition (block_new block) m =
      diffs_of (
        progress_to_block block (new_transition_state m.storage.machines m.storage.consensus)
          m.core)
  perform_transition (event_at t) m = process_event_transition t m

  unfoldable pub process : StateTransition → Machine → Outcome
  unfolding perform_transition settle_transition
  process t m = settle_transition m (perform_transition t m)

  -- The queue emptied in order: `checkNextTransition` calls itself when a transition is settled.
  unfoldable pub run : List StateTransition → Machine → Machine
  unfolding process
  run [] m = m
  run (t ∷ ts) m = run ts (process t m).machine
