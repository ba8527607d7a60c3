-- ===== src/State/Diff.antt =====
-- validator/src/machine/state/diff.ts and machine/storage/inmemory.ts.
use shieldnet.Prelude.{ℕ, List, [], Option, none, some, Bool, true, false}
use shieldnet.Prelude.Assoc.{put, remove}
use shieldnet.Data.Action.{ProtocolAction}
use shieldnet.Data.State.{
  ConsensusDiff, StateDiff, ConsensusState, MachineStates, waiting_for_genesis,
}

-- The diff `{}`.
abbrev pub no_diff : StateDiff
no_diff = record { consensus = none; rollover = none; signing = none; actions = [] }

abbrev pub no_consensus : ConsensusDiff
no_consensus = record {
  group_pending_nonces = none;
  active_epoch = none;
  genesis_group_id = none;
  epoch_group = none;
  signature_id_to_message = none;
}

-- `m[k] = v`, or `delete m[k]` for an undefined v.
abbrev pub update {ℓ} : {V : Type ℓ} → Option (ℕ × Option V) → List (ℕ × V) → List (ℕ × V)
update none m = m
update (some (k, none)) m = remove k m
update (some (k, some v)) m = put k v m

-- The pair `[groupId, true?]` as an update.
abbrev pub pending : Option (ℕ × Bool) → Option (ℕ × Option Bool)
pending none = none
pending (some (k, true)) = some (k, some true)
pending (some (k, false)) = some (k, none)

abbrev pub entry {ℓ} : {V : Type ℓ} → Option (ℕ × V) → Option (ℕ × Option V)
entry none = none
entry (some (k, v)) = some (k, some v)

abbrev pub assign {ℓ} : {V : Type ℓ} → Option V → V → V
assign none old = old
assign (some new) old = new

abbrev pub assign_some {ℓ} : {V : Type ℓ} → Option V → Option V → Option V
assign_some none old = old
assign_some (some new) old = some new

unfoldable pub apply_machines : StateDiff → MachineStates → MachineStates
apply_machines diff states = record {
  rollover = assign diff.rollover states.rollover;
  signing = update diff.signing states.signing;
}

-- `applyConsensus` for a diff that has a consensus part.
unfoldable pub apply_consensus_diff : ConsensusDiff → ConsensusState → ConsensusState
apply_consensus_diff diff state = record {
  genesis_group_id = assign_some diff.genesis_group_id state.genesis_group_id;
  active_epoch = assign diff.active_epoch state.active_epoch;
  group_pending_nonces = update (pending diff.group_pending_nonces) state.group_pending_nonces;
  epoch_groups = update (entry diff.epoch_group) state.epoch_groups;
  signature_id_to_message = update diff.signature_id_to_message state.signature_id_to_message;
}

unfoldable pub apply_consensus : Option ConsensusDiff → ConsensusState → ConsensusState
unfolding apply_consensus_diff
apply_consensus none state = state
apply_consensus (some diff) state = apply_consensus_diff diff state

-- `InMemoryStateStorage`.
pub record StateStorage : Type 0 where
  pub consensus : ConsensusState
  pub machines : MachineStates

unfoldable pub initial_storage : StateStorage
initial_storage = record {
  consensus = record {
    genesis_group_id = none;
    active_epoch = 0;
    group_pending_nonces = [];
    epoch_groups = [];
    signature_id_to_message = [];
  };
  machines = record { rollover = waiting_for_genesis; signing = [] };
}

unfoldable pub apply_diff : StateDiff → StateStorage → StateStorage × List ProtocolAction
unfolding apply_machines apply_consensus
apply_diff diff s = (
  record {
    machines = apply_machines diff s.machines;
    consensus = apply_consensus diff.consensus s.consensus;
  },
  diff.actions,
)
