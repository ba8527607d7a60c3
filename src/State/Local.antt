-- ===== src/State/Local.antt =====
-- validator/src/machine/state/local.ts: the local copy that a transition reads and writes. A proxy is
-- the source map with a map of changes over it, where `none` stands for a deleted key.
use shieldnet.Prelude.{ℕ, List, [], ◌∷◌, ◌++◌, Option, none, some, Bool, not, is_some, keep}
use shieldnet.Prelude.Assoc.{get, put, has, keys}
use shieldnet.Data.Frost.{Hex, GroupId}
use shieldnet.Data.State.{
  RolloverState, SigningState, GroupInfo, ConsensusDiff, StateDiff, ConsensusState, MachineStates,
}
use shieldnet.State.Diff.{assign, assign_some, pending, entry}

pub record Overlay (V : Type 0) : Type 0 where
  pub source : List (ℕ × V)
  pub temp : List (ℕ × Option V)

module _ {V : Type 0} where
  -- The trap `get`.
  unfoldable pub read : ℕ → Overlay V → Option V
  read k o = elim (get k o.temp) as (λ _. Option V) [ none ↦ get k o.source | some v ↦ v ]

  -- The traps `set` and `deleteProperty`.
  unfoldable pub write : Option (ℕ × Option V) → Overlay V → Overlay V
  write none o = o
  write (some (k, v)) o = record o { temp = put k v o.temp }

  -- The trap `ownKeys`: the keys of the source, then those that only the changes have, and of these
  -- the ones that read as defined.
  unfoldable pub own_keys : Overlay V → List ℕ
  unfolding read
  own_keys o =
      keep (λ k. is_some (read k o))
        (keys o.source ++ keep (λ k. not (has k o.source)) (keys o.temp))

  -- `Object.entries`.
  unfoldable pub entries_at : Overlay V → List ℕ → List (ℕ × V)
  unfolding read
  entries_at o [] = []
  entries_at o (k ∷ ks) = elim (read k o) as (λ _. List (ℕ × V)) [
    | none ↦ entries_at o ks
    | some v ↦ (k, v) ∷ entries_at o ks
  ]

  unfoldable pub entries : Overlay V → List (ℕ × V)
  unfolding own_keys entries_at
  entries o = entries_at o (own_keys o)

  abbrev pub overlay : List (ℕ × V) → Overlay V
  overlay m = record { source = m; temp = [] }

pub record LocalMachineStates : Type 0 where
  pub source_rollover : RolloverState
  pub temp_rollover : Option RolloverState
  pub signing : Overlay SigningState

pub record LocalConsensusStates : Type 0 where
  pub source_genesis_group_id : Option GroupId
  pub temp_genesis_group_id : Option GroupId
  pub source_active_epoch : ℕ
  pub temp_active_epoch : Option ℕ
  pub group_pending_nonces : Overlay Bool
  pub epoch_groups : Overlay GroupInfo
  pub signature_id_to_message : Overlay Hex

pub record TransitionState : Type 0 where
  pub machines : LocalMachineStates
  pub consensus : LocalConsensusStates
  pub diffs : List StateDiff

-- The getter `rollover`, and the entries of `signing`: what a handler reads.
unfoldable pub view_machines : LocalMachineStates → MachineStates
unfolding entries
view_machines l = record {
  rollover = assign l.temp_rollover l.source_rollover;
  signing = entries l.signing;
}

unfoldable pub view_consensus : LocalConsensusStates → ConsensusState
unfolding entries
view_consensus l = record {
  genesis_group_id = assign_some l.temp_genesis_group_id l.source_genesis_group_id;
  active_epoch = assign l.temp_active_epoch l.source_active_epoch;
  group_pending_nonces = entries l.group_pending_nonces;
  epoch_groups = entries l.epoch_groups;
  signature_id_to_message = entries l.signature_id_to_message;
}

unfoldable pub new_transition_state : MachineStates → ConsensusState → TransitionState
new_transition_state m c = record {
  machines = record {
    source_rollover = m.rollover;
    temp_rollover = none;
    signing = overlay m.signing;
  };
  consensus = record {
    source_genesis_group_id = c.genesis_group_id;
    temp_genesis_group_id = none;
    source_active_epoch = c.active_epoch;
    temp_active_epoch = none;
    group_pending_nonces = overlay c.group_pending_nonces;
    epoch_groups = overlay c.epoch_groups;
    signature_id_to_message = overlay c.signature_id_to_message;
  };
  diffs = [];
}

-- `applyMachines` on the local copy: its setters write the temporary state.
unfoldable pub apply_local_machines : StateDiff → LocalMachineStates → LocalMachineStates
unfolding write
apply_local_machines diff l = record l {
  temp_rollover = assign_some diff.rollover l.temp_rollover;
  signing = write diff.signing l.signing;
}

unfoldable pub apply_local_consensus_diff :
    ConsensusDiff → LocalConsensusStates → LocalConsensusStates
unfolding write
apply_local_consensus_diff diff l = record l {
  temp_genesis_group_id = assign_some diff.genesis_group_id l.temp_genesis_group_id;
  temp_active_epoch = assign_some diff.active_epoch l.temp_active_epoch;
  group_pending_nonces = write (pending diff.group_pending_nonces) l.group_pending_nonces;
  epoch_groups = write (entry diff.epoch_group) l.epoch_groups;
  signature_id_to_message = write diff.signature_id_to_message l.signature_id_to_message;
}

unfoldable pub apply_local_consensus :
    Option ConsensusDiff → LocalConsensusStates → LocalConsensusStates
unfolding apply_local_consensus_diff
apply_local_consensus none l = l
apply_local_consensus (some diff) l = apply_local_consensus_diff diff l

unfoldable pub apply : StateDiff → TransitionState → TransitionState
unfolding apply_local_machines apply_local_consensus
apply diff t = record {
  machines = apply_local_machines diff t.machines;
  consensus = apply_local_consensus diff.consensus t.consensus;
  diffs = t.diffs ++ diff ∷ [];
}
