-- ===== src/Keygen/Trigger.antt =====
-- validator/src/machine/keygen/trigger.ts and genesis.ts: how a ceremony starts.
use shieldnet.Prelude.{
  ℕ, List, [], ◌∷◌, Option, none, some, Bool, not, ◌&&◌, ◌||◌, ltb, ◌==◌, length, if◌then◌else◌,
  false, true,
}
use shieldnet.Data.Frost.{Hex, Participant}
use shieldnet.Data.Action.{key_gen_start}
use shieldnet.Data.Event.{KeyGenEvent}
use shieldnet.Data.State.{
  RolloverState, GroupInfo, ConsensusDiff, StateDiff, ConsensusState, MachineStates, MachineConfig,
  waiting_for_genesis, epoch_skipped, collecting_commitments,
}
use shieldnet.Data.External.{External}
use shieldnet.Store.Defs.{M, ◌>>=◌, pure, throw, unexpected_genesis_group}
use shieldnet.Client.KeyGen.{GroupSetup, setup_group}
use shieldnet.State.Diff.{no_diff, no_consensus}
use shieldnet.Keygen.Group.{
  GenesisGroup, calc_minimum_participants, calc_threshold, calc_genesis_group,
}

unfoldable pub skipped_diff : ℕ → StateDiff
skipped_diff epoch = record no_diff { rollover = some (epoch_skipped epoch) }

-- The diff that announces a ceremony that was set up.
unfoldable pub started_diff : ℕ → ℕ → ℕ → ℕ → Hex → GroupSetup → StateDiff
started_diff epoch deadline count threshold context setup = record {
  consensus = some (record no_consensus {
    epoch_group =
        some (epoch, record { group_id = setup.group_id; participant_id = setup.participant_id });
  });
  rollover = some (
      collecting_commitments
        (record { next_epoch = epoch; group_id = setup.group_id; deadline = deadline }));
  signing = none;
  actions =
      key_gen_start (record {
        participants = setup.participants_root;
        count = count;
        threshold = threshold;
        context = context;
        participant_id = setup.participant_id;
        commitments = setup.commitments;
        pok = setup.pok;
        poap = setup.poap;
      })
      ∷ [];
}

abbrev pub is_waiting_for_genesis : RolloverState → Bool
is_waiting_for_genesis waiting_for_genesis = true
is_waiting_for_genesis _ = false

-- `{ ...diff, consensus }` with the genesis group in `consensus`, if the diff is of that group.
unfoldable pub genesis_consensus :
    GenesisGroup → StateDiff → ConsensusDiff → Option (ℕ × GroupInfo) → M StateDiff
genesis_consensus genesis diff consensus none = throw unexpected_genesis_group
genesis_consensus genesis diff consensus (some (epoch, info)) =
    if not (epoch == 0) || not (info.group_id == genesis.id)
    then throw unexpected_genesis_group
    else pure
        (record diff { consensus = some (record consensus { genesis_group_id = some genesis.id }) })

unfoldable pub add_genesis_group : GenesisGroup → StateDiff → Option ConsensusDiff → M StateDiff
unfolding genesis_consensus
add_genesis_group genesis diff none = throw unexpected_genesis_group
add_genesis_group genesis diff (some consensus) =
    genesis_consensus genesis diff consensus consensus.epoch_group

module _ (ext : External) (cfg : MachineConfig) where
  unfoldable pub trigger_key_gen : ℕ → ℕ → List Participant → Hex → M StateDiff
  unfolding skipped_diff started_diff
  trigger_key_gen epoch deadline participants context =
      if ltb (length participants) (calc_minimum_participants cfg)
      then pure (skipped_diff epoch)
      else do
        setup ← setup_group ext participants (calc_threshold (length participants)) context
        pure (
            started_diff epoch deadline (length participants) (calc_threshold (length participants))
              context setup)

  unfoldable pub handle_genesis_key_gen : ConsensusState → MachineStates → KeyGenEvent → M StateDiff
  unfolding add_genesis_group
  handle_genesis_key_gen consensus_state machine_states event = do
    genesis ← calc_genesis_group ext cfg
    if is_waiting_for_genesis machine_states.rollover
          && (consensus_state.active_epoch == 0 && event.gid == genesis.id)
        then (do
          diff ← trigger_key_gen 0 ext.max_uint64 cfg.default_participants genesis.context
          add_genesis_group genesis diff diff.consensus)
        else pure no_diff
