-- ===== src/Rollover/KeyGen.antt =====
-- The handlers of the key generation move the rollover state by steps.
use shieldnet.Prelude.{
  ℕ, ◌≡◌, refl, List, Option, none, some, not, ◌&&◌, ◌||◌, ◌==◌, ltb, length, arith,
}
use shieldnet.Data.Frost.{Hex, ParticipantId, Participant}
use shieldnet.Data.Event.{KeyGenEvent, KeyGenCommittedEvent, KeyGenSecretSharedEvent}
use shieldnet.Data.State.{
  RolloverState, CollectingShares, StateDiff, ConsensusDiff, GroupInfo, ConsensusState,
  MachineStates, MachineConfig, waiting_for_genesis, collecting_commitments, collecting_shares,
}
use shieldnet.Data.External.{External}
use shieldnet.Store.Defs.{M}
use shieldnet.Store.Ensures.{
  Ensures, bind-Ensures, then-Ensures, pure-Ensures, throw-Ensures, if-Ensures, if-holds,
}
use shieldnet.Client.KeyGen.{GroupSetup, ShareStatus}
use shieldnet.Keygen.Group.{GenesisGroup, calc_minimum_participants}
use shieldnet.Keygen.Trigger.{
  skipped_diff, started_diff, is_waiting_for_genesis, genesis_consensus, add_genesis_group,
  trigger_key_gen, handle_genesis_key_gen,
}
use shieldnet.Keygen.Shares.{
  if_member, shares_diff, commit, handle_key_gen_committed, share_diff, take_share,
  handle_key_gen_secret_shared,
}
use shieldnet.Rollover.{Generating, Begins, Accounts, Step, StepsFrom}

module _ (ext : External) (cfg : MachineConfig) (now : ℕ) where
  -- What `triggerKeyGen` ensures is what its two diffs have.
  pub trigger_key_gen-Ensures :
      (Q : StateDiff → Type 0) (epoch deadline : ℕ) (ps : List Participant) (context : Hex)
      → Q (skipped_diff epoch)
      → ((count threshold : ℕ) (s : GroupSetup)
          → Q (started_diff epoch deadline count threshold context s))
      → Ensures Q (trigger_key_gen ext cfg epoch deadline ps context)
  unfolding trigger_key_gen
  trigger_key_gen-Ensures Q epoch deadline ps context h k =
      if-Ensures (ltb (length ps) (calc_minimum_participants cfg)) (λ _. pure-Ensures h)
        (λ _. then-Ensures _ λ s. pure-Ensures (k _ _ s))

  pub restart-StepsFrom :
      (s : RolloverState) (epoch deadline : ℕ) (ps : List Participant) (context : Hex)
      → Generating s epoch
      → Ensures (StepsFrom now s) (trigger_key_gen ext cfg epoch deadline ps context)
  unfolding skipped_diff started_diff
  restart-StepsFrom s epoch deadline ps context g =
      trigger_key_gen-Ensures (StepsFrom now s) epoch deadline ps context
        (Step.restarted epoch g (Begins.skipped refl))
        (λ count threshold setup. Step.restarted epoch g (Begins.begun _ refl refl))

  genesis_consensus-StepsFrom :
      (s : RolloverState) (g : GenesisGroup) (d : StateDiff) (c : ConsensusDiff)
      (o : Option (ℕ × GroupInfo))
      → StepsFrom now s d
      → Ensures (StepsFrom now s) (genesis_consensus g d c o)
  unfolding genesis_consensus
  genesis_consensus-StepsFrom s g d c none h = throw-Ensures
  genesis_consensus-StepsFrom s g d c (some (epoch, info)) h =
      if-Ensures (not (epoch == 0) || not (info.group_id == g.id)) (λ _. throw-Ensures)
        (λ _. pure-Ensures h)

  -- A skipped genesis has no consensus part, and is refused.
  abbrev GenesisFrom : RolloverState → StateDiff → Option ConsensusDiff → Type 0
  GenesisFrom s d none = Unit
  GenesisFrom s d (some c) = StepsFrom now s d

  add_genesis_group-StepsFrom :
      (s : RolloverState) (g : GenesisGroup) (d : StateDiff) (c : Option ConsensusDiff)
      → GenesisFrom s d c
      → Ensures (StepsFrom now s) (add_genesis_group g d c)
  unfolding add_genesis_group
  add_genesis_group-StepsFrom s g d none h = throw-Ensures
  add_genesis_group-StepsFrom s g d (some c) h = genesis_consensus-StepsFrom s g d c c.epoch_group h

  genesis-GenesisFrom :
      (s : RolloverState) (deadline : ℕ) (ps : List Participant) (context : Hex)
      → s ≡ waiting_for_genesis
      → Ensures (λ d. GenesisFrom s d d.consensus) (trigger_key_gen ext cfg 0 deadline ps context)
  unfolding skipped_diff started_diff
  genesis-GenesisFrom s deadline ps context e =
      trigger_key_gen-Ensures (λ d. GenesisFrom s d d.consensus) 0 deadline ps context tt
        (λ count threshold setup. Step.genesis_begun _ e refl refl)

  pub genesis-StepsFrom :
      (c : ConsensusState) (m : MachineStates) (event : KeyGenEvent)
      → Ensures (StepsFrom now m.rollover) (handle_genesis_key_gen ext cfg c m event)
  unfolding handle_genesis_key_gen
  genesis-StepsFrom c m event = then-Ensures _ λ g.
      if-Ensures (is_waiting_for_genesis m.rollover && (c.active_epoch == 0 && event.gid == g.id))
        (λ e.
          bind-Ensures (λ d. GenesisFrom m.rollover d d.consensus)
            (genesis-GenesisFrom m.rollover ext.max_uint64 cfg.default_participants g.context
              (ground arith))
            (λ d h. add_genesis_group-StepsFrom m.rollover g d d.consensus h))
        (λ _. pure-Ensures tt)

  if_member-StepsFrom :
      (s : RolloverState) (o : Option ParticipantId) (rest : M StateDiff)
      → Ensures (StepsFrom now s) rest
      → Ensures (StepsFrom now s) (if_member o rest)
  unfolding if_member
  if_member-StepsFrom s none rest h = pure-Ensures tt
  if_member-StepsFrom s (some p) rest h = h

  pub committed-StepsFrom :
      (s : RolloverState) (block : ℕ) (event : KeyGenCommittedEvent)
      → Ensures (StepsFrom now s) (handle_key_gen_committed ext cfg s block event)
  unfolding handle_key_gen_committed commit shares_diff
  committed-StepsFrom (collecting_commitments r) block event =
      if-Ensures (not (r.group_id == event.gid)) (λ _. pure-Ensures tt)
        λ _. then-Ensures _ λ self. if_member-StepsFrom (collecting_commitments r) self _ (
          then-Ensures _ λ ok.
            if-Ensures (not ok) (λ _. pure-Ensures tt)
              λ _.
                if-Ensures (not event.committed) (λ _. pure-Ensures tt)
                  λ _.
                    then-Ensures _
                      λ secrets. pure-Ensures (Step.sharing_begun r _ refl refl refl refl refl))
  committed-StepsFrom _ block event = pure-Ensures tt

  share_diff-StepsFrom :
      (block : ℕ) (r : CollectingShares) (event : KeyGenSecretSharedEvent) (status : ShareStatus)
      → event.gid ≡ r.group_id
      → StepsFrom now (collecting_shares r) (share_diff ext cfg block r event status)
  unfolding share_diff
  share_diff-StepsFrom block r event status e =
      if-holds (StepsFrom now (collecting_shares r)) (not event.shared)
        (Step.sharing r _ refl refl refl refl (Accounts.kept refl))
        (Step.confirming_begun r _ refl refl e refl (Accounts.kept refl))

  pub secret_shared-StepsFrom :
      (s : RolloverState) (block : ℕ) (event : KeyGenSecretSharedEvent)
      → Ensures (StepsFrom now s) (handle_key_gen_secret_shared ext cfg s block event)
  unfolding handle_key_gen_secret_shared take_share
  secret_shared-StepsFrom (collecting_shares r) block event =
      if-Ensures (not (r.group_id == event.gid)) (λ _. pure-Ensures tt)
        λ e. then-Ensures _ λ self. if_member-StepsFrom (collecting_shares r) self _ (
          then-Ensures _
            λ status. pure-Ensures (share_diff-StepsFrom block r event status (ground arith)))
  secret_shared-StepsFrom _ block event = pure-Ensures tt
