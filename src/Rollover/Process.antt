-- ===== src/Rollover/Process.antt =====
-- The stored rollover state over a whole transition: the steps of its checks and of its handler.
use mathlib.Core.Path.{subst}
use shieldnet.Prelude.{
  ℕ, ◌/◌, ◌≡◌, refl, inl, inr, List, [], ◌∷◌, Option, none, some, Bool-cases, leb, All,
}
use shieldnet.Data.Event.{EventTransition, StateTransition, block_new, event_at}
use shieldnet.Data.State.{RolloverState, StateDiff, MachineConfig}
use shieldnet.Data.External.{External}
use shieldnet.Store.Defs.{Result, ok, err}
use shieldnet.Store.Ensures.{Post, Ensures, bind-Ensures, pure-Ensures}
use shieldnet.State.Diff.{StateStorage, assign, assign_some}
use shieldnet.State.Local.{
  TransitionState, new_transition_state, view_machines, view_consensus, apply_local_machines, apply,
}
use shieldnet.Signing.Timeouts.{check_signing_timeouts}
use shieldnet.Service.{
  Core, Machine, apply_all, commit_diffs, block_checks, progress_to_block, is_stale, event_diffs,
  after_checks, process_event_transition, diffs_of, perform_transition, settle_transition, process,
}
use shieldnet.Service.Atomic.{InStep, apply-InStep, new-InStep, core_result-Post}
use shieldnet.Rollover.{StepOrStay, StepsFrom, Reach}
use shieldnet.Rollover.Confirmed.{timeouts-StepsFrom}
use shieldnet.Rollover.Handlers.{Stays, Stays-StepsFrom}
use shieldnet.Rollover.Next.{check_epoch_rollover-StepsFrom, handle_event-StepsFrom}
use shieldnet.Rollover.Timeouts.{check_each-Stays}

assign_twice :
    {V : Type 0} (o temp : Option V) (source : V)
    → assign (assign_some o temp) source ≡ assign o (assign temp source)
assign_twice none temp source = refl
assign_twice (some v) temp source = refl

rollover_view-apply :
    (d : StateDiff) (t : TransitionState)
    → (view_machines (apply d t).machines).rollover
      ≡ assign d.rollover (view_machines t.machines).rollover
unfolding apply view_machines apply_local_machines
rollover_view-apply d t =
    assign_twice d.rollover t.machines.temp_rollover t.machines.source_rollover

extend :
    (now : ℕ) (s u : RolloverState) (o : Option RolloverState)
    → Reach now s u
    → StepOrStay now u o
    → Reach now s (assign o u)
extend now s u none r h = r
extend now s u (some v) r h = Reach.next r h

-- A local copy in step with the storage, whose rollover state was reached from the stored one.
record Reached (now : ℕ) (s : StateStorage) (t : TransitionState) : Type 0 where
  in_step : InStep s t
  path : Reach now s.machines.rollover (view_machines t.machines).rollover

apply-Reached :
    (now : ℕ) (s : StateStorage) (d : StateDiff) (t : TransitionState)
    → Reached now s t
    → StepsFrom now (view_machines t.machines).rollover d
    → Reached now s (apply d t)
apply-Reached now s d t r h = record {
  in_step = apply-InStep s d t r.in_step;
  path = rw (rollover_view-apply d t) (extend now s.machines.rollover _ d.rollover r.path h);
}

apply_all-Reached :
    (now : ℕ) (s : StateStorage) (ds : List StateDiff) (t : TransitionState)
    → Reached now s t
    → All Stays ds
    → Reached now s (apply_all ds t)
unfolding apply_all
apply_all-Reached now s [] t r h = r
apply_all-Reached now s (d ∷ ds) t r h =
    apply_all-Reached now s ds (apply d t) (apply-Reached now s d t r (Stays-StepsFrom now _ d h.0))
      h.1

-- The same of the differences, once they are stored.
abbrev Committed : ℕ → StateStorage → List StateDiff → Type 0
Committed now s ds = Reach now s.machines.rollover (commit_diffs ds s).0.machines.rollover

Reached-Committed :
    (now : ℕ) (s : StateStorage) (t : TransitionState) → Reached now s t → Committed now s t.diffs
Reached-Committed now s t r =
    subst (Reach now s.machines.rollover) r.in_step.machines.rollover r.path

new-Reached :
    (now : ℕ) (s : StateStorage) → Reached now s (new_transition_state s.machines s.consensus)
unfolding new_transition_state view_machines
new-Reached now s = record { in_step = new-InStep s; path = Reach.here }

abbrev pub block_of : StateTransition → ℕ
block_of (block_new b) = b
block_of (event_at t) = t.block

module _ (ext : External) (cfg : MachineConfig) where
  abbrev epoch_at : ℕ → ℕ
  epoch_at block = block / cfg.blocks_per_epoch

  block_checks-Reached :
      (s : StateStorage) (b : ℕ) (t : TransitionState)
      → Reached (epoch_at b) s t
      → Ensures (Reached (epoch_at b) s) (block_checks ext cfg b t)
  unfolding block_checks check_signing_timeouts
  block_checks-Reached s b t r =
      bind-Ensures (StepsFrom (epoch_at b) (view_machines t.machines).rollover)
        (check_epoch_rollover-StepsFrom ext cfg _ b)
        (λ d h.
          let r' = apply-Reached (epoch_at b) s d t r h in
          bind-Ensures (StepsFrom (epoch_at b) (view_machines (apply d t).machines).rollover)
            (timeouts-StepsFrom ext cfg (epoch_at b) _ b)
            (λ e k.
              let r'' = apply-Reached (epoch_at b) s e (apply d t) r' k in
              bind-Ensures (All Stays)
                (check_each-Stays ext cfg (view_consensus (apply e (apply d t)).consensus) _ b _)
                (λ ds hs. pure-Ensures (apply_all-Reached (epoch_at b) s ds _ r'' hs))))

  progress_to_block-Reached :
      (b : ℕ) (m : Machine)
      → Post
          (Reached (epoch_at b) m.storage)
          (progress_to_block ext cfg b
            (new_transition_state m.storage.machines m.storage.consensus)
            m.core).0
  unfolding progress_to_block
  progress_to_block-Reached b m = elim (Bool-cases (leb b m.core.last_processed_block)) [
    | inl e ↦ rw e (new-Reached (epoch_at b) m.storage)
    | inr e ↦ rw e (
        core_result-Post ext cfg (Reached (epoch_at b) m.storage)
          (record m.core { last_processed_block = b; last_processed_index = none })
          (block_checks ext cfg b (new_transition_state m.storage.machines m.storage.consensus)
            m.core.world)
          ((block_checks-Reached m.storage b _ (new-Reached (epoch_at b) m.storage)).post
            m.core.world))
  ]

  event_diffs-Committed :
      (s : StateStorage) (t : EventTransition) (state : TransitionState)
      → Reached (epoch_at t.block) s state
      → Ensures (Committed (epoch_at t.block) s) (event_diffs ext cfg t state)
  unfolding event_diffs
  event_diffs-Committed s t state r =
      bind-Ensures (StepsFrom (epoch_at t.block) (view_machines state.machines).rollover)
        (handle_event-StepsFrom ext cfg (epoch_at t.block) t.block t.event _ _)
        (λ d h. pure-Ensures (
          Reached-Committed (epoch_at t.block) s (apply d state)
            (apply-Reached (epoch_at t.block) s d state r h)))

  after_checks-Committed :
      (s : StateStorage) (t : EventTransition) (r : Result TransitionState × Core)
      → Post (Reached (epoch_at t.block) s) r.0
      → Post (Committed (epoch_at t.block) s) (after_checks ext cfg t r).0
  unfolding after_checks
  after_checks-Committed s t (err e, c) h = tt
  after_checks-Committed s t (ok state, c) h =
      core_result-Post ext cfg (Committed (epoch_at t.block) s)
        (record c { last_processed_index = some t.index }) (event_diffs ext cfg t state c.world)
        ((event_diffs-Committed s t state h).post c.world)

  diffs_of-Committed :
      (now : ℕ) (s : StateStorage) (r : Result TransitionState × Core)
      → Post (Reached now s) r.0
      → Post (Committed now s) (diffs_of r).0
  unfolding diffs_of
  diffs_of-Committed now s (ok t, c) h = Reached-Committed now s t h
  diffs_of-Committed now s (err e, c) h = tt

  perform_transition-Committed :
      (t : StateTransition) (m : Machine)
      → Post (Committed (epoch_at (block_of t)) m.storage) (perform_transition ext cfg t m).0
  unfolding perform_transition process_event_transition
  perform_transition-Committed (block_new b) m =
      diffs_of-Committed (epoch_at b) m.storage _ (progress_to_block-Reached b m)
  perform_transition-Committed (event_at t) m = elim (Bool-cases (is_stale t m.core)) [
    | inl e ↦ rw e tt
    | inr e ↦ rw e (after_checks-Committed m.storage t _ (progress_to_block-Reached t.block m))
  ]

  settle_transition-Reach :
      (now : ℕ) (m : Machine) (r : Result (List StateDiff) × Core)
      → Post (Committed now m.storage) r.0
      → Reach now m.storage.machines.rollover
          (settle_transition ext cfg m r).machine.storage.machines.rollover
  unfolding settle_transition
  settle_transition-Reach now m (ok ds, c) h = h
  settle_transition-Reach now m (err e, c) h = Reach.here

  pub process-Reach :
      (t : StateTransition) (m : Machine)
      → Reach
          (block_of t / cfg.blocks_per_epoch)
          m.storage.machines.rollover
          (process ext cfg t m).machine.storage.machines.rollover
  unfolding process
  process-Reach t m =
      settle_transition-Reach (epoch_at (block_of t)) m _ (perform_transition-Committed t m)
