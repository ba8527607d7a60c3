-- ===== src/Service/Order.antt =====
-- The order of transitions: the position of the last processed event, and what is refused behind it.
use shieldnet.Prelude.{
  ℕ, ◌≤◌, ◌<◌, ◌≡◌, refl, ◌∙◌, ◌⊎◌, inl, inr, List, [], ◌∷◌, none, some, true, false, arith, leb,
  Bool-cases,
}
use shieldnet.Data.Event.{EventTransition, StateTransition, block_new, event_at}
use shieldnet.Data.State.{StateDiff, MachineConfig}
use shieldnet.Data.External.{External}
use shieldnet.Store.Defs.{World, Result, ok, err}
use shieldnet.State.Local.{TransitionState, new_transition_state}
use shieldnet.Service.{
  Core, Machine, core_result, is_stale, progress_to_block, after_checks, process_event_transition,
  diffs_of, perform_transition, settle_transition, process, run,
}

-- Two cores at the same position.
pub record SamePosition (a b : Core) : Type 0 where
  pub block : a.last_processed_block ≡ b.last_processed_block
  pub index : a.last_processed_index ≡ b.last_processed_index

core_result-SamePosition :
    {A : Type 0} (core : Core) (r : Result A × World) → SamePosition (core_result core r).1 core
unfolding core_result
core_result-SamePosition core (r, w) = record { block = refl; index = refl }

diffs_of-core : (r : Result TransitionState × Core) → (diffs_of r).1 ≡ r.1
unfolding diffs_of
diffs_of-core (ok s, c) = refl
diffs_of-core (err e, c) = refl

module _ (ext : External) (cfg : MachineConfig) where
  settle_transition-core :
      (m : Machine) (r : Result (List StateDiff) × Core)
      → (settle_transition ext cfg m r).machine.core ≡ r.1
  unfolding settle_transition
  settle_transition-core m (ok d, c) = refl
  settle_transition-core m (err e, c) = refl

  after_checks-position :
      (t : EventTransition) (r : Result TransitionState × Core)
      → ((after_checks ext cfg t r).1.last_processed_block ≡ r.1.last_processed_block)
        × ((after_checks ext cfg t r).1.last_processed_index ≡ some t.index)
  unfolding after_checks core_result
  after_checks-position t (ok s, c) = (refl, refl)
  after_checks-position t (err e, c) = (refl, refl)

  -- `progressToBlock` leaves the position where it is, or moves it to the start of the block.
  progress_to_block-position :
      (b : ℕ) (s : TransitionState) (c : Core)
      → ((b ≤ c.last_processed_block) × SamePosition (progress_to_block ext cfg b s c).1 c)
        ⊎ ((c.last_processed_block < b)
            × ((progress_to_block ext cfg b s c).1.last_processed_block ≡ b)
            × ((progress_to_block ext cfg b s c).1.last_processed_index ≡ none))
  unfolding progress_to_block core_result
  progress_to_block-position b s c = elim (Bool-cases (leb b c.last_processed_block)) [
    | inl e ↦ inl (ground arith, rw e (record { block = refl; index = refl }))
    | inr e ↦ inr (ground arith, rw e refl, rw e refl)
  ]

  progressed : (b : ℕ) (m : Machine) → Result TransitionState × Core
  progressed b m =
      progress_to_block ext cfg b (new_transition_state m.storage.machines m.storage.consensus)
        m.core

  process-block_new-core :
      (b : ℕ) (m : Machine) → (process ext cfg (block_new b) m).machine.core ≡ (progressed b m).1
  unfolding process perform_transition progressed
  process-block_new-core b m = settle_transition-core m _ ∙ diffs_of-core _

  process-event_at-stale :
      (t : EventTransition) (m : Machine)
      → is_stale t m.core ≡ true
      → process ext cfg (event_at t) m ≡ record { machine = m; actions = []; succeeded = false }
  unfolding process perform_transition process_event_transition settle_transition
  process-event_at-stale t m h = rw h refl

  process-event_at-core :
      (t : EventTransition) (m : Machine)
      → is_stale t m.core ≡ false
      → (process ext cfg (event_at t) m).machine.core
        ≡ (after_checks ext cfg t (progressed t.block m)).1
  unfolding process perform_transition process_event_transition progressed
  process-event_at-core t m h = rw (settle_transition-core, h) refl

  -- Where `progressToBlock` leaves the position of an event that is not stale.
  progressed-block :
      (t : EventTransition) (m : Machine)
      → is_stale t m.core ≡ false
      → (progressed t.block m).1.last_processed_block ≡ t.block
  unfolding progressed is_stale
  progressed-block t m h = ground (
    arith,
    progress_to_block-position t.block (new_transition_state m.storage.machines m.storage.consensus)
        m.core,
  )

  -- Every event that is not refused, its handler and the checks failing or not, leaves the
  -- machine at the event's own position: last processed block and index are those of the
  -- event.
  pub process-event_at-position :
      (t : EventTransition) (m : Machine)
      → is_stale t m.core ≡ false
      → ((process ext cfg (event_at t) m).machine.core.last_processed_block ≡ t.block)
        × ((process ext cfg (event_at t) m).machine.core.last_processed_index ≡ some t.index)
  process-event_at-position t m h =
      let p = after_checks-position t (progressed t.block m) in
      rw (process-event_at-core t m h) (p.0 ∙ progressed-block t m h, p.1)

  -- What is behind the position stays behind it, whatever is processed.
  block_new-is_stale :
      (t : EventTransition) (b : ℕ) (m : Machine)
      → is_stale t m.core ≡ true
      → is_stale t (progressed b m).1 ≡ true
  unfolding progressed is_stale
  block_new-is_stale t b m h = ground (
    arith,
    progress_to_block-position b (new_transition_state m.storage.machines m.storage.consensus)
        m.core,
  )

  is_stale_of_later :
      (t u : EventTransition) (c d : Core)
      → is_stale t c ≡ true
      → is_stale u c ≡ false
      → d.last_processed_block ≡ u.block
      → d.last_processed_index ≡ some u.index
      → is_stale t d ≡ true
  unfolding is_stale
  is_stale_of_later t u c d h k e f = ground arith

  event_at-is_stale :
      (t u : EventTransition) (m : Machine)
      → is_stale t m.core ≡ true
      → is_stale t (process ext cfg (event_at u) m).machine.core ≡ true
  event_at-is_stale t u m h = elim (Bool-cases (is_stale u m.core)) [
    | inl e ↦ rw (process-event_at-stale u m e) h
    | inr e ↦
        let p = process-event_at-position u m e in
        is_stale_of_later t u m.core (process ext cfg (event_at u) m).machine.core h e p.0 p.1
  ]

  process-is_stale :
      (t : EventTransition) (u : StateTransition) (m : Machine)
      → is_stale t m.core ≡ true
      → is_stale t (process ext cfg u m).machine.core ≡ true
  process-is_stale t (block_new b) m h =
      rw (process-block_new-core b m) (block_new-is_stale t b m h)
  process-is_stale t (event_at u) m h = event_at-is_stale t u m h

  run-is_stale :
      (t : EventTransition) (us : List StateTransition) (m : Machine)
      → is_stale t m.core ≡ true
      → is_stale t (run ext cfg us m).core ≡ true
  unfolding run
  run-is_stale t [] m h = h
  run-is_stale t (u ∷ us) m h =
      run-is_stale t us (process ext cfg u m).machine (process-is_stale t u m h)

  processed-is_stale :
      (t : EventTransition) (m : Machine)
      → is_stale t (process ext cfg (event_at t) m).machine.core ≡ true
  processed-is_stale t m = elim (Bool-cases (is_stale t m.core)) [
    | inl e ↦ event_at-is_stale t t m e
    | inr e ↦
        let p = process-event_at-position t m e in
        own_position t (process ext cfg (event_at t) m).machine.core p.0 p.1
  ]
    where
      own_position :
          (t : EventTransition) (d : Core)
          → d.last_processed_block ≡ t.block
          → d.last_processed_index ≡ some t.index
          → is_stale t d ≡ true
      own_position t d e f = unfold is_stale in ground arith

  -- No event is handled twice: once an event was processed, successfully or not, processing it
  -- again after any further transitions fails, sends no action and changes nothing of the
  -- machine.
  pub process-event_at-once :
      (t : EventTransition) (us : List StateTransition) (m : Machine)
      → let m' = run ext cfg us (process ext cfg (event_at t) m).machine in
        process ext cfg (event_at t) m' ≡ record { machine = m'; actions = []; succeeded = false }
  process-event_at-once t us m =
      process-event_at-stale t _
        (run-is_stale t us (process ext cfg (event_at t) m).machine (processed-is_stale t m))
