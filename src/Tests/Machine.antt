-- ===== src/Tests/Machine.antt =====
-- The theorems on the state machine at concrete machines and transitions.
use shieldnet.Store.Groups.{threshold}
use shieldnet.Signing.Timeouts.{check_signing_timeouts}
use shieldnet.Keygen.Timeouts.{check_key_gen_timeouts}
use shieldnet.Consensus.{check_epoch_rollover}
use shieldnet.Prelude.{ℕ, ◌<◌, ◌≡◌, refl, [], ◌∷◌, none, some, false, arith}
use shieldnet.Prelude.Assoc.{get}
use shieldnet.Data.Event.{block_new, event_at}
use shieldnet.Data.State.{SigningState, StateDiff, epoch_skipped, epoch_staged, waiting_for_request}
use shieldnet.Store.Defs.{◌>>=◌}
use shieldnet.Store.Ensures.{Post}
use shieldnet.Keygen.Trigger.{is_waiting_for_genesis}
use shieldnet.State.Diff.{no_diff, apply_diff}
use shieldnet.State.Local.{
  Overlay, overlay, entries, read, new_transition_state, apply, write, view_machines,
  view_consensus,
}
use shieldnet.State.Refine.{Tracks, apply-Tracks, get-entries, new_transition_state-Tracks}
use shieldnet.Service.{Machine, process, run, progress_to_block, is_stale}
use shieldnet.Service.Order.{process-event_at-once, process-event_at-position}
use shieldnet.Service.Atomic.{InStep, progress_to_block-InStep}
use shieldnet.Service.Deadlines.{process-block_new-renews}
use shieldnet.Rollover.Accounting.{IsAccounted, complaints_in, run-IsAccounted, run-started}
use shieldnet.Tests.Libraries.{libraries}
use shieldnet.Tests.Fixtures.{config, machine_in, disputed, complaint, complaints, late_request}

-- Epoch 1 was skipped, and the block 25 is in epoch 2.
abbrev skipped_machine : Machine
skipped_machine = machine_in (epoch_skipped 1)

abbrev staged_machine : Machine
staged_machine = machine_in (epoch_staged 5)

abbrev disputed_machine : Machine
disputed_machine = machine_in disputed

run-started_example :
    is_waiting_for_genesis
      (run libraries config
        (block_new 25 ∷ event_at complaint ∷ [])
        skipped_machine).storage.machines.rollover
    ≡ false
run-started_example =
    run-started libraries config (block_new 25 ∷ event_at complaint ∷ []) skipped_machine refl

complaints-IsAccounted : IsAccounted complaints
complaints-IsAccounted = ((omega arith, omega arith), tt)

run-IsAccounted_example : IsAccounted (
    complaints_in
      (run libraries config (event_at complaint ∷ []) disputed_machine).storage.machines.rollover)
run-IsAccounted_example =
    run-IsAccounted libraries config (event_at complaint ∷ []) disputed_machine
      complaints-IsAccounted

-- The late request after the block 25.
abbrev renewed_request : SigningState
renewed_request = record {
  packet = late_request.packet;
  deadline = 30;
  phase = waiting_for_request none (2 ∷ 3 ∷ []);
}

process-block_new-renews_example : 25 < renewed_request.deadline
unfolding process ◌>>=◌ check_epoch_rollover view_machines new_transition_state
    check_key_gen_timeouts apply check_signing_timeouts view_consensus threshold apply_diff
process-block_new-renews_example =
    process-block_new-renews libraries config (omega arith) 25 staged_machine _ 77 renewed_request
      (omega arith) refl refl

process-event_at-once_example :
    let m' =
      run libraries config
        (block_new 25 ∷ [])
        (process libraries config (event_at complaint) disputed_machine).machine in
    process libraries config (event_at complaint) m'
    ≡ record { machine = m'; actions = []; succeeded = false }
process-event_at-once_example =
    process-event_at-once libraries config complaint (block_new 25 ∷ []) disputed_machine

process-event_at-position_example :
    ((process libraries config
        (event_at complaint)
        disputed_machine).machine.core.last_processed_block
      ≡ 20)
    × ((process libraries config
          (event_at complaint)
          disputed_machine).machine.core.last_processed_index
        ≡ some 5)
unfolding is_stale
process-event_at-position_example =
    process-event_at-position libraries config complaint disputed_machine refl

-- The epoch of the block 25 starts a ceremony, whose action the protocol refuses.
abbrev refusing_machine : Machine
refusing_machine = record skipped_machine { calls = 1 }

progress_to_block-InStep_example :
    Post
      (InStep staged_machine.storage)
      (progress_to_block libraries config 25
        (new_transition_state staged_machine.storage.machines staged_machine.storage.consensus)
        staged_machine.core).0
progress_to_block-InStep_example = progress_to_block-InStep libraries config 25 staged_machine

abbrev forget_late : StateDiff
forget_late = record no_diff { signing = some (77, none) }

apply-Tracks_example :
    Tracks
      (apply forget_late
        (new_transition_state staged_machine.storage.machines staged_machine.storage.consensus))
      (apply_diff forget_late staged_machine.storage).0
apply-Tracks_example =
    apply-Tracks forget_late
      (new_transition_state staged_machine.storage.machines staged_machine.storage.consensus)
      staged_machine.storage (new_transition_state-Tracks staged_machine.storage)

abbrev changed : Overlay ℕ
changed = write (some (4, none)) (write (some (6, some 8)) (overlay ((4, 7) ∷ (5, 9) ∷ [])))

get-entries_example : get 4 (entries changed) ≡ read 4 changed
get-entries_example = get-entries changed 4
