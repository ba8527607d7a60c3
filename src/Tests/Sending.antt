-- ===== src/Tests/Sending.antt =====
-- The theorems about nonces and transitions at concrete inputs.
use shieldnet.Prelude.{ℕ, ◌≤◌, ◌≡◌, get_elem?, List, [], ◌∷◌, none, some, false, arith}
use shieldnet.Protocol.Transactions.{
  EthTransactionData, TxEvent, action_registered, fees_estimated, transaction_sent,
  submission_failed, pending_marked, nonce_read, nonce_too_low, register, reserved_nonce,
}
use shieldnet.Data.Event.{StateTransition, block_new}
use shieldnet.Watcher.Transitions.{
  handle_transitions-all, first_transition, next_transition, no_transitions, Ascends,
  handle_transitions, handle_transitions-Ascends,
}
use shieldnet.Watcher.Loop.{throttle}
use shieldnet.Watcher.Throttling.{after_limits, after_limits-throttle}
use shieldnet.Protocol.Gaps.{HasNoGaps, run_tx, run_tx-HasNoGaps, is_stored, reserved_nonce-fresh}

abbrev tx : EthTransactionData
tx = record { to = 1; value = 0; call_data = 5; gas = some 250000 }

-- Two actions at the nonce 7, of which the first fails once the second is there, and a third after the
-- first was executed.
abbrev events : List (ℕ × TxEvent)
events =
    (0, action_registered tx 7)
    ∷ (0, fees_estimated 7 (record { max_fee_per_gas = 9; max_priority_fee_per_gas = 1 }) none)
    ∷ (0, action_registered tx 7)
    ∷ (0, submission_failed 7)
    ∷ (0, transaction_sent 8 77)
    ∷ (0, pending_marked 100)
    ∷ (1, nonce_read 8)
    ∷ (0, action_registered tx 8)
    ∷ (1, nonce_too_low 8)
    ∷ []

run_tx-HasNoGaps_example : HasNoGaps (run_tx 7 events []).0 (run_tx 7 events []).1
run_tx-HasNoGaps_example = run_tx-HasNoGaps 7 events (
  omega arith,
  (tt, (omega arith, (tt, (tt, (tt, (omega arith, (omega arith, (omega arith, tt)))))))),
)

reserved_nonce-fresh_example :
    (3 ≤ reserved_nonce (register tx 3 []) 3)
    × (is_stored (reserved_nonce (register tx 3 []) 3) (register tx 3 []) ≡ false)
reserved_nonce-fresh_example = reserved_nonce-fresh (register tx 3 []) 3

-- The second transition is out of order.
abbrev transitions : List StateTransition
transitions = block_new 5 ∷ block_new 4 ∷ block_new 5 ∷ block_new 6 ∷ []

handle_transitions-Ascends_example :
    Ascends none (handle_transitions transitions none).0 (handle_transitions transitions none).1
handle_transitions-Ascends_example = handle_transitions-Ascends transitions none

handle_transitions-all_example :
    handle_transitions (block_new 5 ∷ block_new 6 ∷ []) none
    ≡ (block_new 5 ∷ block_new 6 ∷ [], some 6)
handle_transitions-all_example = handle_transitions-all (block_new 5 ∷ block_new 6 ∷ []) (
    first_transition (block_new 5) _ (next_transition (block_new 6) _ (omega arith) no_transitions))

after_limits-throttle_example :
    (d : ℕ) × (get_elem? (1000 ∷ 2000 ∷ 4000 ∷ []) 2 ≡ some d)
    × (throttle (1000 ∷ 2000 ∷ 4000 ∷ []) (after_limits (1000 ∷ 2000 ∷ 4000 ∷ []) 6) ≡ some d)
after_limits-throttle_example = after_limits-throttle (1000 ∷ 2000 ∷ 4000 ∷ []) 5 (omega arith)
