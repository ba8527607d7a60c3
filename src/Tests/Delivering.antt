-- ===== src/Tests/Delivering.antt =====
-- The theorems about the logs, the watcher's loop, the checks and the queues at concrete inputs.
use mathlib.Core.List.{Perm}
use mathlib.Core.List.Perm
use mathlib.Core.Path.{subst}
use shieldnet.Prelude.{
  ℕ, zero, suc, ap, ◌+◌, ◌-◌, ◌≡◌, refl, inl, inr, List, [], ◌∷◌, ◌++◌, none, some, true, arith,
  length, All, Bool-cases, ==_refl, ◌==◌, if◌then◌else◌,
}
use shieldnet.Watcher.Blocks.{Moment, watcher_update_warp_to_block}
use shieldnet.Watcher.Stream.{Trail, WellKept, stop, go, warps}
use shieldnet.Watcher.Chain.{no_blocks}
use shieldnet.Watcher.Bloom.{Viem}
use shieldnet.Watcher.Logs.{
  AbiEvent, Log, LogsConfig, in_block, between, Client, idle, warping, sort_logs,
  potentially_missed, next_logs,
}
use shieldnet.Watcher.Sorting.{IsSorted, sort_logs-IsSorted}
use shieldnet.Watcher.Coverage.{IsHonest, logs_in, logs_from}
use shieldnet.Watcher.Warp.{take_logs, take_logs-covers}
use shieldnet.Watcher.Halving.{AnswersOne, take_logs-ends}
use shieldnet.Watcher.Loop.{Poll, WatcherState}
use shieldnet.Watcher.Turns.{run_turns, run_turns-Trail, block_updates}
use shieldnet.Tests.Watching.{config, node, node-IsNumbered}

abbrev event : AbiEvent
event = record { name = 7; selector = 70 }

abbrev logs_config : LogsConfig
logs_config = record {
  address = 1 ∷ [];
  events = event ∷ [];
  block_page_size = 2;
  block_single_query_retry_count = 3;
  max_logs_per_query = none;
  fallible_events = [];
}

-- One log in every block.
abbrev log_of : AbiEvent → ℕ → List Log
log_of e n = record { block_number = n; log_index = 0; content = 100 + n } ∷ []

-- A node with these logs, that only answers queries of up to so many blocks.
abbrev limited_client : Client
limited_client (in_block h) events = none
limited_client (between a b) events = if a == b then some (logs_in log_of events a) else none

limited_client-AnswersOne : AnswersOne logs_config limited_client
unfolding potentially_missed
limited_client-AnswersOne n e = (log_of e n, rw (==_refl n) refl, refl)

limited_client-IsHonest : IsHonest logs_config log_of limited_client
limited_client-IsHonest = record {
  all_events = λ a b. elim (Bool-cases (a == b)) [
    | inl e ↦
        let one : 1 ≡ suc b - a = ground arith in
        rw e (
          subst (λ n. Perm (logs_in log_of (event ∷ []) a) (logs_from log_of (event ∷ []) a n)) one
            (Perm.refl _))
    | inr e ↦ rw e tt
  ];
  one_event = λ n e. rw (==_refl n) (Perm.refl _);
}

abbrev viem : Viem
viem = record { keccak256 = λ h i. h + i; size = λ t. 256 }

sort_logs-IsSorted_example :
    IsSorted (sort_logs (log_of event 3 ++ log_of event 1 ++ log_of event 2))
sort_logs-IsSorted_example = sort_logs-IsSorted (log_of event 3 ++ log_of event 1 ++ log_of event 2)

-- Blocks 1 to 3, with a query of two blocks that fails, and its halves.
abbrev five : List Client
five = limited_client ∷ limited_client ∷ limited_client ∷ limited_client ∷ limited_client ∷ []

take_logs-covers_example :
    Perm
      (take_logs viem logs_config five (warping 1 3 2)).0
      (logs_from log_of (event ∷ []) 1 (suc 3 - 1))
unfolding take_logs next_logs
take_logs-covers_example =
    take_logs-covers viem logs_config log_of five 1 3 2 refl (omega arith)
      (
        limited_client-IsHonest,
        (
          limited_client-IsHonest,
          (limited_client-IsHonest, (limited_client-IsHonest, (limited_client-IsHonest, tt))),
        ),
      )
      (omega arith) (omega arith) five_take_logs
  where
    five_take_logs : (take_logs viem logs_config five (warping 1 3 2)).1 ≡ idle
    five_take_logs = refl

limited_clients : ℕ → List Client
limited_clients zero = []
limited_clients (suc n) = limited_client ∷ limited_clients n

limited_clients-AnswersOne : (n : ℕ) → All (AnswersOne logs_config) (limited_clients n)
unfolding limited_clients
limited_clients-AnswersOne zero = tt
limited_clients-AnswersOne (suc n) = (limited_client-AnswersOne, limited_clients-AnswersOne n)

length-limited_clients : (n : ℕ) → length (limited_clients n) ≡ n
unfolding limited_clients
length-limited_clients zero = refl
length-limited_clients (suc n) = ap suc (length-limited_clients n)

take_logs-ends_example : (take_logs viem logs_config (limited_clients 11) (warping 1 3 2)).1 ≡ idle
take_logs-ends_example =
    take_logs-ends viem logs_config (limited_clients 11) 1 3 2 (omega arith)
      (limited_clients-AnswersOne 11) (omega arith) (omega arith)
      (omega (arith, length-limited_clients 11))

-- A watcher that warps to block 3 and then waits for block 4.
abbrev warping_watcher : WatcherState
warping_watcher = record {
  block_watcher = record {
    pending = record { number = 4; timestamp_ms = 20000 };
    blocks = [];
    queue = watcher_update_warp_to_block 3 3 ∷ [];
  };
  step = idle;
}

abbrev polled : List (List Poll × List Moment)
polled = ([], []) ∷ (record { client = limited_client; running = true } ∷ [], node 10 ∷ []) ∷ []

run_turns-Trail_example :
    (end : ℕ) × (Trail 3
      (block_updates (run_turns viem config logs_config polled warping_watcher).0)
      end)
    × WellKept config end (run_turns viem config logs_config polled warping_watcher).1.block_watcher
run_turns-Trail_example =
    run_turns-Trail viem config logs_config 3 polled warping_watcher
      (record {
        path = go (warps (omega arith)) (stop refl);
        linked = no_blocks;
        bounded = omega arith;
      })
      (tt, ((node-IsNumbered 10, tt), tt))
