-- ===== src/Tests/Watching.antt =====
-- The theorems about the watcher and its queues at concrete inputs.
use shieldnet.Prelude.{ℕ, ◌+◌, ◌*◌, ◌≡◌, refl, List, [], ◌∷◌, ◌++◌, some, arith, All}
use shieldnet.Watcher.Blocks.{
  BlockConfig, Block, BlockUpdate, watcher_update_warp_to_block, watcher_update_uncle_block,
  watcher_update_new_block, found, missing, Moment, BlockWatcher, initialize, created,
}
use shieldnet.Watcher.Pending.{updated, next}
use shieldnet.Watcher.Stream.{IsNumbered, Trail, WellKept}
use shieldnet.Watcher.Updates.{take_updates, initialize-Trail}
use shieldnet.Watcher.Waiting.{next-found}

abbrev pub config : BlockConfig
config = record {
  block_time = 5000;
  max_reorg_depth = 2;
  block_propagation_delay = 500;
  block_retry_delays = 200 ∷ 100 ∷ [];
}

-- The blocks of two forks: 10 and 50 in front of the number.
abbrev block : ℕ → ℕ → Block
block fork n = record {
  number = n;
  timestamp = 5 * n;
  hash = fork + n + 1;
  parent_hash = fork + n;
  logs_bloom = [];
}

abbrev pub node : ℕ → Moment
node fork = record { now = 0; latest = found (block fork 3); block_at = λ n. found (block fork n) }

pub node-IsNumbered : (fork : ℕ) → IsNumbered (node fork)
node-IsNumbered fork n = refl

other : All IsNumbered (node 50 ∷ [])
other = (node-IsNumbered 50, tt)

-- After a restart at block 2: block 1 is behind all reorgs, 2 and 3 are kept.
abbrev started : BlockWatcher
started = record {
  pending = record { number = 4; timestamp_ms = 20000 };
  blocks = block 10 2 ∷ block 10 3 ∷ [];
  queue =
      watcher_update_uncle_block 1
      ∷ watcher_update_warp_to_block 1 1
      ∷ watcher_update_new_block 2 13 []
      ∷ watcher_update_new_block 3 14 []
      ∷ [];
}

initialize-started : initialize config (some 2) (node 10 ∷ node 10 ∷ []) ≡ created started
unfolding initialize
initialize-started = refl

-- Block 3 gets uncled by the other fork, then block 2.
abbrev calls : List (List Moment)
calls = [] ∷ [] ∷ [] ∷ [] ∷ (node 50 ∷ []) ∷ (node 50 ∷ []) ∷ (node 50 ∷ []) ∷ []

take_updates-calls :
    (take_updates config started calls).0
    ≡ watcher_update_uncle_block 1
      ∷ watcher_update_warp_to_block 1 1
      ∷ watcher_update_new_block 2 13 []
      ∷ watcher_update_new_block 3 14 []
      ∷ watcher_update_uncle_block 3
      ∷ watcher_update_uncle_block 2
      ∷ watcher_update_new_block 2 53 []
      ∷ []
unfolding take_updates next
take_updates-calls = refl

initialize-Trail_example :
    (end : ℕ) × (Trail 3 (take_updates config started calls).0 end)
    × WellKept config end (take_updates config started calls).1
initialize-Trail_example =
    initialize-Trail config 2 (node 10) (node 10 ∷ []) (block 10 3) started calls refl (omega arith)
      (node-IsNumbered 10, tt) (tt, (tt, (tt, (tt, (other, (other, (other, tt)))))))
      initialize-started

abbrev waiting_node : Moment
waiting_node = record { now = 0; latest = found (block 10 3); block_at = λ n. missing }

next-found_example :
    (u : BlockUpdate) × (v : BlockWatcher) × (next config
        (record {
          pending = record { number = 4; timestamp_ms = 20000 };
          blocks = block 10 3 ∷ [];
          queue = [];
        })
        ((waiting_node ∷ waiting_node ∷ []) ++ node 10 ∷ [])
      ≡ updated u v)
next-found_example =
    next-found config (record { number = 4; timestamp_ms = 20000 }) (block 10 3 ∷ [])
      (waiting_node ∷ waiting_node ∷ []) [] (node 10) (block 10 4) (refl, (refl, tt)) refl
