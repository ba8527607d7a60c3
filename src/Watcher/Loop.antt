-- ===== src/Watcher/Loop.antt =====
-- validator/src/watcher/index.ts: a turn of the watcher's loop, and validator/src/watcher/backoff.ts.
use shieldnet.Prelude.{
  ℕ, ◌+◌, ◌-◌, List, [], ◌∷◌, ◌++◌, Option, none, some, Bool, ltb, length, get_elem?, min,
  if◌then◌else◌,
}
use shieldnet.Watcher.Blocks.{BlockConfig, BlockUpdate, Moment, BlockWatcher}
use shieldnet.Watcher.Pending.{Next, updated, next_failed, still_waiting, next}
use shieldnet.Watcher.Bloom.{Viem}
use shieldnet.Watcher.Logs.{Log, LogsConfig, Client, EventStep, idle, on_block_update, next_logs}

pub data Update : Type 0 where
  block_update : BlockUpdate → Update
  watcher_update_new_logs : List Log → Update

-- The node at one call of the event watcher, and whether the watcher still runs after it.
pub record Poll : Type 0 where
  pub client : Client
  pub running : Bool

-- How `#next` ended: it settled, threw, or has not settled yet.
pub data Ending : Type 0 where
  settled : Ending
  thrown : Ending
  unsettled : Ending

pub record WatcherState : Type 0 where
  pub block_watcher : BlockWatcher
  pub step : EventStep

-- What `#next` passed to the handlers, how it ended, and the state then.
pub record Turn : Type 0 where
  pub updates : List Update
  pub ending : Ending
  pub state : WatcherState

-- `#onUpdate` with logs, if there are any.
unfoldable pub logs_update : List Log → List Update
logs_update [] = []
logs_update (l ∷ logs) = watcher_update_new_logs (l ∷ logs) ∷ []

unfoldable pub with_updates : List Update → Turn → Turn
with_updates us t = record { updates = us ++ t.updates; ending = t.ending; state = t.state }

module _ (viem : Viem) (blocks_cfg : BlockConfig) (logs_cfg : LogsConfig) where
  -- The end of `#next`: the event watcher takes the block update before the handlers do.
  unfoldable pub take_update : EventStep → BlockUpdate → BlockWatcher → Option EventStep → Turn
  take_update step update w (some step') = record {
    updates = block_update update ∷ [];
    ending = settled;
    state = record { block_watcher = w; step = step' };
  }
  take_update step update w none = record {
    updates = [];
    ending = thrown;
    state = record { block_watcher = w; step = step };
  }

  unfoldable pub take_next : EventStep → Next → Turn
  unfolding take_update
  take_next step (updated update w) =
      take_update step update w (on_block_update viem logs_cfg step update)
  take_next step (next_failed e w) = record {
    updates = [];
    ending = thrown;
    state = record { block_watcher = w; step = step };
  }
  take_next step (still_waiting w) = record {
    updates = [];
    ending = unsettled;
    state = record { block_watcher = w; step = step };
  }

  -- After a call of the event watcher: on to the blocks, out on an error or a stop, or to the next call.
  unfoldable pub after_poll :
      Bool → BlockWatcher → Turn → Turn → Option (Option (List Log)) × EventStep → Turn
  unfolding logs_update with_updates
  after_poll running w blocks rest (none, step) = blocks
  after_poll running w blocks rest (some none, step) = record {
    updates = [];
    ending = thrown;
    state = record { block_watcher = w; step = step };
  }
  after_poll running w blocks rest (some (some logs), step) = with_updates (logs_update logs) (
      if running then rest else record {
        updates = [];
        ending = settled;
        state = record { block_watcher = w; step = step };
      })

  -- `#next`. An idle event watcher makes no query.
  unfoldable pub turn : List Poll → List Moment → WatcherState → Turn
  unfolding after_poll take_next
  turn [] ms s = elim s.step as (λ _. Turn) [
    | idle ↦ take_next idle (next blocks_cfg s.block_watcher ms)
    | _ ↦ record { updates = []; ending = unsettled; state = s }
  ]
  turn (p ∷ ps) ms s =
      let r = next_logs viem logs_cfg p.client s.step in
      after_poll p.running s.block_watcher (take_next s.step (next blocks_cfg s.block_watcher ms))
        (turn ps ms (record { block_watcher = s.block_watcher; step = r.1 })) r

-- The backoff: `null`, or the index of a delay. An index of -1, of an empty list of delays, is none.
unfoldable pub limited : List ℕ → Option ℕ → Option ℕ
limited delays delay =
    let next_index = elim delay as (λ _. ℕ) [ none ↦ 0 | some index ↦ index + 1 ] in
    if ltb 0 (length delays) then some (min next_index (length delays - 1)) else none

-- `classify`: a rate limit raises the delay, another error resets it.
unfoldable pub classify : List ℕ → Bool → Option ℕ → Option ℕ
unfolding limited
classify delays is_rate_limit_error delay =
    if is_rate_limit_error then limited delays delay else none

-- `throttle`: the time slept before a request.
unfoldable pub throttle : List ℕ → Option ℕ → Option ℕ
throttle delays none = none
throttle delays (some index) = get_elem? delays index
