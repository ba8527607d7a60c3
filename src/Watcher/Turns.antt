-- ===== src/Watcher/Turns.antt =====
-- The loop of validator/src/watcher/index.ts as a whole: no block update is lost in it.
use mathlib.Core.Path.{subst}
use shieldnet.Prelude.{
  ℕ, ◌≡◌, refl, sym, ap, List, [], ◌∷◌, ◌++◌, Option, none, some, Bool, true, false, All,
}
use shieldnet.Watcher.Blocks.{
  BlockConfig, BlockUpdate, watcher_update_warp_to_block, watcher_update_uncle_block,
  watcher_update_new_block, Moment, BlockWatcher,
}
use shieldnet.Watcher.Pending.{Next, updated, next_failed, still_waiting, next}
use shieldnet.Watcher.Bloom.{Viem}
use shieldnet.Watcher.Logs.{
  Log, LogsConfig, EventStep, idle, warping, block_step, on_block_update, next_logs,
}
use shieldnet.Watcher.Stream.{Trail, stop, go, IsNumbered, WellKept, KeepsOrder, next-KeepsOrder}
use shieldnet.Watcher.Start.{Trail-append}
use shieldnet.Watcher.Loop.{
  Update, block_update, watcher_update_new_logs, Poll, Ending, settled, thrown, unsettled,
  WatcherState, Turn, logs_update, with_updates, take_update, take_next, after_poll, turn,
}

-- The block updates among those for the handlers.
abbrev pub block_updates : List Update → List BlockUpdate
block_updates [] = []
block_updates (block_update u ∷ rest) = u ∷ block_updates rest
block_updates (watcher_update_new_logs logs ∷ rest) = block_updates rest

block_updates-append :
    (us vs : List Update) → block_updates (us ++ vs) ≡ block_updates us ++ block_updates vs
block_updates-append [] vs = refl
block_updates-append (block_update u ∷ us) vs = ap (λ t. u ∷ t) (block_updates-append us vs)
block_updates-append (watcher_update_new_logs l ∷ us) vs = block_updates-append us vs

module _ (viem : Viem) (blocks_cfg : BlockConfig) (logs_cfg : LogsConfig) where
  -- The updates lead from one block to the one that the block watcher waits for in the end.
  abbrev Leads : ℕ → List Update → WatcherState → Type 0
  Leads due us s =
      (end : ℕ) × (Trail due (block_updates us) end) × WellKept blocks_cfg end s.block_watcher

  take_next-Leads :
      (due : ℕ) (n : Next)
      → KeepsOrder blocks_cfg due n
      → Leads due
          (take_next viem blocks_cfg logs_cfg idle n).updates
          (take_next viem blocks_cfg logs_cfg idle n).state
  unfolding take_next take_update on_block_update
  take_next-Leads due (updated (watcher_update_warp_to_block a b) w) (end, f, k) =
      (end, go f (stop refl), k)
  take_next-Leads due (updated (watcher_update_uncle_block m) w) (end, f, k) =
      (end, go f (stop refl), k)
  take_next-Leads due (updated (watcher_update_new_block m h b) w) (end, f, k) =
      (end, go f (stop refl), k)
  take_next-Leads due (next_failed e w) k = (due, stop refl, k)
  take_next-Leads due (still_waiting w) k = (due, stop refl, k)

  -- A call of the event watcher that is not idle.
  after_query-Leads :
      (due : ℕ) (running : Bool) (w : BlockWatcher) (blocks rest : Turn) (r : Option (List Log))
      (step : EventStep)
      → WellKept blocks_cfg due w
      → Leads due rest.updates rest.state
      → Leads due
          (after_poll viem blocks_cfg logs_cfg running w blocks rest (some r, step)).updates
          (after_poll viem blocks_cfg logs_cfg running w blocks rest (some r, step)).state
  unfolding after_poll with_updates logs_update
  after_query-Leads due running w blocks rest none step k l = (due, stop refl, k)
  after_query-Leads due true w blocks rest (some []) step k l = l
  after_query-Leads due true w blocks rest (some (a ∷ logs)) step k l = l
  after_query-Leads due false w blocks rest (some []) step k l = (due, stop refl, k)
  after_query-Leads due false w blocks rest (some (a ∷ logs)) step k l = (due, stop refl, k)

  turn-Leads :
      (due : ℕ) (ps : List Poll) (ms : List Moment) (w : BlockWatcher) (step : EventStep)
      → WellKept blocks_cfg due w
      → All IsNumbered ms
      → Leads due
          (turn viem blocks_cfg logs_cfg ps ms (record { block_watcher = w; step = step })).updates
          (turn viem blocks_cfg logs_cfg ps ms (record { block_watcher = w; step = step })).state
  unfolding turn next_logs
  turn-Leads due [] ms w idle k h = take_next-Leads due _ (next-KeepsOrder blocks_cfg due w ms k h)
  turn-Leads due [] ms w (warping a b p) k h = (due, stop refl, k)
  turn-Leads due [] ms w (block_step a b p) k h = (due, stop refl, k)
  turn-Leads due (p ∷ ps) ms w idle k h =
      take_next-Leads due _ (next-KeepsOrder blocks_cfg due w ms k h)
  turn-Leads due (p ∷ ps) ms w (warping a b page) k h =
      let step = (next_logs viem logs_cfg p.client (warping a b page)).1 in
      after_query-Leads due p.running w
        (take_next viem blocks_cfg logs_cfg (warping a b page) (next blocks_cfg w ms))
        (turn viem blocks_cfg logs_cfg ps ms (record { block_watcher = w; step = step })) _ step k
        (turn-Leads due ps ms w step k h)
  turn-Leads due (p ∷ ps) ms w (block_step hash bloom retries) k h =
      let step = (next_logs viem logs_cfg p.client (block_step hash bloom retries)).1 in
      after_query-Leads due p.running w
        (take_next viem blocks_cfg logs_cfg (block_step hash bloom retries) (next blocks_cfg w ms))
        (turn viem blocks_cfg logs_cfg ps ms (record { block_watcher = w; step = step })) _ step k
        (turn-Leads due ps ms w step k h)

  abbrev after_turn :
      Ending → List Update → WatcherState → List Update × WatcherState → List Update × WatcherState
  after_turn settled us s later = (us ++ later.0, later.1)
  after_turn thrown us s later = (us ++ later.0, later.1)
  after_turn unsettled us s later = (us, s)

  -- The updates of successive turns of `#run`, which goes on after an error, and waits for a turn
  -- that does not settle.
  unfoldable pub run_turns :
      List (List Poll × List Moment) → WatcherState → List Update × WatcherState
  run_turns [] s = ([], s)
  run_turns ((ps, ms) ∷ rest) s =
      let t = turn viem blocks_cfg logs_cfg ps ms s in
      after_turn t.ending t.updates t.state (run_turns rest t.state)

  join_Leads :
      (due mid : ℕ) (us : List Update) (r : List Update × WatcherState)
      → Trail due (block_updates us) mid
      → Leads mid r.0 r.1
      → Leads due (us ++ r.0) r.1
  join_Leads due mid us r p (end, q, k) = (
    end,
    subst (λ l. Trail due l end) (sym (block_updates-append us r.0)) (Trail-append _ _ p q),
    k,
  )

  after_turn-Leads :
      (due : ℕ) (e : Ending) (us : List Update) (s : WatcherState) (r : List Update × WatcherState)
      → Leads due us s
      → ((mid : ℕ) → WellKept blocks_cfg mid s.block_watcher → Leads mid r.0 r.1)
      → Leads due (after_turn e us s r).0 (after_turn e us s r).1
  after_turn-Leads due settled us s r (mid, p, k) h = join_Leads due mid us r p (h mid k)
  after_turn-Leads due thrown us s r (mid, p, k) h = join_Leads due mid us r p (h mid k)
  after_turn-Leads due unsettled us s r l h = l

  -- If at the start the block watcher is in order, which is that its queue leads from the
  -- block that is due to the pending one, and the kept blocks are a chain that ends before
  -- that one and are no more than the maximal depth of a reorganisation, and if the node
  -- answers every query for a block with a block of that number or with none, then no block
  -- update is lost between the block watcher and the handlers: over any turns of the loop,
  -- whatever queries fail, the block updates that the handlers get lead from the block due at
  -- the start to the one that is due in the end, and the block watcher is in order then.
  pub run_turns-Trail :
      (due : ℕ) (calls : List (List Poll × List Moment)) (s : WatcherState)
      → WellKept blocks_cfg due s.block_watcher
      → All (λ c. All IsNumbered c.1) calls
      → (end : ℕ) × (Trail due (block_updates (run_turns calls s).0) end)
        × WellKept blocks_cfg end (run_turns calls s).1.block_watcher
  unfolding run_turns
  run_turns-Trail due [] s k h = (due, stop refl, k)
  run_turns-Trail due ((ps, ms) ∷ rest) s k (h, hs) =
      let t = turn viem blocks_cfg logs_cfg ps ms s in
      after_turn-Leads due t.ending t.updates t.state _
        (turn-Leads due ps ms s.block_watcher s.step k h)
        (λ mid k'. run_turns-Trail mid rest t.state k' hs)
