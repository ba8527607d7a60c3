-- ===== src/Watcher/Pending.antt =====
-- validator/src/watcher/blocks.ts: the next update of the block watcher.
use shieldnet.Prelude.{
  ℕ, suc, ◌+◌, ◌-◌, ◌*◌, ◌%◌, List, [], ◌∷◌, ◌++◌, Option, none, some, not, ltb, ◌==◌, length,
  get_elem?, if◌then◌else◌,
}
use shieldnet.Watcher.Blocks.{
  BlockConfig, Block, BlockUpdate, watcher_update_uncle_block, PendingBlock, Answer, found, missing,
  failed, Moment, BlockWatcher, next_pending_block, new_block_update,
}

-- `#waitForPendingBlock`: the time slept, none when the block is due.
unfoldable pub wait_for_pending_block : BlockConfig → PendingBlock → Moment → List ℕ
wait_for_pending_block cfg pending m =
    let due = pending.timestamp_ms + cfg.block_propagation_delay in
    if ltb m.now due then (due - m.now) ∷ [] else []

-- The loop of `next` until a block is there, with the times that it slept.
pub record Fetch : Type 0 where
  pub answer : Answer
  pub pending : PendingBlock
  pub sleeps : List ℕ

-- What follows a block that is missing: a sleep, or the wait for the next slot.
unfoldable pub after_missing : BlockConfig → ℕ → PendingBlock → PendingBlock × List ℕ
after_missing cfg retry_count pending =
    let index = retry_count % suc (length cfg.block_retry_delays) in
    elim (get_elem? cfg.block_retry_delays index) as (λ _. PendingBlock × List ℕ) [
      | some delay ↦ (pending, delay ∷ [])
      | none ↦ (
        record { number = pending.number; timestamp_ms = pending.timestamp_ms + cfg.block_time },
        [],
      )
    ]

-- Where an answer leads: out of the loop, or to the rest of it.
unfoldable pub settle_answer : PendingBlock → List ℕ → List ℕ → Fetch → Answer → Fetch
settle_answer pending slept then_slept rest (found block) = record {
  answer = found block;
  pending = pending;
  sleeps = slept;
}
settle_answer pending slept then_slept rest (failed e) = record {
  answer = failed e;
  pending = pending;
  sleeps = slept;
}
settle_answer pending slept then_slept rest missing = record {
  answer = rest.answer;
  pending = rest.pending;
  sleeps = slept ++ then_slept ++ rest.sleeps;
}

unfoldable pub fetch_pending : BlockConfig → ℕ → PendingBlock → List Moment → Fetch
unfolding wait_for_pending_block after_missing settle_answer
fetch_pending cfg retry_count pending [] = record {
  answer = missing;
  pending = pending;
  sleeps = [];
}
fetch_pending cfg retry_count pending (m ∷ ms) =
    let later = after_missing cfg retry_count pending in
    settle_answer pending (wait_for_pending_block cfg pending m) later.1
      (fetch_pending cfg (suc retry_count) later.0 ms) (m.block_at pending.number)

unfoldable pub last_block : List Block → Option Block
last_block [] = none
last_block (b ∷ []) = some b
last_block (b ∷ c ∷ rest) = last_block (c ∷ rest)

-- `blocks.pop()`.
unfoldable pub drop_last : List Block → List Block
drop_last [] = []
drop_last (b ∷ []) = []
drop_last (b ∷ c ∷ rest) = b ∷ drop_last (c ∷ rest)

-- The loop of `shift`s until no more than so many are left.
unfoldable pub shift_to : ℕ → List Block → List Block
shift_to depth [] = []
shift_to depth (b ∷ rest) =
    let shifted = shift_to depth rest in if ltb depth (suc (length rest)) then shifted else b ∷ rest

pub data Next : Type 0 where
  updated : (update : BlockUpdate) (watcher : BlockWatcher) → Next
  next_failed : (error : ℕ) (watcher : BlockWatcher) → Next
  still_waiting : (watcher : BlockWatcher) → Next

unfoldable pub uncle_last : Block → BlockWatcher → Next
unfolding drop_last
uncle_last last w = updated (watcher_update_uncle_block last.number) (record {
  pending = record { number = last.number; timestamp_ms = last.timestamp * 1000 };
  blocks = drop_last w.blocks;
  queue = w.queue;
})

unfoldable pub append_block : BlockConfig → Block → BlockWatcher → Next
unfolding shift_to next_pending_block new_block_update
append_block cfg block w = updated (new_block_update block) (record {
  pending = next_pending_block cfg block;
  blocks = shift_to cfg.max_reorg_depth (w.blocks ++ (block ∷ []));
  queue = w.queue;
})

unfoldable pub settle_block : BlockConfig → Block → BlockWatcher → Option Block → Next
unfolding uncle_last append_block
settle_block cfg block w none = append_block cfg block w
settle_block cfg block w (some last) =
    if not (last.hash == block.parent_hash) then uncle_last last w else append_block cfg block w

unfoldable pub settle_fetch : BlockConfig → BlockWatcher → Answer → Next
unfolding settle_block last_block
settle_fetch cfg w (found block) = settle_block cfg block w (last_block w.blocks)
settle_fetch cfg w (failed e) = next_failed e w
settle_fetch cfg w missing = still_waiting w

unfoldable pub next : BlockConfig → BlockWatcher → List Moment → Next
unfolding settle_fetch fetch_pending
next cfg w ms =
    let f = fetch_pending cfg 0 w.pending ms in
    elim w.queue as (λ _. Next) [
      | [] ↦
          settle_fetch cfg (record { pending = f.pending; blocks = w.blocks; queue = [] }) f.answer
      | update ∷ rest ↦
          updated update (record { pending = w.pending; blocks = w.blocks; queue = rest })
    ]
