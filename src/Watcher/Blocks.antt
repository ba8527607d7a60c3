-- ===== src/Watcher/Blocks.antt =====
-- validator/src/watcher/blocks.ts: the block watcher. The node is a list of moments, one for each of
-- the watcher's calls: the time before the call and what the node would answer to it. A function that
-- runs out of moments is still waiting.
use shieldnet.Prelude.{
  ℕ, suc, ◌+◌, ◌-◌, ◌*◌, List, [], ◌∷◌, ◌++◌, Option, none, some, Bool, true, leb, ◌==◌, map,
  if◌then◌else◌,
}
use shieldnet.Data.Frost.{Text, Hex}

pub record BlockConfig : Type 0 where
  pub block_time : ℕ
  pub max_reorg_depth : ℕ
  pub block_propagation_delay : ℕ
  pub block_retry_delays : List ℕ

pub record Block : Type 0 where
  pub number : ℕ
  pub timestamp : ℕ
  pub hash : Hex
  pub parent_hash : Hex
  pub logs_bloom : Text

pub data BlockUpdate : Type 0 where
  watcher_update_warp_to_block : (from_block to_block : ℕ) → BlockUpdate
  watcher_update_uncle_block : (block_number : ℕ) → BlockUpdate
  watcher_update_new_block : (block_number : ℕ) (block_hash : Hex) (logs_bloom : Text) → BlockUpdate

pub record PendingBlock : Type 0 where
  pub number : ℕ
  pub timestamp_ms : ℕ

-- What `getBlock` settles to: a block, a `BlockNotFoundError`, or another error.
pub data Answer : Type 0 where
  found : (block : Block) → Answer
  missing : Answer
  failed : (error : ℕ) → Answer

pub record Moment : Type 0 where
  pub now : ℕ
  pub latest : Answer
  pub block_at : ℕ → Answer

pub record BlockWatcher : Type 0 where
  pub pending : PendingBlock
  pub blocks : List Block
  pub queue : List BlockUpdate

-- `maxBigInt(a - b, 0n)`: the subtraction on ℕ stops at 0.
unfoldable pub safe_block : BlockConfig → Block → ℕ
safe_block cfg latest = latest.number - cfg.max_reorg_depth

-- `maxBigInt(last - BigInt(maxReorgDepth - 1), 0n)`, where a depth of 0 subtracts -1.
unfoldable pub first_uncle : BlockConfig → ℕ → ℕ
first_uncle cfg last = suc last - cfg.max_reorg_depth

unfoldable pub next_pending_block : BlockConfig → Block → PendingBlock
next_pending_block cfg block = record {
  number = block.number + 1;
  timestamp_ms = block.timestamp * 1000 + cfg.block_time;
}

-- The updates queued for the blocks that were indexed before the start.
unfoldable pub restart_updates : BlockConfig → Block → Option ℕ → List BlockUpdate
unfolding safe_block first_uncle
restart_updates cfg latest none = []
restart_updates cfg latest (some last) =
    let uncle = first_uncle cfg last in
    let safe = safe_block cfg latest in
    (if leb uncle last then watcher_update_uncle_block uncle ∷ [] else [])
    ++ (if leb uncle safe then watcher_update_warp_to_block uncle safe ∷ [] else [])

-- The loop over the recent blocks: its counter, `parentHash`, the blocks so far, and
-- `previouslyQueriedLatest`.
pub record Loading : Type 0 where
  pub block_number : ℕ
  pub parent_hash : Option Hex
  pub blocks : List Block
  pub previously_queried_latest : Option Block

-- `parentHash === null || parentHash === block.parentHash`.
unfoldable pub extends : Option Hex → Block → Bool
extends none block = true
extends (some hash) block = hash == block.parent_hash

unfoldable pub add_loaded : ℕ → Block → Loading → Loading
unfolding extends
add_loaded safe block l =
    if extends l.parent_hash block
    then record {
      block_number = l.block_number + 1;
      parent_hash = some block.hash;
      blocks = l.blocks ++ (block ∷ []);
      previously_queried_latest = l.previously_queried_latest;
    }
    else record {
      block_number = safe + 1;
      parent_hash = none;
      blocks = [];
      previously_queried_latest = none;
    }

-- An iteration that finds the block it needs in `previouslyQueriedLatest` makes no call. There is at
-- most one in a row: after it the loop is over, or the block is forgotten.
unfoldable pub reuse_block : ℕ → Loading → Option Block → Loading
unfolding add_loaded
reuse_block safe l none = l
reuse_block safe l (some block) =
    if block.number == l.block_number then add_loaded safe block l else l

unfoldable pub reuse_latest : ℕ → Loading → Loading
unfolding reuse_block
reuse_latest safe l = reuse_block safe l l.previously_queried_latest

pub data Loaded : Type 0 where
  loaded : (blocks : List Block) → Loaded
  load_failed : (error : Answer) → Loaded
  still_loading : Loaded

unfoldable pub load_blocks : ℕ → ℕ → Loading → List Moment → Loaded
unfolding reuse_latest add_loaded
load_blocks safe last l [] =
    let here = reuse_latest safe l in
    if leb here.block_number last then still_loading else loaded here.blocks
load_blocks safe last l (m ∷ ms) =
    let here = reuse_latest safe l in
    let rest = elim (m.block_at here.block_number) as (λ _. Loaded) [
      | found block ↦ load_blocks safe last (add_loaded safe block here) ms
      | missing ↦ load_failed missing
      | failed e ↦ load_failed (failed e)
    ] in
    if leb here.block_number last then rest else loaded here.blocks

unfoldable pub new_block_update : Block → BlockUpdate
new_block_update block = watcher_update_new_block block.number block.hash block.logs_bloom

pub data Created : Type 0 where
  created : (watcher : BlockWatcher) → Created
  create_failed : (error : Answer) → Created
  still_creating : Created

unfoldable pub finish_loading : BlockConfig → Block → Option ℕ → Loaded → Created
unfolding next_pending_block restart_updates new_block_update
finish_loading cfg latest last (loaded blocks) = created (record {
  pending = next_pending_block cfg latest;
  blocks = blocks;
  queue = restart_updates cfg latest last ++ map new_block_update blocks;
})
finish_loading cfg latest last (load_failed e) = create_failed e
finish_loading cfg latest last still_loading = still_creating

unfoldable pub start_loading : BlockConfig → Block → Loading
unfolding safe_block
start_loading cfg latest = record {
  block_number = safe_block cfg latest + 1;
  parent_hash = none;
  blocks = [];
  previously_queried_latest = some latest;
}

-- `BlockWatcher.create` and `#initialize`.
unfoldable pub initialize : BlockConfig → Option ℕ → List Moment → Created
unfolding finish_loading load_blocks start_loading safe_block
initialize cfg last [] = still_creating
initialize cfg last (m ∷ ms) = elim m.latest as (λ _. Created) [
  | found latest ↦
      finish_loading cfg latest last
        (load_blocks (safe_block cfg latest) latest.number (start_loading cfg latest) ms)
  | missing ↦ create_failed missing
  | failed e ↦ create_failed (failed e)
]
