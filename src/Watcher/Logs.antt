-- ===== src/Watcher/Logs.antt =====
-- validator/src/watcher/events.ts: the event watcher. The node is a function that answers the queries
-- of one call of `next`; `none` is an error.
use shieldnet.Prelude.{
  ℕ, ◌+◌, ◌-◌, ◌/◌, List, [], ◌∷◌, ◌++◌, map, Option, none, some, Bool, true, false, ◌&&◌, ◌||◌,
  ltb, leb, ◌==◌, length, includes, if◌then◌else◌,
}
use shieldnet.Data.Frost.{Text, Hex, Address}
use shieldnet.Watcher.Bloom.{Viem, is_in_bloom}
use shieldnet.Watcher.Blocks.{
  BlockUpdate, watcher_update_warp_to_block, watcher_update_uncle_block, watcher_update_new_block,
}

-- An event of the ABI, with its selector by `toEventSelector`.
pub record AbiEvent : Type 0 where
  pub name : ℕ
  pub selector : Hex

pub record Log : Type 0 where
  pub block_number : ℕ
  pub log_index : ℕ
  pub content : ℕ

pub record LogsConfig : Type 0 where
  pub address : List Address
  pub events : List AbiEvent
  pub block_page_size : ℕ
  pub block_single_query_retry_count : ℕ
  pub max_logs_per_query : Option ℕ
  pub fallible_events : List ℕ

pub data BlockRange : Type 0 where
  in_block : Hex → BlockRange
  between : ℕ → ℕ → BlockRange

-- `getLogs` for the watched addresses, in a range, of some events.
abbrev pub Client : Type 0
Client = BlockRange → List AbiEvent → Option (List Log)

-- A query of a block comes with its filter.
pub data LogsQuery : Type 0 where
  of_block : Hex → Text → LogsQuery
  of_range : ℕ → ℕ → LogsQuery

pub data EventStep : Type 0 where
  idle : EventStep
  warping : (from_block to_block page_size : ℕ) → EventStep
  block_step : (block_hash : Hex) (logs_bloom : Text) (retries : ℕ) → EventStep

-- The checks of `#checkForPotentiallyMissedLogs`: whether it throws.
unfoldable pub potentially_missed : LogsConfig → ℕ → Bool
potentially_missed cfg count = elim cfg.max_logs_per_query as (λ _. Bool) [
  | none ↦ false
  | some most ↦ leb most count
]

-- The comparator of `#sortLogs`: whether the first log comes strictly before the second.
unfoldable pub comes_before : Log → Log → Bool
comes_before a b =
    ltb a.block_number b.block_number
    || (a.block_number == b.block_number && ltb a.log_index b.log_index)

unfoldable pub insert_log : Log → List Log → List Log
unfolding comes_before
insert_log a [] = a ∷ []
insert_log a (b ∷ rest) =
    let inserted = insert_log a rest in if comes_before b a then b ∷ inserted else a ∷ b ∷ rest

-- `logs.sort`, which is stable.
unfoldable pub sort_logs : List Log → List Log
unfolding insert_log
sort_logs [] = []
sort_logs (a ∷ rest) = insert_log a (sort_logs rest)

-- A query's range, as the node gets it.
unfoldable pub block_range : LogsQuery → BlockRange
block_range (of_block hash bloom) = in_block hash
block_range (of_range from_block to_block) = between from_block to_block

-- What is left of the logs after the check on their number.
unfoldable pub checked : LogsConfig → Option (List Log) → Option (List Log)
unfolding potentially_missed
checked cfg none = none
checked cfg (some logs) = if potentially_missed cfg (length logs) then none else some logs

unfoldable pub sorted : Option (List Log) → Option (List Log)
unfolding sort_logs
sorted none = none
sorted (some logs) = some (sort_logs logs)

-- The first answer counts; the second is looked at where that is `false`.
unfoldable pub or_else : Option Bool → Option Bool → Option Bool
or_else none later = none
or_else (some true) later = some true
or_else (some false) later = later

unfoldable pub and_then : Option Bool → Option Bool → Option Bool
and_then none later = none
and_then (some true) later = later
and_then (some false) later = some false

-- `xs.flat()` of what `Promise.all` gives: an error where one of them is.
unfoldable pub flat : List (Option (List Log)) → Option (List Log)
flat [] = some []
flat (none ∷ rest) = none
flat (some logs ∷ rest) = elim (flat rest) as (λ _. Option (List Log)) [
  | none ↦ none
  | some more ↦ some (logs ++ more)
]

-- A query is made unless the filter excludes it.
unfoldable pub unless_excluded : Option Bool → Option (List Log) → Option (List Log)
unless_excluded none logs = none
unless_excluded (some false) logs = some []
unless_excluded (some true) logs = logs

-- The logs of an event whose query failed, where they may be dropped. Those that were too many are kept.
unfoldable pub fallible : LogsConfig → AbiEvent → Option (List Log) → Option (List Log)
unfolding potentially_missed
fallible cfg event none = if includes event.name cfg.fallible_events then some [] else none
fallible cfg event (some logs) =
    if potentially_missed cfg (length logs)
    then if includes event.name cfg.fallible_events then some logs else none
    else some logs

module _ (viem : Viem) (cfg : LogsConfig) where
  unfoldable pub are_addresses_in_logs_bloom : Text → List Address → Option Bool
  unfolding or_else
  are_addresses_in_logs_bloom bloom [] = some false
  are_addresses_in_logs_bloom bloom (a ∷ rest) =
      or_else (is_in_bloom viem bloom a) (are_addresses_in_logs_bloom bloom rest)

  unfoldable pub are_events_in_logs_bloom : Text → List AbiEvent → Option Bool
  unfolding or_else
  are_events_in_logs_bloom bloom [] = some false
  are_events_in_logs_bloom bloom (e ∷ rest) =
      or_else (is_in_bloom viem bloom e.selector) (are_events_in_logs_bloom bloom rest)

  unfoldable pub filter_all_events : LogsQuery → Option Bool
  unfolding are_addresses_in_logs_bloom are_events_in_logs_bloom and_then
  filter_all_events (of_range from_block to_block) = some true
  filter_all_events (of_block hash bloom) =
      and_then (are_addresses_in_logs_bloom bloom cfg.address)
        (are_events_in_logs_bloom bloom cfg.events)

  unfoldable pub get_logs_one_query_all_events : Client → LogsQuery → Option (List Log)
  unfolding filter_all_events unless_excluded checked sorted block_range
  get_logs_one_query_all_events client query =
      unless_excluded (filter_all_events query)
        (sorted (checked cfg (client (block_range query) cfg.events)))

  unfoldable pub filter_event : LogsQuery → AbiEvent → Option Bool
  unfolding are_events_in_logs_bloom
  filter_event (of_range from_block to_block) event = some true
  filter_event (of_block hash bloom) event = are_events_in_logs_bloom bloom (event ∷ [])

  unfoldable pub get_logs_of_event : Client → LogsQuery → AbiEvent → Option (List Log)
  unfolding filter_event unless_excluded fallible block_range
  get_logs_of_event client query event =
      unless_excluded (filter_event query event)
        (fallible cfg event (client (block_range query) (event ∷ [])))

  unfoldable pub get_logs_one_query_per_event : Client → LogsQuery → Option (List Log)
  unfolding get_logs_of_event flat sorted
  get_logs_one_query_per_event client query =
      sorted (flat (map (get_logs_of_event client query) cfg.events))

  -- `bmin(toBlock, fromBlock + pageSize - 1n)`, of a page of at least one block.
  unfoldable pub query_to_block : ℕ → ℕ → ℕ → ℕ
  query_to_block from_block to_block page_size =
      let last = from_block + page_size - 1 in if ltb to_block last then to_block else last

  unfoldable pub warp_query : Client → ℕ → ℕ → ℕ → Option (List Log)
  unfolding get_logs_one_query_all_events get_logs_one_query_per_event query_to_block
  warp_query client from_block to_block page_size =
      if ltb 1 page_size
      then get_logs_one_query_all_events client
          (of_range from_block (query_to_block from_block to_block page_size))
      else get_logs_one_query_per_event client (of_range from_block from_block)

  -- The step after a query of `#warp`: past the blocks queried, or with half of the page.
  unfoldable pub step_after_warp : ℕ → ℕ → ℕ → Option (List Log) → EventStep
  unfolding query_to_block
  step_after_warp from_block to_block page_size none =
      warping from_block to_block ((page_size + 1) / 2)
  step_after_warp from_block to_block page_size (some logs) =
      let last = query_to_block from_block to_block page_size in
      if last == to_block then idle else warping (last + 1) to_block cfg.block_page_size

  unfoldable pub block_query : Client → Hex → Text → ℕ → Option (List Log)
  unfolding get_logs_one_query_all_events get_logs_one_query_per_event
  block_query client hash bloom retries =
      if ltb retries cfg.block_single_query_retry_count
      then get_logs_one_query_all_events client (of_block hash bloom)
      else get_logs_one_query_per_event client (of_block hash bloom)

  unfoldable pub step_after_block : Hex → Text → ℕ → Option (List Log) → EventStep
  step_after_block hash bloom retries none = block_step hash bloom (retries + 1)
  step_after_block hash bloom retries (some logs) = idle

  -- `onBlockUpdate`, which throws unless the watcher is idle.
  unfoldable pub on_block_update : EventStep → BlockUpdate → Option EventStep
  on_block_update idle (watcher_update_warp_to_block a b) = some (warping a b cfg.block_page_size)
  on_block_update idle (watcher_update_uncle_block n) = some idle
  on_block_update idle (watcher_update_new_block n hash bloom) = some (block_step hash bloom 0)
  on_block_update _ update = none

  -- `next`: `null` when idle, else the logs or the error of a query, with the step after it.
  unfoldable pub next_logs : Client → EventStep → Option (Option (List Log)) × EventStep
  unfolding warp_query step_after_warp block_query step_after_block
  next_logs client idle = (none, idle)
  next_logs client (warping a b page) =
      let r = warp_query client a b page in (some r, step_after_warp a b page r)
  next_logs client (block_step hash bloom retries) =
      let r = block_query client hash bloom retries in
      (some r, step_after_block hash bloom retries r)
