-- ===== src/Watcher/Updates.antt =====
-- All the updates of the block watcher in validator/src/watcher/blocks.ts, from its start on.
use mathlib.Core.Path.{subst}
use shieldnet.Prelude.{
  ℕ, suc, ◌≤◌, ◌≡◌, refl, inl, inr, List, [], ◌∷◌, map, Option, some, arith, leb, All, Bool-cases,
  if◌then◌else◌,
}
use shieldnet.Watcher.Blocks.{
  BlockConfig, Block, BlockUpdate, watcher_update_warp_to_block, watcher_update_uncle_block, found,
  Moment, BlockWatcher, next_pending_block, new_block_update, safe_block, first_uncle,
  restart_updates, Loaded, loaded, load_failed, still_loading, Created, created, finish_loading,
  start_loading, initialize,
}
use shieldnet.Watcher.Pending.{Next, updated, next_failed, still_waiting, next}
use shieldnet.Watcher.Chain.{IsLinked, no_blocks}
use shieldnet.Watcher.Stream.{
  uncles, warps, Trail, stop, go, IsNumbered, WellKept, KeepsOrder, next-KeepsOrder,
}
use shieldnet.Watcher.Start.{Trail-append, LoadsInOrder, LoadedAll, load_blocks-LoadedAll}

restart_updates-Trail :
    (cfg : BlockConfig) (latest : Block) (last : ℕ)
    → last ≤ latest.number
    → Trail (suc last) (restart_updates cfg latest (some last)) (suc (safe_block cfg latest))
unfolding restart_updates safe_block first_uncle
restart_updates-Trail cfg latest last le =
    Trail-append {mid = first_uncle cfg last}
      (if leb (first_uncle cfg last) last
        then watcher_update_uncle_block (first_uncle cfg last) ∷ []
        else [])
      (if leb (first_uncle cfg last) (safe_block cfg latest)
        then watcher_update_warp_to_block (first_uncle cfg last) (safe_block cfg latest) ∷ []
        else [])
      (elim (Bool-cases (leb (first_uncle cfg last) last)) [
        | inl e ↦ rw e (go (uncles (ground arith)) (stop refl))
        | inr e ↦ rw e (stop (ground arith))
      ])
      (elim (Bool-cases (leb (first_uncle cfg last) (safe_block cfg latest))) [
        | inl e ↦ rw e (go (warps (ground arith)) (stop refl))
        | inr e ↦ rw e (stop (ground arith))
      ])

-- What `create` leaves keeps the order from any block on that leads to the one after the safe one.
abbrev StartsFrom : BlockConfig → ℕ → Created → Type 0
StartsFrom cfg due (created w) = WellKept cfg due w
StartsFrom cfg due _ = Unit

finish_loading-StartsFrom :
    (cfg : BlockConfig) (latest : Block) (last : Option ℕ) (due : ℕ) (l : Loaded)
    → Trail due (restart_updates cfg latest last) (suc (safe_block cfg latest))
    → LoadedAll (safe_block cfg latest) latest.number l
    → StartsFrom cfg due (finish_loading cfg latest last l)
unfolding finish_loading next_pending_block safe_block
finish_loading-StartsFrom cfg latest last due (loaded bs) p (k, q, e) = record {
  path =
      subst (Trail due _) (omega arith)
        (Trail-append (restart_updates cfg latest last) (map new_block_update bs) p q);
  linked = subst (λ n. IsLinked n bs) (omega arith) k;
  bounded = omega (arith, e);
}
finish_loading-StartsFrom cfg latest last due (load_failed e) p k = tt
finish_loading-StartsFrom cfg latest last due still_loading p k = tt

start_loading-LoadsInOrder :
    (cfg : BlockConfig) (latest : Block)
    → LoadsInOrder (safe_block cfg latest) latest.number (start_loading cfg latest)
unfolding start_loading safe_block
start_loading-LoadsInOrder cfg latest = record {
  linked = no_blocks;
  path = stop (omega arith);
  count = omega arith;
  tip = refl;
  cached = refl;
  within = omega arith;
}

-- The updates of successive calls of `next`: one that throws gives none, and after one that never
-- settles there are no others.
abbrev after_call :
    Next → (BlockWatcher → List BlockUpdate × BlockWatcher) → List BlockUpdate × BlockWatcher
after_call (updated u w) later = (u ∷ (later w).0, (later w).1)
after_call (next_failed e w) later = later w
after_call (still_waiting w) later = ([], w)

unfoldable pub take_updates :
    BlockConfig → BlockWatcher → List (List Moment) → List BlockUpdate × BlockWatcher
take_updates cfg w [] = ([], w)
take_updates cfg w (ms ∷ calls) = after_call (next cfg w ms) (λ v. take_updates cfg v calls)

abbrev IsOrdered : BlockConfig → ℕ → List BlockUpdate × BlockWatcher → Type 0
IsOrdered cfg due r = (end : ℕ) × (Trail due r.0 end) × WellKept cfg end r.1

after_call-IsOrdered :
    (cfg : BlockConfig) (due : ℕ) (n : Next)
    (later : BlockWatcher → List BlockUpdate × BlockWatcher)
    → KeepsOrder cfg due n
    → ((d : ℕ) (w : BlockWatcher) → WellKept cfg d w → IsOrdered cfg d (later w))
    → IsOrdered cfg due (after_call n later)
after_call-IsOrdered cfg due (updated u w) later (mid, f, k) h =
    let r = h mid w k in (r.0, go f r.1, r.2)
after_call-IsOrdered cfg due (next_failed e w) later k h = h due w k
after_call-IsOrdered cfg due (still_waiting w) later k h = (due, stop refl, k)

take_updates-IsOrdered :
    (cfg : BlockConfig) (due : ℕ) (w : BlockWatcher) (calls : List (List Moment))
    → WellKept cfg due w
    → All (All IsNumbered) calls
    → IsOrdered cfg due (take_updates cfg w calls)
unfolding take_updates
take_updates-IsOrdered cfg due w [] k h = (due, stop refl, k)
take_updates-IsOrdered cfg due w (ms ∷ calls) k (h, hs) =
    after_call-IsOrdered cfg due (next cfg w ms) _ (next-KeepsOrder cfg due w ms k h)
      (λ d v k. take_updates-IsOrdered cfg d v calls k hs)

-- When the node answers every query for a block with a block of that number, and the latest
-- block at the start is not before the last indexed one, then the updates of the block watcher,
-- from its start on and over any calls of `next`, failed ones included, follow each other: each
-- new block and each warp starts at the block after those indexed so far, and each uncled block
-- was indexed. Afterwards the watcher keeps a chain of blocks by parent hash, no more than the
-- depth of a reorganisation, that ends before its pending block, to which its queue leads.
pub initialize-Trail :
    (cfg : BlockConfig) (last : ℕ) (m : Moment) (ms : List Moment) (latest : Block)
    (w : BlockWatcher) (calls : List (List Moment))
    → m.latest ≡ found latest
    → last ≤ latest.number
    → All IsNumbered ms
    → All (All IsNumbered) calls
    → initialize cfg (some last) (m ∷ ms) ≡ created w
    → (end : ℕ) × (Trail (suc last) (take_updates cfg w calls).0 end)
      × WellKept cfg end (take_updates cfg w calls).1
unfolding initialize
initialize-Trail cfg last m ms latest w calls e le h hs i =
    take_updates-IsOrdered cfg (suc last) w calls
      (subst (StartsFrom cfg (suc last)) (rw e at i) (
        finish_loading-StartsFrom cfg latest (some last) (suc last) _
          (restart_updates-Trail cfg latest last le)
          (load_blocks-LoadedAll (safe_block cfg latest) latest.number (start_loading cfg latest) ms
            (start_loading-LoadsInOrder cfg latest) h)))
      hs
