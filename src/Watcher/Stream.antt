-- ===== src/Watcher/Stream.antt =====
-- The order of the updates of validator/src/watcher/blocks.ts: `next` keeps it.
use mathlib.Core.Path.{subst}
use shieldnet.Prelude.{
  ℕ, suc, ◌+◌, ◌≤◌, ◌<◌, ◌≡◌, refl, sym, ap, ◌∙◌, ◌⊎◌, inl, inr, List, [], ◌∷◌, ◌++◌, Option, none,
  some, arith, ◌==◌, length, All, Bool-cases, ==_iff,
}
use shieldnet.Data.Frost.{Text, Hex}
use shieldnet.Watcher.Blocks.{
  BlockConfig, Block, BlockUpdate, watcher_update_warp_to_block, watcher_update_uncle_block,
  watcher_update_new_block, PendingBlock, Answer, found, missing, failed, Moment, BlockWatcher,
  next_pending_block, new_block_update,
}
use shieldnet.Watcher.Pending.{
  Fetch, fetch_pending, after_missing, Next, updated, next_failed, still_waiting, last_block,
  uncle_last, append_block, settle_block, settle_fetch, settle_answer, next,
}
use shieldnet.Watcher.Chain.{
  IsLinked, IsLinked-shift_to, IsLinked-drop_last, IsLinked-append, IsLinked-last_block,
  length-shift_to, length-drop_last,
}

-- An update is due when the next block to index has number `due`: a warp starts there, an uncle is
-- an indexed block, and a new block is the due one.
pub data Follows : ℕ → BlockUpdate → ℕ → Type 0 where
  warps : {due to : ℕ} → due ≤ to → Follows due (watcher_update_warp_to_block due to) (suc to)
  uncles : {due n : ℕ} → n < due → Follows due (watcher_update_uncle_block n) n
  indexes :
      {due n : ℕ} {hash : Hex} {bloom : Text}
      → n ≡ due
      → Follows due (watcher_update_new_block n hash bloom) (n + 1)

pub data Trail : ℕ → List BlockUpdate → ℕ → Type 0 where
  stop : {due end : ℕ} → due ≡ end → Trail due [] end
  go :
      {due mid end : ℕ} {update : BlockUpdate} {rest : List BlockUpdate}
      → Follows due update mid
      → Trail mid rest end
      → Trail due (update ∷ rest) end

at_end : {due end : ℕ} → Trail due [] end → due ≡ end
at_end (stop e) = e

first_step :
    {due end : ℕ} {u : BlockUpdate} {rest : List BlockUpdate}
    → Trail due (u ∷ rest) end
    → (mid : ℕ) × (Follows due u mid) × Trail mid rest end
first_step (go {mid = mid} f p) = (mid, f, p)

-- The documented behaviour of `getBlock`: the block that it finds has the number asked for.
abbrev pub HasNumber : ℕ → Answer → Type 0
HasNumber n (found block) = block.number ≡ n
HasNumber n _ = Unit

abbrev pub IsNumbered : Moment → Type 0
IsNumbered m = (n : ℕ) → HasNumber n (m.block_at n)

-- The watcher when block `due` is the next: its queue leads to the pending block, before which the
-- kept blocks end, and of these there are not too many.
pub record WellKept (cfg : BlockConfig) (due : ℕ) (w : BlockWatcher) : Type 0 where
  pub path : Trail due w.queue w.pending.number
  pub linked : IsLinked w.pending.number w.blocks
  pub bounded : length w.blocks ≤ cfg.max_reorg_depth

abbrev pub KeepsOrder : BlockConfig → ℕ → Next → Type 0
KeepsOrder cfg due (updated update w) = (end : ℕ) × (Follows due update end) × WellKept cfg end w
KeepsOrder cfg due (next_failed e w) = WellKept cfg due w
KeepsOrder cfg due (still_waiting w) = WellKept cfg due w

module _ (cfg : BlockConfig) where
  after_missing-number : (k : ℕ) (p : PendingBlock) → (after_missing cfg k p).0.number ≡ p.number
  unfolding after_missing
  after_missing-number k p = ground arith

  settle_answer-number :
      (p : PendingBlock) (a : Answer) (s t : List ℕ) (rest : Fetch)
      → HasNumber p.number a
      → rest.pending.number ≡ p.number
      → HasNumber p.number rest.answer
      → ((settle_answer p s t rest a).pending.number ≡ p.number)
        × HasNumber p.number (settle_answer p s t rest a).answer
  unfolding settle_answer
  settle_answer-number p (found b) s t rest h e k = (refl, h)
  settle_answer-number p missing s t rest h e k = (e, k)
  settle_answer-number p (failed x) s t rest h e k = (refl, tt)

  fetch_pending-number :
      (k : ℕ) (p : PendingBlock) (ms : List Moment)
      → All IsNumbered ms
      → ((fetch_pending cfg k p ms).pending.number ≡ p.number)
        × HasNumber p.number (fetch_pending cfg k p ms).answer
  unfolding fetch_pending
  fetch_pending-number k p [] h = (refl, tt)
  fetch_pending-number k p (m ∷ ms) (h, hs) =
      let rest = fetch_pending-number (suc k) (after_missing cfg k p).0 ms hs in
      settle_answer-number p (m.block_at p.number) _ _ _ (h p.number)
        (rest.0 ∙ after_missing-number k p)
        (subst (λ n. HasNumber n (fetch_pending cfg (suc k) (after_missing cfg k p).0 ms).answer)
          (after_missing-number k p) rest.1)

  append_block-WellKept :
      (block : Block) (w : BlockWatcher)
      → w.queue ≡ []
      → IsLinked w.pending.number w.blocks
      → block.number ≡ w.pending.number
      → (last_block w.blocks ≡ none)
        ⊎ ((l : Block) × (last_block w.blocks ≡ some l) × (l.hash ≡ block.parent_hash))
      → KeepsOrder cfg w.pending.number (append_block cfg block w)
  unfolding append_block new_block_update next_pending_block
  append_block-WellKept block w q h e o = (
    block.number + 1,
    indexes e,
    record {
      path = rw q (stop refl);
      linked = IsLinked-shift_to cfg.max_reorg_depth (w.blocks ++ block ∷ []) (
          subst (λ n. IsLinked n (w.blocks ++ block ∷ [])) (ap (λ n. n + 1) (sym e))
            (IsLinked-append w.blocks block h e o));
      bounded = length-shift_to _ _;
    },
  )

  uncle_last-WellKept :
      (l : Block) (w : BlockWatcher)
      → w.queue ≡ []
      → IsLinked w.pending.number w.blocks
      → length w.blocks ≤ cfg.max_reorg_depth
      → last_block w.blocks ≡ some l
      → KeepsOrder cfg w.pending.number (uncle_last l w)
  unfolding uncle_last
  uncle_last-WellKept l w q h b o = (
    l.number,
    uncles (omega (arith, IsLinked-last_block w.blocks l h o)),
    record {
      path = rw q (stop refl);
      linked = IsLinked-drop_last w.blocks l h o;
      bounded = omega (arith, b, length-drop_last w.blocks);
    },
  )

  settle_block-WellKept :
      (block : Block) (w : BlockWatcher) (o : Option Block)
      → last_block w.blocks ≡ o
      → w.queue ≡ []
      → IsLinked w.pending.number w.blocks
      → length w.blocks ≤ cfg.max_reorg_depth
      → block.number ≡ w.pending.number
      → KeepsOrder cfg w.pending.number (settle_block cfg block w o)
  unfolding settle_block
  settle_block-WellKept block w none o q h b e = append_block-WellKept block w q h e (inl o)
  settle_block-WellKept block w (some l) o q h b e =
      elim (Bool-cases (l.hash == block.parent_hash)) [
        | inl t ↦ rw t (append_block-WellKept block w q h e (inr (l, o, (==_iff _ _).0 t)))
        | inr t ↦ rw t (uncle_last-WellKept l w q h b o)
      ]

  settle_fetch-WellKept :
      (a : Answer) (w : BlockWatcher)
      → w.queue ≡ []
      → IsLinked w.pending.number w.blocks
      → length w.blocks ≤ cfg.max_reorg_depth
      → HasNumber w.pending.number a
      → KeepsOrder cfg w.pending.number (settle_fetch cfg w a)
  unfolding settle_fetch
  settle_fetch-WellKept (found block) w q h b e = settle_block-WellKept block w _ refl q h b e
  settle_fetch-WellKept missing w q h b e = record {
    path = rw q (stop refl);
    linked = h;
    bounded = b;
  }
  settle_fetch-WellKept (failed x) w q h b e = record {
    path = rw q (stop refl);
    linked = h;
    bounded = b;
  }

  next_from :
      (due : ℕ) (p : PendingBlock) (bs : List Block) (q : List BlockUpdate) (ms : List Moment)
      → WellKept cfg due (record { pending = p; blocks = bs; queue = q })
      → All IsNumbered ms
      → KeepsOrder cfg due (next cfg (record { pending = p; blocks = bs; queue = q }) ms)
  unfolding next
  next_from due p bs [] ms k h =
      let f = fetch_pending-number 0 p ms h in
      let e = at_end k.path in
      subst (λ n. KeepsOrder cfg n (next cfg (record { pending = p; blocks = bs; queue = [] }) ms))
        (f.0 ∙ sym e)
        (settle_fetch-WellKept (fetch_pending cfg 0 p ms).answer
          (record { pending = (fetch_pending cfg 0 p ms).pending; blocks = bs; queue = [] }) refl
          (subst (λ n. IsLinked n bs) (sym f.0) k.linked) k.bounded
          (subst (λ n. HasNumber n (fetch_pending cfg 0 p ms).answer) (sym f.0) f.1))
  next_from due p bs (u ∷ rest) ms k h =
      let t = first_step k.path in
      (t.0, t.1, record { path = t.2; linked = k.linked; bounded = k.bounded })

  -- One call of `next` keeps the order of the updates.
  pub next-KeepsOrder :
      (due : ℕ) (w : BlockWatcher) (ms : List Moment)
      → WellKept cfg due w
      → All IsNumbered ms
      → KeepsOrder cfg due (next cfg w ms)
  next-KeepsOrder due w ms k h = next_from due w.pending w.blocks w.queue ms k h
