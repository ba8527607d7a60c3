-- ===== src/Watcher/Waiting.antt =====
-- The wait for the pending block in validator/src/watcher/blocks.ts.
use shieldnet.Prelude.{
  ap, inl, inr, ◌∙◌, ◌==◌, Bool-cases, ℕ, suc, ◌≡◌, refl, List, [], ◌∷◌, ◌++◌, Option, none, some,
  arith, All,
}
use shieldnet.Watcher.Blocks.{
  BlockConfig, Block, BlockUpdate, PendingBlock, found, missing, Moment, BlockWatcher,
}
use shieldnet.Watcher.Pending.{
  fetch_pending, settle_answer, after_missing, updated, settle_block, settle_fetch, next,
  uncle_last, append_block,
}

abbrev pub IsMissing : ℕ → Moment → Type 0
IsMissing n m = m.block_at n ≡ missing

settle_block-updated :
    (cfg : BlockConfig) (b : Block) (w : BlockWatcher) (o : Option Block)
    → (u : BlockUpdate) × (v : BlockWatcher) × (settle_block cfg b w o ≡ updated u v)
unfolding settle_block uncle_last append_block
settle_block-updated cfg b w none = (_, _, refl)
settle_block-updated cfg b w (some l) = elim (Bool-cases (l.hash == b.parent_hash)) [
  | inl e ↦ rw e (_, _, refl)
  | inr e ↦ rw e (_, _, refl)
]

after_missing-number :
    (cfg : BlockConfig) (k : ℕ) (p : PendingBlock) → (after_missing cfg k p).0.number ≡ p.number
unfolding after_missing
after_missing-number cfg k p = ground arith

fetch_pending-found :
    (cfg : BlockConfig) (n k : ℕ) (p : PendingBlock) (before after : List Moment) (m : Moment)
    (b : Block)
    → p.number ≡ n
    → All (IsMissing n) before
    → m.block_at n ≡ found b
    → (fetch_pending cfg k p (before ++ m ∷ after)).answer ≡ found b
unfolding fetch_pending settle_answer
fetch_pending-found cfg n k p [] after m b q h e =
    let a : m.block_at p.number ≡ found b = ap m.block_at q ∙ e in rw a refl
fetch_pending-found cfg n k p (x ∷ before) after m b q (h, hs) e =
    let a : x.block_at p.number ≡ missing = ap x.block_at q ∙ h in
    rw a (
      fetch_pending-found cfg n (suc k) (after_missing cfg k p).0 before after m b
        (after_missing-number cfg k p ∙ q) hs e)

-- With an empty queue, `next` gives an update once the node has the pending block, however often
-- the node did not have it before.
pub next-found :
    (cfg : BlockConfig) (p : PendingBlock) (bs : List Block) (before after : List Moment)
    (m : Moment) (b : Block)
    → All (IsMissing p.number) before
    → m.block_at p.number ≡ found b
    → (u : BlockUpdate) × (v : BlockWatcher) × (next cfg
          (record { pending = p; blocks = bs; queue = [] })
          (before ++ m ∷ after)
        ≡ updated u v)
unfolding next settle_fetch
next-found cfg p bs before after m b h e =
    rw (fetch_pending-found cfg p.number 0 p before after m b refl h e) (
      settle_block-updated cfg b
        (record {
          pending = (fetch_pending cfg 0 p (before ++ m ∷ after)).pending;
          blocks = bs;
          queue = [];
        })
        _)
