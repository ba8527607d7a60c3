-- ===== src/Watcher/Start.antt =====
-- The start of the block watcher in validator/src/watcher/blocks.ts, and the updates from there on.
use mathlib.Core.Path.{subst}
use shieldnet.Prelude.{
  ℕ, suc, ◌+◌, ◌≤◌, ◌≡◌, refl, sym, ap, ◌∙◌, ◌⊎◌, inl, inr, List, [], ◌∷◌, ◌++◌, map, Option, none,
  some, true, false, arith, ◌==◌, leb, length, All, Bool-cases, ==_iff, leb→le, length-append,
}
use shieldnet.Data.Frost.{Hex}
use shieldnet.Watcher.Blocks.{
  reuse_block, Block, BlockUpdate, Answer, found, missing, failed, Moment, new_block_update,
  Loading, extends, add_loaded, reuse_latest, Loaded, loaded, load_blocks,
}
use shieldnet.Watcher.Pending.{last_block}
use shieldnet.Watcher.Chain.{IsLinked, no_blocks, IsLinked-append}
use shieldnet.Watcher.Stream.{indexes, Trail, stop, go, HasNumber, IsNumbered}

pub Trail-append :
    {due mid end : ℕ} (us vs : List BlockUpdate)
    → Trail due us mid
    → Trail mid vs end
    → Trail due (us ++ vs) end
Trail-append {end = end} [] vs (stop e) p = subst (λ n. Trail n vs end) (sym e) p
Trail-append (u ∷ us) vs (go f k) p = go f (Trail-append us vs k p)

-- `parentHash` is the hash of the last block so far.
abbrev pub Tip : Option Hex → List Block → Type 0
Tip none bs = bs ≡ []
Tip (some hash) bs = (l : Block) × (last_block bs ≡ some l) × (l.hash ≡ hash)

-- `previouslyQueriedLatest` is the latest block, or forgotten.
abbrev pub Cached : ℕ → Option Block → Type 0
Cached last none = Unit
Cached last (some b) = b.number ≡ last

-- The loop over the recent blocks, from the one after `safe`.
pub record LoadsInOrder (safe last : ℕ) (l : Loading) : Type 0 where
  pub linked : IsLinked l.block_number l.blocks
  pub path : Trail (suc safe) (map new_block_update l.blocks) l.block_number
  pub count : length l.blocks + suc safe ≡ l.block_number
  pub tip : Tip l.parent_hash l.blocks
  pub cached : Cached last l.previously_queried_latest
  pub within : l.block_number ≤ suc last

last_block-append : (bs : List Block) (b : Block) → last_block (bs ++ b ∷ []) ≡ some b
unfolding last_block
last_block-append [] b = refl
last_block-append (c ∷ []) b = refl
last_block-append (c ∷ d ∷ rest) b = last_block-append (d ∷ rest) b

map-append :
    (bs : List Block) (b : Block)
    → map new_block_update (bs ++ b ∷ []) ≡ map new_block_update bs ++ new_block_update b ∷ []
map-append [] b = refl
map-append (c ∷ bs) b = ap (λ t. new_block_update c ∷ t) (map-append bs b)

Tip-extends :
    (h : Option Hex) (bs : List Block) (b : Block)
    → Tip h bs
    → extends h b ≡ true
    → (last_block bs ≡ none) ⊎ ((l : Block) × (last_block bs ≡ some l) × (l.hash ≡ b.parent_hash))
unfolding extends last_block
Tip-extends none bs b t e = inl (rw t refl)
Tip-extends (some h) bs b (l, o, k) e = inr (l, o, k ∙ (==_iff _ _).0 e)

add_loaded-LoadsInOrder :
    (safe last : ℕ) (b : Block) (l : Loading)
    → LoadsInOrder safe last l
    → b.number ≡ l.block_number
    → l.block_number ≤ last
    → LoadsInOrder safe last (add_loaded safe b l)
unfolding add_loaded new_block_update
add_loaded-LoadsInOrder safe last b l k e le = elim (Bool-cases (extends l.parent_hash b)) [
  | inl x ↦ rw x (record {
    linked = IsLinked-append l.blocks b k.linked e (Tip-extends l.parent_hash l.blocks b k.tip x);
    path =
        subst (λ us. Trail (suc safe) us (l.block_number + 1)) (sym (map-append l.blocks b))
          (Trail-append (map new_block_update l.blocks) (new_block_update b ∷ []) k.path
            (go (indexes e) (stop (omega (arith, e)))));
    count = omega (arith, k.count, length-append l.blocks (b ∷ []));
    tip = (b, last_block-append l.blocks b, refl);
    cached = k.cached;
    within = omega arith;
  })
  | inr x ↦ rw x (record {
    linked = no_blocks;
    path = stop (omega arith);
    count = omega arith;
    tip = refl;
    cached = tt;
    within = omega (arith, k.count);
  })
]

reuse_block-LoadsInOrder :
    (safe last : ℕ) (l : Loading) (o : Option Block)
    → LoadsInOrder safe last l
    → Cached last o
    → LoadsInOrder safe last (reuse_block safe l o)
unfolding reuse_block
reuse_block-LoadsInOrder safe last l none k c = k
reuse_block-LoadsInOrder safe last l (some b) k c = elim (Bool-cases (b.number == l.block_number)) [
  | inl t ↦ rw t (
      add_loaded-LoadsInOrder safe last b l k ((==_iff _ _).0 t)
        (omega (arith, c, (==_iff _ _).0 t)))
  | inr t ↦ rw t k
]

reuse_latest-LoadsInOrder :
    (safe last : ℕ) (l : Loading)
    → LoadsInOrder safe last l
    → LoadsInOrder safe last (reuse_latest safe l)
unfolding reuse_latest
reuse_latest-LoadsInOrder safe last l k = reuse_block-LoadsInOrder safe last l _ k k.cached

Answer-cases :
    (a : Answer) → ((b : Block) × (a ≡ found b)) ⊎ ((a ≡ missing) ⊎ ((e : ℕ) × (a ≡ failed e)))
Answer-cases (found b) = inl (b, refl)
Answer-cases missing = inr (inl refl)
Answer-cases (failed e) = inr (inr (e, refl))

-- The loop ends with blocks from the one after `safe` to the last.
abbrev pub LoadedAll : ℕ → ℕ → Loaded → Type 0
LoadedAll safe last (loaded bs) =
    (IsLinked (suc last) bs)
    × (Trail (suc safe) (map new_block_update bs) (suc last))
    × (length bs + safe ≡ last)
LoadedAll safe last _ = Unit

LoadsInOrder-LoadedAll :
    (safe last : ℕ) (l : Loading)
    → LoadsInOrder safe last l
    → leb l.block_number last ≡ false
    → LoadedAll safe last (loaded l.blocks)
LoadsInOrder-LoadedAll safe last l k e =
    let n : l.block_number ≡ suc last = ground (arith, k.within) in
    (
      subst (λ x. IsLinked x l.blocks) n k.linked,
      subst (λ x. Trail (suc safe) (map new_block_update l.blocks) x) n k.path,
      omega (arith, k.count, n),
    )

pub load_blocks-LoadedAll :
    (safe last : ℕ) (l : Loading) (ms : List Moment)
    → LoadsInOrder safe last l
    → All IsNumbered ms
    → LoadedAll safe last (load_blocks safe last l ms)
unfolding load_blocks
load_blocks-LoadedAll safe last l [] k h =
    elim (Bool-cases (leb (reuse_latest safe l).block_number last)) [
      | inl e ↦ rw e tt
      | inr e ↦
          rw e (LoadsInOrder-LoadedAll safe last _ (reuse_latest-LoadsInOrder safe last l k) e)
    ]
load_blocks-LoadedAll safe last l (m ∷ ms) k (h, hs) =
    let here = reuse_latest safe l in
    let o = reuse_latest-LoadsInOrder safe last l k in
    elim (Bool-cases (leb here.block_number last)) [
      | inr e ↦ rw e (LoadsInOrder-LoadedAll safe last here o e)
      | inl e ↦ elim (Answer-cases (m.block_at here.block_number)) [
        | inl (b, a) ↦ rw e (
            rw a (
              load_blocks-LoadedAll safe last (add_loaded safe b here) ms
                (add_loaded-LoadsInOrder safe last b here o
                  (subst (HasNumber here.block_number) a (h here.block_number)) (leb→le _ _ e))
                hs))
        | inr (inl a) ↦ rw e (rw a tt)
        | inr (inr (x, a)) ↦ rw e (rw a tt)
      ]
    ]
