-- ===== src/Watcher/Chain.antt =====
-- The blocks that the block watcher keeps: a chain by parent hashes, ending right before a number.
use shieldnet.Prelude.{
  ℕ, suc, ◌+◌, ◌≤◌, ◌≡◌, ◌⊎◌, inl, inr, List, [], ◌∷◌, ◌++◌, none, some, arith, ltb, length,
  Bool-cases,
}
use shieldnet.Watcher.Blocks.{Block}
use shieldnet.Watcher.Pending.{last_block, drop_last, shift_to}

-- Each block's parent is the block before it, and the last block's number is the one before `end`.
pub data IsLinked (end : ℕ) : List Block → Type 0 where
  no_blocks : IsLinked end []
  one_block : (b : Block) → b.number + 1 ≡ end → IsLinked end (b ∷ [])
  link :
      (b c : Block) (rest : List Block)
      → b.hash ≡ c.parent_hash
      → b.number + 1 ≡ c.number
      → IsLinked end (c ∷ rest)
      → IsLinked end (b ∷ c ∷ rest)

pub IsLinked-tail :
    {end : ℕ} (b : Block) (rest : List Block) → IsLinked end (b ∷ rest) → IsLinked end rest
IsLinked-tail b [] h = no_blocks
IsLinked-tail b (c ∷ rest) (link _ _ _ p q h) = h

pub IsLinked-shift_to :
    {end : ℕ} (d : ℕ) (bs : List Block) → IsLinked end bs → IsLinked end (shift_to d bs)
unfolding shift_to
IsLinked-shift_to d [] h = h
IsLinked-shift_to d (b ∷ rest) h = elim (Bool-cases (ltb d (suc (length rest)))) [
  | inl e ↦ rw e (IsLinked-shift_to d rest (IsLinked-tail b rest h))
  | inr e ↦ rw e h
]

pub length-shift_to : (d : ℕ) (bs : List Block) → length (shift_to d bs) ≤ d
unfolding shift_to
length-shift_to d [] = omega arith
length-shift_to d (b ∷ rest) = ground (arith, length-shift_to d rest)

-- The last of the linked blocks.
pub IsLinked-last_block :
    {end : ℕ} (bs : List Block) (l : Block)
    → IsLinked end bs
    → last_block bs ≡ some l
    → l.number + 1 ≡ end
unfolding last_block
IsLinked-last_block (b ∷ []) l (one_block _ e) h = ground arith
IsLinked-last_block (b ∷ c ∷ rest) l (link _ _ _ p q k) h = IsLinked-last_block (c ∷ rest) l k h
IsLinked-last_block [] l n h = absurd (ground arith)

pub length-drop_last : (bs : List Block) → length (drop_last bs) ≤ length bs
unfolding drop_last
length-drop_last [] = omega arith
length-drop_last (b ∷ []) = omega arith
length-drop_last (b ∷ c ∷ rest) = omega (arith, length-drop_last (c ∷ rest))

pub IsLinked-drop_last :
    {end : ℕ} (bs : List Block) (l : Block)
    → IsLinked end bs
    → last_block bs ≡ some l
    → IsLinked l.number (drop_last bs)
unfolding last_block drop_last
IsLinked-drop_last (b ∷ []) l k h = no_blocks
IsLinked-drop_last (b ∷ c ∷ []) l (link _ _ _ p q k) h = one_block b (ground arith)
IsLinked-drop_last (b ∷ c ∷ d ∷ rest) l (link _ _ _ p q k) h =
    link b c (drop_last (d ∷ rest)) p q (IsLinked-drop_last (c ∷ d ∷ rest) l k h)
IsLinked-drop_last [] l n h = no_blocks

-- A block appended to its parent, or to no blocks.
pub IsLinked-append :
    {end : ℕ} (bs : List Block) (b : Block)
    → IsLinked end bs
    → b.number ≡ end
    → (last_block bs ≡ none) ⊎ ((l : Block) × (last_block bs ≡ some l) × (l.hash ≡ b.parent_hash))
    → IsLinked (end + 1) (bs ++ (b ∷ []))
unfolding last_block
IsLinked-append [] b h e o = one_block b (omega arith)
IsLinked-append (c ∷ []) b (one_block _ q) e (inl n) = absurd (ground arith)
IsLinked-append (c ∷ []) b (one_block _ q) e (inr (l, i, p)) =
    link c b [] (ground arith) (omega arith) (one_block b (omega arith))
IsLinked-append (c ∷ d ∷ rest) b (link _ _ _ p q k) e o =
    link c d (rest ++ b ∷ []) p q (IsLinked-append (d ∷ rest) b k e o)
