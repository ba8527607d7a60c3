-- ===== src/Watcher/Sorting.antt =====
-- The order of logs in validator/src/watcher/events.ts.
use mathlib.Core.List.{Perm}
use mathlib.Core.List.Perm
use shieldnet.Prelude.{◌≤◌, ◌<◌, ◌≡◌, ◌⊎◌, inl, inr, List, [], ◌∷◌, true, false, arith, Bool-cases}
use shieldnet.Watcher.Logs.{Log, comes_before, insert_log, sort_logs}

pub insert_log-Perm : (a : Log) (l : List Log) → Perm (insert_log a l) (a ∷ l)
unfolding insert_log
insert_log-Perm a [] = Perm.refl _
insert_log-Perm a (b ∷ rest) = elim (Bool-cases (comes_before b a)) [
  | inl e ↦ rw e (Perm.trans (Perm.cons b (insert_log-Perm a rest)) (Perm.swap a b rest))
  | inr e ↦ rw e (Perm.refl _)
]

pub sort_logs-Perm : (l : List Log) → Perm (sort_logs l) l
unfolding sort_logs
sort_logs-Perm [] = Perm.refl _
sort_logs-Perm (a ∷ rest) =
    Perm.trans (insert_log-Perm a (sort_logs rest)) (Perm.cons a (sort_logs-Perm rest))

-- The order of the comparator: by block, then by index.
abbrev pub ComesInOrder : Log → Log → Type 0
ComesInOrder a b =
    (a.block_number < b.block_number)
    ⊎ ((a.block_number ≡ b.block_number) × (a.log_index ≤ b.log_index))

pub data IsSorted : List Log → Type 0 where
  no_logs : IsSorted []
  one_log : (a : Log) → IsSorted (a ∷ [])
  in_order :
      (a b : Log) (rest : List Log)
      → ComesInOrder a b
      → IsSorted (b ∷ rest)
      → IsSorted (a ∷ b ∷ rest)

comes_before-or : (a b : Log) → comes_before b a ≡ false → ComesInOrder a b
unfolding comes_before
comes_before-or a b e = ground arith

comes_before-order : (a b : Log) → comes_before a b ≡ true → ComesInOrder a b
unfolding comes_before
comes_before-order a b e = ground arith

-- Before an inserted log stands a log that comes before it and before the others.
cons-insert_log :
    (b a : Log) (l : List Log)
    → ComesInOrder b a
    → IsSorted (b ∷ l)
    → IsSorted (insert_log a l)
    → IsSorted (b ∷ insert_log a l)
unfolding insert_log
cons-insert_log b a [] o h k = in_order b a [] o k
cons-insert_log b a (c ∷ rest) o (in_order _ _ _ p h) k = elim (Bool-cases (comes_before c a)) [
  | inl e ↦ rw e (in_order b c (insert_log a rest) p (rw e at k))
  | inr e ↦ rw e (in_order b a (c ∷ rest) o (rw e at k))
]

IsSorted-tail : (b : Log) (rest : List Log) → IsSorted (b ∷ rest) → IsSorted rest
IsSorted-tail b [] h = no_logs
IsSorted-tail b (c ∷ rest) (in_order _ _ _ p h) = h

insert_log-IsSorted : (a : Log) (l : List Log) → IsSorted l → IsSorted (insert_log a l)
unfolding insert_log
insert_log-IsSorted a [] h = one_log a
insert_log-IsSorted a (b ∷ rest) h = elim (Bool-cases (comes_before b a)) [
  | inl e ↦ rw e (
      cons-insert_log b a rest (comes_before-order b a e) h
        (insert_log-IsSorted a rest (IsSorted-tail b rest h)))
  | inr e ↦ rw e (in_order a b rest (comes_before-or a b e) h)
]

-- Sorted logs are in the order of their blocks, and of their indices in a block.
pub sort_logs-IsSorted : (l : List Log) → IsSorted (sort_logs l)
unfolding sort_logs
sort_logs-IsSorted [] = no_logs
sort_logs-IsSorted (a ∷ rest) = insert_log-IsSorted a (sort_logs rest) (sort_logs-IsSorted rest)
