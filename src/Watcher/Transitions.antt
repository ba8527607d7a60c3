-- ===== src/Watcher/Transitions.antt =====
-- validator/src/machine/transitions/watcher.ts: the transitions that are passed on, in order.
use shieldnet.Prelude.{
  ap, ℕ, ◌≤◌, ◌≡◌, refl, inl, inr, List, [], ◌∷◌, ◌++◌, Option, none, some, Bool, true, false,
  arith, leb, leb→le, Bool-cases, if◌then◌else◌,
}
use shieldnet.Data.Event.{StateTransition, block_new, event_at}

abbrev pub transition_block : StateTransition → ℕ
transition_block (block_new n) = n
transition_block (event_at t) = t.block

-- `updateLastIndexedBlock` on the row of the chain: whether it changed, and the row.
unfoldable pub update_last_indexed_block : ℕ → Option ℕ → Bool × Option ℕ
update_last_indexed_block block none = (true, some block)
update_last_indexed_block block (some last) =
    if leb last block then (true, some block) else (false, some last)

-- `handleTransition`: the transition is passed on, or dropped when it is out of order.
unfoldable pub handle_transition : StateTransition → Option ℕ → List StateTransition × Option ℕ
unfolding update_last_indexed_block
handle_transition t last =
    let r = update_last_indexed_block (transition_block t) last in (if r.0 then t ∷ [] else [], r.1)

unfoldable pub handle_transitions :
    List StateTransition → Option ℕ → List StateTransition × Option ℕ
unfolding handle_transition
handle_transitions [] last = ([], last)
handle_transitions (t ∷ rest) last =
    let here = handle_transition t last in
    let later = handle_transitions rest here.1 in (here.0 ++ later.0, later.1)

-- Transitions whose blocks do not fall, from a block on to a last one.
pub data Ascends : Option ℕ → List StateTransition → Option ℕ → Type 0 where
  no_transitions : {last : Option ℕ} → Ascends last [] last
  first_transition :
      {end : Option ℕ} (t : StateTransition) (rest : List StateTransition)
      → Ascends (some (transition_block t)) rest end
      → Ascends none (t ∷ rest) end
  next_transition :
      {last : ℕ} {end : Option ℕ} (t : StateTransition) (rest : List StateTransition)
      → last ≤ transition_block t
      → Ascends (some (transition_block t)) rest end
      → Ascends (some last) (t ∷ rest) end

-- The blocks of the transitions that are passed on do not fall: they ascend from the last
-- indexed block to the one that is stored in the end.
pub handle_transitions-Ascends :
    (ts : List StateTransition) (last : Option ℕ)
    → Ascends last (handle_transitions ts last).0 (handle_transitions ts last).1
unfolding handle_transitions handle_transition update_last_indexed_block
handle_transitions-Ascends [] last = no_transitions
handle_transitions-Ascends (t ∷ rest) none =
    first_transition t _ (handle_transitions-Ascends rest (some (transition_block t)))
handle_transitions-Ascends (t ∷ rest) (some last) =
    elim (Bool-cases (leb last (transition_block t))) [
      | inl e ↦ rw e (
          next_transition t _ (leb→le last (transition_block t) e)
            (handle_transitions-Ascends rest (some (transition_block t))))
      | inr e ↦ rw e (handle_transitions-Ascends rest (some last))
    ]

-- Transitions that ascend from the last indexed block are all passed on, and the block of the
-- last of them is stored.
pub handle_transitions-all :
    (ts : List StateTransition) {last end : Option ℕ}
    → Ascends last ts end
    → handle_transitions ts last ≡ (ts, end)
unfolding handle_transitions handle_transition update_last_indexed_block
handle_transitions-all [] no_transitions = refl
handle_transitions-all (t ∷ rest) (first_transition _ _ h) =
    ap (λ r. (t ∷ r.0, r.1)) (handle_transitions-all rest h)
handle_transitions-all (t ∷ rest) {last = some last} (next_transition _ _ le h) =
    let e : leb last (transition_block t) ≡ true = ground (arith, le) in
    rw e (ap (λ r. (t ∷ r.0, r.1)) (handle_transitions-all rest h))
