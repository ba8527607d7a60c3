-- ===== src/Service/Deadlines.antt =====
-- No signing request outlives its deadline: what the checks of a new block leave of the requests.
use mathlib.Core.Path.{subst}
use shieldnet.Prelude.{
  some-inj, ℕ, ◌<◌, ◌≡◌, sym, ◌∙◌, ◌⊎◌, inl, inr, List, ◌∷◌, Option, none, some, false, ◌==◌, leb,
  Bool-cases, Option-cases, arith,
}
use shieldnet.Prelude.Assoc.{get}
use shieldnet.Data.Frost.{Hex}
use shieldnet.Data.Event.{block_new}
use shieldnet.Data.State.{SigningState, StateDiff, MachineConfig}
use shieldnet.Data.External.{External}
use shieldnet.Store.Defs.{Result, ok, err}
use shieldnet.Store.Ensures.{Post, Ensures, bind-Ensures, then-Ensures, pure-Ensures}
use shieldnet.State.Diff.{StateStorage}
use shieldnet.State.Local.{
  Overlay, TransitionState, new_transition_state, read, entries, view_machines, view_consensus,
  apply_local_machines, apply,
}
use shieldnet.State.Refine.{updated, read-write, get-entries}
use shieldnet.Signing.Timeouts.{check_signing_timeouts}
use shieldnet.Signing.Expiry.{Fresh, Settles, AllSettle, check_each-AllSettle}
use shieldnet.Service.{
  Core, Machine, apply_all, commit_diffs, block_checks, progress_to_block, diffs_of,
  perform_transition, settle_transition, process,
}
use shieldnet.Service.Atomic.{InStep, apply-InStep, apply_all-InStep, new-InStep, core_result-Post}

-- A value at a key that is fresh, or is still among the entries to be checked.
abbrev Watched : ℕ → List (Hex × SigningState) → Hex → Option SigningState → Type 0
Watched block l k old = Fresh block old ⊎ ((s : SigningState) × (get k l ≡ some s) × (old ≡ some s))

skip_entry :
    (block : ℕ) (message k : Hex) (status : SigningState) (l : List (Hex × SigningState))
    (old : Option SigningState)
    → (message == k) ≡ false
    → Watched block ((message, status) ∷ l) k old
    → Watched block l k old
skip_entry block message k status l old e (inl f) = inl f
skip_entry block message k status l old e (inr (s, g, o)) = inr (s, rw e at g, o)

early_entry :
    (block : ℕ) (message k : Hex) (status : SigningState) (l : List (Hex × SigningState))
    (old : Option SigningState)
    → block < status.deadline
    → Watched block ((message, status) ∷ l) k old
    → Watched block l k old
early_entry block message k status l old lt (inl f) = inl f
early_entry block message k status l old lt (inr (s, g, o)) = elim (Bool-cases (message == k)) [
  | inl e ↦
      inl (subst (Fresh block) (sym o) (subst (λ u. block < u.deadline) (some-inj (rw e at g)) lt))
  | inr e ↦ inr (s, rw e at g, o)
]

Settles-Watched :
    (block : ℕ) (message k : Hex) (status : SigningState) (l : List (Hex × SigningState))
    (d : StateDiff) (old : Option SigningState)
    → Settles block message status d
    → Watched block ((message, status) ∷ l) k old
    → Watched block l k (updated d.signing k old)
Settles-Watched block message k status l d old (Settles.early e lt) h =
    subst (λ u. Watched block l k (updated u k old)) (sym e)
      (early_entry block message k status l old lt h)
Settles-Watched block message k status l d old (Settles.settled o e f) h =
    subst (λ u. Watched block l k (updated u k old)) (sym e)
      (elim (Bool-cases (message == k)) [
        | inl t ↦ rw t (inl f)
        | inr t ↦ rw t (skip_entry block message k status l old t h)
      ])

read-apply :
    (d : StateDiff) (t : TransitionState) (k : Hex)
    → read k (apply d t).machines.signing ≡ updated d.signing k (read k t.machines.signing)
unfolding apply apply_local_machines
read-apply d t k = read-write d.signing k t.machines.signing

apply_all-Fresh :
    (block : ℕ) (l : List (Hex × SigningState)) (ds : List StateDiff) (t : TransitionState)
    → AllSettle block l ds
    → ((k : Hex) → Watched block l k (read k t.machines.signing))
    → (k : Hex) → Fresh block (read k (apply_all ds t).machines.signing)
unfolding apply_all
apply_all-Fresh block _ _ t AllSettle.no_more h k = elim (h k) [
  | inl f ↦ f
  | inr (s, g, o) ↦ absurd (ground arith)
]
apply_all-Fresh block _ _ t (AllSettle.one_more {message} {status} {l} {d} {ds} a rest) h k =
    apply_all-Fresh block l ds (apply d t) rest
      (λ j. rw (read-apply d t j) (Settles-Watched block message j status l d _ a (h j))) k

entries-Watched :
    (block : ℕ) (o : Overlay SigningState) (k : Hex) → Watched block (entries o) k (read k o)
entries-Watched block o k = elim (Option-cases (read k o)) [
  | inl e ↦ inl (subst (Fresh block) (sym e) tt)
  | inr (s, e) ↦ inr (s, get-entries o k ∙ e, e)
]

-- A local copy in step with the storage, without requests past their deadline.
record Renewed (block : ℕ) (s : StateStorage) (t : TransitionState) : Type 0 where
  in_step : InStep s t
  fresh : (k : Hex) → Fresh block (read k t.machines.signing)

module _ (ext : External) (cfg : MachineConfig) (timeout : 0 < cfg.signing_timeout) where
  block_checks-Renewed :
      (s : StateStorage) (b : ℕ) (t : TransitionState)
      → InStep s t
      → Ensures (Renewed b s) (block_checks ext cfg b t)
  unfolding block_checks check_signing_timeouts view_machines
  block_checks-Renewed s b t h = then-Ensures _ λ d. then-Ensures _ λ e.
      let u = apply e (apply d t) in
      bind-Ensures (AllSettle b (entries u.machines.signing))
        (check_each-AllSettle ext cfg timeout (view_consensus u.consensus) _ b _)
        (λ ds hs. pure-Ensures (record {
          in_step = apply_all-InStep s ds u (apply-InStep s e _ (apply-InStep s d t h));
          fresh = apply_all-Fresh b _ ds u hs (entries-Watched b u.machines.signing);
        }))

  -- The stored requests, once the differences are stored.
  abbrev NoneExpired : ℕ → StateStorage → Type 0
  NoneExpired block s = (k : Hex) → Fresh block (get k s.machines.signing)

  Renewed-NoneExpired :
      (b : ℕ) (s : StateStorage) (t : TransitionState)
      → Renewed b s t
      → NoneExpired b (commit_diffs t.diffs s).0
  unfolding view_machines
  Renewed-NoneExpired b s t r k =
      subst (Fresh b) (sym (get-entries t.machines.signing k) ∙ r.in_step.machines.signing k)
        (r.fresh k)

  abbrev Renewing : ℕ → StateStorage → List StateDiff → Type 0
  Renewing b s ds = NoneExpired b (commit_diffs ds s).0

  diffs_of-Renewing :
      (b : ℕ) (s : StateStorage) (r : Result TransitionState × Core)
      → Post (Renewed b s) r.0
      → Post (Renewing b s) (diffs_of r).0
  unfolding diffs_of
  diffs_of-Renewing b s (ok t, c) h = Renewed-NoneExpired b s t h
  diffs_of-Renewing b s (err e, c) h = tt

  progress_to_block-Renewed :
      (b : ℕ) (m : Machine)
      → m.core.last_processed_block < b
      → Post
          (Renewed b m.storage)
          (progress_to_block ext cfg b
            (new_transition_state m.storage.machines m.storage.consensus)
            m.core).0
  unfolding progress_to_block
  progress_to_block-Renewed b m lt =
      let behind : leb b m.core.last_processed_block ≡ false = ground (arith, lt) in
      rw behind (
        core_result-Post ext cfg (Renewed b m.storage)
          (record m.core { last_processed_block = b; last_processed_index = none })
          (block_checks ext cfg b (new_transition_state m.storage.machines m.storage.consensus)
            m.core.world)
          ((block_checks-Renewed m.storage b _ (new-InStep m.storage)).post m.core.world))

  settle_transition-NoneExpired :
      (b : ℕ) (m : Machine) (r : Result (List StateDiff) × Core) (diffs : List StateDiff)
      → Post (Renewing b m.storage) r.0
      → r.0 ≡ ok diffs
      → NoneExpired b (settle_transition ext cfg m r).machine.storage
  unfolding settle_transition
  settle_transition-NoneExpired b m (ok ds, c) diffs h e = h
  settle_transition-NoneExpired b m (err x, c) diffs h e = absurd (ground arith)

  -- When the signing timeout is positive and the checks of a new block, later than the last
  -- processed one, succeed, every signing request that is stored afterwards has its deadline
  -- after that block.
  pub process-block_new-renews :
      (b : ℕ) (m : Machine) (diffs : List StateDiff) (message : Hex) (status : SigningState)
      → m.core.last_processed_block < b
      → (perform_transition ext cfg (block_new b) m).0 ≡ ok diffs
      → get message (process ext cfg (block_new b) m).machine.storage.machines.signing ≡ some status
      → b < status.deadline
  unfolding process perform_transition
  process-block_new-renews b m diffs message status lt h e = subst (Fresh b) e (
      settle_transition-NoneExpired b m _ diffs
        (diffs_of-Renewing b m.storage _ (progress_to_block-Renewed b m lt)) h message)
