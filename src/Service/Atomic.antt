-- ===== src/Service/Atomic.antt =====
-- A transition's local copy against the stored state with its differences.
use shieldnet.Prelude.{ℕ, ◌≡◌, refl, List, [], ◌∷◌, ◌++◌, none, leb, Bool-cases, inl, inr}
use shieldnet.Data.State.{StateDiff, MachineConfig}
use shieldnet.Data.External.{External}
use shieldnet.Store.Defs.{World, Result}
use shieldnet.Store.Ensures.{Post, Ensures, then-Ensures, pure-Ensures}
use shieldnet.State.Diff.{StateStorage, apply_diff}
use shieldnet.State.Local.{TransitionState, new_transition_state, apply}
use shieldnet.State.Refine.{Tracks, new_transition_state-Tracks, apply-Tracks}
use shieldnet.Service.{
  Core, Machine, core_result, apply_all, commit_diffs, block_checks, progress_to_block,
}

commit_diffs-append :
    (ds : List StateDiff) (d : StateDiff) (s : StateStorage)
    → (commit_diffs (ds ++ d ∷ []) s).0 ≡ (apply_diff d (commit_diffs ds s).0).0
unfolding commit_diffs
commit_diffs-append [] d s = refl
commit_diffs-append (e ∷ ds) d s = commit_diffs-append ds d (apply_diff e s).0

-- A local copy that reads like the storage with the copy's own differences applied.
abbrev pub InStep : StateStorage → TransitionState → Type 0
InStep s t = Tracks t (commit_diffs t.diffs s).0

pub apply-InStep :
    (s : StateStorage) (d : StateDiff) (t : TransitionState) → InStep s t → InStep s (apply d t)
unfolding apply
apply-InStep s d t h =
    rw (commit_diffs-append t.diffs d s) (apply-Tracks d t (commit_diffs t.diffs s).0 h)

pub apply_all-InStep :
    (s : StateStorage) (ds : List StateDiff) (t : TransitionState)
    → InStep s t
    → InStep s (apply_all ds t)
unfolding apply_all
apply_all-InStep s [] t h = h
apply_all-InStep s (d ∷ ds) t h = apply_all-InStep s ds (apply d t) (apply-InStep s d t h)

pub new-InStep : (s : StateStorage) → InStep s (new_transition_state s.machines s.consensus)
unfolding commit_diffs new_transition_state
new-InStep s = new_transition_state-Tracks s

module _ (ext : External) (cfg : MachineConfig) where
  pub block_checks-InStep :
      (s : StateStorage) (b : ℕ) (t : TransitionState)
      → InStep s t
      → Ensures (InStep s) (block_checks ext cfg b t)
  unfolding block_checks
  block_checks-InStep s b t h = then-Ensures _ λ rollover_diff. then-Ensures _ λ timeout_diff.
      then-Ensures _ λ diffs. pure-Ensures (
        apply_all-InStep s diffs _
          (apply-InStep s timeout_diff _ (apply-InStep s rollover_diff t h)))

  pub core_result-Post :
      {A : Type 0} (P : A → Type 0) (c : Core) (r : Result A × World)
      → Post P r.0
      → Post P (core_result c r).0
  unfolding core_result
  core_result-Post P c (r, w) h = h

  -- When the block checks do not throw, the local copy that the event's handler reads is, at
  -- every key, the stored state with all the differences so far applied to it.
  pub progress_to_block-InStep :
      (b : ℕ) (m : Machine)
      → Post
          (InStep m.storage)
          (progress_to_block ext cfg b
            (new_transition_state m.storage.machines m.storage.consensus)
            m.core).0
  unfolding progress_to_block
  progress_to_block-InStep b m = elim (Bool-cases (leb b m.core.last_processed_block)) [
    | inl e ↦ rw e (new-InStep m.storage)
    | inr e ↦ rw e (
        core_result-Post (InStep m.storage)
          (record m.core { last_processed_block = b; last_processed_index = none })
          (block_checks ext cfg b (new_transition_state m.storage.machines m.storage.consensus)
            m.core.world)
          ((block_checks-InStep m.storage b _ (new-InStep m.storage)).post m.core.world))
  ]
