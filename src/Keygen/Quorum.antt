-- ===== src/Keygen/Quorum.antt =====
-- The sizes of a group: its threshold is a majority of it, and more than a third of all validators.
use shieldnet.Prelude.{
  ℕ, ◌+◌, ◌*◌, ◌/◌, ◌≤◌, ◌<◌, ◌≡◌, refl, List, [], ◌∷◌, max, length, arith, ltb, false,
}
use shieldnet.Data.Frost.{Hex, Participant}
use shieldnet.Data.Action.{StartKeyGen, key_gen_start}
use shieldnet.Data.State.{StateDiff, MachineConfig}
use shieldnet.Data.External.{External}
use shieldnet.Store.Defs.{World, ok}
use shieldnet.Store.Ensures.{Ensures, then-Ensures, pure-Ensures, if-Ensures, ok-Ensures}
use shieldnet.Keygen.Group.{calc_minimum_participants, calc_threshold}
use shieldnet.Keygen.Trigger.{skipped_diff, started_diff, trigger_key_gen}

calc_threshold-majority : (n : ℕ) → n < 2 * calc_threshold n
unfolding calc_threshold
calc_threshold-majority n = omega arith

calc_threshold-le : (n : ℕ) → 2 ≤ n → calc_threshold n ≤ n
unfolding calc_threshold
calc_threshold-le n h = omega (arith, h)

-- With two thirds of the validators and one more, a majority of them is more than a third of all.
calc_threshold-third : (d n : ℕ) → max 2 (d * 2 / 3 + 1) ≤ n → d < 3 * calc_threshold n
unfolding calc_threshold
calc_threshold-third d n h = omega (arith, h)

-- The diff gives up the epoch for want of participants, or starts a ceremony with a safe threshold.
pub data Quorum (cfg : MachineConfig) (epoch : ℕ) (ps : List Participant) (d : StateDiff)
    : Type 0 where
  too_few :
      length ps < calc_minimum_participants cfg → d ≡ skipped_diff epoch → Quorum cfg epoch ps d
  enough :
      (start : StartKeyGen)
      → calc_minimum_participants cfg ≤ length ps
      → d.actions ≡ key_gen_start start ∷ []
      → start.count ≡ length ps
      → start.threshold ≤ start.count
      → start.count < 2 * start.threshold
      → length cfg.default_participants < 3 * start.threshold
      → Quorum cfg epoch ps d

module _ (ext : External) (cfg : MachineConfig) where
  sizes :
      (n : ℕ)
      → ltb n (calc_minimum_participants cfg) ≡ false
      → (calc_minimum_participants cfg ≤ n)
        × (calc_threshold n ≤ n)
        × (length cfg.default_participants < 3 * calc_threshold n)
  unfolding calc_minimum_participants
  sizes n e =
      let le : max 2 (length cfg.default_participants * 2 / 3 + 1) ≤ n = ground (arith, e) in
      (
        le,
        calc_threshold-le n (omega (arith, le)),
        calc_threshold-third (length cfg.default_participants) n le,
      )

  starts_well_sized :
      (epoch deadline : ℕ) (ps : List Participant) (context : Hex)
      → Ensures (Quorum cfg epoch ps) (trigger_key_gen ext cfg epoch deadline ps context)
  unfolding trigger_key_gen started_diff
  starts_well_sized epoch deadline ps context =
      if-Ensures (ltb (length ps) (calc_minimum_participants cfg))
        (λ e. pure-Ensures (Quorum.too_few (ground arith) refl))
        λ e. then-Ensures _ λ setup.
          let (le, small, third) = sizes (length ps) e in
          pure-Ensures
            (Quorum.enough _ le refl refl small (calc_threshold-majority (length ps)) third)

  -- When `triggerKeyGen` returns, then either there are fewer participants than the minimum,
  -- and its diff only skips the epoch, or there are not, and its one action starts a ceremony
  -- for all of them whose threshold is at most their number, more than half of it, and more
  -- than a third of the number of all default participants.
  pub trigger_key_gen-Quorum :
      (epoch deadline : ℕ) (ps : List Participant) (context : Hex) (w w' : World) (d : StateDiff)
      → trigger_key_gen ext cfg epoch deadline ps context w ≡ (ok d, w')
      → Quorum cfg epoch ps d
  trigger_key_gen-Quorum epoch deadline ps context w w' d h =
      ok-Ensures (starts_well_sized epoch deadline ps context) h
