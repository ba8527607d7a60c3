-- ===== src/Rollover.antt =====
-- The rollover state machine (validator/src/machine, the states of machine/types.ts): its transition
-- relation, independent of the handlers. `now` is the epoch of the current block.
use shieldnet.Prelude.{ℕ, ◌+◌, ◌≤◌, ◌<◌, ◌≡◌, ◌⊎◌, List, [], Option, none, some, Bool, true}
use shieldnet.Prelude.Assoc.{get, put}
use shieldnet.Keygen.Complaints.{complaints_or_none, add_complaint, answer_complaint}
use shieldnet.Data.State.{
  RolloverState, CollectingCommitments, CollectingShares, CollectingConfirmations, SignRollover,
  Complaints, StateDiff, waiting_for_genesis, epoch_skipped, collecting_commitments,
  collecting_shares, collecting_confirmations, sign_rollover, epoch_staged,
}
use shieldnet.Consensus.{next_epoch?, is_staged}
pub mod KeyGen
pub mod Disputes
pub mod Confirmed
pub mod Handlers
pub mod Next
pub mod Timeouts
pub mod Process
pub mod Accounting

-- A ceremony for the epoch is under way.
pub data Generating (s : RolloverState) (epoch : ℕ) : Type 0 where
  commitments :
      (r : CollectingCommitments)
      → s ≡ collecting_commitments r
      → r.next_epoch ≡ epoch
      → Generating s epoch
  shares :
      (r : CollectingShares) → s ≡ collecting_shares r → r.next_epoch ≡ epoch → Generating s epoch
  confirmations :
      (r : CollectingConfirmations)
      → s ≡ collecting_confirmations r
      → r.next_epoch ≡ epoch
      → Generating s epoch

-- The start of a ceremony for the epoch, or its omission.
pub data Begins (epoch : ℕ) (s : RolloverState) : Type 0 where
  begun :
      (r : CollectingCommitments)
      → s ≡ collecting_commitments r
      → r.next_epoch ≡ epoch
      → Begins epoch s
  skipped : s ≡ epoch_skipped epoch → Begins epoch s

-- What a step makes of the complaints against each participant.
pub data Accounts (cs cs' : List (ℕ × Complaints)) : Type 0 where
  kept : cs' ≡ cs → Accounts cs cs'
  complained :
      (accused : ℕ)
      → cs' ≡ put accused (add_complaint (complaints_or_none (get accused cs))) cs
      → Accounts cs cs'
  answered :
      (accused : ℕ) (c : Complaints)
      → get accused cs ≡ some c
      → 0 < c.unresponded
      → cs' ≡ put accused (answer_complaint c) cs
      → Accounts cs cs'

pub data Step (now : ℕ) (s s' : RolloverState) : Type 0 where
  -- the genesis group starts its ceremony
  genesis_begun :
      (r : CollectingCommitments)
      → s ≡ waiting_for_genesis
      → s' ≡ collecting_commitments r
      → r.next_epoch ≡ 0
      → Step now s s'
  -- all have committed
  sharing_begun :
      (r : CollectingCommitments) (r' : CollectingShares)
      → s ≡ collecting_commitments r
      → s' ≡ collecting_shares r'
      → r'.group_id ≡ r.group_id
      → r'.next_epoch ≡ r.next_epoch
      → r'.complaints ≡ []
      → Step now s s'
  -- a share, a complaint or an answer
  sharing :
      (r r' : CollectingShares)
      → s ≡ collecting_shares r
      → s' ≡ collecting_shares r'
      → r'.group_id ≡ r.group_id
      → r'.next_epoch ≡ r.next_epoch
      → Accounts r.complaints r'.complaints
      → Step now s s'
  -- all have shared
  confirming_begun :
      (r : CollectingShares) (r' : CollectingConfirmations)
      → s ≡ collecting_shares r
      → s' ≡ collecting_confirmations r'
      → r'.group_id ≡ r.group_id
      → r'.next_epoch ≡ r.next_epoch
      → Accounts r.complaints r'.complaints
      → Step now s s'
  -- a confirmation, a complaint or an answer
  confirming :
      (r r' : CollectingConfirmations)
      → s ≡ collecting_confirmations r
      → s' ≡ collecting_confirmations r'
      → r'.group_id ≡ r.group_id
      → r'.next_epoch ≡ r.next_epoch
      → Accounts r.complaints r'.complaints
      → Step now s s'
  -- a ceremony that fails is begun again, for the same epoch, or given up
  restarted : (epoch : ℕ) → Generating s epoch → Begins epoch s' → Step now s s'
  -- all have confirmed
  rollover_proposed :
      (r : CollectingConfirmations) (r' : SignRollover)
      → s ≡ collecting_confirmations r
      → s' ≡ sign_rollover r'
      → r'.group_id ≡ r.group_id
      → r'.next_epoch ≡ r.next_epoch
      → Step now s s'
  -- all have confirmed the genesis group
  genesis_ready :
      (r : CollectingConfirmations)
      → s ≡ collecting_confirmations r
      → s' ≡ epoch_staged 0
      → Step now s s'
  -- the chain has staged the epoch
  staged :
      (r : SignRollover) (epoch : ℕ) → s ≡ sign_rollover r → s' ≡ epoch_staged epoch → Step now s s'
  -- the epoch that the state is about has come: the ceremony for the one after the current begins
  next_begun :
      (epoch : ℕ)
      → next_epoch? s ≡ some epoch
      → epoch ≤ now
      → (is_staged s ≡ true) ⊎ (0 < epoch)
      → Begins (now + 1) s'
      → Step now s s'

pub data Reach (now : ℕ) (s : RolloverState) : RolloverState → Type 0 where
  here : Reach now s s
  next : {t u : RolloverState} → Reach now s t → Step now t u → Reach now s u

-- What a diff does to the rollover state is a step, or nothing.
abbrev pub StepOrStay : ℕ → RolloverState → Option RolloverState → Type 0
StepOrStay now s none = Unit
StepOrStay now s (some s') = Step now s s'

abbrev pub StepsFrom : ℕ → RolloverState → StateDiff → Type 0
StepsFrom now s d = StepOrStay now s d.rollover
