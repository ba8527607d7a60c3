-- ===== src/Keygen/Timeouts.antt =====
-- validator/src/machine/keygen/timeouts.ts: a ceremony that misses a deadline starts anew.
use shieldnet.Prelude.{
  ℕ, ◌+◌, List, Option, none, some, not, ◌&&◌, ltb, leb, map, includes, keep, length, if◌then◌else◌,
}
use shieldnet.Data.Frost.{Participant, ParticipantId}
use shieldnet.Data.State.{
  RolloverState, Complaints, CollectingCommitments, CollectingShares, CollectingConfirmations,
  StateDiff, MachineConfig, collecting_commitments, collecting_shares, collecting_confirmations,
}
use shieldnet.Data.External.{External}
use shieldnet.Store.Defs.{M, ◌>>=◌, pure}
use shieldnet.Store.Groups.{participants}
use shieldnet.Store.KeyGens.{missing_commitments, missing_secret_shares}
use shieldnet.State.Diff.{no_diff}
use shieldnet.Keygen.Group.{calc_group_context}
use shieldnet.Keygen.Trigger.{trigger_key_gen}

-- `[Participant[], bigint]`.
pub record TimeoutInfo : Type 0 where
  pub adjusted_participants : List Participant
  pub next_epoch : ℕ

abbrev pub without : List ParticipantId → List Participant → List Participant
without ids ps = keep (λ p. not (includes p.id ids)) ps

abbrev pub among : List ParticipantId → List Participant → List Participant
among ids ps = keep (λ p. includes p.id ids) ps

-- The accused with an unanswered complaint.
unfoldable pub unresponded : List (ℕ × Complaints) → List ParticipantId
unresponded complaints = map (λ e. e.0) (keep (λ e. ltb 0 e.1.unresponded) complaints)

unfoldable pub confirmations_timeout : CollectingConfirmations → ℕ → M (Option TimeoutInfo)
unfolding unresponded
confirmations_timeout rollover block =
    if leb rollover.response_deadline block && ltb 0 (length (unresponded rollover.complaints))
    then (do
      ps ← participants rollover.group_id
      pure (
          some (record {
            adjusted_participants = without (unresponded rollover.complaints) ps;
            next_epoch = rollover.next_epoch;
          })))
    else if leb rollover.deadline block
    then (do
      ps ← participants rollover.group_id
      pure (
          some (record {
            adjusted_participants = among rollover.confirmations_from ps;
            next_epoch = rollover.next_epoch;
          })))
    else pure none

unfoldable pub commitments_timeout : CollectingCommitments → ℕ → M (Option TimeoutInfo)
commitments_timeout rollover block = if ltb block rollover.deadline then pure none else do
  missing ← missing_commitments rollover.group_id
  ps ← participants rollover.group_id
  pure (
      some
        (record { adjusted_participants = without missing ps; next_epoch = rollover.next_epoch }))

unfoldable pub shares_timeout : CollectingShares → ℕ → M (Option TimeoutInfo)
shares_timeout rollover block = if ltb block rollover.deadline then pure none else do
  missing ← missing_secret_shares rollover.group_id
  ps ← participants rollover.group_id
  pure (
      some
        (record { adjusted_participants = without missing ps; next_epoch = rollover.next_epoch }))

unfoldable pub get_timeout_info : RolloverState → ℕ → M (Option TimeoutInfo)
unfolding confirmations_timeout commitments_timeout shares_timeout
get_timeout_info (collecting_commitments rollover) block = commitments_timeout rollover block
get_timeout_info (collecting_shares rollover) block = shares_timeout rollover block
get_timeout_info (collecting_confirmations rollover) block = confirmations_timeout rollover block
get_timeout_info _ block = pure none

module _ (ext : External) (cfg : MachineConfig) where
  unfoldable pub restart_on_timeout : ℕ → Option TimeoutInfo → M StateDiff
  restart_on_timeout block none = pure no_diff
  restart_on_timeout block (some info) =
      trigger_key_gen ext cfg info.next_epoch (block + cfg.key_gen_timeout)
        info.adjusted_participants (calc_group_context ext info.next_epoch)

  unfoldable pub check_key_gen_timeouts : RolloverState → ℕ → M StateDiff
  unfolding get_timeout_info restart_on_timeout
  check_key_gen_timeouts rollover block = do
    info ← get_timeout_info rollover block
    restart_on_timeout block info
