-- ===== src/Rollover/Confirmed.antt =====
-- The end of the ceremony and its timeouts move the rollover state by steps.
use shieldnet.Prelude.{
  ℕ, refl, List, Option, none, some, not, ◌&&◌, ◌==◌, ltb, leb, every, includes, option_eq, length,
}
use shieldnet.Data.Frost.{ParticipantId}
use shieldnet.Data.Packet.{Packet}
use shieldnet.Data.Event.{KeyGenConfirmedEvent}
use shieldnet.Data.State.{
  RolloverState, CollectingConfirmations, ConsensusState, MachineConfig, collecting_commitments,
  collecting_shares, collecting_confirmations,
}
use shieldnet.Data.External.{External}
use shieldnet.Store.Ensures.{
  Ensures, bind-Ensures, then-Ensures, pure-Ensures, throw-Ensures, if-Ensures,
}
use shieldnet.Verify.{VerificationResult, valid, invalid}
use shieldnet.Keygen.Confirmed.{
  confirmations_with, waiting_diff, genesis_diff, sign_diff, sign_verified, propose_rollover,
  confirm, handle_key_gen_confirmed,
}
use shieldnet.Keygen.Timeouts.{
  TimeoutInfo, unresponded, get_timeout_info, commitments_timeout, shares_timeout,
  confirmations_timeout, restart_on_timeout, check_key_gen_timeouts,
}
use shieldnet.Rollover.{Generating, Accounts, Step, StepsFrom}
use shieldnet.Rollover.KeyGen.{restart-StepsFrom}

module _ (ext : External) (cfg : MachineConfig) (now : ℕ) where
  sign_verified-StepsFrom :
      (block : ℕ) (r : CollectingConfirmations) (id : ParticipantId) (ps : List ParticipantId)
      (packet : Packet) (result : VerificationResult)
      → Ensures
          (StepsFrom now (collecting_confirmations r))
          (sign_verified ext cfg block r id ps packet result)
  unfolding sign_verified sign_diff
  sign_verified-StepsFrom block r id ps packet invalid = throw-Ensures
  sign_verified-StepsFrom block r id ps packet (valid message) =
      pure-Ensures (Step.rollover_proposed r _ refl refl refl refl)

  confirm-StepsFrom :
      (c : ConsensusState) (block : ℕ) (r : CollectingConfirmations) (event : KeyGenConfirmedEvent)
      → Ensures (StepsFrom now (collecting_confirmations r)) (confirm ext cfg c block r event)
  unfolding confirm waiting_diff genesis_diff propose_rollover
  confirm-StepsFrom c block r event = then-Ensures _ λ ps.
      if-Ensures (not (every (λ p. includes p (confirmations_with r event.identifier)) ps))
        (λ _. pure-Ensures (Step.confirming r _ refl refl refl refl (Accounts.kept refl)))
        λ _.
          if-Ensures (option_eq c.genesis_group_id (some event.gid))
            (λ _. then-Ensures _ λ root. pure-Ensures (Step.genesis_ready r refl refl))
            λ _. then-Ensures _ λ key. then-Ensures _ λ group_public_key.
              then-Ensures _ λ result. sign_verified-StepsFrom block r event.identifier ps _ result

  pub confirmed-StepsFrom :
      (c : ConsensusState) (s : RolloverState) (block : ℕ) (event : KeyGenConfirmedEvent)
      → Ensures (StepsFrom now s) (handle_key_gen_confirmed ext cfg c s block event)
  unfolding handle_key_gen_confirmed
  confirmed-StepsFrom c (collecting_confirmations r) block event =
      if-Ensures (not (r.group_id == event.gid)) (λ _. pure-Ensures tt)
        λ _. confirm-StepsFrom c block r event
  confirmed-StepsFrom c _ block event = pure-Ensures tt

  -- A timeout is one of a ceremony that is under way, for its epoch.
  abbrev TimedOut : RolloverState → Option TimeoutInfo → Type 0
  TimedOut s none = Unit
  TimedOut s (some info) = Generating s info.next_epoch

  get_timeout_info-TimedOut :
      (s : RolloverState) (block : ℕ) → Ensures (TimedOut s) (get_timeout_info s block)
  unfolding get_timeout_info commitments_timeout shares_timeout confirmations_timeout
  get_timeout_info-TimedOut (collecting_commitments r) block =
      if-Ensures (ltb block r.deadline) (λ _. pure-Ensures tt)
        λ _.
          then-Ensures _
            λ missing. then-Ensures _ λ ps. pure-Ensures (Generating.commitments r refl refl)
  get_timeout_info-TimedOut (collecting_shares r) block =
      if-Ensures (ltb block r.deadline) (λ _. pure-Ensures tt)
        λ _.
          then-Ensures _
            λ missing. then-Ensures _ λ ps. pure-Ensures (Generating.shares r refl refl)
  get_timeout_info-TimedOut (collecting_confirmations r) block =
      if-Ensures (leb r.response_deadline block && ltb 0 (length (unresponded r.complaints)))
        (λ _. then-Ensures _ λ ps. pure-Ensures (Generating.confirmations r refl refl))
        λ _.
          if-Ensures (leb r.deadline block)
            (λ _. then-Ensures _ λ ps. pure-Ensures (Generating.confirmations r refl refl))
            (λ _. pure-Ensures tt)
  get_timeout_info-TimedOut _ block = pure-Ensures tt

  restart_on_timeout-StepsFrom :
      (s : RolloverState) (block : ℕ) (info : Option TimeoutInfo)
      → TimedOut s info
      → Ensures (StepsFrom now s) (restart_on_timeout ext cfg block info)
  unfolding restart_on_timeout
  restart_on_timeout-StepsFrom s block none h = pure-Ensures tt
  restart_on_timeout-StepsFrom s block (some info) h =
      restart-StepsFrom ext cfg now s info.next_epoch _ _ _ h

  pub timeouts-StepsFrom :
      (s : RolloverState) (block : ℕ)
      → Ensures (StepsFrom now s) (check_key_gen_timeouts ext cfg s block)
  unfolding check_key_gen_timeouts
  timeouts-StepsFrom s block =
      bind-Ensures (TimedOut s) (get_timeout_info-TimedOut s block)
        (λ info h. restart_on_timeout-StepsFrom s block info h)
