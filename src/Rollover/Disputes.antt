-- ===== src/Rollover/Disputes.antt =====
-- The handlers of complaints move the rollover state by steps.
use shieldnet.Prelude.{ℕ, ◌≡◌, ◌<◌, refl, List, Option, none, some, not, ◌||◌, ◌==◌, leb, arith}
use shieldnet.Prelude.Assoc.{get, put}
use shieldnet.Data.Frost.{GroupId, ParticipantId}
use shieldnet.Data.Event.{KeyGenComplaintSubmittedEvent, KeyGenComplaintRespondedEvent}
use shieldnet.Data.State.{
  RolloverState, Complaints, MachineConfig, collecting_shares, collecting_confirmations,
}
use shieldnet.Data.External.{External}
use shieldnet.Store.Ensures.{Ensures, then-Ensures, pure-Ensures, if-Ensures}
use shieldnet.Client.KeyGen.{ShareStatus, invalid_share, pending_shares, shares_completed}
use shieldnet.Keygen.Complaints.{
  Open, sharing, confirming, group_of, next_epoch_of, complaints_of, missing_of, complaints_or_none,
  add_complaint, complaint_closed, response_closed, with_complaints, restart_without,
  complained_diff, submit_complaint, complain_in, handle_complaint_submitted, answered_diff,
  respond_by_status, respond, respond_in, handle_complaint_responded,
}
use shieldnet.Rollover.{Generating, Accounts, Step, StepsFrom}
use shieldnet.Rollover.KeyGen.{restart-StepsFrom}

module _ (ext : External) (cfg : MachineConfig) (now : ℕ) where
  abbrev of_open : Open → RolloverState
  of_open (sharing r) = collecting_shares r
  of_open (confirming r) = collecting_confirmations r

  open-Generating : (o : Open) → Generating (of_open o) (next_epoch_of o)
  open-Generating (sharing r) = Generating.shares r refl refl
  open-Generating (confirming r) = Generating.confirmations r refl refl

  with_complaints-Step :
      (o : Open) (c : List (ℕ × Complaints)) (missing : List ParticipantId)
      → Accounts (complaints_of o) c
      → Step now (of_open o) (with_complaints o c missing)
  with_complaints-Step (sharing r) c missing a = Step.sharing r _ refl refl refl refl a
  with_complaints-Step (confirming r) c missing a = Step.confirming r _ refl refl refl refl a

  restart_without-StepsFrom :
      (o : Open) (block : ℕ) (gid : GroupId) (accused : ParticipantId)
      → Ensures (StepsFrom now (of_open o)) (restart_without ext cfg o block gid accused)
  unfolding restart_without
  restart_without-StepsFrom o block gid accused =
      then-Ensures _
        λ ps. restart-StepsFrom ext cfg now (of_open o) (next_epoch_of o) _ _ _ (open-Generating o)

  complained-Step :
      (o : Open) (accused : ParticipantId)
      → Step now (of_open o) (
          with_complaints o
            (put accused
              (add_complaint (complaints_or_none (get accused (complaints_of o))))
              (complaints_of o))
            (missing_of o))
  complained-Step o accused =
      with_complaints-Step o _ (missing_of o) (Accounts.complained accused refl)

  complain_in-StepsFrom :
      (o : Open) (block : ℕ) (event : KeyGenComplaintSubmittedEvent)
      → Ensures (StepsFrom now (of_open o)) (complain_in ext cfg (some o) block event)
  unfolding complain_in submit_complaint complained_diff
  complain_in-StepsFrom o block event =
      if-Ensures (not (group_of o == event.gid) || complaint_closed o block) (λ _. pure-Ensures tt)
        λ _. then-Ensures _ λ t.
          if-Ensures (leb t _) (λ _. restart_without-StepsFrom o block event.gid event.accused)
            λ _. then-Ensures _ λ self.
              if-Ensures (not (event.accused == self))
                (λ _. pure-Ensures (complained-Step o event.accused))
                λ _. then-Ensures _ λ share. pure-Ensures (complained-Step o event.accused)

  pub complaint_submitted-StepsFrom :
      (s : RolloverState) (block : ℕ) (event : KeyGenComplaintSubmittedEvent)
      → Ensures (StepsFrom now s) (handle_complaint_submitted ext cfg s block event)
  unfolding handle_complaint_submitted complain_in
  complaint_submitted-StepsFrom (collecting_shares r) block event =
      complain_in-StepsFrom (sharing r) block event
  complaint_submitted-StepsFrom (collecting_confirmations r) block event =
      complain_in-StepsFrom (confirming r) block event
  complaint_submitted-StepsFrom _ block event = pure-Ensures tt

  respond_by_status-StepsFrom :
      (o : Open) (block : ℕ) (event : KeyGenComplaintRespondedEvent) (c : Complaints)
      (status : Option ShareStatus)
      → get event.accused (complaints_of o) ≡ some c
      → 0 < c.unresponded
      → Ensures (StepsFrom now (of_open o)) (respond_by_status ext cfg o block event c status)
  unfolding respond_by_status answered_diff
  respond_by_status-StepsFrom o block event c none e lt =
      pure-Ensures (with_complaints-Step o _ _ (Accounts.answered event.accused c e lt refl))
  respond_by_status-StepsFrom o block event c (some invalid_share) e lt =
      restart_without-StepsFrom o block (group_of o) event.accused
  respond_by_status-StepsFrom o block event c (some pending_shares) e lt =
      pure-Ensures (with_complaints-Step o _ _ (Accounts.answered event.accused c e lt refl))
  respond_by_status-StepsFrom o block event c (some shares_completed) e lt =
      pure-Ensures (with_complaints-Step o _ _ (Accounts.answered event.accused c e lt refl))

  respond-StepsFrom :
      (o : Open) (block : ℕ) (event : KeyGenComplaintRespondedEvent) (c : Option Complaints)
      → get event.accused (complaints_of o) ≡ c
      → Ensures (StepsFrom now (of_open o)) (respond ext cfg o block event c)
  unfolding respond
  respond-StepsFrom o block event none e = pure-Ensures tt
  respond-StepsFrom o block event (some c) e =
      if-Ensures (c.unresponded == 0) (λ _. pure-Ensures tt)
        λ nonzero.
          then-Ensures _
            λ status. respond_by_status-StepsFrom o block event c status e (ground arith)

  respond_in-StepsFrom :
      (o : Open) (block : ℕ) (event : KeyGenComplaintRespondedEvent)
      → Ensures (StepsFrom now (of_open o)) (respond_in ext cfg (some o) block event)
  unfolding respond_in
  respond_in-StepsFrom o block event =
      if-Ensures (not (group_of o == event.gid) || response_closed o block) (λ _. pure-Ensures tt)
        λ _. respond-StepsFrom o block event (get event.accused (complaints_of o)) refl

  pub complaint_responded-StepsFrom :
      (s : RolloverState) (block : ℕ) (event : KeyGenComplaintRespondedEvent)
      → Ensures (StepsFrom now s) (handle_complaint_responded ext cfg s block event)
  unfolding handle_complaint_responded respond_in
  complaint_responded-StepsFrom (collecting_shares r) block event =
      respond_in-StepsFrom (sharing r) block event
  complaint_responded-StepsFrom (collecting_confirmations r) block event =
      respond_in-StepsFrom (confirming r) block event
  complaint_responded-StepsFrom _ block event = pure-Ensures tt
