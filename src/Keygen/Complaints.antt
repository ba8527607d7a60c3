-- ===== src/Keygen/Complaints.antt =====
-- validator/src/machine/keygen/complaintSubmitted.ts and complaintResponse.ts. A state with complaints
-- is one of two, and is read through `Open`.
use shieldnet.Prelude.{
  ℕ, ◌+◌, ◌-◌, List, [], ◌∷◌, Option, none, some, Bool, false, not, ◌&&◌, ◌||◌, ltb, leb, ◌==◌,
  includes, keep, if◌then◌else◌,
}
use shieldnet.Prelude.Assoc.{get, put}
use shieldnet.Data.Frost.{GroupId, ParticipantId}
use shieldnet.Data.Action.{key_gen_complaint_response, key_gen_confirm}
use shieldnet.Data.Event.{KeyGenComplaintSubmittedEvent, KeyGenComplaintRespondedEvent}
use shieldnet.Data.State.{
  RolloverState, Complaints, CollectingShares, CollectingConfirmations, StateDiff, MachineConfig,
  collecting_shares, collecting_confirmations,
}
use shieldnet.Data.External.{External}
use shieldnet.Store.Defs.{M, ◌>>=◌, pure}
use shieldnet.Store.Groups.{participant_id, participants, threshold}
use shieldnet.Client.KeyGen.{
  ShareStatus, invalid_share, pending_shares, shares_completed, create_secret_share,
  verify_secret_share, register_plain_key_gen_secret,
}
use shieldnet.State.Diff.{no_diff}
use shieldnet.Keygen.Group.{calc_group_context, build_key_gen_callback}
use shieldnet.Keygen.Trigger.{trigger_key_gen}

-- The two states that take complaints.
pub data Open : Type 0 where
  sharing : CollectingShares → Open
  confirming : CollectingConfirmations → Open

abbrev pub open_state : RolloverState → Option Open
open_state (collecting_shares r) = some (sharing r)
open_state (collecting_confirmations r) = some (confirming r)
open_state _ = none

abbrev pub group_of : Open → GroupId
group_of (sharing r) = r.group_id
group_of (confirming r) = r.group_id

abbrev pub next_epoch_of : Open → ℕ
next_epoch_of (sharing r) = r.next_epoch
next_epoch_of (confirming r) = r.next_epoch

abbrev pub complaints_of : Open → List (ℕ × Complaints)
complaints_of (sharing r) = r.complaints
complaints_of (confirming r) = r.complaints

abbrev pub missing_of : Open → List ParticipantId
missing_of (sharing r) = r.missing_shares_from
missing_of (confirming r) = r.missing_shares_from

-- `{ ...rollover, complaints, missingSharesFrom }`.
abbrev pub with_complaints : Open → List (ℕ × Complaints) → List ParticipantId → RolloverState
with_complaints (sharing r) c m =
    collecting_shares (record r { complaints = c; missing_shares_from = m })
with_complaints (confirming r) c m =
    collecting_confirmations (record r { complaints = c; missing_shares_from = m })

abbrev pub complaint_closed : Open → ℕ → Bool
complaint_closed (sharing r) block = false
complaint_closed (confirming r) block = ltb r.complaint_deadline block

abbrev pub response_closed : Open → ℕ → Bool
response_closed (sharing r) block = false
response_closed (confirming r) block = ltb r.response_deadline block

abbrev pub no_complaints : Complaints
no_complaints = record { total = 0; unresponded = 0 }

abbrev pub complaints_or_none : Option Complaints → Complaints
complaints_or_none none = no_complaints
complaints_or_none (some c) = c

unfoldable pub add_complaint : Complaints → Complaints
add_complaint c = record { total = c.total + 1; unresponded = c.unresponded + 1 }

-- Called only where `unresponded` is not 0, so the truncated difference is the difference.
unfoldable pub answer_complaint : Complaints → Complaints
answer_complaint c = record { total = c.total; unresponded = c.unresponded - 1 }

module _ (ext : External) (cfg : MachineConfig) where
  -- The restart without the accused.
  unfoldable pub restart_without : Open → ℕ → GroupId → ParticipantId → M StateDiff
  restart_without state block group_id accused = do
    ps ← participants group_id
    trigger_key_gen ext cfg (next_epoch_of state) (block + cfg.key_gen_timeout)
        (keep (λ p. not (p.id == accused)) ps) (calc_group_context ext (next_epoch_of state))

  unfoldable pub complained_diff : Open → KeyGenComplaintSubmittedEvent → Complaints → StateDiff
  complained_diff state event next = record no_diff {
    rollover =
        some
          (with_complaints state (put event.accused next (complaints_of state)) (missing_of state));
  }

  -- The part of `handleComplaintSubmitted` behind its guards; `next` is `nextComplaint`.
  unfoldable pub submit_complaint :
      Open → ℕ → KeyGenComplaintSubmittedEvent → Complaints → M StateDiff
  unfolding restart_without complained_diff
  submit_complaint state block event next = do
    t ← threshold event.gid
    if leb t next.total then restart_without state block event.gid event.accused else do
      self ← participant_id event.gid
      if not (event.accused == self) then pure (complained_diff state event next) else do
        share ← create_secret_share ext event.gid event.plaintiff
        pure (record (complained_diff state event next) {
          actions =
              key_gen_complaint_response
                (record { group_id = event.gid; plaintiff = event.plaintiff; secret_share = share })
              ∷ [];
        })

  unfoldable pub complain_in : Option Open → ℕ → KeyGenComplaintSubmittedEvent → M StateDiff
  unfolding submit_complaint add_complaint
  complain_in none block event = pure no_diff
  complain_in (some state) block event =
      if not (group_of state == event.gid) || complaint_closed state block
      then pure no_diff
      else submit_complaint state block event
          (add_complaint (complaints_or_none (get event.accused (complaints_of state))))

  unfoldable pub handle_complaint_submitted :
      RolloverState → ℕ → KeyGenComplaintSubmittedEvent → M StateDiff
  unfolding complain_in
  handle_complaint_submitted rollover block event = complain_in (open_state rollover) block event

  -- `sharesState`: `none` for undefined, a plain share that verifies.
  unfoldable pub check_response : Open → KeyGenComplaintRespondedEvent → M (Option ShareStatus)
  check_response state event = do
    self ← participant_id event.gid
    if self == event.plaintiff && includes event.accused (missing_of state)
        then (do
          status ← register_plain_key_gen_secret ext event.gid event.accused event.secret_share
          pure (some status))
        else do
          valid ← verify_secret_share ext event.gid event.accused event.plaintiff event.secret_share
          pure (if valid then none else some invalid_share)

  unfoldable pub answered_diff :
      Open → KeyGenComplaintRespondedEvent → Complaints → List ParticipantId → StateDiff
  unfolding answer_complaint
  answered_diff state event complaint missing = record no_diff {
    rollover = some (
        with_complaints state (put event.accused (answer_complaint complaint) (complaints_of state))
          missing);
  }

  abbrev pub missing_without : Open → ParticipantId → List ParticipantId
  missing_without state accused = keep (λ p. not (p == accused)) (missing_of state)

  unfoldable pub respond_by_status :
      Open → ℕ → KeyGenComplaintRespondedEvent → Complaints → Option ShareStatus → M StateDiff
  unfolding restart_without answered_diff
  respond_by_status state block event complaint none =
      pure (answered_diff state event complaint (missing_of state))
  respond_by_status state block event complaint (some invalid_share) =
      restart_without state block (group_of state) event.accused
  respond_by_status state block event complaint (some pending_shares) =
      pure (answered_diff state event complaint (missing_without state event.accused))
  respond_by_status state block event complaint (some shares_completed) =
      pure (record (answered_diff state event complaint (missing_without state event.accused)) {
        actions =
            key_gen_confirm event.gid (build_key_gen_callback ext cfg (next_epoch_of state)) ∷ [];
      })

  -- The part of `handleComplaintResponded` behind its guards, for the entry of the accused.
  unfoldable pub respond :
      Open → ℕ → KeyGenComplaintRespondedEvent → Option Complaints → M StateDiff
  unfolding check_response respond_by_status
  respond state block event none = pure no_diff
  respond state block event (some complaint) =
      if complaint.unresponded == 0 then pure no_diff else do
        status ← check_response state event
        respond_by_status state block event complaint status

  unfoldable pub respond_in : Option Open → ℕ → KeyGenComplaintRespondedEvent → M StateDiff
  unfolding respond
  respond_in none block event = pure no_diff
  respond_in (some state) block event =
      if not (group_of state == event.gid) || response_closed state block
      then pure no_diff
      else respond state block event (get event.accused (complaints_of state))

  unfoldable pub handle_complaint_responded :
      RolloverState → ℕ → KeyGenComplaintRespondedEvent → M StateDiff
  unfolding respond_in
  handle_complaint_responded rollover block event = respond_in (open_state rollover) block event
