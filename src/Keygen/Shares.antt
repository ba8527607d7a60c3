-- ===== src/Keygen/Shares.antt =====
-- validator/src/machine/keygen/committed.ts and secretShares.ts: the two rounds of the ceremony.
use shieldnet.Prelude.{
  ℕ, ◌+◌, ◌*◌, List, [], ◌∷◌, ◌++◌, Option, none, some, Bool, true, false, not, ◌==◌, if◌then◌else◌,
}
use shieldnet.Data.Frost.{ParticipantId}
use shieldnet.Data.Action.{
  ProtocolAction, key_gen_publish_secret_shares, key_gen_complain, key_gen_confirm,
}
use shieldnet.Data.Event.{KeyGenCommittedEvent, KeyGenSecretSharedEvent}
use shieldnet.Data.State.{
  RolloverState, CollectingCommitments, CollectingShares, StateDiff, MachineConfig,
  collecting_commitments, collecting_shares, collecting_confirmations,
}
use shieldnet.Data.External.{External}
use shieldnet.Store.Defs.{M, ◌>>=◌, pure, attempt}
use shieldnet.Store.Groups.{participant_id}
use shieldnet.Client.KeyGen.{
  SecretShares, ShareStatus, invalid_share, shares_completed, handle_keygen_commitment,
  create_secret_shares, handle_keygen_secrets,
}
use shieldnet.State.Diff.{no_diff}
use shieldnet.Keygen.Group.{build_key_gen_callback}

-- `try { keyGenClient.participantId(groupId) } catch { return {} }`, and then the rest.
unfoldable pub if_member : Option ParticipantId → M StateDiff → M StateDiff
if_member none rest = pure no_diff
if_member (some _) rest = rest

abbrev pub is_invalid : ShareStatus → Bool
is_invalid invalid_share = true
is_invalid _ = false

abbrev pub is_completed : ShareStatus → Bool
is_completed shares_completed = true
is_completed _ = false

unfoldable pub missing_after : CollectingShares → ParticipantId → ShareStatus → List ParticipantId
missing_after rollover identifier status =
    if is_invalid status
    then rollover.missing_shares_from ++ identifier ∷ []
    else rollover.missing_shares_from

unfoldable pub complaint_actions : KeyGenSecretSharedEvent → ShareStatus → List ProtocolAction
complaint_actions event status =
    if is_invalid status then key_gen_complain event.gid event.identifier ∷ [] else []

module _ (ext : External) (cfg : MachineConfig) where
  unfoldable pub shares_diff : ℕ → CollectingCommitments → SecretShares → StateDiff
  shares_diff block rollover secrets = record no_diff {
    rollover = some (
        collecting_shares (record {
          group_id = rollover.group_id;
          next_epoch = rollover.next_epoch;
          deadline = block + cfg.key_gen_timeout;
          missing_shares_from = [];
          complaints = [];
          last_participant = none;
        }));
    actions =
        key_gen_publish_secret_shares (record {
          group_id = rollover.group_id;
          verification_share = secrets.verification_share;
          shares = secrets.shares;
        })
        ∷ [];
  }

  -- `handleKeyGenCommitted` behind its guards.
  unfoldable pub commit : ℕ → CollectingCommitments → KeyGenCommittedEvent → M StateDiff
  unfolding shares_diff
  commit block rollover event = do
    valid ← handle_keygen_commitment ext event.gid event.identifier event.c event.pok
    if not valid then pure no_diff else if not event.committed then pure no_diff else do
      secrets ← create_secret_shares ext event.gid
      pure (shares_diff block rollover secrets)

  unfoldable pub handle_key_gen_committed : RolloverState → ℕ → KeyGenCommittedEvent → M StateDiff
  unfolding commit if_member
  handle_key_gen_committed (collecting_commitments rollover) block event =
      if not (rollover.group_id == event.gid) then pure no_diff else do
        self ← attempt (participant_id event.gid)
        if_member self (commit block rollover event)
  handle_key_gen_committed _ block event = pure no_diff

  unfoldable pub confirm_actions : KeyGenSecretSharedEvent → ℕ → ShareStatus → List ProtocolAction
  confirm_actions event next_epoch status =
      if is_completed status
      then key_gen_confirm event.gid (build_key_gen_callback ext cfg next_epoch) ∷ []
      else []

  -- What `handleKeyGenSecretShared` returns for the answer of the client.
  unfoldable pub share_diff :
      ℕ → CollectingShares → KeyGenSecretSharedEvent → ShareStatus → StateDiff
  unfolding missing_after complaint_actions confirm_actions
  share_diff block rollover event status =
      if not event.shared
      then record no_diff {
        rollover = some (
            collecting_shares (record rollover {
              missing_shares_from = missing_after rollover event.identifier status;
              last_participant = some event.identifier;
            }));
        actions = complaint_actions event status;
      }
      else record no_diff {
        rollover = some (
            collecting_confirmations (record {
              group_id = event.gid;
              next_epoch = rollover.next_epoch;
              complaint_deadline = block + cfg.key_gen_timeout;
              response_deadline = block + 2 * cfg.key_gen_timeout;
              deadline = block + 3 * cfg.key_gen_timeout;
              last_participant = some event.identifier;
              complaints = rollover.complaints;
              missing_shares_from = missing_after rollover event.identifier status;
              confirmations_from = [];
            }));
        actions =
            complaint_actions event status ++ confirm_actions event rollover.next_epoch status;
      }

  unfoldable pub take_share : ℕ → CollectingShares → KeyGenSecretSharedEvent → M StateDiff
  unfolding share_diff
  take_share block rollover event = do
    status ← handle_keygen_secrets ext event.gid event.identifier event.f
    pure (share_diff block rollover event status)

  unfoldable pub handle_key_gen_secret_shared :
      RolloverState → ℕ → KeyGenSecretSharedEvent → M StateDiff
  unfolding take_share if_member
  handle_key_gen_secret_shared (collecting_shares rollover) block event =
      if not (rollover.group_id == event.gid) then pure no_diff else do
        self ← attempt (participant_id event.gid)
        if_member self (take_share block rollover event)
  handle_key_gen_secret_shared _ block event = pure no_diff
