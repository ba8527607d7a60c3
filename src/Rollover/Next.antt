-- ===== src/Rollover/Next.antt =====
-- The rollover check, and every event's handler: a step, or nothing.
use shieldnet.Prelude.{
  ℕ, ◌+◌, ◌/◌, ◌≤◌, ◌<◌, ◌≡◌, refl, ◌⊎◌, inl, inr, Option, none, some, Bool, true, false, not, ◌&&◌,
  ltb, ◌==◌, arith,
}
use shieldnet.Data.Event.{
  Event, event_key_gen, event_key_gen_committed, event_key_gen_secret_shared,
  event_key_gen_complaint_submitted, event_key_gen_complaint_responded, event_key_gen_confirmed,
  event_nonce_commitments_hash, event_sign_request, event_nonce_commitments, event_signature_share,
  event_signed, event_epoch_proposed, event_epoch_staged, event_transaction_proposed,
  event_transaction_attested,
}
use shieldnet.Data.State.{RolloverState, StateDiff, ConsensusState, MachineStates, MachineConfig}
use shieldnet.Data.External.{External}
use shieldnet.Store.Ensures.{Ensures, bind-Ensures, then-Ensures, pure-Ensures, if-Ensures}
use shieldnet.Keygen.Trigger.{skipped_diff, started_diff}
use shieldnet.Signing.Request.{handle_preprocess}
use shieldnet.Signing.Collect.{
  handle_revealed_nonces, handle_signing_shares, handle_signing_completed,
}
use shieldnet.Consensus.{
  next_epoch?, is_staged, activate, start_next_epoch, rollover_from, check_epoch_rollover,
  handle_epoch_staged, handle_transaction_attested, forget_attested, attestation_request,
  attested_message, handle_transaction_proposed,
}
use shieldnet.Signing.Status.{status_of}
use shieldnet.Service.{handle_event}
use shieldnet.Rollover.{Begins, Step, StepsFrom}
use shieldnet.Rollover.KeyGen.{
  trigger_key_gen-Ensures, genesis-StepsFrom, committed-StepsFrom, secret_shared-StepsFrom,
}
use shieldnet.Rollover.Disputes.{complaint_submitted-StepsFrom, complaint_responded-StepsFrom}
use shieldnet.Rollover.Confirmed.{confirmed-StepsFrom}
use shieldnet.Rollover.Handlers.{
  Stays-StepsFrom, stay, handle_sign-Stays, reveal_tracked-Stays, share_tracked-Stays,
  complete_tracked-Stays, forget_attested-Stays, propose_in-Stays, stage_in-StepsFrom,
}

module _ (ext : External) (cfg : MachineConfig) where
  activate-StepsFrom :
      (now : ℕ) (s : RolloverState) (b : Bool) (epoch : ℕ) (d : StateDiff)
      → StepsFrom now s d
      → StepsFrom now s (activate b epoch d)
  unfolding activate
  activate-StepsFrom now s false epoch d h = h
  activate-StepsFrom now s true epoch d h = h

  start_next_epoch-StepsFrom :
      (s : RolloverState) (epoch block : ℕ)
      → next_epoch? s ≡ some epoch
      → epoch ≤ block / cfg.blocks_per_epoch
      → (is_staged s ≡ true) ⊎ (0 < epoch)
      → Ensures
          (StepsFrom (block / cfg.blocks_per_epoch) s)
          (start_next_epoch ext cfg (is_staged s) epoch block)
  unfolding start_next_epoch skipped_diff started_diff
  start_next_epoch-StepsFrom s epoch block e le ready =
      bind-Ensures (StepsFrom (block / cfg.blocks_per_epoch) s)
        (trigger_key_gen-Ensures ext cfg (block / cfg.blocks_per_epoch)
          (StepsFrom (block / cfg.blocks_per_epoch) s) (block / cfg.blocks_per_epoch + 1) _ _ _
          (Step.next_begun epoch e le ready (Begins.skipped refl))
          (λ count threshold setup. Step.next_begun epoch e le ready (Begins.begun _ refl refl)))
        (λ d h. pure-Ensures (activate-StepsFrom _ s (is_staged s) epoch d h))

  rollover_from-StepsFrom :
      (s : RolloverState) (o : Option ℕ) (block : ℕ)
      → next_epoch? s ≡ o
      → Ensures
          (StepsFrom (block / cfg.blocks_per_epoch) s)
          (rollover_from ext cfg (is_staged s) o block)
  unfolding rollover_from
  rollover_from-StepsFrom s none block h = pure-Ensures tt
  rollover_from-StepsFrom s (some epoch) block h =
      if-Ensures (not (is_staged s) && epoch == 0) (λ _. pure-Ensures tt)
        λ e.
          if-Ensures (ltb (block / cfg.blocks_per_epoch) epoch) (λ _. pure-Ensures tt)
            λ f.
              start_next_epoch-StepsFrom s epoch block h
                (reached (block / cfg.blocks_per_epoch) epoch f) (ready (is_staged s) epoch e)
    where
      reached : (now e : ℕ) → ltb now e ≡ false → e ≤ now
      reached now e f = ground arith

      ready : (b : Bool) (e : ℕ) → (not b && e == 0) ≡ false → (b ≡ true) ⊎ (0 < e)
      ready true e f = inl refl
      ready false e f = inr (ground arith)

  pub check_epoch_rollover-StepsFrom :
      (s : RolloverState) (block : ℕ)
      → Ensures (StepsFrom (block / cfg.blocks_per_epoch) s) (check_epoch_rollover ext cfg s block)
  unfolding check_epoch_rollover
  check_epoch_rollover-StepsFrom s block =
      then-Ensures _ λ _. rollover_from-StepsFrom s (next_epoch? s) block refl

  -- Whatever the event, the rollover part of its handler's diff is a step of the state machine from
  -- the rollover state that the handler was given, or is absent.
  pub handle_event-StepsFrom :
      (now block : ℕ) (e : Event) (c : ConsensusState) (m : MachineStates)
      → Ensures (StepsFrom now m.rollover) (handle_event ext cfg block e c m)
  unfolding handle_event handle_preprocess handle_revealed_nonces handle_signing_shares
      handle_signing_completed handle_epoch_staged handle_transaction_attested
      handle_transaction_proposed
  handle_event-StepsFrom now block (event_key_gen e) c m = genesis-StepsFrom ext cfg now c m e
  handle_event-StepsFrom now block (event_key_gen_committed e) c m =
      committed-StepsFrom ext cfg now m.rollover block e
  handle_event-StepsFrom now block (event_key_gen_secret_shared e) c m =
      secret_shared-StepsFrom ext cfg now m.rollover block e
  handle_event-StepsFrom now block (event_key_gen_complaint_submitted e) c m =
      complaint_submitted-StepsFrom ext cfg now m.rollover block e
  handle_event-StepsFrom now block (event_key_gen_complaint_responded e) c m =
      complaint_responded-StepsFrom ext cfg now m.rollover block e
  handle_event-StepsFrom now block (event_key_gen_confirmed e) c m =
      confirmed-StepsFrom ext cfg now c m.rollover block e
  handle_event-StepsFrom now block (event_nonce_commitments_hash e) c m =
      then-Ensures _ λ _. pure-Ensures tt
  handle_event-StepsFrom now block (event_sign_request e) c m =
      stay now m.rollover _ (handle_sign-Stays ext cfg c m block e)
  handle_event-StepsFrom now block (event_nonce_commitments e) c m =
      stay now m.rollover _ (reveal_tracked-Stays ext cfg m.rollover _ block e)
  handle_event-StepsFrom now block (event_signature_share e) c m =
      stay now m.rollover _ (share_tracked-Stays ext cfg _ e)
  handle_event-StepsFrom now block (event_signed e) c m =
      stay now m.rollover _ (complete_tracked-Stays ext cfg _ block)
  handle_event-StepsFrom now block (event_epoch_proposed e) c m = pure-Ensures tt
  handle_event-StepsFrom now block (event_epoch_staged e) c m =
      stage_in-StepsFrom ext cfg now m.rollover m e
  handle_event-StepsFrom now block (event_transaction_proposed e) c m =
      stay now m.rollover _ (propose_in-Stays ext cfg _ block e)
  handle_event-StepsFrom now block (event_transaction_attested e) c m = pure-Ensures (
      Stays-StepsFrom now m.rollover
        (forget_attested ext (attested_message ext e)
          (attestation_request (status_of m (attested_message ext e))))
        (forget_attested-Stays ext cfg _ _))
