-- ===== src/Rollover/Handlers.antt =====
-- The handlers of signing and of the consensus contract, and the rollover check: steps, or nothing.
use mathlib.Core.Path.{subst}
use shieldnet.Prelude.{sym, ℕ, ◌+◌, ◌≡◌, refl, List, Option, none, some, not, ◌&&◌, ltb, ◌==◌}
use shieldnet.Prelude.Assoc.{get}
use shieldnet.Data.Frost.{Hex, SignatureId, ParticipantId}
use shieldnet.Data.Packet.{Packet}
use shieldnet.Data.Event.{
  SignRequestEvent, NonceCommitmentsEvent, SignatureShareEvent, EpochEvent,
  TransactionProposedEvent,
}
use shieldnet.Data.State.{
  RolloverState, SignRollover, SigningState, SigningPhase, GroupInfo, StateDiff, ConsensusState,
  MachineStates, MachineConfig, sign_rollover, waiting_for_request, collect_nonce_commitments,
  collect_signing_shares,
}
use shieldnet.Data.External.{External}
use shieldnet.Store.Defs.{Result, ok, err, M}
use shieldnet.Store.Ensures.{
  Post, Ensures, bind-Ensures, then-Ensures, pure-Ensures, throw-Ensures, if-Ensures,
}
use shieldnet.Verify.{VerificationResult, valid, invalid}
use shieldnet.Keygen.Shares.{if_member}
use shieldnet.Signing.Status.{status_of}
use shieldnet.Signing.Request.{
  nonce_threshold, is_pending, is_epoch_staged, request_nonces, top_up_nonces, check_group_nonces,
  check_available_nonces, reveal_diff, start_signing, sign_in_phase, sign_with_status, handle_sign,
}
use shieldnet.Signing.Collect.{
  publish_diff, reveal_in_phase, reveal_tracked, share_in_phase, share_tracked, complete_in_phase,
  complete_tracked,
}
use shieldnet.Consensus.{
  attestation_request, staged_diff, prepare_group, stage_attested, stage_in, forget_attested,
  track_proposal, proposal_packet, propose_in,
}
use shieldnet.Rollover.{Step, StepOrStay, StepsFrom}

-- The rollover state is left alone.
abbrev pub Stays : StateDiff → Type 0
Stays d = d.rollover ≡ none

pub Stays-StepsFrom : (now : ℕ) (s : RolloverState) (d : StateDiff) → Stays d → StepsFrom now s d
Stays-StepsFrom now s d h = subst (StepOrStay now s) (sym h) tt

stay-Post :
    (now : ℕ) (s : RolloverState) (r : Result StateDiff) → Post Stays r → Post (StepsFrom now s) r
stay-Post now s (ok d) h = Stays-StepsFrom now s d h
stay-Post now s (err e) h = tt

pub stay :
    (now : ℕ) (s : RolloverState) (m : M StateDiff) → Ensures Stays m → Ensures (StepsFrom now s) m
stay now s m h = record { post = λ w. stay-Post now s (m w).0 (h.post w) }

module _ (ext : External) (cfg : MachineConfig) where
  check_group_nonces-Stays :
      (c : ConsensusState) (g : Option GroupInfo) (seq : ℕ)
      → Ensures Stays (check_group_nonces ext c g seq)
  unfolding check_group_nonces top_up_nonces request_nonces
  check_group_nonces-Stays c none seq = pure-Ensures refl
  check_group_nonces-Stays c (some g) seq =
      if-Ensures (is_pending (get g.group_id c.group_pending_nonces)) (λ _. pure-Ensures refl)
        λ _. then-Ensures _ λ fuel. then-Ensures _ λ available.
          if-Ensures (ltb available.gained (nonce_threshold + available.lost))
            (λ _. then-Ensures _ λ root. pure-Ensures refl) (λ _. pure-Ensures refl)

  check_available_nonces-Stays :
      (c : ConsensusState) (s : RolloverState) (seq : ℕ)
      → Ensures Stays (check_available_nonces ext c s seq)
  unfolding check_available_nonces
  check_available_nonces-Stays c s seq =
      if-Ensures (c.active_epoch == 0 && not (is_epoch_staged s)) (λ _. pure-Ensures refl)
        λ _. check_group_nonces-Stays c (get c.active_epoch c.epoch_groups) seq

  start_signing-Stays :
      (d : StateDiff) (status : SigningState) (ids : List ParticipantId) (block : ℕ)
      (e : SignRequestEvent)
      → Stays d
      → Ensures Stays (start_signing ext cfg d status ids block e)
  unfolding start_signing reveal_diff
  start_signing-Stays d status ids block e h = then-Ensures _ λ known.
      if-Ensures (not known) (λ _. pure-Ensures h) λ _. then-Ensures _ λ own. pure-Ensures refl

  sign_in_phase-Stays :
      (d : StateDiff) (status : SigningState) (phase : SigningPhase) (block : ℕ)
      (e : SignRequestEvent)
      → Stays d
      → Ensures Stays (sign_in_phase ext cfg d status phase block e)
  unfolding sign_in_phase
  sign_in_phase-Stays d status (waiting_for_request r ids) block e h =
      start_signing-Stays d status ids block e h
  sign_in_phase-Stays d status _ block e h = pure-Ensures h

  sign_with_status-Stays :
      (d : StateDiff) (status : Option SigningState) (block : ℕ) (e : SignRequestEvent)
      → Stays d
      → Ensures Stays (sign_with_status ext cfg d status block e)
  unfolding sign_with_status
  sign_with_status-Stays d none block e h = pure-Ensures h
  sign_with_status-Stays d (some status) block e h =
      sign_in_phase-Stays d status status.phase block e h

  pub handle_sign-Stays :
      (c : ConsensusState) (m : MachineStates) (block : ℕ) (e : SignRequestEvent)
      → Ensures Stays (handle_sign ext cfg c m block e)
  unfolding handle_sign
  handle_sign-Stays c m block e =
      bind-Ensures Stays (check_available_nonces-Stays c m.rollover e.sequence)
        (λ d h. sign_with_status-Stays d (status_of m e.message) block e h)

  reveal_in_phase-Stays :
      (s : RolloverState) (message : Hex) (status : SigningState) (phase : SigningPhase) (block : ℕ)
      (e : NonceCommitmentsEvent)
      → Ensures Stays (reveal_in_phase ext cfg s message status phase block e)
  unfolding reveal_in_phase publish_diff
  reveal_in_phase-Stays s message status (collect_nonce_commitments sid last) block e =
      then-Ensures _ λ ready.
        if-Ensures (not ready) (λ _. pure-Ensures refl)
          λ _. then-Ensures _ λ share. pure-Ensures refl
  reveal_in_phase-Stays s message status _ block e = pure-Ensures refl

  pub reveal_tracked-Stays :
      (s : RolloverState) (o : Option (Hex × SigningState)) (block : ℕ) (e : NonceCommitmentsEvent)
      → Ensures Stays (reveal_tracked ext cfg s o block e)
  unfolding reveal_tracked
  reveal_tracked-Stays s none block e = pure-Ensures refl
  reveal_tracked-Stays s (some (message, status)) block e =
      reveal_in_phase-Stays s message status status.phase block e

  share_in_phase-Stays :
      (message : Hex) (status : SigningState) (phase : SigningPhase) (e : SignatureShareEvent)
      → Ensures Stays (share_in_phase message status phase e)
  unfolding share_in_phase
  share_in_phase-Stays message status (collect_signing_shares sid ids last) e = pure-Ensures refl
  share_in_phase-Stays message status _ e = pure-Ensures refl

  pub share_tracked-Stays :
      (o : Option (Hex × SigningState)) (e : SignatureShareEvent)
      → Ensures Stays (share_tracked o e)
  unfolding share_tracked
  share_tracked-Stays none e = pure-Ensures refl
  share_tracked-Stays (some (message, status)) e =
      share_in_phase-Stays message status status.phase e

  complete_in_phase-Stays :
      (message : Hex) (status : SigningState) (phase : SigningPhase) (block : ℕ)
      → Ensures Stays (complete_in_phase cfg message status phase block)
  unfolding complete_in_phase
  complete_in_phase-Stays message status (collect_signing_shares sid ids none) block = throw-Ensures
  complete_in_phase-Stays message status (collect_signing_shares sid ids (some l)) block =
      pure-Ensures refl
  complete_in_phase-Stays message status _ block = pure-Ensures refl

  pub complete_tracked-Stays :
      (o : Option (Hex × SigningState)) (block : ℕ) → Ensures Stays (complete_tracked cfg o block)
  unfolding complete_tracked
  complete_tracked-Stays none block = pure-Ensures refl
  complete_tracked-Stays (some (message, status)) block =
      complete_in_phase-Stays message status status.phase block

  pub forget_attested-Stays :
      (message : Hex) (o : Option SignatureId) → Stays (forget_attested ext message o)
  unfolding forget_attested
  forget_attested-Stays message none = refl
  forget_attested-Stays message (some sid) = refl

  track_proposal-Stays :
      (g : GroupInfo) (block : ℕ) (packet : Packet) (r : VerificationResult)
      → Ensures Stays (track_proposal ext cfg g block packet r)
  unfolding track_proposal
  track_proposal-Stays g block packet invalid = pure-Ensures refl
  track_proposal-Stays g block packet (valid message) = then-Ensures _ λ ids. pure-Ensures refl

  pub propose_in-Stays :
      (g : Option GroupInfo) (block : ℕ) (e : TransactionProposedEvent)
      → Ensures Stays (propose_in ext cfg g block e)
  unfolding propose_in
  propose_in-Stays none block e = pure-Ensures refl
  propose_in-Stays (some g) block e =
      then-Ensures _ λ r. track_proposal-Stays g block (proposal_packet ext cfg e) r

  if_member-StepsFrom :
      (now : ℕ) (s : RolloverState) (o : Option ParticipantId) (rest : M StateDiff)
      → Ensures (StepsFrom now s) rest
      → Ensures (StepsFrom now s) (if_member o rest)
  unfolding if_member
  if_member-StepsFrom now s none rest h = pure-Ensures tt
  if_member-StepsFrom now s (some p) rest h = h

  stage_attested-StepsFrom :
      (now : ℕ) (r : SignRollover) (o : Option SignatureId) (e : EpochEvent)
      → Ensures (StepsFrom now (sign_rollover r)) (stage_attested ext r o e)
  unfolding stage_attested prepare_group staged_diff
  stage_attested-StepsFrom now r none e = pure-Ensures tt
  stage_attested-StepsFrom now r (some sid) e = then-Ensures _ λ self.
      if_member-StepsFrom now (sign_rollover r) self _
        (then-Ensures _ λ root. pure-Ensures (Step.staged r e.proposed_epoch refl refl))

  pub stage_in-StepsFrom :
      (now : ℕ) (s : RolloverState) (m : MachineStates) (e : EpochEvent)
      → Ensures (StepsFrom now s) (stage_in ext s m e)
  unfolding stage_in
  stage_in-StepsFrom now (sign_rollover r) m e =
      stage_attested-StepsFrom now r (attestation_request (status_of m r.message)) e
  stage_in-StepsFrom now _ m e = pure-Ensures tt
