-- ===== src/Rollover/Timeouts.antt =====
-- The timeouts of signing ceremonies leave the rollover state alone.
use shieldnet.Prelude.{ℕ, refl, List, [], ◌∷◌, Option, none, some, ltb, All, length}
use shieldnet.Data.Frost.{Hex, SignatureId, ParticipantId}
use shieldnet.Data.State.{
  RolloverState, SigningState, SigningPhase, GroupInfo, ConsensusState, MachineConfig,
  waiting_for_attestation, waiting_for_request, collect_nonce_commitments, collect_signing_shares,
}
use shieldnet.Data.External.{External}
use shieldnet.Store.Ensures.{
  Ensures, bind-Ensures, then-Ensures, pure-Ensures, throw-Ensures, if-Ensures, if-holds,
}
use shieldnet.Signing.Timeouts.{
  attestation_timeout, request_again, request_timeout, retry_diff, retry_without_missing,
  timeout_in_phase, check_signing_request_timeout, check_each,
}
use shieldnet.Rollover.Handlers.{Stays}

module _ (ext : External) (cfg : MachineConfig) where
  attestation_timeout-Stays :
      (s : RolloverState) (block : ℕ) (message : Hex) (status : SigningState) (id : SignatureId)
      (o : Option ParticipantId)
      → Ensures Stays (attestation_timeout ext cfg s block message status id o)
  unfolding attestation_timeout
  attestation_timeout-Stays s block message status id none = pure-Ensures refl
  attestation_timeout-Stays s block message status id (some r) =
      then-Ensures _ λ g. then-Ensures _ λ self. pure-Ensures refl

  request_again-Stays :
      (block : ℕ) (message : Hex) (status : SigningState) (o : Option ParticipantId)
      (ids : List ParticipantId) (g : GroupInfo)
      → Stays (request_again ext cfg block message status o ids g)
  unfolding request_again
  request_again-Stays block message status none ids g = refl
  request_again-Stays block message status (some r) ids g = refl

  request_timeout-Stays :
      (block : ℕ) (message : Hex) (status : SigningState) (o : Option ParticipantId)
      (ids : List ParticipantId) (g : Option GroupInfo)
      → Ensures Stays (request_timeout ext cfg block message status o ids g)
  unfolding request_timeout
  request_timeout-Stays block message status o ids none = pure-Ensures refl
  request_timeout-Stays block message status o ids (some g) = then-Ensures _ λ t.
      pure-Ensures (
        if-holds Stays (ltb (length ids) t) refl (request_again-Stays block message status o ids g))

  retry_without_missing-Stays :
      (block : ℕ) (message : Hex) (status : SigningState) (id : SignatureId)
      (o : Option ParticipantId) (ids : List ParticipantId) (g : Option GroupInfo)
      → Ensures Stays (retry_without_missing ext cfg block message status id o ids g)
  unfolding retry_without_missing retry_diff
  retry_without_missing-Stays block message status id o ids none = throw-Ensures
  retry_without_missing-Stays block message status id o ids (some g) = then-Ensures _ λ t.
      if-Ensures (ltb (length ids) t) (λ _. pure-Ensures refl)
        λ _. then-Ensures _ λ self. pure-Ensures refl

  timeout_in_phase-Stays :
      (c : ConsensusState) (s : RolloverState) (block : ℕ) (message : Hex) (status : SigningState)
      (phase : SigningPhase)
      → Ensures Stays (timeout_in_phase ext cfg c s block message status phase)
  unfolding timeout_in_phase
  timeout_in_phase-Stays c s block message status (waiting_for_attestation id o) =
      attestation_timeout-Stays s block message status id o
  timeout_in_phase-Stays c s block message status (waiting_for_request o ids) =
      request_timeout-Stays block message status o _ _
  timeout_in_phase-Stays c s block message status (collect_nonce_commitments id o) =
      then-Ensures _ λ current.
        then-Ensures _ λ missing. retry_without_missing-Stays block message status id o _ _
  timeout_in_phase-Stays c s block message status (collect_signing_shares id ids o) =
      then-Ensures _ λ current. retry_without_missing-Stays block message status id o _ _

  pub check_each-Stays :
      (c : ConsensusState) (s : RolloverState) (block : ℕ) (l : List (Hex × SigningState))
      → Ensures (All Stays) (check_each ext cfg c s block l)
  unfolding check_each check_signing_request_timeout
  check_each-Stays c s block [] = pure-Ensures tt
  check_each-Stays c s block ((message, status) ∷ l) =
      bind-Ensures Stays
        (if-Ensures (ltb block status.deadline) (λ _. pure-Ensures refl)
          (λ _. timeout_in_phase-Stays c s block message status status.phase))
        (λ d h.
          bind-Ensures (All Stays) (check_each-Stays c s block l) (λ ds hs. pure-Ensures (h, hs)))
