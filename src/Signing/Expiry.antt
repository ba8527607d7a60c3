-- ===== src/Signing/Expiry.antt =====
-- The timeouts of signing: every request whose deadline has passed is dropped or gets a new deadline.
use shieldnet.Prelude.{
  ℕ, ◌+◌, ◌<◌, ◌≡◌, refl, List, [], ◌∷◌, Option, none, some, true, ltb, length, arith,
}
use shieldnet.Data.Frost.{Hex, SignatureId, ParticipantId}
use shieldnet.Data.State.{
  RolloverState, SigningState, SigningPhase, GroupInfo, StateDiff, ConsensusState, MachineConfig,
  waiting_for_attestation, waiting_for_request, collect_nonce_commitments, collect_signing_shares,
}
use shieldnet.Data.External.{External}
use shieldnet.Store.Ensures.{
  Ensures, bind-Ensures, then-Ensures, pure-Ensures, throw-Ensures, if-Ensures, if-holds,
}
use shieldnet.Signing.Timeouts.{
  attestation_timeout, request_again, request_timeout, retry_diff, retry_without_missing,
  timeout_in_phase, check_signing_request_timeout, check_each,
}

-- An entry whose deadline is still to come, or none.
abbrev pub Fresh : ℕ → Option SigningState → Type 0
Fresh block none = Unit
Fresh block (some s) = block < s.deadline

-- What a diff does for the request of a message.
pub data Settles (block : ℕ) (message : Hex) (status : SigningState) (d : StateDiff) : Type 0 where
  early : d.signing ≡ none → block < status.deadline → Settles block message status d
  settled :
      (o : Option SigningState)
      → d.signing ≡ some (message, o)
      → Fresh block o
      → Settles block message status d

pub data AllSettle (block : ℕ) : List (Hex × SigningState) → List StateDiff → Type 0 where
  no_more : AllSettle block [] []
  one_more :
      {message : Hex} {status : SigningState} {l : List (Hex × SigningState)} {d : StateDiff}
      {ds : List StateDiff}
      → Settles block message status d
      → AllSettle block l ds
      → AllSettle block ((message, status) ∷ l) (d ∷ ds)

module _ (ext : External) (cfg : MachineConfig) (timeout : 0 < cfg.signing_timeout) where
  renewed : (block : ℕ) → block < block + cfg.signing_timeout
  renewed block = omega (arith, timeout)

  attestation_timeout-Settles :
      (s : RolloverState) (block : ℕ) (message : Hex) (status : SigningState) (id : SignatureId)
      (o : Option ParticipantId)
      → Ensures
          (Settles block message status)
          (attestation_timeout ext cfg s block message status id o)
  unfolding attestation_timeout
  attestation_timeout-Settles s block message status id none =
      pure-Ensures (Settles.settled none refl tt)
  attestation_timeout-Settles s block message status id (some r) =
      then-Ensures _
        λ g. then-Ensures _ λ self. pure-Ensures (Settles.settled _ refl (renewed block))

  request_again-Settles :
      (block : ℕ) (message : Hex) (status : SigningState) (o : Option ParticipantId)
      (ids : List ParticipantId) (g : GroupInfo)
      → Settles block message status (request_again ext cfg block message status o ids g)
  unfolding request_again
  request_again-Settles block message status none ids g = Settles.settled none refl tt
  request_again-Settles block message status (some r) ids g = Settles.settled _ refl (renewed block)

  request_timeout-Settles :
      (block : ℕ) (message : Hex) (status : SigningState) (o : Option ParticipantId)
      (ids : List ParticipantId) (g : Option GroupInfo)
      → Ensures
          (Settles block message status)
          (request_timeout ext cfg block message status o ids g)
  unfolding request_timeout
  request_timeout-Settles block message status o ids none =
      pure-Ensures (Settles.settled none refl tt)
  request_timeout-Settles block message status o ids (some g) = then-Ensures _ λ t. pure-Ensures (
      if-holds (Settles block message status) (ltb (length ids) t) (Settles.settled none refl tt)
        (request_again-Settles block message status o ids g))

  retry_without_missing-Settles :
      (block : ℕ) (message : Hex) (status : SigningState) (id : SignatureId)
      (o : Option ParticipantId) (ids : List ParticipantId) (g : Option GroupInfo)
      → Ensures
          (Settles block message status)
          (retry_without_missing ext cfg block message status id o ids g)
  unfolding retry_without_missing retry_diff
  retry_without_missing-Settles block message status id o ids none = throw-Ensures
  retry_without_missing-Settles block message status id o ids (some g) = then-Ensures _ λ t.
      if-Ensures (ltb (length ids) t) (λ _. pure-Ensures (Settles.settled none refl tt))
        λ _. then-Ensures _ λ self. pure-Ensures (Settles.settled _ refl (renewed block))

  timeout_in_phase-Settles :
      (c : ConsensusState) (s : RolloverState) (block : ℕ) (message : Hex) (status : SigningState)
      (phase : SigningPhase)
      → Ensures
          (Settles block message status)
          (timeout_in_phase ext cfg c s block message status phase)
  unfolding timeout_in_phase
  timeout_in_phase-Settles c s block message status (waiting_for_attestation id o) =
      attestation_timeout-Settles s block message status id o
  timeout_in_phase-Settles c s block message status (waiting_for_request o ids) =
      request_timeout-Settles block message status o _ _
  timeout_in_phase-Settles c s block message status (collect_nonce_commitments id o) =
      then-Ensures _ λ current.
        then-Ensures _ λ missing. retry_without_missing-Settles block message status id o _ _
  timeout_in_phase-Settles c s block message status (collect_signing_shares id ids o) =
      then-Ensures _ λ current. retry_without_missing-Settles block message status id o _ _

  early_enough : (block deadline : ℕ) → ltb block deadline ≡ true → block < deadline
  early_enough block deadline h = ground arith

  pub check_each-AllSettle :
      (c : ConsensusState) (s : RolloverState) (block : ℕ) (l : List (Hex × SigningState))
      → Ensures (AllSettle block l) (check_each ext cfg c s block l)
  unfolding check_each check_signing_request_timeout
  check_each-AllSettle c s block [] = pure-Ensures AllSettle.no_more
  check_each-AllSettle c s block ((message, status) ∷ l) =
      bind-Ensures (Settles block message status)
        (if-Ensures (ltb block status.deadline)
          (λ e. pure-Ensures (Settles.early refl (early_enough block status.deadline e)))
          (λ _. timeout_in_phase-Settles c s block message status status.phase))
        (λ d h.
          bind-Ensures (AllSettle block l) (check_each-AllSettle c s block l)
            (λ ds hs. pure-Ensures (AllSettle.one_more h hs)))
