-- ===== src/Service/Settled.antt =====
-- `checkNextTransition`: what a transition leaves, whether it throws, or the protocol throws at one of
-- its actions.
use shieldnet.Prelude.{ℕ, ◌+◌, ◌≡◌, List, [], ◌∷◌, ◌++◌, ◌⊎◌, true, false, length}
use shieldnet.Data.Action.{ProtocolAction}
use shieldnet.Data.State.{StateDiff, MachineConfig}
use shieldnet.Data.External.{External}
use shieldnet.Store.Defs.{Failure, Result, ok, err}
use shieldnet.Store.Ensures.{Ensures}
use shieldnet.State.Diff.{StateStorage}
use shieldnet.State.Local.{TransitionState}
use shieldnet.State.Refine.{Tracks}
use shieldnet.Service.{Core, Machine, HandOver, Outcome}
use shieldnet.Service.Atomic.{InStep}

-- The actions of all the differences.
unfoldable pub requested : List StateDiff → List ProtocolAction
requested [] = []
requested (d ∷ ds) = d.actions ++ requested ds

module _ (ext : External) (cfg : MachineConfig) where
  -- The protocol throws at none of the actions, called that often before the first of them.
  unfoldable pub Takes : ℕ → List ProtocolAction → Type 0
  Takes calls [] = Unit
  Takes calls (a ∷ acts) = (ext.protocol_throws calls a ≡ false) × Takes (calls + 1) acts

  pub record TookAll (calls : ℕ) (acts : List ProtocolAction) (h : HandOver) : Type 0 where
    pub all_taken : h.taken ≡ acts
    pub success : h.took_all ≡ true
    pub called : h.calls ≡ calls + length acts

  pub record Stopped (calls : ℕ) (acts : List ProtocolAction) (h : HandOver) : Type 0 where
    pub action : ProtocolAction
    pub dropped : List ProtocolAction
    pub split : h.taken ++ action ∷ dropped ≡ acts
    pub throws : ext.protocol_throws (calls + length h.taken) action ≡ true
    pub failure : h.took_all ≡ false
    pub called : h.calls ≡ calls + length h.taken + 1

  -- The protocol took the actions in order, all of them or those before the first it throws at.
  pub record HandsOver (calls : ℕ) (acts : List ProtocolAction) (h : HandOver) : Type 0 where
    pub taken : Takes calls h.taken
    pub outcome : TookAll calls acts h ⊎ Stopped calls acts h

module _ (ext : External) (cfg : MachineConfig) where
  -- Differences that a local copy, which is in step with the storage, has collected.
  pub record Collected (s : StateStorage) (ds : List StateDiff) : Type 0 where
    pub copy : TransitionState
    pub in_step : InStep s copy
    pub same : copy.diffs ≡ ds

  -- The transition threw, and nothing is stored or handed to the protocol.
  pub record NothingStored (m : Machine) (r : Result (List StateDiff)) (o : Outcome) : Type 0 where
    pub error : Failure
    pub thrown : r ≡ err error
    pub storage : o.machine.storage ≡ m.storage
    pub actions : o.actions ≡ []
    pub calls : o.machine.calls ≡ m.calls
    pub failure : o.succeeded ≡ false

  -- The transition returned the differences of its local copy, which the storage now reads like,
  -- and their actions went to the protocol.
  pub record AllStored (m : Machine) (r : Result (List StateDiff)) (o : Outcome) : Type 0 where
    pub copy : TransitionState
    pub returned : r ≡ ok copy.diffs
    pub stored : Tracks copy o.machine.storage
    pub handed :
        HandsOver ext cfg m.calls
          (requested copy.diffs)
          (record { taken = o.actions; took_all = o.succeeded; calls = o.machine.calls })
