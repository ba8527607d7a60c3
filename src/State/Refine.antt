-- ===== src/State/Refine.antt =====
-- State/Local against State/Diff: what a transition reads from its local copy is what the storage will
-- hold once the differences are applied to it.
use shieldnet.Prelude.{
  ℕ, ◌≡◌, refl, inl, inr, Option-cases, List, [], ◌∷◌, ◌++◌, Option, none, some, true, not, ◌==◌,
  ==_iff, arith, keep, is_some, includes, includes-append, includes-keep, if◌then◌else◌,
}
use shieldnet.Prelude.Assoc.{get, has, keys, get-put, get-remove}
use shieldnet.Data.State.{ConsensusDiff, StateDiff, ConsensusState, MachineStates}
use shieldnet.State.Diff.{
  StateStorage, update, pending, entry, apply_machines, apply_consensus, apply_diff,
}
use shieldnet.State.Local.{
  Overlay, LocalMachineStates, LocalConsensusStates, TransitionState, read, write, own_keys,
  entries_at, entries, overlay, view_machines, view_consensus, new_transition_state,
  apply_local_machines, apply_local_consensus, apply,
}

module _ {V : Type 0} where
  -- What an update does to the value at a key.
  abbrev pub updated : Option (ℕ × Option V) → ℕ → Option V → Option V
  updated none j old = old
  updated (some (k, v)) j old = if k == j then v else old

  pub read-write :
      (u : Option (ℕ × Option V)) (j : ℕ) (o : Overlay V)
      → read j (write u o) ≡ updated u j (read j o)
  unfolding read write
  read-write none j o = refl
  read-write (some (k, v)) j o = ground (arith, get-put k j v o.temp)

  get-update :
      (u : Option (ℕ × Option V)) (j : ℕ) (m : List (ℕ × V))
      → get j (update u m) ≡ updated u j (get j m)
  get-update none j m = refl
  get-update (some (k, none)) j m = get-remove k j m
  get-update (some (k, some v)) j m = get-put k j v m

  includes-keys : (j : ℕ) (m : List (ℕ × V)) → includes j (keys m) ≡ has j m
  includes-keys j [] = refl
  includes-keys j ((k, v) ∷ m) = ground (arith, includes-keys j m)

  get-entries_at :
      (o : Overlay V) (ks : List ℕ) (j : ℕ)
      → get j (entries_at o ks) ≡ (if includes j ks then read j o else none)
  unfolding entries_at
  get-entries_at o [] j = refl
  get-entries_at o (k ∷ ks) j = ground (arith, ==_iff k j, get-entries_at o ks j)

module _ {V : Type 0} where
  includes-own_keys :
      (o : Overlay V) (j : ℕ) {v : V} → read j o ≡ some v → includes j (own_keys o) ≡ true
  unfolding own_keys read
  includes-own_keys o j h = ground (
    arith,
    includes-keep j (λ k. is_some (read k o))
        (keys o.source ++ keep (λ k. not (has k o.source)) (keys o.temp)),
    includes-append j (keys o.source) (keep (λ k. not (has k o.source)) (keys o.temp)),
    includes-keep j (λ k. not (has k o.source)) (keys o.temp),
    includes-keys j o.source,
    includes-keys j o.temp,
  )

  -- Looking a key up in the entries that a proxy lists gives what reading the key of the proxy
  -- gives.
  pub get-entries : (o : Overlay V) (j : ℕ) → get j (entries o) ≡ read j o
  unfolding entries
  get-entries o j = elim (Option-cases (read j o)) [
    | inl e ↦ rw (get-entries_at o (own_keys o) j, e) (ground arith)
    | inr (v, e) ↦ rw (get-entries_at o (own_keys o) j, includes-own_keys o j e) refl
  ]

-- The same state, up to the order of the entries.
pub record SameMachines (a b : MachineStates) : Type 0 where
  pub rollover : a.rollover ≡ b.rollover
  pub signing : (k : ℕ) → get k a.signing ≡ get k b.signing

pub record SameConsensus (a b : ConsensusState) : Type 0 where
  pub genesis_group_id : a.genesis_group_id ≡ b.genesis_group_id
  pub active_epoch : a.active_epoch ≡ b.active_epoch
  pub group_pending_nonces : (k : ℕ) → get k a.group_pending_nonces ≡ get k b.group_pending_nonces
  pub epoch_groups : (k : ℕ) → get k a.epoch_groups ≡ get k b.epoch_groups
  pub signature_id_to_message :
      (k : ℕ) → get k a.signature_id_to_message ≡ get k b.signature_id_to_message

-- Both sides of one write.
same_update :
    {V : Type 0} (u : Option (ℕ × Option V)) (o : Overlay V) (m : List (ℕ × V))
    → ((k : ℕ) → get k (entries o) ≡ get k m)
    → (k : ℕ) → get k (entries (write u o)) ≡ get k (update u m)
same_update u o m h k =
    rw (get-entries (write u o) k, read-write u k o, get-update u k m, ← get-entries o k, h k)

apply_machines_same :
    (d : StateDiff) (l : LocalMachineStates) (m : MachineStates)
    → SameMachines (view_machines l) m
    → SameMachines (view_machines (apply_local_machines d l)) (apply_machines d m)
unfolding view_machines apply_local_machines apply_machines
apply_machines_same d l m h = record {
  rollover = ground (arith, h.rollover);
  signing = same_update d.signing l.signing m.signing h.signing;
}

apply_consensus_same :
    (d : Option ConsensusDiff) (l : LocalConsensusStates) (c : ConsensusState)
    → SameConsensus (view_consensus l) c
    → SameConsensus (view_consensus (apply_local_consensus d l)) (apply_consensus d c)
unfolding view_consensus apply_local_consensus apply_consensus
apply_consensus_same none l c h = h
apply_consensus_same (some d) l c h = record {
  genesis_group_id = ground (arith, h.genesis_group_id);
  active_epoch = ground (arith, h.active_epoch);
  group_pending_nonces =
      same_update (pending d.group_pending_nonces) l.group_pending_nonces c.group_pending_nonces
        h.group_pending_nonces;
  epoch_groups = same_update (entry d.epoch_group) l.epoch_groups c.epoch_groups h.epoch_groups;
  signature_id_to_message =
      same_update d.signature_id_to_message l.signature_id_to_message c.signature_id_to_message
        h.signature_id_to_message;
}

new_machines_same :
    (m : MachineStates) (c : ConsensusState)
    → SameMachines (view_machines (new_transition_state m c).machines) m
unfolding view_machines new_transition_state read
new_machines_same m c = record { rollover = refl; signing = λ k. get-entries (overlay m.signing) k }

new_consensus_same :
    (m : MachineStates) (c : ConsensusState)
    → SameConsensus (view_consensus (new_transition_state m c).consensus) c
unfolding view_consensus new_transition_state read
new_consensus_same m c = record {
  genesis_group_id = refl;
  active_epoch = refl;
  group_pending_nonces = λ k. get-entries (overlay c.group_pending_nonces) k;
  epoch_groups = λ k. get-entries (overlay c.epoch_groups) k;
  signature_id_to_message = λ k. get-entries (overlay c.signature_id_to_message) k;
}

-- A local copy and a storage that read the same.
pub record Tracks (t : TransitionState) (s : StateStorage) : Type 0 where
  pub machines : SameMachines (view_machines t.machines) s.machines
  pub consensus : SameConsensus (view_consensus t.consensus) s.consensus

pub new_transition_state-Tracks :
    (s : StateStorage) → Tracks (new_transition_state s.machines s.consensus) s
new_transition_state-Tracks s = record {
  machines = new_machines_same s.machines s.consensus;
  consensus = new_consensus_same s.machines s.consensus;
}

-- If a transition's local copy and the storage read the same, then they still do after a diff is
-- applied to the local copy by `TransitionState.apply` and to the storage by `applyDiff`: the
-- same rollover state, genesis group and epoch, and at every key the same entry of every map.
pub apply-Tracks :
    (d : StateDiff) (t : TransitionState) (s : StateStorage)
    → Tracks t s
    → Tracks (apply d t) (apply_diff d s).0
unfolding apply apply_diff
apply-Tracks d t s h = record {
  machines = apply_machines_same d t.machines s.machines h.machines;
  consensus = apply_consensus_same d.consensus t.consensus s.consensus h.consensus;
}
