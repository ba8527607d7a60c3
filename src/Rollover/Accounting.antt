-- ===== src/Rollover/Accounting.antt =====
-- Invariants of the rollover states, by induction on the steps: the accounts of the complaints, and
-- that the genesis is waited for only once.
use mathlib.Core.Path.{subst}
use shieldnet.Prelude.{
  ℕ, ◌+◌, ◌≤◌, ◌/◌, ◌≡◌, refl, sym, List, [], ◌∷◌, Option, none, some, Bool, true, false, ◌==◌,
  if◌then◌else◌, arith, All,
}
use shieldnet.Prelude.Assoc.{get, put}
use shieldnet.Data.Event.{StateTransition}
use shieldnet.Data.State.{
  RolloverState, Complaints, MachineConfig, collecting_shares, collecting_confirmations,
}
use shieldnet.Data.External.{External}
use shieldnet.Keygen.Trigger.{is_waiting_for_genesis}
use shieldnet.Keygen.Complaints.{complaints_or_none, add_complaint, answer_complaint}
use shieldnet.Service.{Machine, process, run}
use shieldnet.Rollover.{Begins, Accounts, Step, Reach}
use shieldnet.Rollover.Process.{process-Reach, block_of}

-- The complaints that a state keeps.
abbrev pub complaints_in : RolloverState → List (ℕ × Complaints)
complaints_in (collecting_shares r) = r.complaints
complaints_in (collecting_confirmations r) = r.complaints
complaints_in _ = []

-- An entry counts at least one complaint, and no more open ones than complaints.
abbrev pub IsCounted : Complaints → Type 0
IsCounted c = (c.unresponded ≤ c.total) × (1 ≤ c.total)

abbrev pub IsAccounted : List (ℕ × Complaints) → Type 0
IsAccounted cs = All (λ e. IsCounted e.1) cs

empty-IsAccounted : IsAccounted []
empty-IsAccounted = tt

if_tail :
    (b : Bool) (x y : ℕ × Complaints) (xs ys : List (ℕ × Complaints))
    → IsAccounted (x ∷ xs)
    → IsAccounted (y ∷ ys)
    → IsAccounted (if b then x ∷ xs else y ∷ ys)
if_tail true x y xs ys h k = h
if_tail false x y xs ys h k = k

put-IsAccounted :
    (a : ℕ) (new : Complaints) (cs : List (ℕ × Complaints))
    → IsAccounted cs
    → IsCounted new
    → IsAccounted (put a new cs)
put-IsAccounted a new [] h n = (n, tt)
put-IsAccounted a new ((j, c) ∷ cs) h n =
    if_tail (j == a) (a, new) (j, c) cs (put a new cs) (n, h.1)
      (h.0, put-IsAccounted a new cs h.1 n)

if_found :
    (b : Bool) (x c : Complaints) (o : Option Complaints)
    → (if b then some x else o) ≡ some c
    → IsCounted x
    → (o ≡ some c → IsCounted c)
    → IsCounted c
if_found true x c o e h k = subst IsCounted (some-inj e) h
  where
    some-inj : {u v : Complaints} → some u ≡ some v → u ≡ v
    some-inj p = cc p
if_found false x c o e h k = k e

get-IsCounted :
    (a : ℕ) (c : Complaints) (cs : List (ℕ × Complaints))
    → IsAccounted cs
    → get a cs ≡ some c
    → IsCounted c
get-IsCounted a c [] h e = absurd (ground arith)
get-IsCounted a c ((j, x) ∷ cs) h e =
    if_found (j == a) x c (get a cs) e h.0 (get-IsCounted a c cs h.1)

add_complaint-IsCounted :
    (a : ℕ) (cs : List (ℕ × Complaints)) (o : Option Complaints)
    → IsAccounted cs
    → get a cs ≡ o
    → IsCounted (add_complaint (complaints_or_none o))
unfolding add_complaint
add_complaint-IsCounted a cs none h e = (omega arith, omega arith)
add_complaint-IsCounted a cs (some c) h e =
    let p = get-IsCounted a c cs h e in (omega (arith, p.0), omega arith)

answer_complaint-IsCounted : (c : Complaints) → IsCounted c → IsCounted (answer_complaint c)
unfolding answer_complaint
answer_complaint-IsCounted c h = (omega (arith, h.0), h.1)

Accounts-IsAccounted :
    (cs cs' : List (ℕ × Complaints)) → Accounts cs cs' → IsAccounted cs → IsAccounted cs'
Accounts-IsAccounted cs cs' (Accounts.kept e) h = subst IsAccounted (sym e) h
Accounts-IsAccounted cs cs' (Accounts.complained a e) h =
    subst IsAccounted (sym e)
      (put-IsAccounted a _ cs h (add_complaint-IsCounted a cs (get a cs) h refl))
Accounts-IsAccounted cs cs' (Accounts.answered a c found lt e) h =
    subst IsAccounted (sym e)
      (put-IsAccounted a _ cs h (answer_complaint-IsCounted c (get-IsCounted a c cs h found)))

abbrev Accounted : RolloverState → Type 0
Accounted s = IsAccounted (complaints_in s)

Begins-Accounted : (epoch : ℕ) (s : RolloverState) → Begins epoch s → Accounted s
Begins-Accounted epoch s (Begins.begun r e f) = subst Accounted (sym e) empty-IsAccounted
Begins-Accounted epoch s (Begins.skipped e) = subst Accounted (sym e) empty-IsAccounted

Step-Accounted : (now : ℕ) (s s' : RolloverState) → Step now s s' → Accounted s → Accounted s'
Step-Accounted now s s' (Step.genesis_begun r e f g) h = subst Accounted (sym f) empty-IsAccounted
Step-Accounted now s s' (Step.sharing_begun r r' e f g i c) h =
    subst Accounted (sym f) (subst IsAccounted (sym c) empty-IsAccounted)
Step-Accounted now s s' (Step.sharing r r' e f g i a) h =
    subst Accounted (sym f)
      (Accounts-IsAccounted r.complaints r'.complaints a (subst Accounted e h))
Step-Accounted now s s' (Step.confirming_begun r r' e f g i a) h =
    subst Accounted (sym f)
      (Accounts-IsAccounted r.complaints r'.complaints a (subst Accounted e h))
Step-Accounted now s s' (Step.confirming r r' e f g i a) h =
    subst Accounted (sym f)
      (Accounts-IsAccounted r.complaints r'.complaints a (subst Accounted e h))
Step-Accounted now s s' (Step.restarted epoch g b) h = Begins-Accounted epoch s' b
Step-Accounted now s s' (Step.rollover_proposed r r' e f g i) h =
    subst Accounted (sym f) empty-IsAccounted
Step-Accounted now s s' (Step.genesis_ready r e f) h = subst Accounted (sym f) empty-IsAccounted
Step-Accounted now s s' (Step.staged r epoch e f) h = subst Accounted (sym f) empty-IsAccounted
Step-Accounted now s s' (Step.next_begun epoch e le r b) h = Begins-Accounted (now + 1) s' b

Reach-Accounted : (now : ℕ) (s s' : RolloverState) → Reach now s s' → Accounted s → Accounted s'
Reach-Accounted now s s' Reach.here h = h
Reach-Accounted now s s' (Reach.next {t} r step) h =
    Step-Accounted now t s' step (Reach-Accounted now s t r h)

abbrev Started : RolloverState → Type 0
Started s = is_waiting_for_genesis s ≡ false

Begins-Started : (epoch : ℕ) (s : RolloverState) → Begins epoch s → Started s
Begins-Started epoch s (Begins.begun r e f) = subst Started (sym e) refl
Begins-Started epoch s (Begins.skipped e) = subst Started (sym e) refl

Step-Started : (now : ℕ) (s s' : RolloverState) → Step now s s' → Started s'
Step-Started now s s' (Step.genesis_begun r e f g) = subst Started (sym f) refl
Step-Started now s s' (Step.sharing_begun r r' e f g i c) = subst Started (sym f) refl
Step-Started now s s' (Step.sharing r r' e f g i a) = subst Started (sym f) refl
Step-Started now s s' (Step.confirming_begun r r' e f g i a) = subst Started (sym f) refl
Step-Started now s s' (Step.confirming r r' e f g i a) = subst Started (sym f) refl
Step-Started now s s' (Step.restarted epoch g b) = Begins-Started epoch s' b
Step-Started now s s' (Step.rollover_proposed r r' e f g i) = subst Started (sym f) refl
Step-Started now s s' (Step.genesis_ready r e f) = subst Started (sym f) refl
Step-Started now s s' (Step.staged r epoch e f) = subst Started (sym f) refl
Step-Started now s s' (Step.next_begun epoch e le r b) = Begins-Started (now + 1) s' b

Reach-Started : (now : ℕ) (s s' : RolloverState) → Reach now s s' → Started s → Started s'
Reach-Started now s s' Reach.here h = h
Reach-Started now s s' (Reach.next {t} r step) h = Step-Started now t s' step

module _ (ext : External) (cfg : MachineConfig) where
  -- Over any run of the machine, the stored complaints stay accounted for: if before the run
  -- every entry counts at least one complaint and no more unanswered complaints than
  -- complaints, then so after it.
  pub run-IsAccounted :
      (ts : List StateTransition) (m : Machine)
      → IsAccounted (complaints_in m.storage.machines.rollover)
      → IsAccounted (complaints_in (run ext cfg ts m).storage.machines.rollover)
  unfolding run
  run-IsAccounted [] m h = h
  run-IsAccounted (t ∷ ts) m h =
      run-IsAccounted ts (process ext cfg t m).machine
        (Reach-Accounted (block_of t / cfg.blocks_per_epoch) _ _ (process-Reach ext cfg t m) h)

  -- A machine whose rollover state is not that of waiting for the genesis never gets back into
  -- it, whatever transitions it processes.
  pub run-started :
      (ts : List StateTransition) (m : Machine)
      → is_waiting_for_genesis m.storage.machines.rollover ≡ false
      → is_waiting_for_genesis (run ext cfg ts m).storage.machines.rollover ≡ false
  unfolding run
  run-started [] m h = h
  run-started (t ∷ ts) m h =
      run-started ts (process ext cfg t m).machine
        (Reach-Started (block_of t / cfg.blocks_per_epoch) _ _ (process-Reach ext cfg t m) h)
