-- ===== src/Protocol/Base.antt =====
-- validator/src/consensus/protocol/base.ts: actions are sent one at a time, in order, until they expire.
use shieldnet.Prelude.{ℕ, zero, suc, ◌+◌, ◌-◌, List, ◌∷◌, Option, none, some, ltb, if◌then◌else◌}
use shieldnet.Data.Action.{ProtocolAction}
use shieldnet.Protocol.Queue.{Queue}

pub record ActionWithTimeout : Type 0 where
  pub action : ProtocolAction
  pub valid_until : ℕ

-- The queue, the action in flight, the number of retries that wait for their delay, and the actions
-- that were handed to `performAction` so far, with the time, the latest first.
pub record BaseProtocol (Q : Type 0) : Type 0 where
  pub action_queue : Q
  pub current_action : Option ActionWithTimeout
  pub retries : ℕ
  pub performed : List (ActionWithTimeout × ℕ)

-- What happens to the protocol, at a time: a call of `process`, the end of the action in flight, and the
-- end of the delay after a failure.
pub data ProtocolEvent : Type 0 where
  enqueue : ProtocolAction → (timeout : ℕ) → ProtocolEvent
  sent : ProtocolEvent
  send_failed : ProtocolEvent
  retry : ProtocolEvent

module _ {Q : Type 0} (queue : Queue ActionWithTimeout Q) where
  unfoldable pub drop_first : BaseProtocol Q → BaseProtocol Q
  drop_first s = record {
    action_queue = (queue.pop s.action_queue).1;
    current_action = s.current_action;
    retries = s.retries;
    performed = s.performed;
  }

  unfoldable pub perform : ℕ → ActionWithTimeout → BaseProtocol Q → BaseProtocol Q
  perform now a s = record {
    action_queue = s.action_queue;
    current_action = some a;
    retries = s.retries;
    performed = (a, now) ∷ s.performed;
  }

  -- With the action in flight, if any, and the first of the queue.
  unfoldable pub choose_next :
      ℕ
      → BaseProtocol Q
      → BaseProtocol Q
      → Option ActionWithTimeout
      → Option ActionWithTimeout
      → BaseProtocol Q
  unfolding perform
  choose_next now s dropped (some current) next_action = s
  choose_next now s dropped none none = s
  choose_next now s dropped none (some a) =
      if ltb a.valid_until now then dropped else perform now a s

  -- `checkNextAction`, which calls itself for each action that it drops, on fuel.
  unfoldable pub check_next_action : ℕ → ℕ → BaseProtocol Q → BaseProtocol Q
  unfolding drop_first choose_next
  check_next_action zero now s = s
  check_next_action (suc fuel) now s =
      choose_next now s (check_next_action fuel now (drop_first s)) s.current_action
        (queue.peek s.action_queue)

  unfoldable pub clear_current : BaseProtocol Q → BaseProtocol Q
  clear_current s = record {
    action_queue = s.action_queue;
    current_action = none;
    retries = s.retries;
    performed = s.performed;
  }

  -- The state before the next action is checked.
  unfoldable pub before_check : ℕ → ProtocolEvent → BaseProtocol Q → BaseProtocol Q
  unfolding clear_current drop_first
  before_check now (enqueue action timeout) s = record {
    action_queue =
        queue.push (record { action = action; valid_until = now + timeout }) s.action_queue;
    current_action = s.current_action;
    retries = s.retries;
    performed = s.performed;
  }
  before_check now sent s = clear_current (drop_first s)
  before_check now send_failed s = record {
    action_queue = s.action_queue;
    current_action = none;
    retries = suc s.retries;
    performed = s.performed;
  }
  before_check now retry s = record {
    action_queue = s.action_queue;
    current_action = s.current_action;
    retries = s.retries - 1;
    performed = s.performed;
  }

  -- A failure waits for the delay; the others check the next action at once.
  unfoldable pub on_event : ℕ → ℕ → ProtocolEvent → BaseProtocol Q → BaseProtocol Q
  unfolding check_next_action before_check
  on_event fuel now send_failed s = before_check now send_failed s
  on_event fuel now e s = check_next_action fuel now (before_check now e s)
