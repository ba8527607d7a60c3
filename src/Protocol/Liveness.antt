-- ===== src/Protocol/Liveness.antt =====
-- validator/src/consensus/protocol/base.ts: nothing is sent late, and no action is forgotten.
use mathlib.Core.Path.{subst}
use shieldnet.Prelude.{
  ℕ, zero, suc, ◌+◌, ◌≤◌, ◌<◌, ◌≡◌, ◌≢◌, refl, sym, ap, ◌∙◌, ◌⊎◌, inl, inr, List, [], ◌∷◌, ◌++◌,
  Option, none, some, true, arith, ltb, is_some, length, All, Bool-cases, length-append,
}
use shieldnet.Data.Action.{ProtocolAction}
use shieldnet.Protocol.Queue.{Queue, first, rest_of}
use shieldnet.Protocol.Base.{
  ActionWithTimeout, BaseProtocol, ProtocolEvent, enqueue, sent, send_failed, retry, drop_first,
  perform, choose_next, check_next_action, clear_current, before_check, on_event,
}

-- No action was sent after it expired.
abbrev pub IsTimely : List (ActionWithTimeout × ℕ) → Type 0
IsTimely performed = All (λ p. p.1 ≤ p.0.valid_until) performed

-- An action ends only when one is in flight, and a delay only when one runs.
abbrev pub IsPossible : {Q : Type 0} → ProtocolEvent → BaseProtocol Q → Type 0
IsPossible (enqueue action timeout) s = Unit
IsPossible sent s = is_some s.current_action ≡ true
IsPossible send_failed s = is_some s.current_action ≡ true
IsPossible retry s = 1 ≤ s.retries

module _ {Q : Type 0} (queue : Queue ActionWithTimeout Q) where
  -- The action in flight is the first of the queue, and no action was sent late.
  pub record IsSafe (s : BaseProtocol Q) : Type 0 where
    pub valid : queue.IsValid s.action_queue
    pub in_flight :
        (s.current_action ≡ none) ⊎ (first (queue.contents s.action_queue) ≡ s.current_action)
    pub timely : IsTimely s.performed

  -- While there are actions, one is in flight or a retry is due.
  abbrev pub IsProgressing : BaseProtocol Q → Type 0
  IsProgressing s =
      (queue.contents s.action_queue ≡ []) ⊎ ((is_some s.current_action ≡ true) ⊎ (1 ≤ s.retries))

  -- After a check: no action is left, or one is in flight.
  abbrev IsChecked : BaseProtocol Q → Type 0
  IsChecked s =
      IsSafe s × ((queue.contents s.action_queue ≡ []) ⊎ (is_some s.current_action ≡ true))

  drop_first-IsSafe :
      (s : BaseProtocol Q) → s.current_action ≡ none → IsSafe s → IsSafe (drop_first queue s)
  unfolding drop_first
  drop_first-IsSafe s e h = record {
    valid = queue.pop-IsValid s.action_queue h.valid;
    in_flight = inl e;
    timely = h.timely;
  }

  empty_of_first : (l : List ActionWithTimeout) → first l ≡ none → l ≡ []
  empty_of_first [] e = refl
  empty_of_first (a ∷ l) e = absurd (ground arith)

  nonempty_of_first :
      (a : ActionWithTimeout) (l : List ActionWithTimeout) → first l ≡ some a → l ≢ []
  nonempty_of_first a [] e z = absurd (ground arith)
  nonempty_of_first a (b ∷ l) e z = absurd (ground arith)

  shorter_rest :
      (l : List ActionWithTimeout) (n : ℕ) → l ≢ [] → length l < suc n → length (rest_of l) < n
  shorter_rest [] n z h = absurd (z refl)
  shorter_rest (a ∷ l) n z h = omega arith

  rest_within : (l : List ActionWithTimeout) (n : ℕ) → length l + 1 < n → length (rest_of l) < n
  rest_within [] n h = omega arith
  rest_within (a ∷ l) n h = omega arith

  choose_next-IsChecked :
      (now : ℕ) (s dropped : BaseProtocol Q) (current peeked : Option ActionWithTimeout)
      → IsSafe s
      → s.current_action ≡ current
      → first (queue.contents s.action_queue) ≡ peeked
      → (current ≡ none → queue.contents s.action_queue ≢ [] → IsChecked dropped)
      → IsChecked (choose_next queue now s dropped current peeked)
  unfolding choose_next perform
  choose_next-IsChecked now s dropped (some a) peeked h e p k = (h, inr (rw e refl))
  choose_next-IsChecked now s dropped none none h e p k =
      (h, inl (empty_of_first (queue.contents s.action_queue) p))
  choose_next-IsChecked now s dropped none (some a) h e p k =
      elim (Bool-cases (ltb a.valid_until now)) [
        | inl t ↦
            rw t (k refl (λ z. absurd (nonempty_of_first a (queue.contents s.action_queue) p z)))
        | inr t ↦ rw t (
          record { valid = h.valid; in_flight = inr p; timely = (ground arith, h.timely) },
          inr refl,
        )
      ]

  check_next_action-IsChecked :
      (fuel now : ℕ) (s : BaseProtocol Q)
      → IsSafe s
      → length (queue.contents s.action_queue) < fuel
      → IsChecked (check_next_action queue fuel now s)
  unfolding check_next_action drop_first
  check_next_action-IsChecked zero now s h n = absurd (omega arith)
  check_next_action-IsChecked (suc fuel) now s h n =
      choose_next-IsChecked now s _ _ _ h refl (sym (queue.peek-contents s.action_queue h.valid))
        (λ e z.
          check_next_action-IsChecked fuel now (drop_first queue s) (drop_first-IsSafe s e h) (
            subst (λ l. length l < fuel) (sym (queue.contents-pop s.action_queue h.valid))
              (shorter_rest (queue.contents s.action_queue) fuel z n)))

  IsChecked-IsProgressing : (s : BaseProtocol Q) → IsChecked s → IsSafe s × IsProgressing s
  IsChecked-IsProgressing s (h, inl e) = (h, inl e)
  IsChecked-IsProgressing s (h, inr e) = (h, inr (inl e))

  in_flight_pushed :
      (l : List ActionWithTimeout) (a : ActionWithTimeout) (c : Option ActionWithTimeout)
      → (c ≡ none) ⊎ (first l ≡ c)
      → (c ≡ none) ⊎ (first (l ++ a ∷ []) ≡ c)
  in_flight_pushed l a c (inl e) = inl e
  in_flight_pushed [] a c (inr e) = inl (sym e)
  in_flight_pushed (b ∷ l) a c (inr e) = inr e

  enqueue-IsSafe :
      (now timeout : ℕ) (action : ProtocolAction) (s : BaseProtocol Q)
      → IsSafe s
      → IsSafe (before_check queue now (enqueue action timeout) s)
  unfolding before_check
  enqueue-IsSafe now timeout action s h =
      let a : ActionWithTimeout = record { action = action; valid_until = now + timeout } in
      record {
        valid = queue.push-IsValid a s.action_queue h.valid;
        in_flight =
            subst (λ l. (s.current_action ≡ none) ⊎ (first l ≡ s.current_action))
              (sym (queue.contents-push a s.action_queue h.valid))
              (in_flight_pushed (queue.contents s.action_queue) a s.current_action h.in_flight);
        timely = h.timely;
      }

  enqueue-length :
      (now timeout : ℕ) (action : ProtocolAction) (s : BaseProtocol Q)
      → IsSafe s
      → length (queue.contents (before_check queue now (enqueue action timeout) s).action_queue)
        ≡ length (queue.contents s.action_queue) + 1
  unfolding before_check
  enqueue-length now timeout action s h =
      let a : ActionWithTimeout = record { action = action; valid_until = now + timeout } in
      ap length (queue.contents-push a s.action_queue h.valid)
      ∙ length-append (queue.contents s.action_queue) (a ∷ [])

  -- Given fuel for the queued actions, every event keeps: the action in flight is the first of
  -- the queue, no action was sent after it expired, and while there are actions in the queue
  -- one is in flight or a retry is due.
  pub on_event-IsSafe :
      (fuel now : ℕ) (e : ProtocolEvent) (s : BaseProtocol Q)
      → IsSafe s
      → IsProgressing s
      → IsPossible e s
      → length (queue.contents s.action_queue) + 1 < fuel
      → IsSafe (on_event queue fuel now e s) × IsProgressing (on_event queue fuel now e s)
  unfolding on_event before_check clear_current drop_first
  on_event-IsSafe fuel now (enqueue action timeout) s h p k n = IsChecked-IsProgressing _ (
      check_next_action-IsChecked fuel now (before_check queue now (enqueue action timeout) s)
        (enqueue-IsSafe now timeout action s h)
        (omega (arith, enqueue-length now timeout action s h, n)))
  on_event-IsSafe fuel now sent s h p k n = IsChecked-IsProgressing _ (
      check_next_action-IsChecked fuel now (before_check queue now sent s)
        (record {
          valid = queue.pop-IsValid s.action_queue h.valid;
          in_flight = inl refl;
          timely = h.timely;
        })
        (subst (λ l. length l < fuel) (sym (queue.contents-pop s.action_queue h.valid))
          (rest_within (queue.contents s.action_queue) fuel n)))
  on_event-IsSafe fuel now send_failed s h p k n =
      (record { valid = h.valid; in_flight = inl refl; timely = h.timely }, inr (inr (omega arith)))
  on_event-IsSafe fuel now retry s h p k n = IsChecked-IsProgressing _ (
      check_next_action-IsChecked fuel now (before_check queue now retry s)
        (record { valid = h.valid; in_flight = h.in_flight; timely = h.timely }) (omega (arith, n)))
