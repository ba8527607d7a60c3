-- ===== src/Watcher/Coverage.antt =====
-- What the warp of validator/src/watcher/events.ts delivers: all the logs of its blocks.
use mathlib.Core.List.{Perm, append_assoc, append-nil}
use mathlib.Core.List.Perm
use mathlib.Core.Path.{subst}
use shieldnet.Prelude.{
  ℕ, zero, suc, ◌+◌, ◌-◌, ◌≤◌, ◌≡◌, sym, ap, ◌∙◌, inl, inr, List, [], ◌∷◌, ◌++◌, map, Option-cases,
  Option, none, some, false, arith, ltb, length, Bool-cases,
}
use shieldnet.Watcher.Bloom.{Viem}
use shieldnet.Watcher.Logs.{
  AbiEvent, Log, LogsConfig, between, Client, of_range, potentially_missed, block_range, checked,
  sorted, flat, unless_excluded, fallible, filter_all_events, get_logs_one_query_all_events,
  filter_event, get_logs_of_event, get_logs_one_query_per_event, query_to_block, warp_query,
}
use shieldnet.Watcher.Sorting.{sort_logs-Perm}

-- An answer has just the logs that it should have, in some order, or is an error.
abbrev pub Agrees : Option (List Log) → List Log → Type 0
Agrees none logs = Unit
Agrees (some answer) logs = Perm answer logs

-- The logs of some events in a block, and in so many blocks from one on, given those of each.
abbrev pub logs_in : (AbiEvent → ℕ → List Log) → List AbiEvent → ℕ → List Log
logs_in logs_of [] n = []
logs_in logs_of (e ∷ rest) n = logs_of e n ++ logs_in logs_of rest n

abbrev pub logs_from : (AbiEvent → ℕ → List Log) → List AbiEvent → ℕ → ℕ → List Log
logs_from logs_of events from_block zero = []
logs_from logs_of events from_block (suc count) =
    logs_in logs_of events from_block ++ logs_from logs_of events (suc from_block) count

-- The documented behaviour of `getLogs` on ranges of blocks.
pub record IsHonest (cfg : LogsConfig) (logs_of : AbiEvent → ℕ → List Log) (client : Client)
    : Type 0 where
  pub all_events :
      (a b : ℕ)
      → Agrees (client (between a b) cfg.events) (logs_from logs_of cfg.events a (suc b - a))
  pub one_event : (n : ℕ) (e : AbiEvent) → Agrees (client (between n n) (e ∷ [])) (logs_of e n)

module _ (viem : Viem) (cfg : LogsConfig) (logs_of : AbiEvent → ℕ → List Log) where
  pub logs_from-append :
      (from_block m n : ℕ)
      → logs_from logs_of cfg.events from_block (m + n)
        ≡ logs_from logs_of cfg.events from_block m
          ++ logs_from logs_of cfg.events (from_block + m) n
  logs_from-append from_block zero n =
      let e : 0 + n ≡ n = omega arith in
      let z : from_block ≡ from_block + 0 = omega arith in
      ap (logs_from logs_of cfg.events from_block) e ∙ ap (λ a. logs_from logs_of cfg.events a n) z
  logs_from-append from_block (suc m) n =
      let e : suc m + n ≡ suc (m + n) = omega arith in
      let z : suc from_block + m ≡ from_block + suc m = omega arith in
      ap (logs_from logs_of cfg.events from_block) e
      ∙ ap (λ l. logs_in logs_of cfg.events from_block ++ l)
          (logs_from-append (suc from_block) m n
            ∙ ap
                (λ a.
                  logs_from logs_of cfg.events (suc from_block) m
                  ++ logs_from logs_of cfg.events a n)
                z)
      ∙ sym (append_assoc (logs_in logs_of cfg.events from_block) _ _)

  sorted-Agrees : (o : Option (List Log)) (l : List Log) → Agrees o l → Agrees (sorted o) l
  unfolding sorted
  sorted-Agrees none l h = tt
  sorted-Agrees (some a) l h = Perm.trans (sort_logs-Perm a) h

  checked-Agrees : (o : Option (List Log)) (l : List Log) → Agrees o l → Agrees (checked cfg o) l
  unfolding checked
  checked-Agrees none l h = tt
  checked-Agrees (some a) l h = elim (Bool-cases (potentially_missed cfg (length a))) [
    | inl e ↦ rw e tt
    | inr e ↦ rw e h
  ]

  -- No logs are dropped where no event is fallible.
  fallible-Agrees :
      (e : AbiEvent) (o : Option (List Log)) (l : List Log)
      → cfg.fallible_events ≡ []
      → Agrees o l
      → Agrees (fallible cfg e o) l
  unfolding fallible
  fallible-Agrees e none l f h = rw f tt
  fallible-Agrees e (some a) l f h = elim (Bool-cases (potentially_missed cfg (length a))) [
    | inl p ↦ rw p (rw f tt)
    | inr p ↦ rw p h
  ]

  flat_cons-Agrees :
      (o : Option (List Log)) (os : List (Option (List Log))) (l ls : List Log)
      → Agrees o l
      → Agrees (flat os) ls
      → Agrees (flat (o ∷ os)) (l ++ ls)
  unfolding flat
  flat_cons-Agrees none os l ls h hs = tt
  flat_cons-Agrees (some a) os l ls h hs = elim (Option-cases (flat os)) [
    | inl e ↦ rw e tt
    | inr (r, e) ↦ rw e (Perm.append h (rw e at hs))
  ]

  flat-Agrees :
      (client : Client) (n : ℕ) (events : List AbiEvent)
      → cfg.fallible_events ≡ []
      → IsHonest cfg logs_of client
      → Agrees
          (flat (map (get_logs_of_event viem cfg client (of_range n n)) events))
          (logs_in logs_of events n)
  unfolding flat get_logs_of_event filter_event unless_excluded block_range
  flat-Agrees client n [] f h = Perm.refl _
  flat-Agrees client n (e ∷ rest) f h =
      flat_cons-Agrees (fallible cfg e (client (between n n) (e ∷ []))) _ _ _
        (fallible-Agrees e (client (between n n) (e ∷ [])) _ f (h.one_event n e))
        (flat-Agrees client n rest f h)

  -- The query event by event of a single block.
  per_event-Agrees :
      (client : Client) (a : ℕ)
      → cfg.fallible_events ≡ []
      → IsHonest cfg logs_of client
      → Agrees
          (get_logs_one_query_per_event viem cfg client (of_range a a))
          (logs_from logs_of cfg.events a 1)
  unfolding get_logs_one_query_per_event
  per_event-Agrees client a f h =
      subst (Agrees (get_logs_one_query_per_event viem cfg client (of_range a a)))
        (sym (append-nil (logs_in logs_of cfg.events a)))
        (sorted-Agrees _ _ (flat-Agrees client a cfg.events f h))

  one_page :
      (a b page : ℕ)
      → a ≤ b
      → 1 ≤ page
      → ltb 1 page ≡ false
      → 1 ≡ suc (query_to_block viem cfg a b page) - a
  unfolding query_to_block
  one_page a b page le p e = ground arith

  pub warp_query-Agrees :
      (client : Client) (a b page : ℕ)
      → cfg.fallible_events ≡ []
      → IsHonest cfg logs_of client
      → a ≤ b
      → 1 ≤ page
      → Agrees
          (warp_query viem cfg client a b page)
          (logs_from logs_of cfg.events a (suc (query_to_block viem cfg a b page) - a))
  unfolding warp_query get_logs_one_query_all_events get_logs_one_query_per_event filter_all_events
      unless_excluded block_range
  warp_query-Agrees client a b page f h le p = elim (Bool-cases (ltb 1 page)) [
    | inl e ↦ rw e (sorted-Agrees _ _ (checked-Agrees _ _ (h.all_events a _)))
    | inr e ↦ rw e (
        subst
          (λ n.
            Agrees (get_logs_one_query_per_event viem cfg client (of_range a a))
              (logs_from logs_of cfg.events a n))
          (one_page a b page le p e) (per_event-Agrees client a f h))
  ]
