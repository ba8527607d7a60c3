-- ===== src/Watcher/Halving.antt =====
-- The end of a warp of validator/src/watcher/events.ts, by the halving of its pages.
use native.Mathlib.Nat.{suc-mul, mul-le-mul_right}
use mathlib.Core.Path.{subst}
use shieldnet.Prelude.{
  sym, ◌∙◌, ap, ℕ, suc, ◌+◌, ◌-◌, ◌*◌, ◌/◌, ◌≤◌, ◌<◌, ◌≡◌, refl, inl, inr, List, [], ◌∷◌, ◌++◌, map,
  Option, none, some, false, arith, ◌==◌, length, All, Bool-cases, ==_iff,
}
use shieldnet.Watcher.Bloom.{Viem}
use shieldnet.Watcher.Logs.{
  AbiEvent, Log, LogsConfig, Client, between, of_range, EventStep, idle, warping,
  potentially_missed, sort_logs, query_to_block, warp_query, step_after_warp, next_logs, flat,
  get_logs_of_event, get_logs_one_query_per_event, filter_event, unless_excluded, fallible,
  block_range, sorted,
}
use shieldnet.Watcher.Warp.{after_query, take_logs, query_to_block-le, take_logs-idle}

-- A node that answers the query of one event in one block, with less than the maximum of logs.
abbrev pub AnswersOne : LogsConfig → Client → Type 0
AnswersOne cfg client =
    (n : ℕ) (e : AbiEvent)
    → (logs : List Log) × (client (between n n) (e ∷ []) ≡ some logs)
      × (potentially_missed cfg (length logs) ≡ false)

module _ (viem : Viem) (cfg : LogsConfig) where
  flat-some :
      (client : Client) (n : ℕ) (events : List AbiEvent)
      → AnswersOne cfg client
      → (logs : List Log) × (flat (map (get_logs_of_event viem cfg client (of_range n n)) events)
          ≡ some logs)
  unfolding flat get_logs_of_event filter_event unless_excluded fallible block_range
  flat-some client n [] h = ([], refl)
  flat-some client n (e ∷ rest) h =
      let one = h n e in
      let more = flat-some client n rest h in
      (one.0 ++ more.0, rw one.1 (rw one.2 (rw more.1 refl)))

  -- A page of one block is answered.
  warp_query-some :
      (client : Client) (a b : ℕ)
      → AnswersOne cfg client
      → (logs : List Log) × (warp_query viem cfg client a b 1 ≡ some logs)
  unfolding warp_query get_logs_one_query_per_event sorted
  warp_query-some client a b h =
      let r = flat-some client a cfg.events h in (sort_logs r.0, rw r.1 refl)

  -- The measure of a warp: a page's halvings for each block that is left.
  abbrev pub halvings : ℕ → ℕ → ℕ → ℕ
  halvings a b page = (suc b - a) * suc cfg.block_page_size + page

  halvings-next :
      (a b page q : ℕ)
      → a ≤ q
      → q < b
      → 1 ≤ page
      → halvings (q + 1) b cfg.block_page_size < halvings a b page
  halvings-next a b page q le lt p =
      let x = suc b - (q + 1) in
      let m : suc x * suc cfg.block_page_size ≤ (suc b - a) * suc cfg.block_page_size =
        mul-le-mul_right (suc cfg.block_page_size) (omega arith) in
      omega (arith, m, suc-mul x (suc cfg.block_page_size))

  step_within :
      (client : Client) (a b page fuel : ℕ)
      → (later : EventStep → List Log × EventStep) → 1 ≤ cfg.block_page_size
      → AnswersOne cfg client
      → a ≤ b
      → 1 ≤ page
      → halvings a b page ≤ suc fuel
      → (later idle).1 ≡ idle
      → ((a' page' : ℕ)
          → a' ≤ b
          → 1 ≤ page'
          → halvings a' b page' ≤ fuel
          → (later (warping a' b page')).1 ≡ idle)
      → (r : Option (List Log)) → warp_query viem cfg client a b page ≡ r
      → (after_query (some r, step_after_warp viem cfg a b page r) later).1 ≡ idle
  unfolding step_after_warp
  step_within client a b page fuel later s h le p n i k none e = elim (Bool-cases (page == 1)) [
    | inl t ↦
        let w = warp_query-some client a b h in
        let c : none ≡ some w.0 =
          sym (subst (λ n. warp_query viem cfg client a b n ≡ none) ((==_iff page 1).0 t) e)
          ∙ w.1 in
        absurd (ground arith)
    | inr t ↦ k a ((page + 1) / 2) le (omega arith) (ground arith)
  ]
  step_within client a b page fuel later s h le p n i k (some logs) e =
      let q = query_to_block viem cfg a b page in
      let bounds = query_to_block-le viem cfg a b page le p in
      elim (Bool-cases (q == b)) [
        | inl t ↦ rw t i
        | inr t ↦
            let lt : q < b = ground (arith, bounds.1) in
            rw t (
              k (q + 1) cfg.block_page_size (omega arith) s
                (omega (arith, halvings-next a b page q bounds.0 lt p)))
      ]

  next_logs-warping :
      (client : Client) (a b page : ℕ)
      → next_logs viem cfg client (warping a b page) ≡ (
        some (warp_query viem cfg client a b page),
        step_after_warp viem cfg a b page (warp_query viem cfg client a b page),
      )
  unfolding next_logs
  next_logs-warping client a b page = refl

  -- When the configured page size and that of the warp are at least one, the warp's first
  -- block is not after its last, and the node answers every query for a single event in a
  -- single block, with less than the maximum of logs, then the warp ends after at most as many
  -- calls as its blocks times one more than the configured page size, plus the page size of
  -- the warp.
  pub take_logs-ends :
      (clients : List Client) (a b page : ℕ)
      → 1 ≤ cfg.block_page_size
      → All (AnswersOne cfg) clients
      → a ≤ b
      → 1 ≤ page
      → halvings a b page ≤ length clients
      → (take_logs viem cfg clients (warping a b page)).1 ≡ idle
  unfolding take_logs
  take_logs-ends [] a b page s h le p n = absurd (omega arith)
  take_logs-ends (client ∷ rest) a b page s (h, hs) le p n =
      rw (next_logs-warping client a b page) (
        step_within client a b page (length rest) (take_logs viem cfg rest) s h le p n
          (ap (λ r. r.1) (take_logs-idle viem cfg rest))
          (λ a' page' le' p' n'. take_logs-ends rest a' b page' s hs le' p' n') _ refl)
