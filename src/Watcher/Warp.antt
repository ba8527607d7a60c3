-- ===== src/Watcher/Warp.antt =====
-- A whole warp of validator/src/watcher/events.ts: what it delivers and that it ends.
use mathlib.Core.List.{Perm, append-nil}
use mathlib.Core.List.Perm
use mathlib.Core.Path.{subst}
use shieldnet.Prelude.{
  ℕ, suc, ◌+◌, ◌-◌, ◌/◌, ◌≤◌, ◌≡◌, refl, sym, ap, ◌∙◌, inl, inr, List, [], ◌∷◌, ◌++◌, Option, none,
  some, arith, ◌==◌, All, Bool-cases, ==_iff,
}
use shieldnet.Watcher.Bloom.{Viem}
use shieldnet.Watcher.Logs.{
  AbiEvent, Log, LogsConfig, Client, EventStep, idle, warping, block_step, query_to_block,
  step_after_warp, next_logs,
}
use shieldnet.Watcher.Coverage.{Agrees, IsHonest, logs_from, logs_from-append, warp_query-Agrees}

-- The logs of successive calls of `next`, and the step after them.
abbrev pub after_query :
    Option (Option (List Log)) × EventStep
    → (EventStep → List Log × EventStep)
    → List Log × EventStep
after_query (none, step) later = ([], step)
after_query (some none, step) later = later step
after_query (some (some logs), step) later = (logs ++ (later step).0, (later step).1)

module _ (viem : Viem) (cfg : LogsConfig) where
  unfoldable pub take_logs : List Client → EventStep → List Log × EventStep
  take_logs [] step = ([], step)
  take_logs (client ∷ rest) step = after_query (next_logs viem cfg client step) (take_logs rest)

  pub take_logs-idle : (clients : List Client) → take_logs clients idle ≡ ([], idle)
  unfolding take_logs next_logs
  take_logs-idle [] = refl
  take_logs-idle (client ∷ rest) = refl

  pub query_to_block-le :
      (a b page : ℕ)
      → a ≤ b
      → 1 ≤ page
      → (a ≤ query_to_block viem cfg a b page) × (query_to_block viem cfg a b page ≤ b)
  unfolding query_to_block
  query_to_block-le a b page le p = (ground arith, ground arith)

module _ (viem : Viem) (cfg : LogsConfig) (logs_of : AbiEvent → ℕ → List Log) where
  -- Where a warp to `to` stands that began at `start`, after what it delivered.
  abbrev Delivered : ℕ → ℕ → List Log × EventStep → Type 0
  Delivered start to (logs, idle) = Perm logs (logs_from logs_of cfg.events start (suc to - start))
  Delivered start to (logs, warping a b page) =
      (start ≤ a)
      × (a ≤ to)
      × (b ≡ to)
      × (1 ≤ page)
      × Perm logs (logs_from logs_of cfg.events start (a - start))
  Delivered start to (logs, block_step hash bloom retries) = ⊥

  suc_sub : (q a : ℕ) → suc q - a ≡ q + 1 - a
  suc_sub q a = omega arith

  join_logs_from :
      (start mid end : ℕ) (l m : List Log)
      → start ≤ mid
      → mid ≤ end
      → Perm l (logs_from logs_of cfg.events start (mid - start))
      → Perm m (logs_from logs_of cfg.events mid (end - mid))
      → Perm (l ++ m) (logs_from logs_of cfg.events start (end - start))
  join_logs_from start mid end l m le le' p q =
      let e : (mid - start) + (end - mid) ≡ end - start = omega arith in
      let z : start + (mid - start) ≡ mid = omega arith in
      subst (Perm (l ++ m))
        (sym (
            logs_from-append viem cfg logs_of start (mid - start) (end - mid)
            ∙ ap
                (λ a.
                  logs_from logs_of cfg.events start (mid - start)
                  ++ logs_from logs_of cfg.events a (end - mid))
                z)
          ∙ ap (logs_from logs_of cfg.events start) e)
        (Perm.append p q)

  join_Delivered :
      (start mid to : ℕ) (l : List Log) (r : List Log × EventStep)
      → start ≤ mid
      → mid ≤ to
      → Perm l (logs_from logs_of cfg.events start (mid - start))
      → Delivered mid to r
      → Delivered start to (l ++ r.0, r.1)
  join_Delivered start mid to l (m, idle) le le' p d =
      join_logs_from start mid (suc to) l m le (omega arith) p d
  join_Delivered start mid to l (m, warping a b page) le le' p (x, y, z, w, d) =
      (omega arith, y, z, w, join_logs_from start mid a l m le x p d)
  join_Delivered start mid to l (m, block_step _ _ _) le le' p d = d

  after_warp-Delivered :
      (rest : List Client) (a b page : ℕ) (r : Option (List Log))
      → 1 ≤ cfg.block_page_size
      → a ≤ b
      → 1 ≤ page
      → Agrees r (logs_from logs_of cfg.events a (suc (query_to_block viem cfg a b page) - a))
      → ((a' page' : ℕ)
          → a' ≤ b
          → 1 ≤ page'
          → Delivered a' b (take_logs viem cfg rest (warping a' b page')))
      → Delivered a b
          (after_query (some r, step_after_warp viem cfg a b page r) (take_logs viem cfg rest))
  unfolding step_after_warp
  after_warp-Delivered rest a b page none s le p h k = k a ((page + 1) / 2) le (omega arith)
  after_warp-Delivered rest a b page (some logs) s le p h k =
      let q = query_to_block viem cfg a b page in
      let bounds = query_to_block-le viem cfg a b page le p in
      elim (Bool-cases (q == b)) [
        | inl e ↦ rw e (
            rw (take_logs-idle viem cfg rest) (
              subst (λ n. Perm (logs ++ []) (logs_from logs_of cfg.events a (suc n - a)))
                ((==_iff q b).0 e)
                (subst (λ l. Perm l (logs_from logs_of cfg.events a (suc q - a)))
                  (sym (append-nil logs)) h)))
        | inr e ↦ rw e (
            join_Delivered a (q + 1) b logs _ (omega (arith, bounds.0)) (ground (arith, bounds.1))
              (subst (λ n. Perm logs (logs_from logs_of cfg.events a n)) (suc_sub q a) h)
              (k (q + 1) cfg.block_page_size (ground (arith, bounds.1)) s))
      ]

  idle_Delivered :
      (a b : ℕ) (r : List Log × EventStep)
      → r.1 ≡ idle
      → Delivered a b r
      → Perm r.0 (logs_from logs_of cfg.events a (suc b - a))
  idle_Delivered a b (m, s) e d = subst (λ t. Delivered a b (m, t)) e d

  pub take_logs-Delivered :
      (clients : List Client) (a b page : ℕ)
      → cfg.fallible_events ≡ []
      → 1 ≤ cfg.block_page_size
      → All (IsHonest cfg logs_of) clients
      → a ≤ b
      → 1 ≤ page
      → Delivered a b (take_logs viem cfg clients (warping a b page))
  unfolding take_logs next_logs
  take_logs-Delivered [] a b page f s h le p =
      let e : 0 ≡ a - a = omega arith in
      (
        omega arith,
        le,
        refl,
        p,
        subst (λ n. Perm [] (logs_from logs_of cfg.events a n)) e (Perm.refl _),
      )
  take_logs-Delivered (client ∷ rest) a b page f s (h, hs) le p =
      after_warp-Delivered rest a b page _ s le p
        (warp_query-Agrees viem cfg logs_of client a b page f h le p)
        (λ a' page' le' p'. take_logs-Delivered rest a' b page' f s hs le' p')

  -- When no event may fail, pages have at least one block, and every answer of the node has
  -- just the logs of the events in the blocks asked for, then a warp that has ended, over any
  -- failed queries, has delivered just the logs of all of its blocks.
  pub take_logs-covers :
      (clients : List Client) (a b page : ℕ)
      → cfg.fallible_events ≡ []
      → 1 ≤ cfg.block_page_size
      → All (IsHonest cfg logs_of) clients
      → a ≤ b
      → 1 ≤ page
      → (take_logs viem cfg clients (warping a b page)).1 ≡ idle
      → Perm
          (take_logs viem cfg clients (warping a b page)).0
          (logs_from logs_of cfg.events a (suc b - a))
  take_logs-covers clients a b page f s h le p e =
      idle_Delivered a b _ e (take_logs-Delivered clients a b page f s h le p)
