-- ===== src/Watcher/Throttling.antt =====
-- The delays of validator/src/watcher/backoff.ts.
use shieldnet.Prelude.{
  ℕ, zero, suc, ◌+◌, ◌-◌, ◌<◌, ◌≡◌, refl, ap, ◌∙◌, min, List, [], ◌∷◌, Option, none, some, true,
  arith, length, get_elem?,
}
use shieldnet.Watcher.Loop.{limited, classify, throttle}

-- The delay after so many rate limits in a row.
unfoldable pub after_limits : List ℕ → ℕ → Option ℕ
after_limits delays zero = none
after_limits delays (suc n) = classify delays true (after_limits delays n)

get_elem?-within : (l : List ℕ) (i : ℕ) → i < length l → (d : ℕ) × (get_elem? l i ≡ some d)
get_elem?-within [] i h = absurd (omega arith)
get_elem?-within (a ∷ l) zero h = (a, refl)
get_elem?-within (a ∷ l) (suc i) h = get_elem?-within l i (omega arith)

limited-none : (delays : List ℕ) → 0 < length delays → limited delays none ≡ some 0
unfolding limited
limited-none delays h = ground arith

limited-some :
    (delays : List ℕ) (i : ℕ)
    → 0 < length delays
    → limited delays (some i) ≡ some (min (i + 1) (length delays - 1))
unfolding limited
limited-some delays i h = ground arith

after_limits-index :
    (delays : List ℕ) (n : ℕ)
    → 0 < length delays
    → after_limits delays (suc n) ≡ some (min n (length delays - 1))
unfolding after_limits classify
after_limits-index delays zero h = limited-none delays h ∙ ap some (omega arith)
after_limits-index delays (suc n) h =
    ap (limited delays) (after_limits-index delays n h)
    ∙ limited-some delays (min n (length delays - 1)) h
    ∙ ap some (omega arith)

-- With at least one delay, after n + 1 rate limits in a row from a reset on, `throttle` waits
-- for the delay at the index n, or for the last one when there are fewer; that delay exists.
pub after_limits-throttle :
    (delays : List ℕ) (n : ℕ)
    → 0 < length delays
    → (d : ℕ) × (get_elem? delays (min n (length delays - 1)) ≡ some d)
      × (throttle delays (after_limits delays (suc n)) ≡ some d)
unfolding throttle
after_limits-throttle delays n h =
    let e = after_limits-index delays n h in
    let g = get_elem?-within delays (min n (length delays - 1)) (omega arith) in
    (g.0, g.1, ap (throttle delays) e ∙ g.1)
