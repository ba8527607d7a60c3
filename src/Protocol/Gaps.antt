-- ===== src/Protocol/Gaps.antt =====
-- The nonces of validator/src/consensus/protocol/onchain.ts: none is skipped.
use shieldnet.Prelude.{
  ℕ, ◌+◌, ◌≤◌, ◌<◌, ◌≡◌, refl, ◌⊎◌, inl, inr, max, List, [], ◌∷◌, ◌++◌, map, some, Bool, true,
  false, not, ◌&&◌, ◌||◌, arith, ltb, ◌==◌, option_eq, Bool-cases, ==_iff, ltb→lt,
}
use shieldnet.Protocol.Transactions.{
  TxRow, next_nonce, reserved_nonce, register, delete, max_nonce, set_fees, set_hash,
  set_submitted_for_pending, set_all_before_as_executed, TxEvent, action_registered, fees_estimated,
  transaction_sent, submission_failed, pending_marked, nonce_read, nonce_too_low, give_up,
  on_tx_event,
}

-- Whether a transaction with the nonce is stored.
abbrev pub is_stored : ℕ → List TxRow → Bool
is_stored n [] = false
is_stored n (r ∷ rest) = r.nonce == n || is_stored n rest

-- From the account's nonce on, every nonce up to the latest is that of a stored transaction.
abbrev pub HasNoGaps : ℕ → List TxRow → Type 0
HasNoGaps account_nonce rows =
    (n : ℕ) → (n < account_nonce) ⊎ ((next_nonce rows ≤ n) ⊎ (is_stored n rows ≡ true))

-- A nonce that was read is not above the account's, and one that was too low is below it.
abbrev pub IsPossibleTx : ℕ → TxEvent → Type 0
IsPossibleTx account_nonce (action_registered tx on_chain_nonce) = on_chain_nonce ≤ account_nonce
IsPossibleTx account_nonce (nonce_read current_nonce) = current_nonce ≤ account_nonce
IsPossibleTx account_nonce (nonce_too_low nonce) = nonce < account_nonce
IsPossibleTx account_nonce _ = Unit

is_stored-append :
    (n : ℕ) (rows : List TxRow) (r : TxRow)
    → is_stored n (rows ++ r ∷ []) ≡ (is_stored n rows || r.nonce == n)
is_stored-append n [] r = ground arith
is_stored-append n (q ∷ rows) r = ground (arith, is_stored-append n rows r)

next_nonce-append :
    (rows : List TxRow) (r : TxRow)
    → next_nonce (rows ++ r ∷ []) ≡ max (next_nonce rows) (r.nonce + 1)
unfolding next_nonce
next_nonce-append [] r = omega arith
next_nonce-append (q ∷ rows) r = omega (arith, next_nonce-append rows r)

is_stored-delete :
    (n m : ℕ) (rows : List TxRow) → is_stored n (delete m rows) ≡ (is_stored n rows && not (n == m))
unfolding delete
is_stored-delete n m [] = ground arith
is_stored-delete n m (q ∷ rows) = ground (arith, is_stored-delete n m rows)

next_nonce-delete : (m : ℕ) (rows : List TxRow) → next_nonce (delete m rows) ≤ next_nonce rows
unfolding next_nonce delete
next_nonce-delete m [] = omega arith
next_nonce-delete m (q ∷ rows) = ground (arith, next_nonce-delete m rows)

next_nonce-delete_latest :
    (m : ℕ) (rows : List TxRow) → next_nonce rows ≤ m + 1 → next_nonce (delete m rows) ≤ m
unfolding next_nonce delete
next_nonce-delete_latest m [] h = omega arith
next_nonce-delete_latest m (q ∷ rows) h = ground (arith, next_nonce-delete_latest m rows)

is_stored-set_all_before :
    (n m : ℕ) (rows : List TxRow)
    → is_stored n (set_all_before_as_executed m rows) ≡ (is_stored n rows && not (ltb n m))
unfolding set_all_before_as_executed
is_stored-set_all_before n m [] = ground arith
is_stored-set_all_before n m (q ∷ rows) = ground (arith, is_stored-set_all_before n m rows)

next_nonce-set_all_before :
    (m : ℕ) (rows : List TxRow) → next_nonce (set_all_before_as_executed m rows) ≤ next_nonce rows
unfolding next_nonce set_all_before_as_executed
next_nonce-set_all_before m [] = omega arith
next_nonce-set_all_before m (q ∷ rows) = ground (arith, next_nonce-set_all_before m rows)

is_stored-map :
    (n : ℕ) (rows : List TxRow) (f : TxRow → TxRow)
    → ((r : TxRow) → (f r).nonce ≡ r.nonce)
    → is_stored n (map f rows) ≡ is_stored n rows
is_stored-map n [] f e = refl
is_stored-map n (r ∷ rows) f e = ground (arith, e r, is_stored-map n rows f e)

next_nonce-map :
    (rows : List TxRow) (f : TxRow → TxRow)
    → ((r : TxRow) → (f r).nonce ≡ r.nonce)
    → next_nonce (map f rows) ≡ next_nonce rows
unfolding next_nonce
next_nonce-map [] f e = refl
next_nonce-map (r ∷ rows) f e = omega (arith, e r, next_nonce-map rows f e)

latest_nonce :
    (m : ℕ) (rows : List TxRow)
    → option_eq (some m) (max_nonce rows) ≡ true
    → next_nonce rows ≤ m + 1
unfolding max_nonce
latest_nonce m [] h = absurd (ground arith)
latest_nonce m (r ∷ rows) h = ground arith

append-HasNoGaps :
    (c k : ℕ) (rows : List TxRow) (r : TxRow)
    → k ≤ c
    → r.nonce ≡ max k (next_nonce rows)
    → HasNoGaps c rows
    → HasNoGaps c (rows ++ r ∷ [])
append-HasNoGaps c k rows r le e h n =
    let s = is_stored-append n rows r in
    let m = next_nonce-append rows r in
    elim (h n) [
      | inl lt ↦ inl lt
      | inr (inr st) ↦ inr (inr (ground (arith, s, st)))
      | inr (inl ge) ↦ elim (Bool-cases (r.nonce == n)) [
        | inl eq ↦ inr (inr (ground (arith, s, eq)))
        | inr ne ↦ elim (Bool-cases (ltb n c)) [
          | inl lt ↦ inl (ltb→lt n c lt)
          | inr nl ↦ inr (inl (ground (arith, m, e, ge, ne, nl)))
        ]
      ]
    ]

-- Of the stored transactions, one that is not needed is removed.
remove-HasNoGaps :
    (c : ℕ) (rows rest : List TxRow)
    → HasNoGaps c rows
    → next_nonce rest ≤ next_nonce rows
    → ((n : ℕ)
        → is_stored n rows ≡ true
        → (n < c) ⊎ ((next_nonce rest ≤ n) ⊎ (is_stored n rest ≡ true)))
    → HasNoGaps c rest
remove-HasNoGaps c rows rest h le k n = elim (h n) [
  | inl lt ↦ inl lt
  | inr (inl ge) ↦ inr (inl (omega (arith, ge, le)))
  | inr (inr st) ↦ k n st
]

delete-HasNoGaps :
    (c m : ℕ) (rows : List TxRow)
    → (m < c) ⊎ (next_nonce rows ≤ m + 1)
    → HasNoGaps c rows
    → HasNoGaps c (delete m rows)
delete-HasNoGaps c m rows o h =
    remove-HasNoGaps c rows (delete m rows) h (next_nonce-delete m rows) (λ n st.
      elim (Bool-cases (n == m)) [
        | inr ne ↦ inr (inr (ground (arith, is_stored-delete n m rows, st, ne)))
        | inl eq ↦ elim o [
          | inl lt ↦ inl (omega (arith, lt, (==_iff n m).0 eq))
          | inr le ↦
              inr (inl (omega (arith, next_nonce-delete_latest m rows le, (==_iff n m).0 eq)))
        ]
      ])

set_all_before-HasNoGaps :
    (c m : ℕ) (rows : List TxRow)
    → m ≤ c
    → HasNoGaps c rows
    → HasNoGaps c (set_all_before_as_executed m rows)
set_all_before-HasNoGaps c m rows le h =
    remove-HasNoGaps c rows (set_all_before_as_executed m rows) h (next_nonce-set_all_before m rows)
      (λ n st. elim (Bool-cases (ltb n m)) [
        | inl lt ↦ inl (ground (arith, lt, le))
        | inr nl ↦ inr (inr (ground (arith, is_stored-set_all_before n m rows, st, nl)))
      ])

give_up-HasNoGaps : (c m : ℕ) (rows : List TxRow) → HasNoGaps c rows → HasNoGaps c (give_up m rows)
unfolding give_up
give_up-HasNoGaps c m rows h = elim (Bool-cases (option_eq (some m) (max_nonce rows))) [
  | inr e ↦ rw e h
  | inl e ↦ rw e (delete-HasNoGaps c m rows (inr (latest_nonce m rows e)) h)
]

-- A change that keeps the nonces.
same_nonces-HasNoGaps :
    (c : ℕ) (rows : List TxRow) (f : TxRow → TxRow)
    → ((r : TxRow) → (f r).nonce ≡ r.nonce)
    → HasNoGaps c rows
    → HasNoGaps c (map f rows)
same_nonces-HasNoGaps c rows f e h n =
    let s = is_stored-map n rows f e in let m = next_nonce-map rows f e in ground (arith, h n, s, m)

pub on_tx_event-HasNoGaps :
    (account_nonce : ℕ) (e : TxEvent) (rows : List TxRow)
    → IsPossibleTx account_nonce e
    → HasNoGaps account_nonce rows
    → HasNoGaps account_nonce (on_tx_event e rows)
unfolding on_tx_event register reserved_nonce set_fees set_hash set_submitted_for_pending
on_tx_event-HasNoGaps c (action_registered tx k) rows p h = append-HasNoGaps c k rows _ p refl h
on_tx_event-HasNoGaps c (fees_estimated n estimated previous) rows p h =
    same_nonces-HasNoGaps c rows _ (λ r. refl) h
on_tx_event-HasNoGaps c (transaction_sent n x) rows p h =
    same_nonces-HasNoGaps c rows _ (λ r. refl) h
on_tx_event-HasNoGaps c (submission_failed n) rows p h = give_up-HasNoGaps c n rows h
on_tx_event-HasNoGaps c (pending_marked b) rows p h = same_nonces-HasNoGaps c rows _ (λ r. refl) h
on_tx_event-HasNoGaps c (nonce_read k) rows p h = set_all_before-HasNoGaps c k rows p h
on_tx_event-HasNoGaps c (nonce_too_low n) rows p h = delete-HasNoGaps c n rows (inl p) h

-- Events with what the account's nonce grew by before each.
abbrev pub ArePossible : ℕ → List (ℕ × TxEvent) → Type 0
ArePossible account_nonce [] = Unit
ArePossible account_nonce ((grown, e) ∷ rest) =
    IsPossibleTx (account_nonce + grown) e × ArePossible (account_nonce + grown) rest

unfoldable pub run_tx : ℕ → List (ℕ × TxEvent) → List TxRow → ℕ × List TxRow
run_tx account_nonce [] rows = (account_nonce, rows)
run_tx account_nonce ((grown, e) ∷ rest) rows =
    run_tx (account_nonce + grown) rest (on_tx_event e rows)

grown-HasNoGaps : (c d : ℕ) (rows : List TxRow) → HasNoGaps c rows → HasNoGaps (c + d) rows
grown-HasNoGaps c d rows h n = elim (h n) [ inl lt ↦ inl (omega (arith, lt)) | inr o ↦ inr o ]

run_tx_from :
    (c : ℕ) (events : List (ℕ × TxEvent)) (rows : List TxRow)
    → ArePossible c events
    → HasNoGaps c rows
    → HasNoGaps (run_tx c events rows).0 (run_tx c events rows).1
unfolding run_tx
run_tx_from c [] rows p h = h
run_tx_from c ((d, e) ∷ events) rows (p, ps) h =
    run_tx_from (c + d) events (on_tx_event e rows) ps
      (on_tx_event-HasNoGaps (c + d) e rows p (grown-HasNoGaps c d rows h))

-- No nonce is skipped: from a storage without transactions, over any sequence of what the
-- protocol does to the storage between its waits, while the nonce of the account grows and no
-- nonce that was read is above it and every nonce that was too low is below it, each nonce from
-- that of the account on and below the next one is that of a stored transaction.
pub run_tx-HasNoGaps :
    (account_nonce : ℕ) (events : List (ℕ × TxEvent))
    → ArePossible account_nonce events
    → HasNoGaps (run_tx account_nonce events []).0 (run_tx account_nonce events []).1
unfolding next_nonce
run_tx-HasNoGaps c events p = run_tx_from c events [] p (λ n. inr (inl (omega arith)))

is_stored-below : (n : ℕ) (rows : List TxRow) → is_stored n rows ≡ true → n < next_nonce rows
unfolding next_nonce
is_stored-below n [] h = absurd (ground arith)
is_stored-below n (r ∷ rows) h = ground (arith, is_stored-below n rows)

-- The nonce that is reserved for a new transaction is at least the one given, and that of no
-- stored transaction.
pub reserved_nonce-fresh :
    (rows : List TxRow) (min_nonce : ℕ)
    → (min_nonce ≤ reserved_nonce rows min_nonce)
      × (is_stored (reserved_nonce rows min_nonce) rows ≡ false)
unfolding reserved_nonce
reserved_nonce-fresh rows k = (
  omega arith,
  elim (Bool-cases (is_stored (max k (next_nonce rows)) rows)) [
    | inr e ↦ e
    | inl e ↦ absurd (omega (arith, is_stored-below (max k (next_nonce rows)) rows e))
  ],
)
