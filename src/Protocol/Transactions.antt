-- ===== src/Protocol/Transactions.antt =====
-- `SqliteTxStorage` of validator/src/consensus/protocol/sqlite.ts, and the calls of it by
-- `OnchainProtocol` in validator/src/consensus/protocol/onchain.ts.
use shieldnet.Prelude.{
  zero, suc, leb, ltb, Bool, false, ℕ, ◌+◌, ◌-◌, ◌*◌, ◌/◌, max, List, [], ◌∷◌, ◌++◌, map, Option,
  none, some, not, ◌==◌, option_eq, keep, if◌then◌else◌,
}
use shieldnet.Data.Frost.{Hex, Address}

pub record FeeValues : Type 0 where
  pub max_fee_per_gas : ℕ
  pub max_priority_fee_per_gas : ℕ

pub record EthTransactionData : Type 0 where
  pub to : Address
  pub value : ℕ
  pub call_data : Hex
  pub gas : Option ℕ

-- A row of `transaction_storage`, without the time of its creation, which nothing reads.
pub record TxRow : Type 0 where
  pub nonce : ℕ
  pub transaction : EthTransactionData
  pub transaction_hash : Option Hex
  pub submitted_at : Option ℕ
  pub fees : Option FeeValues

-- `MAX(nonce) + 1`, and 0 for a table without rows.
unfoldable pub next_nonce : List TxRow → ℕ
next_nonce [] = 0
next_nonce (r ∷ rest) = max (r.nonce + 1) (next_nonce rest)

-- `MAX($minNonce, COALESCE(MAX(nonce) + 1, $minNonce))`.
unfoldable pub reserved_nonce : List TxRow → ℕ → ℕ
unfolding next_nonce
reserved_nonce rows min_nonce = max min_nonce (next_nonce rows)

unfoldable pub register : EthTransactionData → ℕ → List TxRow → List TxRow
unfolding reserved_nonce
register tx min_nonce rows =
    rows
    ++ record {
      nonce = reserved_nonce rows min_nonce;
      transaction = tx;
      transaction_hash = none;
      submitted_at = none;
      fees = none;
    }
      ∷ []

-- `delete`, also `setExecuted`.
unfoldable pub delete : ℕ → List TxRow → List TxRow
delete nonce rows = keep (λ r. not (r.nonce == nonce)) rows

unfoldable pub max_nonce : List TxRow → Option ℕ
unfolding next_nonce
max_nonce [] = none
max_nonce (r ∷ rest) = some (next_nonce (r ∷ rest) - 1)

unfoldable pub set_fees : ℕ → FeeValues → List TxRow → List TxRow
set_fees nonce fees rows =
    map
      (λ r. record {
        nonce = r.nonce;
        transaction = r.transaction;
        transaction_hash = r.transaction_hash;
        submitted_at = r.submitted_at;
        fees = if r.nonce == nonce then some fees else r.fees;
      })
      rows

unfoldable pub set_hash : ℕ → Hex → List TxRow → List TxRow
set_hash nonce tx_hash rows =
    map
      (λ r. record {
        nonce = r.nonce;
        transaction = r.transaction;
        transaction_hash = if r.nonce == nonce then some tx_hash else r.transaction_hash;
        submitted_at = r.submitted_at;
        fees = r.fees;
      })
      rows

-- `WHERE submittedAt IS NULL`.
unfoldable pub or_block : ℕ → Option ℕ → Option ℕ
or_block block_number none = some block_number
or_block block_number (some n) = some n

unfoldable pub set_submitted_for_pending : ℕ → List TxRow → List TxRow
unfolding or_block
set_submitted_for_pending block_number rows =
    map
      (λ r. record {
        nonce = r.nonce;
        transaction = r.transaction;
        transaction_hash = r.transaction_hash;
        submitted_at = or_block block_number r.submitted_at;
        fees = r.fees;
      })
      rows

unfoldable pub set_all_before_as_executed : ℕ → List TxRow → List TxRow
set_all_before_as_executed nonce rows = keep (λ r. not (ltb r.nonce nonce)) rows

-- `ORDER BY nonce ASC`.
unfoldable pub insert_row : TxRow → List TxRow → List TxRow
insert_row r [] = r ∷ []
insert_row r (q ∷ rest) =
    let inserted = insert_row r rest in if ltb q.nonce r.nonce then q ∷ inserted else r ∷ q ∷ rest

unfoldable pub sort_rows : List TxRow → List TxRow
unfolding insert_row
sort_rows [] = []
sort_rows (r ∷ rest) = insert_row r (sort_rows rest)

unfoldable pub is_submitted_up_to : ℕ → Option ℕ → Bool
is_submitted_up_to block_number none = false
is_submitted_up_to block_number (some n) = leb n block_number

unfoldable pub limit_rows : ℕ → List TxRow → List TxRow
limit_rows zero rows = []
limit_rows (suc n) [] = []
limit_rows (suc n) (r ∷ rest) = r ∷ limit_rows n rest

-- The first page, the one that is read.
unfoldable pub submitted_up_to : ℕ → List TxRow → List TxRow
unfolding sort_rows is_submitted_up_to limit_rows
submitted_up_to block_number rows =
    limit_rows 100 (sort_rows (keep (λ r. is_submitted_up_to block_number r.submitted_at) rows))

-- The fees of a submission: the estimate, and no less than 110% of the last ones.
unfoldable pub raised : Option FeeValues → (FeeValues → ℕ) → ℕ
raised none field = 0
raised (some fees) field = field fees * 110 / 100

unfoldable pub submission_fees : FeeValues → Option FeeValues → FeeValues
unfolding raised
submission_fees estimated previous = record {
  max_fee_per_gas = max estimated.max_fee_per_gas (raised previous (λ f. f.max_fee_per_gas));
  max_priority_fee_per_gas =
      max estimated.max_priority_fee_per_gas (raised previous (λ f. f.max_priority_fee_per_gas));
}

-- What the protocol does to the storage between two points at which it waits: `submitAction` reserves a
-- nonce, given the account's nonce on chain; `submitTransaction` stores the fees, and the hash after the
-- transaction was sent; `submitAction` gives up one that was not; `checkPendingActions` marks those
-- submitted, drops those before the account's nonce, and one whose nonce was too low.
pub data TxEvent : Type 0 where
  action_registered : EthTransactionData → (on_chain_nonce : ℕ) → TxEvent
  fees_estimated : (nonce : ℕ) → FeeValues → Option FeeValues → TxEvent
  transaction_sent : (nonce : ℕ) → Hex → TxEvent
  submission_failed : (nonce : ℕ) → TxEvent
  pending_marked : (block_number : ℕ) → TxEvent
  nonce_read : (current_nonce : ℕ) → TxEvent
  nonce_too_low : (nonce : ℕ) → TxEvent

-- The failed submission is forgotten only where it has the latest nonce.
unfoldable pub give_up : ℕ → List TxRow → List TxRow
unfolding max_nonce delete
give_up nonce rows = if option_eq (some nonce) (max_nonce rows) then delete nonce rows else rows

unfoldable pub on_tx_event : TxEvent → List TxRow → List TxRow
unfolding register set_fees submission_fees set_hash give_up set_submitted_for_pending
    set_all_before_as_executed delete
on_tx_event (action_registered tx on_chain_nonce) rows = register tx on_chain_nonce rows
on_tx_event (fees_estimated nonce estimated previous) rows =
    set_fees nonce (submission_fees estimated previous) rows
on_tx_event (transaction_sent nonce tx_hash) rows = set_hash nonce tx_hash rows
on_tx_event (submission_failed nonce) rows = give_up nonce rows
on_tx_event (pending_marked block_number) rows = set_submitted_for_pending block_number rows
on_tx_event (nonce_read current_nonce) rows = set_all_before_as_executed current_nonce rows
on_tx_event (nonce_too_low nonce) rows = delete nonce rows
