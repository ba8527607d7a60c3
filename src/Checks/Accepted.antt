-- ===== src/Checks/Accepted.antt =====
-- The whole check of validator/src/service/checks.ts.
use mathlib.Core.List.{append-nil}
use mathlib.Core.Path.{subst}
use shieldnet.Prelude.{
  ℕ, ◌≡◌, refl, sym, ◌∙◌, ◌⊎◌, inl, inr, List, [], ◌∷◌, ◌++◌, map, Option, none, some, true, false,
  not, ◌==◌, includes, All, arith, Bool-cases, Option-cases,
}
use shieldnet.Data.Frost.{Address, Text}
use shieldnet.Data.Packet.{SafeTransaction}
use shieldnet.Checks.Defs.{
  sign_message, migrate_singleton, migrate_with_fallback_handler, migrate_l2_singleton,
  migrate_l2_with_fallback_handler, Abi, Rejection, TransactionCheck, AddressKey, any_chain, eip155,
  key_eq, has_selector, take, address_check, or_check, build_fixed_params_check,
  build_supported_selector_check, build_combined_checks, build_address_split_check,
  unexpected_params, invalid_multi_send,
}
use shieldnet.Checks.Multisend.{
  SubTx, meta_tx, decode_multi_send, check_all, build_multi_send_call_only_check,
}
use shieldnet.Checks.Allowed.{
  migration_contracts, sign_message_contracts, multi_send_contracts, same_check, base_checks,
  build_sign_check, build_migration_check, allowed_delegate_calls, build_safe_transaction_check,
}
use shieldnet.Checks.Soundness.{
  PlainCall, IsAllowed, plain, migration, message, batch, if-none, not-false, combined-none,
  supported-none, base_checks-PlainCall,
}

-- A contract of a list has its check, another one that of the rest of the record.
address_check-cases :
    (check : TransactionCheck) (l : List Address) (rest : List (AddressKey × TransactionCheck))
    (a : Address)
    → ((includes a l ≡ true)
        × (address_check (same_check check l ++ rest) (any_chain a) ≡ some check))
      ⊎ (address_check (same_check check l ++ rest) (any_chain a)
          ≡ address_check rest (any_chain a))
unfolding address_check same_check key_eq
address_check-cases check [] rest a = inr refl
address_check-cases check (b ∷ l) rest a = elim (Bool-cases (b == a)) [
  | inl e ↦ inl (rw e refl, rw e refl)
  | inr e ↦ elim (address_check-cases check l rest a) [
    | inl h ↦ inl (rw e h.0, rw e h.1)
    | inr h ↦ inr (rw e h)
  ]
]

-- No check is for one chain only.
address_check-chain :
    (check : TransactionCheck) (l : List Address) (rest : List (AddressKey × TransactionCheck))
    (c a : ℕ)
    → address_check (same_check check l ++ rest) (eip155 c a) ≡ address_check rest (eip155 c a)
unfolding address_check same_check key_eq
address_check-chain check [] rest c a = refl
address_check-chain check (b ∷ l) rest c a = address_check-chain check l rest c a

-- A transaction that passes is checked by the check of its contract, or by the rest of the record.
split-cases :
    (check : TransactionCheck) (l : List Address) (rest : List (AddressKey × TransactionCheck))
    (fallback : TransactionCheck) (tx : SafeTransaction)
    → address_check rest (eip155 tx.chain_id tx.to) ≡ none
    → build_address_split_check (same_check check l ++ rest) fallback tx ≡ none
    → ((includes tx.to l ≡ true) × (check tx ≡ none))
      ⊎ (build_address_split_check rest fallback tx ≡ none)
unfolding build_address_split_check or_check
split-cases check l rest fallback tx n h =
    let c = address_check-chain check l rest tx.chain_id tx.to ∙ n in
    let g : or_check none
          (or_check (address_check (same_check check l ++ rest) (any_chain tx.to)) fallback) tx
        ≡ none =
      rw c at h in
    elim (address_check-cases check l rest tx.to) [
      | inl e ↦ inl (e.0, rw e.1 at g)
      | inr e ↦ inr (rw n (rw e at g))
    ]

chain-none :
    (check : TransactionCheck) (l : List Address) (c a : ℕ)
    → address_check (same_check check l) (eip155 c a) ≡ none
unfolding address_check same_check key_eq
chain-none check [] c a = refl
chain-none check (b ∷ l) c a = chain-none check l c a

-- A record of one list.
split_one-cases :
    (check : TransactionCheck) (l : List Address) (fallback : TransactionCheck)
    (tx : SafeTransaction)
    → build_address_split_check (same_check check l) fallback tx ≡ none
    → ((includes tx.to l ≡ true) × (check tx ≡ none)) ⊎ (fallback tx ≡ none)
unfolding build_address_split_check or_check address_check
split_one-cases check l fallback tx h = split-cases check l [] fallback tx refl (
    subst (λ r. build_address_split_check r fallback tx ≡ none)
      (sym (append-nil (same_check check l))) h)

first-none :
    (o x : Option Rejection)
    → elim o as (λ _. Option Rejection) [ some e ↦ some e | none ↦ x ] ≡ none
    → (o ≡ none) × (x ≡ none)
first-none none x h = (refl, h)
first-none (some e) x h = absurd (ground arith)

-- A delegate call of one of the functions.
delegated-none :
    (abi : Abi) (selectors : List Text) (tx : SafeTransaction)
    → build_combined_checks
        (build_fixed_params_check 1 ∷ build_supported_selector_check abi selectors false ∷ [])
        tx
      ≡ none
    → (tx.operation ≡ 1) × (has_selector selectors (take 10 tx.call_data) ≡ true)
unfolding build_fixed_params_check
delegated-none abi selectors tx h =
    let check = build_supported_selector_check abi selectors false in
    let c = combined-none (build_fixed_params_check 1) (check ∷ []) tx h in
    let d = combined-none check [] tx c.1 in
    let o = if-none unexpected_params (not (tx.operation == 1)) none c.0 in
    (
      not-false tx.operation 1 o.0,
      elim (supported-none abi selectors false tx d.0) [
        | inl e ↦ absurd (let f : false ≡ true = e.1 in ground arith)
        | inr e ↦ e
      ],
    )

module _ (abi : Abi) where
  check_all-PlainCall :
      (tx : SafeTransaction) (subs : List SubTx)
      → check_all abi (base_checks abi) tx subs ≡ none
      → All (λ sub. PlainCall abi (meta_tx abi tx sub)) subs
  unfolding check_all
  check_all-PlainCall tx [] h = tt
  check_all-PlainCall tx (sub ∷ rest) h =
      let c = first-none (base_checks abi (meta_tx abi tx sub)) _ h in
      (base_checks-PlainCall abi (meta_tx abi tx sub) c.0, check_all-PlainCall tx rest c.1)

  multi_send-batch :
      (tx : SafeTransaction)
      → includes tx.to multi_send_contracts ≡ true
      → build_multi_send_call_only_check abi (base_checks abi) tx ≡ none
      → IsAllowed abi tx
  unfolding build_multi_send_call_only_check
  multi_send-batch tx i h =
      let a = if-none unexpected_params (not (tx.operation == 1)) _ h in
      let b = if-none unexpected_params (not (tx.value == 0)) _ a.1 in
      elim (Option-cases (decode_multi_send abi tx.call_data)) [
        | inl e ↦ absurd (let c : some invalid_multi_send ≡ none = rw e at b.1 in ground arith)
        | inr (subs, e) ↦
            batch i (not-false tx.operation 1 a.0) (not-false tx.value 0 b.0) subs e
              (check_all-PlainCall tx subs (rw e at b.1))
      ]

  allowed_delegate_calls-IsAllowed :
      (tx : SafeTransaction) → allowed_delegate_calls abi tx ≡ none → IsAllowed abi tx
  unfolding allowed_delegate_calls build_sign_check build_migration_check
  allowed_delegate_calls-IsAllowed tx h =
      elim (split-cases (build_migration_check abi) migration_contracts
        (same_check (build_sign_check abi) sign_message_contracts) (base_checks abi) tx
        (chain-none (build_sign_check abi) sign_message_contracts tx.chain_id tx.to) h) [
          | inl e ↦
              let d =
                delegated-none abi
                  (map abi.to_function_selector (
                    migrate_singleton ∷ migrate_with_fallback_handler ∷ migrate_l2_singleton
                    ∷ migrate_l2_with_fallback_handler ∷ []))
                  tx e.1 in
              migration e.0 d.0 d.1
          | inr g ↦
              elim (split_one-cases (build_sign_check abi) sign_message_contracts (base_checks abi)
                tx g) [
                  | inl e ↦
                      let d =
                        delegated-none abi (abi.to_function_selector sign_message ∷ []) tx e.1 in
                      message e.0 d.0 d.1
                  | inr b ↦ plain (base_checks-PlainCall abi tx b)
                ]
        ]

  -- A transaction that the check of the service lets through is one of four: a plain call,
  -- that is no delegate call, whose target is not the Safe itself, or is and the call is one
  -- of those allowed there; a delegate call of a migration contract for one of its four
  -- functions; a delegate call of a contract that signs messages, for that; or a delegate call
  -- of a contract for batches, without value, whose data decodes to a list of plain calls.
  pub build_safe_transaction_check-IsAllowed :
      (tx : SafeTransaction) → build_safe_transaction_check abi tx ≡ none → IsAllowed abi tx
  unfolding build_safe_transaction_check
  build_safe_transaction_check-IsAllowed tx h =
      elim (split_one-cases (build_multi_send_call_only_check abi (base_checks abi))
        multi_send_contracts (allowed_delegate_calls abi) tx h) [
          | inl e ↦ multi_send-batch tx e.0 e.1
          | inr g ↦ allowed_delegate_calls-IsAllowed tx g
        ]
