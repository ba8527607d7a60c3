-- ===== src/Checks/Soundness.antt =====
-- What the check of validator/src/service/checks.ts lets through.
use shieldnet.Prelude.{
  ℕ, ◌≡◌, ◌≢◌, refl, ap, ◌∙◌, ◌⊎◌, inl, inr, List, [], ◌∷◌, map, Option, none, some, Bool, true,
  false, not, arith, ltb, ◌==◌, includes, All, Bool-cases, Option-cases, ==_iff, if◌then◌else◌,
}
use shieldnet.Data.Frost.{Address, Text}
use shieldnet.Data.Packet.{SafeTransaction}
use shieldnet.Checks.Defs.{
  Signature, disable_module, add_owner_with_threshold, remove_owner, swap_owner, change_threshold,
  set_fallback_handler, set_guard, set_module_guard, enable_module, sign_message, migrate_singleton,
  migrate_with_fallback_handler, migrate_l2_singleton, migrate_l2_with_fallback_handler, Abi,
  Rejection, TransactionCheck, SelectorChecks, text_eq, take, has_selector,
  build_no_delegate_call_check, build_self_check, selector_check, build_supported_selector_check,
  build_selector_checks, build_combined_checks, invalid_selector, delegatecall_not_allowed,
}
use shieldnet.Checks.Multisend.{zero_address, SubTx, meta_tx, decode_multi_send}
use shieldnet.Checks.Allowed.{
  allowed_fallback_handlers, migration_contracts, sign_message_contracts, multi_send_contracts,
  unless_allowed, unless_zero_or_allowed, build_selector_check, bounded_self_calls,
  unbounded_self_call_checks, self_checks, base_checks,
}

-- A call of one of the functions, by its selector.
abbrev pub Calls : Abi → List Signature → SafeTransaction → Type 0
Calls abi signatures tx =
    has_selector (map abi.to_function_selector signatures) (take 10 tx.call_data) ≡ true

-- The calls of a Safe to itself that are allowed: none at all, changes of the owners and the threshold,
-- the removal of a module, a known fallback handler or none, and the removal of a guard.
pub data SelfCall (abi : Abi) (tx : SafeTransaction) : Type 0 where
  no_call : abi.size tx.call_data ≡ 0 → SelfCall abi tx
  unbounded :
      Calls abi
        (disable_module ∷ add_owner_with_threshold ∷ remove_owner ∷ swap_owner ∷ change_threshold
          ∷ [])
        tx
      → SelfCall abi tx
  handler :
      (a : Address)
      → abi.decode_function_data set_fallback_handler tx.call_data ≡ some a
      → (a ≡ zero_address) ⊎ (includes a allowed_fallback_handlers ≡ true)
      → SelfCall abi tx
  no_guard : abi.decode_function_data set_guard tx.call_data ≡ some zero_address → SelfCall abi tx
  no_module_guard :
      abi.decode_function_data set_module_guard tx.call_data ≡ some zero_address → SelfCall abi tx

-- A call, no delegate call, to another contract or one of those above.
abbrev pub PlainCall : Abi → SafeTransaction → Type 0
PlainCall abi tx = (tx.operation ≡ 0) × ((tx.to ≢ tx.safe) ⊎ SelfCall abi tx)

-- The transactions that the validator may attest.
pub data IsAllowed (abi : Abi) (tx : SafeTransaction) : Type 0 where
  plain : PlainCall abi tx → IsAllowed abi tx
  migration :
      includes tx.to migration_contracts ≡ true
      → tx.operation ≡ 1
      → Calls abi
          (migrate_singleton ∷ migrate_with_fallback_handler ∷ migrate_l2_singleton
            ∷ migrate_l2_with_fallback_handler ∷ [])
          tx
      → IsAllowed abi tx
  message :
      includes tx.to sign_message_contracts ≡ true
      → tx.operation ≡ 1
      → Calls abi (sign_message ∷ []) tx
      → IsAllowed abi tx
  batch :
      includes tx.to multi_send_contracts ≡ true
      → tx.operation ≡ 1
      → tx.value ≡ 0
      → (subs : List SubTx) → decode_multi_send abi tx.call_data ≡ some subs
      → All (λ sub. PlainCall abi (meta_tx abi tx sub)) subs
      → IsAllowed abi tx

-- A test that throws has failed where the whole returns.
pub if-none :
    (e : Rejection) (c : Bool) (x : Option Rejection)
    → (if c then some e else x) ≡ none
    → (c ≡ false) × (x ≡ none)
if-none e true x h = absurd (ground arith)
if-none e false x h = (refl, h)

pub not-false : (a b : ℕ) → not (a == b) ≡ false → a ≡ b
not-false a b h = ground arith

pub combined-none :
    (check : TransactionCheck) (rest : List TransactionCheck) (tx : SafeTransaction)
    → build_combined_checks (check ∷ rest) tx ≡ none
    → (check tx ≡ none) × (build_combined_checks rest tx ≡ none)
unfolding build_combined_checks
combined-none check rest tx h = elim (Option-cases (check tx)) [
  | inl e ↦ (e, rw e at h)
  | inr (r, e) ↦ absurd (let c : some r ≡ none = rw e at h in ground arith)
]

pub supported-none :
    (abi : Abi) (selectors : List Text) (allow : Bool) (tx : SafeTransaction)
    → build_supported_selector_check abi selectors allow tx ≡ none
    → ((abi.size tx.call_data ≡ 0) × (allow ≡ true))
      ⊎ (has_selector selectors (take 10 tx.call_data) ≡ true)
unfolding build_supported_selector_check
supported-none abi selectors allow tx h = ground arith

module _ (abi : Abi) where
  zero_or-none :
      (allowed : List Address) (o : Option Address)
      → unless_zero_or_allowed allowed o ≡ none
      → (a : Address) × (o ≡ some a) × ((a ≡ zero_address) ⊎ (includes a allowed ≡ true))
  unfolding unless_zero_or_allowed
  zero_or-none allowed none h = absurd (ground arith)
  zero_or-none allowed (some a) h = (
    a,
    refl,
    elim (Bool-cases (a == zero_address)) [
      | inl e ↦ inl ((==_iff a zero_address).0 e)
      | inr e ↦ inr (ground arith)
    ],
  )

  only_zero : (o : Option Address) → unless_zero_or_allowed [] o ≡ none → o ≡ some zero_address
  only_zero o h =
      let r = zero_or-none [] o h in
      elim r.2 [ inl e ↦ r.1 ∙ ap some e | inr e ↦ absurd (ground arith) ]

  none_allowed : (o : Option Address) → unless_allowed [] o ≡ none → ⊥
  unfolding unless_allowed
  none_allowed none h = ground arith
  none_allowed (some a) h = ground arith

  -- Whether the record's entries, from some on, and the fallback pass the call.
  abbrev Passes : SelectorChecks → SafeTransaction → Type 0
  Passes entries tx =
      selector_check entries (unbounded_self_call_checks abi) (take 10 tx.call_data) tx ≡ none

  Passes-cases :
      (signature : Signature) (h : Option Address → Option Rejection) (rest : SelectorChecks)
      (tx : SafeTransaction)
      → Passes (build_selector_check abi signature h ∷ rest) tx
      → (h (abi.decode_function_data signature tx.call_data) ≡ none) ⊎ Passes rest tx
  unfolding selector_check build_selector_check
  Passes-cases signature h rest tx p =
      elim (Bool-cases (text_eq (abi.to_function_selector signature) (take 10 tx.call_data))) [
        | inl e ↦ inl (rw e at p)
        | inr e ↦ inr (rw e at p)
      ]

  fallback_handler_entry : SelectorChecks
  fallback_handler_entry =
      build_selector_check abi set_fallback_handler
        (unless_zero_or_allowed allowed_fallback_handlers)
      ∷ []

  Passes-fallback : (tx : SafeTransaction) → Passes fallback_handler_entry tx → SelfCall abi tx
  unfolding fallback_handler_entry selector_check unbounded_self_call_checks
  Passes-fallback tx p =
      elim (Passes-cases set_fallback_handler (unless_zero_or_allowed allowed_fallback_handlers) []
        tx p) [
          | inl e ↦
              let r =
                zero_or-none allowed_fallback_handlers
                  (abi.decode_function_data set_fallback_handler tx.call_data) e in
              handler r.0 r.1 r.2
          | inr m ↦
              elim (supported-none abi
                (map abi.to_function_selector (
                  disable_module ∷ add_owner_with_threshold ∷ remove_owner ∷ swap_owner
                  ∷ change_threshold ∷ []))
                true tx m) [ inl e ↦ no_call e.0 | inr e ↦ unbounded e ]
        ]

  Passes-guards :
      (tx : SafeTransaction)
      → Passes
          (build_selector_check abi set_guard (unless_zero_or_allowed []) ∷ fallback_handler_entry)
          tx
      → SelfCall abi tx
  Passes-guards tx p =
      elim (Passes-cases set_guard (unless_zero_or_allowed []) fallback_handler_entry tx p) [
        | inl e ↦ no_guard (only_zero (abi.decode_function_data set_guard tx.call_data) e)
        | inr q ↦ Passes-fallback tx q
      ]

  -- The entries of the record, and the fallback.
  Passes-SelfCall : (tx : SafeTransaction) → Passes (bounded_self_calls abi) tx → SelfCall abi tx
  unfolding bounded_self_calls fallback_handler_entry
  Passes-SelfCall tx p =
      let guards =
        build_selector_check abi set_guard (unless_zero_or_allowed []) ∷ fallback_handler_entry in
      let module_guards =
        build_selector_check abi set_module_guard (unless_zero_or_allowed []) ∷ guards in
      elim (Passes-cases enable_module (unless_allowed []) module_guards tx p) [
        | inl e ↦ absurd (none_allowed (abi.decode_function_data enable_module tx.call_data) e)
        | inr q ↦ elim (Passes-cases set_module_guard (unless_zero_or_allowed []) guards tx q) [
          | inl e ↦
              no_module_guard (only_zero (abi.decode_function_data set_module_guard tx.call_data) e)
          | inr r ↦ Passes-guards tx r
        ]
      ]

  build_selector_checks-SelfCall :
      (tx : SafeTransaction)
      → build_selector_checks abi (bounded_self_calls abi) true (unbounded_self_call_checks abi) tx
        ≡ none
      → SelfCall abi tx
  unfolding build_selector_checks
  build_selector_checks-SelfCall tx h = elim (Bool-cases (abi.size tx.call_data == 0)) [
    | inl e ↦ no_call ((==_iff _ _).0 e)
    | inr e ↦
        let g = if-none invalid_selector (ltb (abi.size tx.call_data) 4) _ (rw e at h) in
        Passes-SelfCall tx g.1
  ]

  pub base_checks-PlainCall : (tx : SafeTransaction) → base_checks abi tx ≡ none → PlainCall abi tx
  unfolding base_checks build_no_delegate_call_check self_checks build_self_check
  base_checks-PlainCall tx h =
      let c = combined-none (self_checks abi) (build_no_delegate_call_check ∷ []) tx h in
      let d = combined-none build_no_delegate_call_check [] tx c.1 in
      let o = if-none delegatecall_not_allowed (not (tx.operation == 0)) none d.0 in
      (
        not-false tx.operation 0 o.0,
        elim (Bool-cases (tx.to == tx.safe)) [
          | inr e ↦ inl (λ p. absurd (ground (arith, p)))
          | inl e ↦ inr (build_selector_checks-SelfCall tx (rw e at c.0))
        ],
      )
