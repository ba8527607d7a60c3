-- ===== src/Checks/Defs.antt =====
-- validator/src/consensus/verify/safeTx/checks/basic.ts and combined.ts: checks and their combinators.
use shieldnet.Prelude.{
  ℕ, zero, suc, List, [], ◌∷◌, Option, none, some, Bool, true, false, not, ◌&&◌, ◌||◌, ltb, ◌==◌,
  if◌then◌else◌,
}
use shieldnet.Data.Frost.{Address, Text}
use shieldnet.Data.Packet.{SafeTransaction}

-- The functions of contracts that the checks name.
pub data Signature : Type 0 where
  disable_module add_owner_with_threshold remove_owner swap_owner change_threshold : Signature
  set_fallback_handler set_guard set_module_guard enable_module : Signature
  sign_message : Signature
  migrate_singleton migrate_with_fallback_handler migrate_l2_singleton : Signature
  migrate_l2_with_fallback_handler : Signature

-- viem: the selector of a function; the one argument of a call of a function of an address, and the
-- address of 40 digits, both of which may throw; the number of bytes of a hex string.
pub record Abi : Type 0 where
  pub to_function_selector : Signature → Text
  pub decode_function_data : Signature → Text → Option Address
  pub get_address : Text → Option Address
  pub size : Text → ℕ

-- What a check throws.
pub data Rejection : Type 0 where
  delegatecall_not_allowed : Rejection
  unexpected_params : Rejection
  invalid_selector : Rejection
  selector_not_supported : Rejection
  undecodable : Rejection
  unknown_address : Rejection
  invalid_multi_send : Rejection

-- `none` where the check returns.
abbrev pub TransactionCheck : Type 0
TransactionCheck = SafeTransaction → Option Rejection

unfoldable pub text_eq : Text → Text → Bool
text_eq [] [] = true
text_eq (a ∷ as_) (b ∷ bs) = a == b && text_eq as_ bs
text_eq _ _ = false

unfoldable pub take : ℕ → Text → Text
take zero text = []
take (suc n) [] = []
take (suc n) (c ∷ text) = c ∷ take n text

unfoldable pub drop : ℕ → Text → Text
drop zero text = text
drop (suc n) [] = []
drop (suc n) (c ∷ text) = drop n text

unfoldable pub build_no_delegate_call_check : TransactionCheck
build_no_delegate_call_check tx =
    if not (tx.operation == 0) then some delegatecall_not_allowed else none

unfoldable pub build_self_check : TransactionCheck → TransactionCheck
build_self_check check tx = if not (tx.to == tx.safe) then none else check tx

-- `buildFixedParamsCheck({ operation })`, the one form that is used.
unfoldable pub build_fixed_params_check : ℕ → TransactionCheck
build_fixed_params_check operation tx =
    if not (tx.operation == operation) then some unexpected_params else none

-- `selectors.includes(selector)`.
unfoldable pub has_selector : List Text → Text → Bool
unfolding text_eq
has_selector [] selector = false
has_selector (s ∷ rest) selector = text_eq s selector || has_selector rest selector

unfoldable pub build_supported_selector_check : Abi → List Text → Bool → TransactionCheck
unfolding has_selector take
build_supported_selector_check abi selectors allow_empty tx =
    if abi.size tx.call_data == 0 && allow_empty
    then none
    else if ltb (abi.size tx.call_data) 4
    then some invalid_selector
    else if not (has_selector selectors (take 10 tx.call_data))
    then some selector_not_supported
    else none

-- A record of checks by selector; `{...a, ...b}` looks a key up in `b` first.
abbrev pub SelectorChecks : Type 0
SelectorChecks = List (Text × TransactionCheck)

-- `selectorChecks[selector] ?? fallbackCheck`.
unfoldable pub selector_check : SelectorChecks → TransactionCheck → Text → TransactionCheck
unfolding text_eq
selector_check [] fallback selector = fallback
selector_check ((s, check) ∷ rest) fallback selector =
    if text_eq s selector then check else selector_check rest fallback selector

-- With a fallback, as it is always given.
unfoldable pub build_selector_checks :
    Abi → SelectorChecks → Bool → TransactionCheck → TransactionCheck
unfolding selector_check take
build_selector_checks abi selector_checks allow_empty fallback tx =
    if abi.size tx.call_data == 0 && allow_empty
    then none
    else if ltb (abi.size tx.call_data) 4
    then some invalid_selector
    else selector_check selector_checks fallback (take 10 tx.call_data) tx

unfoldable pub build_combined_checks : List TransactionCheck → TransactionCheck
build_combined_checks [] tx = none
build_combined_checks (check ∷ rest) tx = elim (check tx) as (λ _. Option Rejection) [
  | some e ↦ some e
  | none ↦ build_combined_checks rest tx
]

-- A key of an address split: with the prefix of a chain, or without.
pub data AddressKey : Type 0 where
  eip155 : (chain : ℕ) → Address → AddressKey
  any_chain : Address → AddressKey

unfoldable pub key_eq : AddressKey → AddressKey → Bool
key_eq (eip155 c a) (eip155 d b) = c == d && a == b
key_eq (any_chain a) (any_chain b) = a == b
key_eq _ _ = false

unfoldable pub address_check :
    List (AddressKey × TransactionCheck) → AddressKey → Option TransactionCheck
unfolding key_eq
address_check [] key = none
address_check ((k, check) ∷ rest) key = if key_eq k key then some check else address_check rest key

unfoldable pub or_check : Option TransactionCheck → TransactionCheck → TransactionCheck
or_check none fallback = fallback
or_check (some check) fallback = check

unfoldable pub build_address_split_check :
    List (AddressKey × TransactionCheck) → TransactionCheck → TransactionCheck
unfolding address_check or_check
build_address_split_check checks fallback tx =
    or_check (address_check checks (eip155 tx.chain_id tx.to))
      (or_check (address_check checks (any_chain tx.to)) fallback) tx
