-- ===== src/Checks/Allowed.antt =====
-- validator/src/service/checks.ts and validator/src/consensus/verify/safeTx/checks/config: the check
-- that the validator is run with.
use shieldnet.Prelude.{
  List, [], ◌∷◌, ◌++◌, map, Option, none, some, true, false, not, ◌&&◌, ◌==◌, includes,
  if◌then◌else◌,
}
use shieldnet.Data.Frost.{Address, Text}
use shieldnet.Checks.Defs.{
  Signature, disable_module, add_owner_with_threshold, remove_owner, swap_owner, change_threshold,
  set_fallback_handler, set_guard, set_module_guard, enable_module, sign_message, migrate_singleton,
  migrate_with_fallback_handler, migrate_l2_singleton, migrate_l2_with_fallback_handler, Abi,
  Rejection, undecodable, unknown_address, TransactionCheck, SelectorChecks, AddressKey, any_chain,
  build_no_delegate_call_check, build_self_check, build_fixed_params_check,
  build_supported_selector_check, build_selector_checks, build_combined_checks,
  build_address_split_check,
}
use shieldnet.Checks.Multisend.{address_place, zero_address, build_multi_send_call_only_check}

abbrev pub allowed_fallback_handlers : List Address
allowed_fallback_handlers =
    -- 0x85a8ca358D388530ad0fB95D0cb89Dd44Fc242c3
    address_place 763059912617362081237087408727629237664314704579
    -- 0x3EfCBb83A4A7AfcB4F68D501E2c2203a38be77f4
    ∷ address_place 359593550374431143756858752567609836127288981492
    -- 0xfd0732Dc9E303f09fCEf3a7388Ad10A83459Ec99
    ∷ address_place 1444535200921506956778134748351120079420986616985
    -- 0xf48f2B2d2a534e402487b3ee7C18c33Aec0Fe5e4
    ∷ address_place 1396186515841668423727045232715654546078494090724
    -- 0x017062a1dE2FE6b99BE3d9d37841FeD19F573804
    ∷ address_place 8215266317878988767616128113899981207946868740
    ∷ []

-- No guards, modules and module guards are allowed.
abbrev pub allowed_guards : List Address
allowed_guards = []

abbrev pub allowed_modules : List Address
allowed_modules = []

abbrev pub allowed_module_guards : List Address
allowed_module_guards = []

-- The contracts for migrations, for messages and for batches.
abbrev pub migration_contracts : List Address
migration_contracts =
    -- 0x6439e7ABD8Bb915A5263094784C5CF561c4172AC
    address_place 572190400973122332747347041451017950576846664364
    -- 0x526643F69b81B008F46d95CD5ced5eC0edFFDaC6
    ∷ address_place 470417839657128371089917095638575265785168517830
    ∷ []

abbrev pub sign_message_contracts : List Address
sign_message_contracts =
    -- 0xA65387F16B013cf2Af4605Ad8aA5ec25a2cbA3a2
    address_place 949555272117120442340796946350557039111531373474
    -- 0x98FFBBF51bb33A056B08ddf711f289936AafF717
    ∷ address_place 873469660594317805213469847520992782968612189975
    -- 0xd53cd0aB83D845Ac265BE939c57F53AD838012c9
    ∷ address_place 1217371256616400022356577189612251936115715478217
    -- 0x4FfeF8222648872B3dE295Ba1e49110E61f5b5aa
    ∷ address_place 456696275642908903310345861017796636048182588842
    ∷ []

abbrev pub multi_send_contracts : List Address
multi_send_contracts =
    -- 0xA83c336B20401Af773B6219BA5027174338D1836
    address_place 960452973389980807584535215172101445878987692086
    -- 0x9641d764fc13c8B624c04430C7356C1C7C8102e2
    ∷ address_place 857816927566260619176977939591822183329360315106
    -- 0x40A2aCCbd92BCA938b02010E17A5b8929b49130D
    ∷ address_place 369003182734058290799325705356566805450009940749
    ∷ []

-- The same check for each contract of a list.
unfoldable pub same_check : TransactionCheck → List Address → List (AddressKey × TransactionCheck)
same_check check [] = []
same_check check (a ∷ rest) = (any_chain a, check) ∷ same_check check rest

-- The handlers of `setFallbackHandler`, `setGuard` and `setModuleGuard`, which also allow the zero
-- address, and of `enableModule`.
unfoldable pub unless_allowed : List Address → Option Address → Option Rejection
unless_allowed allowed none = some undecodable
unless_allowed allowed (some a) = if not (includes a allowed) then some unknown_address else none

unfoldable pub unless_zero_or_allowed : List Address → Option Address → Option Rejection
unless_zero_or_allowed allowed none = some undecodable
unless_zero_or_allowed allowed (some a) =
    if not (a == zero_address) && not (includes a allowed) then some unknown_address else none

module _ (abi : Abi) where
  -- `buildSelectorCheck` of a function of one address.
  unfoldable pub build_selector_check :
      Signature → (Option Address → Option Rejection) → Text × TransactionCheck
  build_selector_check signature handler = (
    abi.to_function_selector signature,
    λ tx. handler (abi.decode_function_data signature tx.call_data),
  )

  -- The last of the four comes first, as its entry would replace an earlier one of the same selector.
  unfoldable pub bounded_self_calls : SelectorChecks
  unfolding build_selector_check unless_allowed unless_zero_or_allowed
  bounded_self_calls =
      build_selector_check enable_module (unless_allowed allowed_modules)
      ∷ build_selector_check set_module_guard (unless_zero_or_allowed allowed_module_guards)
      ∷ build_selector_check set_guard (unless_zero_or_allowed allowed_guards)
      ∷ build_selector_check set_fallback_handler (unless_zero_or_allowed allowed_fallback_handlers)
      ∷ []

  unfoldable pub unbounded_self_call_checks : TransactionCheck
  unfolding build_supported_selector_check
  unbounded_self_call_checks =
      build_supported_selector_check abi
        (map abi.to_function_selector (
          disable_module ∷ add_owner_with_threshold ∷ remove_owner ∷ swap_owner ∷ change_threshold
          ∷ []))
        true

  unfoldable pub self_checks : TransactionCheck
  unfolding build_self_check build_selector_checks bounded_self_calls unbounded_self_call_checks
  self_checks =
      build_self_check
        (build_selector_checks abi bounded_self_calls true unbounded_self_call_checks)

  unfoldable pub base_checks : TransactionCheck
  unfolding build_combined_checks self_checks build_no_delegate_call_check
  base_checks = build_combined_checks (self_checks ∷ build_no_delegate_call_check ∷ [])

  unfoldable pub build_sign_check : TransactionCheck
  unfolding build_combined_checks build_fixed_params_check build_supported_selector_check
  build_sign_check = build_combined_checks (
      build_fixed_params_check 1
      ∷ build_supported_selector_check abi (abi.to_function_selector sign_message ∷ []) false
      ∷ [])

  unfoldable pub build_migration_check : TransactionCheck
  unfolding build_combined_checks build_fixed_params_check build_supported_selector_check
  build_migration_check = build_combined_checks (
      build_fixed_params_check 1
      ∷ build_supported_selector_check abi
          (map abi.to_function_selector (
            migrate_singleton ∷ migrate_with_fallback_handler ∷ migrate_l2_singleton
            ∷ migrate_l2_with_fallback_handler ∷ []))
          false
      ∷ [])

  -- The two records have no key in common.
  unfoldable pub allowed_delegate_calls : TransactionCheck
  unfolding build_address_split_check same_check base_checks build_sign_check build_migration_check
  allowed_delegate_calls =
      build_address_split_check
        (same_check build_migration_check migration_contracts
          ++ same_check build_sign_check sign_message_contracts)
        base_checks

  unfoldable pub build_safe_transaction_check : TransactionCheck
  unfolding build_address_split_check same_check build_multi_send_call_only_check
      allowed_delegate_calls base_checks
  build_safe_transaction_check =
      build_address_split_check
        (same_check (build_multi_send_call_only_check abi base_checks) multi_send_contracts)
        allowed_delegate_calls
