-- ===== src/Tests/Checking.antt =====
-- The theorems about the transaction checks and the action queue at concrete inputs.
use shieldnet.Prelude.{
  length, ◌-◌, ◌/◌, ℕ, ◌+◌, ◌≡◌, refl, inl, inr, List, [], ◌∷◌, ◌++◌, Option, none, some, arith,
}
use shieldnet.Data.Frost.{Text, Address}
use shieldnet.Data.Packet.{SafeTransaction}
use shieldnet.Data.Action.{key_gen_confirm}
use shieldnet.Checks.Defs.{
  Signature, disable_module, add_owner_with_threshold, remove_owner, swap_owner, change_threshold,
  set_fallback_handler, set_guard, set_module_guard, enable_module, sign_message, migrate_singleton,
  migrate_with_fallback_handler, migrate_l2_singleton, migrate_l2_with_fallback_handler, Abi,
}
use shieldnet.Checks.Multisend.{
  address_place, zero_address, hex_digits, multi_send_data_start, parse_number, read_sub_txs, ◌>>=◌,
  read_sub_tx,
}
use shieldnet.Checks.Allowed.{build_safe_transaction_check}
use shieldnet.Checks.Soundness.{IsAllowed}
use shieldnet.Checks.Accepted.{build_safe_transaction_check-IsAllowed}
use shieldnet.Checks.Decoding.{read_sub_txs-enough}
use shieldnet.Protocol.Queue.{
  Queue, push_call, peek_call, pop_call, run_queue, run_list, first, rest_of,
}
use shieldnet.Protocol.Table.{push_row, peek_row, pop_row, elements}
use shieldnet.Protocol.Rows.{run_sqlite-list}
use shieldnet.Protocol.Base.{ActionWithTimeout, BaseProtocol, sent, on_event}
use shieldnet.Protocol.Liveness.{IsSafe, IsProgressing, on_event-IsSafe}

abbrev selector_number : Signature → ℕ
selector_number disable_module = 1
selector_number add_owner_with_threshold = 2
selector_number remove_owner = 3
selector_number swap_owner = 4
selector_number change_threshold = 5
selector_number set_fallback_handler = 6
selector_number set_guard = 7
selector_number set_module_guard = 8
selector_number enable_module = 9
selector_number sign_message = 10
selector_number migrate_singleton = 11
selector_number migrate_with_fallback_handler = 12
selector_number migrate_l2_singleton = 13
selector_number migrate_l2_with_fallback_handler = 14

abbrev address_of : Option ℕ → Option Address
address_of none = none
address_of (some n) = some (address_place n)

abbrev abi : Abi
abi = record {
  to_function_selector = λ s. 48 ∷ 120 ∷ hex_digits 8 (selector_number s);
  decode_function_data = λ s data_. some zero_address;
  get_address = λ t. address_of (parse_number t);
  size = λ t. (length t - 1) / 2;
}

-- A batch of one call, of the contract at 500, in 85 bytes and 11 bytes of padding.
abbrev batch_data : Text
batch_data =
    multi_send_data_start
    ++ hex_digits 64 85
    ++ hex_digits 2 0
    ++ hex_digits 40 500
    ++ hex_digits 64 3
    ++ hex_digits 64 0
    ++ hex_digits 22 0

abbrev batch_tx : SafeTransaction
batch_tx = record {
  chain_id = 1;
  safe = address_place 9;
  to = address_place 369003182734058290799325705356566805450009940749;
  value = 0;
  call_data = batch_data;
  operation = 1;
  safe_tx_gas = 0;
  base_gas = 0;
  gas_price = 0;
  gas_token = zero_address;
  refund_receiver = zero_address;
  nonce = 4;
}

build_safe_transaction_check-IsAllowed_example : IsAllowed abi batch_tx
unfolding build_safe_transaction_check ◌>>=◌ read_sub_tx
build_safe_transaction_check-IsAllowed_example =
    build_safe_transaction_check-IsAllowed abi batch_tx passes
  where
    passes : build_safe_transaction_check abi batch_tx ≡ none
    passes = refl

read_sub_txs-enough_example :
    read_sub_txs abi (5 + 7) (48 ∷ 120 ∷ []) 0 0 ≡ read_sub_txs abi 5 (48 ∷ 120 ∷ []) 0 0
read_sub_txs-enough_example =
    read_sub_txs-enough abi 5 7 (48 ∷ 120 ∷ []) 0 0 (omega arith) (omega arith)

-- Numbers as the text of one character.
abbrev character : Text → Option ℕ
character (c ∷ []) = some c
character _ = none

run_sqlite-list_example :
    run_queue
      (push_row (λ n. n ∷ []) character)
      (peek_row (λ n. n ∷ []) character)
      (pop_row (λ n. n ∷ []) character)
      (push_call 5 ∷ push_call 6 ∷ pop_call ∷ push_call 7 ∷ pop_call ∷ peek_call ∷ [])
      []
    ≡ run_list
        (push_call 5 ∷ push_call 6 ∷ pop_call ∷ push_call 7 ∷ pop_call ∷ peek_call ∷ [])
        (elements (λ n. n ∷ []) character [])
run_sqlite-list_example =
    run_sqlite-list (λ n. n ∷ []) character (λ n. refl)
      (push_call 5 ∷ push_call 6 ∷ pop_call ∷ push_call 7 ∷ pop_call ∷ peek_call ∷ []) [] (tt, tt)

-- A queue that is a list.
abbrev list_queue : Queue ActionWithTimeout (List ActionWithTimeout)
list_queue = record {
  push = λ a l. l ++ a ∷ [];
  peek = first;
  pop = λ l. (first l, rest_of l);
  contents = λ l. l;
  IsValid = λ l. Unit;
  push-IsValid = λ a l h. tt;
  pop-IsValid = λ l h. tt;
  contents-push = λ a l h. refl;
  peek-contents = λ l h. refl;
  pop-contents = λ l h. refl;
  contents-pop = λ l h. refl;
}

abbrev confirm : ℕ → ActionWithTimeout
confirm time = record { action = key_gen_confirm 1 none; valid_until = time }

-- Three actions, the first in flight; the second has expired when the first is sent.
abbrev sending : BaseProtocol (List ActionWithTimeout)
sending = record {
  action_queue = confirm 100 ∷ confirm 40 ∷ confirm 200 ∷ [];
  current_action = some (confirm 100);
  retries = 0;
  performed = (confirm 100, 30) ∷ [];
}

on_event-IsSafe_example :
    IsSafe list_queue (on_event list_queue 9 50 sent sending)
    × IsProgressing list_queue (on_event list_queue 9 50 sent sending)
on_event-IsSafe_example =
    on_event-IsSafe list_queue 9 50 sent sending
      (record { valid = tt; in_flight = inr refl; timely = (omega arith, tt) }) (inr (inl refl))
      refl (omega arith)
