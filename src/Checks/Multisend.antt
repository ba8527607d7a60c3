-- ===== src/Checks/Multisend.antt =====
-- validator/src/consensus/verify/safeTx/checks/multisend.ts: a batch of calls in one transaction.
use shieldnet.Prelude.{
  ℕ, zero, suc, ◌+◌, ◌-◌, ◌*◌, ◌/◌, ◌%◌, ◌^◌, List, [], ◌∷◌, ◌++◌, Option, none, some, Bool, true,
  false, not, ◌&&◌, leb, ltb, ◌==◌, length, if◌then◌else◌,
}
use shieldnet.Data.Frost.{Address, Text}
use shieldnet.Data.Packet.{SafeTransaction}
use shieldnet.Checks.Defs.{
  Abi, Rejection, unexpected_params, invalid_multi_send, TransactionCheck, take, drop,
}

-- An address as its place among the hex strings of 40 digits, in front of which are all shorter ones.
abbrev pub address_place : ℕ → Address
address_place value = 16 ^ 40 / 15 + value

abbrev pub zero_address : Address
zero_address = address_place 0

abbrev pub min_length : ℕ
min_length = 4 + 32 + 32

-- The digits of a number in the notation of `0x` strings, most significant first.
unfoldable pub hex_digits : ℕ → ℕ → Text
hex_digits zero value = []
hex_digits (suc n) value =
    let d = value / 16 ^ n % 16 in (if ltb d 10 then 48 + d else 87 + d) ∷ hex_digits n value

-- `0x8d80ff0a`, and the data pointer 0x20 in 32 bytes.
unfoldable pub multi_send_data_start : Text
unfolding hex_digits
multi_send_data_start = 48 ∷ 120 ∷ (hex_digits 8 2374041354 ++ hex_digits 64 32)

unfoldable pub slice : Text → ℕ → ℕ → Text
unfolding take drop
slice text from to = take (to - from) (drop from text)

-- The value of a hex digit, in either case.
unfoldable pub hex_value : ℕ → Option ℕ
hex_value code =
    if leb 48 code && leb code 57
    then some (code - 48)
    else if leb 97 code && leb code 102
    then some (code - 87)
    else if leb 65 code && leb code 70
    then some (code - 55)
    else none

unfoldable pub parse_digits : ℕ → Text → Option ℕ
unfolding hex_value
parse_digits value [] = some value
parse_digits value (c ∷ text) = elim (hex_value c) as (λ _. Option ℕ) [
  | none ↦ none
  | some d ↦ parse_digits (value * 16 + d) text
]

-- `BigInt` and `Number` of `0x` and some digits: not a number without any, and where one is no digit.
unfoldable pub parse_number : Text → Option ℕ
unfolding parse_digits
parse_number [] = none
parse_number (c ∷ text) = parse_digits 0 (c ∷ text)

unfoldable pub starts_with : Text → Text → Bool
starts_with text [] = true
starts_with [] (c ∷ start) = false
starts_with (d ∷ text) (c ∷ start) = d == c && starts_with text start

pub record SubTx : Type 0 where
  pub sub_operation : ℕ
  pub sub_to : Address
  pub sub_value : ℕ
  pub sub_data : Text

infixl 20 ◌>>=◌
unfoldable pub ◌>>=◌ : {A B : Type 0} → Option A → (A → Option B) → Option B
none >>= f = none
some a >>= f = f a

module _ (abi : Abi) where
  -- One transaction at the pointer, and the pointer behind it. A length of 2^53 or more is not rounded,
  -- as `Number` does: either way the pointer is behind all of the data, which is rejected in the end.
  unfoldable pub read_sub_tx : Text → ℕ → Option (SubTx × ℕ)
  unfolding slice parse_number
  read_sub_tx text pointer = do
    operation ← parse_number (slice text pointer (pointer + 2))
    to ←
        if not (operation == 0) && not (operation == 1)
        then none
        else abi.get_address (slice text (pointer + 2) (pointer + 42))
    value ← parse_number (slice text (pointer + 42) (pointer + 106))
    count ← parse_number (slice text (pointer + 106) (pointer + 170))
    some (
      record {
        sub_operation = operation;
        sub_to = to;
        sub_value = value;
        sub_data = 48 ∷ 120 ∷ slice text (pointer + 170) (pointer + 170 + count * 2);
      },
      pointer + 170 + count * 2,
    )

  -- The loop, on fuel: the transactions and the pointer behind the last.
  unfoldable pub read_sub_txs : ℕ → Text → ℕ → ℕ → Option (List SubTx × ℕ)
  read_sub_txs zero text padding pointer = none
  read_sub_txs (suc fuel) text padding pointer =
      let rest = read_sub_tx text pointer >>= (λ here.
        read_sub_txs fuel text padding here.1 >>= (λ later. some (here.0 ∷ later.0, later.1))) in
      if ltb (pointer / 2 + padding) (abi.size text) then rest else some ([], pointer)

  -- A transaction of the batch, with the fields that it does not have.
  unfoldable pub meta_tx : SafeTransaction → SubTx → SafeTransaction
  meta_tx tx sub = record {
    chain_id = tx.chain_id;
    safe = tx.safe;
    to = sub.sub_to;
    value = sub.sub_value;
    call_data = sub.sub_data;
    operation = sub.sub_operation;
    safe_tx_gas = 0;
    base_gas = 0;
    gas_price = 0;
    gas_token = zero_address;
    refund_receiver = zero_address;
    nonce = tx.nonce;
  }

  -- The part of `decodeMultiSend` behind the check of the start.
  unfoldable pub decode_behind_start : Text → Option (List SubTx)
  unfolding slice parse_number read_sub_txs
  decode_behind_start text = do
    data_length ← parse_number (slice text 74 138)
    let padding = (32 - data_length % 32) % 32
    decoded ←
        if not (data_length + padding == abi.size text - min_length)
        then none
        else read_sub_txs (suc (length text)) text padding 138
    if not (decoded.1 / 2 - min_length - 1 == data_length) then none else some decoded.0

  unfoldable pub decode_multi_send : Text → Option (List SubTx)
  unfolding decode_behind_start starts_with multi_send_data_start
  decode_multi_send text =
      if ltb (abi.size text) min_length
      then none
      else if not (starts_with text multi_send_data_start)
      then none
      else decode_behind_start text

  -- The loop over the decoded transactions.
  unfoldable pub check_all : TransactionCheck → SafeTransaction → List SubTx → Option Rejection
  unfolding meta_tx
  check_all check tx [] = none
  check_all check tx (sub ∷ rest) = elim (check (meta_tx tx sub)) as (λ _. Option Rejection) [
    | some e ↦ some e
    | none ↦ check_all check tx rest
  ]

  unfoldable pub build_multi_send_call_only_check : TransactionCheck → TransactionCheck
  unfolding decode_multi_send check_all
  build_multi_send_call_only_check check tx =
      if not (tx.operation == 1)
      then some unexpected_params
      else if not (tx.value == 0)
      then some unexpected_params
      else elim (decode_multi_send tx.call_data) as (λ _. Option Rejection) [
        | none ↦ some invalid_multi_send
        | some subs ↦ check_all check tx subs
      ]
