-- ===== src/Data/External.antt =====
-- The code outside the repository that the validator calls: viem (hashing and ABI encoding), the
-- noble curves (secp256k1 and its scalar field), zod, the system's random bytes. Each is an argument
-- of the model; a partial function returns `none` where the library throws. The transaction check is
-- the constructor argument of `SafeTransactionHandler`, and the addresses are those of the protocol.
use Prim.Native.String.{String}
use shieldnet.Prelude.{ℕ, List, Option, Bool}
use shieldnet.Data.Frost.{Hex, Address, Bytes, Text, FrostPoint}
use shieldnet.Data.Packet.{Packet, SafeTransaction}
use shieldnet.Data.Action.{ProtocolAction}

-- A value with its Solidity type, as it is handed to an encoder.
pub data AbiValue : Type 0 where
  bytes32 address text : ℕ → AbiValue
  bytes_text : Text → AbiValue
  uint8 uint16 uint32 uint64 uint256 : ℕ → AbiValue

pub data ConsensusFunction : Type 0 where
  stage_epoch attest_transaction : ConsensusFunction

pub data PrimaryType : Type 0 where
  safe_tx transaction_proposal epoch_rollover : PrimaryType

pub record TypedData : Type 0 where
  pub chain_id : ℕ
  pub verifying_contract : Address
  pub primary_type : PrimaryType
  pub message : List AbiValue

pub record External : Type 0 where
  -- viem
  pub keccak256 : Hex → Hex
  pub encode_packed : List AbiValue → Hex
  pub encode_abi_parameters : List AbiValue → Hex
  pub encode_function_data : ConsensusFunction → List AbiValue → Hex
  pub hash_typed_data : TypedData → Hex
  pub big_int : Hex → ℕ
  pub number_to_hex : ℕ → Hex
  pub hex_to_bytes : Hex → Bytes
  pub zero_hash : Hex
  pub max_uint64 : ℕ
  -- noble: points
  pub base : FrostPoint
  pub multiply : FrostPoint → ℕ → Option FrostPoint
  pub add : FrostPoint → FrostPoint → FrostPoint
  pub negate : FrostPoint → FrostPoint
  pub equals : FrostPoint → FrostPoint → Bool
  pub assert_validity : FrostPoint → Bool
  pub point_to_bytes : FrostPoint → Bytes
  -- noble: the scalar field
  pub fn_neg : ℕ → ℕ
  pub fn_add : ℕ → ℕ → ℕ
  pub fn_sub : ℕ → ℕ → ℕ
  pub fn_mul : ℕ → ℕ → ℕ
  pub fn_div : ℕ → ℕ → Option ℕ
  pub scalar_to_bytes : ℕ → Bytes
  pub number_to_bytes : ℕ → Bytes
  -- noble: hashes; the text is the domain separation tag
  pub hash_to_field : Bytes → String → ℕ
  pub sha256 : Bytes → Bytes
  pub string_to_bytes : String → Bytes
  pub concat_bytes : List Bytes → Bytes
  -- the nth call of `randomBytes(32)`
  pub random_bytes : ℕ → Bytes
  -- zod: whether `parse` accepts the packet
  pub schema_accepts : Packet → Bool
  -- the injected `TransactionCheck`: whether it returns without throwing
  pub check_passes : SafeTransaction → Bool
  -- the injected `SafenetProtocol`: whether the nth call of `process` throws at the action
  pub protocol_throws : ℕ → ProtocolAction → Bool
  -- `SafenetProtocol.chainId()` and `.consensus()`
  pub chain_id : ℕ
  pub consensus : Address
