-- ===== src/Watcher/Bloom.antt =====
-- validator/src/utils/bloom.ts: bloom filters, as the hex strings that nodes give.
use shieldnet.Prelude.{
  ℕ, ◌+◌, ◌-◌, ◌*◌, ◌/◌, ◌%◌, ◌^◌, Option, none, some, Bool, ◌&&◌, leb, ◌==◌, get_elem?,
  if◌then◌else◌,
}
use shieldnet.Data.Frost.{Hex, Text}

-- `LUT[code] ?? 0`: the value of a hex digit in either case, 0 for any other character.
unfoldable pub digit_value : ℕ → ℕ
digit_value code =
    if leb 48 code && leb code 57
    then code - 48
    else if leb 97 code && leb code 102
    then code - 87
    else if leb 65 code && leb code 70
    then code - 55
    else 0

-- `LUT[bloom.charCodeAt(offset)] ?? 0`, also past the end.
unfoldable pub digit_at : Text → ℕ → ℕ
unfolding digit_value
digit_at bloom offset = elim (get_elem? bloom offset) as (λ _. ℕ) [
  | some code ↦ digit_value code
  | none ↦ 0
]

-- `c & bit` is the bit at position `index & 3` of the digit.
unfoldable pub is_bit_set : Text → ℕ → Bool
unfolding digit_at
is_bit_set bloom index = digit_at bloom (513 - index / 4) / 2 ^ (index % 4) % 2 == 1

-- `bytes.getUint16(2 * index) & 0x7ff`, of a digest by its bytes.
unfoldable pub bit_index : (ℕ → ℕ) → ℕ → ℕ
bit_index bytes index = (bytes (index * 2) * 256 + bytes (index * 2 + 1)) % 2048

-- viem: the bytes of a hash, and the number of bytes of a hex string.
pub record Viem : Type 0 where
  pub keccak256 : Hex → ℕ → ℕ
  pub size : Text → ℕ

module _ (viem : Viem) where
  -- It throws where the filter does not have 256 bytes.
  unfoldable pub is_in_bloom : Text → Hex → Option Bool
  unfolding is_bit_set bit_index
  is_in_bloom bloom data_ =
      let digest = viem.keccak256 data_ in
      if viem.size bloom == 256
      then some (
          is_bit_set bloom (bit_index digest 0)
          && is_bit_set bloom (bit_index digest 1)
          && is_bit_set bloom (bit_index digest 2))
      else none
