-- ===== src/Tests/Libraries.antt =====
-- Concrete libraries for the tests, over the additive group of the numbers below 97.
use shieldnet.Prelude.{ℕ, ◌+◌, ◌-◌, ◌*◌, ◌/◌, ◌%◌, List, [], ◌∷◌, some, true, ◌&&◌, ◌==◌}
use shieldnet.Data.Frost.{FrostPoint}
use shieldnet.Data.External.{
  External, AbiValue, bytes32, bytes_text, address, text, uint8, uint16, uint32, uint64, uint256,
}

abbrev digest_bytes : List ℕ → ℕ
digest_bytes [] = 3
digest_bytes (b ∷ bs) = (b + 29 * digest_bytes bs) % 97

abbrev number_of : AbiValue → ℕ
number_of (bytes32 n) = n
number_of (bytes_text t) = digest_bytes t
number_of (address n) = n
number_of (text n) = n
number_of (uint8 n) = n
number_of (uint16 n) = n
number_of (uint32 n) = n
number_of (uint64 n) = n
number_of (uint256 n) = n

abbrev digest : List AbiValue → ℕ
digest [] = 5
digest (v ∷ vs) = (number_of v + 31 * digest vs) % 9973

abbrev joined : List (List ℕ) → List ℕ
joined [] = []
joined (bs ∷ rest) = digest_bytes bs ∷ joined rest

abbrev pub point : ℕ → FrostPoint
point n = record { x = n; y = n }

abbrev pub libraries : External
libraries = record {
  keccak256 = λ n. (n * 7 + 11) % 9973;
  encode_packed = digest;
  encode_abi_parameters = digest;
  encode_function_data = λ f vs. digest vs;
  hash_typed_data = λ d. digest d.message;
  big_int = λ n. n;
  number_to_hex = λ n. n;
  hex_to_bytes = λ n. n ∷ [];
  zero_hash = 0;
  max_uint64 = 2000;
  base = point 1;
  multiply = λ p n. some (point (p.x * n % 97));
  add = λ p q. point ((p.x + q.x) % 97);
  negate = λ p. point ((97 - p.x) % 97);
  equals = λ p q. p.x == q.x && p.y == q.y;
  assert_validity = λ p. true;
  point_to_bytes = λ p. p.x ∷ p.y ∷ [];
  fn_neg = λ n. (97 - n % 97) % 97;
  fn_add = λ a b. (a + b) % 97;
  fn_sub = λ a b. (a + 97 - b % 97) % 97;
  fn_mul = λ a b. a * b % 97;
  fn_div = λ a b. some (a / b);
  scalar_to_bytes = λ n. n ∷ [];
  number_to_bytes = λ n. n ∷ [];
  hash_to_field = λ bs tag. digest_bytes bs;
  sha256 = λ bs. digest_bytes bs ∷ [];
  string_to_bytes = λ s. 8 ∷ [];
  concat_bytes = joined;
  random_bytes = λ n. n ∷ 5 ∷ [];
  schema_accepts = λ p. true;
  check_passes = λ t. true;
  protocol_throws = λ n a. n == 1;
  chain_id = 1;
  consensus = 40;
}

abbrev total : List AbiValue → ℕ
total [] = 0
total (v ∷ vs) = number_of v + total vs

-- Libraries with which the chunks of a group have different ids.
abbrev pub summing : External
summing = record libraries { keccak256 = λ n. n; encode_packed = total }
