-- ===== src/Merkle.antt =====
-- validator/src/consensus/merkle.ts: sorted-pair Merkle trees and their proofs.
use shieldnet.Prelude.{
  ℕ, zero, suc, ◌+◌, ◌-◌, ◌/◌, ◌%◌, List, [], ◌∷◌, Option, none, some, Bool, ltb, leb, ◌==◌, map,
  length, get_elem?, find_index, if◌then◌else◌,
}
use shieldnet.Data.Frost.{Hex, Participant, ParticipantId}
use shieldnet.Data.External.{External, bytes32, uint256}
use shieldnet.Store.Defs.{M, ◌>>=◌, pure, throw, require, empty_tree}
pub mod Proof

module _ (ext : External) where
  -- `level.at(i) ?? zeroHash`.
  unfoldable pub at_or_zero : List Hex → ℕ → Hex
  at_or_zero [] i = ext.zero_hash
  at_or_zero (x ∷ xs) zero = x
  at_or_zero (x ∷ xs) (suc i) = at_or_zero xs i

  -- The node over two children, the smaller first.
  unfoldable pub hash_pair : Hex → Hex → Hex
  hash_pair a b =
      if ltb a b
      then ext.keccak256 (ext.encode_packed (bytes32 a ∷ bytes32 b ∷ []))
      else ext.keccak256 (ext.encode_packed (bytes32 b ∷ bytes32 a ∷ []))

  -- The inner loop of `buildMerkleTree`: nodes 2i and 2i + 1, the zero hash for one that is missing.
  unfoldable pub next_level : List Hex → List Hex
  unfolding hash_pair
  next_level [] = []
  next_level (a ∷ []) = hash_pair a ext.zero_hash ∷ []
  next_level (a ∷ b ∷ rest) = hash_pair a b ∷ next_level rest

  -- The outer loop, on fuel: as many rounds as there are leaves are enough.
  unfoldable pub build_levels : ℕ → List Hex → List (List Hex)
  unfolding next_level
  build_levels zero level = level ∷ []
  build_levels (suc fuel) level =
      let rest = build_levels fuel (next_level level) in
      if leb (length level) 1 then level ∷ [] else level ∷ rest

  unfoldable pub build_merkle_tree : List Hex → M (List (List Hex))
  unfolding build_levels
  build_merkle_tree [] = throw empty_tree
  build_merkle_tree (x ∷ xs) = pure (build_levels (length (x ∷ xs)) (x ∷ xs))

  -- `tree[tree.length - 1]`.
  unfoldable pub last_level : List (List Hex) → List Hex
  last_level [] = []
  last_level (l ∷ []) = l
  last_level (l ∷ r ∷ rest) = last_level (r ∷ rest)

  -- `rootLevel?.length !== 1` throws.
  unfoldable pub only_node : List Hex → M Hex
  only_node (root ∷ []) = pure root
  only_node _ = throw empty_tree

  unfoldable pub calculate_merkle_root : List Hex → M Hex
  unfolding build_merkle_tree last_level only_node
  calculate_merkle_root leaves = do tree ← build_merkle_tree leaves; only_node (last_level tree)

  unfoldable pub hash_participant : Participant → Hex
  hash_participant p =
      ext.keccak256 (ext.encode_packed (uint256 p.id ∷ uint256 (ext.big_int p.address) ∷ []))

  unfoldable pub calculate_participants_root : List Participant → M Hex
  unfolding calculate_merkle_root hash_participant
  calculate_participants_root participants =
      calculate_merkle_root (map hash_participant participants)

  -- The loop of `verifyMerkleProof`.
  unfoldable pub fold_proof : Hex → List Hex → Hex
  unfolding hash_pair
  fold_proof node [] = node
  fold_proof node (part ∷ proof) = fold_proof (hash_pair node part) proof

  unfoldable pub verify_merkle_proof : Hex → Hex → List Hex → Bool
  unfolding fold_proof
  verify_merkle_proof root leaf proof = root == fold_proof leaf proof

  -- `currentIndex ^ 1`.
  unfoldable pub neighbor : ℕ → ℕ
  neighbor i = if i % 2 == 0 then i + 1 else i - 1

  -- The loop of `generateMerkleProofWithRoot` over the levels below the root.
  unfoldable pub proof_in : List (List Hex) → ℕ → List Hex
  unfolding at_or_zero neighbor
  proof_in [] index = []
  proof_in (level ∷ []) index = []
  proof_in (level ∷ above ∷ rest) index =
      at_or_zero level (neighbor index) ∷ proof_in (above ∷ rest) (index / 2)

  unfoldable pub generate_merkle_proof_with_root : List Hex → ℕ → M (List Hex × Hex)
  generate_merkle_proof_with_root leaves index = do
    tree ← build_merkle_tree leaves
    root ← require empty_tree (get_elem? (last_level tree) 0)
    pure (proof_in tree index, root)

  unfoldable pub generate_merkle_proof : List Hex → ℕ → M (List Hex)
  unfolding generate_merkle_proof_with_root
  generate_merkle_proof leaves index = do
    pr ← generate_merkle_proof_with_root leaves index
    pure pr.0

  -- What the loop does from the index -1 of an absent participant: it stays at -1, and takes the
  -- node before the last of each level.
  unfoldable pub before_last : List Hex → Hex
  before_last [] = ext.zero_hash
  before_last (a ∷ []) = ext.zero_hash
  before_last (a ∷ b ∷ []) = a
  before_last (a ∷ b ∷ c ∷ rest) = before_last (b ∷ c ∷ rest)

  unfoldable pub proof_of_absent : List (List Hex) → List Hex
  unfolding before_last
  proof_of_absent [] = []
  proof_of_absent (level ∷ []) = []
  proof_of_absent (level ∷ above ∷ rest) = before_last level ∷ proof_of_absent (above ∷ rest)

  unfoldable pub generate_participant_proof : List Participant → ParticipantId → M (List Hex)
  unfolding generate_merkle_proof build_merkle_tree proof_of_absent hash_participant
  generate_participant_proof participants participant_id =
      elim (find_index (λ p. p.id == participant_id) participants) as (λ _. M (List Hex)) [
        | some index ↦ generate_merkle_proof (map hash_participant participants) index
        | none ↦ do
          tree ← build_merkle_tree (map hash_participant participants)
          pure (proof_of_absent tree)
      ]
