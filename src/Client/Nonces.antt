-- ===== src/Client/Nonces.antt =====
-- validator/src/consensus/signing/nonces.ts: nonces, binding factors and the group commitment.
use shieldnet.Prelude.{ℕ, zero, suc, ◌+◌, ◌/◌, ◌%◌, List, [], ◌∷◌, map, get_elem?}
use shieldnet.Prelude.Assoc.{get}
use shieldnet.Data.Frost.{
  Hex, Bytes, ParticipantId, FrostPoint, PublicNonceCommitments, NonceCommitments, NonceTree,
}
use shieldnet.Data.External.{External, uint256}
use shieldnet.Store.Defs.{
  M, ◌>>=◌, pure, throw, require, draw, missing_nonce_commitments, index_out_of_range, empty_sum,
}
use shieldnet.Frost.Math.{g, times}
use shieldnet.Frost.Vss.{h1, h3, h4, h5}
use shieldnet.Merkle.{calculate_merkle_root, generate_merkle_proof}

abbrev pub sequence_chunk_size : ℕ
sequence_chunk_size = 1024

pub record BindingFactor : Type 0 where
  pub id : ParticipantId
  pub binding_factor : ℕ

pub record Position : Type 0 where
  pub chunk : ℕ
  pub offset : ℕ

unfoldable pub decode_sequence : ℕ → Position
decode_sequence sequence = record {
  chunk = sequence / sequence_chunk_size;
  offset = sequence % sequence_chunk_size;
}

module _ (ext : External) where
  unfoldable pub generate_nonce : ℕ → M ℕ
  generate_nonce secret = do
    n ← draw
    pure (h3 ext (ext.concat_bytes (ext.random_bytes n ∷ ext.scalar_to_bytes secret ∷ [])))

  unfoldable pub generate_nonce_commitments : ℕ → M NonceCommitments
  unfolding generate_nonce
  generate_nonce_commitments secret = do
    hiding_nonce ← generate_nonce secret
    binding_nonce ← generate_nonce secret
    hiding ← g ext hiding_nonce
    binding ← g ext binding_nonce
    pure (record {
      hiding_nonce = hiding_nonce;
      binding_nonce = binding_nonce;
      shared = record { hiding_nonce_commitment = hiding; binding_nonce_commitment = binding };
    })

  unfoldable pub hash_nonce_commitments : ℕ → PublicNonceCommitments → Hex
  hash_nonce_commitments id c = ext.keccak256 (
      ext.encode_packed (
        uint256 id
        ∷ uint256 c.hiding_nonce_commitment.x
        ∷ uint256 c.hiding_nonce_commitment.y
        ∷ uint256 c.binding_nonce_commitment.x
        ∷ uint256 c.binding_nonce_commitment.y
        ∷ []))

  -- The loop of `createNonceTree`, from index i, with the rounds left.
  unfoldable pub nonce_entries : ℕ → ℕ → ℕ → M (List NonceCommitments)
  unfolding generate_nonce_commitments
  nonce_entries zero i secret = pure []
  nonce_entries (suc rounds) i secret = do
    c ← generate_nonce_commitments secret
    cs ← nonce_entries rounds (i + 1) secret
    pure (c ∷ cs)

  unfoldable pub nonce_leaves : ℕ → List NonceCommitments → List Hex
  unfolding hash_nonce_commitments
  nonce_leaves i [] = []
  nonce_leaves i (c ∷ cs) = hash_nonce_commitments i c.shared ∷ nonce_leaves (i + 1) cs

  unfoldable pub create_nonce_tree : ℕ → ℕ → M NonceTree
  unfolding nonce_entries nonce_leaves
  create_nonce_tree secret size = do
    commitments ← nonce_entries size 0 secret
    root ← calculate_merkle_root ext (nonce_leaves 0 commitments)
    pure (record { commitments = commitments; leaves = nonce_leaves 0 commitments; root = root })

  unfoldable pub encode_commitments :
      List ParticipantId → List (ParticipantId × PublicNonceCommitments) → M (List Bytes)
  encode_commitments [] nonce_commitments = pure []
  encode_commitments (id ∷ ids) nonce_commitments = do
    c ← require missing_nonce_commitments (get id nonce_commitments)
    let part = ext.concat_bytes (
        ext.scalar_to_bytes id
        ∷ ext.point_to_bytes c.hiding_nonce_commitment
        ∷ ext.point_to_bytes c.binding_nonce_commitment
        ∷ [])
    parts ← encode_commitments ids nonce_commitments
    pure (part ∷ parts)

  unfoldable pub binding_prefix :
      FrostPoint
      → List ParticipantId
      → List (ParticipantId × PublicNonceCommitments)
      → Hex
      → M Bytes
  unfolding encode_commitments
  binding_prefix group_public_key signers nonce_commitments message = do
    parts ← encode_commitments signers nonce_commitments
    pure (
        ext.concat_bytes (
          ext.point_to_bytes group_public_key
          ∷ h4 ext (ext.hex_to_bytes message)
          ∷ h5 ext (ext.concat_bytes parts)
          ∷ []))

  unfoldable pub binding_factor : ParticipantId → Bytes → ℕ
  binding_factor signer_id prefix =
      h1 ext (ext.concat_bytes (prefix ∷ ext.scalar_to_bytes signer_id ∷ []))

  unfoldable pub binding_factors :
      FrostPoint
      → List ParticipantId
      → List (ParticipantId × PublicNonceCommitments)
      → Hex
      → M (List BindingFactor)
  unfolding binding_prefix binding_factor
  binding_factors group_public_key signers nonce_commitments message = do
    prefix ← binding_prefix group_public_key signers nonce_commitments message
    pure (map (λ id. record { id = id; binding_factor = binding_factor id prefix }) signers)

  unfoldable pub group_commitment_share : ℕ → PublicNonceCommitments → M FrostPoint
  group_commitment_share factor c = do
    p ← times ext c.binding_nonce_commitment factor
    pure (ext.add c.hiding_nonce_commitment p)

  unfoldable pub group_commitment_shares :
      List BindingFactor → List (ParticipantId × PublicNonceCommitments) → M (List FrostPoint)
  unfolding group_commitment_share
  group_commitment_shares [] nonce_commitments = pure []
  group_commitment_shares (bf ∷ bfs) nonce_commitments = do
    c ← require missing_nonce_commitments (get bf.id nonce_commitments)
    share ← group_commitment_share bf.binding_factor c
    shares ← group_commitment_shares bfs nonce_commitments
    pure (share ∷ shares)

  unfoldable pub add_points : FrostPoint → List FrostPoint → FrostPoint
  add_points v [] = v
  add_points v (c ∷ cs) = add_points (ext.add v c) cs

  -- `reduce` without an initial value throws on an empty array.
  unfoldable pub calculate_group_commitment : List FrostPoint → M FrostPoint
  unfolding add_points
  calculate_group_commitment [] = throw empty_sum
  calculate_group_commitment (v ∷ cs) = pure (add_points v cs)

  -- The source reads `nonceTree.commitments[offset]`; a read past the end, which its type excludes,
  -- is a failure.
  unfoldable pub nonce_commitments_with_proof : NonceTree → ℕ → M (NonceCommitments × List Hex)
  nonce_commitments_with_proof nonce_tree offset = do
    c ← require index_out_of_range (get_elem? nonce_tree.commitments offset)
    proof ← generate_merkle_proof ext nonce_tree.leaves offset
    pure (c, proof)
