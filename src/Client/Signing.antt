-- ===== src/Client/Signing.antt =====
-- validator/src/consensus/signing/client.ts: `SigningClient`. Its plain getters are those of the
-- storage. The number of nonces in a new tree is an argument, which the state machine fills.
use shieldnet.Prelude.{
  ℕ, List, [], ◌∷◌, none, some, Bool, false, not, ◌==◌, ltb, map, every, includes, length,
  get_elem?, find_index, if◌then◌else◌,
}
use shieldnet.Prelude.Assoc.{get}
use shieldnet.Data.Frost.{
  Hex, GroupId, SignatureId, ParticipantId, FrostPoint, PublicNonceCommitments,
}
use shieldnet.Data.External.{External, uint256}
use shieldnet.Store.Defs.{
  M, ◌>>=◌, ◌>>◌, pure, throw, throw_if, require, attempt, no_signing_share, no_public_key,
  not_enough_signers, invalid_signer, missing_nonce_commitments, index_out_of_range,
  nonce_already_burned, invalid_signature_share, not_a_signer,
}
use shieldnet.Store.Groups.{
  participant_id, participants, threshold, public_key, signing_share, verification_share,
}
use shieldnet.Store.Requests.{
  register_signature_request, register_nonce_commitments, check_if_nonces_complete, signing_group,
  signers, message, sequence, nonce_commitments_map,
}
use shieldnet.Store.Nonces.{register_nonce_tree, link_nonce_tree, nonce_tree, burn_nonce, is_burned}
use shieldnet.Merkle.{generate_merkle_proof_with_root}
use shieldnet.Client.Nonces.{
  BindingFactor, sequence_chunk_size, decode_sequence, create_nonce_tree, binding_factors,
  group_commitment_shares, calculate_group_commitment, nonce_commitments_with_proof,
}
use shieldnet.Client.Shares.{
  group_challenge, lagrange_coefficient, lagrange_challenge, sign_share, verify_signature_share,
}

pub record OwnNonces : Type 0 where
  pub nonce_commitments : PublicNonceCommitments
  pub nonce_proof : List Hex

pub record SignerPart : Type 0 where
  pub signer_id : ParticipantId
  pub r : FrostPoint
  pub l : ℕ
  pub cl : ℕ
  pub node : Hex

pub record SignatureShare : Type 0 where
  pub signers_root : Hex
  pub signers_proof : List Hex
  pub group_commitment : FrostPoint
  pub commitment_share : FrostPoint
  pub signature_share : ℕ
  pub lagrange_coefficient : ℕ

unfoldable pub participant_ids : GroupId → M (List ParticipantId)
participant_ids group_id = do ps ← participants group_id; pure (map (λ p. p.id) ps)

module _ (ext : External) where
  unfoldable pub generate_nonce_tree : GroupId → M Hex
  generate_nonce_tree group_id = do
    share ← signing_share group_id
    secret ← require no_signing_share share
    tree ← create_nonce_tree ext secret sequence_chunk_size
    register_nonce_tree group_id tree

  unfoldable pub handle_nonce_commitments_hash : GroupId → ParticipantId → Hex → ℕ → M (Unit {0})
  handle_nonce_commitments_hash group_id sender_id nonce_commitments_hash chunk = do
    self ← participant_id group_id
    if not (self == sender_id)
        then pure tt
        else link_nonce_tree ext group_id chunk nonce_commitments_hash

  unfoldable pub create_nonce_commitments :
      GroupId → SignatureId → Hex → ℕ → List ParticipantId → M OwnNonces
  unfolding participant_ids
  create_nonce_commitments group_id signature_id msg seq signer_ids = do
    t ← threshold group_id
    throw_if (ltb (length signer_ids) t) not_enough_signers
    ids ← participant_ids group_id
    throw_if (not (every (λ signer. includes signer ids) signer_ids)) invalid_signer
    register_signature_request signature_id group_id msg signer_ids seq
    tree ← nonce_tree ext group_id (decode_sequence seq).chunk
    own ← nonce_commitments_with_proof ext tree (decode_sequence seq).offset
    self ← participant_id group_id
    register_nonce_commitments signature_id self (own.0).shared
    pure (record { nonce_commitments = (own.0).shared; nonce_proof = own.1 })

  unfoldable pub handle_nonce_commitments :
      SignatureId → ParticipantId → PublicNonceCommitments → M Bool
  handle_nonce_commitments signature_id peer_id nonce_commitments = do
    group_id ← signing_group signature_id
    self ← participant_id group_id
    if self == peer_id then pure false else do
      register_nonce_commitments signature_id peer_id nonce_commitments
      check_if_nonces_complete signature_id

  -- `signers.map((signerId, index) => …)`, over the signers with their commitment shares.
  unfoldable pub signer_parts :
      List ParticipantId
      → List (ParticipantId × PublicNonceCommitments)
      → FrostPoint
      → ℕ
      → List ParticipantId
      → List FrostPoint
      → M (List SignerPart)
  signer_parts all_signers nonce_commitments group_commitment challenge [] shares = pure []
  signer_parts all_signers nonce_commitments group_commitment challenge (id ∷ ids) [] =
      throw index_out_of_range
  signer_parts all_signers nonce_commitments group_commitment challenge (id ∷ ids) (r ∷ rs) = do
    _ ← require missing_nonce_commitments (get id nonce_commitments)
    coeff ← lagrange_coefficient ext all_signers id
    let node = ext.keccak256 (
        ext.encode_packed (
          uint256 id
          ∷ uint256 r.x
          ∷ uint256 r.y
          ∷ uint256 coeff
          ∷ uint256 group_commitment.x
          ∷ uint256 group_commitment.y
          ∷ []))
    let part : SignerPart = record {
      signer_id = id;
      r = r;
      l = coeff;
      cl = lagrange_challenge ext coeff challenge;
      node = node;
    }
    parts ← signer_parts all_signers nonce_commitments group_commitment challenge ids rs
    pure (part ∷ parts)

  -- The part of `createSignatureShare` that uses the nonces and burns them.
  unfoldable pub sign_and_burn :
      GroupId → ℕ → ℕ → ℕ → List BindingFactor → List SignerPart → FrostPoint → M SignatureShare
  sign_and_burn group_id seq secret signer_index factors parts group_commitment = do
    tree ← nonce_tree ext group_id (decode_sequence seq).chunk
    nonces ← require index_out_of_range (get_elem? tree.commitments (decode_sequence seq).offset)
    throw_if (is_burned nonces) nonce_already_burned
    part ← require index_out_of_range (get_elem? parts signer_index)
    factor ← require index_out_of_range (get_elem? factors signer_index)
    let share = sign_share ext secret nonces factor.binding_factor part.cl
    proof ← generate_merkle_proof_with_root ext (map (λ p. p.node) parts) signer_index
    own_key ← verification_share group_id
    valid ← verify_signature_share ext share own_key part.cl part.r
    throw_if (not valid) invalid_signature_share
    burn_nonce ext group_id (decode_sequence seq).chunk (decode_sequence seq).offset
    pure (record {
      signers_root = proof.1;
      signers_proof = proof.0;
      group_commitment = group_commitment;
      commitment_share = part.r;
      signature_share = share;
      lagrange_coefficient = part.l;
    })

  -- A validator outside the signers has the index -1, at which the reads of the source give
  -- undefined and its next step throws.
  unfoldable pub create_signature_share : SignatureId → M SignatureShare
  unfolding signer_parts sign_and_burn
  create_signature_share signature_id = do
    group_id ← signing_group signature_id
    ids ← signers signature_id
    self ← participant_id group_id
    key ← public_key group_id
    group_public_key ← require no_public_key key
    share ← signing_share group_id
    secret ← require no_signing_share share
    nonce_commitments ← nonce_commitments_map signature_id
    msg ← message signature_id
    factors ← binding_factors ext group_public_key ids nonce_commitments msg
    shares ← group_commitment_shares ext factors nonce_commitments
    group_commitment ← calculate_group_commitment ext shares
    let challenge = group_challenge ext group_commitment group_public_key msg
    parts ← signer_parts ids nonce_commitments group_commitment challenge ids shares
    seq ← sequence signature_id
    index ← require not_a_signer (find_index (λ id. id == self) ids)
    sign_and_burn group_id seq secret index factors parts group_commitment

  -- 0 where reading the tree throws.
  unfoldable pub available_nonces_count : GroupId → ℕ → M ℕ
  available_nonces_count group_id chunk = do
    tree ← attempt (nonce_tree ext group_id chunk)
    pure (elim tree as (λ _. ℕ) [ none ↦ 0 | some t ↦ length t.leaves ])
