-- ===== src/Client/KeyGen.antt =====
-- validator/src/consensus/keyGen/client.ts and keyGen/utils.ts: `KeyGenClient`. Its plain getters are
-- those of the storage.
use Prim.Native.Nat.{bit_and}
use shieldnet.Prelude.{
  ℕ, suc, List, [], ◌∷◌, Option, Bool, true, false, not, ◌==◌, length, get_elem?, keep, find_index,
  if◌then◌else◌,
}
use shieldnet.Prelude.Assoc.{get}
use shieldnet.Data.Frost.{Hex, GroupId, ParticipantId, Participant, FrostPoint, ProofOfKnowledge}
use shieldnet.Data.External.{External, bytes32, uint16}
use shieldnet.Store.Defs.{
  M, ◌>>=◌, ◌>>◌, pure, throw_if, require, no_commitments, index_out_of_range, unexpected_f_length,
  invalid_signing_share, self_not_found,
}
use shieldnet.Store.Groups.{
  register_group, register_verification, register_signing_share, participant_id, participants,
  verification_share,
}
use shieldnet.Store.KeyGens.{
  register_key_gen, register_commitments, register_secret_share, check_if_secret_shares_complete,
  coefficients, encryption_key, commitments, commitments_map, secret_shares_map, clear_key_gen,
}
use shieldnet.Frost.Math.{
  eval_poly, eval_commitment, create_verification_share, create_signing_share, verify_key, ecdh,
}
use shieldnet.Frost.Vss.{
  create_coefficients, create_proof_of_knowledge, create_commitments, verify_commitments,
}
use shieldnet.Merkle.{calculate_participants_root, generate_participant_proof}

pub record GroupSetup : Type 0 where
  pub group_id : GroupId
  pub participants_root : Hex
  pub participant_id : ParticipantId
  pub commitments : List FrostPoint
  pub pok : ProofOfKnowledge
  pub poap : List Hex

pub record SecretShares : Type 0 where
  pub verification_share : FrostPoint
  pub shares : List ℕ

pub data ShareStatus : Type 0 where
  invalid_share pending_shares shares_completed : ShareStatus

-- 0xffffffffffffffffffffffffffffffffffffffffffffffff0000000000000000
abbrev pub group_id_mask : ℕ
group_id_mask = 0xffffffffffffffffffffffffffffffffffffffffffffffff0000000000000000

module _ (ext : External) where
  unfoldable pub calc_group_id : Hex → ℕ → ℕ → Hex → GroupId
  calc_group_id participants_root count threshold context = ext.number_to_hex (
      bit_and
        (ext.big_int (
          ext.keccak256 (
            ext.encode_abi_parameters (
              bytes32 participants_root ∷ uint16 count ∷ uint16 threshold ∷ bytes32 context ∷ []))))
        group_id_mask)

  unfoldable pub setup_group : List Participant → ℕ → Hex → M GroupSetup
  unfolding calc_group_id
  setup_group ps threshold context = do
    participants_root ← calculate_participants_root ext ps
    let group_id = calc_group_id participants_root (length ps) threshold context
    self ← register_group group_id ps threshold
    cs ← create_coefficients ext threshold
    register_key_gen group_id cs
    pok ← create_proof_of_knowledge ext self cs
    points ← create_commitments ext cs
    poap ← generate_participant_proof ext ps self
    pure (record {
      group_id = group_id;
      participants_root = participants_root;
      participant_id = self;
      commitments = points;
      pok = pok;
      poap = poap;
    })

  unfoldable pub handle_keygen_commitment :
      GroupId → ParticipantId → List FrostPoint → ProofOfKnowledge → M Bool
  handle_keygen_commitment group_id sender_id peer_commitments pok = do
    valid ← verify_commitments ext sender_id peer_commitments pok
    if not valid
        then pure false
        else do register_commitments group_id sender_id peer_commitments; pure true

  -- The loop of `createSecretShares` over the participants.
  unfoldable pub encrypt_shares :
      List ℕ
      → List (ParticipantId × List FrostPoint)
      → ParticipantId
      → List Participant
      → M (List ℕ)
  encrypt_shares cs all_commitments self [] = pure []
  encrypt_shares cs all_commitments self (p ∷ ps) =
      let others = encrypt_shares cs all_commitments self ps in
      if p.id == self then others else do
        peer_commitments ← require no_commitments (get p.id all_commitments)
        peer_share ← eval_poly ext cs p.id
        key ← require index_out_of_range (get_elem? cs 0)
        peer_key ← require index_out_of_range (get_elem? peer_commitments 0)
        share ← ecdh ext peer_share key peer_key
        rest ← others
        pure (share ∷ rest)

  unfoldable pub create_secret_shares : GroupId → M SecretShares
  unfolding encrypt_shares
  create_secret_shares group_id = do
    all_commitments ← commitments_map group_id
    group_public_key ← create_verification_share ext all_commitments 0
    self ← participant_id group_id
    share ← create_verification_share ext all_commitments self
    register_verification group_id group_public_key share
    cs ← coefficients group_id
    ps ← participants group_id
    shares ← encrypt_shares cs all_commitments self ps
    throw_if (not (suc (length shares) == length ps)) unexpected_f_length
    pure (record { verification_share = share; shares = shares })

  unfoldable pub create_secret_share : GroupId → ParticipantId → M ℕ
  create_secret_share group_id peer_id = do cs ← coefficients group_id; eval_poly ext cs peer_id

  unfoldable pub verify_secret_share : GroupId → ParticipantId → ℕ → ℕ → M Bool
  verify_secret_share group_id sender_id target_id secret_share = do
    commitment ← commitments group_id sender_id
    partial ← eval_commitment ext commitment target_id
    verify_key ext partial secret_share

  unfoldable pub finalize_shares_if_possible : GroupId → M ShareStatus
  finalize_shares_if_possible group_id = do
    complete ← check_if_secret_shares_complete group_id
    if complete
        then (do
          share ← verification_share group_id
          secrets ← secret_shares_map group_id
          signing_share ← create_signing_share ext secrets
          valid ← verify_key ext share signing_share
          throw_if (not valid) invalid_signing_share
          register_signing_share group_id signing_share
          clear_key_gen group_id
          pure shares_completed)
        else pure pending_shares

  unfoldable pub record_secret_share : GroupId → ParticipantId → ℕ → M ShareStatus
  unfolding finalize_shares_if_possible
  record_secret_share group_id sender_id secret_share = do
    register_secret_share group_id sender_id secret_share
    finalize_shares_if_possible group_id

  unfoldable pub register_plain_key_gen_secret : GroupId → ParticipantId → ℕ → M ShareStatus
  unfolding verify_secret_share record_secret_share
  register_plain_key_gen_secret group_id sender_id secret_share = do
    self ← participant_id group_id
    valid ← verify_secret_share group_id sender_id self secret_share
    if not valid then pure invalid_share else record_secret_share group_id sender_id secret_share

  -- The place of this validator among the recipients of the sender's shares.
  unfoldable pub share_index : List Participant → ParticipantId → ParticipantId → Option ℕ
  share_index ps sender_id self =
      find_index (λ p. p.id == self) (keep (λ p. not (p.id == sender_id)) ps)

  unfoldable pub handle_keygen_secrets : GroupId → ParticipantId → List ℕ → M ShareStatus
  unfolding record_secret_share share_index
  handle_keygen_secrets group_id sender_id peer_shares = do
    ps ← participants group_id
    if not (suc (length peer_shares) == length ps) then pure invalid_share else do
      self ← participant_id group_id
      if sender_id == self
          then (do
            cs ← coefficients group_id
            own ← eval_poly ext cs self
            record_secret_share group_id self own)
          else do
            index ← require self_not_found (share_index ps sender_id self)
            key ← encryption_key group_id
            points ← commitments group_id sender_id
            peer_key ← require index_out_of_range (get_elem? points 0)
            encrypted ← require index_out_of_range (get_elem? peer_shares index)
            share ← ecdh ext encrypted key peer_key
            partial ← eval_commitment ext points self
            valid ← verify_key ext partial share
            if not valid then pure invalid_share else record_secret_share group_id sender_id share
