-- ===== src/Store/KeyGens.antt =====
-- validator/src/consensus/storage/inmemory.ts: what is kept while a group's keys are generated.
use shieldnet.Prelude.{ℕ, List, [], Bool, not, map, every, keep, get_elem?}
use shieldnet.Prelude.Assoc.{get, put, remove, has}
use shieldnet.Data.Frost.{GroupId, ParticipantId, FrostPoint}
use shieldnet.Store.Defs.{
  KeyGenInfo, M, ◌>>=◌, ◌>>◌, pure, throw_if, require, storage, put_storage, no_keygen_info,
  keygen_already_registered, commitments_already_registered, secret_share_already_registered,
  no_commitments, index_out_of_range,
}
use shieldnet.Store.Groups.{group_info, participants}

unfoldable pub key_gen_info : GroupId → M KeyGenInfo
key_gen_info group_id = do s ← storage; require no_keygen_info (get group_id s.key_gen_info)

abbrev pub put_key_gen : GroupId → KeyGenInfo → M (Unit {0})
put_key_gen group_id info = do
  s ← storage
  put_storage (record s { key_gen_info = put group_id info s.key_gen_info })

-- The loop of `checkInformationComplete`; those of the `missing…` methods are in each of them.
unfoldable pub check_information_complete {ℓ} :
    {V : Type ℓ} → List ParticipantId → List (ParticipantId × V) → Bool
check_information_complete ids information = every (λ id. has id information) ids

unfoldable pub register_key_gen : GroupId → List ℕ → M (Unit {0})
unfolding group_info
register_key_gen group_id coefficients = do
  _ ← group_info group_id
  s ← storage
  throw_if (has group_id s.key_gen_info) keygen_already_registered
  put_key_gen group_id
      (record { coefficients = coefficients; commitments = []; secret_shares = [] })

unfoldable pub register_commitments : GroupId → ParticipantId → List FrostPoint → M (Unit {0})
unfolding key_gen_info
register_commitments group_id participant_id points = do
  info ← key_gen_info group_id
  throw_if (has participant_id info.commitments) commitments_already_registered
  put_key_gen group_id (record info { commitments = put participant_id points info.commitments })

unfoldable pub register_secret_share : GroupId → ParticipantId → ℕ → M (Unit {0})
unfolding key_gen_info
register_secret_share group_id participant_id share = do
  info ← key_gen_info group_id
  throw_if (has participant_id info.secret_shares) secret_share_already_registered
  put_key_gen group_id (record info { secret_shares = put participant_id share info.secret_shares })

unfoldable pub check_if_commitments_complete : GroupId → M Bool
unfolding key_gen_info participants check_information_complete
check_if_commitments_complete group_id = do
  ps ← participants group_id
  info ← key_gen_info group_id
  pure (check_information_complete (map (λ p. p.id) ps) info.commitments)

unfoldable pub missing_commitments : GroupId → M (List ParticipantId)
unfolding key_gen_info participants
missing_commitments group_id = do
  ps ← participants group_id
  info ← key_gen_info group_id
  pure (keep (λ id. not (has id info.commitments)) (map (λ p. p.id) ps))

unfoldable pub check_if_secret_shares_complete : GroupId → M Bool
unfolding key_gen_info participants check_information_complete
check_if_secret_shares_complete group_id = do
  ps ← participants group_id
  info ← key_gen_info group_id
  pure (check_information_complete (map (λ p. p.id) ps) info.secret_shares)

unfoldable pub missing_secret_shares : GroupId → M (List ParticipantId)
unfolding key_gen_info participants
missing_secret_shares group_id = do
  ps ← participants group_id
  info ← key_gen_info group_id
  pure (keep (λ id. not (has id info.secret_shares)) (map (λ p. p.id) ps))

unfoldable pub coefficients : GroupId → M (List ℕ)
unfolding key_gen_info
coefficients group_id = do info ← key_gen_info group_id; pure info.coefficients

-- The source reads `coefficients[0]`; a read past the end, which its type excludes, is a failure.
unfoldable pub encryption_key : GroupId → M ℕ
unfolding coefficients
encryption_key group_id = do cs ← coefficients group_id; require index_out_of_range (get_elem? cs 0)

unfoldable pub commitments : GroupId → ParticipantId → M (List FrostPoint)
unfolding key_gen_info
commitments group_id participant_id = do
  info ← key_gen_info group_id
  require no_commitments (get participant_id info.commitments)

unfoldable pub commitments_map : GroupId → M (List (ParticipantId × List FrostPoint))
unfolding key_gen_info
commitments_map group_id = do info ← key_gen_info group_id; pure info.commitments

unfoldable pub secret_shares_map : GroupId → M (List (ParticipantId × ℕ))
unfolding key_gen_info
secret_shares_map group_id = do info ← key_gen_info group_id; pure info.secret_shares

unfoldable pub clear_key_gen : GroupId → M (Unit {0})
clear_key_gen group_id = do
  s ← storage
  put_storage (record s { key_gen_info = remove group_id s.key_gen_info })
