-- ===== src/Store/Groups.antt =====
-- validator/src/consensus/storage/inmemory.ts: the groups and what is known of each.
use shieldnet.Prelude.{ℕ, List, Option, none, some, ◌||◌, ◌==◌, map, find_first, is_some}
use shieldnet.Prelude.Assoc.{get, put, remove, has}
use shieldnet.Data.Frost.{GroupId, ParticipantId, Participant, FrostPoint}
use shieldnet.Store.Defs.{
  StoredGroup, M, ◌>>=◌, ◌>>◌, pure, throw_if, require, storage, put_storage, unknown_group,
  group_already_registered, not_part_of_group, verification_already_set, signing_share_already_set,
  no_verification_share,
}

unfoldable pub group_info : GroupId → M StoredGroup
group_info group_id = do s ← storage; require unknown_group (get group_id s.group_info)

abbrev pub put_group : GroupId → StoredGroup → M (Unit {0})
put_group group_id g = do
  s ← storage
  put_storage (record s { group_info = put group_id g s.group_info })

unfoldable pub known_groups : M (List GroupId)
known_groups = do s ← storage; pure (map (λ e. e.1.group_id) s.group_info)

unfoldable pub register_group : GroupId → List Participant → ℕ → M ParticipantId
register_group group_id participants threshold = do
  s ← storage
  throw_if (has group_id s.group_info) group_already_registered
  p ← require not_part_of_group (find_first (λ p. p.address == s.account) participants)
  put_group group_id (record {
    group_id = group_id;
    participants = participants;
    participant_id = p.id;
    threshold = threshold;
    verification_share = none;
    group_public_key = none;
    signing_share = none;
  })
  pure p.id

unfoldable pub register_verification : GroupId → FrostPoint → FrostPoint → M (Unit {0})
unfolding group_info
register_verification group_id group_public_key verification_share = do
  info ← group_info group_id
  throw_if (is_some info.group_public_key || is_some info.verification_share)
      verification_already_set
  put_group group_id (record info {
    group_public_key = some group_public_key;
    verification_share = some verification_share;
  })

unfoldable pub register_signing_share : GroupId → ℕ → M (Unit {0})
unfolding group_info
register_signing_share group_id signing_share = do
  info ← group_info group_id
  throw_if (is_some info.signing_share) signing_share_already_set
  put_group group_id (record info { signing_share = some signing_share })

unfoldable pub participant_id : GroupId → M ParticipantId
unfolding group_info
participant_id group_id = do info ← group_info group_id; pure info.participant_id

unfoldable pub public_key : GroupId → M (Option FrostPoint)
unfolding group_info
public_key group_id = do info ← group_info group_id; pure info.group_public_key

unfoldable pub participants : GroupId → M (List Participant)
unfolding group_info
participants group_id = do info ← group_info group_id; pure info.participants

unfoldable pub threshold : GroupId → M ℕ
unfolding group_info
threshold group_id = do info ← group_info group_id; pure info.threshold

unfoldable pub signing_share : GroupId → M (Option ℕ)
unfolding group_info
signing_share group_id = do info ← group_info group_id; pure info.signing_share

unfoldable pub verification_share : GroupId → M FrostPoint
unfolding group_info
verification_share group_id = do
  info ← group_info group_id
  require no_verification_share info.verification_share

unfoldable pub unregister_group : GroupId → M (Unit {0})
unregister_group group_id = do
  s ← storage
  put_storage (record s { group_info = remove group_id s.group_info })
