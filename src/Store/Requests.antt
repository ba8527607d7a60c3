-- ===== src/Store/Requests.antt =====
-- validator/src/consensus/storage/inmemory.ts: the signature requests.
use shieldnet.Prelude.{ℕ, List, [], Bool, not, keep}
use shieldnet.Prelude.Assoc.{get, put, has}
use shieldnet.Data.Frost.{Hex, GroupId, SignatureId, ParticipantId, PublicNonceCommitments}
use shieldnet.Store.Defs.{
  SignatureRequest, M, ◌>>=◌, ◌>>◌, pure, throw_if, require, storage, put_storage,
  unknown_signature_request, signature_request_already_registered,
  nonce_commitments_already_registered,
}
use shieldnet.Store.Groups.{group_info}
use shieldnet.Store.KeyGens.{check_information_complete}

unfoldable pub signature_request : SignatureId → M SignatureRequest
signature_request signature_id = do
  s ← storage
  require unknown_signature_request (get signature_id s.signature_requests)

abbrev pub put_request : SignatureId → SignatureRequest → M (Unit {0})
put_request signature_id request = do
  s ← storage
  put_storage (record s { signature_requests = put signature_id request s.signature_requests })

unfoldable pub register_signature_request :
    SignatureId → GroupId → Hex → List ParticipantId → ℕ → M (Unit {0})
unfolding group_info
register_signature_request signature_id group_id message signers sequence = do
  _ ← group_info group_id
  s ← storage
  throw_if (has signature_id s.signature_requests) signature_request_already_registered
  put_request signature_id (record {
    sequence = sequence;
    group_id = group_id;
    message = message;
    signer_nonce_commitments = [];
    signers = signers;
  })

unfoldable pub register_nonce_commitments :
    SignatureId → ParticipantId → PublicNonceCommitments → M (Unit {0})
unfolding signature_request
register_nonce_commitments signature_id signer_id nonce_commitments = do
  request ← signature_request signature_id
  throw_if (has signer_id request.signer_nonce_commitments) nonce_commitments_already_registered
  put_request signature_id (record request {
    signer_nonce_commitments = put signer_id nonce_commitments request.signer_nonce_commitments;
  })

unfoldable pub check_if_nonces_complete : SignatureId → M Bool
unfolding signature_request check_information_complete
check_if_nonces_complete signature_id = do
  request ← signature_request signature_id
  pure (check_information_complete request.signers request.signer_nonce_commitments)

unfoldable pub missing_nonces : SignatureId → M (List ParticipantId)
unfolding signature_request
missing_nonces signature_id = do
  request ← signature_request signature_id
  pure (keep (λ id. not (has id request.signer_nonce_commitments)) request.signers)

unfoldable pub signing_group : SignatureId → M GroupId
unfolding signature_request
signing_group signature_id = do request ← signature_request signature_id; pure request.group_id

unfoldable pub signers : SignatureId → M (List ParticipantId)
unfolding signature_request
signers signature_id = do request ← signature_request signature_id; pure request.signers

unfoldable pub message : SignatureId → M Hex
unfolding signature_request
message signature_id = do request ← signature_request signature_id; pure request.message

unfoldable pub sequence : SignatureId → M ℕ
unfolding signature_request
sequence signature_id = do request ← signature_request signature_id; pure request.sequence

unfoldable pub nonce_commitments_map :
    SignatureId → M (List (ParticipantId × PublicNonceCommitments))
unfolding signature_request
nonce_commitments_map signature_id = do
  request ← signature_request signature_id
  pure request.signer_nonce_commitments
