-- ===== src/Store/Calls.antt =====
-- Every method of `InMemoryClientStorage` that writes, as a value, and a sequence of calls of them.
-- Drawing random bytes and noting a verified message are the other two effects.
use shieldnet.Prelude.{ℕ, ◌≢◌, List, [], ◌∷◌}
use shieldnet.Data.Frost.{
  Hex, GroupId, SignatureId, ParticipantId, Participant, FrostPoint, PublicNonceCommitments,
  NonceTree,
}
use shieldnet.Data.External.{External}
use shieldnet.Store.Defs.{World, draw}
use shieldnet.Store.Groups.{
  register_group, register_verification, register_signing_share, unregister_group,
}
use shieldnet.Store.KeyGens.{
  register_key_gen, register_commitments, register_secret_share, clear_key_gen,
}
use shieldnet.Store.Requests.{register_signature_request, register_nonce_commitments}
use shieldnet.Store.Nonces.{register_nonce_tree, link_nonce_tree, burn_nonce}

pub data StorageCall : Type 0 where
  call_register_key_gen : GroupId → List ℕ → StorageCall
  call_register_commitments : GroupId → ParticipantId → List FrostPoint → StorageCall
  call_register_secret_share : GroupId → ParticipantId → ℕ → StorageCall
  call_clear_key_gen : GroupId → StorageCall
  call_register_group : GroupId → List Participant → ℕ → StorageCall
  call_register_verification : GroupId → FrostPoint → FrostPoint → StorageCall
  call_register_signing_share : GroupId → ℕ → StorageCall
  call_unregister_group : GroupId → StorageCall
  call_register_signature_request :
      SignatureId → GroupId → Hex → List ParticipantId → ℕ → StorageCall
  call_register_nonce_commitments :
      SignatureId → ParticipantId → PublicNonceCommitments → StorageCall
  call_register_nonce_tree : GroupId → NonceTree → StorageCall
  call_link_nonce_tree : GroupId → ℕ → Hex → StorageCall
  call_burn_nonce : GroupId → ℕ → ℕ → StorageCall
  call_random_bytes : StorageCall
  message_verified : Hex → StorageCall

module _ (ext : External) where
  -- The state that a call leaves, whether it throws or not.
  unfoldable pub after_call : StorageCall → World → World
  after_call (call_register_key_gen g cs) w = (register_key_gen g cs w).1
  after_call (call_register_commitments g p c) w = (register_commitments g p c w).1
  after_call (call_register_secret_share g p s) w = (register_secret_share g p s w).1
  after_call (call_clear_key_gen g) w = (clear_key_gen g w).1
  after_call (call_register_group g ps t) w = (register_group g ps t w).1
  after_call (call_register_verification g k v) w = (register_verification g k v w).1
  after_call (call_register_signing_share g s) w = (register_signing_share g s w).1
  after_call (call_unregister_group g) w = (unregister_group g w).1
  after_call (call_register_signature_request s g m ids n) w =
      (register_signature_request s g m ids n w).1
  after_call (call_register_nonce_commitments s p c) w = (register_nonce_commitments s p c w).1
  after_call (call_register_nonce_tree g t) w = (register_nonce_tree g t w).1
  after_call (call_link_nonce_tree g c h) w = (link_nonce_tree ext g c h w).1
  after_call (call_burn_nonce g c o) w = (burn_nonce ext g c o w).1
  after_call call_random_bytes w = (draw w).1
  after_call (message_verified m) w = record w { verified = m ∷ w.verified }

  unfoldable pub after_calls : List StorageCall → World → World
  after_calls [] w = w
  after_calls (c ∷ cs) w = after_calls cs (after_call c w)

-- The call registers no nonce tree with this root.
abbrev pub Spares : Hex → StorageCall → Type 0
Spares hash (call_register_nonce_tree g t) = t.root ≢ hash
Spares hash c = Unit
