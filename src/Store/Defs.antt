-- ===== src/Store/Defs.antt =====
-- validator/src/consensus/storage/inmemory.ts: the fields of `InMemoryClientStorage`, and the effects
-- of the code that runs over it: a method may throw, and what it has written by then stays written.
-- `drawn` counts the calls of `randomBytes`; `verified` is the engine's set of verified messages.
use shieldnet.Prelude.{ℕ, suc, List, Option, Bool, true, false, some, none}
use shieldnet.Data.Frost.{
  Hex, Address, GroupId, SignatureId, ParticipantId, Participant, FrostPoint,
  PublicNonceCommitments, NonceTree,
}

-- One constructor for each `throw`, or for each kind of library call that throws.
pub data Failure : Type 0 where
  no_keygen_info unknown_group keygen_already_registered : Failure
  commitments_already_registered secret_share_already_registered no_commitments : Failure
  group_already_registered not_part_of_group : Failure
  verification_already_set signing_share_already_set no_verification_share : Failure
  unknown_signature_request signature_request_already_registered : Failure
  nonce_commitments_already_registered chunk_already_linked : Failure
  no_nonces_linked no_nonces_available no_nonces_at_offset nonce_already_burned : Failure
  curve_error index_out_of_range x_is_zero empty_tree : Failure
  no_verification_share_computed no_signing_share_computed : Failure
  unexpected_f_length invalid_signing_share self_not_found : Failure
  no_signing_share no_public_key not_enough_signers invalid_signer : Failure
  missing_nonce_commitments invalid_signature_share not_a_signer empty_sum : Failure
  unexpected_genesis_group no_group_public_key invalid_epoch_packet : Failure
  invalid_state unknown_epoch_group stale_transition invalid_packet out_of_fuel division_by_zero :
      Failure

pub record KeyGenInfo : Type 0 where
  pub coefficients : List ℕ
  pub commitments : List (ParticipantId × List FrostPoint)
  pub secret_shares : List (ParticipantId × ℕ)

pub record StoredGroup : Type 0 where
  pub group_id : GroupId
  pub participants : List Participant
  pub participant_id : ParticipantId
  pub threshold : ℕ
  pub verification_share : Option FrostPoint
  pub group_public_key : Option FrostPoint
  pub signing_share : Option ℕ

pub record SignatureRequest : Type 0 where
  pub sequence : ℕ
  pub group_id : GroupId
  pub message : Hex
  pub signer_nonce_commitments : List (ParticipantId × PublicNonceCommitments)
  pub signers : List ParticipantId

pub record ClientStorage : Type 0 where
  pub account : Address
  pub key_gen_info : List (GroupId × KeyGenInfo)
  pub group_info : List (GroupId × StoredGroup)
  pub nonce_trees : List (Hex × NonceTree)
  pub chunk_nonces : List (Hex × Hex)
  pub signature_requests : List (SignatureId × SignatureRequest)

pub record World : Type 0 where
  pub store : ClientStorage
  pub verified : List Hex
  pub drawn : ℕ

pub data Result (A : Type 0) : Type 0 where
  ok : A → Result A
  err : Failure → Result A

abbrev pub M : Type 0 → Type 0
M A = World → Result A × World

abbrev pub continue : {A B : Type 0} → Result A × World → (A → M B) → Result B × World
continue (ok a, w) f = f a w
continue (err e, w) f = (err e, w)

infixl 5 ◌>>=◌ ◌>>◌
unfoldable pub ◌>>=◌ : {A B : Type 0} → M A → (A → M B) → M B
◌>>=◌ m f w = continue (m w) f

abbrev pub ◌>>◌ : {B : Type 0} → M (Unit {0}) → M B → M B
m >> k = m >>= λ _. k

abbrev pub pure : {A : Type 0} → A → M A
pure a w = (ok a, w)

abbrev pub throw : {A : Type 0} → Failure → M A
throw e w = (err e, w)

-- `if (stop) throw e`.
abbrev pub throw_if : Bool → Failure → M (Unit {0})
throw_if true e = throw e
throw_if false e = pure tt

-- A value that must be there, as in `if (v === undefined) throw e`.
abbrev pub require : {A : Type 0} → Failure → Option A → M A
require e none = throw e
require e (some a) = pure a

-- `try { m } catch {}`: `none` when `m` throws.
abbrev pub settle : {A : Type 0} → Result A × World → Result (Option A) × World
settle (ok a, w) = (ok (some a), w)
settle (err e, w) = (ok none, w)

abbrev pub attempt : {A : Type 0} → M A → M (Option A)
attempt m w = settle (m w)

abbrev pub storage : M ClientStorage
storage w = (ok w.store, w)

abbrev pub put_storage : ClientStorage → M (Unit {0})
put_storage s w = (ok tt, record w { store = s })

-- The next call of `randomBytes`.
abbrev pub draw : M ℕ
draw w = (ok w.drawn, record w { drawn = suc w.drawn })
