-- ===== src/Client/Reading.antt =====
-- The parts of a signature share's computation that only read, and the rule for a sequence of them.
use mathlib.Core.Path.{subst}
use shieldnet.Prelude.{ℕ, ◌≡◌, refl, sym, List, [], ◌∷◌}
use shieldnet.Data.Frost.{
  Hex, GroupId, SignatureId, ParticipantId, FrostPoint, PublicNonceCommitments,
}
use shieldnet.Data.External.{External}
use shieldnet.Store.Defs.{World, Failure, Result, ok, err, M, continue, pure, ◌>>=◌}
use shieldnet.Store.Ensures.{IsReadOnly, require-IsReadOnly, throw_if-IsReadOnly, bind-IsReadOnly}
use shieldnet.Store.Groups.{group_info, participant_id, public_key, signing_share}
use shieldnet.Store.Requests.{signature_request, signers, message, nonce_commitments_map}
use shieldnet.Frost.Math.{times, divmod}
use shieldnet.Client.Nonces.{
  BindingFactor, encode_commitments, binding_prefix, binding_factors, group_commitment_share,
  group_commitment_shares, calculate_group_commitment,
}
use shieldnet.Client.Shares.{lagrange_coefficient}
use shieldnet.Client.Signing.{signer_parts}

-- What holds of the outcome from any state that P holds of.
pub record Holds {B : Type 0} (P : World → Type 0) (R : World → Result B × World → Type 0) (m : M B)
    : Type 0 where
  pub post : (w : World) → P w → R w (m w)

module _ {B : Type 0} {P : World → Type 0} {R : World → Result B × World → Type 0}
    (thrown : (e : Failure) (w : World) → R w (err e, w)) where
  continue-Holds :
      {A : Type 0} (r : Result A × World) (f : A → M B) (w : World)
      → r.1 ≡ w
      → P w
      → ((a : A) → Holds P R (f a))
      → R w (continue r f)
  continue-Holds (ok a, w') f w e p k = subst (λ u. R w (f a u)) (sym e) ((k a).post w p)
  continue-Holds (err x, w') f w e p k = subst (λ u. R w (err x, u)) (sym e) (thrown x w)

  pub then-Holds :
      {A : Type 0} (m : M A) {f : A → M B}
      → IsReadOnly m
      → ((a : A) → Holds P R (f a))
      → Holds P R (m >>= f)
  unfolding ◌>>=◌
  then-Holds m {f} h k = record { post = λ w p. continue-Holds (m w) f w (h w) p k }

  -- A step whose value is known.
  pub read-Holds :
      {A : Type 0} (m : M A) (a : A) (f : A → M B)
      → ((w : World) → P w → m w ≡ (ok a, w))
      → Holds P R (f a)
      → Holds P R (m >>= f)
  unfolding ◌>>=◌
  read-Holds m a f h k = record {
    post = λ w p. subst (λ r. R w (continue r f)) (sym (h w p)) (k.post w p);
  }

pure-IsReadOnly : {A : Type 0} (a : A) → IsReadOnly (pure a)
pure-IsReadOnly a w = refl

pub signature_request-IsReadOnly : (sid : SignatureId) → IsReadOnly (signature_request sid)
unfolding signature_request
signature_request-IsReadOnly sid = bind-IsReadOnly _ _ (λ w. refl) (λ s. require-IsReadOnly _ _)

pub signers-IsReadOnly : (sid : SignatureId) → IsReadOnly (signers sid)
unfolding signers
signers-IsReadOnly sid = bind-IsReadOnly _ _ (signature_request-IsReadOnly sid) (λ r w. refl)

pub message-IsReadOnly : (sid : SignatureId) → IsReadOnly (message sid)
unfolding message
message-IsReadOnly sid = bind-IsReadOnly _ _ (signature_request-IsReadOnly sid) (λ r w. refl)

pub nonce_commitments_map-IsReadOnly : (sid : SignatureId) → IsReadOnly (nonce_commitments_map sid)
unfolding nonce_commitments_map
nonce_commitments_map-IsReadOnly sid =
    bind-IsReadOnly _ _ (signature_request-IsReadOnly sid) (λ r w. refl)

pub group_info-IsReadOnly : (g : GroupId) → IsReadOnly (group_info g)
unfolding group_info
group_info-IsReadOnly g = bind-IsReadOnly _ _ (λ w. refl) (λ s. require-IsReadOnly _ _)

pub participant_id-IsReadOnly : (g : GroupId) → IsReadOnly (participant_id g)
unfolding participant_id
participant_id-IsReadOnly g = bind-IsReadOnly _ _ (group_info-IsReadOnly g) (λ r w. refl)

pub public_key-IsReadOnly : (g : GroupId) → IsReadOnly (public_key g)
unfolding public_key
public_key-IsReadOnly g = bind-IsReadOnly _ _ (group_info-IsReadOnly g) (λ r w. refl)

pub signing_share-IsReadOnly : (g : GroupId) → IsReadOnly (signing_share g)
unfolding signing_share
signing_share-IsReadOnly g = bind-IsReadOnly _ _ (group_info-IsReadOnly g) (λ r w. refl)

module _ (ext : External) where
  encode_commitments-IsReadOnly :
      (ids : List ParticipantId) (cs : List (ParticipantId × PublicNonceCommitments))
      → IsReadOnly (encode_commitments ext ids cs)
  unfolding encode_commitments
  encode_commitments-IsReadOnly [] cs = λ w. refl
  encode_commitments-IsReadOnly (id ∷ ids) cs =
      bind-IsReadOnly _ _ (require-IsReadOnly _ _)
        λ c. bind-IsReadOnly _ _ (encode_commitments-IsReadOnly ids cs) (λ parts w. refl)

  pub binding_factors-IsReadOnly :
      (key : FrostPoint) (ids : List ParticipantId)
      (cs : List (ParticipantId × PublicNonceCommitments)) (msg : Hex)
      → IsReadOnly (binding_factors ext key ids cs msg)
  unfolding binding_factors binding_prefix
  binding_factors-IsReadOnly key ids cs msg =
      bind-IsReadOnly _ _
        (bind-IsReadOnly _ _ (encode_commitments-IsReadOnly ids cs) (λ parts w. refl))
        (λ prefix w. refl)

  pub group_commitment_shares-IsReadOnly :
      (fs : List BindingFactor) (cs : List (ParticipantId × PublicNonceCommitments))
      → IsReadOnly (group_commitment_shares ext fs cs)
  unfolding group_commitment_shares group_commitment_share times
  group_commitment_shares-IsReadOnly [] cs = λ w. refl
  group_commitment_shares-IsReadOnly (f ∷ fs) cs = bind-IsReadOnly _ _ (require-IsReadOnly _ _) λ c.
      bind-IsReadOnly _ _ (bind-IsReadOnly _ _ (require-IsReadOnly _ _) (λ p w. refl))
        λ share. bind-IsReadOnly _ _ (group_commitment_shares-IsReadOnly fs cs) (λ shares w. refl)

  pub calculate_group_commitment-IsReadOnly :
      (vs : List FrostPoint) → IsReadOnly (calculate_group_commitment ext vs)
  unfolding calculate_group_commitment
  calculate_group_commitment-IsReadOnly [] w = refl
  calculate_group_commitment-IsReadOnly (v ∷ vs) w = refl

  lagrange_coefficient-IsReadOnly :
      (ids : List ParticipantId) (id : ParticipantId) → IsReadOnly (lagrange_coefficient ext ids id)
  unfolding lagrange_coefficient divmod
  lagrange_coefficient-IsReadOnly ids id =
      bind-IsReadOnly _ _ (throw_if-IsReadOnly _ _) (λ _. require-IsReadOnly _ _)

  pub signer_parts-IsReadOnly :
      (all_signers : List ParticipantId) (cs : List (ParticipantId × PublicNonceCommitments))
      (commitment : FrostPoint) (challenge : ℕ) (ids : List ParticipantId) (rs : List FrostPoint)
      → IsReadOnly (signer_parts ext all_signers cs commitment challenge ids rs)
  unfolding signer_parts
  signer_parts-IsReadOnly all_signers cs commitment challenge [] rs = λ w. refl
  signer_parts-IsReadOnly all_signers cs commitment challenge (id ∷ ids) [] = λ w. refl
  signer_parts-IsReadOnly all_signers cs commitment challenge (id ∷ ids) (r ∷ rs) =
      bind-IsReadOnly _ _ (require-IsReadOnly _ _) λ c.
        bind-IsReadOnly _ _ (lagrange_coefficient-IsReadOnly all_signers id) λ coeff.
          bind-IsReadOnly _ _ (signer_parts-IsReadOnly all_signers cs commitment challenge ids rs)
            (λ parts w. refl)
