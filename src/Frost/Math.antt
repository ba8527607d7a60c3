-- ===== src/Frost/Math.antt =====
-- validator/src/frost/math.ts and validator/src/frost/secret.ts, over the points and the field of the
-- library. A scalar multiplication throws for a scalar that the library refuses.
use Prim.Native.Nat.{bit_xor}
use shieldnet.Prelude.{ℕ, List, [], ◌∷◌, Option, none, some, Bool, not, ◌&&◌, ◌==◌, if◌then◌else◌}
use shieldnet.Data.Frost.{FrostPoint, ParticipantId}
use shieldnet.Data.External.{External}
use shieldnet.Store.Defs.{
  M, ◌>>=◌, ◌>>◌, pure, throw, throw_if, require, curve_error, index_out_of_range, x_is_zero,
  no_verification_share_computed, no_signing_share_computed,
}

module _ (ext : External) where
  unfoldable pub times : FrostPoint → ℕ → M FrostPoint
  times p scalar = require curve_error (ext.multiply p scalar)

  unfoldable pub g : ℕ → M FrostPoint
  unfolding times
  g scalar = do
    point ← times ext.base scalar
    throw_if (not (ext.assert_validity point)) curve_error
    pure point

  unfoldable pub neg : ℕ → ℕ
  neg v = ext.fn_neg v

  unfoldable pub addmod : ℕ → ℕ → ℕ
  addmod a b = ext.fn_add a b

  unfoldable pub submod : ℕ → ℕ → ℕ
  submod a b = ext.fn_sub a b

  unfoldable pub mulmod : ℕ → ℕ → ℕ
  mulmod a b = ext.fn_mul a b

  unfoldable pub divmod : ℕ → ℕ → M ℕ
  divmod a b = require curve_error (ext.fn_div a b)

  -- The loop of `evalPoly` from the last coefficient to the first: the value of the later ones comes
  -- first, and then `value = value * x + coefficient[j]`.
  unfoldable pub horner : List ℕ → ℕ → ℕ
  horner [] x = 0
  horner (c ∷ cs) x = addmod (mulmod (horner cs x) x) c

  unfoldable pub eval_poly : List ℕ → ℕ → M ℕ
  unfolding horner
  eval_poly coefficient x = do throw_if (x == 0) x_is_zero; pure (horner coefficient x)

  -- The loop of `evalCommitment` over the commitments behind the first.
  unfoldable pub add_terms : List FrostPoint → ℕ → ℕ → FrostPoint → M FrostPoint
  add_terms [] x term_pow value = pure value
  add_terms (c ∷ cs) x term_pow value = do
    term ← times c (mulmod term_pow x)
    add_terms cs x (mulmod term_pow x) (ext.add value term)

  unfoldable pub eval_commitment : List FrostPoint → ℕ → M FrostPoint
  unfolding add_terms
  eval_commitment [] x = throw index_out_of_range
  eval_commitment (value ∷ cs) x = if x == 0 then pure value else add_terms cs x 1 value

  -- The loop of `createVerificationShare`, `none` for the initial null.
  unfoldable pub sum_shares :
      List (ParticipantId × List FrostPoint) → ℕ → Option FrostPoint → M (Option FrostPoint)
  sum_shares [] sender_id share = pure share
  sum_shares ((_, commitments) ∷ rest) sender_id none = do
    partial ← eval_commitment commitments sender_id
    sum_shares rest sender_id (some partial)
  sum_shares ((_, commitments) ∷ rest) sender_id (some share) = do
    partial ← eval_commitment commitments sender_id
    sum_shares rest sender_id (some (ext.add share partial))

  unfoldable pub create_verification_share :
      List (ParticipantId × List FrostPoint) → ℕ → M FrostPoint
  unfolding sum_shares
  create_verification_share all_commitments sender_id = do
    share ← sum_shares all_commitments sender_id none
    require no_verification_share_computed share

  unfoldable pub add_secrets : List (ParticipantId × ℕ) → ℕ → ℕ
  add_secrets [] total = total
  add_secrets ((_, share) ∷ rest) total = add_secrets rest (addmod total share)

  unfoldable pub create_signing_share : List (ParticipantId × ℕ) → M ℕ
  unfolding add_secrets
  create_signing_share secret_shares = do
    throw_if (add_secrets secret_shares 0 == 0) no_signing_share_computed
    pure (add_secrets secret_shares 0)

  unfoldable pub verify_key : FrostPoint → ℕ → M Bool
  unfolding g
  verify_key public_key private_key = do
    verification ← g private_key
    pure (verification.x == public_key.x && verification.y == public_key.y)

  -- secret.ts
  unfoldable pub ecdh : ℕ → ℕ → FrostPoint → M ℕ
  unfolding times
  ecdh msg sender_private_key receiver_public_key = do
    shared ← times receiver_public_key sender_private_key
    pure (bit_xor msg shared.x)
