-- ===== src/Client/Shares.antt =====
-- validator/src/consensus/signing/shares.ts, group.ts and verify.ts: one signer's part of a signature.
use shieldnet.Prelude.{ℕ, List, [], ◌∷◌, Bool, false, not, ◌&&◌, ◌==◌, includes, if◌then◌else◌}
use shieldnet.Data.Frost.{Hex, ParticipantId, FrostPoint, NonceCommitments}
use shieldnet.Data.External.{External}
use shieldnet.Store.Defs.{M, ◌>>=◌, ◌>>◌, pure, throw_if, not_a_signer}
use shieldnet.Frost.Math.{g, neg, times, addmod, mulmod, submod, divmod}
use shieldnet.Frost.Vss.{h2}

module _ (ext : External) where
  unfoldable pub group_challenge : FrostPoint → FrostPoint → Hex → ℕ
  group_challenge group_commitment group_public_key message = h2 ext (
      ext.concat_bytes (
        ext.point_to_bytes group_commitment
        ∷ ext.point_to_bytes group_public_key
        ∷ ext.hex_to_bytes message
        ∷ []))

  -- The loop of `lagrangeCoefficient`: the numerator and the denominator.
  unfoldable pub lagrange_products : List ParticipantId → ParticipantId → ℕ → ℕ → ℕ × ℕ
  lagrange_products [] id numerator denominator = (numerator, denominator)
  lagrange_products (signer ∷ signers) id numerator denominator =
      lagrange_products signers id (if signer == id then numerator else mulmod ext numerator signer)
        (if signer == id then denominator else mulmod ext denominator (submod ext signer id))

  unfoldable pub lagrange_coefficient : List ParticipantId → ParticipantId → M ℕ
  unfolding lagrange_products
  lagrange_coefficient signers id = do
    throw_if (not (includes id signers)) not_a_signer
    let products = lagrange_products signers id 1 1
    divmod ext products.0 products.1

  unfoldable pub lagrange_challenge : ℕ → ℕ → ℕ
  lagrange_challenge coefficient challenge = mulmod ext challenge coefficient

  unfoldable pub sign_share : ℕ → NonceCommitments → ℕ → ℕ → ℕ
  sign_share private_key_share nonces binding_factor challenge = addmod ext nonces.hiding_nonce (
      addmod ext (mulmod ext nonces.binding_nonce binding_factor)
        (mulmod ext challenge private_key_share))

  unfoldable pub verify_signature : FrostPoint → ℕ → FrostPoint → Hex → M Bool
  unfolding group_challenge
  verify_signature group_commitment combined_shares group_public_key msg = do
    let challenge = group_challenge group_commitment group_public_key msg
    s ← g ext combined_shares
    p ← times ext group_public_key (neg ext challenge)
    let r = ext.add s p
    pure (if r.x == 0 && r.y == 0 then false else ext.equals r group_commitment)

  unfoldable pub verify_signature_share : ℕ → FrostPoint → ℕ → FrostPoint → M Bool
  verify_signature_share signature_share verification_share challenge group_commitment_share = do
    s_g ← g ext signature_share
    pki ← times ext verification_share challenge
    let r = ext.add group_commitment_share pki
    pure (s_g.x == r.x)
