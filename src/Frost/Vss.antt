-- ===== src/Frost/Vss.antt =====
-- validator/src/frost/vss.ts and the hashes of validator/src/frost/hashes.ts.
use Prim.Native.String.{String}
use shieldnet.Prelude.{ℕ, zero, suc, List, [], ◌∷◌, Bool, get_elem?}
use shieldnet.Data.Frost.{Bytes, FrostPoint, ProofOfKnowledge}
use shieldnet.Data.External.{External}
use shieldnet.Store.Defs.{M, ◌>>=◌, pure, require, draw, index_out_of_range}
use shieldnet.Frost.Math.{g, times, addmod, mulmod}

abbrev dst_dkg : String
dst_dkg = "FROST-secp256k1-SHA256-v1dkg"

abbrev dst_pok : String
dst_pok = "FROST-secp256k1-SHA256-v1pok"

abbrev dst_rho : String
dst_rho = "FROST-secp256k1-SHA256-v1rho"

abbrev dst_chal : String
dst_chal = "FROST-secp256k1-SHA256-v1chal"

abbrev dst_nonce : String
dst_nonce = "FROST-secp256k1-SHA256-v1nonce"

abbrev dst_msg : String
dst_msg = "FROST-secp256k1-SHA256-v1msg"

abbrev dst_com : String
dst_com = "FROST-secp256k1-SHA256-v1com"

module _ (ext : External) where
  unfoldable pub hdkg : Bytes → ℕ
  hdkg input = ext.hash_to_field input dst_dkg

  unfoldable pub hpok : Bytes → ℕ
  hpok input = ext.hash_to_field input dst_pok

  unfoldable pub h1 : Bytes → ℕ
  h1 input = ext.hash_to_field input dst_rho

  unfoldable pub h2 : Bytes → ℕ
  h2 input = ext.hash_to_field input dst_chal

  unfoldable pub h3 : Bytes → ℕ
  h3 input = ext.hash_to_field input dst_nonce

  unfoldable pub h4 : Bytes → Bytes
  h4 input = ext.sha256 (ext.concat_bytes (ext.string_to_bytes dst_msg ∷ input ∷ []))

  unfoldable pub h5 : Bytes → Bytes
  h5 input = ext.sha256 (ext.concat_bytes (ext.string_to_bytes dst_com ∷ input ∷ []))

  unfoldable pub key_gen_challenge : ℕ → FrostPoint → FrostPoint → ℕ
  unfolding hdkg
  key_gen_challenge id ga0 r = hdkg (
      ext.concat_bytes
        (ext.number_to_bytes id ∷ ext.point_to_bytes ga0 ∷ ext.point_to_bytes r ∷ []))

  -- vss.ts
  unfoldable pub generate_coefficient : M ℕ
  unfolding hdkg
  generate_coefficient = do n ← draw; pure (hdkg (ext.random_bytes n))

  unfoldable pub create_coefficients : ℕ → M (List ℕ)
  create_coefficients zero = pure []
  create_coefficients (suc threshold) = do
    c ← generate_coefficient
    cs ← create_coefficients threshold
    pure (c ∷ cs)

  unfoldable pub create_proof_of_knowledge : ℕ → List ℕ → M ProofOfKnowledge
  unfolding key_gen_challenge hpok
  create_proof_of_knowledge id coefficients = do
    a0 ← require index_out_of_range (get_elem? coefficients 0)
    ga0 ← g ext a0
    n ← draw
    let k = hpok (ext.random_bytes n)
    r ← g ext k
    let c = key_gen_challenge id ga0 r
    pure (record { r = r; mu = addmod ext k (mulmod ext a0 c) })

  unfoldable pub create_commitments : List ℕ → M (List FrostPoint)
  create_commitments [] = pure []
  create_commitments (a ∷ rest) = do p ← g ext a; ps ← create_commitments rest; pure (p ∷ ps)

  unfoldable pub verify_commitments : ℕ → List FrostPoint → ProofOfKnowledge → M Bool
  unfolding key_gen_challenge
  verify_commitments id commitments proof = do
    ga0 ← require index_out_of_range (get_elem? commitments 0)
    let c = key_gen_challenge id ga0 proof.r
    s ← g ext proof.mu
    e ← times ext ga0 c
    pure (ext.equals proof.r (ext.add s (ext.negate e)))
