-- ===== src/Client/Reuse.antt =====
-- A whole signature share is made at most once from the nonces of a sequence number, whatever happens
-- to the client's storage in between.
use mathlib.Core.Path.{subst}
use shieldnet.Prelude.{ℕ, ◌≡◌, refl, List, some, All}
use shieldnet.Prelude.Assoc.{get}
use shieldnet.Data.Frost.{Hex, GroupId, SignatureId}
use shieldnet.Data.External.{External}
use shieldnet.Store.Defs.{World, Failure, Result, ok, err, nonce_already_burned}
use shieldnet.Store.Ensures.{require-IsReadOnly}
use shieldnet.Store.Leaves.{OnOk}
use shieldnet.Store.Requests.{signing_group, sequence}
use shieldnet.Store.Nonces.{chunk_id}
use shieldnet.Store.Calls.{StorageCall, after_calls, Spares}
use shieldnet.Client.Persistence.{after_calls-Burned}
use shieldnet.Client.Nonces.{decode_sequence}
use shieldnet.Client.Signing.{SignatureShare, sign_and_burn, create_signature_share}
use shieldnet.Client.Burning.{Burned, sign_and_burn-Leaves, Burned-sign_and_burn}
use shieldnet.Client.Reading.{
  Holds, then-Holds, read-Holds, signers-IsReadOnly, message-IsReadOnly,
  nonce_commitments_map-IsReadOnly, participant_id-IsReadOnly, public_key-IsReadOnly,
  signing_share-IsReadOnly, binding_factors-IsReadOnly, group_commitment_shares-IsReadOnly,
  calculate_group_commitment-IsReadOnly, signer_parts-IsReadOnly,
}

-- The request is for the group and has the sequence number.
pub record Requests (sid : SignatureId) (g : GroupId) (seq : ℕ) (w : World) : Type 0 where
  pub in_group : signing_group sid w ≡ (ok g, w)
  pub at_sequence : sequence sid w ≡ (ok seq, w)

module _ (ext : External) where
  -- What holds of the last part of `createSignatureShare` from a request's state holds of all of it.
  create_signature_share-Holds :
      {P : World → Type 0} {R : World → Result SignatureShare × World → Type 0}
      → ((e : Failure) (w : World) → R w (err e, w))
      → (sid : SignatureId) (g : GroupId) (seq : ℕ) → ((w : World) → P w → Requests sid g seq w)
      → ((w : World)
          → P w
          → (secret index : ℕ) → (fs : _) → (ps : _) → (c : _)
          → R w (sign_and_burn ext g seq secret index fs ps c w))
      → Holds P R (create_signature_share ext sid)
  unfolding create_signature_share
  create_signature_share-Holds thrown sid g seq h k =
      read-Holds thrown (signing_group sid) g _ (λ w p. (h w p).in_group)
        (then-Holds thrown _ (signers-IsReadOnly sid) λ ids.
          then-Holds thrown _ (participant_id-IsReadOnly g) λ self.
            then-Holds thrown _ (public_key-IsReadOnly g) λ key.
              then-Holds thrown _ (require-IsReadOnly _ _) λ group_public_key.
                then-Holds thrown _ (signing_share-IsReadOnly g) λ share.
                  then-Holds thrown _ (require-IsReadOnly _ _) λ secret.
                    then-Holds thrown _ (nonce_commitments_map-IsReadOnly sid) λ commitments.
                      then-Holds thrown _ (message-IsReadOnly sid) λ msg.
                        then-Holds thrown _ (binding_factors-IsReadOnly ext _ _ _ _) λ factors.
                          then-Holds thrown _ (group_commitment_shares-IsReadOnly ext _ _) λ shares.
                            then-Holds thrown _ (calculate_group_commitment-IsReadOnly ext _) λ c.
                              then-Holds thrown _ (signer_parts-IsReadOnly ext _ _ _ _ _ _) λ parts.
                                read-Holds thrown (sequence sid) seq _ (λ w p. (h w p).at_sequence)
                                  (then-Holds thrown _ (require-IsReadOnly _ _) λ index. record {
                                    post = λ w p. k w p _ index factors parts _;
                                  }))

  create_signature_share-Burned :
      (sid : SignatureId) (g : GroupId) (seq : ℕ)
      → Holds
          (Requests sid g seq)
          (λ w r. OnOk (Burned ext g (decode_sequence seq).chunk (decode_sequence seq).offset) r)
          (create_signature_share ext sid)
  create_signature_share-Burned sid g seq =
      create_signature_share-Holds (λ e w. tt) sid g seq (λ w p. p)
        (λ w p secret index fs ps c. (sign_and_burn-Leaves ext g seq secret index fs ps c).post w)

  create_signature_share-fails :
      (sid : SignatureId) (g : GroupId) (seq : ℕ)
      → Holds
          (λ w.
            Requests sid g seq w
            × Burned ext g (decode_sequence seq).chunk (decode_sequence seq).offset w)
          (λ w r. (e : Failure) × (r ≡ (err e, w)))
          (create_signature_share ext sid)
  create_signature_share-fails sid g seq =
      create_signature_share-Holds (λ e w. (e, refl)) sid g seq (λ w p. p.0)
        (λ w p secret index fs ps c.
          (nonce_already_burned, Burned-sign_and_burn ext g seq secret index fs ps c w p.1))

  -- When `createSignatureShare` has returned a share for a request with a group and a sequence
  -- number, then after any calls of the client storage's methods, failed ones included, none
  -- of which registers a nonce tree with the root of the one that is linked to the sequence
  -- number's chunk, it throws for the same or any other request with that group and sequence
  -- number, and changes nothing.
  pub create_signature_share-once :
      (sid sid' : SignatureId) (g : GroupId) (seq : ℕ) (w w' : World) (share : SignatureShare)
      (root : Hex) (calls : List StorageCall)
      → Requests sid g seq w
      → create_signature_share ext sid w ≡ (ok share, w')
      → get (chunk_id ext g (decode_sequence seq).chunk) w'.store.chunk_nonces ≡ some root
      → All (Spares root) calls
      → Requests sid' g seq (after_calls ext calls w')
      → (e : Failure) × (create_signature_share ext sid' (after_calls ext calls w')
          ≡ (err e, after_calls ext calls w'))
  create_signature_share-once sid sid' g seq w w' share root calls q h l s q' =
      let at = decode_sequence seq in
      let burnt : Burned ext g at.chunk at.offset w' =
        subst (OnOk (Burned ext g at.chunk at.offset)) h
          ((create_signature_share-Burned sid g seq).post w q) in
      (create_signature_share-fails sid' g seq).post (after_calls ext calls w')
        (q', after_calls-Burned ext g at.chunk at.offset root calls w' l s burnt)
