-- ===== src/Client/Burning.antt =====
-- The nonces of a signature share are used once: what `burnNonce` leaves, and what reads it.
use shieldnet.Prelude.{
  ℕ, ◌≡◌, refl, List, some, true, set, get_elem?, get_elem?-set_self, get_elem?-lt_of_some,
}
use shieldnet.Prelude.Assoc.{get, get-put_self}
use shieldnet.Data.Frost.{Hex, GroupId, NonceTree, NonceCommitments, FrostPoint}
use shieldnet.Data.External.{External}
use shieldnet.Store.Defs.{World, ok, err, ◌>>=◌, nonce_already_burned}
use shieldnet.Store.Leaves.{Leaves, then-Leaves, require-Leaves, last-Leaves, ok-Leaves}
use shieldnet.Store.Nonces.{chunk_id, nonce_tree, burn_nonce, is_burned, burned}
use shieldnet.Client.Nonces.{BindingFactor, decode_sequence}
use shieldnet.Client.Signing.{SignerPart, sign_and_burn}

module _ (ext : External) where
  -- The entry at the offset of the chunk's tree exists and is burned.
  pub record Burned (group_id : GroupId) (chunk offset : ℕ) (w : World) : Type 0 where
    pub tree_hash : Hex
    pub tree : NonceTree
    pub entry : NonceCommitments
    pub linked : get (chunk_id ext group_id chunk) w.store.chunk_nonces ≡ some tree_hash
    pub known : get tree_hash w.store.nonce_trees ≡ some tree
    pub found : get_elem? tree.commitments offset ≡ some entry
    pub spent : is_burned entry ≡ true

  burn_nonce-Leaves :
      (g : GroupId) (chunk offset : ℕ)
      → Leaves (Burned g chunk offset) (burn_nonce ext g chunk offset)
  unfolding burn_nonce
  burn_nonce-Leaves g chunk offset = then-Leaves _ λ s. require-Leaves _ _ λ tree_hash linked.
      require-Leaves _ _ λ tree known. require-Leaves _ _ λ entry found. then-Leaves _ λ _. record {
        post = λ w. record {
          tree_hash = tree_hash;
          tree = record tree { commitments = set tree.commitments offset (burned entry) };
          entry = burned entry;
          linked = linked;
          known = get-put_self tree_hash _ s.nonce_trees;
          found =
              get_elem?-set_self tree.commitments offset (burned entry)
                (get_elem?-lt_of_some tree.commitments offset found);
          spent = refl;
        };
      }

  pub sign_and_burn-Leaves :
      (g : GroupId) (seq secret index : ℕ) (fs : List BindingFactor) (ps : List SignerPart)
      (c : FrostPoint)
      → Leaves
          (Burned g (decode_sequence seq).chunk (decode_sequence seq).offset)
          (sign_and_burn ext g seq secret index fs ps c)
  unfolding sign_and_burn
  sign_and_burn-Leaves g seq secret index fs ps c = then-Leaves _ λ tree. then-Leaves _ λ nonces.
      then-Leaves _ λ _. then-Leaves _ λ part. then-Leaves _ λ factor. then-Leaves _ λ proof.
        then-Leaves _ λ own_key.
          then-Leaves _ λ valid. then-Leaves _ λ _. last-Leaves (λ _. _) (burn_nonce-Leaves g _ _)

  pub Burned-sign_and_burn :
      (g : GroupId) (seq secret index : ℕ) (fs : List BindingFactor) (ps : List SignerPart)
      (c : FrostPoint) (w : World)
      → Burned g (decode_sequence seq).chunk (decode_sequence seq).offset w
      → sign_and_burn ext g seq secret index fs ps c w ≡ (err nonce_already_burned, w)
  unfolding sign_and_burn nonce_tree ◌>>=◌
  Burned-sign_and_burn g seq secret index fs ps c w b =
      rw (b.linked, b.known, b.found, b.spent) refl

  -- Once `burnNonce` has returned for an offset of a group's chunk, calling it again for the
  -- same offset throws "already burned" and changes nothing.
  pub burn_nonce-twice :
      (g : GroupId) (chunk offset : ℕ) (w w' : World)
      → burn_nonce ext g chunk offset w ≡ (ok tt, w')
      → burn_nonce ext g chunk offset w' ≡ (err nonce_already_burned, w')
  unfolding burn_nonce ◌>>=◌
  burn_nonce-twice g chunk offset w w' h =
      let b : Burned g chunk offset w' = ok-Leaves (burn_nonce-Leaves g chunk offset) h in
      rw (b.linked, b.known, b.found, b.spent) refl
