-- ===== src/Store/Linking.antt =====
-- A chunk of sequence numbers and the nonce tree that is linked to it.
use mathlib.Core.Path.{subst}
use shieldnet.Prelude.{ℕ, ◌≡◌, refl, ap, inl, inr, Bool-cases, arith}
use shieldnet.Prelude.Assoc.{put, has, get-put_self}
use shieldnet.Data.Frost.{Hex, GroupId, NonceTree}
use shieldnet.Data.External.{External}
use shieldnet.Store.Defs.{World, ok, err, ◌>>=◌, chunk_already_linked}
use shieldnet.Store.Nonces.{chunk_id, register_nonce_tree, link_nonce_tree, nonce_tree}

module _ (ext : External) where
  -- The state that `linkNonceTree` leaves when it does not throw.
  linked_world : GroupId → ℕ → Hex → World → World
  linked_world g chunk hash w = record w {
    store = record w.store { chunk_nonces = put (chunk_id ext g chunk) hash w.store.chunk_nonces };
  }

  link_nonce_tree-linked :
      (g : GroupId) (chunk : ℕ) (hash : Hex) (w w' : World)
      → link_nonce_tree ext g chunk hash w ≡ (ok tt, w')
      → linked_world g chunk hash w ≡ w'
  unfolding link_nonce_tree linked_world ◌>>=◌
  link_nonce_tree-linked g chunk hash w w' h =
      elim (Bool-cases (has (chunk_id ext g chunk) w.store.chunk_nonces)) [
        | inl e ↦ absurd (ground (arith, rw e at h))
        | inr e ↦ ap (λ r. r.1) (rw e at h)
      ]

  nonce_tree-linked_world :
      (g : GroupId) (chunk : ℕ) (tree : NonceTree) (w : World)
      → nonce_tree ext g chunk (linked_world g chunk tree.root (register_nonce_tree g tree w).1)
        ≡ (ok tree, linked_world g chunk tree.root (register_nonce_tree g tree w).1)
  unfolding nonce_tree linked_world register_nonce_tree ◌>>=◌
  nonce_tree-linked_world g chunk tree w =
      rw
        (
          get-put_self (chunk_id ext g chunk) tree.root w.store.chunk_nonces,
          get-put_self tree.root tree w.store.nonce_trees,
        )
        refl

  link_nonce_tree-linked_world :
      (g : GroupId) (chunk : ℕ) (hash hash' : Hex) (w : World)
      → link_nonce_tree ext g chunk hash' (linked_world g chunk hash w)
        ≡ (err chunk_already_linked, linked_world g chunk hash w)
  unfolding link_nonce_tree linked_world ◌>>=◌
  link_nonce_tree-linked_world g chunk hash hash' w =
      rw (get-put_self (chunk_id ext g chunk) hash w.store.chunk_nonces) refl

  -- After a nonce tree was registered and then linked to a group's chunk without an error,
  -- reading the chunk's tree returns that tree, and linking any tree to the chunk throws
  -- "already linked" and changes nothing.
  pub nonce_tree-link_nonce_tree :
      (g : GroupId) (chunk : ℕ) (tree : NonceTree) (hash : Hex) (w w' : World)
      → link_nonce_tree ext g chunk tree.root (register_nonce_tree g tree w).1 ≡ (ok tt, w')
      → (nonce_tree ext g chunk w' ≡ (ok tree, w'))
        × (link_nonce_tree ext g chunk hash w' ≡ (err chunk_already_linked, w'))
  nonce_tree-link_nonce_tree g chunk tree hash w w' h =
      let e = link_nonce_tree-linked g chunk tree.root (register_nonce_tree g tree w).1 w' h in
      (
        subst (λ u. nonce_tree ext g chunk u ≡ (ok tree, u)) e
            (nonce_tree-linked_world g chunk tree w),
        subst (λ u. link_nonce_tree ext g chunk hash u ≡ (err chunk_already_linked, u)) e
            (link_nonce_tree-linked_world g chunk tree.root hash (register_nonce_tree g tree w).1),
      )
