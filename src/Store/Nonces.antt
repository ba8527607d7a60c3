-- ===== src/Store/Nonces.antt =====
-- validator/src/consensus/storage/inmemory.ts: the nonce trees, and which chunk each is linked to.
-- `burnNonce` writes into the tree that the map holds; the two secret nonces of the entry become 0.
-- The map of a request's nonce commitments may hold the same object, of which only the public part
-- is read there.
use shieldnet.Prelude.{ℕ, [], ◌∷◌, ◌&&◌, ◌==◌, get_elem?, set, Bool}
use shieldnet.Prelude.Assoc.{get, put, has}
use shieldnet.Data.Frost.{Hex, GroupId, NonceTree, NonceCommitments}
use shieldnet.Data.External.{External, bytes32, uint256}
use shieldnet.Store.Defs.{
  M, ◌>>=◌, ◌>>◌, pure, throw_if, require, storage, put_storage, chunk_already_linked,
  no_nonces_linked, no_nonces_available, no_nonces_at_offset, nonce_already_burned,
}

unfoldable pub register_nonce_tree : GroupId → NonceTree → M Hex
register_nonce_tree group_id tree = do
  s ← storage
  put_storage (record s { nonce_trees = put tree.root tree s.nonce_trees })
  pure tree.root

abbrev pub is_burned : NonceCommitments → Bool
is_burned c = c.binding_nonce == 0 && c.hiding_nonce == 0

abbrev pub burned : NonceCommitments → NonceCommitments
burned c = record c { hiding_nonce = 0; binding_nonce = 0 }

module _ (ext : External) where
  unfoldable pub chunk_id : GroupId → ℕ → Hex
  chunk_id group_id chunk =
      ext.keccak256 (ext.encode_packed (bytes32 group_id ∷ uint256 chunk ∷ []))

  unfoldable pub link_nonce_tree : GroupId → ℕ → Hex → M (Unit {0})
  link_nonce_tree group_id chunk tree_hash = do
    s ← storage
    throw_if (has (chunk_id group_id chunk) s.chunk_nonces) chunk_already_linked
    put_storage (record s { chunk_nonces = put (chunk_id group_id chunk) tree_hash s.chunk_nonces })

  unfoldable pub nonce_tree : GroupId → ℕ → M NonceTree
  nonce_tree group_id chunk = do
    s ← storage
    tree_hash ← require no_nonces_linked (get (chunk_id group_id chunk) s.chunk_nonces)
    require no_nonces_available (get tree_hash s.nonce_trees)

  unfoldable pub burn_nonce : GroupId → ℕ → ℕ → M (Unit {0})
  burn_nonce group_id chunk offset = do
    s ← storage
    tree_hash ← require no_nonces_linked (get (chunk_id group_id chunk) s.chunk_nonces)
    tree ← require no_nonces_available (get tree_hash s.nonce_trees)
    entry ← require no_nonces_at_offset (get_elem? tree.commitments offset)
    throw_if (is_burned entry) nonce_already_burned
    put_storage (record s {
      nonce_trees =
          put tree_hash (record tree { commitments = set tree.commitments offset (burned entry) })
            s.nonce_trees;
    })
