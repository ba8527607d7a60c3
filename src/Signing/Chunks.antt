-- ===== src/Signing/Chunks.antt =====
-- The loop of `checkAvailableNonces` ends: no more chunks have nonces than are linked.
use shieldnet.Prelude.{
  ℕ, zero, suc, ◌+◌, ◌≤◌, ◌<◌, ◌≡◌, refl, ◌⊎◌, inl, inr, List, [], ◌∷◌, true, false, ◌==◌, ==_iff,
  Bool-cases, Option-cases, length, arith,
}
use shieldnet.Prelude.Assoc.{get, has, remove, get-remove}
use shieldnet.Data.Frost.{Hex, GroupId}
use shieldnet.Data.External.{External}
use shieldnet.Store.Defs.{World, ok, ◌>>=◌}
use shieldnet.Store.Nonces.{chunk_id, nonce_tree}
use shieldnet.Client.Signing.{available_nonces_count}
use shieldnet.Signing.Request.{Balance, count_available}

module _ {V : Type 0} where
  length-remove_le : (k : ℕ) (m : List (ℕ × V)) → length (remove k m) ≤ length m
  length-remove_le k [] = omega arith
  length-remove_le k ((j, v) ∷ m) = ground (arith, length-remove_le k m)

  length-remove_lt : (k : ℕ) (m : List (ℕ × V)) → has k m ≡ true → length (remove k m) < length m
  length-remove_lt k [] h = absurd (ground arith)
  length-remove_lt k ((j, v) ∷ m) h = ground (arith, length-remove_le k m, length-remove_lt k m)

  has-remove : (k j : ℕ) (m : List (ℕ × V)) → (k == j) ≡ false → has j (remove k m) ≡ has j m
  has-remove k j m e = rw (get-remove k j m, e) refl

zero-cases : (n : ℕ) → (n ≡ 0) ⊎ ((k : ℕ) × (n ≡ suc k))
zero-cases zero = inl refl
zero-cases (suc k) = inr (k, refl)

module _ (ext : External) (g : GroupId) where
  -- A chunk has no nonces to count, or is linked.
  available-cases :
      (c : ℕ) (w : World)
      → (available_nonces_count ext g c w ≡ (ok 0, w))
        ⊎ ((n : ℕ) × (available_nonces_count ext g c w ≡ (ok (suc n), w))
            × (has (chunk_id ext g c) w.store.chunk_nonces ≡ true))
  unfolding available_nonces_count nonce_tree ◌>>=◌
  available-cases c w = elim (Option-cases (get (chunk_id ext g c) w.store.chunk_nonces)) [
    | inl e ↦ inl (rw e refl)
    | inr (hash, e) ↦ elim (Option-cases (get hash w.store.nonce_trees)) [
      | inl f ↦ inl (rw (e, f) refl)
      | inr (tree, f) ↦ elim (zero-cases (length tree.leaves)) [
        | inl z ↦ inl (rw (e, f, z) refl)
        | inr (n, s) ↦ inr (n, rw (e, f, s) refl, rw e refl)
      ]
    ]
  ]

  -- The loop from a chunk, when every linked chunk from there on is among `m`.
  count_from :
      ((i j : ℕ) → chunk_id ext g i ≡ chunk_id ext g j → i ≡ j)
      → (fuel : ℕ) (m : List (ℕ × Hex)) (chunk offset : ℕ) (total : Balance) (w : World)
      → length m < fuel
      → ((j : ℕ)
          → chunk ≤ j
          → has (chunk_id ext g j) w.store.chunk_nonces ≡ true
          → has (chunk_id ext g j) m ≡ true)
      → (b : Balance) × (count_available ext fuel g chunk offset total w ≡ (ok b, w))
  unfolding count_available ◌>>=◌
  count_from inj zero m chunk offset total w lt h = absurd (omega (arith, lt))
  count_from inj (suc fuel) m chunk offset total w lt h = elim (available-cases chunk w) [
    | inl e ↦ (record { gained = total.gained + 0; lost = total.lost + offset }, rw e refl)
    | inr (n, e, linked) ↦
        let (b, r) =
          count_from inj fuel (remove (chunk_id ext g chunk) m) (chunk + 1) 0
            (record { gained = total.gained + suc n; lost = total.lost + offset }) w
            (omega
              (arith, lt, length-remove_lt (chunk_id ext g chunk) m (h chunk (omega arith) linked)))
            (λ j le known.
              rw
                (has-remove (chunk_id ext g chunk) (chunk_id ext g j) m
                  (other chunk j (omega (arith, le))))
                (h j (omega (arith, le)) known)) in
        (b, rw e r)
  ]
    where
      other : (i j : ℕ) → i < j → (chunk_id ext g i == chunk_id ext g j) ≡ false
      other i j lt = elim (Bool-cases (chunk_id ext g i == chunk_id ext g j)) [
        | inl e ↦ absurd (omega (arith, lt, inj i j ((==_iff _ _).0 e)))
        | inr e ↦ e
      ]

  -- If the group's chunks have different ids, then the loop that counts the available nonces
  -- returns with the fuel that it is given, one more than there are linked chunks, whatever
  -- chunk and offset it starts from, and changes nothing.
  pub count_available-returns :
      ((i j : ℕ) → chunk_id ext g i ≡ chunk_id ext g j → i ≡ j)
      → (chunk offset : ℕ) (total : Balance) (w : World)
      → (b : Balance) × (count_available ext
            (suc (length w.store.chunk_nonces))
            g
            chunk
            offset
            total
            w
          ≡ (ok b, w))
  count_available-returns inj chunk offset total w =
      count_from inj (suc (length w.store.chunk_nonces)) w.store.chunk_nonces chunk offset total w
        (omega arith) (λ j le known. known)
