-- ===== src/Merkle/Proof.antt =====
-- A proof that merkle.ts generates is one that it verifies.
use shieldnet.Prelude.{
  ℕ, zero, suc, ◌+◌, ◌/◌, ◌≤◌, ◌<◌, ◌≡◌, refl, ◌∙◌, sym, List, [], ◌∷◌, some, true, arith, length,
  get_elem?, leb, ==_iff, get_elem?-lt_of_some, Bool-cases, inl, inr,
}
use shieldnet.Data.Frost.{Hex}
use shieldnet.Data.External.{External}
use shieldnet.Store.Defs.{World, ok, ◌>>=◌}
use shieldnet.Merkle.{
  at_or_zero, hash_pair, next_level, build_levels, build_merkle_tree, last_level, fold_proof,
  verify_merkle_proof, neighbor, proof_in, generate_merkle_proof_with_root, calculate_merkle_root,
  only_node,
}

module _ (ext : External) where
  hash_pair_comm : (a b : Hex) → hash_pair ext a b ≡ hash_pair ext b a
  unfolding hash_pair
  hash_pair_comm a b = ground arith

  length-next_level : (l : List Hex) → length (next_level ext l) ≡ (length l + 1) / 2
  unfolding next_level
  length-next_level [] = omega arith
  length-next_level (a ∷ []) = omega arith
  length-next_level (a ∷ b ∷ l) = omega (arith, length-next_level l)

  neighbor-suc-suc : (i : ℕ) → neighbor ext (suc (suc i)) ≡ suc (suc (neighbor ext i))
  unfolding neighbor
  neighbor-suc-suc i = ground arith

  half-suc-suc : (i : ℕ) → suc (suc i) / 2 ≡ suc (i / 2)
  half-suc-suc i = omega arith

  -- The parent of the node at i is over that node and its neighbour.
  at-next_level :
      (l : List Hex) (i : ℕ)
      → i < length l
      → at_or_zero ext (next_level ext l) (i / 2)
        ≡ hash_pair ext (at_or_zero ext l i) (at_or_zero ext l (neighbor ext i))
  unfolding next_level at_or_zero
  at-next_level [] i h = elim h [ ]
  at-next_level (a ∷ []) zero h = unfold neighbor in refl
  at-next_level (a ∷ []) (suc i) h = absurd (omega arith)
  at-next_level (a ∷ b ∷ l) zero h = unfold neighbor in refl
  at-next_level (a ∷ b ∷ l) (suc zero) h = unfold neighbor in hash_pair_comm a b
  at-next_level (a ∷ b ∷ l) (suc (suc i)) h =
      rw (half-suc-suc i, neighbor-suc-suc i) (at-next_level l i (omega arith))

  build_levels-cons :
      (fuel : ℕ) (l : List Hex) → (r : List (List Hex)) × (build_levels ext fuel l ≡ l ∷ r)
  unfolding build_levels
  build_levels-cons zero l = ([], refl)
  build_levels-cons (suc fuel) l = elim (Bool-cases (leb (length l) 1)) [
    | inl e ↦ ([], rw e refl)
    | inr e ↦ (build_levels ext fuel (next_level ext l), rw e refl)
  ]

  build_levels-more :
      (fuel : ℕ) (l : List Hex)
      → 1 < length l
      → build_levels ext (suc fuel) l ≡ l ∷ build_levels ext fuel (next_level ext l)
  unfolding build_levels
  build_levels-more fuel l h = ground arith

  fold_proof-step :
      (l : List Hex) (r : List (List Hex)) (i : ℕ)
      → i < length l
      → fold_proof ext (at_or_zero ext l i) (proof_in ext (l ∷ next_level ext l ∷ r) i)
        ≡ fold_proof ext
            (at_or_zero ext (next_level ext l) (i / 2))
            (proof_in ext (next_level ext l ∷ r) (i / 2))
  unfolding fold_proof proof_in
  fold_proof-step l r i h = rw (at-next_level l i h) refl

  -- The proof of the node at i, in this tree, folds to the one node of its last level.
  abbrev Folds : List (List Hex) → List Hex → ℕ → Type 0
  Folds tree l i =
      (root : Hex) × (last_level ext tree ≡ root ∷ [])
      × (fold_proof ext (at_or_zero ext l i) (proof_in ext tree i) ≡ root)

  Folds-above :
      (l : List Hex) (r : List (List Hex)) (i : ℕ)
      → i < length l
      → Folds (next_level ext l ∷ r) (next_level ext l) (i / 2)
      → Folds (l ∷ next_level ext l ∷ r) l i
  unfolding last_level
  Folds-above l r i h (root, e, p) = (root, e, fold_proof-step l r i h ∙ p)

  Folds-one : (x : Hex) (i : ℕ) → i < 1 → Folds ((x ∷ []) ∷ []) (x ∷ []) i
  unfolding last_level proof_in at_or_zero fold_proof
  Folds-one x zero h = (x, refl, refl)
  Folds-one x (suc i) h = absurd (omega arith)

  build_levels-one : (fuel : ℕ) (x : Hex) → build_levels ext fuel (x ∷ []) ≡ (x ∷ []) ∷ []
  unfolding build_levels
  build_levels-one zero x = refl
  build_levels-one (suc fuel) x = refl

  -- As much fuel as there are nodes, less one, is enough.
  build_levels-Folds :
      (fuel : ℕ) (l : List Hex) (i : ℕ)
      → length l ≤ suc fuel
      → i < length l
      → Folds (build_levels ext fuel l) l i
  build_levels-Folds fuel [] i h lt = absurd (omega arith)
  build_levels-Folds fuel (x ∷ []) i h lt = rw (build_levels-one fuel x) (Folds-one x i lt)
  build_levels-Folds zero (x ∷ y ∷ l) i h lt = absurd (omega arith)
  build_levels-Folds (suc fuel) (x ∷ y ∷ l) i h lt =
      let level : List Hex = x ∷ y ∷ l in
      let (r, e) = build_levels-cons fuel (next_level ext level) in
      let above : Folds (build_levels ext fuel (next_level ext level)) (next_level ext level)
          (i / 2) =
        build_levels-Folds fuel (next_level ext level) (i / 2)
          (omega (arith, length-next_level level)) (omega (arith, length-next_level level)) in
      rw (build_levels-more fuel level (omega arith), e) (Folds-above level r i lt (rw e at above))

  at_or_zero-get :
      (l : List Hex) (i : ℕ) {x : Hex} → get_elem? l i ≡ some x → at_or_zero ext l i ≡ x
  unfolding at_or_zero
  at_or_zero-get [] i h = absurd (ground arith)
  at_or_zero-get (y ∷ l) zero h = ground arith
  at_or_zero-get (y ∷ l) (suc i) h = at_or_zero-get l i h

  generate-of-tree :
      (leaves : List Hex) (i : ℕ) (w : World) (tree : List (List Hex)) (root : Hex)
      → build_merkle_tree ext leaves w ≡ (ok tree, w)
      → last_level ext tree ≡ root ∷ []
      → generate_merkle_proof_with_root ext leaves i w ≡ (ok (proof_in ext tree i, root), w)
  unfolding generate_merkle_proof_with_root ◌>>=◌
  generate-of-tree leaves i w tree root e f = rw (e, f) refl

  calculate-of-tree :
      (leaves : List Hex) (w : World) (tree : List (List Hex)) (root : Hex)
      → build_merkle_tree ext leaves w ≡ (ok tree, w)
      → last_level ext tree ≡ root ∷ []
      → calculate_merkle_root ext leaves w ≡ (ok root, w)
  unfolding calculate_merkle_root only_node ◌>>=◌
  calculate-of-tree leaves w tree root e f = rw (e, f) refl

  build_merkle_tree-cons :
      (x : Hex) (xs : List Hex) (w : World)
      → build_merkle_tree ext (x ∷ xs) w ≡ (ok (build_levels ext (length (x ∷ xs)) (x ∷ xs)), w)
  unfolding build_merkle_tree
  build_merkle_tree-cons x xs w = refl

  -- For every leaf of a list, the proof and the root that `generateMerkleProofWithRoot`
  -- returns for the leaf's index pass `verifyMerkleProof` for that leaf, and the root is that
  -- of `calculateMerkleRoot`; neither function throws or changes any state.
  pub generate_merkle_proof-verifies :
      (leaves : List Hex) (i : ℕ) (leaf : Hex) (w : World)
      → get_elem? leaves i ≡ some leaf
      → (proof : List Hex) × (root : Hex) × (generate_merkle_proof_with_root ext leaves i w
          ≡ (ok (proof, root), w))
        × (calculate_merkle_root ext leaves w ≡ (ok root, w))
        × (verify_merkle_proof ext root leaf proof ≡ true)
  unfolding verify_merkle_proof
  generate_merkle_proof-verifies [] i leaf w h = absurd (ground arith)
  generate_merkle_proof-verifies (x ∷ xs) i leaf w h =
      let tree : List (List Hex) = build_levels ext (length (x ∷ xs)) (x ∷ xs) in
      let lt : i < length (x ∷ xs) = get_elem?-lt_of_some (x ∷ xs) i h in
      let (root, e, p) = build_levels-Folds (length (x ∷ xs)) (x ∷ xs) i (omega arith) lt in
      (
        proof_in ext tree i,
        root,
        generate-of-tree (x ∷ xs) i w tree root (build_merkle_tree-cons x xs w) e,
        calculate-of-tree (x ∷ xs) w tree root (build_merkle_tree-cons x xs w) e,
        (==_iff _ _).1 (rw (at_or_zero-get (x ∷ xs) i h) at (sym p)),
      )
