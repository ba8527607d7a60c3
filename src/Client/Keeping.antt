-- ===== src/Client/Keeping.antt =====
-- Code that leaves a burned nonce burned, and the storage's methods on nonces.
use mathlib.Core.Path.{subst}
use shieldnet.Prelude.{
  some-inj, ℕ, zero, suc, ◌≡◌, refl, sym, ap, ◌∙◌, List, [], ◌∷◌, some, Bool, true, false, ◌==◌,
  arith, set, get_elem?, inl, inr, Bool-cases, Option-cases, ==_iff, if◌then◌else◌,
}
use shieldnet.Prelude.Assoc.{get, put, has, get-put}
use shieldnet.Data.Frost.{Hex, GroupId, NonceTree, NonceCommitments}
use shieldnet.Data.External.{External}
use shieldnet.Store.Defs.{World, Result, ok, err, M, continue, ◌>>=◌, throw_if}
use shieldnet.Store.Ensures.{IsReadOnly, require-IsReadOnly, throw_if-IsReadOnly}
use shieldnet.Store.KeyGens.{key_gen_info}
use shieldnet.Store.Nonces.{
  chunk_id, register_nonce_tree, link_nonce_tree, burn_nonce, is_burned, burned,
}

-- The entry at the offset of a tree is burned.
pub record Spent (offset : ℕ) (tree : NonceTree) : Type 0 where
  pub entry : NonceCommitments
  pub found : get_elem? tree.commitments offset ≡ some entry
  pub spent : is_burned entry ≡ true

get-put_new :
    (k j h hash : Hex) (m : List (Hex × Hex))
    → has k m ≡ false
    → get j m ≡ some hash
    → get j (put k h m) ≡ some hash
get-put_new k j h hash m e f = elim (Bool-cases (k == j)) [
  | inl d ↦
      let same : k ≡ j = ground (arith, ==_iff k j) in absurd (ground (arith, rw (same, f) at e))
  | inr d ↦ get-put k j h m ∙ ap (λ c. if c then some h else get j m) d ∙ f
]

-- Writing a burned entry anywhere leaves a burned entry burned.
set-spent :
    (cs : List NonceCommitments) (i j : ℕ) (v e : NonceCommitments)
    → is_burned v ≡ true
    → get_elem? cs j ≡ some e
    → is_burned e ≡ true
    → (e' : NonceCommitments) × (get_elem? (set cs i v) j ≡ some e') × (is_burned e' ≡ true)
set-spent [] i j v e hv f h = (e, f, h)
set-spent (c ∷ cs) zero zero v e hv f h = (v, refl, hv)
set-spent (c ∷ cs) zero (suc j) v e hv f h = (e, f, h)
set-spent (c ∷ cs) (suc i) zero v e hv f h = (e, f, h)
set-spent (c ∷ cs) (suc i) (suc j) v e hv f h = set-spent cs i j v e hv f h

module _ (ext : External) (g : GroupId) (chunk offset : ℕ) (hash : Hex) where
  -- The tree of that hash is linked to the chunk, and its entry at the offset is burned.
  pub record BurnedIn (w : World) : Type 0 where
    pub tree : NonceTree
    pub linked : get (chunk_id ext g chunk) w.store.chunk_nonces ≡ some hash
    pub known : get hash w.store.nonce_trees ≡ some tree
    pub burnt : Spent offset tree

  -- Code that leaves it so.
  pub record Keeps {A : Type 0} (m : M A) : Type 0 where
    pub post : (w : World) → BurnedIn w → BurnedIn (m w).1

  continue-BurnedIn :
      {A B : Type 0} (r : Result A × World) (f : A → M B)
      → BurnedIn r.1
      → ((a : A) → Keeps (f a))
      → BurnedIn (continue r f).1
  continue-BurnedIn (ok a, w) f b k = (k a).post w b
  continue-BurnedIn (err e, w) f b k = b

  pub then-Keeps :
      {A B : Type 0} {m : M A} {f : A → M B} → Keeps m → ((a : A) → Keeps (f a)) → Keeps (m >>= f)
  unfolding ◌>>=◌
  then-Keeps {m = m} {f} h k = record { post = λ w b. continue-BurnedIn (m w) f (h.post w b) k }

  pub read-Keeps : {A : Type 0} {m : M A} → IsReadOnly m → Keeps m
  read-Keeps h = record { post = λ w b. subst BurnedIn (sym (h w)) b }

  -- The nonce maps of the state are all that matters.
  pub same_nonces :
      (w w' : World)
      → w'.store.chunk_nonces ≡ w.store.chunk_nonces
      → w'.store.nonce_trees ≡ w.store.nonce_trees
      → BurnedIn w
      → BurnedIn w'
  same_nonces w w' e f b = record {
    tree = b.tree;
    linked = ap (get (chunk_id ext g chunk)) e ∙ b.linked;
    known = ap (get hash) f ∙ b.known;
    burnt = b.burnt;
  }

  pub write-Keeps :
      {A : Type 0} {m : M A}
      → ((w : World) → (m w).1.store.chunk_nonces ≡ w.store.chunk_nonces)
      → ((w : World) → (m w).1.store.nonce_trees ≡ w.store.nonce_trees)
      → Keeps m
  write-Keeps {m = m} h k = record { post = λ w b. same_nonces w (m w).1 (h w) (k w) b }

  -- Another tree put under a hash, which has the entry burned when the hash is this one.
  put_tree :
      (k : Hex) (t : NonceTree) (w w' : World)
      → w'.store.chunk_nonces ≡ w.store.chunk_nonces
      → w'.store.nonce_trees ≡ put k t w.store.nonce_trees
      → (k ≡ hash → Spent offset t)
      → BurnedIn w
      → BurnedIn w'
  put_tree k t w w' e f s b = elim (Bool-cases (k == hash)) [
    | inl h ↦ record {
      tree = t;
      linked = ap (get (chunk_id ext g chunk)) e ∙ b.linked;
      known =
          ap (get hash) f
          ∙ get-put k hash t w.store.nonce_trees
          ∙ ap (λ c. if c then some t else get hash w.store.nonce_trees) h;
      burnt = s (ground (arith, ==_iff k hash));
    }
    | inr h ↦ record {
      tree = b.tree;
      linked = ap (get (chunk_id ext g chunk)) e ∙ b.linked;
      known =
          ap (get hash) f
          ∙ get-put k hash t w.store.nonce_trees
          ∙ ap (λ c. if c then some t else get hash w.store.nonce_trees) h
          ∙ b.known;
      burnt = b.burnt;
    }
  ]

  pub guarded :
      {A : Type 0} (c : Bool) (e : _) {m : M A} → Keeps m → Keeps (throw_if c e >>= λ _. m)
  guarded c e h = then-Keeps (read-Keeps (throw_if-IsReadOnly c e)) (λ _. h)

  pub key_gen_info-Keeps : (i : GroupId) → Keeps (key_gen_info i)
  unfolding key_gen_info
  key_gen_info-Keeps i =
      then-Keeps (read-Keeps (λ w. refl)) (λ s. read-Keeps (require-IsReadOnly _ _))

  pub register_nonce_tree-Keeps :
      (i : GroupId) (t : NonceTree) → (t.root ≡ hash → ⊥) → Keeps (register_nonce_tree i t)
  unfolding register_nonce_tree ◌>>=◌
  register_nonce_tree-Keeps i t n = record {
    post = λ w b. put_tree t.root t w _ refl refl (λ e. absurd (n e)) b;
  }

  pub link_nonce_tree-Keeps : (i : GroupId) (c : ℕ) (h : Hex) → Keeps (link_nonce_tree ext i c h)
  unfolding link_nonce_tree ◌>>=◌
  link_nonce_tree-Keeps i c h = record {
    post = λ w b. elim (Bool-cases (has (chunk_id ext i c) w.store.chunk_nonces)) [
      | inl e ↦ rw e b
      | inr e ↦ rw e (record {
        tree = b.tree;
        linked = get-put_new (chunk_id ext i c) _ h hash w.store.chunk_nonces e b.linked;
        known = b.known;
        burnt = b.burnt;
      })
    ];
  }

  Spent-burned :
      (tree t : NonceTree) (o : ℕ) (e : NonceCommitments)
      → Spent offset tree
      → t ≡ tree
      → Spent offset (record t { commitments = set t.commitments o (burned e) })
  Spent-burned tree t o e s h =
      let r =
        set-spent t.commitments o offset (burned e) s.entry refl
          (ap (λ u. get_elem? u.commitments offset) h ∙ s.found) s.spent in
      record { entry = r.0; found = r.1; spent = r.2 }

  pub burn_nonce-Keeps : (i : GroupId) (c o : ℕ) → Keeps (burn_nonce ext i c o)
  unfolding burn_nonce ◌>>=◌
  burn_nonce-Keeps i c o = record {
    post = λ w b. elim (Option-cases (get (chunk_id ext i c) w.store.chunk_nonces)) [
      | inl e ↦ rw e b
      | inr (h, e) ↦ elim (Option-cases (get h w.store.nonce_trees)) [
        | inl e' ↦ rw (e, e') b
        | inr (t, e') ↦ elim (Option-cases (get_elem? t.commitments o)) [
          | inl e'' ↦ rw (e, e', e'') b
          | inr (n, e'') ↦ elim (Bool-cases (is_burned n)) [
            | inl e3 ↦ rw (e, e', e'', e3) b
            | inr e3 ↦
                rw (e, e', e'', e3)
                  (put_tree h (record t { commitments = set t.commitments o (burned n) }) w _ refl
                    refl
                    (λ s.
                      Spent-burned b.tree t o n b.burnt
                        (some-inj (sym e' ∙ ap (λ k. get k w.store.nonce_trees) s ∙ b.known)))
                    b)
          ]
        ]
      ]
    ];
  }
