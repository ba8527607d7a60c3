-- ===== src/Checks/Decoding.antt =====
-- The loop of `decodeMultiSend` in validator/src/consensus/verify/safeTx/checks/multisend.ts ends.
use mathlib.Core.Path.{subst}
use shieldnet.Prelude.{
  ◌*◌, ℕ, zero, suc, ◌+◌, ◌-◌, ◌/◌, ◌≤◌, ◌<◌, ◌≡◌, refl, ap, inl, inr, ◌∷◌, Option, none, some,
  true, arith, ltb, length, Bool-cases,
}
use shieldnet.Data.Frost.{Text}
use shieldnet.Checks.Defs.{Abi}
use shieldnet.Checks.Multisend.{SubTx, read_sub_tx, read_sub_txs, ◌>>=◌}

module _ (abi : Abi) where
  abbrev Advances : ℕ → Option (SubTx × ℕ) → Type 0
  Advances pointer none = Unit
  Advances pointer (some (tx, next_pointer)) = pointer + 170 ≤ next_pointer

  bind-Advances :
      {A : Type 0} (pointer : ℕ) (o : Option A) (f : A → Option (SubTx × ℕ))
      → ((a : A) → Advances pointer (f a))
      → Advances pointer (o >>= f)
  unfolding ◌>>=◌
  bind-Advances pointer none f h = tt
  bind-Advances pointer (some a) f h = h a

  read_sub_tx-Advances :
      (text : Text) (pointer : ℕ) → Advances pointer (read_sub_tx abi text pointer)
  unfolding read_sub_tx
  read_sub_tx-Advances text pointer = bind-Advances pointer _ _ (λ operation.
      bind-Advances pointer _ _ (λ to.
        bind-Advances pointer _ _ (λ value. bind-Advances pointer _ _ (λ count. omega arith))))

  bind-congr :
      {A B : Type 0} (o : Option A) (f g : A → Option B)
      → ((a : A) → o ≡ some a → f a ≡ g a)
      → (o >>= f) ≡ (o >>= g)
  unfolding ◌>>=◌
  bind-congr none f g h = refl
  bind-congr (some a) f g h = h a refl

  shorter :
      (text : Text) (padding pointer : ℕ) (r : SubTx × ℕ) {fuel : ℕ}
      → read_sub_tx abi text pointer ≡ some r
      → 2 * abi.size text ≤ length text
      → ltb (pointer / 2 + padding) (abi.size text) ≡ true
      → length text - pointer < suc fuel
      → length text - r.1 < fuel
  shorter text padding pointer r o z e h =
      let a : pointer + 170 ≤ r.1 =
        subst (Advances pointer) o (read_sub_tx-Advances text pointer) in
      ground (arith, a)

  -- When a hex string has two digits for every byte, the loop that decodes a batch gives the
  -- same with any more fuel than the characters that are left to read: it does not run out of
  -- fuel.
  pub read_sub_txs-enough :
      (fuel more : ℕ) (text : Text) (padding pointer : ℕ)
      → 2 * abi.size text ≤ length text
      → length text - pointer < fuel
      → read_sub_txs abi (fuel + more) text padding pointer
        ≡ read_sub_txs abi fuel text padding pointer
  unfolding read_sub_txs
  read_sub_txs-enough zero more text padding pointer z h = absurd (omega arith)
  read_sub_txs-enough (suc fuel) more text padding pointer z h =
      let f : suc fuel + more ≡ suc (fuel + more) = omega arith in
      rw f (elim (Bool-cases (ltb (pointer / 2 + padding) (abi.size text))) [
        | inr e ↦ rw e refl
        | inl e ↦ rw e (
            bind-congr (read_sub_tx abi text pointer) _ _ (λ r o.
              ap (λ q. q >>= (λ later. some (r.0 ∷ later.0, later.1)))
                (read_sub_txs-enough fuel more text padding r.1 z
                  (shorter text padding pointer r o z e h))))
      ])
