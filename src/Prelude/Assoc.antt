-- ===== src/Prelude/Assoc.antt =====
-- A JavaScript `Map` or plain object whose keys are numbered: entries in the order of insertion, a
-- key at most once when built by `put`.
use Prim.Native.Nat.{ℕ}
use mathlib.Core.Path.{◌≡◌, refl}
use mathlib.Core.Bool.{Bool}
use mathlib.Core.List.{List, [], ◌∷◌, map}
use mathlib.Core.Option.{Option, none, some}
use native.Mathlib.Omega.{arith}
use shieldnet.Prelude.Tests.{◌==◌, if◌then◌else◌, ==_iff, ==_refl, is_some}

module _ {ℓ} {V : Type ℓ} where
  -- `m.get(k)` or `m[k]`.
  abbrev pub get : ℕ → List (ℕ × V) → Option V
  get k [] = none
  get k ((j, v) ∷ m) = let rest = get k m in if j == k then some v else rest

  -- `m.has(k)`.
  abbrev pub has : ℕ → List (ℕ × V) → Bool
  has k m = is_some (get k m)

  -- `m.set(k, v)` or `m[k] = v`: a known key keeps its place.
  abbrev pub put : ℕ → V → List (ℕ × V) → List (ℕ × V)
  put k v [] = (k, v) ∷ []
  put k v ((j, u) ∷ m) = let rest = put k v m in if j == k then (k, v) ∷ m else (j, u) ∷ rest

  -- `m.delete(k)` or `delete m[k]`.
  abbrev pub remove : ℕ → List (ℕ × V) → List (ℕ × V)
  remove k [] = []
  remove k ((j, u) ∷ m) = let rest = remove k m in if j == k then rest else (j, u) ∷ rest

  abbrev pub keys : List (ℕ × V) → List ℕ
  keys = map (λ e. e.0)

  pub get-put :
      (k j : ℕ) (v : V) (m : List (ℕ × V))
      → get j (put k v m) ≡ (if k == j then some v else get j m)
  get-put k j v [] = refl
  get-put k j v ((i, u) ∷ m) = ground (arith, ==_iff k j, ==_iff i k, ==_iff i j, get-put k j v m)

  pub get-put_self : (k : ℕ) (v : V) (m : List (ℕ × V)) → get k (put k v m) ≡ some v
  get-put_self k v m = rw (get-put k k v m, ==_refl k) refl

  pub get-remove :
      (k j : ℕ) (m : List (ℕ × V)) → get j (remove k m) ≡ (if k == j then none else get j m)
  get-remove k j [] = ground arith
  get-remove k j ((i, u) ∷ m) = ground (arith, ==_iff k j, ==_iff i k, ==_iff i j, get-remove k j m)
