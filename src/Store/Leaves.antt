-- ===== src/Store/Leaves.antt =====
-- What holds of the state that effectful code leaves when it does not throw.
use mathlib.Core.Path.{subst}
use shieldnet.Prelude.{Option, none, some, ◌≡◌, refl}
use shieldnet.Store.Defs.{World, Failure, Result, ok, err, M, continue, pure, ◌>>=◌, require}

abbrev pub OnOk : {A : Type 0} → (World → Type 0) → Result A × World → Type 0
OnOk P (ok a, w) = P w
OnOk P (err e, w) = Unit

pub record Leaves {A : Type 0} (P : World → Type 0) (m : M A) : Type 0 where
  pub post : (w : World) → OnOk P (m w)

continue-OnOk :
    {A B : Type 0} (P : World → Type 0) (r : Result A × World) (f : A → M B)
    → ((a : A) → Leaves P (f a))
    → OnOk P (continue r f)
continue-OnOk P (ok a, w) f k = (k a).post w
continue-OnOk P (err e, w) f k = tt

-- What the rest leaves, whatever comes before it.
pub then-Leaves :
    {A B : Type 0} {P : World → Type 0} (m : M A) {f : A → M B}
    → ((a : A) → Leaves P (f a))
    → Leaves P (m >>= f)
unfolding ◌>>=◌
then-Leaves {P = P} m {f} k = record { post = λ w. continue-OnOk P (m w) f k }

pub require-Leaves :
    {A B : Type 0} {P : World → Type 0} (e : Failure) (o : Option A) {f : A → M B}
    → ((a : A) → o ≡ some a → Leaves P (f a))
    → Leaves P (require e o >>= f)
unfolding ◌>>=◌
require-Leaves e none k = record { post = λ w. tt }
require-Leaves e (some a) k = record { post = λ w. (k a refl).post w }

last-OnOk :
    {A B : Type 0} (P : World → Type 0) (r : Result A × World) (g : A → B)
    → OnOk P r
    → OnOk P (continue r (λ a. pure (g a)))
last-OnOk P (ok a, w) g h = h
last-OnOk P (err e, w) g h = tt

-- A last step after which only a value is returned.
pub last-Leaves :
    {A B : Type 0} {P : World → Type 0} {m : M A} (g : A → B)
    → Leaves P m
    → Leaves P (m >>= λ a. pure (g a))
unfolding ◌>>=◌
last-Leaves {P = P} {m} g h = record { post = λ w. last-OnOk P (m w) g (h.post w) }

pub ok-Leaves :
    {A : Type 0} {P : World → Type 0} {m : M A} {w w' : World} {a : A}
    → Leaves P m
    → m w ≡ (ok a, w')
    → P w'
ok-Leaves {P = P} {w = w} h e = subst (OnOk P) e (h.post w)
