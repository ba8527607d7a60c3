-- ===== src/Store/Ensures.antt =====
-- What holds of every value that effectful code returns, and the rule for a sequence of steps.
use mathlib.Core.Path.{subst, ◌∙◌}
use shieldnet.Prelude.{Option, none, some, Bool, true, false, ◌≡◌, refl, if◌then◌else◌}
use shieldnet.Store.Defs.{
  World, Failure, Result, ok, err, M, pure, throw, continue, ◌>>=◌, require, throw_if,
}

abbrev pub Post : {A : Type 0} → (A → Type 0) → Result A → Type 0
Post P (ok a) = P a
Post P (err e) = Unit

pub record Ensures {A : Type 0} (P : A → Type 0) (m : M A) : Type 0 where
  pub post : (w : World) → Post P (m w).0

continue-Post :
    {A B : Type 0} (P : A → Type 0) (Q : B → Type 0) (r : Result A × World) (f : A → M B)
    → Post P r.0
    → ((a : A) → P a → Ensures Q (f a))
    → Post Q (continue r f).0
continue-Post P Q (ok a, w) f h k = (k a h).post w
continue-Post P Q (err e, w) f h k = tt

-- After a step that ensures P, what the rest ensures from P.
pub bind-Ensures :
    {A B : Type 0} (P : A → Type 0) {Q : B → Type 0} {m : M A} {f : A → M B}
    → Ensures P m
    → ((a : A) → P a → Ensures Q (f a))
    → Ensures Q (m >>= f)
unfolding ◌>>=◌
bind-Ensures P {Q} {m} {f} h k = record { post = λ w. continue-Post P Q (m w) f (h.post w) k }

trivial-Post : {A : Type 0} (r : Result A) → Post (λ _. Unit {0}) r
trivial-Post (ok a) = tt
trivial-Post (err e) = tt

-- After a step of which nothing is needed.
pub then-Ensures :
    {A B : Type 0} {Q : B → Type 0} (m : M A) {f : A → M B}
    → ((a : A) → Ensures Q (f a))
    → Ensures Q (m >>= f)
then-Ensures m k =
    bind-Ensures (λ _. Unit {0}) (record { post = λ w. trivial-Post (m w).0 }) (λ a _. k a)

pub pure-Ensures : {A : Type 0} {Q : A → Type 0} {a : A} → Q a → Ensures Q (pure a)
pure-Ensures h = record { post = λ w. h }

pub throw-Ensures : {A : Type 0} {Q : A → Type 0} {e : Failure} → Ensures Q (throw e)
throw-Ensures = record { post = λ w. tt }

pub if-Ensures :
    {A : Type 0} {Q : A → Type 0} (b : Bool) {m n : M A}
    → (b ≡ true → Ensures Q m)
    → (b ≡ false → Ensures Q n)
    → Ensures Q (if b then m else n)
if-Ensures true h k = h refl
if-Ensures false h k = k refl

-- A value chosen by a test.
pub if-holds :
    {A : Type 0} (Q : A → Type 0) (b : Bool) {x y : A} → Q x → Q y → Q (if b then x else y)
if-holds Q true h k = h
if-holds Q false h k = k

pub ok-Ensures :
    {A : Type 0} {Q : A → Type 0} {m : M A} {w w' : World} {a : A}
    → Ensures Q m
    → m w ≡ (ok a, w')
    → Q a
ok-Ensures {Q = Q} {w = w} h e = subst (λ r. Post Q r.0) e (h.post w)

-- A step that changes no state.
abbrev pub IsReadOnly : {A : Type 0} → M A → Type 0
IsReadOnly m = (w : World) → (m w).1 ≡ w

pub require-IsReadOnly : {A : Type 0} (e : Failure) (o : Option A) → IsReadOnly (require e o)
require-IsReadOnly e none w = refl
require-IsReadOnly e (some a) w = refl

pub throw_if-IsReadOnly : (b : Bool) (e : Failure) → IsReadOnly (throw_if b e)
throw_if-IsReadOnly true e w = refl
throw_if-IsReadOnly false e w = refl

continue-read :
    {A B : Type 0} (r : Result A × World) (f : A → M B) (w : World)
    → r.1 ≡ w
    → ((a : A) → IsReadOnly (f a))
    → (continue r f).1 ≡ w
continue-read (ok a, w') f w e k = k a w' ∙ e
continue-read (err e, w') f w e' k = e'

pub bind-IsReadOnly :
    {A B : Type 0} (m : M A) (f : A → M B)
    → IsReadOnly m
    → ((a : A) → IsReadOnly (f a))
    → IsReadOnly (m >>= f)
unfolding ◌>>=◌
bind-IsReadOnly m f h k w = continue-read (m w) f w (h w) k
