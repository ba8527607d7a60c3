-- ===== src/Protocol/Queue.antt =====
-- validator/src/utils/queue.ts: the interface of a queue, and its implementation on a table.
use shieldnet.Prelude.{◌≡◌, refl, ap, ◌∙◌, List, [], ◌∷◌, ◌++◌, Option, none, some}

abbrev pub first {ℓ} : {A : Type ℓ} → List A → Option A
first [] = none
first (a ∷ rest) = some a

abbrev pub rest_of {ℓ} : {A : Type ℓ} → List A → List A
rest_of [] = []
rest_of (a ∷ rest) = rest

-- `Queue<T>`: its operations, which are those of a list by `contents`. `IsValid` is what they keep.
pub record Queue (A Q : Type 0) : Type 1 where
  pub push : A → Q → Q
  pub peek : Q → Option A
  pub pop : Q → Option A × Q
  pub contents : Q → List A
  pub IsValid : Q → Type 0
  pub push-IsValid : (a : A) (q : Q) → IsValid q → IsValid (push a q)
  pub pop-IsValid : (q : Q) → IsValid q → IsValid (pop q).1
  pub contents-push : (a : A) (q : Q) → IsValid q → contents (push a q) ≡ contents q ++ a ∷ []
  pub peek-contents : (q : Q) → IsValid q → peek q ≡ first (contents q)
  pub pop-contents : (q : Q) → IsValid q → (pop q).0 ≡ first (contents q)
  pub contents-pop : (q : Q) → IsValid q → contents (pop q).1 ≡ rest_of (contents q)

-- Calls of a queue, and what they return.
pub data QueueCall (A : Type 0) : Type 0 where
  push_call : A → QueueCall A
  peek_call : QueueCall A
  pop_call : QueueCall A

module _ {A Q : Type 0} (push : A → Q → Q) (peek : Q → Option A) (pop : Q → Option A × Q) where
  abbrev pub run_queue : List (QueueCall A) → Q → List (Option A)
  run_queue [] q = []
  run_queue (push_call a ∷ calls) q = run_queue calls (push a q)
  run_queue (peek_call ∷ calls) q = peek q ∷ run_queue calls q
  run_queue (pop_call ∷ calls) q = (pop q).0 ∷ run_queue calls (pop q).1

-- The same calls of a list, at whose end elements are added.
abbrev pub run_list : {A : Type 0} → List (QueueCall A) → List A → List (Option A)
run_list [] l = []
run_list (push_call a ∷ calls) l = run_list calls (l ++ a ∷ [])
run_list (peek_call ∷ calls) l = first l ∷ run_list calls l
run_list (pop_call ∷ calls) l = first l ∷ run_list calls (rest_of l)

-- An implementation of the interface returns what the list of its contents does.
pub run_queue-contents :
    {A Q : Type 0} (queue : Queue A Q) (calls : List (QueueCall A)) (q : Q)
    → queue.IsValid q
    → run_queue queue.push queue.peek queue.pop calls q ≡ run_list calls (queue.contents q)
run_queue-contents queue [] q h = refl
run_queue-contents queue (push_call a ∷ calls) q h =
    run_queue-contents queue calls (queue.push a q) (queue.push-IsValid a q h)
    ∙ ap (run_list calls) (queue.contents-push a q h)
run_queue-contents queue (peek_call ∷ calls) q h =
    ap (λ o. o ∷ run_queue queue.push queue.peek queue.pop calls q) (queue.peek-contents q h)
    ∙ ap (λ l. first (queue.contents q) ∷ l) (run_queue-contents queue calls q h)
run_queue-contents queue (pop_call ∷ calls) q h =
    ap (λ o. o ∷ run_queue queue.push queue.peek queue.pop calls (queue.pop q).1)
      (queue.pop-contents q h)
    ∙ ap (λ l. first (queue.contents q) ∷ l)
        (run_queue-contents queue calls (queue.pop q).1 (queue.pop-IsValid q h)
          ∙ ap (run_list calls) (queue.contents-pop q h))
