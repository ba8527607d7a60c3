-- ===== src/Protocol/Rows.antt =====
-- `SqliteQueue` of validator/src/utils/queue.ts is a queue: its table holds the elements in order.
use mathlib.Core.Path.{subst}
use shieldnet.Prelude.{
  ℕ, ◌+◌, ◌≤◌, ◌<◌, ◌≡◌, refl, sym, ap, ◌∙◌, List, [], ◌∷◌, ◌++◌, Option, none, some, false, arith,
  ◌==◌, max, All, ==_refl,
}
use shieldnet.Data.Frost.{Text}
use shieldnet.Protocol.Queue.{
  Queue, first, rest_of, QueueCall, run_queue, run_list, run_queue-contents,
}
use shieldnet.Protocol.Table.{
  Row, next_id, oldest, delete_row, push_row, parse_row, peek_row, pop_found, commit_pop, pop_row,
  add_parsed, elements,
}

-- The keys increase, and every row was written by `push`.
abbrev pub AfterAll : ℕ → List Row → Type 0
AfterAll id rows = All (λ r. id < r.id) rows

abbrev pub IsIncreasing : List Row → Type 0
IsIncreasing [] = Unit
IsIncreasing (r ∷ rest) = AfterAll r.id rest × IsIncreasing rest

abbrev pub IsWritten : {A : Type 0} → (A → Text) → List Row → Type 0
IsWritten {A} stringify rows = All (λ r. (a : A) × (r.payload_json ≡ stringify a)) rows

oldest-first : (rows : List Row) → IsIncreasing rows → oldest rows ≡ first rows
unfolding oldest
oldest-first [] h = refl
oldest-first (r ∷ []) h = refl
oldest-first (r ∷ q ∷ rest) ((lt, _), h) = let e = oldest-first (q ∷ rest) h in rw e (ground arith)

delete_row-AfterAll : (id : ℕ) (rows : List Row) → AfterAll id rows → delete_row id rows ≡ rows
unfolding delete_row
delete_row-AfterAll id [] h = refl
delete_row-AfterAll id (r ∷ rest) (lt, h) =
    let e : (r.id == id) ≡ false = ground arith in
    rw e (ap (λ l. r ∷ l) (delete_row-AfterAll id rest h))

delete_row-first :
    (r : Row) (rest : List Row) → AfterAll r.id rest → delete_row r.id (r ∷ rest) ≡ rest
unfolding delete_row
delete_row-first r rest h = rw (==_refl r.id) (delete_row-AfterAll r.id rest h)

abbrev Below : ℕ → List Row → Type 0
Below n rows = All (λ r. r.id < n) rows

Below-weaken : (m n : ℕ) (rows : List Row) → m ≤ n → Below m rows → Below n rows
Below-weaken m n [] le h = tt
Below-weaken m n (r ∷ rest) le (lt, h) = (omega (arith, lt), Below-weaken m n rest le h)

next_id-Below : (rows : List Row) → Below (next_id rows) rows
unfolding next_id
next_id-Below [] = tt
next_id-Below (r ∷ rest) = (
  omega arith,
  Below-weaken (next_id rest) (max (r.id + 1) (next_id rest)) rest (omega arith)
      (next_id-Below rest),
)

AfterAll-append :
    (id : ℕ) (rows : List Row) (r : Row)
    → AfterAll id rows
    → id < r.id
    → AfterAll id (rows ++ r ∷ [])
AfterAll-append id [] r h lt = (lt, tt)
AfterAll-append id (q ∷ rows) r (lt', h) lt = (lt', AfterAll-append id rows r h lt)

IsIncreasing-append :
    (rows : List Row) (r : Row)
    → IsIncreasing rows
    → Below r.id rows
    → IsIncreasing (rows ++ r ∷ [])
IsIncreasing-append [] r h b = (tt, tt)
IsIncreasing-append (q ∷ rows) r (a, h) (lt, b) =
    (AfterAll-append q.id rows r a lt, IsIncreasing-append rows r h b)

IsIncreasing-rest_of : (rows : List Row) → IsIncreasing rows → IsIncreasing (rest_of rows)
IsIncreasing-rest_of [] h = tt
IsIncreasing-rest_of (r ∷ rest) h = h.1

module _ {A : Type 0} (stringify : A → Text) where
  IsWritten-append :
      (rows : List Row) (n : ℕ) (a : A)
      → IsWritten stringify rows
      → IsWritten stringify (rows ++ record { id = n; payload_json = stringify a } ∷ [])
  IsWritten-append [] n a h = ((a, refl), tt)
  IsWritten-append (r ∷ rows) n a (w, h) = (w, IsWritten-append rows n a h)

  IsWritten-rest_of :
      (rows : List Row) → IsWritten stringify rows → IsWritten stringify (rest_of rows)
  IsWritten-rest_of [] h = tt
  IsWritten-rest_of (r ∷ rest) h = h.1

-- Where what was written can be read.
module _ {A : Type 0} (stringify : A → Text) (parse : Text → Option A)
    (reads : (a : A) → parse (stringify a) ≡ some a) where
  abbrev pub IsTable : List Row → Type 0
  IsTable rows = IsIncreasing rows × IsWritten stringify rows

  parse-some :
      (r : Row)
      → (a : A) × (r.payload_json ≡ stringify a)
      → (a : A) × (parse r.payload_json ≡ some a)
  parse-some r (a, e) = (a, ap parse e ∙ reads a)

  add_parsed-append :
      (o : Option A) (l : List A) (a : A) {m : List A}
      → m ≡ l ++ a ∷ []
      → add_parsed stringify parse o m ≡ add_parsed stringify parse o l ++ a ∷ []
  add_parsed-append none l a e = e
  add_parsed-append (some b) l a e = ap (λ k. b ∷ k) e

  elements-append :
      (rows : List Row) (n : ℕ) (a : A)
      → elements stringify parse (rows ++ record { id = n; payload_json = stringify a } ∷ [])
        ≡ elements stringify parse rows ++ a ∷ []
  elements-append [] n a = rw (reads a) refl
  elements-append (r ∷ rows) n a =
      add_parsed-append (parse r.payload_json) (elements stringify parse rows) a
        (elements-append rows n a)

  pub push_row-IsTable :
      (a : A) (rows : List Row) → IsTable rows → IsTable (push_row stringify parse a rows)
  unfolding push_row
  push_row-IsTable a rows (i, w) = (
    IsIncreasing-append rows _ i (next_id-Below rows),
    IsWritten-append stringify rows (next_id rows) a w,
  )

  pub elements-push_row :
      (a : A) (rows : List Row)
      → elements stringify parse (push_row stringify parse a rows)
        ≡ elements stringify parse rows ++ a ∷ []
  unfolding push_row
  elements-push_row a rows = elements-append rows (next_id rows) a

  first_parsed :
      (o : Option A) (l : List A) (a : A) → o ≡ some a → o ≡ first (add_parsed stringify parse o l)
  first_parsed none l a e = absurd (ground arith)
  first_parsed (some b) l a e = refl

  pub peek_row-elements :
      (rows : List Row)
      → IsTable rows
      → peek_row stringify parse rows ≡ first (elements stringify parse rows)
  unfolding peek_row parse_row
  peek_row-elements [] h = refl
  peek_row-elements (r ∷ rest) (i, w) =
      let p = parse-some r w.0 in
      ap (parse_row stringify parse) (oldest-first (r ∷ rest) i)
      ∙ first_parsed (parse r.payload_json) (elements stringify parse rest) p.0 p.1

  commit_pop-some :
      (before after : List Row) (o : Option A) (a : A)
      → o ≡ some a
      → commit_pop stringify parse before after o ≡ (o, after)
  unfolding commit_pop
  commit_pop-some before after none a e = absurd (ground arith)
  commit_pop-some before after (some b) a e = refl

  pop_row-rest :
      (r : Row) (rest : List Row)
      → IsTable (r ∷ rest)
      → pop_row stringify parse (r ∷ rest) ≡ (parse r.payload_json, rest)
  unfolding pop_row pop_found
  pop_row-rest r rest (i, w) =
      let p = parse-some r w.0 in
      ap (pop_found stringify parse (r ∷ rest)) (oldest-first (r ∷ rest) i)
      ∙ commit_pop-some (r ∷ rest) (delete_row r.id (r ∷ rest)) (parse r.payload_json) p.0 p.1
      ∙ ap (λ l. (parse r.payload_json, l)) (delete_row-first r rest i.0)

  pop_row-empty : pop_row stringify parse [] ≡ (none, [])
  unfolding pop_row pop_found oldest
  pop_row-empty = refl

  rest_of_parsed :
      (o : Option A) (l : List A) (a : A)
      → o ≡ some a
      → l ≡ rest_of (add_parsed stringify parse o l)
  rest_of_parsed none l a e = absurd (ground arith)
  rest_of_parsed (some b) l a e = refl

  -- The table as a queue.
  pub pop_row-elements :
      (rows : List Row)
      → IsTable rows
      → ((pop_row stringify parse rows).0 ≡ first (elements stringify parse rows))
        × (elements stringify parse (pop_row stringify parse rows).1
            ≡ rest_of (elements stringify parse rows))
        × IsTable (pop_row stringify parse rows).1
  pop_row-elements [] h = (
    ap (λ q. q.0) pop_row-empty,
    ap (λ q. elements stringify parse q.1) pop_row-empty,
    subst IsTable (sym (ap (λ q. q.1) pop_row-empty)) h,
  )
  pop_row-elements (r ∷ rest) (i, w) =
      let p = parse-some r w.0 in
      let e = pop_row-rest r rest (i, w) in
      (
        ap (λ q. q.0) e
            ∙ first_parsed (parse r.payload_json) (elements stringify parse rest) p.0 p.1,
        ap (λ q. elements stringify parse q.1) e
            ∙ rest_of_parsed (parse r.payload_json) (elements stringify parse rest) p.0 p.1,
        subst IsTable (sym (ap (λ q. q.1) e)) (i.1, w.1),
      )

  -- `SqliteQueue` implements the interface.
  unfoldable sqlite_queue : Queue A (List Row)
  sqlite_queue = record {
    push = push_row stringify parse;
    peek = peek_row stringify parse;
    pop = pop_row stringify parse;
    contents = elements stringify parse;
    IsValid = IsTable;
    push-IsValid = push_row-IsTable;
    pop-IsValid = λ q h. (pop_row-elements q h).2;
    contents-push = λ a q h. elements-push_row a q;
    peek-contents = peek_row-elements;
    pop-contents = λ q h. (pop_row-elements q h).0;
    contents-pop = λ q h. (pop_row-elements q h).1;
  }

  -- When what was stringified can be parsed again, any calls of the queue on the table return
  -- what they return on the list of its elements, to whose end elements are added and at whose
  -- start they are read and removed.
  pub run_sqlite-list :
      (calls : List (QueueCall A)) (rows : List Row)
      → IsTable rows
      → run_queue
          (push_row stringify parse)
          (peek_row stringify parse)
          (pop_row stringify parse)
          calls
          rows
        ≡ run_list calls (elements stringify parse rows)
  unfolding sqlite_queue
  run_sqlite-list calls rows h = run_queue-contents sqlite_queue calls rows h
