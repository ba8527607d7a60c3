-- ===== src/Protocol/Table.antt =====
-- `SqliteQueue` of validator/src/utils/queue.ts: a queue in a table, in the order of its keys.
use shieldnet.Prelude.{
  ℕ, ◌+◌, List, [], ◌∷◌, ◌++◌, Option, none, some, ltb, not, ◌==◌, max, keep, if◌then◌else◌,
}
use shieldnet.Data.Frost.{Text}

pub record Row : Type 0 where
  pub id : ℕ
  pub payload_json : Text

-- The key that SQLite gives to a new row of a table with an integer primary key.
unfoldable pub next_id : List Row → ℕ
next_id [] = 1
next_id (r ∷ rest) = max (r.id + 1) (next_id rest)

-- `ORDER BY id ASC LIMIT 1`.
unfoldable pub oldest : List Row → Option Row
oldest [] = none
oldest (r ∷ rest) = elim (oldest rest) as (λ _. Option Row) [
  | none ↦ some r
  | some q ↦ if ltb q.id r.id then some q else some r
]

-- `DELETE ... WHERE id = ?`.
unfoldable pub delete_row : ℕ → List Row → List Row
delete_row id rows = keep (λ r. not (r.id == id)) rows

-- `JSON.stringify`, and `JSON.parse` with the schema, which may throw.
module _ {A : Type 0} (stringify : A → Text) (parse : Text → Option A) where
  unfoldable pub push_row : A → List Row → List Row
  unfolding next_id
  push_row a rows = rows ++ record { id = next_id rows; payload_json = stringify a } ∷ []

  unfoldable pub parse_row : Option Row → Option A
  parse_row none = none
  parse_row (some r) = parse r.payload_json

  unfoldable pub peek_row : List Row → Option A
  unfolding oldest parse_row
  peek_row rows = parse_row (oldest rows)

  -- The end of the transaction, which is rolled back where the payload cannot be read.
  unfoldable pub commit_pop : List Row → List Row → Option A → Option A × List Row
  commit_pop before after none = (none, before)
  commit_pop before after (some a) = (some a, after)

  unfoldable pub pop_found : List Row → Option Row → Option A × List Row
  unfolding delete_row commit_pop
  pop_found rows none = (none, rows)
  pop_found rows (some r) = commit_pop rows (delete_row r.id rows) (parse r.payload_json)

  unfoldable pub pop_row : List Row → Option A × List Row
  unfolding oldest pop_found
  pop_row rows = pop_found rows (oldest rows)

  -- The elements of the rows.
  abbrev pub add_parsed : Option A → List A → List A
  add_parsed none rest = rest
  add_parsed (some a) rest = a ∷ rest

  abbrev pub elements : List Row → List A
  elements [] = []
  elements (r ∷ rest) = add_parsed (parse r.payload_json) (elements rest)
