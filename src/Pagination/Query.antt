-- ===== src/Pagination/Query.antt =====
-- The part that the listings of workflow.service.ts and execution.service.ts share: the arguments of
-- `findMany`, with one row more than the limit, and the page that is made of its rows. The client of
-- a table is a record of commands, with laws for what is documented of them.
use forge_gate.Base.{
  any, ℕ, ◌+◌, String, Bool, true, Option, none, some, List, [], ◌∷◌, ◌≡◌, length, take, drop,
  filter, ◌=ₛ◌, if◌then◌else◌,
}
use forge_gate.Pagination.{PaginationParams, PaginatedResult, build_paginated_result}

pub record FindArgs : Type 0 where
  pub cursor : Option String
  pub skip : ℕ
  pub take_rows : ℕ

-- `count` and `findMany` of a table, with the rows in the order that the listing asks for.
pub record Table (Db Row : Type 0) : Type 0 where
  pub row_id : Row → String
  pub count : (Row → Bool) → Db → ℕ
  pub find_many : (Row → Bool) → FindArgs → Db → List Row

-- The rows from the one with a name on.
abbrev pub since {ℓ} : {A : Type ℓ} → (A → Bool) → List A → List A
since test [] = []
since test (x ∷ xs) = let rest = since test xs in if test x then x ∷ xs else rest

module _ {Db Row : Type 0} where
  pub record Rows (t : Table Db Row) : Type 0 where
    pub rows : Db → List Row
    pub count_lem :
        (filter_of : Row → Bool) (db : Db)
        → t.count filter_of db ≡ length (filter filter_of (rows db))
    pub find_many_lem :
        (filter_of : Row → Bool) (skip n : ℕ) (db : Db)
        → t.find_many filter_of (record { cursor = none; skip = skip; take_rows = n }) db
          ≡ take n (drop skip (filter filter_of (rows db)))
    -- Where the row of the cursor is there and is one of those that are asked for.
    pub find_many_from :
        (filter_of : Row → Bool) (id : String) (skip n : ℕ) (db : Db)
        → any (λ r. t.row_id r =ₛ id) (filter filter_of (rows db)) ≡ true
        → t.find_many filter_of (record { cursor = some id; skip = skip; take_rows = n }) db
          ≡ take n (drop skip (since (λ r. t.row_id r =ₛ id) (filter filter_of (rows db))))

-- A cursor is given with `skip: 1`; without one, the skip of the query is.
unfoldable pub args_of : PaginationParams → FindArgs
args_of p = elim p.cursor [
  | none ↦ record { cursor = none; skip = p.skip; take_rows = p.limit + 1 }
  | some id ↦ record { cursor = some id; skip = 1; take_rows = p.limit + 1 }
]

module _ {Db Row : Type 0} (t : Table Db Row) where
  unfoldable pub page_of_rows : (Row → Bool) → PaginationParams → Db → PaginatedResult Row
  unfolding args_of
  page_of_rows filter_of p db =
      build_paginated_result (t.find_many filter_of (args_of p) db) p.limit (some t.row_id)
        (some (t.count filter_of db)) (some p.skip)
