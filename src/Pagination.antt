-- ===== src/Pagination.antt =====
-- packages/common/src/pagination.ts, and the page that the DLQ listing of
-- apps/workflow-service/src/queue/queue.service.ts cuts out of its jobs. Numbers of a query are
-- whole; `Raw` is a field of a query before it is read.
pub mod Params
pub mod Pages
pub mod Query
pub mod Cursors
mod Tests
use forge_gate.Base.{
  ℕ, zero, suc, ◌+◌, min, max, String, Bool, true, false, Option, none, some, List, [], ◌∷◌, length,
  take, drop, ltb, ◌==◌, ◌=ₛ◌, if◌then◌else◌,
}
use forge_gate.Base.Int.{ℤ, pos, negsuc}
use forge_gate.Js.Decimal.{parse_int}

pub data Raw : Type 0 where
  undefined nan : Raw
  number : ℤ → Raw
  text : String → Raw

pub record PaginationQuery : Type 0 where
  pub limit : Raw
  pub skip : Raw
  pub cursor : Option String

pub record PaginationParams : Type 0 where
  pub limit : ℕ
  pub skip : ℕ
  pub cursor : Option String

pub record PaginationMeta : Type 0 where
  pub limit : ℕ
  pub skip : Option ℕ
  pub next_cursor : Option String
  pub has_more : Bool
  pub total_count : Option ℕ

pub record PaginatedResult {ℓ} (T : Type ℓ) : Type ℓ where
  pub items : List T
  pub pagination : PaginationMeta

abbrev pub default_page_size : ℕ
default_page_size = 50

abbrev pub max_page_size : ℕ
max_page_size = 100

-- `none` is `undefined` or `NaN`, which the tests below treat alike.
to_number : Raw → Option ℤ
to_number undefined = none
to_number nan = none
to_number (number z) = some z
to_number (text s) = parse_int s

read_limit : Option ℤ → ℕ
read_limit none = default_page_size
read_limit (some (pos zero)) = default_page_size
read_limit (some (pos n)) = min n max_page_size
read_limit (some (negsuc n)) = default_page_size

read_skip : Option ℤ → ℕ
read_skip none = 0
read_skip (some (pos n)) = n
read_skip (some (negsuc n)) = 0

abbrev read_cursor : Option String → Option String
read_cursor none = none
read_cursor (some c) = if c =ₛ "" then none else some c

unfoldable pub parse_pagination_params : PaginationQuery → PaginationParams
unfolding to_number read_limit read_skip
parse_pagination_params q = record {
  limit = read_limit (to_number q.limit);
  skip = read_skip (to_number q.skip);
  cursor = read_cursor q.cursor;
}

-- `Math.min(Math.max(limit || 50, 1), 100)`
abbrev pub safe_limit : ℕ → ℕ
safe_limit limit = min (max (if limit == 0 then default_page_size else limit) 1) max_page_size

module _ {ℓ} {T : Type ℓ} where
  abbrev pub last? : List T → Option T
  last? [] = none
  last? (x ∷ []) = some x
  last? (x ∷ y ∷ xs) = last? (y ∷ xs)

  -- `getCursorFn(sliced[sliced.length - 1])`
  cursor_of : Option (T → String) → Option T → Option String
  cursor_of none last = none
  cursor_of (some f) none = none
  cursor_of (some f) (some x) = some (f x)

  abbrev total_or_length : Option ℕ → List T → ℕ
  total_or_length none items = length items
  total_or_length (some n) items = n

  unfoldable pub build_paginated_result :
      List T → (limit : ℕ) → Option (T → String) → (total_count skip : Option ℕ) → PaginatedResult T
  unfolding cursor_of
  build_paginated_result items limit get_cursor total_count skip =
      let safe = safe_limit limit in
      let sliced = take safe items in
      if ltb safe (length items)
      then record {
        items = sliced;
        pagination = record {
          limit = safe;
          skip = skip;
          next_cursor = cursor_of get_cursor (last? sliced);
          has_more = true;
          total_count = total_count;
        };
      }
      else record {
        items = items;
        pagination = record {
          limit = safe;
          skip = skip;
          next_cursor = none;
          has_more = false;
          total_count = some (total_or_length total_count items);
        };
      }

  -- The end of `getDlqJobs`: one item more than the limit is cut out at `skip`.
  unfoldable pub page_of : (T → String) → List T → PaginationParams → PaginatedResult T
  page_of get_id mapped p =
      let items = take (p.limit + 1) (drop p.skip mapped) in
      build_paginated_result items p.limit (some get_id) (some (length mapped)) (some p.skip)
