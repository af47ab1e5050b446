-- ===== src/Pagination/Params.antt =====
-- The limits of a page, whatever the query says.
use forge_gate.Base.{ℕ, zero, suc, ◌≤◌, min, ◌≡◌, some, none, arith}
use forge_gate.Base.{Option}
use forge_gate.Base.Int.{ℤ, pos, negsuc}
use forge_gate.Js.Decimal.{show}
use forge_gate.Js.Decimal.RoundTrip.{parse_int-show}
use forge_gate.Pagination.{
  PaginationQuery, text, read_limit, to_number, parse_pagination_params, max_page_size,
}

read_limit_bounds : (z : Option ℤ) → (1 ≤ read_limit z) × (read_limit z ≤ max_page_size)
unfolding read_limit
read_limit_bounds none = omega arith
read_limit_bounds (some (pos zero)) = omega arith
read_limit_bounds (some (pos (suc n))) = omega arith
read_limit_bounds (some (negsuc n)) = omega arith

-- The limit of a page lies between 1 and 100 for every query.
pub parse_pagination_params_bounds :
    (q : PaginationQuery)
    → (1 ≤ (parse_pagination_params q).limit) × ((parse_pagination_params q).limit ≤ max_page_size)
unfolding parse_pagination_params
parse_pagination_params_bounds q = read_limit_bounds (to_number q.limit)

-- A limit and a skip in decimal digits, as a URL carries them, are read as these numbers; only a
-- limit above 100 is cut to 100.
pub parse_pagination_params-show :
    (q : PaginationQuery) (n k : ℕ)
    → q.limit ≡ text (show (suc n))
    → q.skip ≡ text (show k)
    → ((parse_pagination_params q).limit ≡ min (suc n) max_page_size)
      × ((parse_pagination_params q).skip ≡ k)
unfolding parse_pagination_params
parse_pagination_params-show q n k l s =
    (rw l (rw (parse_int-show (suc n))), rw s (rw (parse_int-show k)))
