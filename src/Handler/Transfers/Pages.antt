-- ===== src/Handler/Transfers/Pages.antt =====
-- The bounds of the page that a query asks for.
use weave_server.Prelude.{String, Option, arith}
use weave_server.Prelude.Int.{ℤ, pos, ◌≤ℤ◌}
use weave_server.Handler.Response.{parse_pagination}

-- Whatever the query says, where the defaults are positive numbers, the page is at least 1, and a page
-- has from 1 to 100 rows.
pub parse_pagination_bounds :
    (atoi : String → Option ℤ) (page per_page : String) (default_page default_per_page : ℤ)
    → pos 1 ≤ℤ default_page
    → pos 1 ≤ℤ default_per_page
    → let (p, n) = parse_pagination atoi page per_page default_page default_per_page in
      (pos 1 ≤ℤ p) × (pos 1 ≤ℤ n) × (n ≤ℤ pos 100)
unfolding parse_pagination
parse_pagination_bounds atoi page per_page default_page default_per_page h k = ground arith
