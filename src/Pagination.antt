-- ===== src/Pagination.antt =====
-- `_CustomPageParams` and `_CustomPage.create` of backend/common/pagination.py. The links are the page
-- numbers that they carry; the quotient `total / size` is exact, as it is below 2 ^ 53 rows.
pub mod Links
use fbapy.Base.{
  ℕ, ◌+◌, ◌-◌, ◌*◌, ◌/◌, Bool, true, false, Option, none, some, List, ltb, leb, if◌then◌else◌, ◌≤◌,
  ◌<◌,
}

pub record PageParams : Type 0 where
  pub page : ℕ
  pub size : ℕ

-- The bounds that the query parameters are validated against.
pub record IsParams (q : PageParams) : Type 0 where
  pub page_positive : 1 ≤ q.page
  pub size_positive : 0 < q.size
  pub size_bounded : q.size ≤ 200

pub record RawParams : Type 0 where
  pub limit : ℕ
  pub offset : ℕ

unfoldable pub to_raw_params : PageParams → RawParams
to_raw_params q = record { limit = q.size; offset = q.size * (q.page - 1) }

pub record PageLinks : Type 0 where
  pub first : ℕ
  pub last : ℕ
  pub next : Option ℕ
  pub prev : Option ℕ

pub record Page (A : Type 0) : Type 0 where
  pub items : List A
  pub total : ℕ
  pub page : ℕ
  pub size : ℕ
  pub total_pages : ℕ
  pub links : PageLinks

-- `ceil(total / size)`
abbrev pub ceil_div : ℕ → ℕ → ℕ
ceil_div total size = (total + (size - 1)) / size

unfoldable pub create : {A : Type 0} → List A → PageParams → ℕ → Page A
create items q total =
    let total_pages = ceil_div total q.size in
    record {
      items = items;
      total = total;
      page = q.page;
      size = q.size;
      total_pages = total_pages;
      links = record {
        first = 1;
        last = if ltb 0 total then total_pages else 1;
        next = if leb (q.page + 1) total_pages then some (q.page + 1) else none;
        prev = if leb 1 (q.page - 1) then some (q.page - 1) else none;
      };
    }
