-- ===== src/Paginator.antt =====
-- libs/paginator/src/paginator.service.ts, and the offset that the repositories compute from a
-- page. Page numbers start at 1. `none` stands for a page count that is no finite number, which
-- JavaScript computes for a page size of 0.
pub mod Pages
mod Tests
use somegram_backend.Prelude.{ℕ, ◌+◌, ◌-◌, ◌*◌, ◌/◌, Option, none, some, ◌==◌, if◌then◌else◌}

pub record Pagination (T : Type 0) : Type 0 where
  pub page_number : ℕ
  pub pages_count : Option ℕ
  pub page_size : ℕ
  pub total_count : ℕ
  pub items : T

-- `Math.ceil(total / size)`
unfoldable pub ceil_div : ℕ → ℕ → Option ℕ
ceil_div total size = if size == 0 then none else some ((total + (size - 1)) / size)

unfoldable pub create : {T : Type 0} → ℕ → ℕ → ℕ → T → Pagination T
unfolding ceil_div
create page_number page_size total_count items = record {
  page_number = page_number;
  page_size = page_size;
  total_count = total_count;
  pages_count = ceil_div total_count page_size;
  items = items;
}

-- `(pageNumber - 1) * pageSize`
unfoldable pub skip : ℕ → ℕ → ℕ
skip page_number page_size = (page_number - 1) * page_size
