-- ===== src/Paginator/Tests.antt =====
-- Pages of a collection of 41 items.
use somegram_backend.Prelude.{ℕ, ◌≡◌, ◌<◌, ◌≤◌, ◌↔◌, String, some, arith}
use somegram_backend.Paginator.{create, skip}
use somegram_backend.Paginator.Pages.{create-skip}

create-skip_example :
    (p : ℕ) × ((create {T = String} 5 10 41 "items").pages_count ≡ some p)
    × ((skip 5 10 < 41) ↔ (5 ≤ p))
create-skip_example = create-skip {T = String} 41 10 5 "items" (omega arith) (omega arith)
