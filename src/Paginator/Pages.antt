-- ===== src/Paginator/Pages.antt =====
-- The page count against the offsets at which the repositories read.
use somegram_backend.Prelude.{ℕ, ◌+◌, ◌*◌, ◌/◌, ◌-◌, ◌≤◌, ◌<◌, ◌≡◌, ◌↔◌, some, arith}
use somegram_backend.Paginator.{create, skip}

-- The quotient rounded up, by the two inequalities that single it out.
ceil_lem :
    (total size q : ℕ) → 1 ≤ size → (q * size < total) ↔ (q + 1 ≤ (total + (size - 1)) / size)
ceil_lem total size q h = (λ less. grind arith, λ less. grind arith)

-- With a page size of at least 1 the page count is a number, and page `n`, counted from 1, begins
-- before the end of the collection exactly when `n` is at most that number.
pub create-skip :
    {T : Type 0} (total size n : ℕ) (items : T)
    → 1 ≤ size
    → 1 ≤ n
    → (p : ℕ) × ((create n size total items).pages_count ≡ some p)
      × ((skip n size < total) ↔ (n ≤ p))
unfolding create skip
create-skip total size n items hs hn =
    let (enough, needed) = ceil_lem total size (n - 1) hs in
    (
      (total + (size - 1)) / size,
      ground arith,
      (λ less. omega (arith, enough less), λ le. needed (omega arith)),
    )
