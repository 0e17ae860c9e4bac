-- ===== src/Transactions/Sums.antt =====
-- The checked sums of amounts.
use anzen.Prelude.{
  ℕ, ◌+◌, ◌<◌, ◌≡◌, String, List, [], ◌∷◌, ok, err, arith, ltb, if◌then◌else◌, u64_limit,
}
use anzen.Transactions.Revocation.{sum_from}

abbrev pub sum : List ℕ → ℕ
sum [] = 0
sum (x ∷ xs) = x + sum xs

-- The fold returns the sum, or fails if the sum does not fit.
pub sum_from_lem :
    (total : ℕ) (values : List ℕ) (message : String)
    → total < u64_limit
    → sum_from total values message
      ≡ (if ltb (total + sum values) u64_limit then ok (total + sum values) else err message)
unfolding sum_from
sum_from_lem total [] message h = ground arith
sum_from_lem total (value ∷ values) message h =
    ground (arith, sum_from_lem (total + value) values message)

pub sum_from_zero :
    (values : List ℕ) (message : String)
    → sum_from 0 values message
      ≡ (if ltb (sum values) u64_limit then ok (sum values) else err message)
sum_from_zero values message = ground (arith, sum_from_lem 0 values message (omega arith))
