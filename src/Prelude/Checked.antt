-- ===== src/Prelude/Checked.antt =====
-- `u64` arithmetic: `checked_add`, `checked_sub`, `checked_mul` and the saturating versions.
use Prim.Native.Nat.{ℕ, ◌+◌, ◌-◌, ◌*◌}
use mathlib.Core.Option.{Option, none, some}
use anzen.Prelude.Equality.{ltb, leb, if◌then◌else◌}

abbrev pub u64_limit : ℕ
u64_limit = 18446744073709551616

unfoldable pub checked_add : ℕ → ℕ → Option ℕ
checked_add a b = if ltb (a + b) u64_limit then some (a + b) else none

unfoldable pub checked_sub : ℕ → ℕ → Option ℕ
checked_sub a b = if leb b a then some (a - b) else none

unfoldable pub checked_mul : ℕ → ℕ → Option ℕ
checked_mul a b = if ltb (a * b) u64_limit then some (a * b) else none

unfoldable pub saturating_add : ℕ → ℕ → ℕ
saturating_add a b = if ltb (a + b) u64_limit then a + b else u64_limit - 1

-- `u64::saturating_sub` stops at 0, as `-` on ℕ does.
abbrev pub saturating_sub : ℕ → ℕ → ℕ
saturating_sub a b = a - b
