-- ===== src/Prelude/Results.antt =====
-- `anyhow::Result` with a Rust panic as an outcome of its own. An error carries the source's
-- message template, without the values that the source interpolates.
use Prim.Native.String.{String}
use mathlib.Core.Path.{◌≡◌, refl}
use mathlib.Core.Bool.{Bool, true, false}
use mathlib.Core.Option.{Option, none, some}

pub data Result {ℓ} (Value : Type ℓ) : Type ℓ where
  panic : Result Value
  ok : Value → Result Value
  err : (message : String) → Result Value

module _ {ℓ κ} {Value : Type ℓ} {Next : Type κ} where
  infixl 5 ◌>>=◌
  -- `outcome?` before the rest of a function
  abbrev pub ◌>>=◌ : Result Value → (Value → Result Next) → Result Next
  panic >>= rest = panic
  err message >>= rest = err message
  ok value >>= rest = rest value

  -- A sequence that returns has a first part that returns, with a value for the rest.
  pub >>=-eq-ok :
      (outcome : Result Value) (rest : Value → Result Next) {next : Next}
      → (outcome >>= rest) ≡ ok next
      → (value : Value) × (outcome ≡ ok value) × (rest value ≡ ok next)
  >>=-eq-ok panic rest returns = cc
  >>=-eq-ok (err message) rest returns = cc
  >>=-eq-ok (ok value) rest returns = (value, refl, returns)

infixl 5 ◌>>◌
abbrev pub ◌>>◌ {κ} : {Next : Type κ} → Result (Unit {0}) → Result Next → Result Next
check >> rest = check >>= λ passed. rest

-- `if test { bail!(message) }`
abbrev pub bail_if : Bool → String → Result (Unit {0})
bail_if test message = elim test [ true ↦ err message | false ↦ ok tt ]

module _ {ℓ} {Value : Type ℓ} where
  -- `.context(message)?` on an `Option`
  abbrev pub context : Option Value → String → Result Value
  context none message = err message
  context (some value) message = ok value

  -- `.unwrap()` and indexing
  abbrev pub unwrap : Option Value → Result Value
  unwrap none = panic
  unwrap (some value) = ok value
