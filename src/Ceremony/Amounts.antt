-- ===== src/Ceremony/Amounts.antt =====
-- The amounts of a batch: checked sums, the value of the allowance chain, the delays.
use anzen.Prelude.{
  ℕ, zero, suc, Option, none, some, List, map, Result, ok, ◌>>=◌, context, checked_add, checked_sub,
  checked_mul,
}
use anzen.Constants.{
  connector_value_sats, emergency_access_delay_seconds, monthly_allowance_delay_seconds,
}
use anzen.Bitcoin.{Bitcoin, TxOut, Transaction}
use anzen.Transactions.Revocation.{VaultUtxo, sum_from, utxo_values}

-- `option.and_then(f)`
abbrev pub and_then {ℓ κ} : {A : Type ℓ} {B : Type κ} → Option A → (A → Option B) → Option B
and_then none f = none
and_then (some a) f = f a

unfoldable pub checked_input_sum : List VaultUtxo → Result ℕ
unfolding sum_from
checked_input_sum utxos = sum_from 0 (utxo_values utxos) "vault input total overflowed"

abbrev pub output_values : List TxOut → List ℕ
output_values = map (λ output. output.value)

unfoldable pub output_sum : Transaction → Result ℕ
unfolding sum_from
output_sum transaction =
    sum_from 0 (output_values transaction.output) "transaction output sum overflowed"

-- `usize` and `u64` have one width, so the conversions of the counts succeed.
unfoldable pub allowance_chain_value : ℕ → ℕ → ℕ → ℕ → Result ℕ
unfolding checked_add checked_sub checked_mul
allowance_chain_value zero monthly_limit continuing_fee final_fee = ok 0
allowance_chain_value (suc previous) monthly_limit continuing_fee final_fee = do
  allowances ← context (checked_mul monthly_limit (suc previous)) "allowance chain value overflowed"
  continuing_fees ← context (checked_mul continuing_fee previous) "allowance chain fees overflowed"
  context
      (and_then (checked_add allowances continuing_fees) (λ value.
        and_then (checked_add value final_fee) (λ value. checked_sub value connector_value_sats)))
      "allowance chain value overflowed"

module _ (lib : Bitcoin) where
  abbrev pub emergency_delay_sequence : Result ℕ
  emergency_delay_sequence =
      context (lib.from_seconds_ceil emergency_access_delay_seconds)
        "emergency access delay cannot be represented by BIP68"

  abbrev pub monthly_delay_sequence : Result ℕ
  monthly_delay_sequence =
      context (lib.from_seconds_ceil monthly_allowance_delay_seconds)
        "monthly allowance delay cannot be represented by BIP68"
