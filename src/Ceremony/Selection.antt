-- ===== src/Ceremony/Selection.antt =====
-- How `build_policy_proposal_with_connectors` of src/core/ceremony.rs chooses the number of
-- allowances, the rollover's fee and its remainder.
pub mod Largest
pub mod Chosen
use anzen.Prelude.{
  ℕ, zero, suc, ◌+◌, ◌-◌, ◌*◌, String, Bool, Option, none, some, List, Result, ok, ◌>>=◌, ◌>>◌,
  bail_if, context, ltb, leb, if◌then◌else◌, checked_add, checked_sub,
}
use anzen.Constants.{connector_value_sats, default_fee_rate_sat_vb, months_per_rollover}
use anzen.Bitcoin.{Bitcoin, TxIn, Transaction}
use anzen.Policy.{VaultPolicy, ControllerPolicy, cooperative, phone}
use anzen.Transactions.Vsize.{estimate_policy_vsize}
use anzen.Ceremony.Amounts.{allowance_chain_value, and_then}
use anzen.Ceremony.Templates.{from_bool, rollover_template}

-- `(allowance_count, allowance_value_sats, rollover_fee, remainder_value_sats)`
pub record Selected : Type 0 where
  pub allowance_count : ℕ
  pub allowance_value_sats : ℕ
  pub rollover_fee : ℕ
  pub remainder_value_sats : ℕ

-- The variables of the function that the choice reads.
pub record Budget : Type 0 where
  pub input_template : List TxIn
  pub vault_input_indexes : List ℕ
  pub controller_input_indexes : List ℕ
  pub monthly_limit_sats : ℕ
  pub emergency_access_limit_sats : ℕ
  pub continuing_authorization_fee : ℕ
  pub final_authorization_fee : ℕ
  pub total_input_sats : ℕ
  pub minimum_remainder_value : ℕ

abbrev pub emergency_enabled : Budget → Bool
emergency_enabled budget = ltb 0 budget.emergency_access_limit_sats

module _ (lib : Bitcoin) (policy : VaultPolicy) (controller : ControllerPolicy)
    (budget : Budget) where
  -- The fee of the rollover's template, with or without an allowance chain.
  unfoldable pub rollover_fee : Option ℕ → Bool → Result ℕ
  rollover_fee allowance_value monthly_connector = do
    let template =
        rollover_template budget.input_template allowance_value 1 policy.address.script_pubkey
          controller.address.script_pubkey monthly_connector (emergency_enabled budget)
    size ←
        estimate_policy_vsize lib template policy cooperative budget.vault_input_indexes controller
          phone budget.controller_input_indexes
    ok (size * default_fee_rate_sat_vb)

  abbrev pub chain_value : ℕ → Result ℕ
  chain_value count =
      allowance_chain_value count budget.monthly_limit_sats budget.continuing_authorization_fee
        budget.final_authorization_fee

  -- The loop over the counts, from `count` down to 1; `none` is no count that can be funded.
  unfoldable pub select_rollover : ℕ → Result (Option Selected)
  unfolding checked_add
  select_rollover zero = ok none
  select_rollover (suc count) = do
    let fewer = select_rollover count
    allowance_value ← chain_value (suc count)
    fee ← rollover_fee (some allowance_value) Bool.true
    let connectors = connector_value_sats * (1 + from_bool (emergency_enabled budget))
    required ←
        context
          (and_then (checked_add fee allowance_value) (λ value.
            and_then (checked_add value budget.minimum_remainder_value)
              (λ value. checked_add value connectors)))
          "allowance rollover requirement overflowed"
    if leb required budget.total_input_sats
        then ok (
            some (record {
              allowance_count = suc count;
              allowance_value_sats = allowance_value;
              rollover_fee = fee;
              remainder_value_sats = budget.total_input_sats - fee - allowance_value - connectors;
            }))
        else fewer

  -- The rollover without allowances.
  unfoldable pub select_none : Result Selected
  unfolding checked_sub
  select_none = do
    fee ← rollover_fee none Bool.false
    remainder ←
        context
          (and_then (checked_sub budget.total_input_sats fee) (λ value.
            checked_sub value (connector_value_sats * from_bool (emergency_enabled budget))))
          "vault balance cannot pay the rollover fee"
    ok (record {
      allowance_count = 0;
      allowance_value_sats = 0;
      rollover_fee = fee;
      remainder_value_sats = remainder;
    })

  abbrev too_small : String
  too_small =
      if emergency_enabled budget
      then "vault balance cannot fund the configured emergency access amount and fees"
      else "vault balance cannot create a non-dust rollover remainder"

  -- The choice and the test of the remainder.
  unfoldable pub choose_rollover : Result Selected
  choose_rollover = do
    funded ←
        if ltb 0 budget.monthly_limit_sats then select_rollover months_per_rollover else ok none
    selected ← elim funded [ none ↦ select_none | some selected ↦ ok selected ]
    bail_if (ltb selected.remainder_value_sats budget.minimum_remainder_value) too_small
    ok selected
