-- ===== src/Ceremony/Templates.antt =====
-- The transactions of a batch without their signatures, and the fees that they pay.
use anzen.Prelude.{
  ℕ, ◌+◌, ◌*◌, Bool, true, false, Option, none, some, List, [], ◌∷◌, ◌++◌, Result, ok, ◌>>=◌,
  replicate,
}
use anzen.Constants.{connector_value_sats, default_fee_rate_sat_vb}
use anzen.Bitcoin.{Bitcoin, Script, OutPoint, TxOut, TxIn, Transaction}
use anzen.Policy.{VaultPolicy, ControllerPolicy, cooperative, phone}
use anzen.Transactions.Vsize.{estimate_policy_vsize}
use anzen.Transactions.Revocation.{unsigned_input, transaction_of}

abbrev pub output_of : ℕ → Script → TxOut
output_of value script = record { value = value; script_pubkey = script }

-- `usize::from(bool)` and `u32::from(bool)`
abbrev pub from_bool : Bool → ℕ
from_bool true = 1
from_bool false = 0

-- `condition.then(|| value)` and `condition.then_some(value)`
abbrev pub then_some {ℓ} : {A : Type ℓ} → Bool → A → Option A
then_some true a = some a
then_some false a = none

abbrev pub rollover_template :
    List TxIn → Option ℕ → ℕ → Script → Script → Bool → Bool → Transaction
rollover_template inputs allowance_value remainder_value vault_script controller_script
      monthly_connector emergency_connector =
    transaction_of inputs (
      elim allowance_value [ none ↦ [] | some value ↦ output_of value vault_script ∷ [] ]
      ++ (output_of remainder_value vault_script
          ∷ replicate (from_bool monthly_connector + from_bool emergency_connector)
              (output_of connector_value_sats controller_script)))

module _ (lib : Bitcoin) where
  -- The two inputs of every presigned transaction.
  abbrev pub child_inputs : OutPoint → ℕ → OutPoint → List TxIn
  child_inputs vault_outpoint sequence connector_outpoint =
      unsigned_input vault_outpoint sequence
      ∷ unsigned_input connector_outpoint lib.sequence_enable_rbf_no_locktime
      ∷ []

  abbrev pub authorization_template :
      OutPoint → OutPoint → ℕ → ℕ → Script → Option (ℕ × Script) → Script → Transaction
  authorization_template vault_outpoint connector_outpoint monthly_limit delay_sequence hot_script
        next_chain controller_script =
      transaction_of (child_inputs vault_outpoint delay_sequence connector_outpoint) (
        output_of monthly_limit hot_script ∷ elim next_chain [
          | none ↦ []
          | some (value, script) ↦
              output_of value script ∷ output_of connector_value_sats controller_script ∷ []
        ])

  abbrev pub emergency_trigger_template :
      OutPoint → OutPoint → ℕ → ℕ → Script → Script → Transaction
  emergency_trigger_template vault_outpoint connector_outpoint staging_value vault_change_value
        vault_script controller_script =
      transaction_of (child_inputs vault_outpoint lib.sequence_max connector_outpoint) (
        output_of staging_value vault_script
        ∷ output_of vault_change_value vault_script
        ∷ output_of connector_value_sats controller_script
        ∷ [])

  abbrev pub emergency_withdrawal_template : OutPoint → OutPoint → ℕ → ℕ → Script → Transaction
  emergency_withdrawal_template vault_outpoint connector_outpoint amount delay_sequence hot_script =
      transaction_of (child_inputs vault_outpoint delay_sequence connector_outpoint)
        (output_of amount hot_script ∷ [])

  -- The fee of a transaction with one vault and one connector input.
  unfoldable pub child_fee : Transaction → VaultPolicy → ControllerPolicy → Result ℕ
  child_fee transaction policy controller = do
    size ←
        estimate_policy_vsize lib transaction policy cooperative (0 ∷ []) controller phone (1 ∷ [])
    ok (size * default_fee_rate_sat_vb)

  -- `OutPoint::null()` is a value of the crate.
  module _ (null : OutPoint) (policy : VaultPolicy) (controller : ControllerPolicy) where
    unfoldable pub authorization_fee : OutPoint → ℕ → ℕ → Script → Bool → Result ℕ
    unfolding child_fee
    authorization_fee outpoint monthly_limit delay_sequence hot_script has_next =
        child_fee
          (authorization_template outpoint null monthly_limit delay_sequence hot_script
            (then_some has_next (1, policy.address.script_pubkey)) controller.address.script_pubkey)
          policy controller

    unfoldable pub emergency_trigger_fee : OutPoint → ℕ → ℕ → Script → Result ℕ
    unfolding child_fee
    emergency_trigger_fee outpoint staging_value vault_change_value vault_script =
        child_fee
          (emergency_trigger_template outpoint null staging_value vault_change_value vault_script
            controller.address.script_pubkey)
          policy controller

    unfoldable pub emergency_withdrawal_fee : OutPoint → ℕ → ℕ → Script → Result ℕ
    unfolding child_fee
    emergency_withdrawal_fee outpoint amount delay_sequence hot_script =
        child_fee (emergency_withdrawal_template outpoint null amount delay_sequence hot_script)
          policy controller
