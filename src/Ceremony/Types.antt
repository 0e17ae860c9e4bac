-- ===== src/Ceremony/Types.antt =====
-- The manifest of a policy batch.
use anzen.Prelude.{
  ℕ, String, Bool, Option, none, some, List, [], ◌∷◌, ◌++◌, Eq, map, option_eq, nat_eq,
}
use anzen.Bitcoin.{OutPoint, outpoint_eq, ℕ_discrete}

pub record PolicyLimits : Type 0 where
  pub monthly_limit_sats : ℕ
  pub emergency_access_limit_sats : ℕ

pub record BatchTransaction : Type 0 where
  pub psbt_file : String
  pub unsigned_txid : String
  pub fee_sats : ℕ
  pub vault_input_indexes : List ℕ
  pub controller_input_indexes : List ℕ

pub record ConnectorState : Type 0 where
  pub outpoint : OutPoint
  pub value_sats : ℕ

pub record AllowanceStep : Type 0 where
  pub step : ℕ
  pub delay_seconds : ℕ
  pub delay_sequence : ℕ
  pub chain_value_sats : ℕ
  pub hot_address : String
  pub connector : ConnectorState
  pub next_connector : Option ConnectorState
  pub authorization : BatchTransaction

pub record EmergencyAccessPolicy : Type 0 where
  pub amount_sats : ℕ
  pub delay_seconds : ℕ
  pub delay_sequence : ℕ
  pub hot_address : String
  pub staging_vout : ℕ
  pub staging_value_sats : ℕ
  pub vault_change_vout : ℕ
  pub vault_change_value_sats : ℕ
  pub trigger_connector : ConnectorState
  pub withdrawal_connector : ConnectorState
  pub trigger : BatchTransaction
  pub withdrawal : BatchTransaction

pub record BatchManifest : Type 0 where
  pub version : ℕ
  pub created_at : ℕ
  pub network : String
  pub vault_descriptor : String
  pub vault_address : String
  pub controller_descriptor : String
  pub controller_address : String
  pub connector_value_sats : ℕ
  pub monthly_limit_sats : ℕ
  pub emergency_access_limit_sats : ℕ
  pub fee_rate_sat_vb : ℕ
  pub total_input_sats : ℕ
  pub vault_input_sats : ℕ
  pub controller_input_sats : ℕ
  pub allowance_count : ℕ
  pub rollover : BatchTransaction
  pub allowance_vout : Option ℕ
  pub allowance_value_sats : ℕ
  pub remainder_vout : ℕ
  pub remainder_value_sats : ℕ
  pub monthly_connector_vout : Option ℕ
  pub emergency_connector_vout : Option ℕ
  pub allowances : List AllowanceStep
  pub emergency_access : Option EmergencyAccessPolicy
  pub phone_approved : Bool
  pub hww_approved : Bool

ConnectorState_dec : Discrete ConnectorState
ConnectorState_dec = hlevel (ℕ_discrete, outpoint_eq.dec)

instance unfoldable pub connector_eq : Eq ConnectorState
unfolding ConnectorState_dec ℕ_discrete outpoint_eq
connector_eq = record { dec = ConnectorState_dec }

unfoldable pub manifest_transactions : BatchManifest → List BatchTransaction
manifest_transactions manifest =
    manifest.rollover
    ∷ (map (λ allowance. allowance.authorization) manifest.allowances
        ++ elim manifest.emergency_access [
          | none ↦ []
          | some emergency ↦ emergency.trigger ∷ emergency.withdrawal ∷ []
        ])
