-- ===== src/Ceremony/Schedule.antt =====
-- The schedule of src/core/ceremony.rs that the phone keeps of an activated policy, its encrypted
-- transactions, and the files of the data directory that hold them.
use anzen.Prelude.{ℕ, String, Bool, true, false, ◌&&◌, Option, List, ◌==◌, nat_eq, string_eq}
use anzen.Bitcoin.{Txid}
use anzen.Storage.{VaultConfig}
use anzen.Crypto.{EncryptedBlob}
use anzen.Ceremony.Types.{ConnectorState}

pub data TransactionKind : Type 0 where
  authorization : TransactionKind
  revocation : TransactionKind

pub data EmergencyTransactionKind : Type 0 where
  trigger : EmergencyTransactionKind
  withdrawal : EmergencyTransactionKind
  cancellation : EmergencyTransactionKind

abbrev pub same_kind : TransactionKind → TransactionKind → Bool
same_kind authorization authorization = true
same_kind authorization revocation = false
same_kind revocation authorization = false
same_kind revocation revocation = true

abbrev pub same_emergency_kind : EmergencyTransactionKind → EmergencyTransactionKind → Bool
same_emergency_kind trigger trigger = true
same_emergency_kind withdrawal withdrawal = true
same_emergency_kind cancellation cancellation = true
same_emergency_kind _ _ = false

-- The files of an epoch's directory `phone/transactions/{txid}`.
pub data EpochFile : Type 0 where
  approved_policy_file : EpochFile
  rollover_file : EpochFile
  allowance_file : (step : ℕ) → TransactionKind → EpochFile
  emergency_file : EmergencyTransactionKind → Txid → EpochFile
  epoch_schedule_file : EpochFile
  activated_file : EpochFile

-- The files of the data directory, by their relative paths.
pub data DataPath : Type 0 where
  config_file : DataPath
  legacy_config_file : DataPath
  phone_device_file : DataPath
  hww_device_file : DataPath
  hww_public_file : DataPath
  schedule_file : DataPath
  epoch_file : (epoch : Txid) → EpochFile → DataPath

abbrev pub same_epoch_file : EpochFile → EpochFile → Bool
same_epoch_file approved_policy_file approved_policy_file = true
same_epoch_file rollover_file rollover_file = true
same_epoch_file (allowance_file s k) (allowance_file t l) = s == t && same_kind k l
same_epoch_file (emergency_file k s) (emergency_file l t) = same_emergency_kind k l && s == t
same_epoch_file epoch_schedule_file epoch_schedule_file = true
same_epoch_file activated_file activated_file = true
same_epoch_file _ _ = false

abbrev pub same_path : DataPath → DataPath → Bool
same_path config_file config_file = true
same_path legacy_config_file legacy_config_file = true
same_path phone_device_file phone_device_file = true
same_path hww_device_file hww_device_file = true
same_path hww_public_file hww_public_file = true
same_path schedule_file schedule_file = true
same_path (epoch_file s f) (epoch_file t g) = s == t && same_epoch_file f g
same_path _ _ = false

pub record EncryptedTransaction : Type 0 where
  pub version : ℕ
  pub step : ℕ
  pub kind : TransactionKind
  pub txid : String
  pub encrypted_psbt : EncryptedBlob

pub record EncryptedEmergencyTransaction : Type 0 where
  pub version : ℕ
  pub kind : EmergencyTransactionKind
  pub txid : String
  pub encrypted_psbt : EncryptedBlob

pub record ScheduleEntry : Type 0 where
  pub step : ℕ
  pub hot_address : String
  pub authorization_file : DataPath
  pub authorization_txid : String
  pub connector : ConnectorState
  pub next_connector : Option ConnectorState

pub record EmergencyAccessSchedule : Type 0 where
  pub amount_sats : ℕ
  pub delay_seconds : ℕ
  pub hot_address : String
  pub trigger_file : DataPath
  pub trigger_txid : String
  pub withdrawal_file : DataPath
  pub withdrawal_txid : String
  pub trigger_connector : ConnectorState
  pub withdrawal_connector : ConnectorState

pub record Schedule : Type 0 where
  pub version : ℕ
  pub rollover_txid : String
  pub controller_descriptor : String
  pub controller_address : String
  pub connector_value_sats : ℕ
  pub monthly_limit_sats : ℕ
  pub monthly_delay_seconds : ℕ
  pub emergency_access_limit_sats : ℕ
  pub entries : List ScheduleEntry
  pub emergency_access : Option EmergencyAccessSchedule

-- `src/core/storage.rs`
pub record DeviceFile : Type 0 where
  pub kind : String
  pub network : String
  pub mnemonic : String
  pub vault_key_index : ℕ

-- A JSON document: the value that it was made of, or a text of another origin.
pub data Json : Type 0 where
  json_config : VaultConfig → Json
  json_schedule : Schedule → Json
  json_device : DeviceFile → Json
  json_transaction : EncryptedTransaction → Json
  json_emergency : EncryptedEmergencyTransaction → Json
  json_text : String → Json
