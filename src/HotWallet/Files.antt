-- ===== src/HotWallet/Files.antt =====
-- The files of the data directory as values: src/core/storage.rs and `load_schedule`.
use anzen.Prelude.{ℕ, Option, bail_if, context, ◌!=◌, nat_eq, if◌then◌else◌}
use anzen.Bitcoin.{Bitcoin, network_eq}
use anzen.Storage.{VaultConfig, bitcoin_network, parse_network_name}
use anzen.Keys.{Bip32, DeviceKeys, parse_for_network_at_index}
use anzen.Ceremony.Schedule.{DataPath, config_file, legacy_config_file, schedule_file, Schedule}
use anzen.Ceremony.Package.{Formats}
use anzen.Ceremony.Schedule.{Json}
use anzen.HotWallet.World.{Io, ◌>>=◌, ◌>>◌, lift, return, exists, fs_read, write_private, Backend}

unfoldable pub read_json {ℓ} : {A : Type ℓ} → (Json → Option A) → DataPath → Io A
read_json parse path = do text ← fs_read path; lift (context (parse text) "invalid JSON in {}")

module _ (formats : Formats) where
  unfoldable pub config_path : Io DataPath
  config_path = do
    current ← exists config_file
    legacy ← exists legacy_config_file
    return (if current then config_file else if legacy then legacy_config_file else config_file)

  unfoldable pub load_config : Io VaultConfig
  load_config = do path ← config_path; read_json formats.config_from path

  unfoldable pub set_policy_limits : ℕ → ℕ → Io VaultConfig
  set_policy_limits monthly_limit_sats emergency_access_limit_sats = do
    config ← load_config
    let limited : VaultConfig = record config {
      monthly_limit_sats = monthly_limit_sats;
      emergency_access_limit_sats = emergency_access_limit_sats;
    }
    path ← config_path
    write_private path (formats.config_text limited)
    return limited

  unfoldable pub load_schedule : Io Schedule
  load_schedule = do
    schedule ← read_json formats.schedule_from schedule_file
    lift (
        bail_if (schedule.version != 5)
          "unsupported active policy version; approve a new vault policy")
    return schedule

  unfoldable pub load_device_keys : Bitcoin → Bip32 → DataPath → Io DeviceKeys
  load_device_keys lib bip path = do
    file ← read_json formats.device_from path
    network ← lift (parse_network_name file.network)
    lift (parse_for_network_at_index lib bip file.mnemonic network file.vault_key_index)

-- The networks agree by name.
unfoldable pub ensure_backend_network : Backend → VaultConfig → Io (Unit {0})
ensure_backend_network backend config = do
  expected ← lift (bitcoin_network config)
  lift (
      bail_if (backend.network != expected)
        "chain backend network {} does not match vault network {}")
