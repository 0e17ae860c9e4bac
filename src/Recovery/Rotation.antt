-- ===== src/Recovery/Rotation.antt =====
-- The configuration after a rotation of the phone key, and its renewed policy.
use anzen.Prelude.{
  ℕ, String, Bool, not, ◌&&◌, ◌||◌, some, List, Result, ok, ◌>>=◌, ◌>>◌, bail_if, context, unwrap,
  ◌==◌, ◌!=◌, nat_eq, string_eq, option_eq, length, get_elem?,
}
use anzen.Bitcoin.{Bitcoin, OutPoint, TxOut, Psbt, outpoint_eq, txout_eq}
use anzen.Storage.{VaultConfig}
use anzen.Keys.{Bip32, DeviceKeys, hot_descriptors}
use anzen.Policy.{VaultPolicy}
use anzen.Ceremony.Types.{BatchManifest}
use anzen.Ceremony.Workspace.{read_file}
use anzen.Recovery.Cooperative.{CooperativeSweepPackage}

-- src/core/ceremony.rs; the map of the PSBTs is an association list.
pub record PolicyPackage : Type 0 where
  pub version : ℕ
  pub kind : String
  pub manifest : BatchManifest
  pub psbts : List (String × String)

abbrev pub policy_package_kind : String
policy_package_kind = "vault-policy"

abbrev pub is_supported_policy_package : PolicyPackage → Bool
is_supported_policy_package renewed = renewed.version == 5 && renewed.kind == policy_package_kind

unfoldable pub rotated_config :
    Bitcoin → Bip32 → VaultConfig → DeviceKeys → VaultPolicy → Result VaultConfig
rotated_config lib bip old_config new_phone new_policy = do
  (hot_external, hot_internal) ← hot_descriptors lib bip new_phone
  ok (record {
    version = old_config.version;
    network = old_config.network;
    phone_vault_pubkey = lib.pubkey_to_string new_phone.vault_pubkey;
    hww_vault_pubkey = old_config.hww_vault_pubkey;
    phone_hot_external_descriptor = hot_external;
    phone_hot_internal_descriptor = hot_internal;
    vault_descriptor = new_policy.descriptor;
    vault_address = new_policy.address.text;
    phone_recovery_blocks = old_config.phone_recovery_blocks;
    hww_recovery_blocks = old_config.hww_recovery_blocks;
    monthly_limit_sats = old_config.monthly_limit_sats;
    emergency_access_limit_sats = old_config.emergency_access_limit_sats;
  })

abbrev not_chained : String
not_chained = "renewed vault policy is not chained to the rotation sweep"

module _ (lib : Bitcoin) where
  -- The test that the rollover spends the sweep's output, read from left to right.
  unfoldable pub check_chained : Psbt → Psbt → TxOut → Result (Unit {0})
  check_chained rollover sweep_psbt sweep_output = do
    bail_if (length rollover.unsigned_tx.input != 1 || length rollover.inputs != 1) not_chained
    input ← unwrap (get_elem? rollover.unsigned_tx.input 0)
    let outpoint : OutPoint = record { txid = lib.compute_txid sweep_psbt.unsigned_tx; vout = 0 }
    bail_if (input.previous_output != outpoint) not_chained
    entry ← unwrap (get_elem? rollover.inputs 0)
    bail_if (entry.witness_utxo != some sweep_output) not_chained

  unfoldable pub validate_rotation_policy_binding :
      VaultConfig → VaultConfig → CooperativeSweepPackage → PolicyPackage → Result (Unit {0})
  validate_rotation_policy_binding old_config new_config sweep renewed = do
    bail_if
        (not (is_supported_policy_package renewed)
          || (not renewed.manifest.phone_approved
              || (renewed.manifest.vault_descriptor != new_config.vault_descriptor
                  || (renewed.manifest.vault_address != new_config.vault_address
                      || (renewed.manifest.monthly_limit_sats != old_config.monthly_limit_sats
                          || renewed.manifest.emergency_access_limit_sats
                            != old_config.emergency_access_limit_sats)))))
        "renewed vault policy does not preserve the active policy"
    sweep_psbt ← context (lib.psbt_from_str sweep.psbt) "invalid rotation sweep PSBT"
    sweep_output ←
        context (get_elem? sweep_psbt.unsigned_tx.output 0) "rotation sweep has no output"
    rollover_text ←
        context (read_file renewed.manifest.rollover.psbt_file renewed.psbts)
          "renewed vault policy is missing its rollover PSBT"
    rollover ← context (lib.psbt_from_str rollover_text) "invalid renewed policy rollover PSBT"
    check_chained rollover sweep_psbt sweep_output
