-- ===== src/HotWallet/Commit.antt =====
-- `activate_policy` of src/hot_wallet/mod.rs around the staging of its epoch.
use anzen.Prelude.{
  Bool, false, ◌&&◌, Option, none, some, Result, bail_if, context, ◌!=◌, nat_eq, if◌then◌else◌,
  ◌>>=◌ as ◌>>>◌,
}
use anzen.Bitcoin.{Bytes, Txid, Transaction}
use anzen.Transactions.Signing.{finalize_vault_psbt}
use anzen.Ceremony.Types.{BatchManifest}
use anzen.Ceremony.Workspace.{Workspace, read_psbt}
use anzen.Ceremony.Approved.{validate_approved_batch}
use anzen.Ceremony.Schedule.{activated_file, epoch_file, schedule_file, phone_device_file, Schedule}
use anzen.Ceremony.Package.{load_manifest}
use anzen.HotWallet.World.{
  Io, ◌>>=◌, ◌>>◌, lift, return, context_of, write_private, exists, broadcast,
}
use anzen.HotWallet.Files.{
  load_config, load_schedule, set_policy_limits, load_device_keys, ensure_backend_network,
}
use anzen.HotWallet.Activate.{Phone, stage_epoch}

abbrev pub differs_from : Txid → Option Txid → Bool
differs_from txid none = false
differs_from txid (some previous) = previous != txid

module _ (phone : Phone) where
  unfoldable pub rollover_of : BatchManifest → Workspace → Result Transaction
  rollover_of manifest batch = read_psbt phone.lib batch manifest.rollover.psbt_file >>> λ psbt.
      finalize_vault_psbt phone.lib psbt

  unfoldable pub previous_epoch : Io (Option Txid)
  previous_epoch = do
    active ← exists schedule_file
    if active
        then (do
          schedule ← load_schedule phone.formats
          previous ←
              lift (context (phone.formats.txid_from_str schedule.rollover_txid) "invalid txid")
          return (some previous))
        else return none

  -- After the broadcast: the marker of the epoch before, the schedule, the limits and the marker.
  unfoldable pub archive_previous : Txid → Option Txid → Io (Unit {0})
  archive_previous txid none = return tt
  archive_previous txid (some previous) =
      let mark : Io (Unit {0}) =
        context_of (write_private (epoch_file previous activated_file) phone.formats.true_text)
          "rollover accepted but archiving the prior epoch failed; retry the same approved policy" in
      let skip : Io (Unit {0}) = return tt in if previous != txid then mark else skip

  unfoldable pub commit_epoch : BatchManifest → Txid → Option Txid → Schedule → Io (Unit {0})
  unfolding archive_previous
  commit_epoch manifest txid previous schedule = do
    archive_previous txid previous
    context_of (write_private schedule_file (phone.formats.schedule_text schedule))
        "rollover accepted but schedule activation failed; retry the same approved policy"
    config ←
        context_of
          (set_policy_limits phone.formats manifest.monthly_limit_sats
            manifest.emergency_access_limit_sats)
          "rollover accepted but saving policy limits failed; retry the same approved policy"
    write_private (epoch_file txid activated_file) phone.formats.true_text

  -- `backend.broadcast(&rollover)` and the comparison of the ids.
  unfoldable pub broadcast_rollover : Transaction → Io (Unit {0})
  broadcast_rollover rollover = do
    txid ← context_of (broadcast phone.backend rollover) "failed to broadcast rollover transaction"
    lift (
        bail_if (txid != phone.lib.compute_txid rollover)
          "chain backend returned an unexpected rollover transaction ID")

  -- What is read and checked before the first write.
  unfoldable pub check_activation :
      Workspace → Io (BatchManifest × Transaction × Option Txid × Bytes)
  unfolding previous_epoch rollover_of
  check_activation batch = do
    config ← load_config phone.formats
    ensure_backend_network phone.backend config
    manifest ← lift (load_manifest phone.formats batch)
    policy ← lift (validate_approved_batch phone.lib config manifest batch)
    keys ← load_device_keys phone.formats phone.lib phone.bip phone_device_file
    rollover ← lift (rollover_of manifest batch)
    let epoch = phone.lib.compute_txid rollover
    previous ← previous_epoch
    activated ← exists (epoch_file epoch activated_file)
    lift (
        bail_if (activated && differs_from epoch previous)
          "this policy epoch has already been superseded; refusing to reactivate it")
    return (manifest, rollover, previous, keys.seed)

  unfoldable pub activate_policy : Workspace → Io Schedule
  unfolding check_activation broadcast_rollover commit_epoch
  activate_policy batch = do
    (manifest, rollover, previous, seed) ← check_activation batch
    schedule ← stage_epoch phone batch manifest rollover seed
    broadcast_rollover rollover
    commit_epoch manifest (phone.lib.compute_txid rollover) previous schedule
    return schedule
