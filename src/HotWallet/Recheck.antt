-- ===== src/HotWallet/Recheck.antt =====
-- The check of an activation passes again after any attempt.
use anzen.Prelude.{
  ℕ, ◌≡◌, ◌∙◌, ap, sym, refl, inl, inr, false, ◌&&◌, Option, none, some, [], Result, ok, err, arith,
  context, nat_eq,
}
use anzen.Bitcoin.{Bytes, Txid, Transaction}
use anzen.Storage.{VaultConfig, bitcoin_network}
use anzen.Ceremony.Types.{BatchManifest}
use anzen.Ceremony.Workspace.{Workspace}
use anzen.Ceremony.Approved.Limits.{validate_approved_batch-limits}
use anzen.Ceremony.Schedule.{schedule_file, phone_device_file, epoch_file, activated_file, Schedule}
use anzen.Ceremony.Schedule.{Json}
use anzen.HotWallet.World.{World, Disk, ◌>>=◌, lift, lookup, exists, fs_read}
use anzen.HotWallet.Files.{
  config_path, load_config, read_json, load_schedule, load_device_keys, ensure_backend_network,
}
use anzen.HotWallet.Activate.{Phone}
use anzen.HotWallet.Commit.{previous_epoch, differs_from}
use anzen.HotWallet.Superseded.{previous_epoch-run}
use anzen.HotWallet.Resumable.{Resumable, stored_config}
use anzen.HotWallet.Cleared.{Cleared, passes, seed_of, marked, has_text}

module _ (phone : Phone) where
  pub load_config-run :
      (w : World) (text : Json) (config : VaultConfig)
      → stored_config w.files ≡ some text
      → phone.formats.config_from text ≡ some config
      → (load_config phone.formats w).1 ≡ ok config
  unfolding load_config config_path read_json fs_read exists ◌>>=◌ lift
  load_config-run w text config found parsed = grind arith

  abbrev parsed : Option Json → Result VaultConfig
  parsed none = err "failed to read {}"
  parsed (some text) = context (phone.formats.config_from text) "invalid JSON in {}"

  load_config-parsed :
      (w : World) → (load_config phone.formats w).1 ≡ parsed (stored_config w.files)
  unfolding load_config config_path read_json fs_read exists ◌>>=◌ lift
  load_config-parsed w = grind arith

  parsed-ok :
      (stored : Option Json) (config : VaultConfig)
      → parsed stored ≡ ok config
      → (text : Json) × (stored ≡ some text) × (phone.formats.config_from text ≡ some config)
  parsed-ok none config h = cc
  parsed-ok (some text) config h = (text, refl, ground arith)

  pub load_config-text :
      (w : World) (config : VaultConfig)
      → (load_config phone.formats w).1 ≡ ok config
      → (text : Json) × (stored_config w.files ≡ some text)
        × (phone.formats.config_from text ≡ some config)
  load_config-text w config h =
      parsed-ok (stored_config w.files) config (sym (load_config-parsed w) ∙ h)

  load_device_keys-same :
      (u v : World)
      → lookup phone_device_file v.files ≡ lookup phone_device_file u.files
      → (load_device_keys phone.formats phone.lib phone.bip phone_device_file v).1
        ≡ (load_device_keys phone.formats phone.lib phone.bip phone_device_file u).1
  unfolding load_device_keys read_json fs_read ◌>>=◌ lift
  load_device_keys-same u v same = grind arith

  previous_epoch-same :
      (u v : World)
      → lookup schedule_file v.files ≡ lookup schedule_file u.files
      → (previous_epoch phone v).1 ≡ (previous_epoch phone u).1
  unfolding previous_epoch load_schedule read_json fs_read exists ◌>>=◌ lift
  previous_epoch-same u v same = grind arith

  ensure_backend_network-limits :
      (config : VaultConfig) (monthly access : ℕ) (u v : World)
      → (ensure_backend_network phone.backend
          (record config { monthly_limit_sats = monthly; emergency_access_limit_sats = access })
          v).1
        ≡ (ensure_backend_network phone.backend config u).1
  unfolding ensure_backend_network bitcoin_network ◌>>=◌ lift
  ensure_backend_network-limits config monthly access u v = grind arith

  marked-after :
      (rollover : Transaction) (files : Disk)
      → marked phone [] (phone.lib.compute_txid rollover) files
          && differs_from (phone.lib.compute_txid rollover) (some (phone.lib.compute_txid rollover))
        ≡ false
  marked-after rollover files = ground arith

  -- From a world that passed the check, through any attempts, to one that passes it.
  pub Cleared-Resumable :
      ((txid : Txid) → phone.formats.txid_from_str (phone.lib.txid_to_string txid) ≡ some txid)
      → ((schedule : Schedule)
          → phone.formats.schedule_from (phone.formats.schedule_text schedule) ≡ some schedule)
      → (batch : Workspace) (w v : World) (manifest : BatchManifest) (rollover : Transaction)
        (previous : Option Txid) (seed : Bytes)
        (cleared : Cleared phone batch w manifest rollover previous seed)
      → Resumable phone cleared.config
          (lookup phone_device_file w.files)
          (lookup schedule_file w.files)
          (lookup (epoch_file (phone.lib.compute_txid rollover) activated_file) w.files)
          rollover
          v.files
          v.broadcasts
      → (active : Option Txid) × Cleared phone batch v manifest rollover active seed
  Cleared-Resumable parses reads batch w v manifest rollover previous seed cleared held =
      let ((text, monthly, access, found, reparsed), keys, accepts) = held.common in
      let config = cleared.config in
      let limited : VaultConfig = record config {
        monthly_limit_sats = monthly;
        emergency_access_limit_sats = access;
      } in
      let again : (active : Option Txid)
          → (previous_epoch phone v).1 ≡ ok active
          → (marked phone batch (phone.lib.compute_txid rollover) v.files
                && differs_from (phone.lib.compute_txid rollover) active
              ≡ false)
          → Cleared phone batch v manifest rollover active seed =
        λ active was fresh. record {
          config = limited;
          loads = load_config-run v text limited found reparsed;
          network = ensure_backend_network-limits config monthly access w v ∙ cleared.network;
          loaded = cleared.loaded;
          validated =
              ap (passes phone batch)
                (validate_approved_batch-limits phone.lib config monthly access manifest batch)
              ∙ cleared.validated;
          unlocked = ap (seed_of phone batch) (load_device_keys-same w v keys) ∙ cleared.unlocked;
          finalized = cleared.finalized;
          was = was;
          fresh = fresh;
        } in
      elim held.active [
        | inl (schedule, put, version, named) ↦ (
          some (phone.lib.compute_txid rollover),
          again (some (phone.lib.compute_txid rollover))
              (previous_epoch-run phone v schedule (phone.formats.schedule_text schedule)
                (phone.lib.compute_txid rollover) put (reads schedule) version
                (ap phone.formats.txid_from_str named ∙ parses (phone.lib.compute_txid rollover)))
              (marked-after rollover v.files),
        )
        | inr (same_schedule, same_marker) ↦ (
          previous,
          again previous (previous_epoch-same w v same_schedule ∙ cleared.was) (
              ap
                (λ t.
                  has_text phone batch t && differs_from (phone.lib.compute_txid rollover) previous)
                same_marker
              ∙ cleared.fresh),
        )
      ]
