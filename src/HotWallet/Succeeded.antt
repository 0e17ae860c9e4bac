-- ===== src/HotWallet/Succeeded.antt =====
-- A completed activation is the active one, and the epoch before it cannot return.
use anzen.Prelude.{◌≡◌, ap, sym, subst, ◌∙◌, Option, none, some, ◌∷◌, ok, arith, nat_eq}
use anzen.Bitcoin.{Bytes, Txid, Transaction}
use anzen.Storage.{VaultConfig}
use anzen.Ceremony.Types.{BatchManifest}
use anzen.Ceremony.Workspace.{Workspace}
use anzen.Ceremony.Schedule.{schedule_file, phone_device_file, epoch_file, activated_file, Schedule}
use anzen.Ceremony.Package.{load_manifest}
use anzen.Ceremony.Schedule.{Json}
use anzen.HotWallet.World.{World, ◌>>=◌, lift, Disk, lookup, exists}
use anzen.HotWallet.Files.{ensure_backend_network}
use anzen.HotWallet.Respects.{load_config-Reads, load_device_keys-Reads}
use anzen.HotWallet.Activate.{Phone, stage_epoch}
use anzen.HotWallet.Commit.{
  rollover_of, previous_epoch, commit_epoch, broadcast_rollover, check_activation, activate_policy,
}
use anzen.HotWallet.Intact.{check_activation-Reads, check_activation-ok}
use anzen.HotWallet.Steps.{bind-ok, read-ok}
use anzen.HotWallet.Activated.{archived, config_at, commit_epoch-ok}

module _ (phone : Phone) where
  pub stage_epoch-ok :
      (batch : Workspace) (manifest : BatchManifest) (rollover : Transaction) (seed : Bytes)
      (w : World) (schedule : Schedule)
      → (stage_epoch phone batch manifest rollover seed w).1 ≡ ok schedule
      → (schedule.version ≡ 5)
        × (schedule.rollover_txid ≡ phone.lib.txid_to_string (phone.lib.compute_txid rollover))
        × (schedule.monthly_limit_sats ≡ manifest.monthly_limit_sats)
        × (schedule.emergency_access_limit_sats ≡ manifest.emergency_access_limit_sats)
  unfolding stage_epoch ◌>>=◌ lift
  stage_epoch-ok batch manifest rollover seed w schedule h =
      (ground arith, ground arith, ground arith, ground arith)

  pub record Active (batch : Workspace) (before after : World) (schedule : Schedule) : Type 0 where
    pub manifest : BatchManifest
    pub rollover : Transaction
    pub loaded : load_manifest phone.formats batch ≡ ok manifest
    pub finalized : rollover_of phone manifest batch ≡ ok rollover
    -- the schedule is the one of the rollover and of its limits, and the active one
    pub versioned : schedule.version ≡ 5
    pub named : schedule.rollover_txid ≡ phone.lib.txid_to_string (phone.lib.compute_txid rollover)
    pub monthly : schedule.monthly_limit_sats ≡ manifest.monthly_limit_sats
    pub emergency : schedule.emergency_access_limit_sats ≡ manifest.emergency_access_limit_sats
    pub replaced : lookup schedule_file after.files ≡ some (phone.formats.schedule_text schedule)
    -- the markers of the epoch and of the one before it
    pub marked :
        lookup (epoch_file (phone.lib.compute_txid rollover) activated_file) after.files
        ≡ some phone.formats.true_text
    pub archives :
        (previous : Txid)
        → (previous_epoch phone before).1 ≡ ok (some previous)
        → lookup (epoch_file previous activated_file) after.files ≡ some phone.formats.true_text
    -- the limits of the configuration
    pub config : VaultConfig
    pub limit : config.monthly_limit_sats ≡ manifest.monthly_limit_sats
    pub access : config.emergency_access_limit_sats ≡ manifest.emergency_access_limit_sats
    pub saved :
        lookup (config_at phone after.files) after.files ≡ some (phone.formats.config_text config)

  pub check_activation-previous :
      (batch : Workspace) (w : World) (manifest : BatchManifest) (rollover : Transaction)
      (previous : Option Txid) (seed : Bytes)
      → (check_activation phone batch w).1 ≡ ok (manifest, rollover, previous, seed)
      → (previous_epoch phone w).1 ≡ ok previous
  unfolding check_activation ensure_backend_network ◌>>=◌ lift exists
  check_activation-previous batch w manifest rollover previous seed h =
      let reads_config = (load_config-Reads phone.formats).respects w in
      let reads_keys =
        (load_device_keys-Reads phone.formats phone.lib phone.bip phone_device_file).respects w in
      grind arith

  config_at-committed :
      (txid : Txid) (previous : Option Txid) (text config marker : Json) (files : Disk)
      → lookup
          (config_at phone (
            (epoch_file txid activated_file, marker)
            ∷ (config_at phone files, config)
            ∷ (schedule_file, text)
            ∷ archived phone txid previous files))
          ((epoch_file txid activated_file, marker)
            ∷ (config_at phone files, config)
            ∷ (schedule_file, text)
            ∷ archived phone txid previous files)
        ≡ some config
  config_at-committed txid none text config marker files = ground arith
  config_at-committed txid (some previous) text config marker files = ground arith

  schedule-committed :
      (txid : Txid) (previous : Option Txid) (text config marker : Json) (files : Disk)
      → lookup schedule_file (
          (epoch_file txid activated_file, marker)
          ∷ (config_at phone files, config)
          ∷ (schedule_file, text)
          ∷ archived phone txid previous files)
        ≡ some text
  schedule-committed txid previous text config marker files = ground arith

  archived-marked :
      (txid previous : Txid) (config text : Json) (files : Disk)
      → lookup (epoch_file previous activated_file) (
          (epoch_file txid activated_file, phone.formats.true_text)
          ∷ (config_at phone files, config)
          ∷ (schedule_file, text)
          ∷ archived phone txid (some previous) files)
        ≡ some phone.formats.true_text
  archived-marked txid previous config text files = ground arith

  -- A commit on the world that the broadcast leaves makes the epoch the active one.
  committed-Active :
      (batch : Workspace) (before w : World) (manifest : BatchManifest) (rollover : Transaction)
      (previous : Option Txid) (schedule : Schedule) (done : Unit {0})
      → load_manifest phone.formats batch ≡ ok manifest
      → rollover_of phone manifest batch ≡ ok rollover
      → (previous_epoch phone before).1 ≡ ok previous
      → (schedule.version ≡ 5)
        × (schedule.rollover_txid ≡ phone.lib.txid_to_string (phone.lib.compute_txid rollover))
        × (schedule.monthly_limit_sats ≡ manifest.monthly_limit_sats)
        × (schedule.emergency_access_limit_sats ≡ manifest.emergency_access_limit_sats)
      → (commit_epoch phone manifest (phone.lib.compute_txid rollover) previous schedule w).1
        ≡ ok done
      → Active batch before
          (commit_epoch phone manifest (phone.lib.compute_txid rollover) previous schedule w).0
          schedule
  committed-Active batch before w manifest rollover previous schedule done loaded finalized was
        fields h =
      let txid = phone.lib.compute_txid rollover in
      let (config, limit, access, files) =
        commit_epoch-ok phone manifest txid previous schedule w done h in
      let text = phone.formats.schedule_text schedule in
      let saved =
        config_at-committed txid previous text (phone.formats.config_text config)
          phone.formats.true_text w.files in
      record {
        manifest = manifest;
        rollover = rollover;
        loaded = loaded;
        finalized = finalized;
        versioned = fields.0;
        named = fields.1;
        monthly = fields.2;
        emergency = fields.3;
        replaced =
            ap (lookup schedule_file) files
            ∙ schedule-committed txid previous text (phone.formats.config_text config)
                phone.formats.true_text w.files;
        marked = ap (lookup (epoch_file txid activated_file)) files ∙ grind arith;
        archives = λ old found.
            let same : previous ≡ some old = ground arith in
            ap (lookup (epoch_file old activated_file)) files
            ∙ ap
                (λ p. lookup (epoch_file old activated_file) (
                  (epoch_file txid activated_file, phone.formats.true_text)
                  ∷ (config_at phone w.files, phone.formats.config_text config)
                  ∷ (schedule_file, text)
                  ∷ archived phone txid p w.files))
                same
            ∙ archived-marked txid old (phone.formats.config_text config) text w.files;
        config = config;
        limit = limit;
        access = access;
        saved = ap (λ f. lookup (config_at phone f) f) files ∙ saved;
      }

  -- An activation that completes makes the schedule of its rollover and limits the active one, sets
  -- the limits of the configuration, and marks its epoch and the one that was active before.
  pub activate_policy-Active :
      (batch : Workspace) (w : World) (schedule : Schedule)
      → (activate_policy phone batch w).1 ≡ ok schedule
      → Active batch w (activate_policy phone batch w).0 schedule
  unfolding activate_policy lift
  activate_policy-Active batch w schedule h =
      let (read, checked, h1, e1) = read-ok (check_activation-Reads phone batch) _ w h in
      let (loaded, finalized) =
        check_activation-ok phone batch w read.0 read.1 read.2 read.3 checked in
      let was = check_activation-previous batch w read.0 read.1 read.2 read.3 checked in
      let (made, staged, h2, e2) = bind-ok (stage_epoch phone batch read.0 read.1 read.3) _ w h1 in
      let fields = stage_epoch-ok batch read.0 read.1 read.3 w made staged in
      let two = (stage_epoch phone batch read.0 read.1 read.3 w).0 in
      let (handed, answered, h3, e3) = bind-ok (broadcast_rollover phone read.1) _ two h2 in
      let three = (broadcast_rollover phone read.1 two).0 in
      let (done, committed, h4, e4) =
        bind-ok (commit_epoch phone read.0 (phone.lib.compute_txid read.1) read.2 made) _ three
          h3 in
      let active =
        committed-Active batch w three read.0 read.1 read.2 made done loaded finalized was fields
          committed in
      let four = (commit_epoch phone read.0 (phone.lib.compute_txid read.1) read.2 made three).0 in
      let same : made ≡ schedule = ground arith in
      let world = sym (e1 ∙ e2 ∙ e3 ∙ e4) in
      subst (λ v. Active batch w v schedule) world (subst (λ s. Active batch w four s) same active)
