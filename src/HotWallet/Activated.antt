-- ===== src/HotWallet/Activated.antt =====
-- What a completed activation leaves on the disk.
use anzen.Prelude.{
  ℕ, ◌≡◌, refl, Bool, true, false, Option, none, some, ◌∷◌, ok, arith, ◌!=◌, nat_eq, if◌then◌else◌,
}
use anzen.Bitcoin.{Txid}
use anzen.Storage.{VaultConfig}
use anzen.Ceremony.Types.{BatchManifest}
use anzen.Ceremony.Schedule.{
  DataPath, schedule_file, config_file, legacy_config_file, epoch_file, activated_file, Schedule,
}
use anzen.Ceremony.Schedule.{Json}
use anzen.HotWallet.World.{
  World, ◌>>=◌, lift, return, context_of, Disk, lookup, write_private, exists,
}
use anzen.HotWallet.Files.{set_policy_limits, config_path}
use anzen.HotWallet.Activate.{Phone}
use anzen.HotWallet.Commit.{archive_previous, commit_epoch}
use anzen.HotWallet.Respects.{load_config-Reads}
use anzen.HotWallet.Steps.{bind-ok, write_private-ok, context_of-ok}

module _ (phone : Phone) where
  abbrev pub limited : VaultConfig → BatchManifest → VaultConfig
  limited config manifest = record config {
    monthly_limit_sats = manifest.monthly_limit_sats;
    emergency_access_limit_sats = manifest.emergency_access_limit_sats;
  }

  -- The configuration's file, of the two names that it can have.
  abbrev pub config_at : Disk → DataPath
  config_at files = elim (lookup config_file files) [
    | some text ↦ config_file
    | none ↦ elim (lookup legacy_config_file files) [
      | some text ↦ legacy_config_file
      | none ↦ config_file
    ]
  ]

  pub config_path-run : (w : World) → config_path phone.formats w ≡ (w, ok (config_at w.files))
  unfolding config_path ◌>>=◌ exists lift
  config_path-run w = ground arith

  set_policy_limits-ok :
      (monthly emergency : ℕ) (w : World) (config : VaultConfig)
      → (set_policy_limits phone.formats monthly emergency w).1 ≡ ok config
      → (set_policy_limits phone.formats monthly emergency w).0.files
        ≡ (config_at w.files, phone.formats.config_text config) ∷ w.files
  unfolding set_policy_limits lift ◌>>=◌
  set_policy_limits-ok monthly emergency w config h =
      let reads = (load_config-Reads phone.formats).respects w in
      let run = config_path-run w in grind (arith, write_private-ok)

  set_policy_limits-limits :
      (monthly emergency : ℕ) (w : World) (config : VaultConfig)
      → (set_policy_limits phone.formats monthly emergency w).1 ≡ ok config
      → (config.monthly_limit_sats ≡ monthly) × (config.emergency_access_limit_sats ≡ emergency)
  unfolding set_policy_limits lift ◌>>=◌
  set_policy_limits-limits monthly emergency w config h = (ground arith, ground arith)

  abbrev pub archived : Txid → Option Txid → Disk → Disk
  archived txid none files = files
  archived txid (some previous) files =
      if previous != txid
      then (epoch_file previous activated_file, phone.formats.true_text) ∷ files
      else files

  config_at-archived :
      (txid : Txid) (previous : Option Txid) (text : Json) (files : Disk)
      → config_at ((schedule_file, text) ∷ archived txid previous files) ≡ config_at files
  config_at-archived txid none text files = refl
  config_at-archived txid (some previous) text files = ground arith

  marked-ok :
      (test : Bool) (previous : Txid) (w : World) (done : Unit {0})
      → ((if test
            then context_of
                (write_private (epoch_file previous activated_file) phone.formats.true_text)
                "rollover accepted but archiving the prior epoch failed; retry the same approved policy"
            else return tt)
          w).1
        ≡ ok done
      → ((if test
            then context_of
                (write_private (epoch_file previous activated_file) phone.formats.true_text)
                "rollover accepted but archiving the prior epoch failed; retry the same approved policy"
            else return tt)
          w).0.files
        ≡ (if test
            then (epoch_file previous activated_file, phone.formats.true_text) ∷ w.files
            else w.files)
  unfolding lift
  marked-ok true previous w done h =
      let (put, same) =
        context_of-ok (write_private (epoch_file previous activated_file) phone.formats.true_text) _
          w done h in
      let first =
        write_private-ok (epoch_file previous activated_file) phone.formats.true_text w done put in
      cc
  marked-ok false previous w done h = refl

  pub archive_previous-ok :
      (txid : Txid) (previous : Option Txid) (w : World) (done : Unit {0})
      → (archive_previous phone txid previous w).1 ≡ ok done
      → (archive_previous phone txid previous w).0.files ≡ archived txid previous w.files
  unfolding archive_previous lift
  archive_previous-ok txid none w done h = refl
  archive_previous-ok txid (some previous) w done h = marked-ok (previous != txid) previous w done h

  -- The writes of a commit that succeeds, the last first.
  pub commit_epoch-ok :
      (manifest : BatchManifest) (txid : Txid) (previous : Option Txid) (schedule : Schedule)
      (w : World) (done : Unit {0})
      → (commit_epoch phone manifest txid previous schedule w).1 ≡ ok done
      → (config : VaultConfig) × (config.monthly_limit_sats ≡ manifest.monthly_limit_sats)
        × (config.emergency_access_limit_sats ≡ manifest.emergency_access_limit_sats)
        × ((commit_epoch phone manifest txid previous schedule w).0.files
            ≡ (epoch_file txid activated_file, phone.formats.true_text)
              ∷ (config_at w.files, phone.formats.config_text config)
              ∷ (schedule_file, phone.formats.schedule_text schedule)
              ∷ archived txid previous w.files)
  unfolding commit_epoch
  commit_epoch-ok manifest txid previous schedule w done h =
      let (u1, ok1, h1, e1) = bind-ok (archive_previous phone txid previous) _ w h in
      let w1 = (archive_previous phone txid previous w).0 in
      let (u2, ok2, h2, e2) =
        bind-ok
          (context_of (write_private schedule_file (phone.formats.schedule_text schedule))
            "rollover accepted but schedule activation failed; retry the same approved policy")
          _ w1 h1 in
      let w2 =
        (context_of (write_private schedule_file (phone.formats.schedule_text schedule))
          "rollover accepted but schedule activation failed; retry the same approved policy"
          w1).0 in
      let (config, ok3, h3, e3) =
        bind-ok
          (context_of
            (set_policy_limits phone.formats manifest.monthly_limit_sats
              manifest.emergency_access_limit_sats)
            "rollover accepted but saving policy limits failed; retry the same approved policy")
          _ w2 h2 in
      let (put, same) =
        context_of-ok (write_private schedule_file (phone.formats.schedule_text schedule)) _ w1 u2
          ok2 in
      let (set, after) =
        context_of-ok
          (set_policy_limits phone.formats manifest.monthly_limit_sats
            manifest.emergency_access_limit_sats)
          _ w2 config ok3 in
      let (monthly, emergency) =
        set_policy_limits-limits manifest.monthly_limit_sats manifest.emergency_access_limit_sats w2
          config set in
      let at = config_at-archived txid previous (phone.formats.schedule_text schedule) w.files in
      let first = archive_previous-ok txid previous w u1 ok1 in
      let second =
        write_private-ok schedule_file (phone.formats.schedule_text schedule) w1 u2 put in
      let third =
        set_policy_limits-ok manifest.monthly_limit_sats manifest.emergency_access_limit_sats w2
          config set in
      let fourth =
        write_private-ok (epoch_file txid activated_file) phone.formats.true_text
          (context_of
            (set_policy_limits phone.formats manifest.monthly_limit_sats
              manifest.emergency_access_limit_sats)
            "rollover accepted but saving policy limits failed; retry the same approved policy"
            w2).0
          done h3 in
      (config, monthly, emergency, cc)
