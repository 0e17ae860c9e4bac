-- ===== src/HotWallet/Resumes.antt =====
-- An activation that was interrupted any number of times succeeds once nothing interrupts it.
use anzen.Prelude.{◌≡◌, ◌∙◌, ap, sym, refl, inr, Option, some, List, [], ◌∷◌, ok, arith}
use anzen.Bitcoin.{Bytes, Txid, Transaction}
use anzen.Storage.{VaultConfig}
use anzen.Ceremony.Types.{BatchManifest}
use anzen.Ceremony.Workspace.{Workspace}
use anzen.Ceremony.Schedule.{schedule_file, phone_device_file, epoch_file, activated_file, Schedule}
use anzen.Ceremony.Package.{load_manifest}
use anzen.Ceremony.Schedule.{Json}
use anzen.HotWallet.World.{World, WriteOutcome, lift, lookup}
use anzen.HotWallet.Activate.{Phone, stage_epoch}
use anzen.HotWallet.Commit.{rollover_of, commit_epoch, broadcast_rollover, activate_policy}
use anzen.HotWallet.Intact.{check_activation-Reads, broadcast_rollover-world, broadcast_rollover-ok}
use anzen.HotWallet.Steps.{bind-ok, bind-run, read-ok, read-run}
use anzen.HotWallet.Staged.{stage_epoch-Staged}
use anzen.HotWallet.Finishes.{Seals}
use anzen.HotWallet.Restage.{stage_epoch-Finishes}
use anzen.HotWallet.Resumable.{Resumable, stored_config, stage-Resumable}
use anzen.HotWallet.Attempts.{activate_policy-Resumable}
use anzen.HotWallet.Cleared.{Cleared, check_activation-Cleared, Cleared-check_activation}
use anzen.HotWallet.Recheck.{load_config-text, Cleared-Resumable}
use anzen.HotWallet.Retry.{broadcast_rollover-run, commit_epoch-Finishes}

module _ (phone : Phone) (batch : Workspace) where
  -- The world after attempts whose writes end as listed.
  abbrev pub attempts : List (List WriteOutcome) → World → World
  attempts [] w = w
  attempts (outcomes ∷ runs) w =
      attempts runs (activate_policy phone batch (record w { outcomes = outcomes })).0

  module _ (seals : Seals phone.ciphers)
      (parses : (txid : Txid)
        → phone.formats.txid_from_str (phone.lib.txid_to_string txid) ≡ some txid)
      (reads : (schedule : Schedule)
        → phone.formats.schedule_from (phone.formats.schedule_text schedule) ≡ some schedule)
      (reparses : (c : VaultConfig)
        → phone.formats.config_from (phone.formats.config_text c) ≡ some c)
      (again : (sent : List Transaction) (rollover : Transaction)
        → phone.backend.broadcast sent rollover ≡ ok (phone.lib.compute_txid rollover)
        → phone.backend.broadcast (rollover ∷ sent) rollover
          ≡ ok (phone.lib.compute_txid rollover)) where
    activate_policy-again :
        (w u v : World) (manifest : BatchManifest) (rollover : Transaction) (previous : Option Txid)
        (seed : Bytes) (schedule : Schedule)
        (cleared : Cleared phone batch w manifest rollover previous seed)
        → Resumable phone cleared.config
            (lookup phone_device_file w.files)
            (lookup schedule_file w.files)
            (lookup (epoch_file (phone.lib.compute_txid rollover) activated_file) w.files)
            rollover
            v.files
            v.broadcasts
        → (stage_epoch phone batch manifest rollover seed u).1 ≡ ok schedule
        → v.outcomes ≡ []
        → (activate_policy phone batch v).1 ≡ ok schedule
    unfolding activate_policy lift
    activate_policy-again w u v manifest rollover previous seed schedule cleared held staged
          unfailing =
        let epoch = phone.lib.compute_txid rollover in
        let (active, recleared) =
          Cleared-Resumable phone parses reads batch w v manifest rollover previous seed cleared
            held in
        let checked =
          Cleared-check_activation phone batch v manifest rollover active seed recleared in
        let stage = stage_epoch phone batch manifest rollover seed in
        let one =
          stage_epoch-Finishes phone seals batch rollover seed manifest u v schedule staged
            unfailing in
        let v1 = (stage v).0 in
        let kept =
          stage-Resumable phone cleared.config (lookup phone_device_file w.files)
            (lookup schedule_file w.files) (lookup (epoch_file epoch activated_file) w.files)
            rollover v v1 ((stage_epoch-Staged phone batch manifest rollover seed).respects v)
            held in
        let ((text, monthly, access, found, parsed), keys, accepts) = kept.common in
        let sent = broadcast_rollover-run phone rollover v1 accepts in
        let world = broadcast_rollover-world phone batch rollover v1 in
        let v2 = (broadcast_rollover phone rollover v1).0 in
        let three =
          commit_epoch-Finishes phone manifest epoch active schedule v2 text
            (record cleared.config {
              monthly_limit_sats = monthly;
              emergency_access_limit_sats = access;
            })
            (ap (λ x. x.outcomes) world ∙ one.unfailing)
            (ap (λ x. stored_config x.files) world ∙ found) parsed in
        ap (λ done. done.1)
          (read-run (check_activation-Reads phone batch) _ v (manifest, rollover, active, seed)
              checked
            ∙ bind-run stage _ v schedule one.gives
            ∙ bind-run (broadcast_rollover phone rollover) _ v1 tt sent
            ∙ bind-run (commit_epoch phone manifest epoch active schedule) _ v2 tt three.gives)

    -- Attempts keep what the next one needs.
    attempts-Resumable :
        (config : VaultConfig) (device old_schedule old_marker : Option Json)
        (manifest : BatchManifest) (rollover : Transaction)
        → load_manifest phone.formats batch ≡ ok manifest
        → rollover_of phone manifest batch ≡ ok rollover
        → (runs : List (List WriteOutcome)) (w : World)
        → Resumable phone config device old_schedule old_marker rollover w.files w.broadcasts
        → Resumable phone config device old_schedule old_marker rollover
            (attempts runs w).files
            (attempts runs w).broadcasts
    attempts-Resumable config device old_schedule old_marker manifest rollover loaded finalized [] w
          held =
        held
    attempts-Resumable config device old_schedule old_marker manifest rollover loaded finalized
          (outcomes ∷ runs) w held =
        attempts-Resumable config device old_schedule old_marker manifest rollover loaded finalized
          runs (activate_policy phone batch (record w { outcomes = outcomes })).0
          ((activate_policy-Resumable phone config device old_schedule old_marker rollover reparses
              (λ sent. again sent rollover) batch manifest loaded finalized).respects
            (record w { outcomes = outcomes }) held)

    -- If encryption does not fail, what is written reads back, and the chain server answers a
    -- transaction that it has accepted with its id again, then an activation that would succeed
    -- uninterrupted succeeds with the same schedule after any number of attempts, whatever writes of
    -- theirs were refused or cut off.
    pub activate_policy-resumes :
        (w : World) (schedule : Schedule)
        → (activate_policy phone batch (record w { outcomes = [] })).1 ≡ ok schedule
        → (runs : List (List WriteOutcome))
        → (activate_policy phone batch (record (attempts runs w) { outcomes = [] })).1 ≡ ok schedule
    unfolding activate_policy lift
    activate_policy-resumes w schedule h runs =
        let start : World = record w { outcomes = [] } in
        let (read, checked, h1, e1) = read-ok (check_activation-Reads phone batch) _ start h in
        let cleared =
          check_activation-Cleared phone batch start read.0 read.1 read.2 read.3 checked in
        let stage = stage_epoch phone batch read.0 read.1 read.3 in
        let (made, staged, h2, e2) = bind-ok stage _ start h1 in
        let two = (stage start).0 in
        let (handed, answered, h3, e3) = bind-ok (broadcast_rollover phone read.1) _ two h2 in
        let (done, committed, h4, e4) =
          bind-ok (commit_epoch phone read.0 (phone.lib.compute_txid read.1) read.2 made) _
            (broadcast_rollover phone read.1 two).0 h3 in
        let same : made ≡ schedule = ground arith in
        let quiet = ((stage_epoch-Staged phone batch read.0 read.1 read.3).respects start).1 in
        let accepts =
          ap (λ sent. phone.backend.broadcast sent read.1) (sym quiet)
          ∙ broadcast_rollover-ok phone batch read.1 two handed answered in
        let (text, found, parsed) = load_config-text phone start cleared.config cleared.loads in
        let held : Resumable phone cleared.config (lookup phone_device_file w.files)
            (lookup schedule_file w.files)
            (lookup (epoch_file (phone.lib.compute_txid read.1) activated_file) w.files) read.1
            w.files w.broadcasts =
          record {
            common = (
              (
                text, cleared.config.monthly_limit_sats, cleared.config.emergency_access_limit_sats,
                found, parsed,
              ),
              refl,
              accepts,
            );
            active = inr (refl, refl);
          } in
        let kept =
          attempts-Resumable cleared.config _ _ _ read.0 read.1 cleared.loaded cleared.finalized
            runs w held in
        activate_policy-again start start (record (attempts runs w) { outcomes = [] }) read.0 read.1
          read.2 read.3 made cleared kept staged refl
        ∙ ap ok same
