-- ===== src/HotWallet/Retry.antt =====
-- An activation that was interrupted any number of times succeeds once nothing interrupts it.
use anzen.Prelude.{
  ℕ, ◌≡◌, ◌∙◌, ap, refl, Bool, true, false, String, Option, none, some, [], ok, arith, ◌!=◌, nat_eq,
  if◌then◌else◌,
}
use anzen.Bitcoin.{Txid, Transaction}
use anzen.Storage.{VaultConfig}
use anzen.Ceremony.Types.{BatchManifest}
use anzen.Ceremony.Schedule.{schedule_file, epoch_file, activated_file, Schedule}
use anzen.Ceremony.Schedule.{Json}
use anzen.HotWallet.World.{World, Disk, Io, ◌>>=◌, lift, context_of, write_private, broadcast}
use anzen.HotWallet.Files.{config_path, load_config, set_policy_limits}
use anzen.HotWallet.Activate.{Phone}
use anzen.HotWallet.Commit.{archive_previous, commit_epoch, broadcast_rollover}
use anzen.HotWallet.Respects.{Reads, load_config-Reads, config_path-Reads}
use anzen.HotWallet.Steps.{context_of-ok, write_private-ok}
use anzen.HotWallet.Activated.{archived, config_at, config_path-run, archive_previous-ok}
use anzen.HotWallet.Finishes.{Finishes, bind-Finishes, lift-Finishes, write_private-Finishes}
use anzen.HotWallet.Resumable.{stored_config}
use anzen.HotWallet.Recheck.{load_config-run}

read-Finishes {ℓ} :
    {Value : Type ℓ} {action : Io Value} (reads : Reads action) (w : World) (value : Value)
    → w.outcomes ≡ []
    → (action w).1 ≡ ok value
    → Finishes action w value
read-Finishes reads w value unfailing found =
    let same = reads.respects w in
    record {
      gives = found;
      unfailing = ap (λ v. v.outcomes) same ∙ unfailing;
      silent = ap (λ v. v.broadcasts) same;
    }

context_of-Finishes {ℓ} :
    {Value : Type ℓ} (action : Io Value) (message : String) (w : World) (value : Value)
    → Finishes action w value
    → Finishes (context_of action message) w value
unfolding context_of
context_of-Finishes action message w value done =
    let gives = done.gives in
    record { gives = grind arith; unfailing = done.unfailing; silent = done.silent }

if-Finishes :
    (test : Bool) (one other : Io (Unit {0})) (w : World)
    → Finishes one w tt
    → Finishes other w tt
    → Finishes (if test then one else other) w tt
if-Finishes true one other w first second = first
if-Finishes false one other w first second = second

module _ (phone : Phone) where
  set_policy_limits-Finishes :
      (monthly access : ℕ) (w : World) (config : VaultConfig)
      → w.outcomes ≡ []
      → (load_config phone.formats w).1 ≡ ok config
      → Finishes
          (set_policy_limits phone.formats monthly access)
          w
          (record config { monthly_limit_sats = monthly; emergency_access_limit_sats = access })
  unfolding set_policy_limits
  set_policy_limits-Finishes monthly access w config unfailing loads =
      let limited : VaultConfig = record config {
        monthly_limit_sats = monthly;
        emergency_access_limit_sats = access;
      } in
      let one = read-Finishes (load_config-Reads phone.formats) w config unfailing loads in
      let w1 = (load_config phone.formats w).0 in
      let two =
        read-Finishes (config_path-Reads phone.formats) w1 (config_at phone w1.files) one.unfailing
          (ap (λ done. done.1) (config_path-run phone w1)) in
      let w2 = (config_path phone.formats w1).0 in
      let three =
        write_private-Finishes (config_at phone w1.files) (phone.formats.config_text limited) w2
          two.unfailing in
      bind-Finishes (load_config phone.formats) _ w config limited one (
        bind-Finishes (config_path phone.formats) _ w1 (config_at phone w1.files) limited two (
          bind-Finishes
            (write_private (config_at phone w1.files) (phone.formats.config_text limited)) _ w2 tt
            limited three (lift-Finishes (ok limited) _ limited three.unfailing refl)))

  archive_previous-Finishes :
      (txid : Txid) (previous : Option Txid) (w : World)
      → w.outcomes ≡ []
      → Finishes (archive_previous phone txid previous) w tt
  unfolding archive_previous
  archive_previous-Finishes txid none w unfailing = lift-Finishes (ok tt) w tt unfailing refl
  archive_previous-Finishes txid (some previous) w unfailing =
      if-Finishes (previous != txid) _ _ w
        (context_of-Finishes _ _ w tt (
          write_private-Finishes (epoch_file previous activated_file) phone.formats.true_text w
            unfailing))
        (lift-Finishes (ok tt) w tt unfailing refl)

  pub broadcast_rollover-run :
      (rollover : Transaction) (w : World)
      → phone.backend.broadcast w.broadcasts rollover ≡ ok (phone.lib.compute_txid rollover)
      → (broadcast_rollover phone rollover w).1 ≡ ok tt
  unfolding broadcast_rollover broadcast context_of ◌>>=◌ lift
  broadcast_rollover-run rollover w accepts = grind arith

  stored_config-archived :
      (txid : Txid) (previous : Option Txid) (files : Disk)
      → stored_config (archived phone txid previous files) ≡ stored_config files
  stored_config-archived txid none files = refl
  stored_config-archived txid (some previous) files = ground arith

  pub commit_epoch-Finishes :
      (manifest : BatchManifest) (txid : Txid) (previous : Option Txid) (schedule : Schedule)
      (w : World) (text : Json) (config : VaultConfig)
      → w.outcomes ≡ []
      → stored_config w.files ≡ some text
      → phone.formats.config_from text ≡ some config
      → Finishes (commit_epoch phone manifest txid previous schedule) w tt
  unfolding commit_epoch
  commit_epoch-Finishes manifest txid previous schedule w text config unfailing found parsed =
      let one = archive_previous-Finishes txid previous w unfailing in
      let w1 = (archive_previous phone txid previous w).0 in
      let files1 = archive_previous-ok phone txid previous w tt one.gives in
      let put = write_private schedule_file (phone.formats.schedule_text schedule) in
      let two =
        write_private-Finishes schedule_file (phone.formats.schedule_text schedule) w1
          one.unfailing in
      let message : String =
        "rollover accepted but schedule activation failed; retry the same approved policy" in
      let saved = context_of-Finishes put message w1 tt two in
      let w2 = (context_of put message w1).0 in
      let (ended, same) = context_of-ok put message w1 tt saved.gives in
      let files2 =
        write_private-ok schedule_file (phone.formats.schedule_text schedule) w1 tt ended in
      let stored : stored_config w2.files ≡ some text =
        ap (λ v. stored_config v.files) same
        ∙ ap stored_config files2
        ∙ ap stored_config files1
        ∙ stored_config-archived txid previous w.files
        ∙ found in
      let loads = load_config-run phone w2 text config stored parsed in
      let three =
        set_policy_limits-Finishes manifest.monthly_limit_sats manifest.emergency_access_limit_sats
          w2 config saved.unfailing loads in
      let set =
        set_policy_limits phone.formats manifest.monthly_limit_sats
          manifest.emergency_access_limit_sats in
      let failed : String =
        "rollover accepted but saving policy limits failed; retry the same approved policy" in
      let limited = context_of-Finishes set failed w2 _ three in
      let w3 = (context_of set failed w2).0 in
      bind-Finishes (archive_previous phone txid previous) _ w tt tt one (
        bind-Finishes (context_of put message) _ w1 tt tt saved (
          bind-Finishes (context_of set failed) _ w2 _ tt limited (
            write_private-Finishes (epoch_file txid activated_file) phone.formats.true_text w3
              limited.unfailing)))
