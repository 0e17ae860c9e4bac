-- ===== src/HotWallet/Superseded.antt =====
-- Activating an epoch that a completed activation has replaced.
use anzen.Prelude.{◌≡◌, ◌≢◌, ap, sym, subst, ◌∙◌, false, Option, some, ok, arith, nat_eq}
use anzen.Bitcoin.{Bytes, Txid, Transaction}
use anzen.Ceremony.Types.{BatchManifest}
use anzen.Ceremony.Workspace.{Workspace}
use anzen.Ceremony.Schedule.{schedule_file, phone_device_file, epoch_file, activated_file, Schedule}
use anzen.Ceremony.Package.{load_manifest}
use anzen.Ceremony.Schedule.{Json}
use anzen.HotWallet.World.{World, ◌>>=◌, lift, lookup, exists, fs_read}
use anzen.HotWallet.Files.{load_schedule, read_json, ensure_backend_network}
use anzen.HotWallet.Activate.{Phone}
use anzen.HotWallet.Commit.{
  rollover_of, previous_epoch, differs_from, check_activation, activate_policy,
}
use anzen.HotWallet.Respects.{load_config-Reads, load_device_keys-Reads}
use anzen.HotWallet.Intact.{
  bind-world, previous_epoch-Reads, check_activation-Reads, check_activation-ok,
}
use anzen.HotWallet.Steps.{read-ok}
use anzen.HotWallet.Succeeded.{activate_policy-Active, check_activation-previous}

module _ (phone : Phone) where
  check_activation-fresh :
      (batch : Workspace) (w : World) (manifest : BatchManifest) (rollover : Transaction)
      (previous : Option Txid) (seed : Bytes) (text : Json)
      → (check_activation phone batch w).1 ≡ ok (manifest, rollover, previous, seed)
      → lookup (epoch_file (phone.lib.compute_txid rollover) activated_file) w.files ≡ some text
      → differs_from (phone.lib.compute_txid rollover) previous ≡ false
  unfolding check_activation ensure_backend_network ◌>>=◌ lift exists
  check_activation-fresh batch w manifest rollover previous seed text h marked =
      let reads_config = (load_config-Reads phone.formats).respects w in
      let reads_keys =
        (load_device_keys-Reads phone.formats phone.lib phone.bip phone_device_file).respects w in
      let reads_previous = (previous_epoch-Reads phone batch).respects w in grind arith

  -- A batch whose epoch is marked is refused while another epoch is the active one.
  check_activation-refuses :
      (batch : Workspace) (w : World) (manifest : BatchManifest) (rollover : Transaction)
      (active : Txid) (text : Json)
      → load_manifest phone.formats batch ≡ ok manifest
      → rollover_of phone manifest batch ≡ ok rollover
      → lookup (epoch_file (phone.lib.compute_txid rollover) activated_file) w.files ≡ some text
      → (previous_epoch phone w).1 ≡ ok (some active)
      → active ≢ phone.lib.compute_txid rollover
      → (read : BatchManifest × Transaction × Option Txid × Bytes)
      → (check_activation phone batch w).1 ≢ ok read
  check_activation-refuses batch w manifest rollover active text loaded finalized marked now differ
        read h =
      let (loads, finalizes) = check_activation-ok phone batch w read.0 read.1 read.2 read.3 h in
      let was = check_activation-previous phone batch w read.0 read.1 read.2 read.3 h in
      let same_manifest : manifest ≡ read.0 = ground arith in
      let same_rollover : rollover ≡ read.1 = grind arith in
      let same_previous : some active ≡ read.2 = ground arith in
      let fresh = check_activation-fresh batch w read.0 read.1 read.2 read.3 text h (
        subst
          (λ r. lookup (epoch_file (phone.lib.compute_txid r) activated_file) w.files ≡ some text)
          same_rollover marked) in
      let fresh_active : differs_from (phone.lib.compute_txid rollover) (some active) ≡ false =
        subst (λ p. differs_from (phone.lib.compute_txid rollover) p ≡ false) (sym same_previous)
          (subst (λ r. differs_from (phone.lib.compute_txid r) read.2 ≡ false) (sym same_rollover)
            fresh) in
      absurd (ground arith)

  -- The active epoch is read back from the schedule's file.
  pub previous_epoch-run :
      (w : World) (schedule : Schedule) (text : Json) (txid : Txid)
      → lookup schedule_file w.files ≡ some text
      → phone.formats.schedule_from text ≡ some schedule
      → schedule.version ≡ 5
      → phone.formats.txid_from_str schedule.rollover_txid ≡ some txid
      → (previous_epoch phone w).1 ≡ ok (some txid)
  unfolding previous_epoch load_schedule read_json ◌>>=◌ lift exists fs_read
  previous_epoch-run w schedule text txid found reads known parsed = grind arith

  -- If schedules read back from their JSON and txids from their text, then once another epoch has
  -- replaced the active one, activating the old batch again changes nothing and fails.
  pub activate_policy-superseded :
      ((txid : Txid) → phone.formats.txid_from_str (phone.lib.txid_to_string txid) ≡ some txid)
      → ((schedule : Schedule)
          → phone.formats.schedule_from (phone.formats.schedule_text schedule) ≡ some schedule)
      → (old new : Workspace) (w : World) (manifest : BatchManifest) (rollover : Transaction)
        (schedule : Schedule)
      → load_manifest phone.formats old ≡ ok manifest
      → rollover_of phone manifest old ≡ ok rollover
      → (previous_epoch phone w).1 ≡ ok (some (phone.lib.compute_txid rollover))
      → (activate_policy phone new w).1 ≡ ok schedule
      → schedule.rollover_txid ≢ phone.lib.txid_to_string (phone.lib.compute_txid rollover)
      → ((activate_policy phone old (activate_policy phone new w).0).0
          ≡ (activate_policy phone new w).0)
        × ((again : Schedule)
            → (activate_policy phone old (activate_policy phone new w).0).1 ≢ ok again)
  unfolding activate_policy
  activate_policy-superseded parses reads old new w manifest rollover schedule loaded finalized was
        h other =
      let active = activate_policy-Active phone new w schedule h in
      let after = (activate_policy phone new w).0 in
      let marked = active.archives (phone.lib.compute_txid rollover) was in
      let now =
        previous_epoch-run after schedule (phone.formats.schedule_text schedule)
          (phone.lib.compute_txid active.rollover) active.replaced (reads schedule) active.versioned
          (ap phone.formats.txid_from_str active.named
            ∙ parses (phone.lib.compute_txid active.rollover)) in
      let refused : (read : BatchManifest × Transaction × Option Txid × Bytes)
          → (check_activation phone old after).1 ≢ ok read =
        check_activation-refuses old after manifest rollover
          (phone.lib.compute_txid active.rollover) phone.formats.true_text loaded finalized marked
          now (λ same. other (active.named ∙ ap phone.lib.txid_to_string same)) in
      let checks = check_activation-Reads phone old in
      (
        bind-world (λ v. v ≡ after) (check_activation phone old) _ after (checks.respects after)
            (λ read found. absurd (refused read found)),
        λ again succeeded.
            let (read, found, h1, e1) = read-ok checks _ after succeeded in refused read found,
      )
