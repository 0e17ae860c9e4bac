-- ===== src/HotWallet/Attempts.antt =====
-- Every attempt to activate a policy leaves a world from which the next one can succeed.
use anzen.Prelude.{
  ℕ, ◌≡◌, ◌∙◌, ap, sym, subst, refl, inl, String, Option, some, List, ◌∷◌, ok, arith,
}
use anzen.Bitcoin.{Bytes, Txid, Transaction}
use anzen.Storage.{VaultConfig}
use anzen.Ceremony.Types.{BatchManifest}
use anzen.Ceremony.Workspace.{Workspace}
use anzen.Ceremony.Schedule.{schedule_file, epoch_file, activated_file, Schedule}
use anzen.Ceremony.Package.{load_manifest}
use anzen.Ceremony.Schedule.{Json}
use anzen.HotWallet.World.{
  World, Disk, Io, ◌>>=◌, ◌>>◌, lift, return, context_of, lookup, write_private,
}
use anzen.HotWallet.Files.{config_path, load_config, set_policy_limits}
use anzen.HotWallet.Activate.{Phone, stage_epoch}
use anzen.HotWallet.Commit.{
  rollover_of, commit_epoch, broadcast_rollover, check_activation, activate_policy,
}
use anzen.HotWallet.Respects.{
  bind-Respects, lift-Respects, context_of-Respects, load_config-Reads, config_path-Reads,
}
use anzen.HotWallet.Staged.{stage_epoch-Staged}
use anzen.HotWallet.Intact.{bind-world, check_activation-Reads, check_activation-ok}
use anzen.HotWallet.Activated.{config_at, config_path-run}
use anzen.HotWallet.Steps.{context_of-ok, write_private-ok}
use anzen.HotWallet.Succeeded.{stage_epoch-ok}
use anzen.HotWallet.Resumable.{
  Resumable, Switched, Preserves, Preserves-Preorder, Switched-Resumable, write_private-Preserves,
  write_private-at, stage-Resumable, archive_previous-Resumable, broadcast_rollover-Resumable,
  load_config-stored, config_at-Switched,
}

module _ (phone : Phone) (config : VaultConfig) (device old_schedule old_marker : Option Json)
    (rollover : Transaction)
    (reparses : (c : VaultConfig)
      → phone.formats.config_from (phone.formats.config_text c) ≡ some c)
    (again : (sent : List Transaction)
      → phone.backend.broadcast sent rollover ≡ ok (phone.lib.compute_txid rollover)
      → phone.backend.broadcast (rollover ∷ sent) rollover
        ≡ ok (phone.lib.compute_txid rollover)) where
  abbrev R : Disk → List Transaction → Type 0
  R = Resumable phone config device old_schedule old_marker rollover

  abbrev S : Disk → List Transaction → Type 0
  S = Switched phone config device old_schedule old_marker rollover

  abbrev epoch : Txid
  epoch = phone.lib.compute_txid rollover

  set_policy_limits-Switched :
      (monthly access : ℕ)
      → Preserves phone config device old_schedule old_marker rollover S
          (set_policy_limits phone.formats monthly access)
  unfolding set_policy_limits lift
  set_policy_limits-Switched monthly access = record {
    respects = λ w held.
        let reads = (load_config-Reads phone.formats).respects w in
        let one = (load_config phone.formats w).0 in
        let here : S one.files one.broadcasts =
          subst (λ v. S v.files v.broadcasts) (sym reads) held in
        bind-world (λ v. S v.files v.broadcasts) (load_config phone.formats) _ w here
          (λ loaded found.
            let (m, a, same) =
              load_config-stored phone config device old_schedule old_marker rollover w loaded found
                held.common.0 in
            let kept = (config_path-Reads phone.formats).respects one in
            let two = (config_path phone.formats one).0 in
            bind-world (λ v. S v.files v.broadcasts) (config_path phone.formats) _ one
              (subst (λ v. S v.files v.broadcasts) (sym kept) here)
              (λ path at.
                let limits : VaultConfig = record config {
                  monthly_limit_sats = monthly;
                  emergency_access_limit_sats = access;
                } in
                let three = subst (λ v. S v.files v.broadcasts) (sym kept) here in
                let run = config_path-run phone one in
                let same_path : path ≡ config_at phone two.files = ground arith in
                let text = phone.formats.config_text (record loaded {
                  monthly_limit_sats = monthly;
                  emergency_access_limit_sats = access;
                }) in
                let parsed : phone.formats.config_from text ≡ some limits =
                  reparses (record loaded {
                    monthly_limit_sats = monthly;
                    emergency_access_limit_sats = access;
                  })
                  ∙ ap
                      (λ (c : VaultConfig). Option.some (record c {
                        monthly_limit_sats = monthly;
                        emergency_access_limit_sats = access;
                      }))
                      same in
                let after : S ((path, text) ∷ two.files) two.broadcasts =
                  subst (λ p. S ((p, text) ∷ two.files) two.broadcasts) (sym same_path)
                    (config_at-Switched phone config device old_schedule old_marker rollover
                      two.files two.broadcasts text monthly access parsed three) in
                let written =
                  write_private-at phone config device old_schedule old_marker rollover S path text
                    two three after in
                bind-world (λ v. S v.files v.broadcasts) (write_private path text) _ two written
                  (λ done ended. written)));
  }

  -- Once the schedule is the rollover's, the rest of the commit keeps it.
  finish-Switched :
      (manifest : BatchManifest) (message : String)
      → Preserves phone config device old_schedule old_marker rollover S (
          context_of
            (set_policy_limits phone.formats manifest.monthly_limit_sats
              manifest.emergency_access_limit_sats)
            message
          >>= λ limited. write_private (epoch_file epoch activated_file) phone.formats.true_text)
  finish-Switched manifest message =
      let order = Preserves-Preorder phone config device old_schedule old_marker rollover S in
      bind-Respects order
        (context_of-Respects order message (
          set_policy_limits-Switched manifest.monthly_limit_sats
            manifest.emergency_access_limit_sats))
        (λ limited.
          write_private-Preserves phone config device old_schedule old_marker rollover S _ _
            (λ files sent held. record { common = held.common; replaced = held.replaced }))

  context_of-here :
      (Q : Disk → List Transaction → Type 0) (action : Io (Unit {0})) (message : String) (w : World)
      → Q (action w).0.files (action w).0.broadcasts
      → Q (context_of action message w).0.files (context_of action message w).0.broadcasts
  unfolding context_of
  context_of-here Q action message w held = held

  commit_epoch-Resumable :
      (manifest : BatchManifest) (previous : Option Txid) (schedule : Schedule)
      → schedule.version ≡ 5
      → schedule.rollover_txid ≡ phone.lib.txid_to_string epoch
      → Preserves phone config device old_schedule old_marker rollover R
          (commit_epoch phone manifest epoch previous schedule)
  unfolding commit_epoch
  commit_epoch-Resumable manifest previous schedule version named =
      bind-Respects (Preserves-Preorder phone config device old_schedule old_marker rollover R)
        (archive_previous-Resumable phone config device old_schedule old_marker rollover previous)
        (λ archived. record {
          respects = λ w held.
              let text = phone.formats.schedule_text schedule in
              let put = write_private schedule_file text in
              let message : String =
                "rollover accepted but schedule activation failed; retry the same approved policy" in
              let written : R ((schedule_file, text) ∷ w.files) w.broadcasts = record {
                common = held.common;
                active = inl (schedule, refl, version, named);
              } in
              let here =
                write_private-at phone config device old_schedule old_marker rollover R
                  schedule_file text w held written in
              let one = (put w).0 in
              bind-world (λ v. R v.files v.broadcasts) (context_of put message) _ w
                (context_of-here R put message w here)
                (λ done replaced.
                  let (ended, same) = context_of-ok put message w done replaced in
                  let files = write_private-ok schedule_file text w done ended in
                  let switched : S one.files one.broadcasts = record {
                    common = here.common;
                    replaced = (schedule, ap (lookup schedule_file) files, version, named);
                  } in
                  let two = (context_of put message w).0 in
                  let ready = subst (λ v. S v.files v.broadcasts) (sym same) switched in
                  Switched-Resumable phone config device old_schedule old_marker rollover _ _
                    ((finish-Switched manifest _).respects two ready));
        })

  -- What follows the check, on the rollover.
  rest_of : Workspace → BatchManifest → Option Txid → Bytes → Transaction → Io Schedule
  rest_of batch manifest previous seed r = stage_epoch phone batch manifest r seed >>= λ schedule.
      (broadcast_rollover phone r
        >> (commit_epoch phone manifest (phone.lib.compute_txid r) previous schedule
            >> return schedule))

  rest-Resumable :
      (batch : Workspace) (manifest : BatchManifest) (previous : Option Txid) (seed : Bytes)
      → Preserves phone config device old_schedule old_marker rollover R
          (rest_of batch manifest previous seed rollover)
  unfolding rest_of
  rest-Resumable batch manifest previous seed = record {
    respects = λ w held.
        let stage = stage_epoch phone batch manifest rollover seed in
        let staged = (stage_epoch-Staged phone batch manifest rollover seed).respects w in
        let one = (stage w).0 in
        let here =
          stage-Resumable phone config device old_schedule old_marker rollover w one staged held in
        let order = Preserves-Preorder phone config device old_schedule old_marker rollover R in
        bind-world (λ v. R v.files v.broadcasts) stage _ w here
          (λ schedule made.
            let fields = stage_epoch-ok phone batch manifest rollover seed w schedule made in
            let later : Preserves phone config device old_schedule old_marker rollover R (
                broadcast_rollover phone rollover
                >> (commit_epoch phone manifest epoch previous schedule >> return schedule)) =
              bind-Respects order
                (broadcast_rollover-Resumable phone config device old_schedule old_marker rollover
                  again)
                (λ handed.
                  bind-Respects order
                    (commit_epoch-Resumable manifest previous schedule fields.0 fields.1)
                    (λ committed. lift-Respects order _)) in
            later.respects one here);
  }

  -- An attempt on the batch of the rollover, from a world from which it can succeed, leaves one.
  pub activate_policy-Resumable :
      (batch : Workspace) (manifest : BatchManifest)
      → load_manifest phone.formats batch ≡ ok manifest
      → rollover_of phone manifest batch ≡ ok rollover
      → Preserves phone config device old_schedule old_marker rollover R
          (activate_policy phone batch)
  unfolding activate_policy rest_of
  activate_policy-Resumable batch manifest loaded finalized = record {
    respects = λ w held.
        let reads = (check_activation-Reads phone batch).respects w in
        let one = (check_activation phone batch w).0 in
        let here = subst (λ v. R v.files v.broadcasts) (sym reads) held in
        bind-world (λ v. R v.files v.broadcasts) (check_activation phone batch) _ w here
          (λ read checked.
            let (loads, finalizes) =
              check_activation-ok phone batch w read.0 read.1 read.2 read.3 checked in
            let same_manifest : manifest ≡ read.0 = ground arith in
            let same : rollover ≡ read.1 = grind arith in
            let after = (rest-Resumable batch read.0 read.2 read.3).respects one here in
            subst
              (λ r.
                R (rest_of batch read.0 read.2 read.3 r one).0.files
                  (rest_of batch read.0 read.2 read.3 r one).0.broadcasts)
              same after);
  }
