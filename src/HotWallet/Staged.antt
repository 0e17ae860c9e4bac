-- ===== src/HotWallet/Staged.antt =====
-- Operations that write into the directory of one epoch only.
use anzen.Prelude.{
  ℕ, ◌≡◌, ◌∙◌, Bool, true, false, refl, Option, none, some, List, [], ◌∷◌, arith, ◌==◌, ◌&&◌,
  nat_eq,
}
use anzen.Bitcoin.{Bytes, Txid, Psbt, Transaction}
use anzen.Ceremony.Types.{BatchManifest, AllowanceStep, EmergencyAccessPolicy}
use anzen.Ceremony.Workspace.{Workspace}
use anzen.Ceremony.Schedule.{
  DataPath, EpochFile, TransactionKind, EmergencyTransactionKind, authorization, trigger,
  withdrawal, epoch_file, same_path, same_epoch_file,
}
use anzen.Ceremony.Schedule.{Json}
use anzen.HotWallet.World.{World, lookup, write_private, draw}
use anzen.HotWallet.Respects.{Respects, Preorder, bind-Respects, lift-Respects}
use anzen.HotWallet.Activate.{
  Phone, write_encrypted_transaction, write_encrypted_emergency_transaction, stage_allowances,
  stage_emergency, stage_epoch, write_approval,
}

-- Whether a file is one of those that an activation stages: all of the epoch's but the marker.
abbrev pub is_staged : EpochFile → Bool
is_staged EpochFile.activated_file = false
is_staged _ = true

abbrev pub in_epoch : Txid → DataPath → Bool
in_epoch epoch (DataPath.epoch_file txid file) = txid == epoch && is_staged file
in_epoch epoch _ = false

-- The files of every other path are as before, and nothing was broadcast.
abbrev pub Staged : Txid → World → World → Type 0
Staged epoch before after =
    ((path : DataPath)
      → in_epoch epoch path ≡ false
      → lookup path after.files ≡ lookup path before.files)
    × (after.broadcasts ≡ before.broadcasts)

pub Staged-Preorder : (epoch : Txid) → Preorder (Staged epoch)
Staged-Preorder epoch = record {
  same = λ w. (λ path outside. refl, refl);
  through = λ u v w first second.
      (λ path outside. second.0 path outside ∙ first.0 path outside, second.1 ∙ first.1);
}

same_epoch_file-unstaged :
    (other file : EpochFile)
    → is_staged other ≡ false
    → is_staged file ≡ true
    → same_epoch_file other file ≡ false
same_epoch_file-unstaged EpochFile.activated_file EpochFile.approved_policy_file marker staged =
    refl
same_epoch_file-unstaged EpochFile.activated_file EpochFile.rollover_file marker staged = refl
same_epoch_file-unstaged EpochFile.activated_file (EpochFile.allowance_file step kind) marker
      staged =
    refl
same_epoch_file-unstaged EpochFile.activated_file (EpochFile.emergency_file kind txid) marker
      staged =
    refl
same_epoch_file-unstaged EpochFile.activated_file EpochFile.epoch_schedule_file marker staged = refl
same_epoch_file-unstaged EpochFile.activated_file EpochFile.activated_file marker staged = cc
same_epoch_file-unstaged EpochFile.approved_policy_file file marker staged = cc
same_epoch_file-unstaged EpochFile.rollover_file file marker staged = cc
same_epoch_file-unstaged (EpochFile.allowance_file step kind) file marker staged = cc
same_epoch_file-unstaged (EpochFile.emergency_file kind txid) file marker staged = cc
same_epoch_file-unstaged EpochFile.epoch_schedule_file file marker staged = cc

same_path-in_epoch :
    (epoch : Txid) (file : EpochFile) (path : DataPath)
    → is_staged file ≡ true
    → in_epoch epoch path ≡ false
    → same_path path (epoch_file epoch file) ≡ false
same_path-in_epoch epoch file (DataPath.epoch_file txid other) staged outside =
    let apart = same_epoch_file-unstaged other file in grind arith
same_path-in_epoch epoch file DataPath.config_file staged outside = refl
same_path-in_epoch epoch file DataPath.legacy_config_file staged outside = refl
same_path-in_epoch epoch file DataPath.phone_device_file staged outside = refl
same_path-in_epoch epoch file DataPath.hww_device_file staged outside = refl
same_path-in_epoch epoch file DataPath.hww_public_file staged outside = refl
same_path-in_epoch epoch file DataPath.schedule_file staged outside = refl

module _ (epoch : Txid) where
  pub write_private-Staged :
      (file : EpochFile) (text : Json)
      → is_staged file ≡ true
      → Respects (Staged epoch) (write_private (epoch_file epoch file) text)
  unfolding write_private
  write_private-Staged file text staged = record {
    respects = λ w. (
      λ path outside. let apart = same_path-in_epoch epoch file path staged outside in ground arith,
      ground arith,
    );
  }

  draw-Staged : (random : ℕ → Bytes) → Respects (Staged epoch) (draw random)
  unfolding draw
  draw-Staged random = record { respects = λ w. (λ path outside. refl, refl) }

module _ (phone : Phone) (batch : Workspace) (epoch : Txid) (seed : Bytes) where
  write_encrypted_transaction-Staged :
      (step : ℕ) (kind : TransactionKind) (psbt : Psbt)
      → Respects (Staged epoch) (write_encrypted_transaction phone epoch seed step kind psbt)
  unfolding write_encrypted_transaction
  write_encrypted_transaction-Staged step kind psbt =
      bind-Respects (Staged-Preorder epoch) (draw-Staged epoch phone.random) (λ nonce.
        bind-Respects (Staged-Preorder epoch) (lift-Respects (Staged-Preorder epoch) _)
          (λ blob. write_private-Staged epoch _ _ refl))

  write_encrypted_emergency_transaction-Staged :
      (kind : EmergencyTransactionKind) (psbt : Psbt)
      → Respects (Staged epoch) (write_encrypted_emergency_transaction phone epoch seed kind psbt)
  unfolding write_encrypted_emergency_transaction
  write_encrypted_emergency_transaction-Staged kind psbt =
      bind-Respects (Staged-Preorder epoch) (draw-Staged epoch phone.random) (λ nonce.
        bind-Respects (Staged-Preorder epoch) (lift-Respects (Staged-Preorder epoch) _)
          (λ blob. write_private-Staged epoch _ _ refl))

  stage_allowances-Staged :
      (allowances : List AllowanceStep)
      → Respects (Staged epoch) (stage_allowances phone batch epoch seed allowances)
  unfolding stage_allowances
  stage_allowances-Staged [] = lift-Respects (Staged-Preorder epoch) _
  stage_allowances-Staged (allowance ∷ allowances) =
      bind-Respects (Staged-Preorder epoch) (lift-Respects (Staged-Preorder epoch) _) (λ psbt.
        bind-Respects (Staged-Preorder epoch)
          (write_encrypted_transaction-Staged allowance.step authorization psbt)
          (λ done.
            bind-Respects (Staged-Preorder epoch) (stage_allowances-Staged allowances)
              (λ entries. lift-Respects (Staged-Preorder epoch) _)))

  stage_emergency-Staged :
      (emergency : Option EmergencyAccessPolicy)
      → Respects (Staged epoch) (stage_emergency phone batch epoch seed emergency)
  unfolding stage_emergency
  stage_emergency-Staged none = lift-Respects (Staged-Preorder epoch) _
  stage_emergency-Staged (some emergency) =
      bind-Respects (Staged-Preorder epoch) (lift-Respects (Staged-Preorder epoch) _)
        (λ trigger_psbt.
          bind-Respects (Staged-Preorder epoch) (lift-Respects (Staged-Preorder epoch) _)
            (λ withdrawal_psbt.
              bind-Respects (Staged-Preorder epoch)
                (write_encrypted_emergency_transaction-Staged trigger trigger_psbt)
                (λ done.
                  bind-Respects (Staged-Preorder epoch)
                    (write_encrypted_emergency_transaction-Staged withdrawal withdrawal_psbt)
                    (λ written. lift-Respects (Staged-Preorder epoch) _))))

module _ (phone : Phone) (batch : Workspace) (manifest : BatchManifest) (rollover : Transaction)
    (seed : Bytes) where
  write_approval-Staged :
      Respects (Staged (phone.lib.compute_txid rollover)) (write_approval phone batch rollover seed)
  unfolding write_approval
  write_approval-Staged =
      let epoch = phone.lib.compute_txid rollover in
      let order = Staged-Preorder epoch in
      bind-Respects order (lift-Respects order _) (λ bytes.
        bind-Respects order (draw-Staged epoch phone.random) (λ nonce.
          bind-Respects order (lift-Respects order _)
            (λ backup. write_private-Staged epoch _ _ refl)))

  pub stage_epoch-Staged :
      Respects
        (Staged (phone.lib.compute_txid rollover))
        (stage_epoch phone batch manifest rollover seed)
  unfolding stage_epoch
  stage_epoch-Staged =
      let epoch = phone.lib.compute_txid rollover in
      let order = Staged-Preorder epoch in
      bind-Respects order write_approval-Staged (λ saved.
        bind-Respects order (write_private-Staged epoch _ _ refl) (λ stored.
          bind-Respects order (stage_allowances-Staged phone batch epoch seed manifest.allowances)
            (λ entries.
              bind-Respects order
                (stage_emergency-Staged phone batch epoch seed manifest.emergency_access)
                (λ access.
                  bind-Respects order (write_private-Staged epoch _ _ refl)
                    (λ listed. lift-Respects order _)))))
