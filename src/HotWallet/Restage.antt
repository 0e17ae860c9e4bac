-- ===== src/HotWallet/Restage.antt =====
-- An epoch that was staged once is staged again with the same schedule once every write succeeds.
use anzen.Prelude.{
  ◌>>=◌ as ◌>>>◌, ℕ, ◌≡◌, String, Option, none, some, List, [], ◌∷◌, Result, ok, context,
}
use anzen.Bitcoin.{Bytes, Txid, Psbt, Transaction}
use anzen.Crypto.{EncryptedBlob, encrypt}
use anzen.Ceremony.Types.{BatchManifest, AllowanceStep, EmergencyAccessPolicy}
use anzen.Ceremony.Workspace.{Workspace, read_psbt}
use anzen.Ceremony.Schedule.{
  DataPath, epoch_file, rollover_file, epoch_schedule_file, TransactionKind,
  EmergencyTransactionKind, authorization, trigger, withdrawal, Schedule, ScheduleEntry,
  EmergencyAccessSchedule,
}
use anzen.Ceremony.Package.{package_from_batch}
use anzen.Ceremony.Schedule.{Json}
use anzen.HotWallet.World.{World, ◌>>=◌, lift, draw, write_private}
use anzen.HotWallet.Activate.{
  Phone, write_encrypted_transaction, write_encrypted_emergency_transaction, stage_allowances,
  stage_emergency, write_approval, schedule_of, stage_epoch,
}
use anzen.HotWallet.Finishes.{
  Finishes, Seals, bind-Finishes, lift-Finishes, draw-Finishes, write_private-Finishes,
  encrypt-Seals, lift-ok,
}
use anzen.HotWallet.Steps.{bind-ok}

module _ (phone : Phone) (seals : Seals phone.ciphers) (epoch : Txid) (seed : Bytes) where
  -- A fresh nonce, an encryption and a write.
  sealed-Finishes :
      (purpose : String) (plaintext : Bytes) (path : DataPath) (text : EncryptedBlob → Json)
      (w : World)
      → w.outcomes ≡ []
      → Finishes
          (draw phone.random >>= λ nonce.
            lift (encrypt phone.ciphers nonce seed purpose plaintext) >>= λ blob.
            write_private path (text blob))
          w
          tt
  sealed-Finishes purpose plaintext path text w unfailing =
      let drawn = draw-Finishes phone.random w unfailing in
      let one = (draw phone.random w).0 in
      let nonce = phone.random w.drawn in
      let (blob, sealed) = encrypt-Seals phone.ciphers seals nonce seed purpose plaintext in
      let lifted =
        lift-Finishes (encrypt phone.ciphers nonce seed purpose plaintext) one blob drawn.unfailing
          sealed in
      bind-Finishes (draw phone.random) _ w nonce tt drawn (
        bind-Finishes (lift (encrypt phone.ciphers nonce seed purpose plaintext)) _ one blob tt
          lifted
          (write_private-Finishes path (text blob)
            (lift (encrypt phone.ciphers nonce seed purpose plaintext) one).0 lifted.unfailing))

  write_encrypted_transaction-Finishes :
      (step : ℕ) (kind : TransactionKind) (psbt : Psbt) (w : World)
      → w.outcomes ≡ []
      → Finishes (write_encrypted_transaction phone epoch seed step kind psbt) w tt
  unfolding write_encrypted_transaction
  write_encrypted_transaction-Finishes step kind psbt w unfailing =
      sealed-Finishes _ _ _ _ w unfailing

  write_encrypted_emergency_transaction-Finishes :
      (kind : EmergencyTransactionKind) (psbt : Psbt) (w : World)
      → w.outcomes ≡ []
      → Finishes (write_encrypted_emergency_transaction phone epoch seed kind psbt) w tt
  unfolding write_encrypted_emergency_transaction
  write_encrypted_emergency_transaction-Finishes kind psbt w unfailing =
      sealed-Finishes _ _ _ _ w unfailing

  -- The entries of an epoch that was staged once are those of every later staging.
  stage_allowances-Finishes :
      (batch : Workspace) (allowances : List AllowanceStep) (u w : World)
      (entries : List ScheduleEntry)
      → (stage_allowances phone batch epoch seed allowances u).1 ≡ ok entries
      → w.outcomes ≡ []
      → Finishes (stage_allowances phone batch epoch seed allowances) w entries
  unfolding stage_allowances
  stage_allowances-Finishes batch [] u w entries staged unfailing =
      lift-Finishes (ok []) w entries unfailing (lift-ok (ok []) u entries staged)
  stage_allowances-Finishes batch (allowance ∷ allowances) u w entries staged unfailing =
      let (psbt, was_read, staged1, e1) =
        bind-ok (lift (read_psbt phone.lib batch allowance.authorization.psbt_file)) _ u staged in
      let u1 = (lift (read_psbt phone.lib batch allowance.authorization.psbt_file) u).0 in
      let (done, was_written, staged2, e2) =
        bind-ok (write_encrypted_transaction phone epoch seed allowance.step authorization psbt) _
          u1 staged1 in
      let u2 =
        (write_encrypted_transaction phone epoch seed allowance.step authorization psbt u1).0 in
      let (rest, was_staged, returned, e3) =
        bind-ok (stage_allowances phone batch epoch seed allowances) _ u2 staged2 in
      let reads =
        lift-Finishes (read_psbt phone.lib batch allowance.authorization.psbt_file) w psbt unfailing
          (lift-ok (read_psbt phone.lib batch allowance.authorization.psbt_file) u psbt was_read) in
      let w1 = (lift (read_psbt phone.lib batch allowance.authorization.psbt_file) w).0 in
      let writes =
        write_encrypted_transaction-Finishes allowance.step authorization psbt w1 reads.unfailing in
      let w2 =
        (write_encrypted_transaction phone epoch seed allowance.step authorization psbt w1).0 in
      let later =
        stage_allowances-Finishes batch allowances u2 w2 rest was_staged writes.unfailing in
      bind-Finishes (lift (read_psbt phone.lib batch allowance.authorization.psbt_file)) _ w psbt
        entries reads
        (bind-Finishes
          (write_encrypted_transaction phone epoch seed allowance.step authorization psbt) _ w1 tt
          entries writes
          (bind-Finishes (stage_allowances phone batch epoch seed allowances) _ w2 rest entries
            later
            (lift-Finishes _ (stage_allowances phone batch epoch seed allowances w2).0 entries
              later.unfailing
              (lift-ok _ (stage_allowances phone batch epoch seed allowances u2).0 entries
                returned))))

  stage_emergency-Finishes :
      (batch : Workspace) (emergency : Option EmergencyAccessPolicy) (u w : World)
      (access : Option EmergencyAccessSchedule)
      → (stage_emergency phone batch epoch seed emergency u).1 ≡ ok access
      → w.outcomes ≡ []
      → Finishes (stage_emergency phone batch epoch seed emergency) w access
  unfolding stage_emergency
  stage_emergency-Finishes batch none u w access staged unfailing =
      lift-Finishes (ok none) w access unfailing (lift-ok (ok none) u access staged)
  stage_emergency-Finishes batch (some emergency) u w access staged unfailing =
      let read_trigger = lift (read_psbt phone.lib batch emergency.trigger.psbt_file) in
      let read_withdrawal = lift (read_psbt phone.lib batch emergency.withdrawal.psbt_file) in
      let (trigger_psbt, read1, staged1, e1) = bind-ok read_trigger _ u staged in
      let u1 = (read_trigger u).0 in
      let (withdrawal_psbt, read2, staged2, e2) = bind-ok read_withdrawal _ u1 staged1 in
      let u2 = (read_withdrawal u1).0 in
      let write_trigger =
        write_encrypted_emergency_transaction phone epoch seed trigger trigger_psbt in
      let write_withdrawal =
        write_encrypted_emergency_transaction phone epoch seed withdrawal withdrawal_psbt in
      let (done1, written1, staged3, e3) = bind-ok write_trigger _ u2 staged2 in
      let u3 = (write_trigger u2).0 in
      let (done2, written2, returned, e4) = bind-ok write_withdrawal _ u3 staged3 in
      let one = lift-Finishes _ w trigger_psbt unfailing (lift-ok _ u trigger_psbt read1) in
      let w1 = (read_trigger w).0 in
      let two =
        lift-Finishes _ w1 withdrawal_psbt one.unfailing (lift-ok _ u1 withdrawal_psbt read2) in
      let w2 = (read_withdrawal w1).0 in
      let three =
        write_encrypted_emergency_transaction-Finishes trigger trigger_psbt w2 two.unfailing in
      let w3 = (write_trigger w2).0 in
      let four =
        write_encrypted_emergency_transaction-Finishes withdrawal withdrawal_psbt w3
          three.unfailing in
      bind-Finishes read_trigger _ w trigger_psbt access one (
        bind-Finishes read_withdrawal _ w1 withdrawal_psbt access two (
          bind-Finishes write_trigger _ w2 tt access three (
            bind-Finishes write_withdrawal _ w3 tt access four (
              lift-Finishes _ (write_withdrawal w3).0 access four.unfailing
                (lift-ok _ (write_withdrawal u3).0 access returned)))))

module _ (phone : Phone) (seals : Seals phone.ciphers) (batch : Workspace) (rollover : Transaction)
    (seed : Bytes) where
  write_approval-Finishes :
      (u w : World) (done : Unit {0})
      → (write_approval phone batch rollover seed u).1 ≡ ok done
      → w.outcomes ≡ []
      → Finishes (write_approval phone batch rollover seed) w tt
  unfolding write_approval
  write_approval-Finishes u w done approved unfailing =
      let collect : Result Bytes = package_from_batch phone.formats batch >>> λ policy.
      context (phone.formats.package_to_vec policy) "failed to serialize package" in
      let (bytes, collected, later, e1) = bind-ok (lift collect) _ u approved in
      let one = lift-Finishes collect w bytes unfailing (lift-ok collect u bytes collected) in
      bind-Finishes (lift collect) _ w bytes tt one (
        sealed-Finishes phone seals (phone.lib.compute_txid rollover) seed _ bytes _
          phone.formats.blob_text (lift collect w).0 one.unfailing)

  pub stage_epoch-Finishes :
      (manifest : BatchManifest) (u w : World) (schedule : Schedule)
      → (stage_epoch phone batch manifest rollover seed u).1 ≡ ok schedule
      → w.outcomes ≡ []
      → Finishes (stage_epoch phone batch manifest rollover seed) w schedule
  unfolding stage_epoch
  stage_epoch-Finishes manifest u w schedule staged unfailing =
      let epoch = phone.lib.compute_txid rollover in
      let approve = write_approval phone batch rollover seed in
      let (saved, was_saved, staged1, e1) = bind-ok approve _ u staged in
      let u1 = (approve u).0 in
      let store =
        write_private (epoch_file epoch rollover_file) (phone.formats.rollover_text rollover) in
      let (stored, was_stored, staged2, e2) = bind-ok store _ u1 staged1 in
      let u2 = (store u1).0 in
      let allowances = stage_allowances phone batch epoch seed manifest.allowances in
      let (entries, listed, staged3, e3) = bind-ok allowances _ u2 staged2 in
      let u3 = (allowances u2).0 in
      let emergency = stage_emergency phone batch epoch seed manifest.emergency_access in
      let (access, accessed, staged4, e4) = bind-ok emergency _ u3 staged3 in
      let u4 = (emergency u3).0 in
      let put =
        write_private (epoch_file epoch epoch_schedule_file)
          (phone.formats.schedule_text (schedule_of phone manifest rollover entries access)) in
      let (done, was_put, returned, e5) = bind-ok put _ u4 staged4 in
      let one = write_approval-Finishes u w saved was_saved unfailing in
      let w1 = (approve w).0 in
      let two =
        write_private-Finishes (epoch_file epoch rollover_file)
          (phone.formats.rollover_text rollover) w1 one.unfailing in
      let w2 = (store w1).0 in
      let three =
        stage_allowances-Finishes phone seals epoch seed batch manifest.allowances u2 w2 entries
          listed two.unfailing in
      let w3 = (allowances w2).0 in
      let four =
        stage_emergency-Finishes phone seals epoch seed batch manifest.emergency_access u3 w3 access
          accessed three.unfailing in
      let w4 = (emergency w3).0 in
      let five =
        write_private-Finishes (epoch_file epoch epoch_schedule_file)
          (phone.formats.schedule_text (schedule_of phone manifest rollover entries access)) w4
          four.unfailing in
      bind-Finishes approve _ w tt schedule one (
        bind-Finishes store _ w1 tt schedule two (
          bind-Finishes allowances _ w2 entries schedule three (
            bind-Finishes emergency _ w3 access schedule four (
              bind-Finishes put _ w4 tt schedule five (
                lift-Finishes _ (put w4).0 schedule five.unfailing
                  (lift-ok _ (put u4).0 schedule returned))))))
