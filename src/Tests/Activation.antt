-- ===== src/Tests/Activation.antt =====
-- The theorems on activation at concrete inputs.
use anzen.Prelude.{◌≡◌, ◌≢◌, ◌⊎◌, List, [], ◌∷◌, ok, string_eq}
use anzen.Ceremony.Approved.{validate_approved_batch}
use anzen.Ceremony.Approved.Limits.{validate_approved_batch-limits}
use anzen.Ceremony.Schedule.{Schedule}
use anzen.HotWallet.World.{WriteOutcome, World, written, refused, unsynced}
use anzen.HotWallet.Commit.{activate_policy}
use anzen.HotWallet.Intact.{OthersIntact, Accepted, activate_policy-intact}
use anzen.HotWallet.Succeeded.{Active, activate_policy-Active}
use anzen.HotWallet.Superseded.{activate_policy-superseded}
use anzen.HotWallet.Resumes.{attempts, activate_policy-resumes}
use anzen.Samples.Toy.{config}
use anzen.Samples.Batch.{toy, manifest, files}
use anzen.Samples.Activation.{
  phone, batch, old_batch, old_manifest, old_rollover, world, schedule, activated, old_loaded,
  old_finalized, old_active, txids-read, schedules-read, configs-read, ciphers-Seals, other_epoch,
}

-- An attempt that is cut off by its third write.
abbrev interrupted : World
interrupted = record world { outcomes = written ∷ written ∷ refused ∷ [] }

activate_policy-intact_example :
    OthersIntact phone batch interrupted (activate_policy phone batch interrupted).0
    ⊎ Accepted phone batch interrupted (activate_policy phone batch interrupted).0
activate_policy-intact_example = activate_policy-intact phone batch interrupted

activate_policy-Active_example :
    Active phone batch world (activate_policy phone batch world).0 schedule
activate_policy-Active_example = activate_policy-Active phone batch world schedule activated

activate_policy-superseded_example :
    ((activate_policy phone old_batch (activate_policy phone batch world).0).0
      ≡ (activate_policy phone batch world).0)
    × ((again : Schedule)
        → (activate_policy phone old_batch (activate_policy phone batch world).0).1 ≢ ok again)
activate_policy-superseded_example =
    activate_policy-superseded phone txids-read schedules-read old_batch batch world old_manifest
      old_rollover schedule old_loaded old_finalized old_active activated other_epoch

-- The first attempt is cut off while the epoch is staged, the second after its schedule is written.
abbrev runs : List (List WriteOutcome)
runs =
    (written ∷ refused ∷ [])
    ∷ (written ∷ written ∷ written ∷ written ∷ written ∷ written ∷ written ∷ written ∷ unsynced
        ∷ [])
    ∷ []

activate_policy-resumes_example :
    (activate_policy phone batch (record (attempts phone batch runs world) { outcomes = [] })).1
    ≡ ok schedule
activate_policy-resumes_example =
    activate_policy-resumes phone batch ciphers-Seals txids-read schedules-read configs-read
      (λ sent rollover accepted. accepted) world schedule activated runs

validate_approved_batch-limits_example :
    validate_approved_batch toy
      (record config { monthly_limit_sats = 7; emergency_access_limit_sats = 8 })
      manifest
      files
    ≡ validate_approved_batch toy config manifest files
validate_approved_batch-limits_example =
    validate_approved_batch-limits toy config 7 8 manifest files
