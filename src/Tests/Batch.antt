-- ===== src/Tests/Batch.antt =====
-- The theorems on batches at concrete inputs.
use anzen.Prelude.{
  ℕ, ◌+◌, ◌*◌, ◌<◌, ◌≤◌, ◌≡◌, ◌≢◌, ◌↔◌, refl, some, [], ◌∷◌, ok, panic, All, nat_eq, true, false,
  arith, u64_limit,
}
use anzen.Constants.{connector_value_sats, monthly_allowance_delay_seconds, months_per_rollover}
use anzen.Bitcoin.{XOnlyPublicKey}
use anzen.Transactions.Partition.{IsPartition, breaks_partition-IsPartition}
use anzen.Transactions.Roles.{breaks_partition}
use anzen.Ceremony.Amounts.{allowance_chain_value}
use anzen.Ceremony.ChainValue.{allowance_chain_value-eq-ok}
use anzen.Ceremony.Templates.{from_bool}
use anzen.Ceremony.Types.{EmergencyAccessPolicy, manifest_transactions}
use anzen.Ceremony.Validate.Chain.{Chain, total_fees}
use anzen.Ceremony.Validate.Rollover.{validate_batch, has_allowances, has_emergency}
use anzen.Ceremony.Validate.Inputs.{Funded}
use anzen.Ceremony.Validate.Accepted.{opened, validate_batch-conserves}
use anzen.Ceremony.Validate.Funds.{rollover_source, validate_batch-Chain, validate_batch-funds}
use anzen.Ceremony.Validate.Access.{validate_batch-EmergencyAccess}
use anzen.Ceremony.Validate.Withdrawal.{EmergencyAccess}
use anzen.Ceremony.Validate.NoPanic.{validate_batch-ne-panic}
use anzen.Samples.Toy.{config}
use anzen.Samples.Batch.{toy, manifest, files, policy, accepted}
use anzen.Samples.Approved.{approved}
use anzen.Ceremony.EmergencyBuild.Agrees.{Agrees}
use anzen.Ceremony.Selection.Chosen.{Chosen}
use anzen.Ceremony.Approved.Signed.{BothSigned, validate_approved_batch-BothSigned}
use anzen.Samples.Sweeps.{controller}

validate_batch-conserves_example :
    Funded toy manifest
      (opened toy config manifest files accepted).rollover
      (opened toy config manifest files accepted).policy.address.script_pubkey
      (opened toy config manifest files accepted).controller.address.script_pubkey
    × (manifest.total_input_sats
        ≡ manifest.allowance_value_sats
          + manifest.remainder_value_sats
          + connector_value_sats
            * (from_bool (has_allowances manifest) + from_bool (has_emergency manifest))
          + manifest.rollover.fee_sats)
    × (manifest.total_input_sats ≡ manifest.vault_input_sats + manifest.controller_input_sats)
validate_batch-conserves_example = validate_batch-conserves toy config manifest files accepted

validate_batch-Chain_example :
    (delay : ℕ) × (toy.from_seconds_ceil monthly_allowance_delay_seconds ≡ some delay)
    × Chain toy config manifest files
        (opened toy config manifest files accepted).policy
        (opened toy config manifest files accepted).controller
        delay
        (rollover_source toy config manifest files accepted refl)
        manifest.allowances
validate_batch-Chain_example = validate_batch-Chain toy config manifest files accepted refl

validate_batch-funds_example :
    (manifest.allowance_value_sats + connector_value_sats
      ≡ manifest.allowance_count * manifest.monthly_limit_sats + total_fees manifest.allowances)
    × (manifest.allowance_count ≤ months_per_rollover)
validate_batch-funds_example = validate_batch-funds toy config manifest files accepted refl

emergency_limit-ne-zero : manifest.emergency_access_limit_sats ≢ 0
emergency_limit-ne-zero h = absurd (omega arith)

validate_batch-EmergencyAccess_example :
    (e : EmergencyAccessPolicy) × (manifest.emergency_access ≡ some e)
    × EmergencyAccess toy config manifest files
        (opened toy config manifest files accepted).policy
        (opened toy config manifest files accepted).controller
        (opened toy config manifest files accepted).rollover
        e
    × (manifest.remainder_value_sats + connector_value_sats
        ≡ e.staging_value_sats + e.vault_change_value_sats + connector_value_sats
          + e.trigger.fee_sats)
    × (e.staging_value_sats + connector_value_sats
        ≡ manifest.emergency_access_limit_sats + e.withdrawal.fee_sats)
validate_batch-EmergencyAccess_example =
    validate_batch-EmergencyAccess toy config manifest files accepted emergency_limit-ne-zero

validate_batch-ne-panic_example : validate_batch toy config manifest files ≢ panic
validate_batch-ne-panic_example = validate_batch-ne-panic toy config manifest files

validate_approved_batch-BothSigned_example :
    (manifest.phone_approved ≡ true)
    × (manifest.hww_approved ≡ true)
    × (validate_batch toy config manifest files ≡ ok policy)
    × (phone_key : XOnlyPublicKey) × (toy.pubkey_from_str config.phone_vault_pubkey
        ≡ some phone_key)
    × (hww_key : XOnlyPublicKey) × (toy.pubkey_from_str config.hww_vault_pubkey ≡ some hww_key)
    × All (BothSigned toy files policy phone_key hww_key) (manifest_transactions manifest)
validate_approved_batch-BothSigned_example =
    validate_approved_batch-BothSigned toy config manifest files policy approved

partition_accepted : breaks_partition 3 (0 ∷ 2 ∷ []) (1 ∷ []) ≡ false
unfolding breaks_partition nat_eq
partition_accepted = refl

breaks_partition-IsPartition_example : IsPartition 3 (0 ∷ 2 ∷ []) (1 ∷ [])
breaks_partition-IsPartition_example =
    breaks_partition-IsPartition 3 (0 ∷ 2 ∷ []) (1 ∷ []) partition_accepted

allowance_chain_value-eq-ok_example :
    allowance_chain_value 2 100000 160 120 ≡ ok 199280
    ↔ (199280 + connector_value_sats ≡ 100000 * 2 + 160 * 1 + 120)
      × (100000 * 2 + 160 * 1 + 120 < u64_limit)
allowance_chain_value-eq-ok_example = allowance_chain_value-eq-ok 1 100000 160 120 199280
