-- ===== src/Tests/Sweep.antt =====
-- The theorems on signatures, sweeps and networks at concrete inputs.
use anzen.Prelude.{
  ℕ, ◌+◌, ◌<◌, ◌≡◌, ◌↔◌, refl, inl, some, List, [], ◌∷◌, ok, All, nat_eq, true, length, range_from,
  arith, u64_limit,
}
use anzen.Bitcoin.{Network, regtest, Address, XOnlyPublicKey, Psbt}
use anzen.Storage.{bitcoin_network, network_name, parse_network_name, validate_supported_network}
use anzen.Storage.Names.{parse_network_name-network_name}
use anzen.Policy.{VaultPolicy, Leaf, SpendPath, vault_leaf, vault_from_descriptor, cooperative}
use anzen.Transactions.Signing.{verify_vault_psbt_signature}
use anzen.Transactions.Signatures.{AsksFor, SignedAt, verify_vault_psbt_signature-SignedAt}
use anzen.Transactions.SignVerify.{sign_vault_psbt-verifies}
use anzen.Transactions.Unsigned.{KeepsTransaction}
use anzen.Transactions.Revokes.{Revokes, build_controller_revocation_psbt-Revokes}
use anzen.Recovery.Sweep.{phone_recovery, hww_recovery, mature_utxos}
use anzen.Recovery.Maturity.{Mem, Ripe, mature_utxos-Ripe, mature_utxos-phone-first}
use anzen.Recovery.Prepared.{Sweeps, prepare_sweep-Sweeps}
use anzen.Recovery.Cooperative.{validate_cooperative_sweep}
use anzen.Recovery.Accepted.{
  SweepsVault, FullySigned, validate_cooperative_sweep-SweepsVault,
  finalize_cooperative_sweep-both-signed,
}
use anzen.Recovery.Renewal.{Renews, validate_rotation_policy_binding-Renews}
use anzen.Samples.Toy.{config}
use anzen.Samples.Batch.{policy}
use anzen.Samples.Sweeps.{
  toy as sweep_toy, utxo, unsigned, signed_once, signed, sweep, result, renewed, plan, controller,
  connector, revocation, destination, signs, verifies, validated, finalized, bound, prepared,
  revoked,
}

keeps : KeepsTransaction sweep_toy
keeps = record {
  stores = λ tx psbt made. ground arith;
  leaves = λ psbt next index descriptor updated. ground arith;
}

verify_vault_psbt_signature-SignedAt_example :
    (leaf : Leaf SpendPath) × (vault_leaf sweep_toy policy cooperative ≡ ok leaf)
    × All (AsksFor sweep_toy.sighash_default) signed.inputs
    × All (SignedAt sweep_toy signed leaf.leaf_hash 12) (range_from 0 (length signed.inputs))
verify_vault_psbt_signature-SignedAt_example =
    verify_vault_psbt_signature-SignedAt sweep_toy signed policy cooperative 12 verifies

schnorr_correct :
    (message : List ℕ) (keypair : ℕ)
    → sweep_toy.verify_schnorr
        (sweep_toy.sign_schnorr message keypair)
        message
        (sweep_toy.keypair_pubkey keypair)
      ≡ true
schnorr_correct message keypair = ground arith

sign_vault_psbt-verifies_example :
    verify_vault_psbt_signature sweep_toy signed_once policy cooperative 11 ≡ ok tt
sign_vault_psbt-verifies_example =
    sign_vault_psbt-verifies sweep_toy schnorr_correct (λ p q same index leaf. refl) unsigned policy
      cooperative 11 signed_once signs

validate_cooperative_sweep-SweepsVault_example :
    (network : Network) × (to : Address) × (bitcoin_network config ≡ ok network)
    × (vault_from_descriptor sweep_toy config.vault_descriptor network ≡ ok policy)
    × (sweep_toy.parse_address sweep.destination network ≡ some to)
    × SweepsVault sweep_toy sweep to policy signed
validate_cooperative_sweep-SweepsVault_example =
    validate_cooperative_sweep-SweepsVault sweep_toy config sweep policy signed validated

finalize_cooperative_sweep-both-signed_example :
    (vault : VaultPolicy) × (psbt : Psbt) × (phone_key : XOnlyPublicKey)
    × (hww_key : XOnlyPublicKey) × (validate_cooperative_sweep sweep_toy config sweep
        ≡ ok (vault, psbt))
    × (sweep_toy.pubkey_from_str config.phone_vault_pubkey ≡ some phone_key)
    × (sweep_toy.pubkey_from_str config.hww_vault_pubkey ≡ some hww_key)
    × FullySigned sweep_toy vault psbt phone_key
    × FullySigned sweep_toy vault psbt hww_key
finalize_cooperative_sweep-both-signed_example =
    finalize_cooperative_sweep-both-signed sweep_toy config sweep signed.unsigned_tx result
      finalized

validate_rotation_policy_binding-Renews_example : Renews sweep_toy config config sweep renewed
validate_rotation_policy_binding-Renews_example =
    validate_rotation_policy_binding-Renews sweep_toy config config sweep renewed bound

prepare_sweep-Sweeps_example :
    (plan.input_count ≡ length (mature_utxos (utxo ∷ []) phone_recovery 61299))
    × (0 < plan.input_count)
    × Sweeps sweep_toy keeps
        (mature_utxos (utxo ∷ []) phone_recovery 61299)
        phone_recovery
        destination
        plan.policy
        plan.psbt
        plan.fee_sats
        plan.sent_sats
prepare_sweep-Sweeps_example =
    prepare_sweep-Sweeps sweep_toy keeps config (utxo ∷ []) 61299 phone_recovery destination plan
      prepared

tip_fits : 65634 + 2 < u64_limit
tip_fits = omega arith

mature_utxos-Ripe_example :
    Mem utxo (mature_utxos (utxo ∷ []) hww_recovery 65634)
    ↔ Mem utxo (utxo ∷ []) × Ripe 65535 65634 utxo
mature_utxos-Ripe_example =
    mature_utxos-Ripe (utxo ∷ []) hww_recovery 65535 65634 utxo refl tip_fits

utxo-Ripe : Ripe 65535 65634 utxo
utxo-Ripe = omega arith

mature_utxos-phone-first_example : Mem utxo (mature_utxos (utxo ∷ []) phone_recovery 65634)
mature_utxos-phone-first_example =
    mature_utxos-phone-first (utxo ∷ []) 65634 65634 utxo tip_fits (omega arith) (
      (mature_utxos-Ripe (utxo ∷ []) hww_recovery 65535 65634 utxo refl tip_fits).1
        (inl refl, utxo-Ripe))

build_controller_revocation_psbt-Revokes_example :
    Revokes sweep_toy keeps (connector ∷ []) destination.script_pubkey 1 controller revocation 70
build_controller_revocation_psbt-Revokes_example =
    build_controller_revocation_psbt-Revokes sweep_toy keeps (connector ∷ [])
      destination.script_pubkey 1 controller revocation 70 revoked

parse_network_name-network_name_example :
    parse_network_name (network_name regtest) ≡ ok regtest
    ↔ validate_supported_network regtest ≡ ok tt
parse_network_name-network_name_example = parse_network_name-network_name regtest
