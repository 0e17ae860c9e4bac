-- ===== src/Samples/Approved.antt =====
-- The sample batch, signed by both devices, passes the phone's check.
use anzen.Prelude.{ok, ◌≡◌, refl}
use anzen.Bitcoin.{key_leaf_eq}
use anzen.Transactions.Signing.{verify_vault_psbt_signatures, verify_inputs, verify_input}
use anzen.Ceremony.Approved.{
  finalize_inputs, check_approved_transaction, check_approved_transactions, validate_approved_batch,
}
use anzen.Samples.Toy.{config}
use anzen.Samples.Batch.{toy, manifest, files, policy, run_validate}

pub approved : validate_approved_batch toy config manifest files ≡ ok policy
unfolding validate_approved_batch check_approved_transactions check_approved_transaction
    finalize_inputs verify_vault_psbt_signatures verify_inputs verify_input key_leaf_eq run_validate
approved = refl
