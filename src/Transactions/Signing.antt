-- ===== src/Transactions/Signing.antt =====
-- Signing and verifying the taproot script-path inputs of a PSBT.
use anzen.Prelude.{
  ℕ, String, not, Option, none, some, List, [], ◌∷◌, Result, ok, ◌>>=◌, ◌>>◌, bail_if, context,
  ◌==◌, ◌!=◌, Eq, nat_eq, if◌then◌else◌, length, get_elem?, range_from, any,
}
use anzen.Bitcoin.{
  Bitcoin, XOnlyPublicKey, LeafHash, PsbtInput, Psbt, Keypair, TapSignature, Transaction,
  key_leaf_eq,
}
use anzen.Policy.{
  SpendPath, ControllerPath, VaultPolicy, ControllerPolicy, vault_leaf, controller_leaf,
}
use anzen.Transactions.Construct.{update_input}

-- `BTreeMap::get` and `BTreeMap::insert`
module _ {ℓ κ} {K : Type ℓ} {V : Type κ} ⦃e : Eq K⦄ where
  abbrev pub lookup : K → List (K × V) → Option V
  lookup k [] = none
  lookup k ((j, v) ∷ m) = if k == j then some v else lookup k m

  abbrev pub insert : K → V → List (K × V) → List (K × V)
  insert k v m = (k, v) ∷ m

-- The two functions for each role differ in their messages alone.
pub data Role : Type 0 where
  vault controller : Role

abbrev pub out_of_range : Role → String
out_of_range vault = "vault signing input index {index} is out of range"
out_of_range controller = "controller signing input index {index} is out of range"

abbrev pub not_in_input : Role → String
not_in_input vault = "signing key {signing_pubkey} is not in PSBT input {index}"
not_in_input controller = "controller signing key {signing_pubkey} is not in PSBT input {index}"

abbrev pub not_authorized : Role → String
not_authorized vault = "signing key {signing_pubkey} is not authorized by the {path:?} leaf"
not_authorized controller =
    "signing key {signing_pubkey} is not authorized by the {path:?} controller leaf"

abbrev pub no_sighash : Role → String
no_sighash vault = "vault input {index} did not produce a Taproot sighash"
no_sighash controller = "controller input {index} did not produce a Taproot sighash"

abbrev pub lacks_signature : Role → String
lacks_signature vault = "PSBT input {index} lacks the expected signature from {signing_pubkey}"
lacks_signature controller =
    "PSBT input {index} lacks the expected controller signature from {signing_pubkey}"

abbrev pub verify_out_of_range : Role → String
verify_out_of_range vault = "vault verification input index {index} is out of range"
verify_out_of_range controller = "controller verification input index {index} is out of range"

abbrev pub invalid_signature : Role → String
invalid_signature vault = "invalid vault signature on PSBT input {index}"
invalid_signature controller = "invalid controller signature on PSBT input {index}"

module _ (lib : Bitcoin) where
  -- The loop of `validate_default_sighashes`.
  unfoldable pub check_sighashes : List PsbtInput → Result (Unit {0})
  check_sighashes [] = ok tt
  check_sighashes (input ∷ inputs) = do
    elim input.sighash_type [
      | none ↦ ok tt
      | some sighash_type ↦
          bail_if (sighash_type != lib.sighash_default)
            "PSBT input {index} must use SIGHASH_DEFAULT"
    ]
    check_sighashes inputs

  abbrev pub validate_default_sighashes : Psbt → Result (Unit {0})
  validate_default_sighashes psbt = check_sighashes psbt.inputs

  -- The body of the loop of `sign_vault_psbt_inputs` and `sign_controller_psbt_inputs`.
  unfoldable pub sign_input : Role → Psbt → LeafHash → Keypair → ℕ → Result Psbt
  sign_input role psbt leaf keypair index = do
    let signing_pubkey = lib.keypair_pubkey keypair
    input ← context (get_elem? psbt.inputs index) (out_of_range role)
    origins ← context (lookup signing_pubkey input.tap_key_origins) (not_in_input role)
    bail_if (not (any (λ hash. leaf == hash) origins)) (not_authorized role)
    message ← context (lib.sighash_msg psbt index leaf) (no_sighash role)
    let signature : TapSignature = record {
      signature = lib.sign_schnorr message keypair;
      sighash_type = lib.sighash_default;
    }
    update_input psbt index λ i. record i {
      tap_script_sigs = insert (signing_pubkey, leaf) signature i.tap_script_sigs;
    }

  unfoldable pub sign_inputs : Role → Psbt → LeafHash → Keypair → List ℕ → Result Psbt
  sign_inputs role psbt leaf keypair [] = ok psbt
  sign_inputs role psbt leaf keypair (index ∷ indexes) = do
    signed ← sign_input role psbt leaf keypair index
    sign_inputs role signed leaf keypair indexes

  unfoldable pub sign_vault_psbt_inputs :
      Psbt → VaultPolicy → SpendPath → Keypair → List ℕ → Result Psbt
  sign_vault_psbt_inputs psbt policy path keypair indexes = do
    validate_default_sighashes psbt
    leaf ← vault_leaf lib policy path
    sign_inputs vault psbt leaf.leaf_hash keypair indexes

  unfoldable pub sign_vault_psbt : Psbt → VaultPolicy → SpendPath → Keypair → Result Psbt
  unfolding sign_vault_psbt_inputs
  sign_vault_psbt psbt policy path keypair =
      sign_vault_psbt_inputs psbt policy path keypair (range_from 0 (length psbt.inputs))

  unfoldable pub sign_controller_psbt_inputs :
      Psbt → ControllerPolicy → ControllerPath → Keypair → List ℕ → Result Psbt
  sign_controller_psbt_inputs psbt policy path keypair indexes = do
    validate_default_sighashes psbt
    leaf ← controller_leaf lib policy path
    sign_inputs controller psbt leaf.leaf_hash keypair indexes

  -- The body of the loop of the two functions that verify.
  unfoldable pub verify_input : Role → Psbt → LeafHash → XOnlyPublicKey → ℕ → Result (Unit {0})
  verify_input role psbt leaf signing_pubkey index = do
    input ← context (get_elem? psbt.inputs index) (verify_out_of_range role)
    signature ← context (lookup (signing_pubkey, leaf) input.tap_script_sigs) (lacks_signature role)
    bail_if (signature.sighash_type != lib.sighash_default)
        "PSBT input {index} uses a non-default Taproot sighash"
    message ← context (lib.sighash_msg psbt index leaf) (no_sighash role)
    bail_if (not (lib.verify_schnorr signature.signature message signing_pubkey))
        (invalid_signature role)

  unfoldable pub verify_inputs :
      Role → Psbt → LeafHash → XOnlyPublicKey → List ℕ → Result (Unit {0})
  verify_inputs role psbt leaf signing_pubkey [] = ok tt
  verify_inputs role psbt leaf signing_pubkey (index ∷ indexes) = do
    verify_input role psbt leaf signing_pubkey index
    verify_inputs role psbt leaf signing_pubkey indexes

  unfoldable pub verify_vault_psbt_signatures :
      Psbt → VaultPolicy → SpendPath → XOnlyPublicKey → List ℕ → Result (Unit {0})
  verify_vault_psbt_signatures psbt policy path signing_pubkey indexes = do
    validate_default_sighashes psbt
    leaf ← vault_leaf lib policy path
    verify_inputs vault psbt leaf.leaf_hash signing_pubkey indexes

  unfoldable pub verify_vault_psbt_signature :
      Psbt → VaultPolicy → SpendPath → XOnlyPublicKey → Result (Unit {0})
  unfolding verify_vault_psbt_signatures
  verify_vault_psbt_signature psbt policy path signing_pubkey =
      verify_vault_psbt_signatures psbt policy path signing_pubkey
        (range_from 0 (length psbt.inputs))

  unfoldable pub verify_controller_psbt_signatures :
      Psbt → ControllerPolicy → ControllerPath → XOnlyPublicKey → List ℕ → Result (Unit {0})
  verify_controller_psbt_signatures psbt policy path signing_pubkey indexes = do
    validate_default_sighashes psbt
    leaf ← controller_leaf lib policy path
    verify_inputs controller psbt leaf.leaf_hash signing_pubkey indexes

  unfoldable pub finalize_vault_psbt : Psbt → Result Transaction
  finalize_vault_psbt psbt = do
    validate_default_sighashes psbt
    finalized ← context (lib.finalize psbt) "unable to finalize vault PSBT"
    context (lib.extract finalized) "unable to extract finalized vault transaction"
