-- ===== src/Samples/Emergency.antt =====
-- An emergency access that the phone builds.
use anzen.Prelude.{
  List, [], ◌∷◌, map, ok, ◌≡◌, ◌+◌, ◌<◌, refl, ap, arith, length, u64_limit, list_eq,
}
use anzen.Constants.{connector_value_sats}
use anzen.Bitcoin.{OutPoint, TxIn, TxOut, PsbtInput, key_leaf_eq}
use anzen.Transactions.Construct.{fill_inputs, create_policy_psbt}
use anzen.Transactions.Signing.{sign_vault_psbt_inputs, sign_inputs, sign_input}
use anzen.Ceremony.Types.{ConnectorState, EmergencyAccessPolicy}
use anzen.Ceremony.Workspace.{Workspace, WriteOutcome, write_psbt}
use anzen.Ceremony.Templates.{output_of, emergency_trigger_fee, emergency_withdrawal_fee}
use anzen.Ceremony.EmergencyBuild.{
  EmergencyAmounts, emergency_amounts, emergency_access, presign, presign_emergency,
  write_presigned, build_emergency_access,
}
use anzen.Transactions.Unsigned.{KeepsTransaction}
use anzen.Ceremony.EmergencyBuild.Filled.{KeepsInputs, no_signatures}
use anzen.Ceremony.EmergencyBuild.Spends.{ShapeOnly}
use anzen.Samples.Toy.{vault_address, blank_input}
use anzen.Samples.Batch.{toy, policy, run_validate}
use anzen.Samples.Sweeps.{controller, destination}

abbrev pub null : OutPoint
null = record { txid = 0; vout = 0xffffffff }

abbrev pub source : OutPoint
source = record { txid = 405; vout = 1 }

abbrev pub remainder : TxOut
remainder = output_of 798590 vault_address.script_pubkey

abbrev pub trigger_connector : ConnectorState
trigger_connector = record { outpoint = record { txid = 405; vout = 3 }; value_sats = 1000 }

abbrev amounts : EmergencyAmounts
amounts = record {
  withdrawal_fee = 120;
  staging_value_sats = 49120;
  trigger_fee = 160;
  vault_change_value_sats = 749310;
}

abbrev pub access : EmergencyAccessPolicy
access =
    emergency_access toy null policy controller source remainder trigger_connector 50000 4195486
      destination vault_address.script_pubkey amounts

abbrev pub written : Workspace
written = ("emergency/withdrawal.psbt", "\n") ∷ ("emergency/trigger.psbt", "\n") ∷ []

pub built :
    build_emergency_access toy null policy controller source remainder trigger_connector 50000
      4195486 destination vault_address.script_pubkey 11
      (λ path. WriteOutcome.written)
      []
    ≡ (written, ok access)
unfolding presign_emergency write_presigned build_emergency_access presign emergency_amounts
    emergency_trigger_fee emergency_withdrawal_fee create_policy_psbt fill_inputs
    sign_vault_psbt_inputs sign_inputs sign_input write_psbt key_leaf_eq run_validate
built = refl

pub keeps-transaction : KeepsTransaction toy
keeps-transaction = record {
  stores = λ tx psbt made. ground arith;
  leaves = λ psbt next index descriptor updated. ground arith;
}

fresh_signatures :
    (inputs : List TxIn)
    → map (λ (i : PsbtInput). i.tap_script_sigs) (map (λ (i : TxIn). blank_input) inputs)
      ≡ map (λ (i : TxIn). no_signatures) inputs
fresh_signatures [] = refl
fresh_signatures (input ∷ inputs) = ap (λ rest. no_signatures ∷ rest) (fresh_signatures inputs)

pub keeps-inputs : KeepsInputs toy
keeps-inputs = record {
  blank = λ tx psbt made. let fresh = fresh_signatures tx.input in grind arith;
  prevouts = λ psbt next index descriptor updated. grind arith;
  signatures = λ psbt next index descriptor updated. grind arith;
}

map-eq-length {ℓ κ} :
    {A : Type ℓ} {B : Type κ} (f : A → B) (xs ys : List A)
    → map f xs ≡ map f ys
    → length xs ≡ length ys
map-eq-length f [] [] same = refl
map-eq-length f [] (y ∷ ys) same = absurd (ground arith)
map-eq-length f (x ∷ xs) [] same = absurd (ground arith)
map-eq-length f (x ∷ xs) (y ∷ ys) same = ground (arith, map-eq-length f xs ys)

pub shape : ShapeOnly toy
shape x y scripts witnesses outputs =
    let inputs_same = map-eq-length _ x.input y.input scripts in
    let outputs_same = map-eq-length _ x.output y.output outputs in omega arith

pub fits : remainder.value + connector_value_sats < u64_limit
fits = omega arith
