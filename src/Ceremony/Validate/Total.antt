-- ===== src/Ceremony/Validate/Total.antt =====
-- The check of a batch ends without a panic: no index is out of range where the source indexes.
use anzen.Prelude.{
  ℕ, zero, suc, ◌<◌, ◌≡◌, ◌≢◌, true, none, List, [], ◌∷◌, ok, panic, String, arith, get_elem?,
  length,
}
use anzen.Bitcoin.{Bitcoin, Bytes, Script, OutPoint, TxOut, TxIn, Transaction, PsbtInput, Psbt}
use anzen.Storage.{VaultConfig, bitcoin_network}
use anzen.Policy.{VaultPolicy, ControllerPolicy, SpendPath, ControllerPath}
use anzen.Policy.Total.{vault_leaf-ne-panic, controller_leaf-ne-panic, controller_new-ne-panic}
use anzen.Transactions.Roles.{contains}
use anzen.Transactions.Vsize.{policy_witnesses, estimate_policy_vsize}
use anzen.Ceremony.Types.{BatchTransaction}
use anzen.Ceremony.Workspace.{Workspace, read_psbt}
use anzen.Ceremony.Templates.{child_fee}
use anzen.Ceremony.Validate.Parts.{
  check_child_inputs, check_child_amounts, validate_connector_child, check_sequences, role_sum_from,
  controller_policy,
}
use anzen.Ceremony.Validate.Child.{output_sum_lem}

pub get_elem?-ne-none {ℓ} :
    {A : Type ℓ} (xs : List A) (i : ℕ) → i < length xs → get_elem? xs i ≢ none
get_elem?-ne-none [] i h e = absurd (omega arith)
get_elem?-ne-none (x ∷ xs) zero h e = cc
get_elem?-ne-none (x ∷ xs) (suc i) h e = get_elem?-ne-none xs i (omega arith) e

pub bitcoin_network-ne-panic : (config : VaultConfig) → bitcoin_network config ≢ panic
unfolding bitcoin_network
bitcoin_network-ne-panic config h = ground arith

policy_witnesses-ne-panic :
    (vault controller : List ℕ) (vw cw : List Bytes) (index : ℕ) (inputs : List TxIn)
    → policy_witnesses vault controller vw cw index inputs ≢ panic
unfolding policy_witnesses
policy_witnesses-ne-panic vault controller vw cw index [] h = ground arith
policy_witnesses-ne-panic vault controller vw cw index (input ∷ inputs) h =
    ground (arith, policy_witnesses-ne-panic vault controller vw cw (suc index) inputs)

pub role_sum_from-ne-panic :
    (inputs : List PsbtInput) (sum : ℕ) (indexes : List ℕ) (script : Script)
    → ((i : ℕ) → contains indexes i ≡ true → i < length inputs)
    → role_sum_from inputs sum indexes script ≢ panic
unfolding role_sum_from
role_sum_from-ne-panic inputs sum [] script below h = ground arith
role_sum_from-ne-panic inputs sum (index ∷ indexes) script below h =
    let known = get_elem?-ne-none inputs index (below index (ground arith)) in
    grind (
      arith,
      λ (next : ℕ).
          role_sum_from-ne-panic inputs next indexes script (λ i m. below i (ground arith)),
    )

pub check_sequences-ne-panic :
    (inputs : List TxIn) (indexes : List ℕ) (expected : ℕ) (message : String)
    → ((i : ℕ) → contains indexes i ≡ true → i < length inputs)
    → check_sequences inputs indexes expected message ≢ panic
unfolding check_sequences
check_sequences-ne-panic inputs [] expected message below h = ground arith
check_sequences-ne-panic inputs (index ∷ indexes) expected message below h =
    let known = get_elem?-ne-none inputs index (below index (ground arith)) in
    ground (
      arith,
      check_sequences-ne-panic inputs indexes expected message (λ i m. below i (ground arith)),
    )

module _ (lib : Bitcoin) where
  pub read_psbt-ne-panic : (files : Workspace) (path : String) → read_psbt lib files path ≢ panic
  unfolding read_psbt
  read_psbt-ne-panic files path h = ground arith

  pub controller_policy-ne-panic : (config : VaultConfig) → controller_policy lib config ≢ panic
  unfolding controller_policy
  controller_policy-ne-panic config h =
      grind (arith, bitcoin_network-ne-panic config, controller_new-ne-panic lib)

  pub estimate_policy_vsize-ne-panic :
      (tx : Transaction) (policy : VaultPolicy) (path : SpendPath) (v : List ℕ)
      (controller : ControllerPolicy) (cpath : ControllerPath) (c : List ℕ)
      → estimate_policy_vsize lib tx policy path v controller cpath c ≢ panic
  unfolding estimate_policy_vsize
  estimate_policy_vsize-ne-panic tx policy path v controller cpath c h = grind (
    arith,
    vault_leaf-ne-panic lib policy path,
    controller_leaf-ne-panic lib controller cpath,
    policy_witnesses-ne-panic,
  )

  pub child_fee-ne-panic :
      (tx : Transaction) (policy : VaultPolicy) (controller : ControllerPolicy)
      → child_fee lib tx policy controller ≢ panic
  unfolding child_fee
  child_fee-ne-panic tx policy controller h = grind (arith, estimate_policy_vsize-ne-panic)

  module _ (psbt : Psbt) (prevout : TxOut) (vo co : OutPoint) (cs : Script)
      (tx : BatchTransaction) where
    check_child_inputs-ne-panic : check_child_inputs lib psbt prevout vo co tx ≢ panic
    unfolding check_child_inputs
    check_child_inputs-ne-panic h = ground (
      arith,
      get_elem?-ne-none psbt.unsigned_tx.input 0,
      get_elem?-ne-none psbt.unsigned_tx.input 1,
      get_elem?-ne-none psbt.inputs 0,
      get_elem?-ne-none psbt.inputs 1,
    )

    check_child_inputs-length :
        check_child_inputs lib psbt prevout vo co tx ≡ ok tt
        → (length psbt.unsigned_tx.input ≡ 2) × (length psbt.inputs ≡ 2)
    unfolding check_child_inputs
    check_child_inputs-length h = ground arith

    check_child_amounts-ne-panic :
        length psbt.inputs ≡ 2 → check_child_amounts lib psbt prevout cs tx ≢ panic
    unfolding check_child_amounts
    check_child_amounts-ne-panic two h =
        ground (arith, output_sum_lem psbt.unsigned_tx, get_elem?-ne-none psbt.inputs 1)

    pub validate_connector_child-ne-panic :
        validate_connector_child lib psbt prevout vo co cs tx ≢ panic
    unfolding validate_connector_child
    validate_connector_child-ne-panic h = ground (
      arith, check_child_inputs-ne-panic, check_child_inputs-length, check_child_amounts-ne-panic,
    )

    pub validate_connector_child-inputs :
        validate_connector_child lib psbt prevout vo co cs tx ≡ ok tt
        → length psbt.unsigned_tx.input ≡ 2
    unfolding validate_connector_child
    validate_connector_child-inputs h = ground (arith, check_child_inputs-length)
