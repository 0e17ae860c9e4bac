-- ===== src/Ceremony/Validate/Outputs.antt =====
-- The outputs of an accepted rollover.
use anzen.Prelude.{
  ℕ, ◌+◌, ◌*◌, ◌≡◌, Bool, true, false, some, List, [], ◌∷◌, ok, arith, get_elem?, length,
  if◌then◌else◌,
}
use anzen.Constants.{connector_value_sats}
use anzen.Bitcoin.{Bitcoin, Script, TxOut, Psbt}
use anzen.Policy.{VaultPolicy, ControllerPolicy}
use anzen.Ceremony.Types.{BatchManifest}
use anzen.Ceremony.Amounts.{output_values}
use anzen.Ceremony.Templates.{from_bool, then_some, output_of, rollover_template}
use anzen.Transactions.Sums.{sum}
use anzen.Ceremony.Validate.Child.{total_output, output_sum_lem}
use anzen.Ceremony.Validate.Rollover.{
  check_rollover_form, check_rollover_amounts, check_output_indexes, check_rollover_outputs,
  has_allowances, has_emergency,
}

-- The outputs that `rollover_template` gives a rollover.
abbrev pub template_outputs : Bool → Bool → ℕ → ℕ → Script → Script → List TxOut
template_outputs monthly emergency allowance remainder vault_script controller_script =
    (rollover_template [] (then_some monthly allowance) remainder vault_script controller_script
      monthly emergency).output

outputs-eq-template :
    (outs : List TxOut) (ha he : Bool) (av rv : ℕ) (vs cs : Script)
    → length outs ≡ from_bool ha + 1 + from_bool ha + from_bool he
    → (ha ≡ true → get_elem? outs 0 ≡ some (output_of av vs))
    → get_elem? outs (from_bool ha) ≡ some (output_of rv vs)
    → (ha ≡ true → get_elem? outs (from_bool ha + 1) ≡ some (output_of connector_value_sats cs))
    → (he ≡ true
        → get_elem? outs (from_bool ha + 1 + from_bool ha)
          ≡ some (output_of connector_value_sats cs))
    → outs ≡ template_outputs ha he av rv vs cs
outputs-eq-template [] ha he av rv vs cs n a r m e = ground arith
outputs-eq-template (x ∷ []) true he av rv vs cs n a r m e = ground arith
outputs-eq-template (x ∷ []) false he av rv vs cs n a r m e = ground arith
outputs-eq-template (x ∷ y ∷ []) true he av rv vs cs n a r m e = ground arith
outputs-eq-template (x ∷ y ∷ []) false he av rv vs cs n a r m e = ground arith
outputs-eq-template (x ∷ y ∷ z ∷ []) true he av rv vs cs n a r m e = ground arith
outputs-eq-template (x ∷ y ∷ z ∷ []) false he av rv vs cs n a r m e = ground arith
outputs-eq-template (x ∷ y ∷ z ∷ w ∷ []) true he av rv vs cs n a r m e = ground arith
outputs-eq-template (x ∷ y ∷ z ∷ w ∷ []) false he av rv vs cs n a r m e = ground arith
outputs-eq-template (x ∷ y ∷ z ∷ w ∷ v ∷ outs) ha he av rv vs cs n a r m e = ground arith

module _ (lib : Bitcoin) (manifest : BatchManifest) where
  pub form-length :
      (rollover : Psbt)
      → check_rollover_form lib manifest rollover ≡ ok tt
      → length rollover.unsigned_tx.output
        ≡ from_bool (has_allowances manifest)
          + 1
          + from_bool (has_allowances manifest)
          + from_bool (has_emergency manifest)
  unfolding check_rollover_form
  form-length rollover form = ground arith

  pub check_output_indexes-eq-ok :
      check_output_indexes manifest ≡ ok tt
      → (manifest.allowance_vout ≡ then_some (has_allowances manifest) 0)
        × (manifest.remainder_vout ≡ from_bool (has_allowances manifest))
        × (manifest.monthly_connector_vout
            ≡ then_some (has_allowances manifest) (from_bool (has_allowances manifest) + 1))
        × (manifest.emergency_connector_vout
            ≡ then_some
                (has_emergency manifest)
                (from_bool (has_allowances manifest) + 1 + from_bool (has_allowances manifest)))
        × (has_allowances manifest ≡ false → manifest.allowance_value_sats ≡ 0)
  unfolding check_output_indexes
  check_output_indexes-eq-ok h =
      (ground arith, ground arith, ground arith, ground arith, λ e. ground arith)

  module _ (rollover : Psbt) (vs cs : Script)
      (outputs : check_rollover_outputs lib manifest rollover.unsigned_tx vs cs ≡ ok tt) where
    allowance_output :
        has_allowances manifest ≡ true
        → get_elem? rollover.unsigned_tx.output 0
          ≡ some (output_of manifest.allowance_value_sats vs)
    unfolding check_rollover_outputs
    allowance_output h = ground arith

    remainder_output :
        get_elem? rollover.unsigned_tx.output manifest.remainder_vout
        ≡ some (output_of manifest.remainder_value_sats vs)
    unfolding check_rollover_outputs
    remainder_output = ground arith

    monthly_output :
        (vout : ℕ)
        → manifest.monthly_connector_vout ≡ some vout
        → get_elem? rollover.unsigned_tx.output vout ≡ some (output_of connector_value_sats cs)
    unfolding check_rollover_outputs
    monthly_output vout h = ground arith

    emergency_output :
        (vout : ℕ)
        → manifest.emergency_connector_vout ≡ some vout
        → get_elem? rollover.unsigned_tx.output vout ≡ some (output_of connector_value_sats cs)
    unfolding check_rollover_outputs
    emergency_output vout h = ground arith

  -- The rollover's outputs are those of the template, in its order.
  pub check_rollover_outputs-eq-template :
      (rollover : Psbt) (vault_script controller_script : Script)
      → check_rollover_form lib manifest rollover ≡ ok tt
      → check_output_indexes manifest ≡ ok tt
      → check_rollover_outputs lib manifest rollover.unsigned_tx vault_script controller_script
        ≡ ok tt
      → rollover.unsigned_tx.output
        ≡ template_outputs
            (has_allowances manifest)
            (has_emergency manifest)
            manifest.allowance_value_sats
            manifest.remainder_value_sats
            vault_script
            controller_script
  check_rollover_outputs-eq-template rollover vs cs form indexes outputs =
      let (_, remainder, monthly, emergency, _) = check_output_indexes-eq-ok indexes in
      outputs-eq-template rollover.unsigned_tx.output (has_allowances manifest)
        (has_emergency manifest) manifest.allowance_value_sats manifest.remainder_value_sats vs cs
        (form-length rollover form) (allowance_output rollover vs cs outputs)
        (rw (← remainder) (remainder_output rollover vs cs outputs))
        (λ h. monthly_output rollover vs cs outputs _ (rw (monthly, h)))
        (λ h. emergency_output rollover vs cs outputs _ (rw (emergency, h)))

  -- The inputs of an accepted rollover pay its outputs and the fee of the manifest.
  pub check_rollover_amounts-conserves :
      (rollover : Psbt) (policy : VaultPolicy) (controller : ControllerPolicy)
      → check_rollover_amounts lib manifest rollover policy controller ≡ ok tt
      → (manifest.total_input_sats ≡ total_output rollover.unsigned_tx + manifest.rollover.fee_sats)
        × (manifest.total_input_sats ≡ manifest.vault_input_sats + manifest.controller_input_sats)
  unfolding check_rollover_amounts
  check_rollover_amounts-conserves rollover policy controller h =
      ground (arith, output_sum_lem rollover.unsigned_tx)

-- The value of the template's outputs.
pub total-template_outputs :
    (monthly emergency : Bool) (allowance remainder : ℕ) (vs cs : Script)
    → sum (output_values (template_outputs monthly emergency allowance remainder vs cs))
      ≡ (if monthly then allowance else 0)
        + remainder
        + connector_value_sats * (from_bool monthly + from_bool emergency)
total-template_outputs true true allowance remainder vs cs = omega arith
total-template_outputs true false allowance remainder vs cs = omega arith
total-template_outputs false true allowance remainder vs cs = omega arith
total-template_outputs false false allowance remainder vs cs = omega arith
