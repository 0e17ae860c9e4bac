-- ===== src/Ceremony/Validate/Inputs.antt =====
-- The inputs of an accepted rollover.
use anzen.Prelude.{
  ℕ, ◌+◌, ◌≡◌, refl, Option, none, some, List, [], ◌∷◌, map, ok, false, arith, get_elem?, length,
  All,
}
use anzen.Bitcoin.{Bitcoin, Script, TxOut, PsbtInput, Psbt}
use anzen.Policy.{VaultPolicy, ControllerPolicy}
use anzen.Transactions.Roles.{breaks_partition}
use anzen.Transactions.Partition.{IsPartition, breaks_partition-IsPartition}
use anzen.Transactions.Sums.{sum}
use anzen.Ceremony.Types.{BatchManifest}
use anzen.Ceremony.Validate.Parts.{validate_input_partition, role_sum_from, psbt_role_input_sum}
use anzen.Ceremony.Validate.Child.{total_output, output_sum_lem}
use anzen.Ceremony.Validate.Rollover.{check_rollover_form, check_rollover_amounts}

-- The input at an index spends an output of a script.
abbrev pub Spends : List PsbtInput → Script → ℕ → Type 0
Spends inputs script index =
    (entry : PsbtInput) × (prevout : TxOut) × (get_elem? inputs index ≡ some entry)
    × (entry.witness_utxo ≡ some prevout)
    × (prevout.script_pubkey ≡ script)

abbrev prevout_value : Option TxOut → ℕ
prevout_value none = 0
prevout_value (some prevout) = prevout.value

abbrev entry_value : Option PsbtInput → ℕ
entry_value none = 0
entry_value (some entry) = prevout_value entry.witness_utxo

-- The value that the inputs at some indexes spend.
abbrev pub spent_at : List PsbtInput → List ℕ → ℕ
spent_at inputs indexes = sum (map (λ index. entry_value (get_elem? inputs index)) indexes)

role_sum_from-Spends :
    (inputs : List PsbtInput) (total : ℕ) (indexes : List ℕ) (script : Script) (n : ℕ)
    → role_sum_from inputs total indexes script ≡ ok n
    → All (Spends inputs script) indexes × (n ≡ total + spent_at inputs indexes)
unfolding role_sum_from
role_sum_from-Spends inputs total [] script n h = (tt, ground arith)
role_sum_from-Spends inputs total (index ∷ indexes) script n h =
    let (entry, prevout, found, spends, same, rest) = step in
    let (all, adds) = role_sum_from-Spends inputs (total + prevout.value) indexes script n rest in
    let value : entry_value (get_elem? inputs index) ≡ prevout.value = rw (found, spends) refl in
    (((entry, prevout, found, spends, same), all), omega (arith, value, adds))
  where
    step :
        (entry : PsbtInput) × (prevout : TxOut) × (get_elem? inputs index ≡ some entry)
        × (entry.witness_utxo ≡ some prevout)
        × (prevout.script_pubkey ≡ script)
        × (role_sum_from inputs (total + prevout.value) indexes script ≡ ok n)
    step = ground arith

module _ (lib : Bitcoin) (manifest : BatchManifest) where
  -- The rollover's inputs: each has one role, and pays from an output of its role's script.
  pub record Funded (rollover : Psbt) (vault_script controller_script : Script) : Type 0 where
    pub roles :
        IsPartition
          (length rollover.inputs)
          manifest.rollover.vault_input_indexes
          manifest.rollover.controller_input_indexes
    pub vault : All (Spends rollover.inputs vault_script) manifest.rollover.vault_input_indexes
    pub controller :
        All (Spends rollover.inputs controller_script) manifest.rollover.controller_input_indexes
    pub vault_inputs :
        manifest.vault_input_sats ≡ spent_at rollover.inputs manifest.rollover.vault_input_indexes
    pub controller_inputs :
        manifest.controller_input_sats
        ≡ spent_at rollover.inputs manifest.rollover.controller_input_indexes
    pub conserves :
        spent_at rollover.inputs manifest.rollover.vault_input_indexes
          + spent_at rollover.inputs manifest.rollover.controller_input_indexes
        ≡ total_output rollover.unsigned_tx + manifest.rollover.fee_sats

  check_rollover_form-roles :
      (rollover : Psbt)
      → check_rollover_form lib manifest rollover ≡ ok tt
      → (breaks_partition
            (length rollover.unsigned_tx.input)
            manifest.rollover.vault_input_indexes
            manifest.rollover.controller_input_indexes
          ≡ false)
        × (length rollover.unsigned_tx.input ≡ length rollover.inputs)
  unfolding check_rollover_form validate_input_partition
  check_rollover_form-roles rollover form = (ground arith, ground arith)

  check_rollover_amounts-sums :
      (rollover : Psbt) (policy : VaultPolicy) (controller : ControllerPolicy)
      → check_rollover_amounts lib manifest rollover policy controller ≡ ok tt
      → (psbt_role_input_sum rollover manifest.rollover.vault_input_indexes
            policy.address.script_pubkey
          ≡ ok manifest.vault_input_sats)
        × (psbt_role_input_sum rollover manifest.rollover.controller_input_indexes
              controller.address.script_pubkey
            ≡ ok manifest.controller_input_sats)
        × (manifest.vault_input_sats + manifest.controller_input_sats
            ≡ total_output rollover.unsigned_tx + manifest.rollover.fee_sats)
  unfolding check_rollover_amounts
  check_rollover_amounts-sums rollover policy controller h =
      (ground arith, ground arith, ground (arith, output_sum_lem rollover.unsigned_tx))

  pub check_rollover-Funded :
      (rollover : Psbt) (policy : VaultPolicy) (controller : ControllerPolicy)
      → check_rollover_form lib manifest rollover ≡ ok tt
      → check_rollover_amounts lib manifest rollover policy controller ≡ ok tt
      → Funded rollover policy.address.script_pubkey controller.address.script_pubkey
  unfolding psbt_role_input_sum
  check_rollover-Funded rollover policy controller form amounts =
      let (apart, counted) = check_rollover_form-roles rollover form in
      let (by_vault, by_controller, conserves) =
        check_rollover_amounts-sums rollover policy controller amounts in
      let (vault, vault_sum) = role_sum_from-Spends rollover.inputs 0 _ _ _ by_vault in
      let (other, other_sum) = role_sum_from-Spends rollover.inputs 0 _ _ _ by_controller in
      record {
        roles = breaks_partition-IsPartition _ _ _ (rw counted at apart);
        vault = vault;
        controller = other;
        vault_inputs = omega (arith, vault_sum);
        controller_inputs = omega (arith, other_sum);
        conserves = omega (arith, vault_sum, other_sum, conserves);
      }
