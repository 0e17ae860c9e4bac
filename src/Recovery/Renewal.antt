-- ===== src/Recovery/Renewal.antt =====
-- What an accepted renewal of the policy for a rotation guarantees.
use anzen.Prelude.{◌≡◌, sym, ◌∙◌, String, true, some, [], ◌∷◌, ok, arith, get_elem?, length, nat_eq}
use anzen.Bitcoin.{Bitcoin, TxIn, TxOut, Psbt, PsbtInput}
use anzen.Storage.{VaultConfig}
use anzen.Ceremony.Workspace.{read_file}
use anzen.Recovery.Cooperative.{CooperativeSweepPackage}
use anzen.Recovery.Rotation.{PolicyPackage, check_chained, validate_rotation_policy_binding}
use anzen.Recovery.Accepted.{singleton}

module _ (lib : Bitcoin) where
  check_chained-eq-ok :
      (rollover sweep : Psbt) (output : TxOut)
      → check_chained lib rollover sweep output ≡ ok tt
      → (input : TxIn) × (entry : PsbtInput) × (length rollover.unsigned_tx.input ≡ 1)
        × (length rollover.inputs ≡ 1)
        × (get_elem? rollover.unsigned_tx.input 0 ≡ some input)
        × (get_elem? rollover.inputs 0 ≡ some entry)
        × (input.previous_output.txid ≡ lib.compute_txid sweep.unsigned_tx)
        × (input.previous_output.vout ≡ 0)
        × (entry.witness_utxo ≡ some output)
  unfolding check_chained
  check_chained-eq-ok rollover sweep output h = ground arith

  -- What a renewed policy must be: it keeps both limits, is the phone's proposal for the new
  -- vault, and its rollover spends exactly the first output of the sweep.
  pub record Renews (old new : VaultConfig) (sweep : CooperativeSweepPackage)
      (renewed : PolicyPackage) : Type 0 where
    pub approved : renewed.manifest.phone_approved ≡ true
    pub descriptor : renewed.manifest.vault_descriptor ≡ new.vault_descriptor
    pub address : renewed.manifest.vault_address ≡ new.vault_address
    pub monthly : renewed.manifest.monthly_limit_sats ≡ old.monthly_limit_sats
    pub emergency : renewed.manifest.emergency_access_limit_sats ≡ old.emergency_access_limit_sats
    pub sweep_psbt : Psbt
    pub rollover : Psbt
    pub reads :
        (text : String) × (read_file renewed.manifest.rollover.psbt_file renewed.psbts ≡ some text)
        × (lib.psbt_from_str text ≡ some rollover)
    pub sweep_reads : lib.psbt_from_str sweep.psbt ≡ some sweep_psbt
    pub spends :
        (input : TxIn) × (rollover.unsigned_tx.input ≡ input ∷ [])
        × (input.previous_output.txid ≡ lib.compute_txid sweep_psbt.unsigned_tx)
        × (input.previous_output.vout ≡ 0)
    pub prevout :
        (entry : PsbtInput) × (rollover.inputs ≡ entry ∷ [])
        × (entry.witness_utxo ≡ get_elem? sweep_psbt.unsigned_tx.output 0)

  binding-eq-ok :
      (old new : VaultConfig) (sweep : CooperativeSweepPackage) (renewed : PolicyPackage)
      → validate_rotation_policy_binding lib old new sweep renewed ≡ ok tt
      → (renewed.manifest.phone_approved ≡ true)
        × (renewed.manifest.vault_descriptor ≡ new.vault_descriptor)
        × (renewed.manifest.vault_address ≡ new.vault_address)
        × (renewed.manifest.monthly_limit_sats ≡ old.monthly_limit_sats)
        × (renewed.manifest.emergency_access_limit_sats ≡ old.emergency_access_limit_sats)
        × (sweep_psbt : Psbt) × (lib.psbt_from_str sweep.psbt ≡ some sweep_psbt)
        × (output : TxOut) × (get_elem? sweep_psbt.unsigned_tx.output 0 ≡ some output)
        × (text : String) × (read_file renewed.manifest.rollover.psbt_file renewed.psbts
            ≡ some text)
        × (rollover : Psbt) × (lib.psbt_from_str text ≡ some rollover)
        × (check_chained lib rollover sweep_psbt output ≡ ok tt)
  unfolding validate_rotation_policy_binding
  binding-eq-ok old new sweep renewed h = ground arith

  -- An accepted renewal of the policy for a rotation keeps both limits, and its rollover has one
  -- input, which spends the first output of the sweep to the new vault.
  pub validate_rotation_policy_binding-Renews :
      (old new : VaultConfig) (sweep : CooperativeSweepPackage) (renewed : PolicyPackage)
      → validate_rotation_policy_binding lib old new sweep renewed ≡ ok tt
      → Renews old new sweep renewed
  validate_rotation_policy_binding-Renews old new sweep renewed h =
      let (
        approved, descriptor, address, monthly, emergency, sweep_psbt, sweep_reads, output, first,
        text, found, rollover, parsed, chained,
      ) =
        binding-eq-ok old new sweep renewed h in
      let (input, entry, one_input, one_entry, spent, spender, txid, vout, prevout) =
        check_chained-eq-ok rollover sweep_psbt output chained in
      record {
        approved = approved;
        descriptor = descriptor;
        address = address;
        monthly = monthly;
        emergency = emergency;
        sweep_psbt = sweep_psbt;
        rollover = rollover;
        reads = (text, found, parsed);
        sweep_reads = sweep_reads;
        spends = (input, singleton rollover.unsigned_tx.input input one_input spent, txid, vout);
        prevout = (entry, singleton rollover.inputs entry one_entry spender, prevout ∙ sym first);
      }
