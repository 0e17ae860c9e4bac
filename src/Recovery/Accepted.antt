-- ===== src/Recovery/Accepted.antt =====
-- What an accepted and a finalized cooperative sweep guarantee.
use anzen.Prelude.{
  ℕ, ◌+◌, ◌≡◌, false, none, some, List, [], ◌∷◌, ok, arith, get_elem?, length, All, any, ◌!=◌,
  nat_eq, range_from,
}
use anzen.Bitcoin.{
  Bitcoin, Address, Network, Script, TxIn, TxOut, Transaction, Psbt, PsbtInput, XOnlyPublicKey,
}
use anzen.Storage.{VaultConfig, bitcoin_network}
use anzen.Policy.{
  VaultPolicy, Leaf, SpendPath, vault_leaf, vault_from_descriptor, cooperative as spend_cooperative,
}
use anzen.Transactions.Vsize.{estimate_vault_vsize}
use anzen.Transactions.Signing.{verify_vault_psbt_signature}
use anzen.Transactions.Signatures.{SignedAt, verify_vault_psbt_signature-SignedAt}
use anzen.Ceremony.Templates.{output_of}
use anzen.Recovery.Sweep.{SweepResult}
use anzen.Recovery.Cooperative.{
  CooperativeSweepPackage, sweep_sum_from, check_sweep_form, check_sweep_amounts,
  validate_cooperative_sweep, finalize_cooperative_sweep,
}

-- The value that an input spends.
abbrev pub input_value : PsbtInput → ℕ
input_value input = elim input.witness_utxo [ none ↦ 0 | some prevout ↦ prevout.value ]

abbrev pub total_inputs : List PsbtInput → ℕ
total_inputs [] = 0
total_inputs (input ∷ inputs) = input_value input + total_inputs inputs

-- An input whose previous output is one of the vault.
abbrev pub InVault : Script → PsbtInput → Type 0
InVault vault_script input =
    (prevout : TxOut) × (input.witness_utxo ≡ some prevout) × (prevout.script_pubkey ≡ vault_script)

sweep_sum_from-InVault :
    (total : ℕ) (inputs : List PsbtInput) (script : Script) (sum : ℕ)
    → sweep_sum_from total inputs script ≡ ok sum
    → (sum ≡ total + total_inputs inputs) × All (InVault script) inputs
unfolding sweep_sum_from
sweep_sum_from-InVault total [] script sum h = (ground arith, tt)
sweep_sum_from-InVault total (input ∷ inputs) script sum h =
    let (prevout, found, inside, rest) = step in
    let (adds, all) = sweep_sum_from-InVault (total + prevout.value) inputs script sum rest in
    (ground (arith, found, adds), ((prevout, found, inside), all))
  where
    step :
        (prevout : TxOut) × (input.witness_utxo ≡ some prevout)
        × (prevout.script_pubkey ≡ script)
        × (sweep_sum_from (total + prevout.value) inputs script ≡ ok sum)
    step = ground arith

none_fails :
    (n : ℕ) (inputs : List TxIn)
    → any (λ (input : TxIn). input.sequence != n) inputs ≡ false
    → All (λ (input : TxIn). input.sequence ≡ n) inputs
none_fails n [] h = tt
none_fails n (input ∷ inputs) h = (ground arith, none_fails n inputs (ground arith))

pub singleton {ℓ} :
    {A : Type ℓ} (xs : List A) (x : A) → length xs ≡ 1 → get_elem? xs 0 ≡ some x → xs ≡ x ∷ []
singleton [] x n h = absurd (omega arith)
singleton (a ∷ []) x n h = ground arith
singleton (a ∷ b ∷ xs) x n h = absurd (omega arith)

module _ (lib : Bitcoin) where
  -- What the transaction of a cooperative sweep does.
  pub record SweepsVault (sweep : CooperativeSweepPackage) (destination : Address)
      (policy : VaultPolicy) (psbt : Psbt) : Type 0 where
    pub output : psbt.unsigned_tx.output ≡ output_of sweep.sent_sats destination.script_pubkey ∷ []
    pub counted :
        (length psbt.unsigned_tx.input ≡ sweep.input_count)
        × (length psbt.inputs ≡ sweep.input_count)
    pub final : All (λ (input : TxIn). input.sequence ≡ lib.sequence_max) psbt.unsigned_tx.input
    pub in_vault : All (InVault policy.address.script_pubkey) psbt.inputs
    pub conserves : total_inputs psbt.inputs ≡ sweep.sent_sats + sweep.fee_sats
    pub fee : estimate_vault_vsize lib psbt.unsigned_tx policy spend_cooperative ≡ ok sweep.fee_sats

  check_sweep_form-eq-ok :
      (sweep : CooperativeSweepPackage) (psbt : Psbt) (script : Script)
      → check_sweep_form lib sweep psbt script ≡ ok tt
      → (length psbt.unsigned_tx.input ≡ sweep.input_count)
        × (length psbt.inputs ≡ sweep.input_count)
        × (any (λ (input : TxIn). input.sequence != lib.sequence_max) psbt.unsigned_tx.input
            ≡ false)
        × (length psbt.unsigned_tx.output ≡ 1)
        × (get_elem? psbt.unsigned_tx.output 0 ≡ some (output_of sweep.sent_sats script))
  unfolding check_sweep_form
  check_sweep_form-eq-ok sweep psbt script h = ground arith

  check_sweep_amounts-eq-ok :
      (sweep : CooperativeSweepPackage) (psbt : Psbt) (policy : VaultPolicy)
      → check_sweep_amounts lib sweep psbt policy ≡ ok tt
      → (sweep_sum_from 0 psbt.inputs policy.address.script_pubkey
          ≡ ok (sweep.sent_sats + sweep.fee_sats))
        × (estimate_vault_vsize lib psbt.unsigned_tx policy spend_cooperative ≡ ok sweep.fee_sats)
  unfolding check_sweep_amounts
  check_sweep_amounts-eq-ok sweep psbt policy h = ground arith

  validate_cooperative_sweep-eq-ok :
      (config : VaultConfig) (sweep : CooperativeSweepPackage) (policy : VaultPolicy) (psbt : Psbt)
      → validate_cooperative_sweep lib config sweep ≡ ok (policy, psbt)
      → (network : Network) × (destination : Address) × (bitcoin_network config ≡ ok network)
        × (vault_from_descriptor lib config.vault_descriptor network ≡ ok policy)
        × (lib.parse_address sweep.destination network ≡ some destination)
        × (lib.psbt_from_str sweep.psbt ≡ some psbt)
        × (check_sweep_form lib sweep psbt destination.script_pubkey ≡ ok tt)
        × (check_sweep_amounts lib sweep psbt policy ≡ ok tt)
  unfolding validate_cooperative_sweep
  validate_cooperative_sweep-eq-ok config sweep policy psbt h = ground arith

  -- An accepted package sweeps the configured vault: all inputs are final and spend outputs of
  -- the vault's script, the one output pays the package's amount to the package's destination,
  -- and the rest is the package's fee, one satoshi for each estimated virtual byte.
  pub validate_cooperative_sweep-SweepsVault :
      (config : VaultConfig) (sweep : CooperativeSweepPackage) (policy : VaultPolicy) (psbt : Psbt)
      → validate_cooperative_sweep lib config sweep ≡ ok (policy, psbt)
      → (network : Network) × (destination : Address) × (bitcoin_network config ≡ ok network)
        × (vault_from_descriptor lib config.vault_descriptor network ≡ ok policy)
        × (lib.parse_address sweep.destination network ≡ some destination)
        × SweepsVault sweep destination policy psbt
  validate_cooperative_sweep-SweepsVault config sweep policy psbt h =
      let (network, destination, net, vaulted, parsed, _, form, amounts) =
        validate_cooperative_sweep-eq-ok config sweep policy psbt h in
      let (inputs, entries, finals, one, first) = check_sweep_form-eq-ok sweep psbt _ form in
      let (summed, fee) = check_sweep_amounts-eq-ok sweep psbt policy amounts in
      let (adds, inside) = sweep_sum_from-InVault 0 psbt.inputs _ _ summed in
      (
        network,
        destination,
        net,
        vaulted,
        parsed,
        record {
          output = singleton psbt.unsigned_tx.output _ one first;
          counted = (inputs, entries);
          final = none_fails _ psbt.unsigned_tx.input finals;
          in_vault = inside;
          conserves = omega arith;
          fee = fee;
        },
      )

  finalize_cooperative_sweep-eq-ok :
      (config : VaultConfig) (sweep : CooperativeSweepPackage) (tx : Transaction)
      (result : SweepResult)
      → finalize_cooperative_sweep lib config sweep ≡ ok (tx, result)
      → (read : VaultPolicy × Psbt) × (validate_cooperative_sweep lib config sweep ≡ ok read)
        × (phone_key : XOnlyPublicKey) × (lib.pubkey_from_str config.phone_vault_pubkey
            ≡ some phone_key)
        × (verify_vault_psbt_signature lib read.1 read.0 spend_cooperative phone_key ≡ ok tt)
        × (hww_key : XOnlyPublicKey) × (lib.pubkey_from_str config.hww_vault_pubkey ≡ some hww_key)
        × (verify_vault_psbt_signature lib read.1 read.0 spend_cooperative hww_key ≡ ok tt)
  unfolding finalize_cooperative_sweep
  finalize_cooperative_sweep-eq-ok config sweep tx result h = ground arith

  -- Every input of the PSBT carries a valid signature of the key for the cooperative leaf.
  abbrev pub FullySigned : VaultPolicy → Psbt → XOnlyPublicKey → Type 0
  FullySigned policy psbt key =
      (leaf : Leaf SpendPath) × (vault_leaf lib policy spend_cooperative ≡ ok leaf)
      × All (SignedAt lib psbt leaf.leaf_hash key) (range_from 0 (length psbt.inputs))

  -- A finalized cooperative sweep comes from an accepted package whose every input carries valid
  -- signatures of both configured devices, the phone and the hardware wallet.
  pub finalize_cooperative_sweep-both-signed :
      (config : VaultConfig) (sweep : CooperativeSweepPackage) (tx : Transaction)
      (result : SweepResult)
      → finalize_cooperative_sweep lib config sweep ≡ ok (tx, result)
      → (policy : VaultPolicy) × (psbt : Psbt) × (phone_key : XOnlyPublicKey)
        × (hww_key : XOnlyPublicKey) × (validate_cooperative_sweep lib config sweep
            ≡ ok (policy, psbt))
        × (lib.pubkey_from_str config.phone_vault_pubkey ≡ some phone_key)
        × (lib.pubkey_from_str config.hww_vault_pubkey ≡ some hww_key)
        × FullySigned policy psbt phone_key
        × FullySigned policy psbt hww_key
  finalize_cooperative_sweep-both-signed config sweep tx result h =
      let (read, accepted, phone_key, phone_text, phone_ok, hww_key, hww_text, hww_ok) =
        finalize_cooperative_sweep-eq-ok config sweep tx result h in
      let (phone_leaf, phone_found, _, phone_signed) =
        verify_vault_psbt_signature-SignedAt lib read.1 read.0 spend_cooperative phone_key
          phone_ok in
      let (hww_leaf, hww_found, _, hww_signed) =
        verify_vault_psbt_signature-SignedAt lib read.1 read.0 spend_cooperative hww_key hww_ok in
      (
        read.0,
        read.1,
        phone_key,
        hww_key,
        accepted,
        phone_text,
        hww_text,
        (phone_leaf, phone_found, phone_signed),
        (hww_leaf, hww_found, hww_signed),
      )
