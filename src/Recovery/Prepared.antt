-- ===== src/Recovery/Prepared.antt =====
-- What a prepared sweep guarantees.
use anzen.Prelude.{
  ℕ, ◌+◌, ◌<◌, ◌≡◌, refl, ap, sym, subst, ◌∙◌, some, List, [], ◌∷◌, map, ok, arith, length, All,
}
use anzen.Bitcoin.{Bitcoin, Address, TxIn, Transaction, Psbt}
use anzen.Storage.{VaultConfig}
use anzen.Policy.{VaultPolicy}
use anzen.Transactions.Sums.{sum, sum_from_zero}
use anzen.Ceremony.Templates.{output_of}
use anzen.Transactions.Unsigned.{KeepsTransaction, inputs-spend, create_vault_psbt-unsigned_tx}
use anzen.Transactions.Revocation.{unsigned_input, VaultUtxo, utxo_values}
use anzen.Transactions.Vsize.{estimate_vault_vsize}
use anzen.Transactions.Construct.{create_vault_psbt}
use anzen.Recovery.Sweep.{
  delay, sequence, SweepPath, SweepPlan, policy_path, mature_utxos, sweep_transaction,
  build_sweep_psbt, prepare_sweep,
}

module _ (lib : Bitcoin) (keeps : KeepsTransaction lib) where
  -- The sweep of `utxos` to a destination: one output, which receives all but the fee.
  pub record Sweeps (utxos : List VaultUtxo) (path : SweepPath) (destination : Address)
      (policy : VaultPolicy) (psbt : Psbt) (fee_sats sent_sats : ℕ) : Type 0 where
    pub conserves : sum (utxo_values utxos) ≡ sent_sats + fee_sats
    pub output : psbt.unsigned_tx.output ≡ output_of sent_sats destination.script_pubkey ∷ []
    pub spends :
        map (λ (input : TxIn). input.previous_output) psbt.unsigned_tx.input
        ≡ map (λ (utxo : VaultUtxo). utxo.outpoint) utxos
    pub delayed :
        (blocks : ℕ)
        → delay path ≡ some blocks
        → All (λ (input : TxIn). input.sequence ≡ blocks) psbt.unsigned_tx.input
    -- The fee is estimated for the transaction that would send everything.
    pub fee :
        estimate_vault_vsize lib
          (record psbt.unsigned_tx {
            output = output_of (sum (utxo_values utxos)) destination.script_pubkey ∷ [];
          })
          policy
          (policy_path path)
        ≡ ok fee_sats
    pub built :
        create_vault_psbt lib psbt.unsigned_tx (map (λ utxo. utxo.txout) utxos) policy ≡ ok psbt

  inputs-sequence :
      (utxos : List VaultUtxo) (n : ℕ)
      → All
          (λ (input : TxIn). input.sequence ≡ n)
          (map (λ (utxo : VaultUtxo). unsigned_input utxo.outpoint n) utxos)
  inputs-sequence [] n = tt
  inputs-sequence (utxo ∷ utxos) n = (refl, inputs-sequence utxos n)

  sequence-delay :
      (path : SweepPath) (blocks : ℕ) → delay path ≡ some blocks → sequence lib path ≡ blocks
  sequence-delay path blocks delayed = ground arith

  build_sweep_psbt-eq-ok :
      (policy : VaultPolicy) (utxos : List VaultUtxo) (path : SweepPath) (destination : Address)
      (psbt : Psbt) (fee_sats sent_sats : ℕ)
      → build_sweep_psbt lib policy utxos path destination ≡ ok (psbt, fee_sats, sent_sats)
      → (sum (utxo_values utxos) ≡ sent_sats + fee_sats)
        × (estimate_vault_vsize lib
              (sweep_transaction lib utxos path destination (sum (utxo_values utxos)))
              policy
              (policy_path path)
            ≡ ok fee_sats)
        × (create_vault_psbt lib
              (sweep_transaction lib utxos path destination sent_sats)
              (map (λ utxo. utxo.txout) utxos)
              policy
            ≡ ok psbt)
  unfolding build_sweep_psbt
  build_sweep_psbt-eq-ok policy utxos path destination psbt fee_sats sent_sats h =
      let total = sum_from_zero (utxo_values utxos) "vault input total overflowed" in
      (ground (arith, total), ground (arith, total), ground (arith, total))

  pub build_sweep_psbt-Sweeps :
      (policy : VaultPolicy) (utxos : List VaultUtxo) (path : SweepPath) (destination : Address)
      (psbt : Psbt) (fee_sats sent_sats : ℕ)
      → build_sweep_psbt lib policy utxos path destination ≡ ok (psbt, fee_sats, sent_sats)
      → Sweeps utxos path destination policy psbt fee_sats sent_sats
  build_sweep_psbt-Sweeps policy utxos path destination psbt fee_sats sent_sats h =
      let (conserves, fee, built) =
        build_sweep_psbt-eq-ok policy utxos path destination psbt fee_sats sent_sats h in
      let same = create_vault_psbt-unsigned_tx lib keeps _ _ policy psbt built in
      record {
        conserves = conserves;
        output = ap (λ (tx : Transaction). tx.output) same;
        spends =
            ap (λ (tx : Transaction). map (λ (i : TxIn). i.previous_output) tx.input) same
            ∙ inputs-spend utxos (sequence lib path);
        delayed = λ blocks delayed.
            rw (same, ← sequence-delay path blocks delayed)
              (inputs-sequence utxos (sequence lib path));
        fee = rw same fee;
        built =
            subst
              (λ (tx : Transaction).
                create_vault_psbt lib tx (map (λ utxo. utxo.txout) utxos) policy ≡ ok psbt)
              (sym same) built;
      }

  prepare_sweep-eq-ok :
      (config : VaultConfig) (utxos : List VaultUtxo) (tip : ℕ) (path : SweepPath)
      (destination : Address) (plan : SweepPlan)
      → prepare_sweep lib config utxos tip path destination ≡ ok plan
      → (plan.input_count ≡ length (mature_utxos utxos path tip))
        × (0 < plan.input_count)
        × (build_sweep_psbt lib plan.policy (mature_utxos utxos path tip) path destination
            ≡ ok (plan.psbt, plan.fee_sats, plan.sent_sats))
  unfolding prepare_sweep
  prepare_sweep-eq-ok config utxos tip path destination plan h = ground arith

  -- If the library keeps the transaction of a PSBT, the transaction of a prepared sweep spends at
  -- least one output, exactly the mature ones, each after the delay of its path, and its only output
  -- sends to the destination all of their value but the fee, one satoshi for each estimated virtual
  -- byte.
  pub prepare_sweep-Sweeps :
      (config : VaultConfig) (utxos : List VaultUtxo) (tip : ℕ) (path : SweepPath)
      (destination : Address) (plan : SweepPlan)
      → prepare_sweep lib config utxos tip path destination ≡ ok plan
      → (plan.input_count ≡ length (mature_utxos utxos path tip))
        × (0 < plan.input_count)
        × Sweeps
            (mature_utxos utxos path tip)
            path
            destination
            plan.policy
            plan.psbt
            plan.fee_sats
            plan.sent_sats
  prepare_sweep-Sweeps config utxos tip path destination plan h =
      let (counted, some_mature, built) =
        prepare_sweep-eq-ok config utxos tip path destination plan h in
      (
        counted,
        some_mature,
        build_sweep_psbt-Sweeps plan.policy _ path destination plan.psbt plan.fee_sats
            plan.sent_sats built,
      )
