-- ===== src/Transactions/Revokes.antt =====
-- What a revocation of the controller's outputs guarantees.
use anzen.Prelude.{
  ℕ, ◌+◌, ◌-◌, ◌*◌, ◌≤◌, ◌<◌, ◌≡◌, ap, sym, subst, ◌∙◌, false, List, [], ◌∷◌, map, ok, arith, any,
  ◌!=◌, list_eq, nat_eq, length, All,
}
use anzen.Bitcoin.{Bitcoin, Script, TxIn, Transaction, Psbt}
use anzen.Policy.{ControllerPolicy, phone}
use anzen.Transactions.Sums.{sum, sum_from_zero}
use anzen.Transactions.Vsize.{estimate_controller_vsize}
use anzen.Transactions.Construct.{create_controller_psbt}
use anzen.Transactions.Unsigned.{KeepsTransaction, inputs-spend, create_controller_psbt-unsigned_tx}
use anzen.Ceremony.Templates.{output_of}
use anzen.Transactions.Revocation.{
  VaultUtxo, utxo_values, revocation_transaction, build_controller_revocation_psbt,
}

abbrev pub Controlled : Script → VaultUtxo → Type 0
Controlled script utxo = utxo.txout.script_pubkey ≡ script

any-Controlled :
    (script : Script) (utxos : List VaultUtxo)
    → any (λ (utxo : VaultUtxo). utxo.txout.script_pubkey != script) utxos ≡ false
    → All (Controlled script) utxos
any-Controlled script [] h = tt
any-Controlled script (utxo ∷ utxos) h = (ground arith, any-Controlled script utxos (ground arith))

module _ (lib : Bitcoin) (keeps : KeepsTransaction lib) where
  -- The revocation of some outputs, which leaves none of them to the controller.
  pub record Revokes (utxos : List VaultUtxo) (destination : Script) (rate : ℕ)
      (controller : ControllerPolicy) (psbt : Psbt) (fee_sats : ℕ) : Type 0 where
    pub some_output : 0 < length utxos
    pub controlled : All (Controlled controller.address.script_pubkey) utxos
    pub change_sats : ℕ
    pub conserves : sum (utxo_values utxos) ≡ change_sats + fee_sats
    pub not_dust : lib.minimal_non_dust destination ≤ change_sats
    pub size : ℕ
    pub estimate :
        estimate_controller_vsize lib
          (record psbt.unsigned_tx { output = output_of 1 destination ∷ [] })
          controller
          phone
        ≡ ok size
    pub fee : fee_sats ≡ size * rate
    pub output : psbt.unsigned_tx.output ≡ output_of change_sats destination ∷ []
    pub spends :
        map (λ (input : TxIn). input.previous_output) psbt.unsigned_tx.input
        ≡ map (λ (utxo : VaultUtxo). utxo.outpoint) utxos
    pub built :
        create_controller_psbt lib psbt.unsigned_tx (map (λ utxo. utxo.txout) utxos) controller
        ≡ ok psbt

  build-eq-ok :
      (utxos : List VaultUtxo) (destination : Script) (rate : ℕ) (controller : ControllerPolicy)
      (psbt : Psbt) (fee_sats : ℕ)
      → build_controller_revocation_psbt lib utxos destination rate controller ≡ ok (psbt, fee_sats)
      → (0 < length utxos)
        × (any
              (λ (utxo : VaultUtxo). utxo.txout.script_pubkey != controller.address.script_pubkey)
              utxos
            ≡ false)
        × (size : ℕ) × (estimate_controller_vsize lib
              (revocation_transaction lib utxos destination 1)
              controller
              phone
            ≡ ok size)
        × (fee_sats ≡ size * rate)
        × (create_controller_psbt lib
              (revocation_transaction lib utxos destination (sum (utxo_values utxos) - fee_sats))
              (map (λ utxo. utxo.txout) utxos)
              controller
            ≡ ok psbt)
        × (fee_sats ≤ sum (utxo_values utxos))
        × (lib.minimal_non_dust destination ≤ sum (utxo_values utxos) - fee_sats)
  unfolding build_controller_revocation_psbt
  build-eq-ok utxos destination rate controller psbt fee_sats h =
      ground
        (arith, sum_from_zero (utxo_values utxos) "controller revocation input total overflowed")

  -- If the library keeps the transaction of a PSBT, the transaction of a revocation spends at least
  -- one output, exactly the given ones, every one of the controller's script, and its only output pays
  -- to the destination all of their value but the fee, which is the rate for each estimated virtual byte;
  -- what it pays is no dust.
  pub build_controller_revocation_psbt-Revokes :
      (utxos : List VaultUtxo) (destination : Script) (rate : ℕ) (controller : ControllerPolicy)
      (psbt : Psbt) (fee_sats : ℕ)
      → build_controller_revocation_psbt lib utxos destination rate controller ≡ ok (psbt, fee_sats)
      → Revokes utxos destination rate controller psbt fee_sats
  build_controller_revocation_psbt-Revokes utxos destination rate controller psbt fee_sats h =
      let (nonempty, controlled, size, estimate, fee, built, covered, not_dust) =
        build-eq-ok utxos destination rate controller psbt fee_sats h in
      let same = create_controller_psbt-unsigned_tx lib keeps _ _ controller psbt built in
      record {
        some_output = nonempty;
        controlled = any-Controlled _ utxos controlled;
        change_sats = sum (utxo_values utxos) - fee_sats;
        conserves = omega arith;
        not_dust = not_dust;
        size = size;
        estimate =
            subst
              (λ (tx : Transaction).
                estimate_controller_vsize lib (record tx { output = output_of 1 destination ∷ [] })
                  controller phone
                ≡ ok size)
              (sym same) estimate;
        fee = fee;
        output = ap (λ (tx : Transaction). tx.output) same;
        spends =
            ap (λ (tx : Transaction). map (λ (i : TxIn). i.previous_output) tx.input) same
            ∙ inputs-spend utxos lib.sequence_enable_rbf_no_locktime;
        built =
            subst
              (λ (tx : Transaction).
                create_controller_psbt lib tx (map (λ utxo. utxo.txout) utxos) controller ≡ ok psbt)
              (sym same) built;
      }
