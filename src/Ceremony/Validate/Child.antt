-- ===== src/Ceremony/Validate/Child.antt =====
-- What a presigned transaction with one vault and one connector input satisfies once checked.
use anzen.Prelude.{
  ℕ, ◌+◌, ◌≡◌, ◌<◌, some, ok, err, arith, get_elem?, length, ltb, if◌then◌else◌, u64_limit, [],
}
use anzen.Constants.{connector_value_sats}
use anzen.Bitcoin.{Bitcoin, Script, OutPoint, TxOut, TxIn, Transaction, Psbt, PsbtInput}
use anzen.Transactions.Sums.{sum, sum_from_zero}
use anzen.Ceremony.Types.{BatchTransaction}
use anzen.Ceremony.Amounts.{output_sum, output_values}
use anzen.Ceremony.Validate.Parts.{
  check_child_amounts, check_child_inputs, validate_connector_child,
}

-- The sum of the outputs of a transaction.
abbrev pub total_output : Transaction → ℕ
total_output tx = sum (output_values tx.output)

pub output_sum_lem :
    (tx : Transaction)
    → output_sum tx ≡ (
        if ltb (total_output tx) u64_limit
        then ok (total_output tx)
        else err "transaction output sum overflowed")
unfolding output_sum
output_sum_lem tx = sum_from_zero (output_values tx.output) _

module _ (lib : Bitcoin) where
  -- What the transaction spends, and that no value is lost but the fee of its manifest entry.
  pub record SpendsChild (psbt : Psbt) (vault_prevout : TxOut)
      (vault_outpoint connector_outpoint : OutPoint) (controller_script : Script)
      (tx : BatchTransaction) : Type 0 where
    pub vault_input :
        (i : TxIn) × (get_elem? psbt.unsigned_tx.input 0 ≡ some i)
        × (i.previous_output ≡ vault_outpoint)
    pub connector_input :
        (i : TxIn) × (get_elem? psbt.unsigned_tx.input 1 ≡ some i)
        × (i.previous_output ≡ connector_outpoint)
    pub two_inputs : length psbt.unsigned_tx.input ≡ 2
    pub txid : lib.txid_to_string (lib.compute_txid psbt.unsigned_tx) ≡ tx.unsigned_txid
    pub connector_unsigned :
        (e : PsbtInput) × (get_elem? psbt.inputs 1 ≡ some e) × (e.tap_script_sigs ≡ [])
    pub fits : vault_prevout.value + connector_value_sats < u64_limit
    pub conserves :
        vault_prevout.value + connector_value_sats ≡ total_output psbt.unsigned_tx + tx.fee_sats

  check_child_amounts-fits :
      (psbt : Psbt) (vault_prevout : TxOut) (controller_script : Script) (tx : BatchTransaction)
      → check_child_amounts lib psbt vault_prevout controller_script tx ≡ ok tt
      → vault_prevout.value + connector_value_sats < u64_limit
  unfolding check_child_amounts
  check_child_amounts-fits psbt vault_prevout controller_script tx h = ground arith

  check_child_amounts-conserves :
      (psbt : Psbt) (vault_prevout : TxOut) (controller_script : Script) (tx : BatchTransaction)
      → check_child_amounts lib psbt vault_prevout controller_script tx ≡ ok tt
      → vault_prevout.value + connector_value_sats ≡ total_output psbt.unsigned_tx + tx.fee_sats
  unfolding check_child_amounts
  check_child_amounts-conserves psbt vault_prevout controller_script tx h =
      ground (arith, output_sum_lem psbt.unsigned_tx)

  pub validate_connector_child-SpendsChild :
      (psbt : Psbt) (vault_prevout : TxOut) (vault_outpoint connector_outpoint : OutPoint)
      (controller_script : Script) (tx : BatchTransaction)
      → validate_connector_child lib psbt vault_prevout vault_outpoint connector_outpoint
          controller_script tx
        ≡ ok tt
      → SpendsChild psbt vault_prevout vault_outpoint connector_outpoint controller_script tx
  unfolding validate_connector_child check_child_inputs
  validate_connector_child-SpendsChild psbt vault_prevout vault_outpoint connector_outpoint
        controller_script tx h =
      record {
        vault_input = ground arith;
        connector_input = ground arith;
        two_inputs = ground arith;
        txid = ground arith;
        connector_unsigned = ground arith;
        fits = ground (arith, check_child_amounts-fits psbt vault_prevout controller_script tx);
        conserves =
            ground (arith, check_child_amounts-conserves psbt vault_prevout controller_script tx);
      }
