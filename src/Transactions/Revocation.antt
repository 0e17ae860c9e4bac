-- ===== src/Transactions/Revocation.antt =====
-- `build_controller_revocation_psbt`, with the amounts that it shares with the other modules.
use anzen.Prelude.{
  ℕ, Bool, true, false, List, [], ◌∷◌, map, Result, ok, ◌>>=◌, ◌>>◌, bail_if, context, ltb, ◌!=◌,
  list_eq, nat_eq, any, checked_add, checked_sub, checked_mul, String,
}
use anzen.Bitcoin.{Bitcoin, Script, OutPoint, TxOut, TxIn, Transaction, Psbt}
use anzen.Policy.{ControllerPolicy, phone}
use anzen.Transactions.Vsize.{estimate_controller_vsize}
use anzen.Transactions.Construct.{create_controller_psbt}

-- src/core/types.rs
pub record VaultUtxo : Type 0 where
  pub outpoint : OutPoint
  pub txout : TxOut
  pub confirmation_height : ℕ

abbrev pub is_empty {ℓ} : {A : Type ℓ} → List A → Bool
is_empty [] = true
is_empty (x ∷ xs) = false

-- `try_fold(0_u64, ..)` over amounts, with `checked_add`.
unfoldable pub sum_from : ℕ → List ℕ → String → Result ℕ
unfolding checked_add
sum_from total [] message = ok total
sum_from total (value ∷ values) message = do
  next ← context (checked_add total value) message
  sum_from next values message

abbrev pub utxo_values : List VaultUtxo → List ℕ
utxo_values = map (λ utxo. utxo.txout.value)

-- A `TxIn` as the source builds it, without script and witness.
abbrev pub unsigned_input : OutPoint → ℕ → TxIn
unsigned_input outpoint sequence = record {
  previous_output = outpoint;
  script_sig = [];
  sequence = sequence;
  witness = [];
}

-- `Version::TWO` and `LockTime::ZERO`
abbrev pub transaction_of : List TxIn → List TxOut → Transaction
transaction_of input output = record { version = 2; lock_time = 0; input = input; output = output }

module _ (lib : Bitcoin) where
  -- The revocation's inputs and one output of `value`.
  abbrev pub revocation_transaction : List VaultUtxo → Script → ℕ → Transaction
  revocation_transaction controller_utxos destination value =
      transaction_of
        (map (λ utxo. unsigned_input utxo.outpoint lib.sequence_enable_rbf_no_locktime)
          controller_utxos)
        (record { value = value; script_pubkey = destination } ∷ [])

  unfoldable pub build_controller_revocation_psbt :
      List VaultUtxo → Script → ℕ → ControllerPolicy → Result (Psbt × ℕ)
  unfolding checked_mul checked_sub
  build_controller_revocation_psbt controller_utxos destination fee_rate_sat_vb controller = do
    bail_if (is_empty controller_utxos) "no live controller outputs were provided for revocation"
    let controller_script = controller.address.script_pubkey
    bail_if (any (λ utxo. utxo.txout.script_pubkey != controller_script) controller_utxos)
        "revocation input is outside the fixed controller policy"
    total_input ←
        sum_from 0 (utxo_values controller_utxos) "controller revocation input total overflowed"
    let template = revocation_transaction controller_utxos destination 1
    size ← estimate_controller_vsize lib template controller phone
    fee_sats ← context (checked_mul size fee_rate_sat_vb) "controller revocation fee overflowed"
    change_sats ←
        context (checked_sub total_input fee_sats)
          "controller outputs cannot pay the revocation fee"
    bail_if (ltb change_sats (lib.minimal_non_dust destination))
        "controller revocation would create dust change"
    psbt ←
        create_controller_psbt lib (revocation_transaction controller_utxos destination change_sats)
          (map (λ utxo. utxo.txout) controller_utxos) controller
    ok (psbt, fee_sats)
