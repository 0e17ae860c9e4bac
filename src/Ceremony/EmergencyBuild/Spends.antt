-- ===== src/Ceremony/EmergencyBuild/Spends.antt =====
-- A presigned transaction is one that `validate_connector_child` accepts, with the fee of its shape.
use anzen.Prelude.{
  ℕ, ◌+◌, ◌<◌, ◌≡◌, refl, List, [], ◌∷◌, map, ok, ◌>>=◌, ◌*◌, arith, u64_limit, nat_eq, list_eq,
  option_eq, string_eq,
}
use anzen.Constants.{connector_value_sats, default_fee_rate_sat_vb}
use anzen.Bitcoin.{
  Bitcoin, Bytes, Script, OutPoint, TxIn, TxOut, Transaction, Psbt, outpoint_eq, txout_eq,
}
use anzen.Policy.{VaultPolicy, ControllerPolicy, vault_leaf, controller_leaf, cooperative, phone}
use anzen.Transactions.Vsize.{estimate_policy_vsize, policy_witnesses, with_witness, leaf_witness}
use anzen.Transactions.Revocation.{unsigned_input, transaction_of}
use anzen.Ceremony.Types.{BatchTransaction}
use anzen.Ceremony.Templates.{output_of, child_fee}
use anzen.Ceremony.EmergencyBuild.Filled.{KeepsInputs}
use anzen.Ceremony.EmergencyBuild.Presigned.{Presigned}
use anzen.Ceremony.Validate.Parts.{
  validate_connector_child, check_child_inputs, check_child_amounts,
}
use anzen.Ceremony.Validate.Child.{total_output, output_sum_lem}

-- The virtual size of a transaction depends on the scripts and the witnesses that it holds alone.
abbrev pub ShapeOnly : Bitcoin → Type 0
ShapeOnly lib =
    (x y : Transaction)
    → map (λ (i : TxIn). i.script_sig) x.input ≡ map (λ (i : TxIn). i.script_sig) y.input
    → map (λ (i : TxIn). i.witness) x.input ≡ map (λ (i : TxIn). i.witness) y.input
    → map (λ (o : TxOut). o.script_pubkey) x.output ≡ map (λ (o : TxOut). o.script_pubkey) y.output
    → lib.vsize x ≡ lib.vsize y

module _ (lib : Bitcoin) (inputs : KeepsInputs lib) where
  pub record IsChild (tx : Transaction) (vault_outpoint connector_outpoint : OutPoint)
      (entry : BatchTransaction) : Type 0 where
    pub vault_input : TxIn
    pub connector_input : TxIn
    pub spends : tx.input ≡ vault_input ∷ connector_input ∷ []
    pub at_vault : vault_input.previous_output ≡ vault_outpoint
    pub at_connector : connector_input.previous_output ≡ connector_outpoint
    pub vault_indexes : entry.vault_input_indexes ≡ 0 ∷ []
    pub controller_indexes : entry.controller_input_indexes ≡ 1 ∷ []
    pub named : lib.txid_to_string (lib.compute_txid tx) ≡ entry.unsigned_txid

  child_inputs-agree :
      (psbt : Psbt) (tx : Transaction) (p c : TxOut) (vault_outpoint connector_outpoint : OutPoint)
      (entry : BatchTransaction)
      → Presigned lib inputs psbt tx p c
      → IsChild tx vault_outpoint connector_outpoint entry
      → check_child_inputs lib psbt p vault_outpoint connector_outpoint entry ≡ ok tt
  unfolding check_child_inputs
  child_inputs-agree psbt tx p c vault_outpoint connector_outpoint entry signed child =
      let unsigned = signed.unsigned in
      let two = signed.two in
      let first = signed.first in
      let pays = signed.spends in
      let second = signed.second in
      let bare = signed.bare in
      let spends = child.spends in
      let at_vault = child.at_vault in
      let at_connector = child.at_connector in
      let vault_indexes = child.vault_indexes in
      let controller_indexes = child.controller_indexes in let named = child.named in grind arith

  child_amounts-agree :
      (psbt : Psbt) (tx : Transaction) (p : TxOut) (script : Script) (entry : BatchTransaction)
      → Presigned lib inputs psbt tx p (output_of connector_value_sats script)
      → p.value + connector_value_sats < u64_limit
      → p.value + connector_value_sats ≡ total_output tx + entry.fee_sats
      → check_child_amounts lib psbt p script entry ≡ ok tt
  unfolding check_child_amounts
  child_amounts-agree psbt tx p script entry signed fits conserves =
      let unsigned = signed.unsigned in
      let second = signed.second in
      let connects = signed.connects in let sums = output_sum_lem psbt.unsigned_tx in grind arith

  pub child-agrees :
      (psbt : Psbt) (tx : Transaction) (p : TxOut) (script : Script)
      (vault_outpoint connector_outpoint : OutPoint) (entry : BatchTransaction)
      → Presigned lib inputs psbt tx p (output_of connector_value_sats script)
      → IsChild tx vault_outpoint connector_outpoint entry
      → p.value + connector_value_sats < u64_limit
      → p.value + connector_value_sats ≡ total_output tx + entry.fee_sats
      → validate_connector_child lib psbt p vault_outpoint connector_outpoint script entry ≡ ok tt
  unfolding validate_connector_child
  child-agrees psbt tx p script vault_outpoint connector_outpoint entry signed child fits
        conserves =
      rw (child_inputs-agree psbt tx p _ vault_outpoint connector_outpoint entry signed child)
        (child_amounts-agree psbt tx p script entry signed fits conserves)

-- The fee of two inputs and some outputs of given scripts.
pub child_fee-shape :
    (lib : Bitcoin) (shape : ShapeOnly lib) (policy : VaultPolicy) (controller : ControllerPolicy)
    (a b c d : OutPoint) (s t u v : ℕ) (xs ys : List TxOut)
    → map (λ (o : TxOut). o.script_pubkey) xs ≡ map (λ (o : TxOut). o.script_pubkey) ys
    → child_fee lib
        (transaction_of (unsigned_input a s ∷ unsigned_input b t ∷ []) xs)
        policy
        controller
      ≡ child_fee lib
          (transaction_of (unsigned_input c u ∷ unsigned_input d v ∷ []) ys)
          policy
          controller
unfolding child_fee estimate_policy_vsize policy_witnesses nat_eq
child_fee-shape lib shape policy controller a b c d s t u v xs ys same =
    let sized : (w w' : List Bytes)
        → lib.vsize (
            transaction_of
              (with_witness w (unsigned_input a s) ∷ with_witness w' (unsigned_input b t) ∷ []) xs)
          ≡ lib.vsize (
              transaction_of
                (with_witness w (unsigned_input c u) ∷ with_witness w' (unsigned_input d v) ∷ [])
                ys) =
      λ w w'. shape _ _ refl refl same in
    λ i.
      (vault_leaf lib policy cooperative >>= λ leaf.
      controller_leaf lib controller phone >>= λ other.
      ok (sized (leaf_witness 2 leaf) (leaf_witness 1 other) i))
      >>= λ size. ok (size * default_fee_rate_sat_vb)
