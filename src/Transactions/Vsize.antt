-- ===== src/Transactions/Vsize.antt =====
-- The size estimates: the transaction with witnesses of the final size.
use anzen.Prelude.{
  ℕ, suc, ◌+◌, not, ◌||◌, List, [], ◌∷◌, ◌++◌, map, Result, ok, err, ◌>>=◌, ◌>>◌, bail_if, ◌!=◌,
  nat_eq, if◌then◌else◌, length, replicate,
}
use anzen.Bitcoin.{Bitcoin, Bytes, TxIn, Transaction}
use anzen.Policy.{
  SpendPath, cooperative, phone_recovery, hww_recovery, ControllerPath, VaultPolicy,
  ControllerPolicy, Leaf, vault_leaf, controller_leaf,
}
use anzen.Transactions.Roles.{contains, to_set, is_disjoint}

-- `[0_u8; 64]`
abbrev pub blank_signature : Bytes
blank_signature = replicate 64 0

abbrev pub signature_count : SpendPath → ℕ
signature_count cooperative = 2
signature_count phone_recovery = 1
signature_count hww_recovery = 1

abbrev pub leaf_witness : {P : Type 0} → ℕ → Leaf P → List Bytes
leaf_witness signatures leaf =
    replicate signatures blank_signature ++ (leaf.script ∷ leaf.control_block ∷ [])

abbrev pub with_witness : List Bytes → TxIn → TxIn
with_witness witness input = record input { witness = witness }

-- The loop of `estimate_policy_vsize` from input `index` on.
unfoldable pub policy_witnesses :
    List ℕ → List ℕ → List Bytes → List Bytes → ℕ → List TxIn → Result (List TxIn)
policy_witnesses vault controller vault_witness controller_witness index [] = ok []
policy_witnesses vault controller vault_witness controller_witness index (input ∷ inputs) = do
  filled ←
      if contains vault index
      then ok (with_witness vault_witness input)
      else if contains controller index
      then ok (with_witness controller_witness input)
      else err "policy vsize input {index} has no role"
  rest ← policy_witnesses vault controller vault_witness controller_witness (suc index) inputs
  ok (filled ∷ rest)

module _ (lib : Bitcoin) where
  unfoldable pub estimate_vault_vsize : Transaction → VaultPolicy → SpendPath → Result ℕ
  estimate_vault_vsize transaction policy path = do
    leaf ← vault_leaf lib policy path
    let witness = leaf_witness (signature_count path) leaf
    ok (lib.vsize (record transaction { input = map (with_witness witness) transaction.input }))

  unfoldable pub estimate_policy_vsize :
      Transaction
      → VaultPolicy
      → SpendPath
      → List ℕ
      → ControllerPolicy
      → ControllerPath
      → List ℕ
      → Result ℕ
  estimate_policy_vsize transaction vault vault_path vault_indexes controller controller_path
        controller_indexes =
      do
        vault_role ← vault_leaf lib vault vault_path
        controller_role ← controller_leaf lib controller controller_path
        let vault_set = to_set vault_indexes
        let controller_set = to_set controller_indexes
        bail_if
            (not (is_disjoint vault_set controller_set)
              || length vault_set + length controller_set != length transaction.input)
            "policy vsize input roles do not form an exact input partition"
        input ←
            policy_witnesses vault_set controller_set
              (leaf_witness (signature_count vault_path) vault_role)
              (leaf_witness 1 controller_role) 0 transaction.input
        ok (lib.vsize (record transaction { input = input }))

  unfoldable pub estimate_controller_vsize :
      Transaction → ControllerPolicy → ControllerPath → Result ℕ
  estimate_controller_vsize transaction controller path = do
    leaf ← controller_leaf lib controller path
    let witness = leaf_witness 1 leaf
    ok (lib.vsize (record transaction { input = map (with_witness witness) transaction.input }))
