-- ===== src/Transactions/Construct.antt =====
-- `create_vault_psbt`, `create_policy_psbt` and `create_controller_psbt`.
use anzen.Prelude.{
  ℕ, zero, suc, String, Option, none, some, List, [], ◌∷◌, Result, ok, ◌>>=◌, ◌>>◌, bail_if,
  context, unwrap, ◌!=◌, nat_eq, if◌then◌else◌, length,
}
use anzen.Bitcoin.{Bitcoin, TxOut, Transaction, PsbtInput, Psbt, Descriptor}
use anzen.Policy.{VaultPolicy, ControllerPolicy, definite_descriptor}
use anzen.Transactions.Roles.{contains, to_set, breaks_partition}

-- A write at an index; `none` is out of range.
abbrev pub update_at {ℓ} : {A : Type ℓ} → List A → ℕ → (A → A) → Option (List A)
update_at [] i f = none
update_at (x ∷ xs) zero f = some (f x ∷ xs)
update_at (x ∷ xs) (suc i) f =
    let rest = update_at xs i f in elim rest [ none ↦ none | some ys ↦ some (x ∷ ys) ]

-- `psbt.inputs[index].field = ..`, which panics out of range.
abbrev pub update_input : Psbt → ℕ → (PsbtInput → PsbtInput) → Result Psbt
update_input psbt index f = do
  inputs ← unwrap (update_at psbt.inputs index f)
  ok (record psbt { inputs = inputs })

abbrev wrong_prevouts : String
wrong_prevouts = "transaction has {} inputs but {} previous outputs were provided"

module _ (lib : Bitcoin) where
  -- The body of the three loops: the previous output, the sighash type and the descriptor.
  unfoldable pub fill_input : Psbt → ℕ → TxOut → Descriptor → String → Result Psbt
  fill_input psbt index prevout descriptor message = do
    filled ← update_input psbt index λ input. record input {
      witness_utxo = some prevout;
      sighash_type = some lib.sighash_default;
    }
    context (lib.update_input_with_descriptor filled index descriptor) message

  unfoldable pub fill_inputs : Psbt → ℕ → List TxOut → (ℕ → Descriptor × String) → Result Psbt
  unfolding fill_input
  fill_inputs psbt index [] role = ok psbt
  fill_inputs psbt index (prevout ∷ prevouts) role = do
    let (descriptor, message) = role index
    filled ← fill_input psbt index prevout descriptor message
    fill_inputs filled (suc index) prevouts role

  abbrev pub vault_role : Descriptor → Descriptor × String
  vault_role descriptor = (descriptor, "failed to add vault descriptor to PSBT input {index}")

  abbrev pub controller_role : Descriptor → Descriptor × String
  controller_role descriptor =
      (descriptor, "failed to add controller descriptor to PSBT input {index}")

  unfoldable pub create_vault_psbt : Transaction → List TxOut → VaultPolicy → Result Psbt
  unfolding fill_inputs
  create_vault_psbt transaction prevouts policy = do
    bail_if (length transaction.input != length prevouts) wrong_prevouts
    psbt ← context (lib.from_unsigned_tx transaction) "transaction is not unsigned"
    descriptor ←
        definite_descriptor lib policy.descriptor "vault descriptor could not be made definite"
    fill_inputs psbt 0 prevouts (λ index. vault_role descriptor)

  unfoldable pub create_policy_psbt :
      Transaction → List TxOut → List ℕ → List ℕ → VaultPolicy → ControllerPolicy → Result Psbt
  unfolding fill_inputs
  create_policy_psbt transaction prevouts vault_indexes controller_indexes vault controller = do
    bail_if (length transaction.input != length prevouts) wrong_prevouts
    bail_if (breaks_partition (length transaction.input) vault_indexes controller_indexes)
        "policy PSBT input roles do not form an exact input partition"
    psbt ← context (lib.from_unsigned_tx transaction) "transaction is not unsigned"
    vault_descriptor ←
        definite_descriptor lib vault.descriptor "vault descriptor could not be made definite"
    controller_descriptor ←
        definite_descriptor lib controller.descriptor
          "controller descriptor could not be made definite"
    fill_inputs psbt 0 prevouts λ index.
        if contains (to_set vault_indexes) index
        then vault_role vault_descriptor
        else controller_role controller_descriptor

  unfoldable pub create_controller_psbt : Transaction → List TxOut → ControllerPolicy → Result Psbt
  unfolding fill_inputs
  create_controller_psbt transaction prevouts controller = do
    bail_if (length transaction.input != length prevouts) wrong_prevouts
    psbt ← context (lib.from_unsigned_tx transaction) "transaction is not unsigned"
    descriptor ←
        definite_descriptor lib controller.descriptor
          "controller descriptor could not be made definite"
    fill_inputs psbt 0 prevouts (λ index. controller_role descriptor)
