-- ===== src/Transactions/Unsigned.antt =====
-- Building a PSBT keeps the transaction that it is built for.
use anzen.Prelude.{
  ℕ, suc, ◌≡◌, refl, ap, map, ◌∙◌, String, some, List, [], ◌∷◌, ok, >>=-eq-ok, arith, length,
  bail_if, context, ◌!=◌, nat_eq, Option,
}
use anzen.Transactions.Revocation.{VaultUtxo, unsigned_input}
use anzen.Bitcoin.{Bitcoin, TxIn, TxOut, Transaction, Psbt, Descriptor}
use anzen.Policy.{definite_descriptor, VaultPolicy, ControllerPolicy}
use anzen.Transactions.Construct.{
  fill_input, fill_inputs, vault_role, controller_role, create_vault_psbt, create_controller_psbt,
}

-- `Psbt::from_unsigned_tx` stores the transaction, and `update_input_with_descriptor` leaves it.
pub record KeepsTransaction (lib : Bitcoin) : Type 0 where
  pub stores :
      (tx : Transaction) (psbt : Psbt) → lib.from_unsigned_tx tx ≡ some psbt → psbt.unsigned_tx ≡ tx
  pub leaves :
      (psbt next : Psbt) (index : ℕ) (descriptor : Descriptor)
      → lib.update_input_with_descriptor psbt index descriptor ≡ some next
      → next.unsigned_tx ≡ psbt.unsigned_tx

-- The inputs of a transaction that spends some outputs.
pub inputs-spend :
    (utxos : List VaultUtxo) (n : ℕ)
    → map
        (λ (input : TxIn). input.previous_output)
        (map (λ (utxo : VaultUtxo). unsigned_input utxo.outpoint n) utxos)
      ≡ map (λ (utxo : VaultUtxo). utxo.outpoint) utxos
inputs-spend [] n = refl
inputs-spend (utxo ∷ utxos) n = ap (λ rest. utxo.outpoint ∷ rest) (inputs-spend utxos n)

-- The value of a step that returns.
pub context-ok :
    (message : String) {psbt : Psbt} {found : Option Psbt}
    → context found message ≡ ok psbt
    → found ≡ some psbt
context-ok message h = ground arith

module _ (lib : Bitcoin) (keeps : KeepsTransaction lib) where
  fill_input-unsigned_tx :
      (psbt next : Psbt) (index : ℕ) (prevout : TxOut) (descriptor : Descriptor) (message : String)
      → fill_input lib psbt index prevout descriptor message ≡ ok next
      → next.unsigned_tx ≡ psbt.unsigned_tx
  unfolding fill_input
  fill_input-unsigned_tx psbt next index prevout descriptor message h =
      let leaves = keeps.leaves in grind arith

  pub fill_inputs-unsigned_tx :
      (psbt filled : Psbt) (index : ℕ) (prevouts : List TxOut) (role : ℕ → Descriptor × String)
      → fill_inputs lib psbt index prevouts role ≡ ok filled
      → filled.unsigned_tx ≡ psbt.unsigned_tx
  unfolding fill_inputs
  fill_inputs-unsigned_tx psbt filled index [] role h = ground arith
  fill_inputs-unsigned_tx psbt filled index (prevout ∷ prevouts) role h =
      let (next, first, rest) =
        >>=-eq-ok (fill_input lib psbt index prevout (role index).0 (role index).1) _ h in
      fill_inputs-unsigned_tx next filled (suc index) prevouts role rest
      ∙ fill_input-unsigned_tx psbt next index prevout (role index).0 (role index).1 first

  pub create_vault_psbt-unsigned_tx :
      (tx : Transaction) (prevouts : List TxOut) (policy : VaultPolicy) (psbt : Psbt)
      → create_vault_psbt lib tx prevouts policy ≡ ok psbt
      → psbt.unsigned_tx ≡ tx
  unfolding create_vault_psbt
  create_vault_psbt-unsigned_tx tx prevouts policy psbt h =
      let (_, _, h1) =
        >>=-eq-ok
          (bail_if (length tx.input != length prevouts)
            "transaction has {} inputs but {} previous outputs were provided")
          _ h in
      let (fresh, stored, h2) =
        >>=-eq-ok (context (lib.from_unsigned_tx tx) "transaction is not unsigned") _ h1 in
      let (descriptor, _, filled) =
        >>=-eq-ok
          (definite_descriptor lib policy.descriptor "vault descriptor could not be made definite")
          _ h2 in
      fill_inputs-unsigned_tx fresh psbt 0 prevouts (λ index. vault_role lib descriptor) filled
      ∙ keeps.stores tx fresh (context-ok _ stored)

  pub create_controller_psbt-unsigned_tx :
      (tx : Transaction) (prevouts : List TxOut) (controller : ControllerPolicy) (psbt : Psbt)
      → create_controller_psbt lib tx prevouts controller ≡ ok psbt
      → psbt.unsigned_tx ≡ tx
  unfolding create_controller_psbt
  create_controller_psbt-unsigned_tx tx prevouts controller psbt h =
      let (_, _, h1) =
        >>=-eq-ok
          (bail_if (length tx.input != length prevouts)
            "transaction has {} inputs but {} previous outputs were provided")
          _ h in
      let (fresh, stored, h2) =
        >>=-eq-ok (context (lib.from_unsigned_tx tx) "transaction is not unsigned") _ h1 in
      let (descriptor, _, filled) =
        >>=-eq-ok
          (definite_descriptor lib controller.descriptor
            "controller descriptor could not be made definite")
          _ h2 in
      fill_inputs-unsigned_tx fresh psbt 0 prevouts (λ index. controller_role lib descriptor) filled
      ∙ keeps.stores tx fresh (context-ok _ stored)
