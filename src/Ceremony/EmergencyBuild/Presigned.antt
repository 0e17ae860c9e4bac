-- ===== src/Ceremony/EmergencyBuild/Presigned.antt =====
-- What a presigned transaction of the phone spends.
use anzen.Prelude.{
  ℕ, ◌≡◌, refl, ◌∙◌, >>=-eq-ok, String, some, List, [], ◌∷◌, map, ok, arith, get_elem?, length,
  nat_eq, bail_if, context, ◌!=◌, if◌then◌else◌,
}
use anzen.Constants.{connector_value_sats}
use anzen.Bitcoin.{
  Bitcoin, Bytes, Script, OutPoint, LeafHash, TxOut, Transaction, PsbtInput, Psbt, Descriptor,
  Keypair, Address, key_leaf_eq,
}
use anzen.Policy.{
  VaultPolicy, ControllerPolicy, definite_descriptor, cooperative, Leaf, SpendPath, vault_leaf,
}
use anzen.Transactions.Roles.{breaks_partition, contains, to_set}
use anzen.Transactions.Construct.{update_at, create_policy_psbt, vault_role, controller_role}
use anzen.Transactions.Signing.{vault, insert, sign_input, sign_inputs, sign_vault_psbt_inputs}
use anzen.Transactions.Unsigned.{KeepsTransaction, context-ok, fill_inputs-unsigned_tx}
use anzen.Transactions.Updates.{update_at-map, update_at-other}
use anzen.Ceremony.Types.{ConnectorState}
use anzen.Ceremony.Templates.{output_of}
use anzen.Ceremony.EmergencyBuild.{presign}
use anzen.Ceremony.EmergencyBuild.Filled.{
  KeepsInputs, prevouts_of, signatures_of, two_blanks, fill_two,
}

module _ (lib : Bitcoin) (keeps : KeepsInputs lib) where
  -- What the first input spends, and the second one, which nobody has signed.
  pub record Presigned (psbt : Psbt) (tx : Transaction) (p c : TxOut) : Type 0 where
    pub unsigned : psbt.unsigned_tx ≡ tx
    pub two : length psbt.inputs ≡ 2
    pub vault_entry : PsbtInput
    pub first : get_elem? psbt.inputs 0 ≡ some vault_entry
    pub spends : vault_entry.witness_utxo ≡ some p
    pub connector_entry : PsbtInput
    pub second : get_elem? psbt.inputs 1 ≡ some connector_entry
    pub connects : connector_entry.witness_utxo ≡ some c
    pub bare : connector_entry.tap_script_sigs ≡ []

  Presigned-of_columns :
      (xs : List PsbtInput) (psbt : Psbt) (tx : Transaction) (p c : TxOut)
      → psbt.inputs ≡ xs
      → psbt.unsigned_tx ≡ tx
      → map (λ (i : PsbtInput). i.witness_utxo) xs ≡ some p ∷ some c ∷ []
      → (ys : List PsbtInput) → map (λ (i : PsbtInput). i.tap_script_sigs) ys ≡ [] ∷ [] ∷ []
      → get_elem? xs 1 ≡ get_elem? ys 1
      → Presigned psbt tx p c
  Presigned-of_columns [] psbt tx p c at same spends ys blank kept = absurd (ground arith)
  Presigned-of_columns (a ∷ []) psbt tx p c at same spends ys blank kept = absurd (ground arith)
  Presigned-of_columns (a ∷ b ∷ d ∷ xs) psbt tx p c at same spends ys blank kept =
      absurd (ground arith)
  Presigned-of_columns (a ∷ b ∷ []) psbt tx p c at same spends [] blank kept = absurd (ground arith)
  Presigned-of_columns (a ∷ b ∷ []) psbt tx p c at same spends (y ∷ []) blank kept =
      absurd (ground arith)
  Presigned-of_columns (a ∷ b ∷ []) psbt tx p c at same spends (y ∷ z ∷ ys) blank kept = record {
    unsigned = same;
    two = rw at refl;
    vault_entry = a;
    first = rw at refl;
    spends = ground arith;
    connector_entry = b;
    second = rw at refl;
    connects = ground arith;
    bare = ground arith;
  }

  signed :
      (psbt next : Psbt) (leaf : LeafHash) (keypair : Keypair)
      → sign_input lib vault psbt leaf keypair 0 ≡ ok next
      → (message : Bytes) × (lib.sighash_msg psbt 0 leaf ≡ some message)
        × (update_at psbt.inputs 0 (λ (i : PsbtInput). record i {
          tap_script_sigs =
              insert
                (lib.keypair_pubkey keypair, leaf)
                (record {
                  signature = lib.sign_schnorr message keypair;
                  sighash_type = lib.sighash_default;
                })
                i.tap_script_sigs;
        })
            ≡ some next.inputs)
        × (next.unsigned_tx ≡ psbt.unsigned_tx)
  unfolding sign_input
  signed psbt next leaf keypair h = ground arith

  only_input :
      (psbt next : Psbt) (policy : VaultPolicy) (keypair : Keypair)
      → sign_vault_psbt_inputs lib psbt policy cooperative keypair (0 ∷ []) ≡ ok next
      → (leaf : Leaf SpendPath) × (vault_leaf lib policy cooperative ≡ ok leaf)
        × (sign_input lib vault psbt leaf.leaf_hash keypair 0 ≡ ok next)
  unfolding sign_vault_psbt_inputs sign_inputs
  only_input psbt next policy keypair h = ground arith

  sign_input-keeps :
      (psbt next : Psbt) (leaf : LeafHash) (keypair : Keypair)
      → sign_input lib vault psbt leaf keypair 0 ≡ ok next
      → (next.unsigned_tx ≡ psbt.unsigned_tx)
        × (prevouts_of next ≡ prevouts_of psbt)
        × (get_elem? next.inputs 1 ≡ get_elem? psbt.inputs 1)
  sign_input-keeps psbt next leaf keypair h =
      let (_, _, updates, same) = signed psbt next leaf keypair h in
      (
        same,
        update_at-map (λ (i : PsbtInput). i.witness_utxo) psbt.inputs 0 _ next.inputs (λ x. refl)
            updates,
        update_at-other psbt.inputs 0 _ next.inputs 1 updates (λ e. absurd (omega (arith, e))),
      )

  sign-keeps :
      (psbt signed_psbt : Psbt) (policy : VaultPolicy) (keypair : Keypair)
      → sign_vault_psbt_inputs lib psbt policy cooperative keypair (0 ∷ []) ≡ ok signed_psbt
      → (signed_psbt.unsigned_tx ≡ psbt.unsigned_tx)
        × (prevouts_of signed_psbt ≡ prevouts_of psbt)
        × (get_elem? signed_psbt.inputs 1 ≡ get_elem? psbt.inputs 1)
  sign-keeps psbt signed_psbt policy keypair h =
      let (leaf, _, done) = only_input psbt signed_psbt policy keypair h in
      sign_input-keeps psbt signed_psbt leaf.leaf_hash keypair done

  module _ (stores : KeepsTransaction lib) where
    create_policy_psbt-columns :
        (tx : Transaction) (p c : TxOut) (policy : VaultPolicy) (controller : ControllerPolicy)
        (psbt : Psbt)
        → create_policy_psbt lib tx (p ∷ c ∷ []) (0 ∷ []) (1 ∷ []) policy controller ≡ ok psbt
        → (psbt.unsigned_tx ≡ tx)
          × (prevouts_of psbt ≡ some p ∷ some c ∷ [])
          × (signatures_of psbt ≡ [] ∷ [] ∷ [])
    unfolding create_policy_psbt
    create_policy_psbt-columns tx p c policy controller psbt h =
        let (_, counted, h1) =
          >>=-eq-ok
            (bail_if (length tx.input != 2)
              "transaction has {} inputs but {} previous outputs were provided")
            _ h in
        let (_, _, h2) =
          >>=-eq-ok
            (bail_if (breaks_partition (length tx.input) (0 ∷ []) (1 ∷ []))
              "policy PSBT input roles do not form an exact input partition")
            _ h1 in
        let (fresh, found, h3) =
          >>=-eq-ok (context (lib.from_unsigned_tx tx) "transaction is not unsigned") _ h2 in
        let (vaulted, _, h4) =
          >>=-eq-ok
            (definite_descriptor lib policy.descriptor
              "vault descriptor could not be made definite")
            _ h3 in
        let (controlled, _, filled) =
          >>=-eq-ok
            (definite_descriptor lib controller.descriptor
              "controller descriptor could not be made definite")
            _ h4 in
        let stored = context-ok "transaction is not unsigned" found in
        let blank : signatures_of fresh ≡ [] ∷ [] ∷ [] =
          keeps.blank tx fresh stored ∙ two_blanks tx.input (ground (arith, counted)) in
        let role : ℕ → Descriptor × String = λ index.
          if contains (to_set (0 ∷ [])) index
          then vault_role lib vaulted
          else controller_role lib controlled in
        let (spends, bare) = fill_two lib keeps fresh psbt p c role blank filled in
        (
          fill_inputs-unsigned_tx lib stores fresh psbt 0 (p ∷ c ∷ []) role filled
              ∙ stores.stores tx fresh stored,
          spends,
          bare,
        )

    module _ (null : OutPoint) (policy : VaultPolicy) (controller : ControllerPolicy)
        (source_outpoint : OutPoint) (source_txout : TxOut) (trigger_connector : ConnectorState)
        (amount_sats delay_sequence : ℕ) (hot_address : Address) (vault_script : Script) where
      pub presign-Presigned :
          (phone : Keypair) (tx : Transaction) (p : TxOut) (psbt : Psbt)
          → presign lib null policy controller source_outpoint source_txout trigger_connector
              amount_sats delay_sequence hot_address vault_script phone tx p
            ≡ ok psbt
          → Presigned psbt tx p (output_of connector_value_sats controller.address.script_pubkey)
      unfolding presign
      presign-Presigned phone tx p psbt h =
          let connector = output_of connector_value_sats controller.address.script_pubkey in
          let (built, creates, signs) =
            >>=-eq-ok
              (create_policy_psbt lib tx (p ∷ connector ∷ []) (0 ∷ []) (1 ∷ []) policy controller) _
              h in
          let (same, spends, bare) =
            create_policy_psbt-columns tx p connector policy controller built creates in
          let (kept_tx, kept, second) = sign-keeps built psbt policy phone signs in
          Presigned-of_columns psbt.inputs psbt tx p connector refl (kept_tx ∙ same) (kept ∙ spends)
            built.inputs bare second
