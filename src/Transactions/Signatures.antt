-- ===== src/Transactions/Signatures.antt =====
-- What the functions that verify signatures guarantee, and that signing satisfies them.
use anzen.Prelude.{
  ℕ, ◌≡◌, refl, true, some, List, [], ◌∷◌, ok, arith, get_elem?, length, range_from, All,
}
use anzen.Bitcoin.{
  Bitcoin, Bytes, XOnlyPublicKey, LeafHash, PsbtInput, Psbt, TapSignature, key_leaf_eq,
}
use anzen.Policy.{SpendPath, VaultPolicy, Leaf, vault_leaf}
use anzen.Transactions.Signing.{
  Role, vault, lookup, verify_input, verify_inputs, verify_vault_psbt_signature, check_sighashes,
}

-- An input that asks for no sighash type but the given one.
abbrev pub AsksFor : ℕ → PsbtInput → Type 0
AsksFor sighash_type input = (asked : ℕ) → input.sighash_type ≡ some asked → asked ≡ sighash_type

check_sighashes-AsksFor :
    (lib : Bitcoin) (inputs : List PsbtInput)
    → check_sighashes lib inputs ≡ ok tt
    → All (AsksFor lib.sighash_default) inputs
unfolding check_sighashes
check_sighashes-AsksFor lib [] h = tt
check_sighashes-AsksFor lib (input ∷ inputs) h =
    (λ asked asks. ground arith, check_sighashes-AsksFor lib inputs (ground arith))

module _ (lib : Bitcoin) where
  -- The input at an index carries the signature of a key on its sighash, of the default type.
  pub record SignedAt (psbt : Psbt) (leaf : LeafHash) (key : XOnlyPublicKey) (index : ℕ)
      : Type 0 where
    pub input : PsbtInput
    pub signature : TapSignature
    pub message : Bytes
    pub found : get_elem? psbt.inputs index ≡ some input
    pub signs : lookup (key, leaf) input.tap_script_sigs ≡ some signature
    pub default : signature.sighash_type ≡ lib.sighash_default
    pub hashes : lib.sighash_msg psbt index leaf ≡ some message
    pub valid : lib.verify_schnorr signature.signature message key ≡ true

  verify_input-eq-ok :
      (role : Role) (psbt : Psbt) (leaf : LeafHash) (key : XOnlyPublicKey) (index : ℕ)
      → verify_input lib role psbt leaf key index ≡ ok tt
      → (input : PsbtInput) × (signature : TapSignature) × (message : Bytes) × (get_elem?
            psbt.inputs index
          ≡ some input)
        × (lookup (key, leaf) input.tap_script_sigs ≡ some signature)
        × (signature.sighash_type ≡ lib.sighash_default)
        × (lib.sighash_msg psbt index leaf ≡ some message)
        × (lib.verify_schnorr signature.signature message key ≡ true)
  unfolding verify_input
  verify_input-eq-ok role psbt leaf key index h = ground arith

  SignedAt-verify_input :
      (role : Role) (psbt : Psbt) (leaf : LeafHash) (key : XOnlyPublicKey) (index : ℕ)
      → SignedAt psbt leaf key index
      → verify_input lib role psbt leaf key index ≡ ok tt
  unfolding verify_input
  SignedAt-verify_input role psbt leaf key index s =
      let found = s.found in
      let signs = s.signs in
      let default = s.default in let hashes = s.hashes in let valid = s.valid in ground arith

  verify_input-SignedAt :
      (role : Role) (psbt : Psbt) (leaf : LeafHash) (key : XOnlyPublicKey) (index : ℕ)
      → verify_input lib role psbt leaf key index ≡ ok tt
      → SignedAt psbt leaf key index
  verify_input-SignedAt role psbt leaf key index h =
      let (input, signature, message, found, signs, default, hashes, valid) =
        verify_input-eq-ok role psbt leaf key index h in
      record {
        input = input;
        signature = signature;
        message = message;
        found = found;
        signs = signs;
        default = default;
        hashes = hashes;
        valid = valid;
      }

  -- The loop accepts exactly if every input that it visits carries a valid signature.
  pub verify_inputs-SignedAt :
      (role : Role) (psbt : Psbt) (leaf : LeafHash) (key : XOnlyPublicKey) (indexes : List ℕ)
      → verify_inputs lib role psbt leaf key indexes ≡ ok tt
      → All (SignedAt psbt leaf key) indexes
  unfolding verify_inputs
  verify_inputs-SignedAt role psbt leaf key [] h = tt
  verify_inputs-SignedAt role psbt leaf key (index ∷ indexes) h = (
    verify_input-SignedAt role psbt leaf key index (ground arith),
    verify_inputs-SignedAt role psbt leaf key indexes (ground arith),
  )

  pub SignedAt-verify_inputs :
      (role : Role) (psbt : Psbt) (leaf : LeafHash) (key : XOnlyPublicKey) (indexes : List ℕ)
      → All (SignedAt psbt leaf key) indexes
      → verify_inputs lib role psbt leaf key indexes ≡ ok tt
  unfolding verify_inputs
  SignedAt-verify_inputs role psbt leaf key [] all = refl
  SignedAt-verify_inputs role psbt leaf key (index ∷ indexes) (first, rest) = ground (
    arith,
    SignedAt-verify_input role psbt leaf key index first,
    SignedAt-verify_inputs role psbt leaf key indexes rest,
  )

  verify_vault_psbt_signature-eq-ok :
      (psbt : Psbt) (policy : VaultPolicy) (path : SpendPath) (key : XOnlyPublicKey)
      → verify_vault_psbt_signature lib psbt policy path key ≡ ok tt
      → (leaf : Leaf SpendPath) × (vault_leaf lib policy path ≡ ok leaf)
        × (check_sighashes lib psbt.inputs ≡ ok tt)
        × (verify_inputs lib vault psbt leaf.leaf_hash key (range_from 0 (length psbt.inputs))
            ≡ ok tt)
  unfolding verify_vault_psbt_signature
  verify_vault_psbt_signature-eq-ok psbt policy path key h = ground arith

  -- A PSBT that passes has, on every input, a valid signature of the key for the path's leaf, and
  -- no input asks for another sighash type than the default.
  pub verify_vault_psbt_signature-SignedAt :
      (psbt : Psbt) (policy : VaultPolicy) (path : SpendPath) (key : XOnlyPublicKey)
      → verify_vault_psbt_signature lib psbt policy path key ≡ ok tt
      → (leaf : Leaf SpendPath) × (vault_leaf lib policy path ≡ ok leaf)
        × All (AsksFor lib.sighash_default) psbt.inputs
        × All (SignedAt psbt leaf.leaf_hash key) (range_from 0 (length psbt.inputs))
  verify_vault_psbt_signature-SignedAt psbt policy path key h =
      let (leaf, found, defaults, verified) =
        verify_vault_psbt_signature-eq-ok psbt policy path key h in
      (
        leaf,
        found,
        check_sighashes-AsksFor lib psbt.inputs defaults,
        verify_inputs-SignedAt _ psbt leaf.leaf_hash key _ verified,
      )
