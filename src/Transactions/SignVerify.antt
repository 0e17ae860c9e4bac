-- ===== src/Transactions/SignVerify.antt =====
-- Signing every input satisfies the function that verifies.
use anzen.Prelude.{
  ℕ, zero, suc, ◌≡◌, refl, ◌∙◌, true, some, List, [], ◌∷◌, map, ok, >>=-eq-ok, arith, get_elem?,
  length, range_from, All, Eq, nat_eq,
}
use anzen.Bitcoin.{
  Bitcoin, Bytes, XOnlyPublicKey, LeafHash, PsbtInput, Psbt, TapSignature, key_leaf_eq, Keypair,
}
use anzen.Policy.{SpendPath, VaultPolicy, Leaf, vault_leaf}
use anzen.Transactions.Construct.{update_at}
use anzen.Transactions.Signatures.{SignedAt, SignedAt-verify_inputs}
use anzen.Transactions.Signing.{
  Role, vault, lookup, insert, sign_input, sign_inputs, sign_vault_psbt,
  verify_vault_psbt_signature, check_sighashes,
}
use anzen.Transactions.Updates.{update_at-same, update_at-other, update_at-map, update_at-length}

lookup-insert {ℓ κ} :
    {K : Type ℓ} {V : Type κ} ⦃e : Eq K⦄ (k : K) (v : V) (m : List (K × V))
    → lookup k (insert k v m) ≡ some v
lookup-insert k v m = ground arith

abbrev signed_input : XOnlyPublicKey → LeafHash → TapSignature → PsbtInput → PsbtInput
signed_input key leaf signature i = record i {
  tap_script_sigs = insert (key, leaf) signature i.tap_script_sigs;
}

check_sighashes-update_at :
    (lib : Bitcoin) (xs : List PsbtInput) (i : ℕ) (f : PsbtInput → PsbtInput) (ys : List PsbtInput)
    → ((x : PsbtInput) → (f x).sighash_type ≡ x.sighash_type)
    → update_at xs i f ≡ some ys
    → check_sighashes lib ys ≡ check_sighashes lib xs
unfolding check_sighashes
check_sighashes-update_at lib [] i f ys keeps h = cc
check_sighashes-update_at lib (a ∷ xs) zero f ys keeps h = ground (arith, keeps a)
check_sighashes-update_at lib (a ∷ xs) (suc i) f ys keeps h =
    grind (arith, λ (zs : List PsbtInput). check_sighashes-update_at lib xs i f zs keeps)

-- What a Taproot sighash is computed from: the transaction, the outputs it spends and the types that
-- the inputs ask for. The signatures in a PSBT are no part of it.
abbrev pub SameSpend : Psbt → Psbt → Type 0
SameSpend psbt next =
    (next.unsigned_tx ≡ psbt.unsigned_tx)
    × (map (λ (i : PsbtInput). i.witness_utxo) next.inputs
        ≡ map (λ (i : PsbtInput). i.witness_utxo) psbt.inputs)
    × (map (λ (i : PsbtInput). i.sighash_type) next.inputs
        ≡ map (λ (i : PsbtInput). i.sighash_type) psbt.inputs)

module _ (lib : Bitcoin)
    (correct : (message : Bytes) (keypair : Keypair)
      → lib.verify_schnorr (lib.sign_schnorr message keypair) message (lib.keypair_pubkey keypair)
        ≡ true)
    (commits : (psbt next : Psbt)
      → SameSpend psbt next
      → (index : ℕ) (leaf : LeafHash)
      → lib.sighash_msg next index leaf ≡ lib.sighash_msg psbt index leaf) where
  -- The one change that signing an input makes.
  sign_input-eq-ok :
      (role : Role) (psbt : Psbt) (leaf : LeafHash) (keypair : Keypair) (index : ℕ) (next : Psbt)
      → sign_input lib role psbt leaf keypair index ≡ ok next
      → (input : PsbtInput) × (message : Bytes) × (get_elem? psbt.inputs index ≡ some input)
        × (lib.sighash_msg psbt index leaf ≡ some message)
        × (update_at psbt.inputs index (
              signed_input (lib.keypair_pubkey keypair) leaf (record {
                signature = lib.sign_schnorr message keypair;
                sighash_type = lib.sighash_default;
              }))
            ≡ some next.inputs)
        × (next.unsigned_tx ≡ psbt.unsigned_tx)
  unfolding sign_input
  sign_input-eq-ok role psbt leaf keypair index next h = ground arith

  module _ (role : Role) (psbt : Psbt) (leaf : LeafHash) (keypair : Keypair) (index : ℕ)
      (next : Psbt) (h : sign_input lib role psbt leaf keypair index ≡ ok next) where
    sign_input-SameSpend : SameSpend psbt next
    sign_input-SameSpend =
        let (_, _, _, _, updates, same_tx) = sign_input-eq-ok role psbt leaf keypair index next h in
        (
          same_tx,
          update_at-map _ psbt.inputs index _ next.inputs (λ x. refl) updates,
          update_at-map _ psbt.inputs index _ next.inputs (λ x. refl) updates,
        )

    sign_input-length : length next.inputs ≡ length psbt.inputs
    sign_input-length =
        let (_, _, _, _, updates, _) = sign_input-eq-ok role psbt leaf keypair index next h in
        update_at-length psbt.inputs index _ next.inputs updates

    sign_input-SignedAt : SignedAt lib next leaf (lib.keypair_pubkey keypair) index
    sign_input-SignedAt =
        let (input, message, found, hashes, updates, _) =
          sign_input-eq-ok role psbt leaf keypair index next h in
        record {
          input = _;
          signature = _;
          message = message;
          found = update_at-same psbt.inputs index _ next.inputs input updates found;
          signs = lookup-insert _ _ input.tap_script_sigs;
          default = refl;
          hashes = commits psbt next sign_input-SameSpend index leaf ∙ hashes;
          valid = correct message keypair;
        }

    sign_input-keeps :
        (j : ℕ)
        → SignedAt lib psbt leaf (lib.keypair_pubkey keypair) j
        → SignedAt lib next leaf (lib.keypair_pubkey keypair) j
    sign_input-keeps j s =
        let (_, _, _, _, updates, _) = sign_input-eq-ok role psbt leaf keypair index next h in
        elim (nat_eq.dec j index) [
          | yes same ↦ rw same sign_input-SignedAt
          | no differs ↦ record {
            input = s.input;
            signature = s.signature;
            message = s.message;
            found = update_at-other psbt.inputs index _ next.inputs j updates differs ∙ s.found;
            signs = s.signs;
            default = s.default;
            hashes = commits psbt next sign_input-SameSpend j leaf ∙ s.hashes;
            valid = s.valid;
          }
        ]

  sign_inputs-keeps :
      (role : Role) (psbt : Psbt) (leaf : LeafHash) (keypair : Keypair) (indexes : List ℕ)
      (signed : Psbt)
      → sign_inputs lib role psbt leaf keypair indexes ≡ ok signed
      → (j : ℕ) → SignedAt lib psbt leaf (lib.keypair_pubkey keypair) j
      → SignedAt lib signed leaf (lib.keypair_pubkey keypair) j
  unfolding sign_inputs
  sign_inputs-keeps role psbt leaf keypair [] signed h j s =
      let same : psbt ≡ signed = ground arith in rw (← same) s
  sign_inputs-keeps role psbt leaf keypair (index ∷ indexes) signed h j s =
      let (next, first, rest) = >>=-eq-ok (sign_input lib role psbt leaf keypair index) _ h in
      sign_inputs-keeps role next leaf keypair indexes signed rest j
        (sign_input-keeps role psbt leaf keypair index next first j s)

  -- Signing a list of inputs leaves a valid signature on each of them.
  sign_inputs-SignedAt :
      (role : Role) (psbt : Psbt) (leaf : LeafHash) (keypair : Keypair) (indexes : List ℕ)
      (signed : Psbt)
      → sign_inputs lib role psbt leaf keypair indexes ≡ ok signed
      → All (SignedAt lib signed leaf (lib.keypair_pubkey keypair)) indexes
  unfolding sign_inputs
  sign_inputs-SignedAt role psbt leaf keypair [] signed h = tt
  sign_inputs-SignedAt role psbt leaf keypair (index ∷ indexes) signed h =
      let (next, first, rest) = >>=-eq-ok (sign_input lib role psbt leaf keypair index) _ h in
      (
        sign_inputs-keeps role next leaf keypair indexes signed rest index
            (sign_input-SignedAt role psbt leaf keypair index next first),
        sign_inputs-SignedAt role next leaf keypair indexes signed rest,
      )

  sign_inputs-length :
      (role : Role) (psbt : Psbt) (leaf : LeafHash) (keypair : Keypair) (indexes : List ℕ)
      (signed : Psbt)
      → sign_inputs lib role psbt leaf keypair indexes ≡ ok signed
      → length signed.inputs ≡ length psbt.inputs
  unfolding sign_inputs
  sign_inputs-length role psbt leaf keypair [] signed h = ground arith
  sign_inputs-length role psbt leaf keypair (index ∷ indexes) signed h =
      let (next, first, rest) = >>=-eq-ok (sign_input lib role psbt leaf keypair index) _ h in
      sign_inputs-length role next leaf keypair indexes signed rest
      ∙ sign_input-length role psbt leaf keypair index next first

  sign_inputs-sighashes :
      (role : Role) (psbt : Psbt) (leaf : LeafHash) (keypair : Keypair) (indexes : List ℕ)
      (signed : Psbt)
      → sign_inputs lib role psbt leaf keypair indexes ≡ ok signed
      → check_sighashes lib signed.inputs ≡ check_sighashes lib psbt.inputs
  unfolding sign_inputs
  sign_inputs-sighashes role psbt leaf keypair [] signed h = ground arith
  sign_inputs-sighashes role psbt leaf keypair (index ∷ indexes) signed h =
      let (next, first, rest) = >>=-eq-ok (sign_input lib role psbt leaf keypair index) _ h in
      let (_, _, _, _, updates, _) = sign_input-eq-ok role psbt leaf keypair index next first in
      sign_inputs-sighashes role next leaf keypair indexes signed rest
      ∙ check_sighashes-update_at lib psbt.inputs index _ next.inputs (λ x. refl) updates

  sign_vault_psbt-eq-ok :
      (psbt : Psbt) (policy : VaultPolicy) (path : SpendPath) (keypair : Keypair) (signed : Psbt)
      → sign_vault_psbt lib psbt policy path keypair ≡ ok signed
      → (leaf : Leaf SpendPath) × (vault_leaf lib policy path ≡ ok leaf)
        × (check_sighashes lib psbt.inputs ≡ ok tt)
        × (sign_inputs lib vault psbt leaf.leaf_hash keypair (range_from 0 (length psbt.inputs))
            ≡ ok signed)
  unfolding sign_vault_psbt
  sign_vault_psbt-eq-ok psbt policy path keypair signed h = ground arith

  -- If Schnorr signatures verify and a sighash depends on the transaction, the outputs it spends and
  -- the inputs' sighash types alone, a PSBT that `sign_vault_psbt` signs passes `verify_vault_psbt_signature` for the
  -- signer's key and the same path.
  pub sign_vault_psbt-verifies :
      (psbt : Psbt) (policy : VaultPolicy) (path : SpendPath) (keypair : Keypair) (signed : Psbt)
      → sign_vault_psbt lib psbt policy path keypair ≡ ok signed
      → verify_vault_psbt_signature lib signed policy path (lib.keypair_pubkey keypair) ≡ ok tt
  unfolding verify_vault_psbt_signature
  sign_vault_psbt-verifies psbt policy path keypair signed h =
      let (leaf, found, defaults, done) = sign_vault_psbt-eq-ok psbt policy path keypair signed h in
      let same = sign_inputs-length vault psbt leaf.leaf_hash keypair _ signed done in
      let kept = sign_inputs-sighashes vault psbt leaf.leaf_hash keypair _ signed done in
      let verified =
        SignedAt-verify_inputs lib vault signed leaf.leaf_hash (lib.keypair_pubkey keypair) _
          (sign_inputs-SignedAt vault psbt leaf.leaf_hash keypair _ signed done) in
      rw (kept, defaults, found, same) verified
