-- ===== src/Ceremony/EmergencyBuild/Filled.antt =====
-- What the inputs of a PSBT with two filled inputs spend.
use anzen.Prelude.{
  ℕ, ◌≡◌, refl, sym, ap, subst, ◌∙◌, >>=-eq-ok, String, Option, some, List, [], ◌∷◌, map, ok, arith,
  length, nat_eq,
}
use anzen.Bitcoin.{
  Bitcoin, LeafHash, TxIn, TxOut, Transaction, PsbtInput, Psbt, Descriptor, TapSignature,
  key_leaf_eq,
}
use anzen.Transactions.Construct.{update_at, fill_input, fill_inputs}
use anzen.Transactions.Updates.{update_at-map, update_at-through}

abbrev pub prevouts_of : Psbt → List (Option TxOut)
prevouts_of psbt = map (λ (i : PsbtInput). i.witness_utxo) psbt.inputs

abbrev pub signatures_of : Psbt → List (List ((ℕ × LeafHash) × TapSignature))
signatures_of psbt = map (λ (i : PsbtInput). i.tap_script_sigs) psbt.inputs

abbrev pub no_signatures : List ((ℕ × LeafHash) × TapSignature)
no_signatures = []

-- A fresh PSBT has no signature, and `update_input_with_descriptor` leaves the outputs that the
-- inputs spend and their signatures.
pub record KeepsInputs (lib : Bitcoin) : Type 0 where
  pub blank :
      (tx : Transaction) (psbt : Psbt)
      → lib.from_unsigned_tx tx ≡ some psbt
      → signatures_of psbt ≡ map (λ input. no_signatures) tx.input
  pub prevouts :
      (psbt next : Psbt) (index : ℕ) (descriptor : Descriptor)
      → lib.update_input_with_descriptor psbt index descriptor ≡ some next
      → prevouts_of next ≡ prevouts_of psbt
  pub signatures :
      (psbt next : Psbt) (index : ℕ) (descriptor : Descriptor)
      → lib.update_input_with_descriptor psbt index descriptor ≡ some next
      → signatures_of next ≡ signatures_of psbt

Option-injective : {xs ys : List (Option TxOut)} → some xs ≡ some ys → xs ≡ ys
Option-injective same = cc

pub two_blanks :
    (xs : List TxIn) → length xs ≡ 2 → map (λ (x : TxIn). no_signatures) xs ≡ [] ∷ [] ∷ []
two_blanks [] h = absurd (omega arith)
two_blanks (a ∷ []) h = absurd (omega arith)
two_blanks (a ∷ b ∷ []) h = refl
two_blanks (a ∷ b ∷ c ∷ xs) h = absurd (omega arith)

module _ (lib : Bitcoin) (keeps : KeepsInputs lib) where
  filled_input : TxOut → PsbtInput → PsbtInput
  filled_input prevout input = record input {
    witness_utxo = some prevout;
    sighash_type = some lib.sighash_default;
  }

  fill_input-eq-ok :
      (psbt next : Psbt) (index : ℕ) (prevout : TxOut) (descriptor : Descriptor) (message : String)
      → fill_input lib psbt index prevout descriptor message ≡ ok next
      → (inputs : List PsbtInput) × (update_at psbt.inputs index (filled_input prevout)
          ≡ some inputs)
        × (lib.update_input_with_descriptor (record psbt { inputs = inputs }) index descriptor
            ≡ some next)
  unfolding fill_input filled_input
  fill_input-eq-ok psbt next index prevout descriptor message h = ground arith

  fill_input-prevouts :
      (psbt next : Psbt) (index : ℕ) (prevout : TxOut) (descriptor : Descriptor) (message : String)
      → fill_input lib psbt index prevout descriptor message ≡ ok next
      → update_at (prevouts_of psbt) index (λ (old : Option TxOut). some prevout)
        ≡ some (prevouts_of next)
  unfolding filled_input
  fill_input-prevouts psbt next index prevout descriptor message h =
      let (inputs, updates, described) =
        fill_input-eq-ok psbt next index prevout descriptor message h in
      let same = keeps.prevouts (record psbt { inputs = inputs }) next index descriptor described in
      rw same (
        update_at-through (λ (i : PsbtInput). i.witness_utxo) psbt.inputs index
          (filled_input prevout) (some prevout) inputs (λ x. refl) updates)

  fill_input-signatures :
      (psbt next : Psbt) (index : ℕ) (prevout : TxOut) (descriptor : Descriptor) (message : String)
      → fill_input lib psbt index prevout descriptor message ≡ ok next
      → signatures_of next ≡ signatures_of psbt
  unfolding filled_input
  fill_input-signatures psbt next index prevout descriptor message h =
      let (inputs, updates, described) =
        fill_input-eq-ok psbt next index prevout descriptor message h in
      keeps.signatures (record psbt { inputs = inputs }) next index descriptor described
      ∙ update_at-map (λ (i : PsbtInput). i.tap_script_sigs) psbt.inputs index
          (filled_input prevout) inputs (λ x. refl) updates

  two_prevouts :
      (xs : List PsbtInput)
      → map (λ (i : PsbtInput). i.tap_script_sigs) xs ≡ [] ∷ [] ∷ []
      → (u : Option TxOut) × (v : Option TxOut) × (map (λ (i : PsbtInput). i.witness_utxo) xs
          ≡ u ∷ v ∷ [])
  two_prevouts [] h = absurd (ground arith)
  two_prevouts (a ∷ []) h = absurd (ground arith)
  two_prevouts (a ∷ b ∷ []) h = (a.witness_utxo, b.witness_utxo, refl)
  two_prevouts (a ∷ b ∷ c ∷ xs) h = absurd (ground arith)

  pub fill_two :
      (psbt filled : Psbt) (p c : TxOut) (role : ℕ → Descriptor × String)
      → signatures_of psbt ≡ [] ∷ [] ∷ []
      → fill_inputs lib psbt 0 (p ∷ c ∷ []) role ≡ ok filled
      → (prevouts_of filled ≡ some p ∷ some c ∷ []) × (signatures_of filled ≡ [] ∷ [] ∷ [])
  unfolding fill_inputs
  fill_two psbt filled p c role blank h =
      let (f1, first, h1) = >>=-eq-ok (fill_input lib psbt 0 p (role 0).0 (role 0).1) _ h in
      let (f2, second, h2) = >>=-eq-ok (fill_input lib f1 1 c (role 1).0 (role 1).1) _ h1 in
      let (u, v, two) = two_prevouts psbt.inputs blank in
      let w1 = fill_input-prevouts psbt f1 0 p (role 0).0 (role 0).1 first in
      let w2 = fill_input-prevouts f1 f2 1 c (role 1).0 (role 1).1 second in
      let s1 = fill_input-signatures psbt f1 0 p (role 0).0 (role 0).1 first in
      let s2 = fill_input-signatures f1 f2 1 c (role 1).0 (role 1).1 second in
      let same : f2 ≡ filled = ground arith in
      let after_first : prevouts_of f1 ≡ some p ∷ v ∷ [] =
        Option-injective
          (sym w1 ∙ ap (λ xs. update_at xs 0 (λ (old : Option TxOut). some p)) two) in
      let after_second : prevouts_of f2 ≡ some p ∷ some c ∷ [] =
        Option-injective
          (sym w2 ∙ ap (λ xs. update_at xs 1 (λ (old : Option TxOut). some c)) after_first) in
      (
        subst (λ psbt. prevouts_of psbt ≡ some p ∷ some c ∷ []) same after_second,
        subst (λ psbt. signatures_of psbt ≡ [] ∷ [] ∷ []) same (s2 ∙ s1 ∙ blank),
      )
