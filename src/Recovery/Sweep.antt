-- ===== src/Recovery/Sweep.antt =====
-- `SweepPath`, the mature outputs, and the sweep that one device signs.
use anzen.Prelude.{
  ℕ, String, Bool, true, false, Option, none, some, List, [], ◌∷◌, map, Result, ok, ◌>>=◌, ◌>>◌,
  bail_if, context, leb, if◌then◌else◌, length, checked_sub, saturating_add,
}
use anzen.Constants.{phone_recovery_blocks, hww_recovery_blocks}
use anzen.Bitcoin.{Bitcoin, Txid, Transaction, Psbt, Address, Keypair}
use anzen.Storage.{VaultConfig, bitcoin_network}
use anzen.Policy.{
  SpendPath, cooperative as spend_cooperative, phone_recovery as spend_phone_recovery,
  hww_recovery as spend_hww_recovery, VaultPolicy, vault_from_descriptor,
}
use anzen.Transactions.Vsize.{estimate_vault_vsize}
use anzen.Transactions.Construct.{create_vault_psbt}
use anzen.Transactions.Signing.{sign_vault_psbt, finalize_vault_psbt}
use anzen.Transactions.Revocation.{
  VaultUtxo, sum_from, utxo_values, unsigned_input, transaction_of, is_empty,
}

pub data SweepPath : Type 0 where
  cooperative phone_recovery hww_recovery : SweepPath

abbrev pub policy_path : SweepPath → SpendPath
policy_path cooperative = spend_cooperative
policy_path phone_recovery = spend_phone_recovery
policy_path hww_recovery = spend_hww_recovery

abbrev pub delay : SweepPath → Option ℕ
delay cooperative = none
delay phone_recovery = some phone_recovery_blocks
delay hww_recovery = some hww_recovery_blocks

pub record SweepResult : Type 0 where
  pub txid : Txid
  pub input_count : ℕ
  pub sent_sats : ℕ
  pub fee_sats : ℕ

pub record SweepPlan : Type 0 where
  pub policy : VaultPolicy
  pub psbt : Psbt
  pub input_count : ℕ
  pub sent_sats : ℕ
  pub fee_sats : ℕ

-- `utxos.iter().filter(..).cloned().collect()`
unfoldable pub mature_from : List VaultUtxo → ℕ → ℕ → List VaultUtxo
unfolding saturating_add
mature_from [] blocks next_height = []
mature_from (utxo ∷ utxos) blocks next_height =
    let rest = mature_from utxos blocks next_height in
    if leb (saturating_add utxo.confirmation_height blocks) next_height then utxo ∷ rest else rest

unfoldable pub mature_utxos : List VaultUtxo → SweepPath → ℕ → List VaultUtxo
unfolding mature_from saturating_add
mature_utxos utxos path tip_height = elim (delay path) [
  | none ↦ utxos
  | some blocks ↦ mature_from utxos blocks (saturating_add tip_height 1)
]

-- The two errors of a sweep without mature outputs.
unfoldable pub no_mature_utxos : Option ℕ → List VaultUtxo → String
no_mature_utxos none all_utxos = "vault has no confirmed UTXOs to sweep"
no_mature_utxos (some blocks) [] = "vault has no confirmed UTXOs to sweep"
no_mature_utxos (some blocks) (oldest ∷ rest) =
    "no vault UTXOs are mature for {path:?}; earliest next-block validity height is {valid_height} ({remaining} blocks remaining)"

module _ (lib : Bitcoin) where
  abbrev pub sequence : SweepPath → ℕ
  sequence cooperative = lib.sequence_max
  sequence phone_recovery = phone_recovery_blocks
  sequence hww_recovery = hww_recovery_blocks

  -- The sweep's transaction with an output of `value`.
  abbrev pub sweep_transaction : List VaultUtxo → SweepPath → Address → ℕ → Transaction
  sweep_transaction utxos path destination value =
      transaction_of (map (λ utxo. unsigned_input utxo.outpoint (sequence path)) utxos)
        (record { value = value; script_pubkey = destination.script_pubkey } ∷ [])

  unfoldable pub build_sweep_psbt :
      VaultPolicy → List VaultUtxo → SweepPath → Address → Result (Psbt × ℕ × ℕ)
  unfolding checked_sub
  build_sweep_psbt policy utxos path destination = do
    input_sats ← sum_from 0 (utxo_values utxos) "vault input total overflowed"
    let transaction = sweep_transaction utxos path destination input_sats
    fee_sats ← estimate_vault_vsize lib transaction policy (policy_path path)
    sent_sats ←
        context (checked_sub input_sats fee_sats) "vault balance cannot pay the recovery sweep fee"
    psbt ←
        create_vault_psbt lib (sweep_transaction utxos path destination sent_sats)
          (map (λ utxo. utxo.txout) utxos) policy
    ok (psbt, fee_sats, sent_sats)

  unfoldable pub prepare_sweep :
      VaultConfig → List VaultUtxo → ℕ → SweepPath → Address → Result SweepPlan
  prepare_sweep config all_utxos tip_height path destination = do
    network ← bitcoin_network config
    policy ← vault_from_descriptor lib config.vault_descriptor network
    let utxos = mature_utxos all_utxos path tip_height
    bail_if (is_empty utxos) (no_mature_utxos (delay path) all_utxos)
    (psbt, fee_sats, sent_sats) ← build_sweep_psbt policy utxos path destination
    ok (record {
      policy = policy;
      psbt = psbt;
      input_count = length utxos;
      sent_sats = sent_sats;
      fee_sats = fee_sats;
    })

  -- `path == SweepPath::Cooperative`
  abbrev pub is_cooperative : SweepPath → Bool
  is_cooperative cooperative = true
  is_cooperative phone_recovery = false
  is_cooperative hww_recovery = false

  -- The signer is its vault key pair.
  unfoldable pub sign_recovery_sweep :
      SweepPlan → SweepPath → Keypair → Result (Transaction × SweepResult)
  sign_recovery_sweep plan path signer = do
    bail_if (is_cooperative path) "cooperative sweeps require both device signatures"
    psbt ← sign_vault_psbt lib plan.psbt plan.policy (policy_path path) signer
    transaction ← finalize_vault_psbt lib psbt
    ok (
      transaction,
      record {
        txid = lib.compute_txid transaction;
        input_count = plan.input_count;
        sent_sats = plan.sent_sats;
        fee_sats = plan.fee_sats;
      },
    )
