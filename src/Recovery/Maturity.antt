-- ===== src/Recovery/Maturity.antt =====
-- Which outputs a recovery path sweeps, and when.
use anzen.Prelude.{
  ℕ, ◌+◌, ◌≤◌, ◌<◌, ◌≡◌, refl, ◌⊎◌, ◌↔◌, true, some, List, [], ◌∷◌, arith, leb, u64_limit,
  saturating_add,
}
use anzen.Constants.{phone_recovery_blocks, hww_recovery_blocks}
use anzen.Transactions.Revocation.{VaultUtxo}
use anzen.Recovery.Sweep.{SweepPath, phone_recovery, hww_recovery, delay, mature_from, mature_utxos}

-- An output of the list.
abbrev pub Mem : VaultUtxo → List VaultUtxo → Type 0
Mem utxo [] = ⊥
Mem utxo (u ∷ utxos) = (utxo ≡ u) ⊎ Mem utxo utxos

-- Whether a relative delay of `blocks` is over in the block after the tip.
abbrev pub Ripe : ℕ → ℕ → VaultUtxo → Type 0
Ripe blocks tip utxo = utxo.confirmation_height + blocks ≤ tip + 1

leb-Ripe :
    (u : VaultUtxo) (blocks tip : ℕ)
    → tip + 2 < u64_limit
    → leb (saturating_add u.confirmation_height blocks) (saturating_add tip 1) ≡ true
      ↔ Ripe blocks tip u
unfolding saturating_add
leb-Ripe u blocks tip fits = (λ h. ground arith, λ r. ground arith)

mature_from-Ripe :
    (utxos : List VaultUtxo) (blocks tip : ℕ) (utxo : VaultUtxo)
    → tip + 2 < u64_limit
    → Mem utxo (mature_from utxos blocks (saturating_add tip 1))
      ↔ Mem utxo utxos × Ripe blocks tip utxo
unfolding mature_from
mature_from-Ripe [] blocks tip utxo fits = (λ m. absurd m, λ m. m.0)
mature_from-Ripe (u ∷ utxos) blocks tip utxo fits =
    let (ripe, unripe) = leb-Ripe u blocks tip fits in
    let (sound, complete) = mature_from-Ripe utxos blocks tip utxo fits in
    ground (arith, ripe, unripe, sound, complete)

mature_utxos_lem :
    (utxos : List VaultUtxo) (path : SweepPath) (blocks tip : ℕ)
    → delay path ≡ some blocks
    → mature_utxos utxos path tip ≡ mature_from utxos blocks (saturating_add tip 1)
unfolding mature_utxos
mature_utxos_lem utxos path blocks tip known = rw (known, mature_utxos) refl

-- Far enough below the limit of a `u64`, a recovery path sweeps an output of the vault exactly if
-- its relative delay is over in the next block.
pub mature_utxos-Ripe :
    (utxos : List VaultUtxo) (path : SweepPath) (blocks tip : ℕ) (utxo : VaultUtxo)
    → delay path ≡ some blocks
    → tip + 2 < u64_limit
    → Mem utxo (mature_utxos utxos path tip) ↔ Mem utxo utxos × Ripe blocks tip utxo
mature_utxos-Ripe utxos path blocks tip utxo known fits =
    rw (mature_utxos_lem utxos path blocks tip known) (mature_from-Ripe utxos blocks tip utxo fits)

-- The phone recovers no later than the hardware wallet: what the hardware wallet can sweep at a
-- tip, the phone can sweep at that tip and at every later one.
pub mature_utxos-phone-first :
    (utxos : List VaultUtxo) (tip later : ℕ) (utxo : VaultUtxo)
    → later + 2 < u64_limit
    → tip ≤ later
    → Mem utxo (mature_utxos utxos hww_recovery tip)
    → Mem utxo (mature_utxos utxos phone_recovery later)
mature_utxos-phone-first utxos tip later utxo fits h m =
    let (listed, ripe) =
      (mature_utxos-Ripe utxos hww_recovery hww_recovery_blocks tip utxo refl (omega arith)).0 m in
    (mature_utxos-Ripe utxos phone_recovery phone_recovery_blocks later utxo refl fits).1
      (listed, omega arith)
