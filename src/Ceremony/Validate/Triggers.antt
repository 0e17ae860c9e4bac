-- ===== src/Ceremony/Validate/Triggers.antt =====
-- What the checks of the trigger and of the withdrawal accept.
use anzen.Prelude.{ℕ, ◌≡◌, ◌≢◌, some, List, [], ◌∷◌, ok, arith, get_elem?, length}
use anzen.Constants.{connector_value_sats, emergency_access_delay_seconds}
use anzen.Bitcoin.{Bitcoin, Script, Network, Address, OutPoint, TxOut, TxIn, Transaction, Psbt}
use anzen.Storage.{VaultConfig, bitcoin_network}
use anzen.Policy.{VaultPolicy, ControllerPolicy}
use anzen.Ceremony.Types.{BatchManifest, EmergencyAccessPolicy}
use anzen.Ceremony.Templates.{output_of}
use anzen.Ceremony.Workspace.{Workspace, read_psbt}
use anzen.Ceremony.Validate.Parts.{validate_connector_child}
use anzen.Ceremony.Validate.Child.{SpendsChild}
use anzen.Ceremony.Validate.Emergency.{
  check_trigger, check_withdrawal, check_emergency_metadata, validate_trigger, validate_withdrawal,
  validate_enabled, validate_connector_emergency, select_emergency,
}

module _ (lib : Bitcoin) (config : VaultConfig) (manifest : BatchManifest) (files : Workspace)
    (policy : VaultPolicy) (controller : ControllerPolicy) (rollover : Psbt) where
  abbrev pub limit : ℕ
  limit = manifest.emergency_access_limit_sats

  -- The trigger moves the remainder into a staging output, the vault's change and a connector.
  pub record Triggers (e : EmergencyAccessPolicy) (source : TxOut) (vout : ℕ) (trigger : Psbt)
      : Type 0 where
    pub stored : read_psbt lib files e.trigger.psbt_file ≡ ok trigger
    pub remainder : get_elem? rollover.unsigned_tx.output manifest.remainder_vout ≡ some source
    pub connector_vout : manifest.emergency_connector_vout ≡ some vout
    pub spends :
        SpendsChild lib trigger source
          (record { txid = lib.compute_txid rollover.unsigned_tx; vout = manifest.remainder_vout })
          (record { txid = lib.compute_txid rollover.unsigned_tx; vout = vout })
          controller.address.script_pubkey
          e.trigger
    pub outputs :
        trigger.unsigned_tx.output
        ≡ output_of e.staging_value_sats policy.address.script_pubkey
          ∷ output_of e.vault_change_value_sats policy.address.script_pubkey
          ∷ output_of connector_value_sats controller.address.script_pubkey
          ∷ []

  -- The withdrawal waits for the emergency delay, spends the staging output and the connector of
  -- the trigger, and pays the limit to the hot address alone.
  pub record Withdraws (e : EmergencyAccessPolicy) (trigger withdrawal : Psbt) : Type 0 where
    pub stored : read_psbt lib files e.withdrawal.psbt_file ≡ ok withdrawal
    pub spends :
        SpendsChild lib withdrawal
          (output_of e.staging_value_sats policy.address.script_pubkey)
          (record { txid = lib.compute_txid trigger.unsigned_tx; vout = 0 })
          (record { txid = lib.compute_txid trigger.unsigned_tx; vout = 2 })
          controller.address.script_pubkey
          e.withdrawal
    pub delayed :
        (i : TxIn) × (get_elem? withdrawal.unsigned_tx.input 0 ≡ some i)
        × (lib.from_seconds_ceil emergency_access_delay_seconds ≡ some i.sequence)
    pub outputs :
        (network : Network) × (hot : Address) × (bitcoin_network config ≡ ok network)
        × (lib.parse_address e.hot_address network ≡ some hot)
        × (withdrawal.unsigned_tx.output ≡ output_of limit hot.script_pubkey ∷ [])

  pub three_outputs :
      (outs : List TxOut) (a b c : TxOut)
      → length outs ≡ 3
      → get_elem? outs 0 ≡ some a
      → get_elem? outs 1 ≡ some b
      → get_elem? outs 2 ≡ some c
      → outs ≡ a ∷ b ∷ c ∷ []
  three_outputs [] a b c n x y z = ground arith
  three_outputs (o ∷ []) a b c n x y z = ground arith
  three_outputs (o ∷ p ∷ []) a b c n x y z = ground arith
  three_outputs (o ∷ p ∷ q ∷ []) a b c n x y z = ground arith
  three_outputs (o ∷ p ∷ q ∷ r ∷ outs) a b c n x y z = ground arith

  pub one_output :
      (outs : List TxOut) (a : TxOut) → length outs ≡ 1 → get_elem? outs 0 ≡ some a → outs ≡ a ∷ []
  one_output [] a n x = ground arith
  one_output (o ∷ []) a n x = ground arith
  one_output (o ∷ p ∷ outs) a n x = ground arith

  pub check_trigger-eq-ok :
      (e : EmergencyAccessPolicy) (tx : Transaction) (vs cs : Script)
      → check_trigger lib e tx vs cs ≡ ok tt
      → (length tx.output ≡ 3)
        × (get_elem? tx.output 0 ≡ some (output_of e.staging_value_sats vs))
        × (get_elem? tx.output 1 ≡ some (output_of e.vault_change_value_sats vs))
        × (get_elem? tx.output 2 ≡ some (output_of connector_value_sats cs))
  unfolding check_trigger
  check_trigger-eq-ok e tx vs cs h = ground arith

  pub check_withdrawal-eq-ok :
      (e : EmergencyAccessPolicy) (tx : Transaction) (hot : Script) (delay : ℕ)
      → check_withdrawal lib e tx hot limit delay ≡ ok tt
      → ((i : TxIn) × (get_elem? tx.input 0 ≡ some i) × (i.sequence ≡ delay))
        × (length tx.output ≡ 1)
        × (get_elem? tx.output 0 ≡ some (output_of limit hot))
  unfolding check_withdrawal
  check_withdrawal-eq-ok e tx hot delay h = ground arith

  abbrev pub OutPointAt : ℕ → ℕ → OutPoint
  OutPointAt txid vout = record { txid = txid; vout = vout }

  pub validate_trigger-eq-ok :
      (e : EmergencyAccessPolicy) {tx : Transaction}
      → validate_trigger lib config manifest files policy controller e rollover ≡ ok tx
      → (source : TxOut) × (vout : ℕ) × (trigger : Psbt) × (trigger.unsigned_tx ≡ tx)
        × (get_elem? rollover.unsigned_tx.output manifest.remainder_vout ≡ some source)
        × (manifest.emergency_connector_vout ≡ some vout)
        × (read_psbt lib files e.trigger.psbt_file ≡ ok trigger)
        × (validate_connector_child lib trigger source
              (OutPointAt (lib.compute_txid rollover.unsigned_tx) manifest.remainder_vout)
              (OutPointAt (lib.compute_txid rollover.unsigned_tx) vout)
              controller.address.script_pubkey
              e.trigger
            ≡ ok tt)
        × (check_trigger lib e trigger.unsigned_tx policy.address.script_pubkey
              controller.address.script_pubkey
            ≡ ok tt)
  unfolding validate_trigger
  validate_trigger-eq-ok e h = ground arith

  pub validate_withdrawal-eq-ok :
      (e : EmergencyAccessPolicy) (tx : Transaction) (hot : Script) (delay : ℕ)
      → validate_withdrawal lib config manifest files policy controller e tx hot delay ≡ ok tt
      → (staging : TxOut) × (withdrawal : Psbt) × (get_elem? tx.output e.staging_vout
          ≡ some staging)
        × (read_psbt lib files e.withdrawal.psbt_file ≡ ok withdrawal)
        × (validate_connector_child lib withdrawal staging
              (OutPointAt (lib.compute_txid tx) e.staging_vout)
              (OutPointAt (lib.compute_txid tx) 2)
              controller.address.script_pubkey
              e.withdrawal
            ≡ ok tt)
        × (check_withdrawal lib e withdrawal.unsigned_tx hot limit delay ≡ ok tt)
  unfolding validate_withdrawal
  validate_withdrawal-eq-ok e tx hot delay h = ground arith

  pub validate_enabled-eq-ok :
      (e : EmergencyAccessPolicy)
      → validate_enabled lib config manifest files policy controller e rollover ≡ ok tt
      → (delay : ℕ) × (network : Network) × (hot : Address) × (tx : Transaction)
        × (lib.from_seconds_ceil emergency_access_delay_seconds ≡ some delay)
        × (check_emergency_metadata lib e limit delay ≡ ok tt)
        × (bitcoin_network config ≡ ok network)
        × (lib.parse_address e.hot_address network ≡ some hot)
        × (validate_trigger lib config manifest files policy controller e rollover ≡ ok tx)
        × (validate_withdrawal lib config manifest files policy controller e tx hot.script_pubkey
              delay
            ≡ ok tt)
  unfolding validate_enabled
  validate_enabled-eq-ok e h = ground arith

  pub staging_vout_zero :
      (e : EmergencyAccessPolicy) (delay : ℕ)
      → check_emergency_metadata lib e limit delay ≡ ok tt
      → e.staging_vout ≡ 0
  unfolding check_emergency_metadata
  staging_vout_zero e delay h = ground arith

  pub selected_emergency :
      validate_connector_emergency lib config manifest files policy controller rollover ≡ ok tt
      → limit ≢ 0
      → (e : EmergencyAccessPolicy) × (manifest.emergency_access ≡ some e)
        × (validate_enabled lib config manifest files policy controller e rollover ≡ ok tt)
  unfolding validate_connector_emergency select_emergency
  selected_emergency h on = ground arith
