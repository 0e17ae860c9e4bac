-- ===== src/Ceremony/Validate/Withdrawal.antt =====
-- The emergency access that an accepted batch holds.
use anzen.Prelude.{ℕ, ◌+◌, ◌≡◌, ◌≢◌, ap, some, ok, arith}
use anzen.Constants.{connector_value_sats, emergency_access_delay_seconds}
use anzen.Bitcoin.{Bitcoin, Network, Address, TxOut, Transaction, Psbt}
use anzen.Storage.{VaultConfig, bitcoin_network}
use anzen.Policy.{VaultPolicy, ControllerPolicy}
use anzen.Ceremony.Types.{BatchManifest, EmergencyAccessPolicy}
use anzen.Ceremony.Templates.{output_of}
use anzen.Ceremony.Amounts.{output_values}
use anzen.Transactions.Sums.{sum}
use anzen.Ceremony.Workspace.{Workspace}
use anzen.Ceremony.Validate.Parts.{validate_connector_child}
use anzen.Ceremony.Validate.Child.{validate_connector_child-SpendsChild}
use anzen.Ceremony.Validate.Emergency.{
  validate_trigger, validate_withdrawal, validate_connector_emergency,
}
use anzen.Ceremony.Validate.Triggers.{
  Triggers, Withdraws, OutPointAt, three_outputs, one_output, check_trigger-eq-ok,
  check_withdrawal-eq-ok, validate_trigger-eq-ok, validate_withdrawal-eq-ok, validate_enabled-eq-ok,
  staging_vout_zero, selected_emergency,
}

module _ (lib : Bitcoin) (config : VaultConfig) (manifest : BatchManifest) (files : Workspace)
    (policy : VaultPolicy) (controller : ControllerPolicy) (rollover : Psbt) where
  -- Both presigned transactions of the emergency access.
  pub record EmergencyAccess (e : EmergencyAccessPolicy) : Type 0 where
    pub source : TxOut
    pub vout : ℕ
    pub trigger : Psbt
    pub withdrawal : Psbt
    pub triggers :
        Triggers lib config manifest files policy controller rollover e source vout trigger
    pub withdraws :
        Withdraws lib config manifest files policy controller rollover e trigger withdrawal

  validate_trigger-Triggers :
      (e : EmergencyAccessPolicy) {tx : Transaction}
      → validate_trigger lib config manifest files policy controller e rollover ≡ ok tx
      → (source : TxOut) × (vout : ℕ) × (trigger : Psbt) × (trigger.unsigned_tx ≡ tx)
        × Triggers lib config manifest files policy controller rollover e source vout trigger
  validate_trigger-Triggers e h =
      let (source, vout, trigger, same, at, connector, stored, child, form) =
        validate_trigger-eq-ok lib config manifest files policy controller rollover e h in
      let (n, first, second, third) =
        check_trigger-eq-ok lib config manifest files policy controller rollover e
          trigger.unsigned_tx _ _ form in
      (
        source,
        vout,
        trigger,
        same,
        record {
          stored = stored;
          remainder = at;
          connector_vout = connector;
          spends = validate_connector_child-SpendsChild lib trigger _ _ _ _ _ child;
          outputs =
              three_outputs lib config manifest files policy controller rollover
                trigger.unsigned_tx.output _ _ _ n first second third;
        },
      )

  withdrawal-Withdraws :
      (e : EmergencyAccessPolicy) (trigger : Psbt) {source : TxOut} {vout delay : ℕ}
      {network : Network} {hot : Address}
      → Triggers lib config manifest files policy controller rollover e source vout trigger
      → lib.from_seconds_ceil emergency_access_delay_seconds ≡ some delay
      → e.staging_vout ≡ 0
      → bitcoin_network config ≡ ok network
      → lib.parse_address e.hot_address network ≡ some hot
      → validate_withdrawal lib config manifest files policy controller e trigger.unsigned_tx
          hot.script_pubkey delay
        ≡ ok tt
      → (withdrawal : Psbt) × Withdraws lib config manifest files policy controller rollover e
          trigger withdrawal
  withdrawal-Withdraws e trigger {delay} {network} {hot} triggers known zero_vout net parsed h =
      let (staging, withdrawal, at, stored, child, form) =
        validate_withdrawal-eq-ok lib config manifest files policy controller rollover e
          trigger.unsigned_tx hot.script_pubkey delay h in
      let (waits, n, first) =
        check_withdrawal-eq-ok lib config manifest files policy controller rollover e
          withdrawal.unsigned_tx hot.script_pubkey delay form in
      let outputs = triggers.outputs in
      let staged : staging ≡ output_of e.staging_value_sats policy.address.script_pubkey =
        ground arith in
      let child' : validate_connector_child lib withdrawal
            (output_of e.staging_value_sats policy.address.script_pubkey)
            (OutPointAt lib config manifest files policy controller rollover
              (lib.compute_txid trigger.unsigned_tx) 0)
            (OutPointAt lib config manifest files policy controller rollover
              (lib.compute_txid trigger.unsigned_tx) 2)
            controller.address.script_pubkey e.withdrawal
          ≡ ok tt =
        rw (← staged, ← zero_vout) child in
      (
        withdrawal,
        record {
          stored = stored;
          spends = validate_connector_child-SpendsChild lib withdrawal _ _ _ _ _ child';
          delayed = (waits.0, waits.1, rw waits.2 known);
          outputs = (
            network,
            hot,
            net,
            parsed,
            one_output lib config manifest files policy controller rollover
                withdrawal.unsigned_tx.output _ n first,
          );
        },
      )

  pub validate_connector_emergency-EmergencyAccess :
      validate_connector_emergency lib config manifest files policy controller rollover ≡ ok tt
      → manifest.emergency_access_limit_sats ≢ 0
      → (e : EmergencyAccessPolicy) × (manifest.emergency_access ≡ some e) × EmergencyAccess e
  validate_connector_emergency-EmergencyAccess h on =
      let (e, chosen, enabled) =
        selected_emergency lib config manifest files policy controller rollover h on in
      let (delay, network, hot, tx, known, metadata, net, parsed, triggered, withdrawn) =
        validate_enabled-eq-ok lib config manifest files policy controller rollover e enabled in
      let (source, vout, trigger, same, triggers) = validate_trigger-Triggers e triggered in
      let (withdrawal, withdraws) =
        withdrawal-Withdraws e trigger triggers known
          (staging_vout_zero lib config manifest files policy controller rollover e delay metadata)
          net parsed (rw same withdrawn) in
      (
        e,
        chosen,
        record {
          source = source;
          vout = vout;
          trigger = trigger;
          withdrawal = withdrawal;
          triggers = triggers;
          withdraws = withdraws;
        },
      )

  -- The amounts of an emergency access add up: the remainder with its connector is what is staged,
  -- the change, the withdrawal's connector and the trigger's fee; what is staged and that
  -- connector are the amount withdrawn and the withdrawal's fee.
  pub EmergencyAccess-conserves :
      (e : EmergencyAccessPolicy) (access : EmergencyAccess e)
      → (access.source.value + connector_value_sats
          ≡ e.staging_value_sats + e.vault_change_value_sats + connector_value_sats
            + e.trigger.fee_sats)
        × (e.staging_value_sats + connector_value_sats
            ≡ manifest.emergency_access_limit_sats + e.withdrawal.fee_sats)
  EmergencyAccess-conserves e access =
      let trigger = access.triggers.spends.conserves in
      let withdrawal = access.withdraws.spends.conserves in
      let staged = ap (λ outputs. sum (output_values outputs)) access.triggers.outputs in
      let (_, _, _, _, outputs) = access.withdraws.outputs in
      let released = ap (λ outputs. sum (output_values outputs)) outputs in
      (ground (arith, trigger, staged), ground (arith, withdrawal, released))
