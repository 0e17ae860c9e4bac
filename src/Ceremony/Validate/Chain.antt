-- ===== src/Ceremony/Validate/Chain.antt =====
-- The chain of allowances that an accepted batch holds.
use anzen.Prelude.{
  ℕ, suc, ◌+◌, ◌*◌, ◌≡◌, Bool, true, false, none, some, List, [], ◌∷◌, Result, ok, arith, ◌<◌,
  u64_limit, get_elem?, length, ltb, if◌then◌else◌, ◌>>◌,
}
use anzen.Constants.{connector_value_sats}
use anzen.Bitcoin.{Bitcoin, Script, Network, Address, TxOut, TxIn, Transaction, Psbt}
use anzen.Storage.{VaultConfig, bitcoin_network}
use anzen.Policy.{VaultPolicy, ControllerPolicy}
use anzen.Ceremony.Types.{BatchManifest, AllowanceStep}
use anzen.Ceremony.Workspace.{Workspace, read_psbt}
use anzen.Ceremony.Validate.Parts.{validate_connector_child}
use anzen.Ceremony.Validate.Child.{SpendsChild, validate_connector_child-SpendsChild}
use anzen.Ceremony.Validate.Allowances.{
  ChainState, Source, take_source, connector_at, check_authorization, check_continuing, check_final,
  validate_step, validate_steps,
}

-- The fees of the steps.
abbrev pub total_fees : List AllowanceStep → ℕ
total_fees [] = 0
total_fees (allowance ∷ rest) = allowance.authorization.fee_sats + total_fees rest

module _ (lib : Bitcoin) (config : VaultConfig) (manifest : BatchManifest) (files : Workspace)
    (policy : VaultPolicy) (controller : ControllerPolicy) (delay : ℕ) where
  abbrev next_state : ChainState → Bool → AllowanceStep → Source → Transaction → Result ChainState
  next_state state has_next allowance source tx =
      if has_next
      then check_continuing lib allowance tx source.prevout manifest.monthly_limit_sats
          policy.address.script_pubkey controller.address.script_pubkey
      else (check_final lib allowance source.prevout manifest.monthly_limit_sats
          >> ok (record {
            vault_outpoint = state.vault_outpoint;
            vault_prevout = none;
            connector = none;
          }))

  -- What the body of the loop has computed when it succeeds.
  validate_step-eq-ok :
      (state : ChainState) (index : ℕ) (allowance : AllowanceStep) {next : ChainState}
      → validate_step lib config manifest files policy controller delay state index allowance
        ≡ ok next
      → (source : Source) × (network : Network) × (hot : Address) × (psbt : Psbt) × (take_source
            state
          ≡ ok source)
        × (bitcoin_network config ≡ ok network)
        × (lib.parse_address allowance.hot_address network ≡ some hot)
        × (read_psbt lib files allowance.authorization.psbt_file ≡ ok psbt)
        × (validate_connector_child lib psbt source.prevout source.outpoint
              source.connector.outpoint controller.address.script_pubkey allowance.authorization
            ≡ ok tt)
        × (check_authorization lib psbt.unsigned_tx
              (ltb (index + 1) manifest.allowance_count)
              hot.script_pubkey
              manifest.monthly_limit_sats
              delay
            ≡ ok tt)
        × (next_state state
              (ltb (index + 1) manifest.allowance_count)
              allowance
              source
              psbt.unsigned_tx
            ≡ ok next)
  unfolding validate_step
  validate_step-eq-ok state index allowance h = ground arith

  -- A step releases the monthly limit to its hot address, after the monthly delay, and spends the
  -- output and the connector of `source`.
  pub record Releases (source : Source) (allowance : AllowanceStep) (psbt : Psbt) : Type 0 where
    pub stored : read_psbt lib files allowance.authorization.psbt_file ≡ ok psbt
    pub spends :
        SpendsChild lib psbt source.prevout source.outpoint source.connector.outpoint
          controller.address.script_pubkey allowance.authorization
    pub delayed : (i : TxIn) × (get_elem? psbt.unsigned_tx.input 0 ≡ some i) × (i.sequence ≡ delay)
    pub released :
        (network : Network) × (hot : Address) × (o : TxOut) × (bitcoin_network config ≡ ok network)
        × (lib.parse_address allowance.hot_address network ≡ some hot)
        × (get_elem? psbt.unsigned_tx.output 0 ≡ some o)
        × (o.script_pubkey ≡ hot.script_pubkey)
        × (o.value ≡ manifest.monthly_limit_sats)

  -- The source of the step after `tx`: its second output, and its third as the connector.
  abbrev pub next_source : Transaction → TxOut → Source
  next_source tx hop = record {
    outpoint = record { txid = lib.compute_txid tx; vout = 1 };
    prevout = hop;
    connector = connector_at (lib.compute_txid tx) 2;
  }

  -- Every step spends what the step before it created. A step with a successor has three outputs,
  -- the second back in the vault and the third a connector; the last has its release alone, and
  -- leaves nothing of the chain.
  pub data Chain : Source → List AllowanceStep → Type 0 where
    last :
        {source : Source} {allowance : AllowanceStep} (psbt : Psbt)
        → Releases source allowance psbt
        → length psbt.unsigned_tx.output ≡ 1
        → source.prevout.value + connector_value_sats
          ≡ manifest.monthly_limit_sats + allowance.authorization.fee_sats
        → Chain source (allowance ∷ [])
    continue :
        {source : Source} {allowance : AllowanceStep} {rest : List AllowanceStep} (psbt : Psbt)
        (hop : TxOut)
        → Releases source allowance psbt
        → length psbt.unsigned_tx.output ≡ 3
        → get_elem? psbt.unsigned_tx.output 1 ≡ some hop
        → hop.script_pubkey ≡ policy.address.script_pubkey
        → get_elem? psbt.unsigned_tx.output 2
          ≡ some (record {
            value = connector_value_sats;
            script_pubkey = controller.address.script_pubkey;
          })
        → source.prevout.value
          ≡ hop.value + manifest.monthly_limit_sats + allowance.authorization.fee_sats
        → Chain (next_source psbt.unsigned_tx hop) rest
        → Chain source (allowance ∷ rest)

  check_authorization-eq-ok :
      (tx : Transaction) (has_next : Bool) (hot_script : Script)
      → check_authorization lib tx has_next hot_script manifest.monthly_limit_sats delay ≡ ok tt
      → ((i : TxIn) × (get_elem? tx.input 0 ≡ some i) × (i.sequence ≡ delay))
        × (length tx.output ≡ (if has_next then 3 else 1))
        × ((o : TxOut) × (get_elem? tx.output 0 ≡ some o)
            × (o.script_pubkey ≡ hot_script)
            × (o.value ≡ manifest.monthly_limit_sats))
  unfolding check_authorization
  check_authorization-eq-ok tx has_next hot_script h = ground arith

  check_continuing-eq-ok :
      (allowance : AllowanceStep) (tx : Transaction) (source : Source) {next : ChainState}
      → check_continuing lib allowance tx source.prevout manifest.monthly_limit_sats
          policy.address.script_pubkey controller.address.script_pubkey
        ≡ ok next
      → (hop : TxOut) × (get_elem? tx.output 1 ≡ some hop)
        × (hop.script_pubkey ≡ policy.address.script_pubkey)
        × (get_elem? tx.output 2
            ≡ some (record {
              value = connector_value_sats;
              script_pubkey = controller.address.script_pubkey;
            }))
        × (source.prevout.value
            ≡ hop.value + manifest.monthly_limit_sats + allowance.authorization.fee_sats)
        × (take_source next ≡ ok (next_source tx hop))
  unfolding check_continuing take_source
  check_continuing-eq-ok allowance tx source h = ground arith

  check_final-eq-ok :
      (allowance : AllowanceStep) (source : Source)
      → check_final lib allowance source.prevout manifest.monthly_limit_sats ≡ ok tt
      → source.prevout.value + connector_value_sats < u64_limit
      → source.prevout.value + connector_value_sats
        ≡ manifest.monthly_limit_sats + allowance.authorization.fee_sats
  unfolding check_final
  check_final-eq-ok allowance source h fits = ground arith

  validate_steps-eq-ok :
      (state : ChainState) (index : ℕ) (allowance : AllowanceStep) (rest : List AllowanceStep)
      → validate_steps lib config manifest files policy controller delay state index
          (allowance ∷ rest)
        ≡ ok tt
      → (next : ChainState) × (validate_step lib config manifest files policy controller delay state
            index allowance
          ≡ ok next)
        × (validate_steps lib config manifest files policy controller delay next (suc index) rest
            ≡ ok tt)
  unfolding validate_steps
  validate_steps-eq-ok state index allowance rest h = ground arith

  -- The facts about one step that do not depend on its successor, and the branch it takes.
  step-Releases :
      (state : ChainState) (index : ℕ) (allowance : AllowanceStep) (source : Source)
      {next : ChainState}
      → take_source state ≡ ok source
      → validate_step lib config manifest files policy controller delay state index allowance
        ≡ ok next
      → (psbt : Psbt) × Releases source allowance psbt
        × (length psbt.unsigned_tx.output
            ≡ (if ltb (index + 1) manifest.allowance_count then 3 else 1))
        × (next_state state
              (ltb (index + 1) manifest.allowance_count)
              allowance
              source
              psbt.unsigned_tx
            ≡ ok next)
  step-Releases state index allowance source {next} took h =
      let (s, network, hot, psbt, took', net, parsed, stored, child, auth, branch) =
        validate_step-eq-ok state index allowance h in
      let same : s ≡ source = cc in
      let child' : validate_connector_child lib psbt source.prevout source.outpoint
            source.connector.outpoint controller.address.script_pubkey allowance.authorization
          ≡ ok tt =
        rw (← same) child in
      let branch' : next_state state (ltb (index + 1) manifest.allowance_count) allowance source
            psbt.unsigned_tx
          ≡ ok next =
        rw (← same) branch in
      let (delayed, outputs, release) =
        check_authorization-eq-ok psbt.unsigned_tx _ hot.script_pubkey auth in
      (
        psbt,
        record {
          stored = stored;
          spends = validate_connector_child-SpendsChild lib psbt _ _ _ _ _ child';
          delayed = delayed;
          released = (network, hot, release.0, net, parsed, release.1, release.2, release.3);
        },
        outputs,
        branch',
      )

  pub validate_steps-Chain :
      (state : ChainState) (index : ℕ) (allowance : AllowanceStep) (rest : List AllowanceStep)
      (source : Source)
      → take_source state ≡ ok source
      → index + suc (length rest) ≡ manifest.allowance_count
      → validate_steps lib config manifest files policy controller delay state index
          (allowance ∷ rest)
        ≡ ok tt
      → Chain source (allowance ∷ rest)
  validate_steps-Chain state index allowance [] source took count h =
      let (next, step, _) = validate_steps-eq-ok state index allowance [] h in
      let (psbt, releases, outputs, branch) =
        step-Releases state index allowance source took step in
      let final : ltb (index + 1) manifest.allowance_count ≡ false = ground arith in
      last psbt releases (ground arith)
        (check_final-eq-ok allowance source (ground arith) releases.spends.fits)
  validate_steps-Chain state index allowance (following ∷ rest) source took count h =
      let (next, step, steps) = validate_steps-eq-ok state index allowance (following ∷ rest) h in
      let (psbt, releases, outputs, branch) =
        step-Releases state index allowance source took step in
      let more : ltb (index + 1) manifest.allowance_count ≡ true = ground arith in
      let (hop, at, script, connector, value, took') =
        check_continuing-eq-ok allowance psbt.unsigned_tx source {next = next} (ground arith) in
      continue psbt hop releases (ground arith) at script connector value (
        validate_steps-Chain next (suc index) following rest (next_source psbt.unsigned_tx hop)
          took' (omega arith) steps)

  -- The chain is funded to the satoshi: with its first connector, its value is what its steps
  -- release and pay in fees.
  pub Chain-funds :
      {source : Source} {allowances : List AllowanceStep}
      → Chain source allowances
      → source.prevout.value + connector_value_sats
        ≡ length allowances * manifest.monthly_limit_sats + total_fees allowances
  Chain-funds (last psbt releases outputs exact) = grind arith
  Chain-funds (continue psbt hop releases outputs at script connector value chain) =
      grind (arith, Chain-funds chain)
