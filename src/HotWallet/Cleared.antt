-- ===== src/HotWallet/Cleared.antt =====
-- What the check of an activation reads, and from which worlds it reads the same.
use anzen.Prelude.{
  ◌≡◌, Bool, true, false, ◌&&◌, Option, none, some, Result, ok, err, panic, arith, nat_eq,
}
use anzen.Bitcoin.{Bytes, Txid, Transaction}
use anzen.Storage.{VaultConfig}
use anzen.Policy.{VaultPolicy}
use anzen.Keys.{DeviceKeys}
use anzen.Ceremony.Types.{BatchManifest}
use anzen.Ceremony.Workspace.{Workspace}
use anzen.Ceremony.Approved.{validate_approved_batch}
use anzen.Ceremony.Schedule.{phone_device_file, epoch_file, activated_file}
use anzen.Ceremony.Package.{load_manifest}
use anzen.Ceremony.Schedule.{Json}
use anzen.HotWallet.World.{World, Disk, ◌>>=◌, lift, lookup, exists}
use anzen.HotWallet.Files.{load_config, load_device_keys, ensure_backend_network}
use anzen.HotWallet.Activate.{Phone}
use anzen.HotWallet.Commit.{rollover_of, previous_epoch, differs_from, check_activation}
use anzen.HotWallet.Respects.{load_config-Reads, load_device_keys-Reads}
use anzen.HotWallet.Steps.{read-ok}
use anzen.HotWallet.Intact.{previous_epoch-Reads, check_activation-ok}

module _ (phone : Phone) (batch : Workspace) where
  abbrev pub has_text : Option Json → Bool
  has_text none = false
  has_text (some text) = true

  abbrev pub marked : Txid → Disk → Bool
  marked epoch files = has_text (lookup (epoch_file epoch activated_file) files)

  abbrev pub passes : Result VaultPolicy → Bool
  passes panic = false
  passes (err message) = false
  passes (ok policy) = true

  abbrev pub seed_of : Result DeviceKeys → Result Bytes
  seed_of panic = panic
  seed_of (err message) = err message
  seed_of (ok keys) = ok keys.seed

  -- Everything that lets the check pass.
  pub record Cleared (w : World) (manifest : BatchManifest) (rollover : Transaction)
      (previous : Option Txid) (seed : Bytes) : Type 0 where
    pub config : VaultConfig
    pub loads : (load_config phone.formats w).1 ≡ ok config
    pub network : (ensure_backend_network phone.backend config w).1 ≡ ok tt
    pub loaded : load_manifest phone.formats batch ≡ ok manifest
    pub validated : passes (validate_approved_batch phone.lib config manifest batch) ≡ true
    pub unlocked :
        seed_of (load_device_keys phone.formats phone.lib phone.bip phone_device_file w).1 ≡ ok seed
    pub finalized : rollover_of phone manifest batch ≡ ok rollover
    pub was : (previous_epoch phone w).1 ≡ ok previous
    pub fresh :
        marked (phone.lib.compute_txid rollover) w.files
          && differs_from (phone.lib.compute_txid rollover) previous
        ≡ false

  check_activation-loads :
      (w : World) (manifest : BatchManifest) (rollover : Transaction) (previous : Option Txid)
      (seed : Bytes)
      → (check_activation phone batch w).1 ≡ ok (manifest, rollover, previous, seed)
      → (config : VaultConfig) × ((load_config phone.formats w).1 ≡ ok config)
  unfolding check_activation
  check_activation-loads w manifest rollover previous seed h =
      let (config, loads, later, after) = read-ok (load_config-Reads phone.formats) _ w h in
      (config, loads)

  check_activation-rest :
      (w : World) (manifest : BatchManifest) (rollover : Transaction) (previous : Option Txid)
      (seed : Bytes)
      → (check_activation phone batch w).1 ≡ ok (manifest, rollover, previous, seed)
      → (config : VaultConfig) → (load_config phone.formats w).1 ≡ ok config
      → ((ensure_backend_network phone.backend config w).1 ≡ ok tt)
        × (passes (validate_approved_batch phone.lib config manifest batch) ≡ true)
        × (seed_of (load_device_keys phone.formats phone.lib phone.bip phone_device_file w).1
            ≡ ok seed)
        × ((previous_epoch phone w).1 ≡ ok previous)
        × (marked (phone.lib.compute_txid rollover) w.files
              && differs_from (phone.lib.compute_txid rollover) previous
            ≡ false)
  unfolding check_activation ensure_backend_network ◌>>=◌ lift exists
  check_activation-rest w manifest rollover previous seed h config loads =
      let reads_config = (load_config-Reads phone.formats).respects w in
      let reads_keys =
        (load_device_keys-Reads phone.formats phone.lib phone.bip phone_device_file).respects w in
      let reads_previous = (previous_epoch-Reads phone batch).respects w in
      (grind arith, grind arith, grind arith, grind arith, grind arith)

  pub check_activation-Cleared :
      (w : World) (manifest : BatchManifest) (rollover : Transaction) (previous : Option Txid)
      (seed : Bytes)
      → (check_activation phone batch w).1 ≡ ok (manifest, rollover, previous, seed)
      → Cleared w manifest rollover previous seed
  check_activation-Cleared w manifest rollover previous seed h =
      let (config, loads) = check_activation-loads w manifest rollover previous seed h in
      let (network, validated, unlocked, was, fresh) =
        check_activation-rest w manifest rollover previous seed h config loads in
      let (loaded, finalized) =
        check_activation-ok phone batch w manifest rollover previous seed h in
      record {
        config = config;
        loads = loads;
        network = network;
        loaded = loaded;
        validated = validated;
        unlocked = unlocked;
        finalized = finalized;
        was = was;
        fresh = fresh;
      }

  pub Cleared-check_activation :
      (w : World) (manifest : BatchManifest) (rollover : Transaction) (previous : Option Txid)
      (seed : Bytes)
      → Cleared w manifest rollover previous seed
      → (check_activation phone batch w).1 ≡ ok (manifest, rollover, previous, seed)
  unfolding check_activation ensure_backend_network ◌>>=◌ lift exists
  Cleared-check_activation w manifest rollover previous seed cleared =
      let reads_config = (load_config-Reads phone.formats).respects w in
      let reads_keys =
        (load_device_keys-Reads phone.formats phone.lib phone.bip phone_device_file).respects w in
      let reads_previous = (previous_epoch-Reads phone batch).respects w in
      let loads = cleared.loads in
      let network = cleared.network in
      let loaded = cleared.loaded in
      let validated = cleared.validated in
      let unlocked = cleared.unlocked in
      let finalized = cleared.finalized in
      let was = cleared.was in let fresh = cleared.fresh in grind arith
