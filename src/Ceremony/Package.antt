-- ===== src/Ceremony/Package.antt =====
-- The package of a batch, of src/core/ceremony.rs: its manifest and its PSBTs in one value.
use anzen.Prelude.{
  String, Option, List, [], ◌∷◌, Result, ok, ◌>>=◌, context, ◌==◌, string_eq, if◌then◌else◌,
}
use anzen.Bitcoin.{Bytes, Txid, Transaction}
use anzen.Storage.{VaultConfig}
use anzen.Crypto.{EncryptedBlob}
use anzen.Social.Friends.{text_leb}
use anzen.Ceremony.Types.{BatchManifest, BatchTransaction, manifest_transactions}
use anzen.Ceremony.Workspace.{Workspace, read_file, trim}
use anzen.Ceremony.Schedule.{
  Json, DeviceFile, Schedule, EncryptedTransaction, EncryptedEmergencyTransaction,
}
use anzen.Recovery.Rotation.{PolicyPackage, policy_package_kind}

-- `serde_json::to_vec_pretty` and `from_slice` at each type, `Txid::from_str`, `str::as_bytes`
-- and `str::from_utf8`.
pub record Formats : Type 0 where
  pub config_text : VaultConfig → Json
  pub config_from : Json → Option VaultConfig
  pub schedule_text : Schedule → Json
  pub schedule_from : Json → Option Schedule
  pub device_text : DeviceFile → Json
  pub device_from : Json → Option DeviceFile
  pub manifest_from : String → Option BatchManifest
  pub package_to_vec : PolicyPackage → Option Bytes
  pub package_from_slice : Bytes → Option PolicyPackage
  pub blob_text : EncryptedBlob → Json
  pub rollover_text : Transaction → Json
  pub transaction_text : EncryptedTransaction → Json
  pub transaction_from : Json → Option EncryptedTransaction
  pub emergency_text : EncryptedEmergencyTransaction → Json
  pub emergency_from : Json → Option EncryptedEmergencyTransaction
  pub true_text : Json
  pub txid_from_str : String → Option Txid
  pub as_bytes : String → Bytes
  pub from_utf8 : Bytes → Option String

-- `BTreeMap::insert`: the keys stay sorted, and a repeated key replaces its value.
unfoldable pub insert_psbt : String → String → List (String × String) → List (String × String)
insert_psbt name text [] = (name, text) ∷ []
insert_psbt name text ((key, value) ∷ psbts) =
    let later = insert_psbt name text psbts in
    if name == key
    then (key, text) ∷ psbts
    else if text_leb name key
    then (name, text) ∷ (key, value) ∷ psbts
    else (key, value) ∷ later

-- The loop over the transactions.
unfoldable pub collect_psbts :
    Workspace → List BatchTransaction → List (String × String) → Result (List (String × String))
unfolding insert_psbt
collect_psbts batch [] psbts = ok psbts
collect_psbts batch (transaction ∷ transactions) psbts = do
  text ← context (read_file transaction.psbt_file batch) "failed to read packaged PSBT {}"
  collect_psbts batch transactions (insert_psbt transaction.psbt_file (trim text) psbts)

module _ (formats : Formats) where
  unfoldable pub load_manifest : Workspace → Result BatchManifest
  load_manifest batch = do
    text ← context (read_file "manifest.json" batch) "failed to read {}"
    context (formats.manifest_from text) "invalid JSON in {}"

  unfoldable pub package_from_batch : Workspace → Result PolicyPackage
  package_from_batch batch = do
    manifest ← load_manifest batch
    psbts ← collect_psbts batch (manifest_transactions manifest) []
    ok (record { version = 5; kind = policy_package_kind; manifest = manifest; psbts = psbts })
