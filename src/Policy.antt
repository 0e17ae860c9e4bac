-- ===== src/Policy.antt =====
-- src/core/policy.rs: the vault and controller policies, their descriptors and their leaves.
pub mod Total
pub mod Template
use anzen.Prelude.{
  ℕ, String, ◌<>◌, Bool, true, false, not, ◌&&◌, ◌||◌, Option, none, some, List, [], ◌∷◌, Result,
  ok, err, ◌>>=◌, ◌>>◌, bail_if, context, ◌==◌, ◌!=◌, nat_eq, list_eq, if◌then◌else◌,
}
use anzen.Constants.{phone_recovery_blocks, hww_recovery_blocks}
use anzen.Bitcoin.{Bitcoin, Bytes, Script, LeafHash, XOnlyPublicKey, Network, Address, Descriptor}

abbrev pub bip341_nums_key : String
bip341_nums_key = "50929b74c1a04954b78b4b6035e97a5e078a5a0f28ec96d547bfee9ace803ac0"

pub data SpendPath : Type 0 where
  cooperative phone_recovery hww_recovery : SpendPath

pub data ControllerPath : Type 0 where
  phone hww : ControllerPath

pub record VaultPolicy : Type 0 where
  pub descriptor : Descriptor
  pub address : Address

pub record ControllerPolicy : Type 0 where
  pub descriptor : Descriptor
  pub address : Address
  pub phone_key : XOnlyPublicKey
  pub hww_key : XOnlyPublicKey

-- `VaultLeaf` and `ControllerLeaf`, over their type of path.
pub record Leaf (P : Type 0) : Type 0 where
  pub path : P
  pub depth : ℕ
  pub script : Script
  pub leaf_hash : LeafHash
  pub control_block : Bytes

-- Whether `bytes` begins with `window`.
abbrev pub is_prefix : Bytes → Bytes → Bool
is_prefix [] bytes = true
is_prefix (w ∷ window) [] = false
is_prefix (w ∷ window) (b ∷ bytes) = w == b && is_prefix window bytes

-- `bytes.windows(window.len()).any(|w| w == window)` for a window that is not empty.
abbrev pub has_window : Bytes → Bytes → Bool
has_window window [] = false
has_window window (b ∷ bytes) = is_prefix window (b ∷ bytes) || has_window window bytes

abbrev pub target_depth : SpendPath → ℕ
target_depth cooperative = 1
target_depth phone_recovery = 2
target_depth hww_recovery = 2

abbrev pub target_delay : SpendPath → Option ℕ
target_delay cooperative = none
target_delay phone_recovery = some phone_recovery_blocks
target_delay hww_recovery = some hww_recovery_blocks

module _ (lib : Bitcoin) where
  -- `tr({NUMS},{multi_a(2,M,H),{and_v(v:older(61200),pk(M)),and_v(v:older(65535),pk(H))}})`
  unfoldable pub vault_descriptor_text : XOnlyPublicKey → XOnlyPublicKey → String
  vault_descriptor_text phone_key hww_key =
      let p = lib.pubkey_to_string phone_key in
      let h = lib.pubkey_to_string hww_key in
      "tr("
      <> (bip341_nums_key
          <> (",{multi_a(2,"
              <> (p
                  <> (","
                      <> (h
                          <> ("),{and_v(v:older(61200),pk("
                              <> (p <> (")),and_v(v:older(65535),pk(" <> (h <> "))}})")))))))))

  -- `VaultPolicy::from_descriptor_for_network`
  unfoldable pub vault_from_descriptor : String → Network → Result VaultPolicy
  vault_from_descriptor descriptor_text network = do
    descriptor ← context (lib.descriptor_from_str descriptor_text) "invalid vault descriptor"
    derived ← context (lib.derived_descriptor descriptor) "vault descriptor cannot be derived"
    address ← context (lib.descriptor_address derived network) "vault descriptor has no address"
    ok (record { descriptor = descriptor; address = address })

  -- `VaultPolicy::new_for_network`
  unfoldable pub vault_new : XOnlyPublicKey → XOnlyPublicKey → Network → Result VaultPolicy
  vault_new phone_key hww_key network = do
    let descriptor_text = vault_descriptor_text phone_key hww_key
    descriptor ← context (lib.descriptor_from_str descriptor_text) "invalid vault descriptor"
    derived ← context (lib.derived_descriptor descriptor) "vault descriptor cannot be derived"
    address ← context (lib.descriptor_address derived network) "vault descriptor has no address"
    ok (record { descriptor = descriptor; address = address })

  unfoldable pub controller_descriptor_text : XOnlyPublicKey → XOnlyPublicKey → String
  controller_descriptor_text phone_key hww_key =
      "tr("
      <> (bip341_nums_key
          <> (",{pk("
              <> (lib.pubkey_to_string phone_key
                  <> ("),pk(" <> (lib.pubkey_to_string hww_key <> ")})")))))

  -- `ControllerPolicy::new_for_network`
  unfoldable pub controller_new :
      XOnlyPublicKey → XOnlyPublicKey → Network → Result ControllerPolicy
  controller_new phone_key hww_key network = do
    let descriptor_text = controller_descriptor_text phone_key hww_key
    descriptor ← context (lib.descriptor_from_str descriptor_text) "invalid controller descriptor"
    derived ← context (lib.derived_descriptor descriptor) "controller descriptor cannot be derived"
    address ←
        context (lib.descriptor_address derived network) "controller descriptor has no address"
    ok (record {
      descriptor = descriptor;
      address = address;
      phone_key = phone_key;
      hww_key = hww_key;
    })

  -- Whether the loop of `VaultPolicy::leaf` passes over a script.
  unfoldable pub skips_vault_script : SpendPath → ℕ → Script → Bool
  skips_vault_script path depth script = depth != target_depth path || elim (target_delay path) [
    | none ↦ false
    | some delay ↦ not (has_window (lib.push_int_script delay) script)
  ]

  -- The loop of `VaultPolicy::leaf`, over the scripts that are left.
  unfoldable pub find_vault_leaf :
      Descriptor → SpendPath → List (ℕ × Script) → Result (Leaf SpendPath)
  find_vault_leaf tr path [] = err "vault descriptor does not contain the requested {path:?} leaf"
  find_vault_leaf tr path ((depth, script) ∷ scripts) =
      let next = find_vault_leaf tr path scripts in
      let found : Result (Leaf SpendPath) = do
        control_block ←
            context (lib.control_block tr script) "vault leaf has no Taproot control block"
        ok (record {
          path = path;
          depth = depth;
          script = script;
          leaf_hash = lib.leaf_hash script;
          control_block = control_block;
        })
      in if skips_vault_script path depth script then next else found

  -- `VaultPolicy::leaf`
  unfoldable pub vault_leaf : VaultPolicy → SpendPath → Result (Leaf SpendPath)
  vault_leaf policy path = do
    tr ← context (lib.derived_descriptor policy.descriptor) "vault descriptor cannot be derived"
    bail_if (not (lib.is_taproot tr)) "vault descriptor is not Taproot"
    find_vault_leaf tr path (lib.iter_scripts tr)

  abbrev pub controller_key : ControllerPolicy → ControllerPath → XOnlyPublicKey
  controller_key policy phone = policy.phone_key
  controller_key policy hww = policy.hww_key

  -- The loop of `ControllerPolicy::leaf`.
  unfoldable pub find_controller_leaf :
      Descriptor → ControllerPath → Script → List (ℕ × Script) → Result (Leaf ControllerPath)
  find_controller_leaf tr path target [] =
      err "controller descriptor does not contain the requested {path:?} leaf"
  find_controller_leaf tr path target ((depth, script) ∷ scripts) =
      let next = find_controller_leaf tr path target scripts in
      let found : Result (Leaf ControllerPath) = do
        control_block ←
            context (lib.control_block tr script) "controller leaf has no Taproot control block"
        ok (record {
          path = path;
          depth = depth;
          script = script;
          leaf_hash = lib.leaf_hash script;
          control_block = control_block;
        })
      in if script != target then next else found

  -- `ControllerPolicy::leaf`
  unfoldable pub controller_leaf : ControllerPolicy → ControllerPath → Result (Leaf ControllerPath)
  controller_leaf policy path = do
    let target = lib.checksig_script (controller_key policy path)
    tr ←
        context (lib.derived_descriptor policy.descriptor) "controller descriptor cannot be derived"
    bail_if (not (lib.is_taproot tr)) "controller descriptor is not Taproot"
    find_controller_leaf tr path target (lib.iter_scripts tr)

  -- `definite_descriptor` of both policies.
  abbrev pub definite_descriptor : Descriptor → String → Result Descriptor
  definite_descriptor descriptor message = context (lib.at_derivation_index descriptor) message
