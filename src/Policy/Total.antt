-- ===== src/Policy/Total.antt =====
-- The policies and their leaves are computed without a panic.
use anzen.Prelude.{ℕ, ◌≢◌, List, [], ◌∷◌, panic, arith}
use anzen.Bitcoin.{Bitcoin, Script, Network, XOnlyPublicKey, Descriptor}
use anzen.Policy.{
  SpendPath, ControllerPath, VaultPolicy, ControllerPolicy, vault_from_descriptor, controller_new,
  find_vault_leaf, vault_leaf, find_controller_leaf, controller_leaf,
}
use anzen.Prelude.{String}

module _ (lib : Bitcoin) where
  pub vault_from_descriptor-ne-panic :
      (text : String) (network : Network) → vault_from_descriptor lib text network ≢ panic
  unfolding vault_from_descriptor
  vault_from_descriptor-ne-panic text network h = ground arith

  pub controller_new-ne-panic :
      (phone hww : XOnlyPublicKey) (network : Network)
      → controller_new lib phone hww network ≢ panic
  unfolding controller_new
  controller_new-ne-panic phone hww network h = ground arith

  find_vault_leaf-ne-panic :
      (tr : Descriptor) (path : SpendPath) (scripts : List (ℕ × Script))
      → find_vault_leaf lib tr path scripts ≢ panic
  unfolding find_vault_leaf
  find_vault_leaf-ne-panic tr path [] h = ground arith
  find_vault_leaf-ne-panic tr path (s ∷ scripts) h =
      ground (arith, find_vault_leaf-ne-panic tr path scripts)

  find_controller_leaf-ne-panic :
      (tr : Descriptor) (path : ControllerPath) (target : Script) (scripts : List (ℕ × Script))
      → find_controller_leaf lib tr path target scripts ≢ panic
  unfolding find_controller_leaf
  find_controller_leaf-ne-panic tr path target [] h = ground arith
  find_controller_leaf-ne-panic tr path target (s ∷ scripts) h =
      ground (arith, find_controller_leaf-ne-panic tr path target scripts)

  pub vault_leaf-ne-panic :
      (policy : VaultPolicy) (path : SpendPath) → vault_leaf lib policy path ≢ panic
  unfolding vault_leaf
  vault_leaf-ne-panic policy path h = grind (arith, find_vault_leaf-ne-panic)

  pub controller_leaf-ne-panic :
      (policy : ControllerPolicy) (path : ControllerPath) → controller_leaf lib policy path ≢ panic
  unfolding controller_leaf
  controller_leaf-ne-panic policy path h = grind (arith, find_controller_leaf-ne-panic)
