-- ===== src/Bitcoin/Data.antt =====
-- Transactions and PSBTs, by the public fields that the source uses.
use anzen.Prelude.{ℕ, String, Option, List, Eq, nat_eq, string_eq, list_eq, option_eq}
unfoldable pub use native.Mathlib.Decide.{ℕ_discrete}

abbrev pub Bytes : Type 0
Bytes = List ℕ

-- A script is its bytes.
abbrev pub Script : Type 0
Script = Bytes

-- A 256-bit hash, a key and an amount are numbers.
abbrev pub Txid : Type 0
Txid = ℕ

abbrev pub XOnlyPublicKey : Type 0
XOnlyPublicKey = ℕ

abbrev pub LeafHash : Type 0
LeafHash = ℕ

pub data Network : Type 0 where
  bitcoin testnet signet regtest : Network

pub record OutPoint : Type 0 where
  pub txid : Txid
  pub vout : ℕ

pub record TxOut : Type 0 where
  pub value : ℕ
  pub script_pubkey : Script

pub record TxIn : Type 0 where
  pub previous_output : OutPoint
  pub script_sig : Script
  pub sequence : ℕ
  pub witness : List Bytes

pub record Transaction : Type 0 where
  pub version : ℕ
  pub lock_time : ℕ
  pub input : List TxIn
  pub output : List TxOut

-- An address is its text and its script.
pub record Address : Type 0 where
  pub text : String
  pub script_pubkey : Script

-- A taproot signature with its sighash type.
pub record TapSignature : Type 0 where
  pub signature : Bytes
  pub sighash_type : ℕ

-- The maps are association lists, newest entry first.
pub record PsbtInput : Type 0 where
  pub witness_utxo : Option TxOut
  pub sighash_type : Option ℕ
  pub tap_key_origins : List (XOnlyPublicKey × List LeafHash)
  pub tap_script_sigs : List ((XOnlyPublicKey × LeafHash) × TapSignature)

pub record Psbt : Type 0 where
  pub unsigned_tx : Transaction
  pub inputs : List PsbtInput

-- A key pair by its secret.
abbrev pub Keypair : Type 0
Keypair = ℕ

-- A descriptor by its canonical text.
abbrev pub Descriptor : Type 0
Descriptor = String

Network_dec : Discrete Network
Network_dec = hlevel

OutPoint_dec : Discrete OutPoint
OutPoint_dec = hlevel ℕ_discrete

TxOut_dec : Discrete TxOut
TxOut_dec = hlevel (ℕ_discrete, (list_eq {A = ℕ}).dec)

KeyLeaf_dec : Discrete (XOnlyPublicKey × LeafHash)
KeyLeaf_dec = hlevel ℕ_discrete

instance unfoldable pub network_eq : Eq Network
unfolding Network_dec
network_eq = record { dec = Network_dec }

instance unfoldable pub outpoint_eq : Eq OutPoint
unfolding OutPoint_dec ℕ_discrete
outpoint_eq = record { dec = OutPoint_dec }

instance unfoldable pub txout_eq : Eq TxOut
unfolding TxOut_dec ℕ_discrete list_eq nat_eq
txout_eq = record { dec = TxOut_dec }

instance unfoldable pub key_leaf_eq : Eq (XOnlyPublicKey × LeafHash)
unfolding KeyLeaf_dec ℕ_discrete
key_leaf_eq = record { dec = KeyLeaf_dec }
