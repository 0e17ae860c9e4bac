-- ===== src/Lib.antt =====
-- The vault of anzen, in src/core of the Rust crate: its scripts, the presigned annual policy that
-- the phone proposes and the hardware wallet checks, and the sweeps that recover it.
--
-- Parts and files:
-- - Constants, Storage: the constants of src/core/mod.rs; the configuration and network names of
--   src/core/storage.rs.
-- - Policy: `VaultPolicy` and `ControllerPolicy` of src/core/policy.rs, with the search for a leaf.
-- - Transactions: src/core/transactions.rs. Roles and Partition hold the test of the input roles,
--   Vsize the size estimates, Construct the PSBTs, Signing, Signatures and SignVerify the signatures,
--   Revocation and Revokes the revocation of the controller's outputs. Unsigned follows the transaction
--   through the construction of a PSBT.
-- - Ceremony: src/core/ceremony.rs. Types holds the manifest, Workspace the files of a batch, Amounts
--   and Templates the amounts, fees and transactions, Validate the function `validate_batch` and what
--   it calls. Validate/Rollover composes the parts in the order of the code: the manifest, the
--   rollover, the chain of allowances (Validate/Allowances) and the emergency access
--   (Validate/Emergency). Approved holds `validate_approved_batch`, the phone's check of a batch that
--   both devices have signed. Selection is the part of
--   `build_policy_proposal_with_connectors` that chooses the number of allowances, and
--   EmergencyBuild is `build_emergency_access`: Filled, Presigned and Spends follow its PSBTs, Checks
--   and Built its amounts, writes and fees, and Agrees compares them with the check.
-- - Recovery: src/core/recovery.rs. Sweep holds the sweep of one device, Cooperative the one that both
--   devices sign, Rotation the binding of a renewed policy to a rotation. Maturity, Prepared, Accepted
--   and Renewal hold what is proved of them.
-- - Keys, Crypto, Social: src/core/keys.rs, src/core/crypto.rs and src/core/social.rs, the keys of a
--   device, the blobs that are encrypted for a purpose, and the cloud backup that the hardware wallet
--   and each friend can open. Keys/Rederive, Crypto/Purpose, Social/Recovers and Social/Added hold what
--   is proved of them, Social/Friends the list of friends.
-- - HotWallet: src/hot_wallet/mod.rs, the activation of a signed policy. World holds the disk, whose
--   writes can fail, and the chain server; Files the reads and writes of src/core/storage.rs; Activate
--   the staging of an epoch's files and Commit what comes before and after it. Ceremony/Schedule and
--   Ceremony/Package hold the schedule, the stored transactions and the package of a batch. Staged and
--   Intact, Activated and Succeeded, Superseded, and Finishes to Resumes hold what is proved.
--   Vanity holds the workers of the search for a vanity address as single steps on what they share, in
--   any order, with the relaxed atomics read as if each access took place at once; Policy/Template the
--   output key that they test.
-- - Samples and Tests: a concrete library, a concrete batch, sweep, backup and phone, and the theorems
--   at them.
--
-- How the code is read:
-- - A function that returns `anyhow::Result` returns `Result`, whose third outcome is a Rust panic:
--   indexing and `unwrap` out of range are `panic`, never a default. Error messages are the templates
--   of the code; an error that the code passes on unnamed has a short text of its own.
-- - A condition of several parts that indexes a list is written in the order in which the code
--   evaluates it. Conversions between `usize`, `u32` and `u64` in the code succeed on a 64-bit target
--   and are left out. `checked_add`, `checked_sub` and `checked_mul` are bounded by 2 ^ 64.
-- - A directory is an association list from relative paths to texts; a map is one as well. The writes of
--   a batch's files end as a function of their paths says.
-- - The data directory is a list of files by their paths, the last write first, and a path is a value of
--   `DataPath`: the directories `phone/transactions/{txid}` are `epoch_file`. A JSON document is the value
--   that it was made of. A write replaces its file or not, and can report an error after it has; an
--   operation that fails keeps what it has done, and an attempt is the list of its writes' outcomes.
-- - Loops are recursions on the list that they run over, or on the count, so that no fuel is needed.
-- - The crates bitcoin, miniscript and secp256k1 are the record `Bitcoin` of functions, bip32 and bip39
--   `Bip32`, the ciphers `Ciphers`, OpenPGP and base64 `Envelopes`, serde_json `Formats` and the chain
--   server `Backend`: parameters of every definition that calls them; what a theorem needs of them is one of its hypotheses. They are
--   total functions: `panic` stands for a panic of the modelled code, not of a crate.
--
-- Not modelled: the rest of the construction of a proposal, its rollover and its manifest; the phone's
-- rotation package, which reads device files; of the phone, the broadcasts of single transactions,
-- what starts and ends the search for a vanity address, and the wallet's database; the making of OpenPGP keys for friends; the
-- chain server, the command line and the device firmware.
pub mod Prelude
pub mod Constants
pub mod Bitcoin
pub mod Policy
pub mod Transactions
pub mod Storage
pub mod Ceremony
pub mod Keys
pub mod Crypto
pub mod Social
pub mod Recovery
pub mod HotWallet
pub mod Samples
pub mod Tests
