-- ===== src/Bitcoin.antt =====
-- The data of the crates `bitcoin` and `miniscript` that the source reads and builds, and the
-- calls of those crates as a record of functions. Nothing of the crates' code is modelled.
mod Data
mod Library
unfoldable pub use Data.*
pub use Library.*
