-- ===== src/HotWallet/World.antt =====
-- What the phone's operations act on: the files of its data directory, whose writes can fail or be
-- cut off, and the chain server.
use anzen.Prelude.{
  ℕ, suc, String, Bool, true, false, Option, none, some, List, [], ◌∷◌, Result, panic, ok, err,
  nat_eq, if◌then◌else◌,
}
use anzen.Bitcoin.{Bytes, Txid, Network, Transaction}
use anzen.Ceremony.Schedule.{Json}
pub use anzen.Ceremony.Workspace.{WriteOutcome, written, refused, unsynced}
use anzen.Ceremony.Schedule.{DataPath, same_path}

abbrev pub Disk : Type 0
Disk = List (DataPath × Json)

abbrev pub lookup : DataPath → Disk → Option Json
lookup path [] = none
lookup path ((name, text) ∷ files) =
    let rest = lookup path files in if same_path path name then some text else rest

-- `outcomes` are those of the writes to come; when they are used up, every write succeeds.
-- `broadcasts` are the transactions that were handed to the chain server, the last first.
pub record World : Type 0 where
  pub files : Disk
  pub broadcasts : List Transaction
  pub outcomes : List WriteOutcome
  pub drawn : ℕ

-- An operation on the world. A failed one leaves what it did before it failed.
abbrev pub Io {ℓ} : Type ℓ → Type ℓ
Io Value = World → World × Result Value

module _ {ℓ κ} {Value : Type ℓ} {Next : Type κ} where
  abbrev pub continue : World × Result Value → (Value → Io Next) → World × Result Next
  continue (w, panic) rest = (w, panic)
  continue (w, err message) rest = (w, err message)
  continue (w, ok value) rest = rest value w

  infixl 5 ◌>>=◌
  unfoldable pub ◌>>=◌ : Io Value → (Value → Io Next) → Io Next
  (action >>= rest) w = continue (action w) rest

infixl 5 ◌>>◌
abbrev pub ◌>>◌ {κ} : {Next : Type κ} → Io (Unit {0}) → Io Next → Io Next
check >> rest = check >>= λ done. rest

module _ {ℓ} {Value : Type ℓ} where
  -- A step that reads and writes nothing.
  unfoldable pub lift : Result Value → Io Value
  lift outcome w = (w, outcome)

  abbrev pub return : Value → Io Value
  return value = lift (ok value)

  -- `.context(message)` on an outcome
  abbrev pub with_message : Result Value → String → Result Value
  with_message panic message = panic
  with_message (err cause) message = err message
  with_message (ok value) message = ok value

  unfoldable pub context_of : Io Value → String → Io Value
  context_of action message w = let done = action w in (done.0, with_message done.1 message)

-- `write_private` of src/core/storage.rs
unfoldable pub write_private : DataPath → Json → Io (Unit {0})
write_private path text w =
    let replaced = (path, text) ∷ w.files in
    elim w.outcomes [
      | [] ↦ (record w { files = replaced }, ok tt)
      | written ∷ rest ↦ (record w { files = replaced; outcomes = rest }, ok tt)
      | refused ∷ rest ↦ (record w { outcomes = rest }, err "failed to write {}")
      | unsynced ∷ rest ↦ (record w { files = replaced; outcomes = rest }, err "failed to sync {}")
    ]

-- `path.exists()` and `path.is_file()`
unfoldable pub exists : DataPath → Io Bool
exists path w = (w, ok (elim (lookup path w.files) [ none ↦ false | some text ↦ true ]))

-- `fs::read(path)`
unfoldable pub fs_read : DataPath → Io Json
fs_read path w =
    (w, elim (lookup path w.files) [ none ↦ err "failed to read {}" | some text ↦ ok text ])

-- The random bytes of the next nonce.
unfoldable pub draw : (ℕ → Bytes) → Io Bytes
draw random w = (record w { drawn = suc w.drawn }, ok (random w.drawn))

-- What a mobile wallet calls of the chain server, `Blockchain` of src/core/chain.rs.
pub record Backend : Type 0 where
  pub network : Network
  pub broadcast : List Transaction → Transaction → Result Txid

unfoldable pub broadcast : Backend → Transaction → Io Txid
broadcast backend transaction w = (
  record w { broadcasts = transaction ∷ w.broadcasts },
  backend.broadcast w.broadcasts transaction,
)
