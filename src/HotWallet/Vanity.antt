-- ===== src/HotWallet/Vanity.antt =====
-- The search for a vanity address, `grind_vanity_phone_key` of src/hot_wallet/mod.rs: its workers,
-- which share atomic variables and a channel, as sequences of single steps.
pub mod Ends
pub mod Single
use anzen.Prelude.{
  ℕ, zero, suc, ◌+◌, ◌-◌, ◌*◌, ◌/◌, ◌%◌, ◌^◌, Bool, true, false, not, ◌&&◌, List, [], ◌∷◌, ◌++◌,
  get_elem?, Result, panic, ok, err, ◌>>=◌, unwrap, ltb, leb, ◌==◌, ◌!=◌, nat_eq, if◌then◌else◌,
}
use anzen.Bitcoin.{Bitcoin, Bytes}
use anzen.Keys.{Bip32, Xpriv, derive_vault_key_from_parent, normal_index_limit}
use anzen.Policy.Template.{Taproot, VaultAddressTemplate, output_key}

pub record VanityTarget : Type 0 where
  pub value : ℕ
  pub bit_count : ℕ

-- The first four bytes of the key, shifted to the right by all but `bit_count` of their bits.
unfoldable pub matches : VanityTarget → Bytes → Result Bool
matches target output_key = do
  a ← unwrap (get_elem? output_key 0)
  b ← unwrap (get_elem? output_key 1)
  c ← unwrap (get_elem? output_key 2)
  d ← unwrap (get_elem? output_key 3)
  let first_bits = a * 2 ^ 24 + b * 2 ^ 16 + c * 2 ^ 8 + d
  ok (first_bits / 2 ^ (32 - target.bit_count) == target.value)

-- The variables that the workers share: `stopped`, `attempts`, `last_report`, the results sent on
-- the channel and the totals reported, both in order.
pub record Shared : Type 0 where
  pub stopped : Bool
  pub attempts : ℕ
  pub last_report : ℕ
  pub sent : List (Result ℕ)
  pub reports : List ℕ

-- Where a worker stands, with its local variables: before the test of its loop; before it tries
-- its index; before `fetch_add` of a match; before `fetch_add` of a full batch; in
-- `maybe_report_progress` before its load, its exchange and its report; before the last
-- `fetch_add`; before `swap`; before `send`; at its end.
pub data Phase : Type 0 where
  looping trying matched counting : (index pending : ℕ) → Phase
  loading : (index total : ℕ) → Phase
  comparing : (index total previous : ℕ) → Phase
  announcing : (index total : ℕ) → Phase
  leaving : (pending : ℕ) → Phase
  swapping sending : (outcome : Result ℕ) → Phase
  over panicked : Phase

-- `fetch_add` on an `AtomicU64`
abbrev pub fetch_add : ℕ → Shared → Shared
fetch_add n s = record s { attempts = (s.attempts + n) % 2 ^ 64 }

-- Where the outcome of `try_index` takes a worker.
abbrev pub tried : ℕ → ℕ → Result Bool → Phase
tried index pending panic = panicked
tried index pending (err message) = swapping (err message)
tried index pending (ok false) = counting index (suc pending)
tried index pending (ok true) = matched index (suc pending)

-- The workers' phases, by their numbers.
abbrev pub Workers : Type 0
Workers = ℕ → Phase

abbrev pub start : Workers
start worker = looping worker 0

abbrev pub fresh : Shared
fresh = record { stopped = false; attempts = 0; last_report = 0; sent = []; reports = [] }

unfoldable pub set : ℕ → Phase → Workers → Workers
set worker phase workers other = if other == worker then phase else workers other

module _ (lib : Bitcoin) (bip : Bip32) (tap : Taproot) (parent : Xpriv)
    (template : VaultAddressTemplate) (target : VanityTarget) (stride : ℕ) where
  -- Whether the vault key of an index has the requested prefix.
  unfoldable pub try_index : ℕ → Result Bool
  try_index index = do
    (vault_xpriv, vault_keypair, phone_pubkey) ← derive_vault_key_from_parent lib bip parent index
    matches target (tap.serialize (output_key tap template phone_pubkey))

  -- One step of a worker, with at most one access to the shared variables.
  unfoldable pub advance : Phase → Shared → Phase × Shared
  advance (looping index pending) s = (
    if ltb index normal_index_limit && not s.stopped then trying index pending else leaving pending,
    s,
  )
  advance (trying index pending) s = (tried index pending (try_index index), s)
  advance (matched index pending) s = (swapping (ok index), fetch_add pending s)
  advance (counting index pending) s =
      if pending == 4096
      then (loading index (s.attempts + pending), fetch_add pending s)
      else (looping (index + stride) pending, s)
  advance (loading index total) s = (
    if leb 1000000 (total - s.last_report)
        then comparing index total s.last_report
        else looping (index + stride) 0,
    s,
  )
  advance (comparing index total previous) s =
      if s.last_report == previous
      then (announcing index total, record s { last_report = total })
      else (looping (index + stride) 0, s)
  advance (announcing index total) s =
      (looping (index + stride) 0, record s { reports = s.reports ++ (total ∷ []) })
  advance (leaving pending) s = (over, (if pending != 0 then fetch_add pending s else s))
  advance (swapping outcome) s =
      ((if s.stopped then over else sending outcome), record s { stopped = true })
  advance (sending outcome) s = (over, record s { sent = s.sent ++ (outcome ∷ []) })
  advance over s = (over, s)
  advance panicked s = (panicked, s)

  -- The steps of the workers in the order in which they are scheduled.
  unfoldable pub run : List ℕ → Workers → Shared → Workers × Shared
  unfolding advance set
  run [] workers s = (workers, s)
  run (worker ∷ schedule) workers s =
      let (phase, after) = advance (workers worker) s in
      run schedule (set worker phase workers) after
