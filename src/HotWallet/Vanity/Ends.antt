-- ===== src/HotWallet/Vanity/Ends.antt =====
-- The end of every worker of the search for a vanity address.
use anzen.Prelude.{
  ℕ, suc, ◌+◌, ◌-◌, ◌*◌, ◌≤◌, ◌<◌, ◌≡◌, refl, ◌⊎◌, inl, inr, List, [], ◌∷◌, Result, panic, ok, err,
  Bool, true, false, ◌==◌, nat_eq, if◌then◌else◌, arith,
}
use anzen.Bitcoin.{Bitcoin}
use anzen.Keys.{Bip32, Xpriv, normal_index_limit}
use anzen.Policy.Template.{Taproot, VaultAddressTemplate}
use anzen.HotWallet.Vanity.{
  VanityTarget, Shared, Phase, looping, trying, matched, counting, loading, comparing, announcing,
  leaving, swapping, sending, over, panicked, try_index, tried, advance, Workers, start, set, run,
}

-- The number of times a worker is scheduled.
abbrev pub count : ℕ → List ℕ → ℕ
count worker [] = 0
count worker (other ∷ schedule) =
    let rest = count worker schedule in if worker == other then suc rest else rest

pub IsOver : Phase → Type 0
IsOver phase = (phase ≡ over) ⊎ (phase ≡ panicked)

-- A bound on the steps that a worker has left.
abbrev steps_left : Phase → ℕ
steps_left (looping index pending) = 8 * (normal_index_limit - index) + 3
steps_left (trying index pending) = 8 * (normal_index_limit - suc index) + 10
steps_left (matched index pending) = 3
steps_left (counting index pending) = 8 * (normal_index_limit - suc index) + 9
steps_left (loading index total) = 8 * (normal_index_limit - suc index) + 8
steps_left (comparing index total previous) = 8 * (normal_index_limit - suc index) + 7
steps_left (announcing index total) = 8 * (normal_index_limit - suc index) + 6
steps_left (leaving pending) = 1
steps_left (swapping outcome) = 2
steps_left (sending outcome) = 1
steps_left over = 0
steps_left panicked = 0

steps_left-zero : (phase : Phase) → steps_left phase ≡ 0 → (phase ≡ over) ⊎ (phase ≡ panicked)
steps_left-zero over ends = inl refl
steps_left-zero panicked ends = inr refl
steps_left-zero (looping index pending) ends = ground arith
steps_left-zero (trying index pending) ends = ground arith
steps_left-zero (matched index pending) ends = ground arith
steps_left-zero (counting index pending) ends = ground arith
steps_left-zero (loading index total) ends = ground arith
steps_left-zero (comparing index total previous) ends = ground arith
steps_left-zero (announcing index total) ends = ground arith
steps_left-zero (leaving pending) ends = ground arith
steps_left-zero (swapping outcome) ends = ground arith
steps_left-zero (sending outcome) ends = ground arith

steps_left-tried :
    (index pending : ℕ) (outcome : Result Bool)
    → steps_left (tried index pending outcome) ≤ 8 * (normal_index_limit - suc index) + 9
steps_left-tried index pending panic = omega arith
steps_left-tried index pending (err message) = omega arith
steps_left-tried index pending (ok false) = omega arith
steps_left-tried index pending (ok true) = omega arith

module _ (lib : Bitcoin) (bip : Bip32) (tap : Taproot) (parent : Xpriv)
    (template : VaultAddressTemplate) (target : VanityTarget) (stride : ℕ) where
  steps_left-advance :
      0 < stride
      → (phase : Phase) (s : Shared)
      → steps_left (advance lib bip tap parent template target stride phase s).0
        ≤ steps_left phase - 1
  unfolding advance
  steps_left-advance some_worker (looping index pending) s = ground arith
  steps_left-advance some_worker (trying index pending) s =
      let bound =
        steps_left-tried index pending
          (try_index lib bip tap parent template target stride index) in
      ground arith
  steps_left-advance some_worker (matched index pending) s = ground arith
  steps_left-advance some_worker (counting index pending) s = ground arith
  steps_left-advance some_worker (loading index total) s = ground arith
  steps_left-advance some_worker (comparing index total previous) s = ground arith
  steps_left-advance some_worker (announcing index total) s = ground arith
  steps_left-advance some_worker (leaving pending) s = ground arith
  steps_left-advance some_worker (swapping outcome) s = ground arith
  steps_left-advance some_worker (sending outcome) s = ground arith
  steps_left-advance some_worker over s = ground arith
  steps_left-advance some_worker panicked s = ground arith

  steps_left-run :
      0 < stride
      → (worker : ℕ) (schedule : List ℕ) (workers : Workers) (s : Shared)
      → steps_left (workers worker) ≤ count worker schedule
      → steps_left ((run lib bip tap parent template target stride schedule workers s).0 worker) ≡ 0
  unfolding run set
  steps_left-run some_worker worker [] workers s enough = ground arith
  steps_left-run some_worker worker (other ∷ schedule) workers s enough =
      let phase = advance lib bip tap parent template target stride (workers other) s in
      let fewer = steps_left-advance some_worker (workers other) s in
      steps_left-run some_worker worker schedule (set other phase.0 workers) phase.1 (ground arith)

-- With at least one worker, each worker of the search is at its end once it was scheduled 8 times for
-- each index from its first one to 2^31, and 3 times more, however it is interleaved with the others.
pub run-IsOver :
    (lib : Bitcoin) (bip : Bip32) (tap : Taproot) (parent : Xpriv) (template : VaultAddressTemplate)
    (target : VanityTarget) (stride : ℕ)
    → 0 < stride
    → (worker : ℕ) (schedule : List ℕ) (s : Shared)
    → 8 * (normal_index_limit - worker) + 3 ≤ count worker schedule
    → IsOver ((run lib bip tap parent template target stride schedule start s).0 worker)
unfolding IsOver
run-IsOver lib bip tap parent template target stride some_worker worker schedule s enough =
    steps_left-zero ((run lib bip tap parent template target stride schedule start s).0 worker) (
      steps_left-run lib bip tap parent template target stride some_worker worker schedule start s
        (omega arith))
