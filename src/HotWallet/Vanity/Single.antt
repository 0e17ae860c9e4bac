-- ===== src/HotWallet/Vanity/Single.antt =====
-- The one result that the workers of the search for a vanity address send.
use anzen.Prelude.{
  ℕ, String, ◌≡◌, refl, ◌⊎◌, inl, inr, Bool, true, false, not, ◌&&◌, ltb, leb, ◌-◌, List, [], ◌∷◌,
  ◌++◌, Result, panic, ok, err, ◌==◌, nat_eq, if◌then◌else◌, arith,
}
use anzen.Bitcoin.{Bitcoin}
use anzen.Keys.{Bip32, Xpriv, normal_index_limit}
use anzen.Policy.Template.{Taproot, VaultAddressTemplate}
use anzen.HotWallet.Vanity.{
  VanityTarget, Shared, Phase, looping, trying, matched, counting, loading, comparing, announcing,
  leaving, swapping, sending, over, panicked, try_index, tried, advance, Workers, start, fresh, set,
  run,
}

abbrev is_sending : Phase → Bool
is_sending (sending outcome) = true
is_sending phase = false

abbrev is_loud : Phase → Bool
is_loud (swapping outcome) = true
is_loud (sending outcome) = true
is_loud phase = false

tried-quiet :
    (index pending : ℕ) (outcome : Result Bool) → is_sending (tried index pending outcome) ≡ false
tried-quiet index pending panic = refl
tried-quiet index pending (err message) = refl
tried-quiet index pending (ok false) = refl
tried-quiet index pending (ok true) = refl

Silent : Workers → Type 0
Silent workers = (worker : ℕ) → is_sending (workers worker) ≡ false

-- Nothing is sent and nobody sends; one worker is to send; or one result is sent and nobody sends.
data Stage (G : Result ℕ → Type 0) (workers : Workers) (s : Shared) : Type 0 where
  unsent : s.stopped ≡ false → s.sent ≡ [] → Silent workers → Stage G workers s
  in_flight :
      s.stopped ≡ true
      → s.sent ≡ []
      → (sender : ℕ) (outcome : Result ℕ) → workers sender ≡ sending outcome
      → ((other : ℕ) → is_sending (workers other) ≡ true → other ≡ sender)
      → Stage G workers s
  delivered :
      s.stopped ≡ true
      → (outcome : Result ℕ) → s.sent ≡ outcome ∷ []
      → G outcome
      → Silent workers
      → Stage G workers s

-- A worker that does not send before and after its step, which leaves `stopped` and `sent`.
set-Stage :
    {G : Result ℕ → Type 0}
    → (workers : Workers) (s after : Shared) (worker : ℕ) (phase : Phase) → Stage G workers s
    → is_sending (workers worker) ≡ false
    → is_sending phase ≡ false
    → after.stopped ≡ s.stopped
    → after.sent ≡ s.sent
    → Stage G (set worker phase workers) after
unfolding set Silent
set-Stage workers s after worker phase (unsent running none silent) before quiet stopped sent =
    unsent (ground arith) (ground arith) (λ other. let old = silent other in ground arith)
set-Stage workers s after worker phase (in_flight stop none sender outcome sends alone) before quiet
      stopped sent =
    in_flight (ground arith) (ground arith) sender outcome (ground arith)
      (λ other sends_too. let old = alone other in ground arith)
set-Stage workers s after worker phase (delivered stop outcome one holds silent) before quiet
      stopped sent =
    delivered (ground arith) outcome (ground arith) holds
      (λ other. let old = silent other in ground arith)

swapping-Stage :
    {G : Result ℕ → Type 0}
    → (workers : Workers) (s : Shared) (worker : ℕ) (outcome : Result ℕ)
    → workers worker ≡ swapping outcome
    → Stage G workers s
    → Stage G
        (set worker (if s.stopped then over else sending outcome) workers)
        (record s { stopped = true })
unfolding set Silent
swapping-Stage workers s worker outcome at (unsent running none silent) =
    in_flight refl none worker outcome (ground arith)
      (λ other sends. let old = silent other in ground arith)
swapping-Stage workers s worker outcome at (in_flight stop none sender sent sends alone) =
    in_flight refl none sender sent (ground arith)
      (λ other again. let old = alone other in ground arith)
swapping-Stage workers s worker outcome at (delivered stop sent one holds silent) =
    delivered refl sent one holds (λ other. let old = silent other in ground arith)

sending-Stage :
    {G : Result ℕ → Type 0}
    → (workers : Workers) (s : Shared) (worker : ℕ) (outcome : Result ℕ)
    → workers worker ≡ sending outcome
    → G outcome
    → Stage G workers s
    → Stage G (set worker over workers) (record s { sent = s.sent ++ (outcome ∷ []) })
unfolding set Silent
sending-Stage workers s worker outcome at good (unsent running none silent) =
    let old = silent worker in ground arith
sending-Stage workers s worker outcome at good (in_flight stop none sender sent sends alone) =
    let mine = alone worker (ground arith) in
    delivered stop outcome (ground arith) good (λ other. let old = alone other in ground arith)
sending-Stage workers s worker outcome at good (delivered stop sent one holds silent) =
    let old = silent worker in ground arith

module _ (lib : Bitcoin) (bip : Bip32) (tap : Taproot) (parent : Xpriv)
    (template : VaultAddressTemplate) (target : VanityTarget) (stride : ℕ) where
  -- An index whose key has the prefix, or the error of an index.
  pub Genuine : Result ℕ → Type 0
  Genuine outcome =
      (index : ℕ) × (((outcome ≡ ok index)
          × (try_index lib bip tap parent template target stride index ≡ ok true))
        ⊎ ((message : String) × (outcome ≡ err message)
            × (try_index lib bip tap parent template target stride index ≡ err message)))

  abbrev Good : Phase → Type 0
  Good (matched index pending) = try_index lib bip tap parent template target stride index ≡ ok true
  Good (swapping outcome) = Genuine outcome
  Good (sending outcome) = Genuine outcome
  Good phase = Unit {0}

  tried-Good :
      (index pending : ℕ) (outcome : Result Bool)
      → try_index lib bip tap parent template target stride index ≡ outcome
      → Good (tried index pending outcome)
  unfolding Genuine
  tried-Good index pending panic at = tt
  tried-Good index pending (err message) at = (index, inr (message, refl, at))
  tried-Good index pending (ok false) at = tt
  tried-Good index pending (ok true) at = at

  if-Good : (test : Bool) (p q : Phase) → Good p → Good q → Good (if test then p else q)
  if-Good true p q good other = good
  if-Good false p q good other = other

  if-Good-first :
      (test : Bool) (p q : Phase × Shared) → Good p.0 → Good q.0 → Good (if test then p else q).0
  if-Good-first true p q good other = good
  if-Good-first false p q good other = other

  advance-Good :
      (phase : Phase) (s : Shared)
      → Good phase
      → Good (advance lib bip tap parent template target stride phase s).0
  unfolding advance Genuine
  advance-Good (looping index pending) s good =
      if-Good (ltb index normal_index_limit && not s.stopped) _ _ tt tt
  advance-Good (trying index pending) s good =
      tried-Good index pending (try_index lib bip tap parent template target stride index) refl
  advance-Good (matched index pending) s good = (index, inl (refl, good))
  advance-Good (counting index pending) s good = if-Good-first (pending == 4096) _ _ tt tt
  advance-Good (loading index total) s good =
      if-Good (leb 1000000 (total - s.last_report)) _ _ tt tt
  advance-Good (comparing index total previous) s good =
      if-Good-first (s.last_report == previous) _ _ tt tt
  advance-Good (announcing index total) s good = tt
  advance-Good (leaving pending) s good = tt
  advance-Good (swapping outcome) s good = if-Good s.stopped _ _ tt good
  advance-Good (sending outcome) s good = tt
  advance-Good over s good = tt
  advance-Good panicked s good = tt

  AllGood : Workers → Type 0
  AllGood workers = (worker : ℕ) → Good (workers worker)

  set-AllGood :
      (worker : ℕ) (phase : Phase) (workers : Workers)
      → Good phase
      → AllGood workers
      → AllGood (set worker phase workers)
  unfolding AllGood set
  set-AllGood worker phase workers good all other = if-Good (other == worker) _ _ good (all other)

  advance-Quiet :
      (phase : Phase) (s : Shared)
      → is_loud phase ≡ false
      → (is_sending (advance lib bip tap parent template target stride phase s).0 ≡ false)
        × ((advance lib bip tap parent template target stride phase s).1.stopped ≡ s.stopped)
        × ((advance lib bip tap parent template target stride phase s).1.sent ≡ s.sent)
  unfolding advance
  advance-Quiet (looping index pending) s quiet = ground arith
  advance-Quiet (trying index pending) s quiet =
      let next =
        tried-quiet index pending (try_index lib bip tap parent template target stride index) in
      ground arith
  advance-Quiet (matched index pending) s quiet = ground arith
  advance-Quiet (counting index pending) s quiet = ground arith
  advance-Quiet (loading index total) s quiet = ground arith
  advance-Quiet (comparing index total previous) s quiet = ground arith
  advance-Quiet (announcing index total) s quiet = ground arith
  advance-Quiet (leaving pending) s quiet = ground arith
  advance-Quiet over s quiet = ground arith
  advance-Quiet panicked s quiet = ground arith
  advance-Quiet (swapping outcome) s quiet = ground arith
  advance-Quiet (sending outcome) s quiet = ground arith

  quiet-Stage :
      (workers : Workers) (s : Shared) (worker : ℕ) (phase : Phase)
      → workers worker ≡ phase
      → is_loud phase ≡ false
      → Stage Genuine workers s
      → Stage Genuine
          (set worker (advance lib bip tap parent template target stride phase s).0 workers)
          (advance lib bip tap parent template target stride phase s).1
  quiet-Stage workers s worker phase at quiet stage =
      let (silent, stopped, sent) = advance-Quiet phase s quiet in
      set-Stage workers s (advance lib bip tap parent template target stride phase s).1 worker
        (advance lib bip tap parent template target stride phase s).0 stage (ground arith) silent
        stopped sent

  -- The step of one worker, found by its phase.
  advance-Stage :
      (workers : Workers) (s : Shared) (worker : ℕ) (phase : Phase)
      → workers worker ≡ phase
      → Good phase
      → Stage Genuine workers s
      → Stage Genuine
          (set worker (advance lib bip tap parent template target stride phase s).0 workers)
          (advance lib bip tap parent template target stride phase s).1
  unfolding advance
  advance-Stage workers s worker (swapping outcome) at good stage =
      swapping-Stage workers s worker outcome at stage
  advance-Stage workers s worker (sending outcome) at good stage =
      sending-Stage workers s worker outcome at good stage
  advance-Stage workers s worker (looping index pending) at good stage =
      quiet-Stage workers s worker (looping index pending) at refl stage
  advance-Stage workers s worker (trying index pending) at good stage =
      quiet-Stage workers s worker (trying index pending) at refl stage
  advance-Stage workers s worker (matched index pending) at good stage =
      quiet-Stage workers s worker (matched index pending) at refl stage
  advance-Stage workers s worker (counting index pending) at good stage =
      quiet-Stage workers s worker (counting index pending) at refl stage
  advance-Stage workers s worker (loading index total) at good stage =
      quiet-Stage workers s worker (loading index total) at refl stage
  advance-Stage workers s worker (comparing index total previous) at good stage =
      quiet-Stage workers s worker (comparing index total previous) at refl stage
  advance-Stage workers s worker (announcing index total) at good stage =
      quiet-Stage workers s worker (announcing index total) at refl stage
  advance-Stage workers s worker (leaving pending) at good stage =
      quiet-Stage workers s worker (leaving pending) at refl stage
  advance-Stage workers s worker over at good stage =
      quiet-Stage workers s worker over at refl stage
  advance-Stage workers s worker panicked at good stage =
      quiet-Stage workers s worker panicked at refl stage

  run-Stage :
      (schedule : List ℕ) (workers : Workers) (s : Shared)
      → AllGood workers
      → Stage Genuine workers s
      → Stage Genuine
          (run lib bip tap parent template target stride schedule workers s).0
          (run lib bip tap parent template target stride schedule workers s).1
  unfolding run AllGood
  run-Stage [] workers s good stage = stage
  run-Stage (worker ∷ schedule) workers s good stage =
      let phase = workers worker in
      let next = advance lib bip tap parent template target stride phase s in
      run-Stage schedule (set worker next.0 workers) next.1
        (set-AllGood worker next.0 workers (advance-Good phase s (good worker)) good)
        (advance-Stage workers s worker phase refl (good worker) stage)

Stage-sent :
    (G : Result ℕ → Type 0) (workers : Workers) (s : Shared)
    → Stage G workers s
    → (s.sent ≡ []) ⊎ ((outcome : Result ℕ) × (s.sent ≡ outcome ∷ []) × G outcome)
Stage-sent G workers s (unsent running none silent) = inl none
Stage-sent G workers s (in_flight stop none sender outcome sends alone) = inl none
Stage-sent G workers s (delivered stop outcome one holds silent) = inr (outcome, one, holds)

-- Whatever the order in which the workers take their steps, they have sent nothing, or exactly one
-- result: an index whose key has the requested prefix, or the error of an index.
pub run-sent :
    (lib : Bitcoin) (bip : Bip32) (tap : Taproot) (parent : Xpriv) (template : VaultAddressTemplate)
    (target : VanityTarget) (stride : ℕ) (schedule : List ℕ)
    → let after = (run lib bip tap parent template target stride schedule start fresh).1 in
      (after.sent ≡ [])
      ⊎ ((outcome : Result ℕ) × (after.sent ≡ outcome ∷ [])
          × Genuine lib bip tap parent template target stride outcome)
unfolding AllGood Silent
run-sent lib bip tap parent template target stride schedule =
    Stage-sent (Genuine lib bip tap parent template target stride)
      (run lib bip tap parent template target stride schedule start fresh).0
      (run lib bip tap parent template target stride schedule start fresh).1
      (run-Stage lib bip tap parent template target stride schedule start fresh (λ worker. tt)
        (unsent refl refl (λ worker. refl)))
