-- ===== src/HotWallet/Intact.antt =====
-- What an activation leaves as it was, unless the chain server has accepted its rollover.
use anzen.Prelude.{
  ℕ, ◌≡◌, ap, ◌∙◌, ◌⊎◌, inl, inr, Bool, true, false, if◌then◌else◌, refl, Option, some, none,
  nat_eq, ◌!=◌, ◌∷◌, Result, panic, ok, err, arith,
}
use anzen.Bitcoin.{Bytes, Txid, Transaction}
use anzen.Ceremony.Types.{BatchManifest}
use anzen.Ceremony.Workspace.{Workspace}
use anzen.Ceremony.Schedule.{DataPath, Schedule}
use anzen.Ceremony.Package.{load_manifest}
use anzen.Ceremony.Schedule.{Json}
use anzen.HotWallet.World.{
  World, Io, ◌>>=◌, lift, continue, context_of, lookup, broadcast, write_private,
}
use anzen.HotWallet.Activate.{Phone, stage_epoch}
use anzen.HotWallet.Commit.{
  rollover_of, previous_epoch, archive_previous, commit_epoch, broadcast_rollover, check_activation,
  activate_policy,
}
use anzen.HotWallet.Respects.{
  Respects, Preorder, Reads, Unchanged-Preorder, bind-Respects, lift-Respects, context_of-Respects,
  Reads-Respects, exists-Reads, load_config-Reads, config_path-Reads, load_schedule-Reads,
  load_device_keys-Reads, ensure_backend_network-Reads,
}
use anzen.HotWallet.Files.{set_policy_limits}
use anzen.HotWallet.Staged.{in_epoch, stage_epoch-Staged}

continue-world {ℓ κ} :
    {Value : Type ℓ} {Next : Type κ} (Q : World → Type 0) (done : World × Result Value)
    (rest : Value → Io Next)
    → Q done.0
    → ((value : Value) → done.1 ≡ ok value → Q (rest value done.0).0)
    → Q (continue done rest).0
continue-world Q (w, panic) rest here later = here
continue-world Q (w, err message) rest here later = here
continue-world Q (w, ok value) rest here later = later value refl

-- A property of the world that holds after the first operation, and after the rest if the first
-- succeeds, holds after the sequence.
pub bind-world {ℓ κ} :
    {Value : Type ℓ} {Next : Type κ} (Q : World → Type 0) (action : Io Value)
    (rest : Value → Io Next) (w : World)
    → Q (action w).0
    → ((value : Value) → (action w).1 ≡ ok value → Q (rest value (action w).0).0)
    → Q ((action >>= rest) w).0
unfolding ◌>>=◌
bind-world Q action rest w here later = continue-world Q (action w) rest here later

if-Respects {ℓ} :
    {Value : Type ℓ} {R : World → World → Type 0} (test : Bool) (one other : Io Value)
    → Respects R one
    → Respects R other
    → Respects R (if test then one else other)
if-Respects true one other first second = first
if-Respects false one other first second = second

module _ (phone : Phone) (batch : Workspace) where
  pub previous_epoch-Reads : Reads (previous_epoch phone)
  unfolding previous_epoch
  previous_epoch-Reads =
      let order = Unchanged-Preorder in
      bind-Respects order (exists-Reads _) (λ active.
        if-Respects active _ _
          (bind-Respects order (load_schedule-Reads phone.formats) (λ schedule.
            bind-Respects order (lift-Respects order _) (λ previous. lift-Respects order _)))
          (lift-Respects order _))

  pub check_activation-Reads : Reads (check_activation phone batch)
  unfolding check_activation
  check_activation-Reads =
      let order = Unchanged-Preorder in
      bind-Respects order (load_config-Reads phone.formats) (λ config.
        bind-Respects order (ensure_backend_network-Reads phone.backend config) (λ same.
          bind-Respects order (lift-Respects order _) (λ manifest.
            bind-Respects order (lift-Respects order _) (λ policy.
              bind-Respects order (load_device_keys-Reads phone.formats phone.lib phone.bip _)
                (λ keys. bind-Respects order (lift-Respects order _) (λ rollover.
                  bind-Respects order previous_epoch-Reads (λ previous.
                    bind-Respects order (exists-Reads _) (λ activated.
                      bind-Respects order (lift-Respects order _)
                        (λ fresh. lift-Respects order _)))))))))

  pub check_activation-ok :
      (w : World) (manifest : BatchManifest) (rollover : Transaction) (previous : Option Txid)
      (seed : Bytes)
      → (check_activation phone batch w).1 ≡ ok (manifest, rollover, previous, seed)
      → (load_manifest phone.formats batch ≡ ok manifest)
        × (rollover_of phone manifest batch ≡ ok rollover)
  unfolding check_activation ◌>>=◌ lift
  check_activation-ok w manifest rollover previous seed h = (ground arith, ground arith)

  -- Only `broadcast_rollover` hands a transaction to the chain server.
  pub broadcast_rollover-world :
      (rollover : Transaction) (w : World)
      → (broadcast_rollover phone rollover w).0 ≡ record w { broadcasts = rollover ∷ w.broadcasts }
  unfolding broadcast_rollover broadcast context_of ◌>>=◌ lift
  broadcast_rollover-world rollover w = ground arith

  pub broadcast_rollover-ok :
      (rollover : Transaction) (w : World) (done : Unit {0})
      → (broadcast_rollover phone rollover w).1 ≡ ok done
      → phone.backend.broadcast w.broadcasts rollover ≡ ok (phone.lib.compute_txid rollover)
  unfolding broadcast_rollover broadcast context_of ◌>>=◌ lift
  broadcast_rollover-ok rollover w done h = ground arith

-- Nothing is broadcast.
abbrev pub Quiet : World → World → Type 0
Quiet before after = after.broadcasts ≡ before.broadcasts

Quiet-Preorder : Preorder Quiet
Quiet-Preorder = record { same = λ w. refl; through = λ u v w first second. second ∙ first }

write_private-Quiet : (path : DataPath) (text : Json) → Respects Quiet (write_private path text)
unfolding write_private
write_private-Quiet path text = record { respects = λ w. ground arith }

module _ (phone : Phone) where
  archive_previous-Quiet :
      (txid : Txid) (previous : Option Txid) → Respects Quiet (archive_previous phone txid previous)
  unfolding archive_previous
  archive_previous-Quiet txid none = lift-Respects Quiet-Preorder _
  archive_previous-Quiet txid (some previous) =
      if-Respects (previous != txid) _ _
        (context_of-Respects Quiet-Preorder _ (write_private-Quiet _ _))
        (lift-Respects Quiet-Preorder _)

  set_policy_limits-Quiet :
      (monthly emergency : ℕ) → Respects Quiet (set_policy_limits phone.formats monthly emergency)
  unfolding set_policy_limits
  set_policy_limits-Quiet monthly emergency =
      bind-Respects Quiet-Preorder (Reads-Respects Quiet-Preorder (load_config-Reads phone.formats))
        (λ config.
          bind-Respects Quiet-Preorder
            (Reads-Respects Quiet-Preorder (config_path-Reads phone.formats))
            (λ path.
              bind-Respects Quiet-Preorder (write_private-Quiet _ _)
                (λ saved. lift-Respects Quiet-Preorder _)))

  commit_epoch-Quiet :
      (manifest : BatchManifest) (txid : Txid) (previous : Option Txid) (schedule : Schedule)
      → Respects Quiet (commit_epoch phone manifest txid previous schedule)
  unfolding commit_epoch
  commit_epoch-Quiet manifest txid previous schedule =
      bind-Respects Quiet-Preorder (archive_previous-Quiet txid previous) (λ archived.
        bind-Respects Quiet-Preorder
          (context_of-Respects Quiet-Preorder _ (write_private-Quiet _ _))
          (λ replaced.
            bind-Respects Quiet-Preorder
              (context_of-Respects Quiet-Preorder _ (set_policy_limits-Quiet _ _))
              (λ config. write_private-Quiet _ _)))

  -- The rollover of the batch was handed to the chain server once, which accepted it.
  pub record Accepted (batch : Workspace) (before after : World) : Type 0 where
    manifest : BatchManifest
    rollover : Transaction
    loaded : load_manifest phone.formats batch ≡ ok manifest
    finalized : rollover_of phone manifest batch ≡ ok rollover
    sent : after.broadcasts ≡ rollover ∷ before.broadcasts
    accepted :
        phone.backend.broadcast before.broadcasts rollover ≡ ok (phone.lib.compute_txid rollover)

  -- The files outside the epoch of the batch's rollover are as before.
  abbrev pub OthersIntact : Workspace → World → World → Type 0
  OthersIntact batch before after =
      (path : DataPath)
      → ((manifest : BatchManifest) (rollover : Transaction)
          → load_manifest phone.formats batch ≡ ok manifest
          → rollover_of phone manifest batch ≡ ok rollover
          → in_epoch (phone.lib.compute_txid rollover) path ≡ false)
      → lookup path after.files ≡ lookup path before.files

  -- After the broadcast: the chain server accepted the rollover.
  broadcast_rollover-Accepted :
      (batch : Workspace) (w staged : World) (manifest : BatchManifest) (rollover : Transaction)
      (done : Unit {0}) (after : World)
      → load_manifest phone.formats batch ≡ ok manifest
      → rollover_of phone manifest batch ≡ ok rollover
      → staged.broadcasts ≡ w.broadcasts
      → (broadcast_rollover phone rollover staged).1 ≡ ok done
      → after.broadcasts ≡ (broadcast_rollover phone rollover staged).0.broadcasts
      → Accepted batch w after
  broadcast_rollover-Accepted batch w staged manifest rollover done after loaded finalized quiet
        answered kept =
      let handed = broadcast_rollover-world phone batch rollover staged in
      let accepted = broadcast_rollover-ok phone batch rollover staged done answered in
      record {
        manifest = manifest;
        rollover = rollover;
        loaded = loaded;
        finalized = finalized;
        sent = cc;
        accepted = cc;
      }

  -- However the writes end, an activation leaves every file outside the epoch of its rollover as it
  -- was, the schedule and the configuration among them, unless the chain server was handed the
  -- rollover once and accepted it.
  pub activate_policy-intact :
      (batch : Workspace) (w : World)
      → OthersIntact batch w (activate_policy phone batch w).0
        ⊎ Accepted batch w (activate_policy phone batch w).0
  unfolding activate_policy lift
  activate_policy-intact batch w =
      let Q : World → Type 0 = λ after. OthersIntact batch w after ⊎ Accepted batch w after in
      let checked = (check_activation-Reads phone batch).respects w in
      bind-world Q (check_activation phone batch) _ w
        (inl (λ path outside. ap (λ v. lookup path v.files) checked))
        (λ read h.
          let (loaded, finalized) =
            check_activation-ok phone batch w read.0 read.1 read.2 read.3 h in
          let one = (check_activation phone batch w).0 in
          let staged = (stage_epoch-Staged phone batch read.0 read.1 read.3).respects one in
          let two = (stage_epoch phone batch read.0 read.1 read.3 one).0 in
          let intact : OthersIntact batch w two = λ path outside.
            staged.0 path (outside read.0 read.1 loaded finalized)
            ∙ ap (λ v. lookup path v.files) checked in
          bind-world Q (stage_epoch phone batch read.0 read.1 read.3) _ one (inl intact)
            (λ schedule h2.
              let handed = broadcast_rollover-world phone batch read.1 two in
              let three = (broadcast_rollover phone read.1 two).0 in
              bind-world Q (broadcast_rollover phone read.1) _ two
                (inl (λ path outside. ap (λ v. lookup path v.files) handed ∙ intact path outside))
                (λ done h3.
                  let quiet = staged.1 ∙ ap (λ v. v.broadcasts) checked in
                  let committed =
                    (commit_epoch-Quiet read.0 (phone.lib.compute_txid read.1) read.2
                        schedule).respects
                      three in
                  let accepted : Accepted batch w
                      (commit_epoch phone read.0 (phone.lib.compute_txid read.1) read.2 schedule
                        three).0 =
                    broadcast_rollover-Accepted batch w two read.0 read.1 done
                      (commit_epoch phone read.0 (phone.lib.compute_txid read.1) read.2 schedule
                        three).0
                      loaded finalized quiet h3 committed in
                  bind-world Q
                    (commit_epoch phone read.0 (phone.lib.compute_txid read.1) read.2 schedule) _
                    three (inr accepted) (λ over h4. inr accepted))))
