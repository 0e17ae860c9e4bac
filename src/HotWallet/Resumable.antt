-- ===== src/HotWallet/Resumable.antt =====
-- What every attempt to activate a policy keeps, however it ends: that the next one can succeed.
use anzen.Prelude.{
  ℕ, ◌≡◌, ◌∙◌, ap, sym, subst, refl, ◌⊎◌, inl, inr, Bool, true, false, String, Option, none, some,
  List, [], ◌∷◌, ok, arith, ◌!=◌, nat_eq, if◌then◌else◌,
}
use anzen.Bitcoin.{Txid, Transaction}
use anzen.Storage.{VaultConfig}
use anzen.Ceremony.Schedule.{
  DataPath, schedule_file, config_file, legacy_config_file, phone_device_file, epoch_file,
  activated_file, Schedule,
}
use anzen.Ceremony.Schedule.{Json}
use anzen.HotWallet.World.{
  World, Disk, Io, ◌>>=◌, lift, return, context_of, lookup, exists, fs_read, write_private,
}
use anzen.HotWallet.Files.{config_path, load_config, read_json}
use anzen.HotWallet.Activate.{Phone}
use anzen.HotWallet.Commit.{archive_previous, broadcast_rollover}
use anzen.HotWallet.Respects.{Respects, Preorder, lift-Respects, context_of-Respects}
use anzen.HotWallet.Staged.{Staged}
use anzen.HotWallet.Intact.{broadcast_rollover-world}
use anzen.HotWallet.Activated.{config_at}

-- The text of the configuration, under the name that it has.
abbrev pub stored_config : Disk → Option Json
stored_config files = elim (lookup config_file files) [
  | some text ↦ some text
  | none ↦ lookup legacy_config_file files
]

write_private-cases :
    (path : DataPath) (text : Json) (w : World)
    → (((write_private path text w).0.files ≡ w.files)
        ⊎ ((write_private path text w).0.files ≡ (path, text) ∷ w.files))
      × ((write_private path text w).0.broadcasts ≡ w.broadcasts)
unfolding write_private
write_private-cases path text w = (ground arith, ground arith)

-- `config` and the texts are those before the first attempt; `rollover` is what is activated.
module _ (phone : Phone) (config : VaultConfig) (device old_schedule old_marker : Option Json)
    (rollover : Transaction) where
  abbrev epoch : Txid
  epoch = phone.lib.compute_txid rollover

  -- The configuration reads back, but for its limits.
  abbrev pub Loadable : Disk → Type 0
  Loadable files =
      (text : Json) × (monthly : ℕ) × (access : ℕ) × (stored_config files ≡ some text)
      × (phone.formats.config_from text
          ≡ some (record config {
            monthly_limit_sats = monthly;
            emergency_access_limit_sats = access;
          }))

  -- The schedule is that of the rollover, or it and the marker are as before.
  abbrev pub Replaced : Disk → Type 0
  Replaced files =
      (schedule : Schedule) × (lookup schedule_file files
        ≡ some (phone.formats.schedule_text schedule))
      × (schedule.version ≡ 5)
      × (schedule.rollover_txid ≡ phone.lib.txid_to_string epoch)

  abbrev pub Kept : Disk → Type 0
  Kept files =
      (lookup schedule_file files ≡ old_schedule)
      × (lookup (epoch_file epoch activated_file) files ≡ old_marker)

  abbrev pub Common : Disk → List Transaction → Type 0
  Common files sent =
      Loadable files
      × (lookup phone_device_file files ≡ device)
      × (phone.backend.broadcast sent rollover ≡ ok epoch)

  pub record Resumable (files : Disk) (sent : List Transaction) : Type 0 where
    pub common : Common files sent
    pub active : Replaced files ⊎ Kept files

  pub record Switched (files : Disk) (sent : List Transaction) : Type 0 where
    pub common : Common files sent
    pub replaced : Replaced files

  pub Switched-Resumable :
      (files : Disk) (sent : List Transaction) → Switched files sent → Resumable files sent
  Switched-Resumable files sent switched = record {
    common = switched.common;
    active = inl switched.replaced;
  }

  -- The operations after which a property of the disk and the broadcasts still holds.
  abbrev pub Preserves {ℓ} :
      {Value : Type ℓ} → (Disk → List Transaction → Type 0) → Io Value → Type 0
  Preserves Q action = Respects (λ u v. Q u.files u.broadcasts → Q v.files v.broadcasts) action

  pub Preserves-Preorder :
      (Q : Disk → List Transaction → Type 0)
      → Preorder (λ u v. Q u.files u.broadcasts → Q v.files v.broadcasts)
  Preserves-Preorder Q = record {
    same = λ w held. held;
    through = λ u v w first second held. second (first held);
  }

  pub write_private-at :
      (Q : Disk → List Transaction → Type 0) (path : DataPath) (text : Json) (w : World)
      → Q w.files w.broadcasts
      → Q ((path, text) ∷ w.files) w.broadcasts
      → Q (write_private path text w).0.files (write_private path text w).0.broadcasts
  write_private-at Q path text w held written =
      let (files, sent) = write_private-cases path text w in
      subst (λ t. Q (write_private path text w).0.files t) (sym sent)
        (elim files [
          | inl same ↦ subst (λ f. Q f w.broadcasts) (sym same) held
          | inr put ↦ subst (λ f. Q f w.broadcasts) (sym put) written
        ])

  pub write_private-Preserves :
      (Q : Disk → List Transaction → Type 0) (path : DataPath) (text : Json)
      → ((files : Disk) (sent : List Transaction) → Q files sent → Q ((path, text) ∷ files) sent)
      → Preserves Q (write_private path text)
  write_private-Preserves Q path text keeps = record {
    respects = λ w held. write_private-at Q path text w held (keeps w.files w.broadcasts held);
  }

  archived-Resumable :
      (previous : Txid) (text : Json)
      → (previous != epoch) ≡ true
      → (files : Disk) (sent : List Transaction) → Resumable files sent
      → Resumable ((epoch_file previous activated_file, text) ∷ files) sent
  archived-Resumable previous text differs files sent held =
      let marker : lookup (epoch_file epoch activated_file)
            ((epoch_file previous activated_file, text) ∷ files)
          ≡ lookup (epoch_file epoch activated_file) files =
        grind arith in
      let active : Replaced files ⊎ Kept files
          → Replaced ((epoch_file previous activated_file, text) ∷ files)
            ⊎ Kept ((epoch_file previous activated_file, text) ∷ files) =
        λ found. elim found [
          | inl replaced ↦ inl replaced
          | inr kept ↦ inr (kept.0, marker ∙ kept.1)
        ] in
      record { common = held.common; active = active held.active }

  -- The steps of an attempt.
  pub stage-Resumable :
      (u v : World)
      → Staged epoch u v
      → Resumable u.files u.broadcasts
      → Resumable v.files v.broadcasts
  stage-Resumable u v staged held =
      let current = staged.0 config_file refl in
      let legacy = staged.0 legacy_config_file refl in
      let keys = staged.0 phone_device_file refl in
      let schedule = staged.0 schedule_file refl in
      let marker = staged.0 (epoch_file epoch activated_file) (ground arith) in
      let sent = staged.1 in
      let stored : stored_config v.files ≡ stored_config u.files = grind arith in
      let ((text, monthly, access, found, reads), same_keys, accepts) = held.common in
      let active : Replaced u.files ⊎ Kept u.files → Replaced v.files ⊎ Kept v.files =
        λ held_active. elim held_active [
          | inl (new, put, version, named) ↦ inl (new, schedule ∙ put, version, named)
          | inr (same_schedule, same_marker) ↦ inr (schedule ∙ same_schedule, marker ∙ same_marker)
        ] in
      record {
        common = (
          (text, monthly, access, stored ∙ found, reads),
          keys ∙ same_keys,
          ap (λ t. phone.backend.broadcast t rollover) sent ∙ accepts,
        );
        active = active held.active;
      }

  marked-Resumable :
      (test : Bool) (previous : Txid) (text : Json) (message : String)
      → (previous != epoch) ≡ test
      → Preserves Resumable (
          if test
          then context_of (write_private (epoch_file previous activated_file) text) message
          else return tt)
  marked-Resumable true previous text message differs =
      context_of-Respects (Preserves-Preorder Resumable) message
        (write_private-Preserves Resumable _ text (archived-Resumable previous text differs))
  marked-Resumable false previous text message same = lift-Respects (Preserves-Preorder Resumable) _

  pub archive_previous-Resumable :
      (previous : Option Txid) → Preserves Resumable (archive_previous phone epoch previous)
  unfolding archive_previous
  archive_previous-Resumable none = lift-Respects (Preserves-Preorder Resumable) _
  archive_previous-Resumable (some previous) =
      marked-Resumable (previous != epoch) previous phone.formats.true_text _ refl

  -- A server that accepted the rollover answers it again with its id.
  pub broadcast_rollover-Resumable :
      ((sent : List Transaction)
        → phone.backend.broadcast sent rollover ≡ ok epoch
        → phone.backend.broadcast (rollover ∷ sent) rollover ≡ ok epoch)
      → Preserves Resumable (broadcast_rollover phone rollover)
  broadcast_rollover-Resumable again = record {
    respects = λ w held.
        let world = broadcast_rollover-world phone [] rollover w in
        let (loadable, keys, accepts) = held.common in
        subst (λ v. Resumable v.files v.broadcasts) (sym world)
          (record { common = (loadable, keys, again w.broadcasts accepts); active = held.active });
  }

  -- The limits are read from a configuration that is stored, and stored again.
  pub load_config-stored :
      (w : World) (loaded : VaultConfig)
      → (load_config phone.formats w).1 ≡ ok loaded
      → Loadable w.files
      → (monthly : ℕ) × (access : ℕ) × (loaded
          ≡ record config { monthly_limit_sats = monthly; emergency_access_limit_sats = access })
  unfolding load_config config_path read_json fs_read exists ◌>>=◌ lift
  load_config-stored w loaded h (text, monthly, access, found, reads) =
      (monthly, access, grind arith)

  pub config_at-Switched :
      (files : Disk) (sent : List Transaction) (text : Json) (monthly access : ℕ)
      → phone.formats.config_from text
        ≡ some
            (record config { monthly_limit_sats = monthly; emergency_access_limit_sats = access })
      → Switched files sent
      → Switched ((config_at phone files, text) ∷ files) sent
  config_at-Switched files sent text monthly access reads held =
      let ((old, m, a, found, parsed), keys, accepts) = held.common in
      let (schedule, put, version, named) = held.replaced in
      record {
        common = ((text, monthly, access, ground arith, reads), ground arith, accepts);
        replaced = (schedule, ground arith, version, named);
      }
