-- ===== src/HotWallet/Respects.antt =====
-- Operations whose every outcome, errors included, leaves the world as a relation says.
use anzen.Prelude.{◌≡◌, ◌∙◌, refl, sym, subst, String, Option, Result, panic, ok, err}
use anzen.Bitcoin.{Bitcoin}
use anzen.Keys.{Bip32}
use anzen.Ceremony.Schedule.{DataPath}
use anzen.Ceremony.Package.{Formats}
use anzen.Ceremony.Schedule.{Json}
use anzen.HotWallet.World.{World, Io, ◌>>=◌, lift, continue, context_of, exists, fs_read}
use anzen.HotWallet.Files.{
  read_json, config_path, load_config, load_schedule, load_device_keys, ensure_backend_network,
}
use anzen.HotWallet.World.{Backend}
use anzen.Storage.{VaultConfig}

pub record Respects {ℓ} {Value : Type ℓ} (R : World → World → Type 0) (action : Io Value)
    : Type 0 where
  pub respects : (w : World) → R w (action w).0

-- What makes a relation a property of sequences.
pub record Preorder (R : World → World → Type 0) : Type 0 where
  pub same : (w : World) → R w w
  pub through : (u v w : World) → R u v → R v w → R u w

module _ {R : World → World → Type 0} (order : Preorder R) where
  pub lift-Respects {ℓ} : {Value : Type ℓ} (outcome : Result Value) → Respects R (lift outcome)
  unfolding lift
  lift-Respects outcome = record { respects = λ w. order.same w }

  continue-Respects {ℓ κ} :
      {Value : Type ℓ} {Next : Type κ} (before : World) (done : World × Result Value)
      (rest : Value → Io Next)
      → ((value : Value) → Respects R (rest value))
      → R before done.0
      → R before (continue done rest).0
  continue-Respects before (w, panic) rest later first = first
  continue-Respects before (w, err message) rest later first = first
  continue-Respects before (w, ok value) rest later first =
      order.through before w (rest value w).0 first ((later value).respects w)

  pub bind-Respects {ℓ κ} :
      {Value : Type ℓ} {Next : Type κ} {action : Io Value} {rest : Value → Io Next}
      → Respects R action
      → ((value : Value) → Respects R (rest value))
      → Respects R (action >>= rest)
  unfolding ◌>>=◌
  bind-Respects {action = action} {rest = rest} first later = record {
    respects = λ w. continue-Respects w (action w) rest later (first.respects w);
  }

  pub context_of-Respects {ℓ} :
      {Value : Type ℓ} {action : Io Value} (message : String)
      → Respects R action
      → Respects R (context_of action message)
  unfolding context_of
  context_of-Respects message first = record { respects = first.respects }

-- The operations that only read.
abbrev pub Unchanged : World → World → Type 0
Unchanged before after = after ≡ before

pub Unchanged-Preorder : Preorder Unchanged
Unchanged-Preorder = record { same = λ w. refl; through = λ u v w first second. second ∙ first }

abbrev pub Reads {ℓ} : {Value : Type ℓ} → Io Value → Type 0
Reads action = Respects Unchanged action

pub lift-Reads {ℓ} : {Value : Type ℓ} (outcome : Result Value) → Reads (lift outcome)
lift-Reads outcome = lift-Respects Unchanged-Preorder outcome

pub Reads-Respects {ℓ} :
    {Value : Type ℓ} {R : World → World → Type 0} {action : Io Value}
    → Preorder R
    → Reads action
    → Respects R action
Reads-Respects {R = R} {action = action} order reads = record {
  respects = λ w. subst (λ after. R w after) (sym (reads.respects w)) (order.same w);
}

pub exists-Reads : (path : DataPath) → Reads (exists path)
unfolding exists
exists-Reads path = record { respects = λ w. refl }

fs_read-Reads : (path : DataPath) → Reads (fs_read path)
unfolding fs_read
fs_read-Reads path = record { respects = λ w. refl }

pub read_json-Reads {ℓ} :
    {A : Type ℓ} (parse : Json → Option A) (path : DataPath) → Reads (read_json parse path)
unfolding read_json
read_json-Reads parse path =
    bind-Respects Unchanged-Preorder (fs_read-Reads path)
      (λ text. lift-Respects Unchanged-Preorder _)

module _ (formats : Formats) where
  pub config_path-Reads : Reads (config_path formats)
  unfolding config_path
  config_path-Reads = bind-Respects Unchanged-Preorder (exists-Reads _) (λ current.
      bind-Respects Unchanged-Preorder (exists-Reads _)
        (λ legacy. lift-Respects Unchanged-Preorder _))

  pub load_config-Reads : Reads (load_config formats)
  unfolding load_config
  load_config-Reads =
      bind-Respects Unchanged-Preorder config_path-Reads (λ path. read_json-Reads _ path)

  pub load_schedule-Reads : Reads (load_schedule formats)
  unfolding load_schedule
  load_schedule-Reads = bind-Respects Unchanged-Preorder (read_json-Reads _ _) (λ schedule.
      bind-Respects Unchanged-Preorder (lift-Respects Unchanged-Preorder _)
        (λ known. lift-Respects Unchanged-Preorder _))

  pub load_device_keys-Reads :
      (lib : Bitcoin) (bip : Bip32) (path : DataPath)
      → Reads (load_device_keys formats lib bip path)
  unfolding load_device_keys
  load_device_keys-Reads lib bip path =
      bind-Respects Unchanged-Preorder (read_json-Reads _ _) (λ file.
        bind-Respects Unchanged-Preorder (lift-Respects Unchanged-Preorder _)
          (λ network. lift-Respects Unchanged-Preorder _))

pub ensure_backend_network-Reads :
    (backend : Backend) (config : VaultConfig) → Reads (ensure_backend_network backend config)
unfolding ensure_backend_network
ensure_backend_network-Reads backend config =
    bind-Respects Unchanged-Preorder (lift-Respects Unchanged-Preorder _)
      (λ expected. lift-Respects Unchanged-Preorder _)
