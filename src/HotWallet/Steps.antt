-- ===== src/HotWallet/Steps.antt =====
-- What a sequence that succeeds has done, step by step.
use anzen.Prelude.{◌≡◌, ◌∙◌, ap, subst, refl, String, ◌∷◌, Result, panic, ok, err, arith}
use anzen.Ceremony.Schedule.{DataPath}
use anzen.Ceremony.Schedule.{Json}
use anzen.HotWallet.Respects.{Reads}
use anzen.HotWallet.World.{World, Io, ◌>>=◌, continue, context_of, with_message, write_private}

-- The first operation gives a value, and the rest with that value ends as the whole does.
abbrev pub Succeeds {ℓ κ} :
    {Value : Type ℓ} {Next : Type κ} → Io Value → (Value → Io Next) → World → Next → Type (ℓ ⊔ κ)
Succeeds {Value = Value} action rest w next =
    (value : Value) × ((action w).1 ≡ ok value)
    × ((rest value (action w).0).1 ≡ ok next)
    × (((action >>= rest) w).0 ≡ (rest value (action w).0).0)

continue-ok {ℓ κ} :
    {Value : Type ℓ} {Next : Type κ} (done : World × Result Value) (rest : Value → Io Next)
    {next : Next}
    → (continue done rest).1 ≡ ok next
    → (value : Value) × (done.1 ≡ ok value)
      × ((rest value done.0).1 ≡ ok next)
      × ((continue done rest).0 ≡ (rest value done.0).0)
continue-ok (w, panic) rest h = cc
continue-ok (w, err message) rest h = cc
continue-ok (w, ok value) rest h = (value, refl, h, refl)

pub bind-ok {ℓ κ} :
    {Value : Type ℓ} {Next : Type κ} (action : Io Value) (rest : Value → Io Next) (w : World)
    {next : Next}
    → ((action >>= rest) w).1 ≡ ok next
    → Succeeds action rest w next
unfolding ◌>>=◌
bind-ok action rest w h = continue-ok (action w) rest h

pub write_private-ok :
    (path : DataPath) (text : Json) (w : World) (done : Unit {0})
    → (write_private path text w).1 ≡ ok done
    → (write_private path text w).0.files ≡ (path, text) ∷ w.files
unfolding write_private
write_private-ok path text w done h = ground arith

with_message-ok {ℓ} :
    {Value : Type ℓ} (outcome : Result Value) (message : String) (value : Value)
    → with_message outcome message ≡ ok value
    → outcome ≡ ok value
with_message-ok panic message value h = cc
with_message-ok (err cause) message value h = cc
with_message-ok (ok v) message value h = h

pub context_of-ok {ℓ} :
    {Value : Type ℓ} (action : Io Value) (message : String) (w : World) (value : Value)
    → (context_of action message w).1 ≡ ok value
    → ((action w).1 ≡ ok value) × ((context_of action message w).0 ≡ (action w).0)
unfolding context_of
context_of-ok action message w value h = (with_message-ok (action w).1 message value h, refl)

-- The same after an operation that only reads.
pub read-ok {ℓ κ} :
    {Value : Type ℓ} {Next : Type κ} {action : Io Value} (reads : Reads action)
    (rest : Value → Io Next) (w : World) {next : Next}
    → ((action >>= rest) w).1 ≡ ok next
    → (value : Value) × ((action w).1 ≡ ok value)
      × ((rest value w).1 ≡ ok next)
      × (((action >>= rest) w).0 ≡ (rest value w).0)
read-ok {action = action} reads rest w {next = next} h =
    let (value, found, later, after) = bind-ok action rest w h in
    let same = reads.respects w in
    (
      value,
      found,
      subst (λ v. (rest value v).1 ≡ ok next) same later,
      after ∙ ap (λ v. (rest value v).0) same,
    )

-- A sequence after a reading operation that gives a value runs the rest with it.
continue-run {ℓ κ} :
    {Value : Type ℓ} {Next : Type κ} (done : World × Result Value) (rest : Value → Io Next)
    (value : Value)
    → done.1 ≡ ok value
    → continue done rest ≡ rest value done.0
continue-run (w, panic) rest value h = cc
continue-run (w, err message) rest value h = cc
continue-run (w, ok v) rest value h = cc

pub bind-run {ℓ κ} :
    {Value : Type ℓ} {Next : Type κ} (action : Io Value) (rest : Value → Io Next) (w : World)
    (value : Value)
    → (action w).1 ≡ ok value
    → (action >>= rest) w ≡ rest value (action w).0
unfolding ◌>>=◌
bind-run action rest w value h = continue-run (action w) rest value h

pub read-run {ℓ κ} :
    {Value : Type ℓ} {Next : Type κ} {action : Io Value} (reads : Reads action)
    (rest : Value → Io Next) (w : World) (value : Value)
    → (action w).1 ≡ ok value
    → (action >>= rest) w ≡ rest value w
read-run {action = action} reads rest w value h =
    bind-run action rest w value h ∙ ap (λ v. rest value v) (reads.respects w)
