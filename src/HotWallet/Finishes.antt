-- ===== src/HotWallet/Finishes.antt =====
-- Operations that end well once every write succeeds.
use anzen.Prelude.{ℕ, ◌≡◌, ◌∙◌, ap, refl, String, Option, [], Result, ok, arith}
use anzen.Bitcoin.{Bytes}
use anzen.Crypto.{Ciphers, EncryptedBlob, encrypt, derive_key, format_version}
use anzen.Ceremony.Schedule.{DataPath}
use anzen.Ceremony.Schedule.{Json}
use anzen.HotWallet.World.{World, Io, ◌>>=◌, lift, draw, write_private}
use anzen.HotWallet.Steps.{bind-run}

-- From a world without failing writes to another, with that value.
pub record Finishes {ℓ} {Value : Type ℓ} (action : Io Value) (w : World) (value : Value)
    : Type ℓ where
  pub gives : (action w).1 ≡ ok value
  pub unfailing : (action w).0.outcomes ≡ []
  pub silent : (action w).0.broadcasts ≡ w.broadcasts

pub bind-Finishes {ℓ κ} :
    {Value : Type ℓ} {Next : Type κ} (action : Io Value) (rest : Value → Io Next) (w : World)
    (value : Value) (next : Next)
    → Finishes action w value
    → Finishes (rest value) (action w).0 next
    → Finishes (action >>= rest) w next
bind-Finishes action rest w value next first later =
    let run = bind-run action rest w value first.gives in
    record {
      gives = ap (λ done. done.1) run ∙ later.gives;
      unfailing = ap (λ done. done.0.outcomes) run ∙ later.unfailing;
      silent = ap (λ done. done.0.broadcasts) run ∙ later.silent ∙ first.silent;
    }

pub lift-Finishes {ℓ} :
    {Value : Type ℓ} (outcome : Result Value) (w : World) (value : Value)
    → w.outcomes ≡ []
    → outcome ≡ ok value
    → Finishes (lift outcome) w value
unfolding lift
lift-Finishes outcome w value unfailing h = record {
  gives = h;
  unfailing = unfailing;
  silent = refl;
}

pub lift-ok {ℓ} :
    {Value : Type ℓ} (outcome : Result Value) (w : World) (value : Value)
    → (lift outcome w).1 ≡ ok value
    → outcome ≡ ok value
unfolding lift
lift-ok outcome w value h = h

pub draw-Finishes :
    (random : ℕ → Bytes) (w : World) → w.outcomes ≡ [] → Finishes (draw random) w (random w.drawn)
unfolding draw
draw-Finishes random w unfailing = record { gives = refl; unfailing = unfailing; silent = refl }

pub write_private-Finishes :
    (path : DataPath) (text : Json) (w : World)
    → w.outcomes ≡ []
    → Finishes (write_private path text) w tt
unfolding write_private
write_private-Finishes path text w unfailing = record {
  gives = grind arith;
  unfailing = grind arith;
  silent = grind arith;
}

-- What the ciphers promise: keys derive, and encryption does not fail.
abbrev pub Seals : Ciphers → Type 0
Seals ciphers =
    ((seed : Bytes) (purpose : String)
      → (key : Bytes) × (ciphers.hkdf seed purpose ≡ Option.some key))
    × ((key nonce plaintext : Bytes)
        → (ciphertext : Bytes) × (ciphers.seal key nonce plaintext ≡ Option.some ciphertext))

module _ (ciphers : Ciphers) (seals : Seals ciphers) where
  pub encrypt-Seals :
      (nonce seed : Bytes) (purpose : String) (plaintext : Bytes)
      → (blob : EncryptedBlob) × (encrypt ciphers nonce seed purpose plaintext ≡ ok blob)
  unfolding encrypt derive_key
  encrypt-Seals nonce seed purpose plaintext =
      let (key, derived) = seals.0 seed purpose in
      let (ciphertext, sealed) = seals.1 key nonce plaintext in
      (
        record {
          version = format_version;
          purpose = purpose;
          nonce = nonce;
          ciphertext = ciphertext;
        },
        rw (derived, sealed),
      )
