-- ===== src/Tests/Vanity.antt =====
-- The theorems on the search for a vanity address at concrete inputs.
use anzen.Prelude.{ℕ, ◌≡◌, ◌⊎◌, refl, List, [], ◌∷◌, Result, some, arith, nat_eq}
use anzen.Policy.Template.{Taproot, VaultAddressTemplate}
use anzen.HotWallet.Vanity.{VanityTarget, start, fresh, run}
use anzen.HotWallet.Vanity.Ends.{count, IsOver, run-IsOver}
use anzen.HotWallet.Vanity.Single.{Genuine, run-sent}
use anzen.Samples.Batch.{toy}
use anzen.Samples.Keys.{bip}

abbrev tap : Taproot
tap = record {
  into_script = λ pushes. [];
  pubkey_from_str = λ text. some 7;
  from_script = λ script. 0;
  from_node_hashes = λ left right. left;
  tap_tweak = λ key root. key;
  serialize = λ key. 8 ∷ 0 ∷ 0 ∷ 0 ∷ [];
  p2tr_tweaked = λ key network. record { text = ""; script_pubkey = [] };
}

abbrev template : VaultAddressTemplate
template = record { internal_key = 7; hww_pubkey = 8; hww_recovery_node = 0 }

abbrev target : VanityTarget
target = record { value = 1; bit_count = 5 }

-- Two workers that take turns.
abbrev turns : List ℕ
turns = 0 ∷ 1 ∷ 0 ∷ 1 ∷ 0 ∷ 1 ∷ 1 ∷ 0 ∷ 0 ∷ 1 ∷ []

-- The last index has one worker, which is scheduled eleven times.
abbrev last_turns : List ℕ
last_turns =
    2147483647 ∷ 2147483647 ∷ 2147483647 ∷ 2147483647 ∷ 2147483647 ∷ 2147483647 ∷ 2147483647
    ∷ 2147483647 ∷ 2147483647 ∷ 2147483647 ∷ 2147483647 ∷ []

run-IsOver_example :
    IsOver ((run toy bip tap 1 template target 2147483648 last_turns start fresh).0 2147483647)
unfolding nat_eq
run-IsOver_example =
    let eleven : count 2147483647 last_turns ≡ 11 = refl in
    run-IsOver toy bip tap 1 template target 2147483648 (omega arith) 2147483647 last_turns fresh
      (omega arith)

run-sent_example :
    ((run toy bip tap 1 template target 2 turns start fresh).1.sent ≡ [])
    ⊎ ((outcome : Result ℕ) × ((run toy bip tap 1 template target 2 turns start fresh).1.sent
          ≡ outcome ∷ [])
        × Genuine toy bip tap 1 template target 2 outcome)
run-sent_example = run-sent toy bip tap 1 template target 2 turns
