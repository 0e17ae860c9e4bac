-- ===== src/HotWallet/Names.antt =====
-- The purposes of the phone's encrypted files, which name what they hold.
use anzen.Prelude.{
  ℕ, zero, suc, ◌/◌, ◌%◌, String, ◌<>◌, ltb, none, some, [], ◌∷◌, get_elem?, if◌then◌else◌,
}
use anzen.Ceremony.Schedule.{
  TransactionKind, authorization, revocation, EmergencyTransactionKind, trigger, withdrawal,
  cancellation,
}

abbrev pub digit : ℕ → String
digit n =
    elim (get_elem? {A = String} ("0" ∷ "1" ∷ "2" ∷ "3" ∷ "4" ∷ "5" ∷ "6" ∷ "7" ∷ "8" ∷ "9" ∷ [])
      n) [ none ↦ "" | some text ↦ text ]

-- The decimal digits of a number, at most `fuel` many.
abbrev pub decimal_from : ℕ → ℕ → String
decimal_from zero n = ""
decimal_from (suc fuel) n =
    let front = decimal_from fuel (n / 10) in if ltb n 10 then digit n else front <> digit (n % 10)

-- `format!("{n}")` of a u8, which has three digits at most.
abbrev pub decimal : ℕ → String
decimal n = decimal_from 3 n

abbrev pub transaction_kind_name : TransactionKind → String
transaction_kind_name authorization = "authorization"
transaction_kind_name revocation = "revocation"

abbrev pub transaction_purpose : ℕ → TransactionKind → String → String
transaction_purpose step kind txid =
    "allowance/" <> (decimal step <> ("/" <> (transaction_kind_name kind <> ("/" <> txid))))

abbrev pub emergency_transaction_kind_name : EmergencyTransactionKind → String
emergency_transaction_kind_name trigger = "trigger"
emergency_transaction_kind_name withdrawal = "withdrawal"
emergency_transaction_kind_name cancellation = "cancellation"

abbrev pub emergency_transaction_purpose : EmergencyTransactionKind → String → String
emergency_transaction_purpose kind txid =
    "emergency/" <> (emergency_transaction_kind_name kind <> ("/" <> txid))

abbrev pub activation_purpose : String → String
activation_purpose txid = "policy-activation-v1:" <> txid
