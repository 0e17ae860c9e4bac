-- ===== src/Samples/Unary.antt =====
-- Texts that numbers and bytes can be read back from.
use Prim.Native.Char.{Char, code}
use anzen.Prelude.{
  ℕ, zero, suc, ◌+◌, ◌≡◌, refl, String, Option, none, some, [], ◌∷◌, ◌==◌, nat_eq, arith,
  if◌then◌else◌,
}
use anzen.Bitcoin.{Bytes}

-- A number as that many `1`s and a `0`.
abbrev pub encode_number : ℕ → String → String
encode_number zero rest = String.◌∷◌ (Char.char 48 tt) rest
encode_number (suc n) rest = String.◌∷◌ (Char.char 49 tt) (encode_number n rest)

abbrev pub encode : Bytes → String
encode [] = String.[]
encode (n ∷ bytes) = encode_number n (encode bytes)

abbrev pub after : ℕ → Option Bytes → Option Bytes
after n none = none
after n (some bytes) = some (n ∷ bytes)

abbrev pub decode_from : ℕ → String → Option Bytes
decode_from n String.[] = some []
decode_from n (String.◌∷◌ c rest) =
    let more = decode_from (suc n) rest in
    let next = after n (decode_from 0 rest) in if code c == 49 then more else next

encode_number-decodes :
    (n m : ℕ) (rest : String)
    → decode_from m (encode_number n rest) ≡ after (n + m) (decode_from 0 rest)
encode_number-decodes zero m rest = grind arith
encode_number-decodes (suc n) m rest =
    let next = encode_number-decodes n (suc m) rest in grind arith

pub encode-decodes : (bytes : Bytes) → decode_from 0 (encode bytes) ≡ some bytes
encode-decodes [] = refl
encode-decodes (n ∷ bytes) =
    let number = encode_number-decodes n 0 (encode bytes) in
    let rest = encode-decodes bytes in grind arith

abbrev pub next_of : Option ℕ → Option ℕ
next_of none = none
next_of (some n) = some (suc n)

abbrev pub ended : String → Option ℕ
ended String.[] = some 0
ended (String.◌∷◌ c rest) = none

-- The number of a text that `encode_number` ends.
abbrev pub number_from : String → Option ℕ
number_from String.[] = none
number_from (String.◌∷◌ c rest) =
    let more = next_of (number_from rest) in
    let last = ended rest in if code c == 49 then more else if code c == 48 then last else none

pub number_from-encode_number : (n : ℕ) → number_from (encode_number n String.[]) ≡ some n
number_from-encode_number zero = grind arith
number_from-encode_number (suc n) = let rest = number_from-encode_number n in grind arith
