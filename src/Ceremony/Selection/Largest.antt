-- ===== src/Ceremony/Selection/Largest.antt =====
-- The loop over the counts picks the largest number of allowances that can be funded.
use anzen.Prelude.{
  ℕ, zero, suc, ◌+◌, ◌-◌, ◌*◌, ◌<◌, ◌≤◌, ◌≡◌, ◌⊎◌, inl, inr, true, Option, none, some, ok, arith,
  refl, >>=-eq-ok, Bool-cases, leb, nat_eq,
}
use anzen.Constants.{connector_value_sats}
use anzen.Bitcoin.{Bitcoin}
use anzen.Policy.{VaultPolicy, ControllerPolicy}
use anzen.Ceremony.Templates.{from_bool}
use anzen.Ceremony.Selection.{
  Selected, Budget, emergency_enabled, rollover_fee, chain_value, select_rollover,
}

module _ (lib : Bitcoin) (policy : VaultPolicy) (controller : ControllerPolicy)
    (budget : Budget) where
  -- The total cannot fund that many allowances with their rollover and the least remainder.
  abbrev pub Unfunded : ℕ → Type 0
  Unfunded count =
      (value : ℕ) × (fee : ℕ) × (chain_value lib policy controller budget count ≡ ok value)
      × (rollover_fee lib policy controller budget (some value) true ≡ ok fee)
      × (budget.total_input_sats
          < fee
            + value
            + budget.minimum_remainder_value
            + connector_value_sats * (1 + from_bool (emergency_enabled budget)))

  abbrev pub spent : ℕ
  spent = connector_value_sats * (1 + from_bool (emergency_enabled budget))

  -- One count of the loop: it is taken, or it is passed over for the smaller ones.
  select-step :
      (count : ℕ) (found : Option Selected)
      → select_rollover lib policy controller budget (suc count) ≡ ok found
      → ((s : Selected) × (found ≡ some s)
          × (s.allowance_count ≡ suc count)
          × (chain_value lib policy controller budget (suc count) ≡ ok s.allowance_value_sats)
          × (rollover_fee lib policy controller budget (some s.allowance_value_sats) true
              ≡ ok s.rollover_fee)
          × (budget.total_input_sats
              ≡ s.allowance_value_sats
                + s.remainder_value_sats
                + s.rollover_fee
                + connector_value_sats * (1 + from_bool (emergency_enabled budget))))
        ⊎ (Unfunded (suc count) × (select_rollover lib policy controller budget count ≡ ok found))
  unfolding select_rollover
  select-step count found h =
      let (value, known, priced) =
        >>=-eq-ok (chain_value lib policy controller budget (suc count)) _ h in
      let (fee, estimated, added) =
        >>=-eq-ok (rollover_fee lib policy controller budget (some value) true) _ priced in
      elim (Bool-cases
        (leb (fee + value + budget.minimum_remainder_value + spent) budget.total_input_sats)) [
          | inl fits ↦ inl (
            record {
              allowance_count = suc count;
              allowance_value_sats = value;
              rollover_fee = fee;
              remainder_value_sats = budget.total_input_sats - fee - value - spent;
            },
            ground arith,
            refl,
            known,
            estimated,
            ground arith,
          )
          | inr short ↦ inr ((value, fee, known, estimated, ground arith), ground arith)
        ]

  -- What a selection by the loop from `count` down is.
  abbrev pub Picks : ℕ → Option Selected → Type 0
  Picks count found = elim found [
    | none ↦ ((n : ℕ) → 0 < n → n ≤ count → Unfunded n)
    | some s ↦
        (0 < s.allowance_count)
        × (s.allowance_count ≤ count)
        × (chain_value lib policy controller budget s.allowance_count ≡ ok s.allowance_value_sats)
        × (rollover_fee lib policy controller budget (some s.allowance_value_sats) true
            ≡ ok s.rollover_fee)
        × (budget.total_input_sats
            ≡ s.allowance_value_sats + s.remainder_value_sats + s.rollover_fee + spent)
        × ((n : ℕ) → s.allowance_count < n → n ≤ count → Unfunded n)
  ]

  at_top :
      (count n : ℕ) → Unfunded (suc count) → n ≤ suc count → (n ≤ count → Unfunded n) → Unfunded n
  at_top count n top below rest = elim (nat_eq.dec n (suc count)) [
    | yes same ↦ rw same top
    | no differs ↦ rest (ground arith)
  ]

  Picks-suc :
      (count : ℕ) (found : Option Selected)
      → Unfunded (suc count)
      → Picks count found
      → Picks (suc count) found
  Picks-suc count none top rest = λ n positive below. at_top count n top below (rest n positive)
  Picks-suc count (some s) top (positive, below, known, priced, adds, larger) = (
    positive,
    omega arith,
    known,
    priced,
    adds,
    λ n above under. at_top count n top under (larger n above),
  )

  Picks-zero :
      (found : Option Selected)
      → select_rollover lib policy controller budget 0 ≡ ok found
      → Picks 0 found
  unfolding select_rollover
  Picks-zero none h = λ n positive below. absurd (omega arith)
  Picks-zero (some s) h = absurd (ground arith)

  Picks-at :
      (count : ℕ) (s : Selected)
      → s.allowance_count ≡ suc count
      → chain_value lib policy controller budget (suc count) ≡ ok s.allowance_value_sats
      → rollover_fee lib policy controller budget (some s.allowance_value_sats) true
        ≡ ok s.rollover_fee
      → budget.total_input_sats
        ≡ s.allowance_value_sats + s.remainder_value_sats + s.rollover_fee + spent
      → Picks (suc count) (some s)
  Picks-at count s counted known priced adds = (
    omega arith,
    omega arith,
    rw counted known,
    priced,
    adds,
    λ n above below. absurd (omega arith),
  )

  pub select_rollover-Picks :
      (count : ℕ) (found : Option Selected)
      → select_rollover lib policy controller budget count ≡ ok found
      → Picks count found
  select_rollover-Picks zero found h = Picks-zero found h
  select_rollover-Picks (suc count) found h = elim (select-step count found h) [
    | inl (s, same, counted, known, priced, adds) ↦
        rw same (Picks-at count s counted known priced adds)
    | inr (top, rest) ↦ Picks-suc count found top (select_rollover-Picks count found rest)
  ]
