-- ===== src/Ceremony/Selection/Chosen.antt =====
-- The rollover that a proposal chooses conserves value and has the largest number of allowances.
use anzen.Prelude.{ℕ, ◌+◌, ◌*◌, ◌<◌, ◌≤◌, ◌≡◌, ltb, nat_eq}
use anzen.Constants.{connector_value_sats, months_per_rollover}
use anzen.Bitcoin.{Bitcoin}
use anzen.Policy.{VaultPolicy, ControllerPolicy}
use anzen.Ceremony.Templates.{from_bool}
use anzen.Ceremony.Selection.Largest.{Unfunded}
use anzen.Ceremony.Selection.{Selected, Budget, emergency_enabled}

module _ (lib : Bitcoin) (policy : VaultPolicy) (controller : ControllerPolicy)
    (budget : Budget) where
  -- The rollover that is chosen, against the total of the inputs.
  pub record Chosen (s : Selected) : Type 0 where
    pub at_most : s.allowance_count ≤ months_per_rollover
    pub remains : budget.minimum_remainder_value ≤ s.remainder_value_sats
    pub conserves :
        budget.total_input_sats
        ≡ s.allowance_value_sats
          + s.remainder_value_sats
          + s.rollover_fee
          + connector_value_sats
            * (from_bool (ltb 0 s.allowance_count) + from_bool (emergency_enabled budget))
    pub largest :
        0 < budget.monthly_limit_sats
        → (n : ℕ) → s.allowance_count < n
        → n ≤ months_per_rollover
        → Unfunded lib policy controller budget n
