-- ===== src/Ceremony/ChainValue.antt =====
-- The value that the rollover puts into the allowance chain.
use anzen.Prelude.{ℕ, suc, ◌+◌, ◌*◌, ◌<◌, ◌≡◌, ◌↔◌, ok, arith, u64_limit}
use anzen.Constants.{connector_value_sats}
use anzen.Ceremony.Amounts.{allowance_chain_value}

-- For at least one allowance, the value of the chain is defined exactly if the limits and the fees
-- fit a `u64` and cover one connector; with the connector, it is then the limits and the fees.
pub allowance_chain_value-eq-ok :
    (previous monthly_limit continuing_fee final_fee value : ℕ)
    → allowance_chain_value (suc previous) monthly_limit continuing_fee final_fee ≡ ok value
      ↔ (value + connector_value_sats
          ≡ monthly_limit * suc previous + continuing_fee * previous + final_fee)
        × (monthly_limit * suc previous + continuing_fee * previous + final_fee < u64_limit)
unfolding allowance_chain_value
allowance_chain_value-eq-ok previous monthly_limit continuing_fee final_fee value =
    (λ h. ground arith, λ h. ground arith)
