-- ===== src/Samples/Selection.antt =====
-- Inputs of one vault output that fund nine monthly allowances and an emergency access.
use anzen.Prelude.{[], ◌∷◌, ok, ◌≡◌, refl, checked_mul}
use anzen.Transactions.Revocation.{unsigned_input}
use anzen.Ceremony.Amounts.{allowance_chain_value}
use anzen.Ceremony.Selection.{
  Budget, Selected, rollover_fee, select_rollover, select_none, choose_rollover,
}
use anzen.Samples.Batch.{toy, policy, run_validate}
use anzen.Samples.Sweeps.{controller}

abbrev pub budget : Budget
budget = record {
  input_template = unsigned_input (record { txid = 5; vout = 0 }) 0xffffffff ∷ [];
  vault_input_indexes = 0 ∷ [];
  controller_input_indexes = [];
  monthly_limit_sats = 100000;
  emergency_access_limit_sats = 50000;
  continuing_authorization_fee = 160;
  final_authorization_fee = 120;
  total_input_sats = 1000000;
  minimum_remainder_value = 49610;
}

abbrev pub selected : Selected
selected = record {
  allowance_count = 9;
  allowance_value_sats = 900400;
  rollover_fee = 130;
  remainder_value_sats = 97470;
}

pub chosen : choose_rollover toy policy controller budget ≡ ok selected
unfolding choose_rollover select_rollover select_none rollover_fee allowance_chain_value checked_mul
    run_validate
chosen = refl
