-- ===== src/Examples/Sweeps.antt =====
-- A sweep of src/agent_runtime/runs/postgres.py over a run whose lease has lapsed, beside a claim.
use agent_runtime_kit.Errors.{ok}
use agent_runtime_kit.Runs.Claim
use agent_runtime_kit.Runs.Claim.{
  select, Claim, any_row, claim, claim_lookup, claim_slot, clear_thread, insert_run, select_keyed,
}
use agent_runtime_kit.Runs.Schedule.{Call, Calls, perform_all, perform}
use agent_runtime_kit.Base.{All, [], false, length, refl, some, ◌∷◌, ◌≡◌, ◌≤◌, none, ℕ, ◌+◌}
use agent_runtime_kit.Database.{RunRow, RunStatus, find_run, find_thread}
use agent_runtime_kit.Runs.Recover.{
  insert_by_lease, recover_each, recover_expired, recover_one, sort_by_lease, Round,
}
use agent_runtime_kit.Runs.Sweep.{IsSwept, recover_expired-IsSwept, rounds_of}
use agent_runtime_kit.Runs.Rows.{expire, model, lock_thread}
use agent_runtime_kit.Examples.Tables.{db_with, run_in, claim_of}

abbrev stale : RunRow
stale = run_in RunStatus.running

abbrev failed_run : RunRow
failed_run = record stale {
  status = RunStatus.failed;
  error_code = some "owner_lease_expired";
  completed_at = some 310;
}

-- Another client claims the other thread before the first round.
abbrev between : ℕ → Calls
between i = Calls.then_call (Call.claim (claim_of 11 21 2 none) Calls.done 305) Calls.done

abbrev rounds : ℕ → Round
rounds = rounds_of between (λ i k. false) (λ i. 310 + i)

sweeps : (recover_expired rounds 100 300 (db_with stale)).0 ≡ ok (model failed_run ∷ [])
unfolding recover_expired recover_each recover_one Claim.select sort_by_lease insert_by_lease
    find_run expire perform_all perform Claim.claim Claim.claim_lookup lock_thread find_thread
    Claim.select_keyed Claim.claim_slot Claim.clear_thread Claim.insert_run Claim.any_row
sweeps = refl

recover_expired-IsSwept_example :
    All
      (IsSwept (λ i. 310 + i) (recover_expired rounds 100 300 (db_with stale)).1.runs)
      (model failed_run ∷ [])
    × (length (model failed_run ∷ []) ≤ 100)
    × (100 ≤ 1000)
recover_expired-IsSwept_example =
    recover_expired-IsSwept between (λ i k. false) (λ i. 310 + i) 100 300 (db_with stale)
      (model failed_run ∷ []) (tt, tt) sweeps
