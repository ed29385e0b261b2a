-- ===== src/Examples/Schedules.antt =====
-- Interleavings of calls of the run store of src/agent_runtime/runs/postgres.py.
use agent_runtime_kit.Runs.Claim
use agent_runtime_kit.Runs.Claim.{select}
use agent_runtime_kit.Runs.Schedule.{Call, Calls, perform_all, perform}
use agent_runtime_kit.Base.{none, refl, some, ◌≡◌, arith, ◌≢◌}
use agent_runtime_kit.Database.{RunRow, find_run, RunStatus, find_thread}
use agent_runtime_kit.Runs.Claim.{
  Claim, claim, claim_row, any_row, claim_lookup, claim_slot, clear_thread, insert_run,
  select_keyed,
}
use agent_runtime_kit.Examples.Tables.{claim_of, two_threads, db_with, run_in}
use agent_runtime_kit.Runs.Safety.{Continues, one_live_run, one_run_of_key, schedule-Continues}
use agent_runtime_kit.Runs.Rows.{lock_thread, expire}

-- Two claims on different threads, and one on a thread that is taken.
abbrev three_claims : Calls
three_claims = Calls.then_call (Call.claim (claim_of 10 20 1 (some "key")) Calls.done 100) (
    Calls.then_call (Call.claim (claim_of 11 21 2 none) Calls.done 101)
      (Calls.then_call (Call.claim (claim_of 12 22 1 none) Calls.done 102) Calls.done))

abbrev first : RunRow
first = claim_row (claim_of 10 20 1 (some "key")) 100

abbrev second : RunRow
second = claim_row (claim_of 11 21 2 none) 101

finds_first : find_run 10 (perform_all three_claims two_threads).runs ≡ some first
unfolding perform_all perform Claim.claim claim_lookup lock_thread find_thread select_keyed select
    claim_slot clear_thread insert_run any_row find_run expire
finds_first = refl

finds_second : find_run 11 (perform_all three_claims two_threads).runs ≡ some second
unfolding perform_all perform Claim.claim claim_lookup lock_thread find_thread select_keyed select
    claim_slot clear_thread insert_run any_row find_run expire
finds_second = refl

one_live_run_example : first.thread_id ≢ second.thread_id
one_live_run_example =
    one_live_run three_claims two_threads 10 11 first second refl finds_first finds_second
      (λ e. omega arith) refl refl

one_run_of_key_example : first.id ≡ first.id
one_run_of_key_example =
    one_run_of_key three_claims two_threads 10 10 first first "key" refl finds_first finds_first
      refl refl refl

-- Moves of a running run, of which the first succeeds and the others come too late.
abbrev moves : Calls
moves = Calls.then_call (Call.fail_if_running 10 99 "stopped" RunStatus.failed 150) (
    Calls.then_call (Call.transition 10 RunStatus.running 99 none none 160)
      (Calls.then_call (Call.recover 10 300) Calls.done))

finds_running :
    find_run 10 (db_with (run_in RunStatus.running)).runs ≡ some (run_in RunStatus.running)
unfolding find_run
finds_running = refl

schedule-Continues_example :
    (r' : RunRow) × (find_run 10 (perform_all moves (db_with (run_in RunStatus.running))).runs
      ≡ some r')
    × Continues (run_in RunStatus.running) r'
schedule-Continues_example =
    schedule-Continues moves (db_with (run_in RunStatus.running)) 10 (run_in RunStatus.running)
      (tt, tt) finds_running
