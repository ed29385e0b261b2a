-- ===== src/Examples/Claims.antt =====
-- `claim` of src/agent_runtime/runs/postgres.py on a thread with a run.
use agent_runtime_kit.Errors.{ok, err, Error}
use agent_runtime_kit.Base.{[], arith, false, none, refl, some, true, ◌∷◌, ◌≡◌}
use agent_runtime_kit.Database.{RunRow, RunStatus, find_run, find_thread, store_run}
use agent_runtime_kit.Runs.Claim.{
  any_row, claim, claim_lookup, claim_row, existing_claim, select_keyed,
}
use agent_runtime_kit.Runs.Takeover.{claim_takes_over, same_request}
use agent_runtime_kit.Runs.Arbitration.{claim_busy, claim_replays}
use agent_runtime_kit.Runs.Rows.{expired_or_same, lock_thread, model}
use agent_runtime_kit.Examples.Tables.{claim_of, db_with, run_in}

abbrev running : RunRow
running = run_in RunStatus.running

finds_running : find_run 10 (db_with running).runs ≡ some running
unfolding find_run
finds_running = refl

locks : lock_thread 1 (db_with running) ≡ ok tt
unfolding lock_thread find_thread
locks = refl

looks_up : claim_lookup (claim_of 11 21 1 none) (db_with running) ≡ ok none
unfolding claim_lookup lock_thread find_thread select_keyed
looks_up = refl

claim_replays_example :
    claim (claim_of 11 21 1 (some "key")) (λ d. d) 150 (db_with running)
    ≡ (ok (existing_claim running), db_with running)
claim_replays_example =
    claim_replays (claim_of 11 21 1 (some "key")) (λ d. d) 150 (db_with running) 10 running "key"
      (tt, tt) (omega arith) locks finds_running refl refl

claim_busy_example :
    claim (claim_of 11 21 1 none) (λ d. d) 150 (db_with running)
    ≡ (err Error.thread_busy, db_with running)
claim_busy_example =
    claim_busy (claim_of 11 21 1 none) 150 (db_with running) 10 running 200 (tt, tt) (omega arith)
      looks_up finds_running refl refl (omega arith)

is_new : any_row (same_request (claim_of 11 21 1 none)) (db_with running).runs ≡ false
unfolding any_row
is_new = refl

claim_takes_over_example : claim (claim_of 11 21 1 none) (λ d. d) 200 (db_with running) ≡ (
  ok (record { run = model (claim_row (claim_of 11 21 1 none) 200); created = true }),
  record (db_with running) {
    runs =
        claim_row (claim_of 11 21 1 none) 200
        ∷ store_run (expired_or_same running 200) (running ∷ []);
  },
)
claim_takes_over_example =
    claim_takes_over (claim_of 11 21 1 none) 200 (db_with running) 10 running 200 (tt, tt)
      (omega arith) looks_up is_new finds_running refl refl (omega arith)
