-- ===== src/Runs/Outcomes.antt =====
-- How `fail_if_running` and `recover` of src/agent_runtime/runs/postgres.py leave a run.
use agent_runtime_kit.Errors.{ok, Result-cases}
use agent_runtime_kit.Base.{String, arith, false, inl, inr, some, true, ℕ, ◌≡◌, ap, sym, ◌∙◌, ◌⊎◌}
use agent_runtime_kit.Database.{Db, RunRow, RunStatus, find_run, is_active, store_run}
use agent_runtime_kit.Runs.Settle.{fail_if_running, fail_in, is_settled, settle_row}
use agent_runtime_kit.Runs.Rows.{RunRecord, model, owned_by, expire}
use agent_runtime_kit.Runs.Commits.{fail_commits, lock_run-find}
use agent_runtime_kit.Runs.Fencing.{find_stored}

settle_row_lem :
    (row : RunRow) (status : RunStatus) (error_code : String) (now : ℕ)
    → is_settled status ≡ true
    → (is_active (settle_row row status error_code now).status ≡ false)
      × ((settle_row row status error_code now).id ≡ row.id)
      × ((is_active row.status ≡ true) ⊎ (settle_row row status error_code now ≡ row))
unfolding settle_row expire
settle_row_lem row status error_code now h = ground arith

-- When fail_if_running returns, the token was the run's owner's, the status that was asked for is
-- failed or blocked, and the record that it returns is the row that the table now holds, which is
-- not active; that row is the row as it was unless that was active.
pub fail_if_running_settles :
    (run_id token : ℕ) (error_code : String) (status : RunStatus) (now : ℕ) (db : Db)
    (rec : RunRecord)
    → (fail_if_running run_id token error_code status now db).0 ≡ ok rec
    → (row row' : RunRow) × (find_run run_id db.runs ≡ some row)
      × (owned_by row.owner_token token ≡ true)
      × (is_settled status ≡ true)
      × (rec ≡ model row')
      × (find_run run_id (fail_if_running run_id token error_code status now db).1.runs ≡ some row')
      × (is_active row'.status ≡ false)
      × ((is_active row.status ≡ true) ⊎ (row' ≡ row))
unfolding fail_if_running
fail_if_running_settles run_id token error_code status now db rec h =
    elim (Result-cases (fail_in run_id token error_code status now db)) [
      | inl (e, q) ↦ absurd (ground arith)
      | inr ((rec', db'), q) ↦
          let (row, locked, own, settled, e, e') =
            fail_commits run_id token error_code status now db rec' db' q in
          let (found, i) = lock_run-find run_id db row locked in
          let (dead, same, kept) = settle_row_lem row status error_code now settled in
          let runs : db'.runs ≡ store_run (settle_row row status error_code now) db.runs =
            ap (λ (d : Db). d.runs) e' in
          (
            row,
            settle_row row status error_code now,
            ap (λ (n : ℕ). find_run n db.runs) (sym i) ∙ found,
            own,
            settled,
            ground arith,
            rw (q, runs)
                (find_stored run_id row (settle_row row status error_code now) db.runs found same
                  i),
            dead,
            kept,
          )
    ]
