-- ===== src/Runs/Commits.antt =====
-- What the transactions of src/agent_runtime/runs/postgres.py have done when they commit.
use agent_runtime_kit.Base.{ℕ, String, List, some, true, ◌≡◌, arith, Option, ap, ◌∙◌, [], none, ◌∷◌}
use agent_runtime_kit.Errors.{ok}
use agent_runtime_kit.Database.{RunStatus, RunRow, Db, find_run, store_run, MessageRow}
use agent_runtime_kit.Runs.Rows.{expired_or_same, lock_run, RunRecord, check_owner, model, owned_by}
use agent_runtime_kit.Runs.Settle.{
  settle_row, is_settled, transition_in, moved_row, belongs, complete_in, fail_in, is_message,
  succeeded_row,
}
use agent_runtime_kit.Runs.History.{Evolves, find_run_id}
use agent_runtime_kit.Canonical.{RuntimeResponse, Message}
use agent_runtime_kit.Database.Batch.{append_message_batch}
use agent_runtime_kit.Canonical.Equality.{last_assistant}
use agent_runtime_kit.Runs.Recover.{recover_in}

pub lock_run-find :
    (k : ℕ) (db : Db) (row : RunRow)
    → lock_run k db ≡ ok row
    → (find_run row.id db.runs ≡ some row) × (row.id ≡ k)
unfolding lock_run
lock_run-find k db row h =
    let e : find_run k db.runs ≡ some row = ground arith in
    let i : row.id ≡ k = find_run_id k db.runs row e in
    (ap (λ (n : ℕ). find_run n db.runs) i ∙ e, i)

-- What a transaction of each operation has done when it commits.
pub transition_commits :
    (run_id : ℕ) (status : RunStatus) (token : ℕ) (response : Option RuntimeResponse)
    (error_code : Option String) (now : ℕ) (db : Db) (rec : RunRecord) (db' : Db)
    → transition_in run_id status token response error_code now db ≡ ok (rec, db')
    → (row : RunRow) × (lock_run run_id db ≡ ok row)
      × Evolves row (moved_row row status error_code now)
      × (db'.runs ≡ store_run (moved_row row status error_code now) db.runs)
unfolding transition_in
transition_commits run_id status token response error_code now db rec db' h = ground arith

pub complete_commits :
    (run_id token : ℕ) (messages : List Message) (response : RuntimeResponse) (now later : ℕ)
    (db : Db) (rec : RunRecord) (db' : Db)
    → complete_in run_id token messages response now later db ≡ ok (rec, db')
    → (row : RunRow) × (lock_run run_id db ≡ ok row)
      × (appended : List MessageRow × Db) × (append_message_batch later row.thread_id messages none
            db
          ≡ ok appended)
      × (row.status ≡ RunStatus.running)
      × (check_owner row token now ≡ ok tt)
      × (check_owner row token later ≡ ok tt)
      × (belongs response row ≡ true)
      × (is_message (last_assistant messages) response.message ≡ true)
      × (rec ≡ model (succeeded_row row response later))
      × (db' ≡ record appended.1 {
        runs = store_run (succeeded_row row response later) appended.1.runs;
      })
unfolding complete_in
complete_commits run_id token messages response now later db rec db' h = ground arith

pub fail_commits :
    (run_id token : ℕ) (error_code : String) (status : RunStatus) (now : ℕ) (db : Db)
    (rec : RunRecord) (db' : Db)
    → fail_in run_id token error_code status now db ≡ ok (rec, db')
    → (row : RunRow) × (lock_run run_id db ≡ ok row)
      × (owned_by row.owner_token token ≡ true)
      × (is_settled status ≡ true)
      × (rec ≡ model (settle_row row status error_code now))
      × (db' ≡ record db { runs = store_run (settle_row row status error_code now) db.runs })
unfolding fail_in
fail_commits run_id token error_code status now db rec db' h = ground arith

pub recover_commits :
    (run_id now : ℕ) (db : Db) (rec : RunRecord) (db' : Db)
    → recover_in run_id now db ≡ ok (rec, db')
    → (row : RunRow) × (lock_run run_id db ≡ ok row)
      × (rec ≡ model (expired_or_same row now))
      × (db' ≡ record db { runs = store_run (expired_or_same row now) db.runs })
unfolding recover_in
recover_commits run_id now db rec db' h = ground arith

-- The append of messages leaves the runs alone.
pub append-runs :
    (now thread_id : ℕ) (messages : List Message) (namespace : Option String) (db : Db)
    (a : List MessageRow × Db)
    → append_message_batch now thread_id messages namespace db ≡ ok a
    → a.1.runs ≡ db.runs
unfolding append_message_batch
append-runs now thread_id [] namespace db a h = ground arith
append-runs now thread_id (m ∷ ms) namespace db a h = ground arith
