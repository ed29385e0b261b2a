-- ===== src/Examples/Ownership.antt =====
-- `complete` and `fail_if_running` of src/agent_runtime/runs/postgres.py on a running run.
use agent_runtime_kit.Errors.{ok, err, Error}
use agent_runtime_kit.Canonical.{Message, Role, Fields, Json}
use agent_runtime_kit.Base.{List, [], false, inr, refl, some, true, ◌∷◌, ◌≡◌, ◌⊎◌}
use agent_runtime_kit.Database.{RunRow, RunStatus, find_run, find_thread, is_active}
use agent_runtime_kit.Database.Batch.{
  append_message_batch, batch_rows, find_scoped, has_message, insert_messages, last_sequence,
  touch_thread,
}
use agent_runtime_kit.Runs.Settle.{
  belongs, complete, complete_in, fail_if_running, fail_in, is_settled, settle_row, succeeded_row,
}
use agent_runtime_kit.Canonical.Equality.{
  last_assistant, same_message, same_parts, field_count, field_of, fields_in, same_json,
}
use agent_runtime_kit.Runs.Outcomes.{fail_if_running_settles}
use agent_runtime_kit.Runs.Fencing.{complete_fenced, complete_returns, holds}
use agent_runtime_kit.Runs.Rows.{check_owner, expire, lock_run, lock_thread, model, owned_by}
use agent_runtime_kit.Examples.Tables.{db_with, run_in, says, stored_response}

abbrev running : RunRow
running = run_in RunStatus.running

abbrev turn : List Message
turn = says 5 Role.user "hi" ∷ says 6 Role.assistant "hello" ∷ []

finds_running : find_run 10 (db_with running).runs ≡ some running
unfolding find_run
finds_running = refl

completes :
    (complete 10 99 turn stored_response 150 160 (db_with running)).0
    ≡ ok (model (succeeded_row running stored_response 160))
unfolding complete complete_in lock_run lock_thread find_thread find_run check_owner last_assistant
    append_message_batch batch_rows last_sequence insert_messages has_message touch_thread
    find_scoped same_message same_parts
completes = refl

-- Arguments that Python takes for equal, with their keys in another order and 1 as 1.0.
reordered :
    same_json
      (Json.object (Fields.field "a" (Json.number "1" "1") (Fields.field "b" Json.null Fields.end)))
      (Json.object
        (Fields.field "b" Json.null (Fields.field "a" (Json.number "1.0" "1") Fields.end)))
    ≡ true
unfolding same_json fields_in field_of field_count
reordered = refl

complete_returns_example :
    (row : RunRow) × (find_run 10 (db_with running).runs ≡ some row)
    × (row.status ≡ RunStatus.running)
    × (holds row 99 150 ≡ true)
    × (holds row 99 160 ≡ true)
    × (belongs stored_response row ≡ true)
    × ((a : Message) × (last_assistant turn ≡ some a)
        × (same_message a stored_response.message ≡ true))
    × (model (succeeded_row running stored_response 160)
        ≡ model (succeeded_row row stored_response 160))
    × (find_run 10 (complete 10 99 turn stored_response 150 160 (db_with running)).1.runs
        ≡ some (succeeded_row row stored_response 160))
complete_returns_example =
    complete_returns 10 99 turn stored_response 150 160 (db_with running)
      (model (succeeded_row running stored_response 160)) completes

-- The lease has lapsed while the messages were written.
complete_fenced_example :
    (e : Error) × (complete 10 99 turn stored_response 150 200 (db_with running)
      ≡ (err e, db_with running))
complete_fenced_example =
    complete_fenced 10 99 turn stored_response 150 200 (db_with running) running finds_running
      (inr refl)

abbrev stopped : RunRow
stopped = record running {
  status = RunStatus.blocked;
  error_code = some "guardrail_blocked";
  completed_at = some 150;
}

stops :
    (fail_if_running 10 99 "guardrail_blocked" RunStatus.blocked 150 (db_with running)).0
    ≡ ok (model stopped)
unfolding fail_if_running fail_in lock_run lock_thread find_thread find_run settle_row expire
stops = refl

fail_if_running_settles_example :
    (row row' : RunRow) × (find_run 10 (db_with running).runs ≡ some row)
    × (owned_by row.owner_token 99 ≡ true)
    × (is_settled RunStatus.blocked ≡ true)
    × (model stopped ≡ model row')
    × (find_run 10
          (fail_if_running 10 99 "guardrail_blocked" RunStatus.blocked 150 (db_with running)).1.runs
        ≡ some row')
    × (is_active row'.status ≡ false)
    × ((is_active row.status ≡ true) ⊎ (row' ≡ row))
fail_if_running_settles_example =
    fail_if_running_settles 10 99 "guardrail_blocked" RunStatus.blocked 150 (db_with running)
      (model stopped) stops
