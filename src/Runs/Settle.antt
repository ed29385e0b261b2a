-- ===== src/Runs/Settle.antt =====
-- `transition`, `complete` and `fail_if_running` of src/agent_runtime/runs/postgres.py.
use agent_runtime_kit.Base.{
  ℕ, String, List, Option, none, some, Bool, true, false, ◌==◌, ◌=ˢ◌, not, ◌&&◌, if◌then◌else◌,
}
use agent_runtime_kit.Canonical.{Message, RuntimeResponse}
use agent_runtime_kit.Canonical.Equality.{same_message, same_framework, last_assistant}
use agent_runtime_kit.Errors.{Result, ok, Error, ◌>>=◌, ◌>>◌, raise_if}
use agent_runtime_kit.Database.{RunStatus, RunRow, Db, is_active}
use agent_runtime_kit.Database.Batch.{append_message_batch}
use agent_runtime_kit.Runs.Rows.{
  RunRecord, may_transition, expire, owned_by, check_owner, lock_run, commit, flush,
}

abbrev pub is_succeeded : RunStatus → Bool
is_succeeded RunStatus.succeeded = true
is_succeeded _ = false

-- `status in {"failed", "blocked"}`
abbrev pub is_settled : RunStatus → Bool
is_settled RunStatus.failed = true
is_settled RunStatus.blocked = true
is_settled _ = false

abbrev pub is_running : RunStatus → Bool
is_running RunStatus.running = true
is_running _ = false

abbrev pub is_some {ℓ} : {A : Type ℓ} → Option A → Bool
is_some none = false
is_some (some _) = true

-- The row that `transition` stores.
abbrev pub moved_row : RunRow → RunStatus → Option String → ℕ → RunRow
moved_row row status error_code now = record row {
  status = status;
  error_code = error_code;
  completed_at = if is_settled status then some now else row.completed_at;
}

-- Of each operation, what happens inside its transaction.
unfoldable pub transition_in :
    ℕ → RunStatus → ℕ → Option RuntimeResponse → Option String → ℕ → Db → Result (RunRecord × Db)
transition_in run_id status owner_token response error_code now db = do
  raise_if (is_succeeded status) Error.invalid_run_transition
  row ← lock_run run_id db
  check_owner row owner_token now
  raise_if (not (may_transition row.status status)) Error.invalid_run_transition
  raise_if (is_some response) Error.invalid_run_transition
  ok (flush (moved_row row status error_code now) db)

unfoldable pub transition :
    ℕ → RunStatus → ℕ → Option RuntimeResponse → Option String → ℕ → Db → Result RunRecord × Db
transition run_id status owner_token response error_code now db =
    commit db (transition_in run_id status owner_token response error_code now db)

-- whether the response is one for the run of the row
abbrev pub belongs : RuntimeResponse → RunRow → Bool
belongs response row =
    response.run_id == row.id
    && response.request_id == row.request_id
    && response.thread_id == row.thread_id
    && response.agent.agent_id =ˢ row.agent_id
    && response.agent.version =ˢ row.agent_version
    && same_framework response.agent.framework row.framework

-- `assistant == response.message`, for the last assistant message if there is one
abbrev pub is_message : Option Message → Message → Bool
is_message none m = false
is_message (some a) m = same_message a m

-- The row that `complete` stores.
abbrev pub succeeded_row : RunRow → RuntimeResponse → ℕ → RunRow
succeeded_row row response now = record row {
  status = RunStatus.succeeded;
  response = some response;
  error_code = none;
  completed_at = some now;
}

-- The clock is read before the checks (`now`) and again behind the message writes (`later`).
unfoldable pub complete_in :
    ℕ → ℕ → List Message → RuntimeResponse → ℕ → ℕ → Db → Result (RunRecord × Db)
complete_in run_id owner_token messages response now later db = do
  row ← lock_run run_id db
  check_owner row owner_token now
  raise_if (not (is_running row.status)) Error.invalid_run_transition
  raise_if (not (belongs response row)) Error.invalid_run_transition
  raise_if (not (is_message (last_assistant messages) response.message))
      Error.invalid_run_transition
  appended ← append_message_batch later row.thread_id messages none db
  check_owner row owner_token later
  ok (flush (succeeded_row row response later) appended.1)

unfoldable pub complete :
    ℕ → ℕ → List Message → RuntimeResponse → ℕ → ℕ → Db → Result RunRecord × Db
complete run_id owner_token messages response now later db =
    commit db (complete_in run_id owner_token messages response now later db)

-- The row after `fail_if_running`: expired, settled with the given error, or left alone.
unfoldable pub settle_row : RunRow → RunStatus → String → ℕ → RunRow
settle_row row status error_code now =
    if is_active row.status
    then elim (expire row now) [
      | some expired ↦ expired
      | none ↦ record row {
        status = status;
        error_code = some error_code;
        completed_at = some now;
        response = none;
      }
    ]
    else row

unfoldable pub fail_in : ℕ → ℕ → String → RunStatus → ℕ → Db → Result (RunRecord × Db)
fail_in run_id owner_token error_code status now db = do
  raise_if (not (is_settled status)) Error.invalid_run_transition
  row ← lock_run run_id db
  raise_if (not (owned_by row.owner_token owner_token)) Error.run_ownership_lost
  ok (flush (settle_row row status error_code now) db)

unfoldable pub fail_if_running : ℕ → ℕ → String → RunStatus → ℕ → Db → Result RunRecord × Db
fail_if_running run_id owner_token error_code status now db =
    commit db (fail_in run_id owner_token error_code status now db)
