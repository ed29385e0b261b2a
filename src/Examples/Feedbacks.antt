-- ===== src/Examples/Feedbacks.antt =====
-- Feedback of src/agent_runtime/feedback/postgres.py on a run that has succeeded.
use agent_runtime_kit.Feedback.{
  Call, FeedbackRecord, FeedbackSource, FeedbackSubmission, FeedbackTarget, FeedbackType,
  record_all, record_feedback, find_key, find_feedback, check_target, check_superseded,
  valid_target, insert_feedback,
}
use agent_runtime_kit.Feedback.Replay.{record_feedback_replays, record_feedback_conflicts}
use agent_runtime_kit.Feedback.Keys.{one_feedback_of_key}
use agent_runtime_kit.Feedback.Targets.{IsRecorded, record_feedback-IsRecorded}
use agent_runtime_kit.Feedback.Search.{Filters, search_feedback}
use agent_runtime_kit.Feedback.Pages.{IsExport, paged, search_feedback-IsExport}
use agent_runtime_kit.Canonical.{Fields, Json, RuntimeResponse, Role}
use agent_runtime_kit.Database.{RunRow, RunStatus, find_run}
use agent_runtime_kit.Examples.Tables.{run_in, helper, says}
use agent_runtime_kit.Errors.{Error, err, ok}
use agent_runtime_kit.Base.{
  List, String, [], arith, if◌then◌else◌, none, refl, some, ℕ, ◌==◌, ◌∷◌, ◌≡◌, eq_iff,
}
use agent_runtime_kit.Paging.{follow}

abbrev answered : RuntimeResponse
answered = record {
  run_id = 10;
  request_id = 20;
  thread_id = 1;
  agent = helper;
  message = says 5 Role.assistant "fine";
  tool_results = [];
  usage = none;
  trace_id = none;
  metadata = Fields.end;
}

abbrev runs : List RunRow
runs = record (run_in RunStatus.succeeded) { response = some answered } ∷ []

-- Texts of the two ids that occur.
abbrev str : ℕ → String
str n = if n == 10 then "ten" else "other"

abbrev hash : FeedbackSubmission → String
hash s = s.target_id

abbrev thumb_up : FeedbackSubmission
thumb_up = record {
  feedback_id = 7;
  idempotency_key = "retry";
  run_id = 10;
  target_type = FeedbackTarget.run;
  target_id = "ten";
  source = FeedbackSource.user;
  feedback_type = FeedbackType.thumb;
  value = Json.bool_true;
  comment = none;
  labels = [];
  metadata = Fields.end;
  supersedes_feedback_id = none;
  event_at = none;
}

abbrev thumbed : FeedbackRecord
thumbed = record { submission = thumb_up; payload_hash = "ten"; created_at = 30 }

abbrev calls : List Call
calls = record { now = 30; runs = runs; submission = thumb_up; seen = [] } ∷ []

records_thumb :
    record_feedback str hash 30 runs thumb_up [] (record_all str hash [] [])
    ≡ (ok thumbed, thumbed ∷ [])
unfolding record_all record_feedback find_key find_feedback find_run check_target check_superseded
    valid_target insert_feedback
records_thumb = refl

record_feedback_replays_example :
    record_feedback str hash 40 [] thumb_up
      (record_all str hash [] (thumbed ∷ []))
      (record_all str hash calls (record_all str hash [] (thumbed ∷ [])))
    ≡ (ok thumbed, record_all str hash calls (record_all str hash [] (thumbed ∷ [])))
record_feedback_replays_example =
    record_feedback_replays str hash 30 40 runs [] thumb_up [] [] [] calls thumbed (thumbed ∷ [])
      records_thumb

finds_thumb : find_key "retry" (thumbed ∷ []) ≡ some thumbed
unfolding find_key
finds_thumb = refl

record_feedback_conflicts_example :
    record_feedback str hash 40 runs
      (record thumb_up { target_id = "other" })
      (record_all str hash [] (thumbed ∷ []))
      (record_all str hash [] (record_all str hash [] (thumbed ∷ [])))
    ≡ (
      err Error.idempotency_conflict,
      record_all str hash [] (record_all str hash [] (thumbed ∷ [])),
    )
record_feedback_conflicts_example =
    record_feedback_conflicts str hash 40 runs (record thumb_up { target_id = "other" })
      (thumbed ∷ []) [] [] thumbed finds_thumb (ground (arith, eq_iff "ten" "other"))

record_feedback-IsRecorded_example :
    IsRecorded str hash 30 runs thumb_up [] (record_all str hash [] []) thumbed (thumbed ∷ [])
record_feedback-IsRecorded_example =
    record_feedback-IsRecorded str hash 30 runs thumb_up [] (record_all str hash [] []) thumbed
      (thumbed ∷ []) records_thumb

finds_recorded : find_feedback 7 (record_all str hash calls []) ≡ some thumbed
unfolding record_all record_feedback find_key find_feedback find_run check_target check_superseded
    valid_target insert_feedback
finds_recorded = refl

one_feedback_of_key_example : thumbed ≡ thumbed
one_feedback_of_key_example =
    one_feedback_of_key str hash calls 7 7 thumbed thumbed finds_recorded finds_recorded refl

abbrev of_users : Filters
of_users = record {
  run_id = none;
  target_type = none;
  target_id = none;
  source = some FeedbackSource.user;
  feedback_type = none;
  created_from = none;
  created_to = none;
}

abbrev two_rows : List FeedbackRecord
two_rows = record thumbed { created_at = 50 } ∷ thumbed ∷ []

search_feedback-IsExport_example :
    (records : List FeedbackRecord) × (follow 3
        (λ o. paged (search_feedback of_users 1 o two_rows))
        0
      ≡ some records)
    × IsExport of_users two_rows records
search_feedback-IsExport_example =
    search_feedback-IsExport of_users 1 3 two_rows (omega arith) (omega arith) (omega arith)
