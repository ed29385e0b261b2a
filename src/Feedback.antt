-- ===== src/Feedback.antt =====
-- Feedback of src/agent_runtime/feedback/postgres.py and src/agent_runtime/feedback/models.py: the
-- append-only table as a list of rows with the newest first. The text of a UUID and the hash of a
-- submission's payload are parameters.
pub mod Replay
pub mod Keys
pub mod Targets
pub mod Search
pub mod Pages
use agent_runtime_kit.Canonical.{Json, Fields, RuntimeResponse, ToolResult}
use agent_runtime_kit.Database.{RunRow, RunStatus, find_run}
use agent_runtime_kit.Native.Agreement.{tool_results}
use agent_runtime_kit.Errors.{Error, Result, err, ok, raise_if, ◌>>◌}
use agent_runtime_kit.Base.{
  Bool, List, Option, String, [], false, if◌then◌else◌, none, not, some, true, ℕ, ◌&&◌, ◌==◌, ◌=ˢ◌,
  ◌||◌, ◌∷◌,
}
use agent_runtime_kit.Memory.Records.{inserted}

pub data FeedbackTarget : Type 0 where
  run message tool_result : FeedbackTarget

pub data FeedbackSource : Type 0 where
  user reviewer system : FeedbackSource

pub data FeedbackType : Type 0 where
  thumb rating correction comment label : FeedbackType

pub record FeedbackSubmission : Type 0 where
  pub feedback_id : ℕ
  pub idempotency_key : String
  pub run_id : ℕ
  pub target_type : FeedbackTarget
  pub target_id : String
  pub source : FeedbackSource
  pub feedback_type : FeedbackType
  pub value : Json
  pub comment : Option String
  pub labels : List String
  pub metadata : Fields
  pub supersedes_feedback_id : Option ℕ
  pub event_at : Option ℕ

-- A row, and the model that is returned for it: the submission with two columns more.
pub record FeedbackRecord : Type 0 where
  pub submission : FeedbackSubmission
  pub payload_hash : String
  pub created_at : ℕ

abbrev pub same_target : FeedbackTarget → FeedbackTarget → Bool
same_target FeedbackTarget.run FeedbackTarget.run = true
same_target FeedbackTarget.message FeedbackTarget.message = true
same_target FeedbackTarget.tool_result FeedbackTarget.tool_result = true
same_target _ _ = false

-- The rows of an idempotency key, and of an id; unique indexes let each have one at most.
unfoldable pub find_key : String → List FeedbackRecord → Option FeedbackRecord
find_key key [] = none
find_key key (r ∷ rs) = if r.submission.idempotency_key =ˢ key then some r else find_key key rs

unfoldable pub find_feedback : ℕ → List FeedbackRecord → Option FeedbackRecord
find_feedback id [] = none
find_feedback id (r ∷ rs) = if r.submission.feedback_id == id then some r else find_feedback id rs

-- The condition on `superseded`, negated.
abbrev pub same_subject : FeedbackSubmission → FeedbackSubmission → Bool
same_subject s old =
    old.run_id == s.run_id
    && same_target old.target_type s.target_type
    && old.target_id =ˢ s.target_id

unfoldable pub check_superseded :
    FeedbackSubmission → Option ℕ → List FeedbackRecord → Result (Unit {0})
check_superseded s none table = ok tt
check_superseded s (some id) table = elim (find_feedback id table) [
  | none ↦ err Error.invalid_feedback_target
  | some old ↦ raise_if (not (same_subject s old.submission)) Error.invalid_feedback_target
]

module _ (str : ℕ → String) where
  -- `FeedbackSubmission.validate_target`
  unfoldable pub validate_target : FeedbackSubmission → Result FeedbackSubmission
  validate_target s =
      raise_if (same_target s.target_type FeedbackTarget.run && not (s.target_id =ˢ str s.run_id))
        Error.validation_error
      >> ok s

  -- `target_id in {str(item.id) for item in response.tool_results}`
  unfoldable pub among_results : String → List ToolResult → Bool
  among_results id [] = false
  among_results id (t ∷ ts) = str t.id =ˢ id || among_results id ts

  unfoldable pub valid_target : FeedbackTarget → String → RunRow → RuntimeResponse → Bool
  valid_target FeedbackTarget.run id row response = id =ˢ str row.id
  valid_target FeedbackTarget.message id row response = id =ˢ str response.message.id
  valid_target FeedbackTarget.tool_result id row response = among_results id response.tool_results

  abbrev pub has_succeeded : RunStatus → Bool
  has_succeeded RunStatus.succeeded = true
  has_succeeded _ = false

  abbrev pub check_response :
      RunRow → FeedbackSubmission → Option RuntimeResponse → Result (Unit {0})
  check_response row s none = err Error.invalid_feedback_target
  check_response row s (some response) =
      raise_if (not (has_succeeded row.status)) Error.invalid_feedback_target
      >> raise_if (not (valid_target s.target_type s.target_id row response))
          Error.invalid_feedback_target

  -- `_validate_target`
  unfoldable pub check_target : Option RunRow → FeedbackSubmission → Result (Unit {0})
  check_target none s = err Error.invalid_feedback_target
  check_target (some row) s = check_response row s row.response

module _ (hash : FeedbackSubmission → String) where
  -- The comparison of the hashes, and `_model(existing)`.
  abbrev pub check_payload : FeedbackSubmission → FeedbackRecord → Result FeedbackRecord
  check_payload s existing =
      raise_if (not (existing.payload_hash =ˢ hash s)) Error.idempotency_conflict >> ok existing

  abbrev pub new_feedback : ℕ → FeedbackSubmission → FeedbackRecord
  new_feedback now s = record { submission = s; payload_hash = hash s; created_at = now }

  abbrev pub insert_new :
      ℕ
      → FeedbackSubmission
      → Option FeedbackRecord
      → List FeedbackRecord
      → Result FeedbackRecord × List FeedbackRecord
  insert_new now s (some clash) table = (err Error.integrity_error, table)
  insert_new now s none table = (ok (new_feedback now s), new_feedback now s ∷ table)

  -- The insert, with `on_conflict_do_nothing` for the key, and the look-up behind it.
  unfoldable pub insert_feedback :
      ℕ → FeedbackSubmission → List FeedbackRecord → Result FeedbackRecord × List FeedbackRecord
  insert_feedback now s table = elim (find_key s.idempotency_key table) [
    | some existing ↦ (check_payload s existing, table)
    | none ↦ insert_new now s (find_feedback s.feedback_id table) table
  ]

abbrev pub behind_checks :
    Result (Unit {0})
    → List FeedbackRecord
    → Result FeedbackRecord × List FeedbackRecord
    → Result FeedbackRecord × List FeedbackRecord
behind_checks (err e) table inserted = (err e, table)
behind_checks (ok _) table inserted = inserted

-- `_record`: `seen` is the table that its first statements read and `table` the one that the insert
-- meets, with what other transactions have committed meanwhile; `now` is the server's clock.
unfoldable pub record_feedback :
    (ℕ → String)
    → (FeedbackSubmission → String)
    → ℕ
    → List RunRow
    → FeedbackSubmission
    → List FeedbackRecord
    → List FeedbackRecord
    → Result FeedbackRecord × List FeedbackRecord
record_feedback str hash now runs s seen table = elim (find_key s.idempotency_key seen) [
  | some existing ↦ (check_payload hash s existing, table)
  | none ↦
      behind_checks
        (check_target str (find_run s.run_id runs) s
          >> check_superseded s s.supersedes_feedback_id seen)
        table (insert_feedback hash now s table)
]

-- A call of `record`, with what it reads.
pub record Call : Type 0 where
  pub now : ℕ
  pub runs : List RunRow
  pub submission : FeedbackSubmission
  pub seen : List FeedbackRecord

-- Calls one after another, in the order of their inserts.
unfoldable pub record_all :
    (ℕ → String)
    → (FeedbackSubmission → String)
    → List Call
    → List FeedbackRecord
    → List FeedbackRecord
record_all str hash [] table = table
record_all str hash (c ∷ cs) table =
    record_all str hash cs (record_feedback str hash c.now c.runs c.submission c.seen table).1
