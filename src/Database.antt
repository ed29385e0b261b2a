-- ===== src/Database.antt =====
-- The tables of src/agent_runtime/memory/tables.py that runs and conversations use, as lists of rows
-- with the newest first. Times are numbers, read from the database clock.
pub mod Batch
use agent_runtime_kit.Base.{
  ℕ, String, List, [], ◌∷◌, Option, none, some, Bool, true, false, ◌==◌, if◌then◌else◌,
}
use agent_runtime_kit.Canonical.{Framework, Role, Part, Fields, RuntimeResponse}

-- `RunStatus` of src/agent_runtime/runs/models.py; the column's CHECK constraint admits no other.
pub data RunStatus : Type 0 where
  accepted running succeeded failed blocked : RunStatus

pub record ThreadRow : Type 0 where
  pub id : ℕ
  pub namespace : String
  pub external_key : Option String
  pub user_key : Option String
  pub metadata : Fields
  pub created_at : ℕ
  pub updated_at : ℕ

pub record MessageRow : Type 0 where
  pub id : ℕ
  pub thread_id : ℕ
  pub sequence : ℕ
  pub role : Role
  pub content : List Part

pub record RunRow : Type 0 where
  pub id : ℕ
  pub request_id : ℕ
  pub agent_id : String
  pub agent_version : String
  pub framework : Framework
  pub thread_id : ℕ
  pub idempotency_key : Option String
  pub request_hash : Option String
  pub status : RunStatus
  pub response : Option RuntimeResponse
  pub error_code : Option String
  pub started_at : ℕ
  pub completed_at : Option ℕ
  pub owner_token : Option ℕ
  pub lease_expires_at : Option ℕ

pub record Db : Type 0 where
  pub threads : List ThreadRow
  pub messages : List MessageRow
  pub runs : List RunRow

-- `status IN ('accepted', 'running')`
abbrev pub is_active : RunStatus → Bool
is_active RunStatus.accepted = true
is_active RunStatus.running = true
is_active _ = false

unfoldable pub find_thread : ℕ → List ThreadRow → Option ThreadRow
find_thread k [] = none
find_thread k (t ∷ ts) = if t.id == k then some t else find_thread k ts

-- `select ... where id == run_id`
unfoldable pub find_run : ℕ → List RunRow → Option RunRow
find_run k [] = none
find_run k (r ∷ rs) = if r.id == k then some r else find_run k rs

-- The flush of a changed row: it is written over the row of its id.
unfoldable pub store_run : RunRow → List RunRow → List RunRow
store_run row [] = []
store_run row (r ∷ rs) = (if r.id == row.id then row else r) ∷ store_run row rs
