-- ===== src/Runs/Rows.antt =====
-- The helpers on rows of src/agent_runtime/runs/postgres.py, and the records and claims of
-- src/agent_runtime/runs/models.py.
use agent_runtime_kit.Base.{
  ℕ, String, [], Option, none, some, Bool, true, false, ◌==◌, leb, not, ◌&&◌, ◌||◌, if◌then◌else◌,
}
use agent_runtime_kit.Canonical.{AgentDescriptor, RuntimeResponse}
use agent_runtime_kit.Canonical.Equality.{same_text?}
use agent_runtime_kit.Errors.{Result, ok, err, Error, ◌>>=◌, raise_if}
use agent_runtime_kit.Database.{RunStatus, RunRow, Db, is_active, find_run, find_thread, store_run}
use agent_runtime_kit.Database.Batch.{require_row}

pub record RunRecord : Type 0 where
  pub id : ℕ
  pub request_id : ℕ
  pub agent : AgentDescriptor
  pub thread_id : ℕ
  pub idempotency_key : Option String
  pub request_hash : Option String
  pub status : RunStatus
  pub response : Option RuntimeResponse
  pub error_code : Option String
  pub started_at : ℕ
  pub completed_at : Option ℕ
  pub owner_token : Option ℕ
  pub lease_expires_at : Option ℕ

pub record RunClaim : Type 0 where
  pub run : RunRecord
  pub created : Bool

-- `_model`
abbrev pub model : RunRow → RunRecord
model row = record {
  id = row.id;
  request_id = row.request_id;
  agent = record {
    agent_id = row.agent_id;
    version = row.agent_version;
    framework = row.framework;
    capabilities = [];
  };
  thread_id = row.thread_id;
  idempotency_key = row.idempotency_key;
  request_hash = row.request_hash;
  status = row.status;
  response = row.response;
  error_code = row.error_code;
  started_at = row.started_at;
  completed_at = row.completed_at;
  owner_token = row.owner_token;
  lease_expires_at = row.lease_expires_at;
}

-- `_TRANSITIONS`: whether the second status is in the set of the first
abbrev pub may_transition : RunStatus → RunStatus → Bool
may_transition RunStatus.accepted RunStatus.running = true
may_transition RunStatus.running RunStatus.failed = true
may_transition RunStatus.running RunStatus.blocked = true
may_transition _ _ = false

-- `lease_expires_at is None or lease_expires_at <= now`, by the value when there is none
abbrev pub lapsed : Bool → Option ℕ → ℕ → Bool
lapsed when_none none now = when_none
lapsed when_none (some t) now = leb t now

-- `_expire`: none when it returns False, and then the row is unchanged
unfoldable pub expire : RunRow → ℕ → Option RunRow
expire row now =
    if is_active row.status && lapsed false row.lease_expires_at now
    then some (record row {
      status = RunStatus.failed;
      error_code = some "owner_lease_expired";
      completed_at = some now;
      response = none;
    })
    else none

-- the row after `_expire`, expired or not
abbrev pub expired_or_same : RunRow → ℕ → RunRow
expired_or_same row now = elim (expire row now) [ none ↦ row | some r ↦ r ]

abbrev pub owned_by : Option ℕ → ℕ → Bool
owned_by none token = false
owned_by (some t) token = t == token

-- `_check_owner`
unfoldable pub check_owner : RunRow → ℕ → ℕ → Result (Unit {0})
check_owner row token now =
    raise_if
      (not (owned_by row.owner_token token)
        || (is_active row.status && lapsed true row.lease_expires_at now))
      Error.run_ownership_lost

-- `_check_hash`
unfoldable pub check_hash : RunRow → String → Result (Unit {0})
check_hash row hash =
    raise_if (not (same_text? row.request_hash (some hash))) Error.idempotency_conflict

-- `_lock_thread`
unfoldable pub lock_thread : ℕ → Db → Result (Unit {0})
lock_thread thread_id db =
    require_row (find_thread thread_id db.threads) Error.thread_not_found >>= λ _. ok tt

-- `_lock_run`
unfoldable pub lock_run : ℕ → Db → Result RunRow
lock_run run_id db = do
  row ← require_row (find_run run_id db.runs) Error.run_not_found
  lock_thread row.thread_id db >>= λ _. ok row

-- What a transaction leaves: an error rolls its writes back.
abbrev pub commit {ℓ} : {A : Type ℓ} → Db → Result (A × Db) → Result A × Db
commit db (ok (a, db')) = (ok a, db')
commit db (err e) = (err e, db)

-- `flush` of the one changed row, and the record that is returned
abbrev pub flush : RunRow → Db → RunRecord × Db
flush row db = (model row, record db { runs = store_run row db.runs })
