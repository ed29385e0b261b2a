-- ===== src/Runs/Claim.antt =====
-- `PostgresRunStore.claim` of src/agent_runtime/runs/postgres.py.
use agent_runtime_kit.Base.{
  ℕ, String, List, [], ◌∷◌, Option, none, some, Bool, true, false, ◌==◌, ◌=ˢ◌, ◌+◌, ◌&&◌, ◌||◌,
  if◌then◌else◌, ltb,
}
use agent_runtime_kit.Canonical.{AgentDescriptor}
use agent_runtime_kit.Errors.{Result, ok, err, Error, ◌>>=◌, ◌>>◌}
use agent_runtime_kit.Database.{RunStatus, RunRow, Db, is_active, store_run}
use agent_runtime_kit.Runs.Rows.{RunClaim, model, expire, check_hash, lock_thread, commit}

-- The keyword arguments of `claim`; a lease is a finite duration.
pub record ClaimRequest : Type 0 where
  pub run_id : ℕ
  pub request_id : ℕ
  pub agent : AgentDescriptor
  pub thread_id : ℕ
  pub idempotency_key : Option String
  pub request_hash : String
  pub owner_token : ℕ
  pub lease : ℕ

-- A claim in its transaction: `started_at` is the server's time when the transaction began.
pub record Claim : Type 0 where
  pub run_id : ℕ
  pub request_id : ℕ
  pub agent : AgentDescriptor
  pub thread_id : ℕ
  pub idempotency_key : Option String
  pub request_hash : String
  pub owner_token : ℕ
  pub lease : ℕ
  pub started_at : ℕ

abbrev pub begin_claim : ℕ → ClaimRequest → Claim
begin_claim started_at c = record {
  run_id = c.run_id;
  request_id = c.request_id;
  agent = c.agent;
  thread_id = c.thread_id;
  idempotency_key = c.idempotency_key;
  request_hash = c.request_hash;
  owner_token = c.owner_token;
  lease = c.lease;
  started_at = started_at;
}

abbrev pub has_key : Option String → String → Bool
has_key none key = false
has_key (some k) key = k =ˢ key

-- `agent_id == a and idempotency_key == k`
abbrev pub keyed : String → String → RunRow → Bool
keyed agent_id key r = r.agent_id =ˢ agent_id && has_key r.idempotency_key key

-- `thread_id == t and status in _ACTIVE`
abbrev pub live_on : ℕ → RunRow → Bool
live_on thread_id r = r.thread_id == thread_id && is_active r.status

unfoldable pub select : (RunRow → Bool) → List RunRow → List RunRow
select p [] = []
select p (r ∷ rs) = let rest = select p rs in if p r then r ∷ rest else rest

-- `scalar_one_or_none`
abbrev pub one_or_none : List RunRow → Result (Option RunRow)
one_or_none [] = ok none
one_or_none (r ∷ []) = ok (some r)
one_or_none (r ∷ s ∷ rs) = err Error.multiple_results

unfoldable pub select_keyed : String → Option String → Db → Result (Option RunRow)
select_keyed agent_id none db = ok none
select_keyed agent_id (some key) db = one_or_none (select (keyed agent_id key) db.runs)

-- The row that `insert(...).values(...)` describes; the default of `started_at` is the server's.
abbrev pub claim_row : Claim → ℕ → RunRow
claim_row c now = record {
  id = c.run_id;
  request_id = c.request_id;
  agent_id = c.agent.agent_id;
  agent_version = c.agent.version;
  framework = c.agent.framework;
  thread_id = c.thread_id;
  idempotency_key = c.idempotency_key;
  request_hash = some c.request_hash;
  status = RunStatus.accepted;
  response = none;
  error_code = none;
  started_at = c.started_at;
  completed_at = none;
  owner_token = some c.owner_token;
  lease_expires_at = some (now + c.lease);
}

-- The unique indexes besides that of the key: the primary key, `request_id`, and one active run per
-- thread.
abbrev pub clashes : RunRow → RunRow → Bool
clashes row r =
    r.id == row.id
    || r.request_id == row.request_id
    || (is_active row.status && live_on row.thread_id r)

unfoldable pub any_row : (RunRow → Bool) → List RunRow → Bool
any_row p [] = false
any_row p (r ∷ rs) = p r || any_row p rs

-- The insert: none when the index of the key makes it do nothing.
unfoldable pub insert_run : RunRow → Option String → Db → Result (Option RunRow × Db)
insert_run row none db =
    if any_row (clashes row) db.runs
    then err Error.integrity_error
    else ok (some row, record db { runs = row ∷ db.runs })
insert_run row (some key) db =
    if any_row (keyed row.agent_id key) db.runs
    then ok (none, db)
    else if any_row (clashes row) db.runs
    then err Error.integrity_error
    else ok (some row, record db { runs = row ∷ db.runs })

abbrev pub existing_claim : RunRow → RunClaim
existing_claim row = record { run = model row; created = false }

-- `if active is not None: ...`, the active run of the thread being expired or respected
unfoldable pub clear_thread : Option RunRow → ℕ → Db → Result Db
clear_thread none now db = ok db
clear_thread (some active) now db = elim (expire active now) [
  | none ↦ err Error.thread_busy
  | some r ↦ ok (record db { runs = store_run r db.runs })
]

-- `scalar_one` after an insert that did nothing
abbrev pub one : Option RunRow → Result RunRow
one none = err Error.other_error
one (some r) = ok r

abbrev pub claimed : Claim → Option RunRow × Db → Result (RunClaim × Db)
claimed c (some row, db) = ok (record { run = model row; created = true }, db)
claimed c (none, db) = do
  found ← select_keyed c.agent.agent_id c.idempotency_key db
  existing ← one found
  check_hash existing c.request_hash
  ok (existing_claim existing, db)

-- The part of the transaction behind the look-up of the key.
unfoldable pub claim_slot : Claim → ℕ → Db → Result (RunClaim × Db)
claim_slot c now db = do
  active ← one_or_none (select (live_on c.thread_id) db.runs)
  db' ← clear_thread active now db
  inserted ← insert_run (claim_row c now) c.idempotency_key db'
  claimed c inserted

-- The look-ups at the start of the transaction: the thread's lock, then the key's run.
unfoldable pub claim_lookup : Claim → Db → Result (Option RunRow)
claim_lookup c db = do
  lock_thread c.thread_id db
  select_keyed c.agent.agent_id c.idempotency_key db

-- `meanwhile` is what transactions on other threads commit between the look-up of the key and the
-- insert; `now` is read once the thread's active run is locked.
abbrev pub claim_from : Claim → (Db → Db) → ℕ → Db → Result (Option RunRow) → Result RunClaim × Db
claim_from c meanwhile now db (err e) = (err e, db)
claim_from c meanwhile now db (ok (some existing)) =
    commit db (check_hash existing c.request_hash >>= λ _. ok (existing_claim existing, db))
claim_from c meanwhile now db (ok none) = commit (meanwhile db) (claim_slot c now (meanwhile db))

unfoldable pub claim : Claim → (Db → Db) → ℕ → Db → Result RunClaim × Db
claim c meanwhile now db =
    if ltb 0 c.lease
    then claim_from c meanwhile now db (claim_lookup c db)
    else (err Error.value_error, db)
