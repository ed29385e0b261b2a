-- ===== src/Examples/Tables.antt =====
-- Threads, runs and messages for the examples.
use agent_runtime_kit.Base.{ℕ, String, [], ◌∷◌, Option, none, some}
use agent_runtime_kit.Canonical.{
  AgentDescriptor, Fields, Framework, Message, Part, Role, RuntimeResponse,
}
use agent_runtime_kit.Database.{Db, RunRow, RunStatus, ThreadRow}
use agent_runtime_kit.Runs.Claim.{Claim}

abbrev pub helper : AgentDescriptor
helper = record {
  agent_id = "helper";
  version = "1";
  framework = Framework.native;
  capabilities = [];
}

abbrev pub thread_named : ℕ → ThreadRow
thread_named id = record {
  id = id;
  namespace = "app";
  external_key = none;
  user_key = none;
  metadata = Fields.end;
  created_at = 1;
  updated_at = 1;
}

-- a run of `helper` on thread 1, with the lease of owner 99 up to 200
abbrev pub run_in : RunStatus → RunRow
run_in status = record {
  id = 10;
  request_id = 20;
  agent_id = "helper";
  agent_version = "1";
  framework = Framework.native;
  thread_id = 1;
  idempotency_key = some "key";
  request_hash = some "hash";
  status = status;
  response = none;
  error_code = none;
  started_at = 100;
  completed_at = none;
  owner_token = some 99;
  lease_expires_at = some 200;
}

abbrev pub two_threads : Db
two_threads = record { threads = thread_named 1 ∷ thread_named 2 ∷ []; messages = []; runs = [] }

abbrev pub db_with : RunRow → Db
db_with row = record {
  threads = thread_named 1 ∷ thread_named 2 ∷ [];
  messages = [];
  runs = row ∷ [];
}

abbrev pub claim_of : ℕ → ℕ → ℕ → Option String → Claim
claim_of run_id request_id thread_id key = record {
  run_id = run_id;
  request_id = request_id;
  agent = helper;
  thread_id = thread_id;
  idempotency_key = key;
  request_hash = "hash";
  owner_token = 99;
  lease = 60;
  started_at = 99;
}

abbrev pub says : ℕ → Role → String → Message
says id role words = record { id = id; role = role; content = Part.text words ∷ [] }

abbrev pub stored_response : RuntimeResponse
stored_response = record {
  run_id = 10;
  request_id = 20;
  thread_id = 1;
  agent = helper;
  message = says 6 Role.assistant "hello";
  tool_results = [];
  usage = none;
  trace_id = none;
  metadata = Fields.end;
}
