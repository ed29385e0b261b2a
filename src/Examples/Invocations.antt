-- ===== src/Examples/Invocations.antt =====
-- Invocations of src/agent_runtime/runtime.py over stores that answer in fixed ways.
use agent_runtime_kit.Errors.{ok, err, Error}
use agent_runtime_kit.Runtime.Action.{Local}
use agent_runtime_kit.Canonical.{Fields, Role, RuntimeRequest}
use agent_runtime_kit.Base.{Option, String, [], false, none, refl, some, true, ℕ, ◌+◌, ◌∷◌, ◌≡◌}
use agent_runtime_kit.Database.{RunStatus}
use agent_runtime_kit.Runtime.Protocol.{Invoker, Runtime, Stores}
use agent_runtime_kit.Runtime.Replay.{execute_conflicts, execute_replays}
use agent_runtime_kit.Runtime.Execute.{execute, started_event}
use agent_runtime_kit.Runs.Rows.{RunRecord, model}
use agent_runtime_kit.Examples.Tables.{helper, run_in, says, stored_response}

abbrev old_run : RunRecord
old_run = record (model (run_in RunStatus.running)) {
  status = RunStatus.succeeded;
  response = some stored_response;
}

-- Stores in which every key names the old run, and a thread is always busy. The state counts the
-- identifiers that were made.
abbrev stores : Stores ℕ
stores = record {
  get_by_idempotency = λ agent_id key s. (ok (some old_run), s);
  claim = λ c s. (err Error.thread_busy, s);
  transition = λ run_id status token s. (err Error.run_not_found, s);
  complete = λ run_id token messages response s. (err Error.run_not_found, s);
  fail_if_running = λ run_id token error_code status s. (err Error.run_not_found, s);
  recover = λ run_id s. (err Error.run_not_found, s);
  create_thread = λ namespace user_key s. (ok 1, s);
  get_thread = λ thread_id namespace s. (ok (some thread_id), s);
  get_messages = λ thread_id namespace s. (ok [], s);
  stream_messages = λ thread_id namespace s. ([], s);
}

abbrev invoker : Invoker ℕ
invoker = record {
  descriptor = helper;
  invoke = λ invocation s. (err Error.agent_invocation_failed, s);
  stream = none;
}

abbrev runtime : Runtime ℕ
runtime = record {
  stores = stores;
  agents = λ agent_id. ok invoker;
  hooks = λ phase messages s. (ok (λ place m. m), s);
  namespace = "app";
  timeout = 30;
  cleanup_timeout = 5;
  context_window = none;
  stream_history = false;
  closing = false;
  digest = λ request. elim request.user_id [ none ↦ "hash" | some _ ↦ "other" ];
  encode = λ m. some 1;
  fresh_id = λ s. (s, s + 1);
  trace_id = λ s. none;
  expired = λ s. false;
}

abbrev request_by : Option String → RuntimeRequest
request_by user_id = record {
  request_id = 20;
  thread_id = none;
  user_id = user_id;
  messages = says 5 Role.user "hi" ∷ [];
  metadata = Fields.end;
}

abbrev at_start : Local ℕ
at_start = record { store = 40; run_id = none; emitted = [] }

execute_replays_example :
    execute runtime true "helper" (request_by none) (some "key") 99 at_start
    ≡ (ok stored_response, record at_start { emitted = started_event stored_response ∷ [] })
execute_replays_example =
    execute_replays runtime true "helper" "key" (request_by none) 99 at_start invoker old_run
      stored_response 40 40 1 refl refl refl refl refl refl

execute_conflicts_example :
    execute runtime true "helper" (request_by (some "me")) (some "key") 99 at_start
    ≡ (err Error.idempotency_conflict, at_start)
execute_conflicts_example =
    execute_conflicts runtime true "helper" "key" (request_by (some "me")) 99 at_start invoker
      old_run 40 40 1 refl refl refl refl

-- An invocation without a key whose claim finds the thread busy, and whose run turns out to have
-- succeeded.
abbrev succeeding : Runtime ℕ
succeeding = record runtime {
  stores = record stores {
    fail_if_running = λ run_id token error_code status s. (
      ok (record old_run { status = RunStatus.succeeded; response = some stored_response }),
      s + 1,
    );
  };
}

-- The owner's part of an invocation whose agent answers.
abbrev finishing : Runtime ℕ
finishing = record runtime {
  stores = record stores {
    transition = λ run_id status token s. (ok old_run, s + 1);
    complete = λ run_id token messages response s. (ok old_run, s + 10);
  };
}

abbrev answering : Invoker ℕ
answering = record invoker {
  invoke = λ invocation s. (
    ok (record {
      messages = says 6 Role.assistant "hello" ∷ [];
      tool_results = [];
      usage = none;
      metadata = Fields.end;
    }),
    s,
  );
}
