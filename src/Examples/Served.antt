-- ===== src/Examples/Served.antt =====
-- An invocation of src/agent_runtime/runtime.py over the tables, from the claim to the completion.
use agent_runtime_kit.Errors.{ok, Error, err}
use agent_runtime_kit.Runtime.Action
use agent_runtime_kit.Canonical.{Fields, Role, RuntimeRequest, RuntimeResponse}
use agent_runtime_kit.Database.{Db, find_run, find_thread, store_run}
use agent_runtime_kit.Runtime.Action.{Local, Action}
use agent_runtime_kit.Runtime.Protocol.{Invoker, Runtime}
use agent_runtime_kit.Runs.Claim
use agent_runtime_kit.Runs.Recover
use agent_runtime_kit.Runs.Settle
use agent_runtime_kit.Memory.Threads
use agent_runtime_kit.Database.Batch
use agent_runtime_kit.Runtime.Execute.{
  edit_all, execute, execute_new, final_assistant, load_input, resolve_thread, run_agent,
  run_claimed,
}
use agent_runtime_kit.Runtime.Postgres.{World, postgres_stores}
use agent_runtime_kit.Examples.Tables.{helper, says, two_threads}
use agent_runtime_kit.Base.{[], false, none, refl, some, ℕ, ◌+◌, ◌∷◌, ◌≡◌}
use agent_runtime_kit.Database.Batch.{
  append_message_batch, batch_rows, find_scoped, has_message, insert_messages, last_sequence,
  touch_thread,
}
use agent_runtime_kit.Memory.Threads.{
  get_messages, get_thread, sort_by_sequence, thread_rows, transcript,
}
use agent_runtime_kit.Runs.Settle.{complete, complete_in, transition, transition_in}
use agent_runtime_kit.Runs.Recover.{get_by_idempotency}
use agent_runtime_kit.Runs.Claim.{
  Claim, any_row, claim, claim_lookup, claim_slot, clear_thread, insert_run, select_keyed,
}
use agent_runtime_kit.Runtime.Stored.{IsStored}
use agent_runtime_kit.Runtime.Composed.{execute-IsStored}
use agent_runtime_kit.Canonical.Equality.{last_assistant, same_message, same_parts}
use agent_runtime_kit.Runs.Rows.{check_owner, lock_run, lock_thread}
use agent_runtime_kit.Agents.{find_agent, get_agent, register_agent}
use agent_runtime_kit.Agents.Lookup.{get_agent-register_agent}

abbrev answering : Invoker World
answering = record {
  descriptor = helper;
  invoke = λ invocation w. (
    ok (record {
      messages = says 8 Role.assistant "hello" ∷ [];
      tool_results = [];
      usage = none;
      metadata = Fields.end;
    }),
    w,
  );
  stream = none;
}

abbrev clock : ℕ → ℕ
clock n = 100 + n

abbrev others : ℕ → Db → Db
others n db = db

abbrev runtime : Runtime World
runtime = record {
  stores = postgres_stores clock clock others;
  agents = λ agent_id. ok answering;
  hooks = λ phase messages w. (ok (λ place m. m), w);
  namespace = "app";
  timeout = 30;
  cleanup_timeout = 5;
  context_window = none;
  stream_history = false;
  closing = false;
  digest = λ request. "hash";
  encode = λ m. some 1;
  fresh_id = λ w. (10, w);
  trace_id = λ w. none;
  expired = λ w. false;
}

abbrev request : RuntimeRequest
request = record {
  request_id = 20;
  thread_id = some 1;
  user_id = none;
  messages = says 7 Role.user "hi" ∷ [];
  metadata = Fields.end;
}

abbrev start : Local World
start = record { store = record { db = two_threads; ticks = 0 }; run_id = none; emitted = [] }

abbrev response : RuntimeResponse
response = record {
  run_id = 10;
  request_id = 20;
  thread_id = 1;
  agent = helper;
  message = says 8 Role.assistant "hello";
  tool_results = [];
  usage = none;
  trace_id = none;
  metadata = Fields.end;
}

executes : (execute runtime false "helper" request (some "key") 99 start).0 ≡ ok response
unfolding execute Recover.get_by_idempotency Claim.select_keyed Claim.select execute_new
    resolve_thread Threads.get_thread Batch.find_scoped Claim.claim Claim.claim_lookup lock_thread
    find_thread Claim.claim_slot Claim.insert_run Claim.any_row run_claimed Settle.transition
    Settle.transition_in lock_run find_run check_owner store_run load_input Threads.get_messages
    Threads.transcript Threads.thread_rows Threads.sort_by_sequence run_agent final_assistant
    last_assistant Settle.complete Settle.complete_in Batch.append_message_batch Batch.batch_rows
    Batch.insert_messages Batch.has_message Batch.last_sequence Batch.touch_thread Action.◌>>=◌
    Claim.clear_thread edit_all same_message same_parts
executes = refl

execute-IsStored_example :
    IsStored response (execute runtime false "helper" request (some "key") 99 start).1.store.db
execute-IsStored_example =
    execute-IsStored runtime clock clock others false "helper" request (some "key") 99 response
      start (execute runtime false "helper" request (some "key") 99 start).1 refl
      (λ i. (executes i, (execute runtime false "helper" request (some "key") 99 start).1))

abbrev other : Invoker World
other = record answering { descriptor = record helper { agent_id = "other" } }

registers :
    register_agent other (("helper", answering) ∷ [])
    ≡ ok (("helper", answering) ∷ ("other", other) ∷ [])
unfolding register_agent find_agent
registers = refl

get_agent-register_agent_example :
    (get_agent "other" (("helper", answering) ∷ []) ≡ err Error.unknown_agent)
    × (get_agent "helper" (("helper", answering) ∷ ("other", other) ∷ [])
        ≡ get_agent "helper" (("helper", answering) ∷ []))
get_agent-register_agent_example =
    get_agent-register_agent other (("helper", answering) ∷ [])
      (("helper", answering) ∷ ("other", other) ∷ []) "helper" registers
