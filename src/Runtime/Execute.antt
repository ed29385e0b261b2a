-- ===== src/Runtime/Execute.antt =====
-- `_execute` of src/agent_runtime/runtime.py and the helpers that it calls.
use agent_runtime_kit.Context.Select.{select}
use agent_runtime_kit.Errors.{ok, err, Error, Result}
use agent_runtime_kit.Canonical.{
  AgentDescriptor, InvocationOutput, Message, RuntimeRequest, RuntimeResponse,
}
use agent_runtime_kit.Native.Loop.{AgentEvent, output}
use agent_runtime_kit.Base.{
  Bool, List, Option, String, [], false, if◌then◌else◌, map, none, not, some, true, ℕ, ◌&&◌, ◌++◌,
  ◌+◌, ◌∷◌, length, ◌-◌,
}
use agent_runtime_kit.Streams.{Stream, checked_stream}
use agent_runtime_kit.Database.{RunStatus, is_active}
use agent_runtime_kit.Context.Exchange.{ContextSelection}
use agent_runtime_kit.Context.Stream.{select_stream}
use agent_runtime_kit.Runs.Claim.{claimed}
use agent_runtime_kit.Runs.Settle.{is_succeeded}
use agent_runtime_kit.Runtime.Protocol.{Invocation, Invoker, Phase, Runtime}
use agent_runtime_kit.Runtime.Action.{
  ◌>>=◌, ◌>>◌, Action, RuntimeEvent, call, lift, pure, raise, set_run,
}
use agent_runtime_kit.Canonical.Equality.{last_assistant, same_text?}
use agent_runtime_kit.Runs.Rows.{RunRecord}
use agent_runtime_kit.Tools.{finished}

-- `request_hash`: the request's and the messages' own ids are left out of the payload.
abbrev pub hash_payload : RuntimeRequest → RuntimeRequest
hash_payload r = record r {
  request_id = 0;
  messages = map (λ (m : Message). record m { id = 0 }) r.messages;
}

-- `_replay`
unfoldable pub replay : RunRecord → String → Result RuntimeResponse
replay run hash =
    if not (same_text? run.request_hash (some hash))
    then err Error.idempotency_conflict
    else if is_active run.status
    then err Error.run_in_progress
    else if is_succeeded run.status
    then elim run.response [ none ↦ err Error.idempotent_run_unavailable | some r ↦ ok r ]
    else err Error.idempotent_run_unavailable

-- `_final_assistant`
unfoldable pub final_assistant : List Message → Result Message
final_assistant messages = elim (last_assistant messages) [
  | none ↦ err Error.value_error
  | some m ↦ ok m
]

-- A list of messages as hooks have left it; the first is at the place that is given.
unfoldable pub edit_all : (ℕ → Message → Message) → ℕ → List Message → List Message
edit_all edit n [] = []
edit_all edit n (m ∷ ms) = edit n m ∷ edit_all edit (n + 1) ms

-- `_started`
abbrev pub started_event : RuntimeResponse → RuntimeEvent
started_event r = RuntimeEvent.started r.run_id r.request_id r.thread_id r.agent

module _ {S : Type 0} (runtime : Runtime S) (streaming : Bool) where
  open runtime use {stores}

  -- `if emit is not None: await emit(event)`
  abbrev pub emit_event : RuntimeEvent → Action S (Unit {0})
  emit_event e l = (ok tt, if streaming then record l { emitted = l.emitted ++ e ∷ [] } else l)

  -- `_require_scoped_thread`
  unfoldable pub require_scoped_thread : ℕ → Action S (Unit {0})
  require_scoped_thread thread_id = do
    thread ← call (stores.get_thread thread_id runtime.namespace)
    elim thread [ none ↦ raise Error.thread_not_found | some _ ↦ pure tt ]

  -- the answer from an earlier run, and the event that starts its stream
  unfoldable pub answer_from : RunRecord → String → Action S RuntimeResponse
  answer_from run hash = do
    response ← lift (replay run hash)
    emit_event (started_event response)
    pure response

  abbrev pub recover_if : Bool → RunRecord → Action S RunRecord
  recover_if active run = if active then call (stores.recover run.id) else pure run

  -- The branch in which the key already names a run.
  unfoldable pub replay_previous : RunRecord → String → Action S RuntimeResponse
  replay_previous previous hash = do
    require_scoped_thread previous.thread_id
    run ←
        recover_if (same_text? previous.request_hash (some hash) && is_active previous.status)
          previous
    answer_from run hash

  -- The thread of the request, created or looked up in the namespace.
  unfoldable pub resolve_thread : RuntimeRequest → Action S ℕ
  resolve_thread request = elim request.thread_id [
    | none ↦ call (stores.create_thread runtime.namespace request.user_id)
    | some thread_id ↦ do
      thread ← call (stores.get_thread thread_id runtime.namespace)
      elim thread [ none ↦ raise Error.thread_not_found | some found ↦ pure found ]
  ]

  -- The branch in which the claim has found another run of the key.
  unfoldable pub replay_claimed : RunRecord → String → Action S RuntimeResponse
  replay_claimed run hash = do
    set_run none
    require_scoped_thread run.thread_id
    recovered ← recover_if (is_active run.status) run
    answer_from recovered hash

  abbrev pub selected_messages : Result ContextSelection → Result (List Message)
  selected_messages (ok s) = ok s.messages
  selected_messages (err e) = err e

  -- `input_messages`: streamed and selected, or read whole and perhaps selected.
  unfoldable pub load_input : ℕ → List Message → Action S (List Message)
  load_input thread_id current = elim runtime.context_window [
    | none ↦ do
      history ← call (stores.get_messages thread_id runtime.namespace)
      pure (history ++ current)
    | some max_bytes ↦
        if runtime.stream_history
        then (λ l.
            let (source, s) = stores.stream_messages thread_id runtime.namespace l.store in
            (
              selected_messages (select_stream runtime.encode max_bytes source current),
              record l { store = s },
            ))
        else do
          history ← call (stores.get_messages thread_id runtime.namespace)
          lift (selected_messages (select max_bytes history current runtime.encode))
  ]

  -- The events of a checked agent stream: what is emitted, and the output.
  unfoldable pub forwarded : List AgentEvent → List RuntimeEvent
  forwarded [] = []
  forwarded (AgentEvent.text_delta d ∷ es) = RuntimeEvent.text_delta d ∷ forwarded es
  forwarded (AgentEvent.tool_result r ∷ es) = RuntimeEvent.tool_result r ∷ forwarded es
  forwarded (AgentEvent.completed _ ∷ es) = forwarded es

  unfoldable pub last_output : List AgentEvent → Option InvocationOutput → Option InvocationOutput
  last_output [] o = o
  last_output (AgentEvent.text_delta _ ∷ es) o = last_output es o
  last_output (AgentEvent.tool_result _ ∷ es) o = last_output es o
  last_output (AgentEvent.completed o' ∷ es) o = last_output es (some o')

  abbrev pub stream_output : Stream AgentEvent → Result InvocationOutput
  stream_output st = elim st.failure [
    | some e ↦ err e
    | none ↦ elim (last_output st.events none) [
      | none ↦ err Error.agent_invocation_failed
      | some o ↦ ok o
    ]
  ]

  abbrev pub is_agent_completed : AgentEvent → Bool
  is_agent_completed (AgentEvent.completed _) = true
  is_agent_completed _ = false

  abbrev pub consume : Stream AgentEvent × S → Action S InvocationOutput
  consume (source, s) l =
      let st = checked_stream is_agent_completed Error.agent_invocation_failed source in
      (stream_output st, record l { store = s; emitted = l.emitted ++ forwarded st.events })

  unfoldable pub run_agent : Invoker S → Invocation → Action S InvocationOutput
  run_agent invoker invocation =
      if streaming
      then elim invoker.stream [
        | none ↦ call (invoker.invoke invocation)
        | some stream ↦ λ l. consume (stream invocation l.store) l
      ]
      else call (invoker.invoke invocation)

  abbrev pub response_for :
      RuntimeRequest
      → ℕ
      → ℕ
      → AgentDescriptor
      → Message
      → InvocationOutput
      → Option String
      → RuntimeResponse
  response_for request run_id thread_id agent assistant output trace_id = record {
    run_id = run_id;
    request_id = request.request_id;
    thread_id = thread_id;
    agent = agent;
    message = assistant;
    tool_results = output.tool_results;
    usage = output.usage;
    trace_id = trace_id;
    metadata = output.metadata;
  }

  abbrev pub read_trace : Action S (Option String)
  read_trace l = (ok (runtime.trace_id l.store), l)

  -- The messages of the request when the hooks have seen the input: a context window has copied them,
  -- and without one they are the same objects as the last of the input.
  abbrev pub own_messages : (ℕ → Message → Message) → List Message → List Message → List Message
  own_messages edit input own = elim runtime.context_window [
    | none ↦ edit_all edit (length input - length own) own
    | some _ ↦ own
  ]

  -- The owner's part, from the transition to running up to the completion.
  unfoldable pub run_claimed : Invoker S → RuntimeRequest → ℕ → ℕ → ℕ → Action S RuntimeResponse
  run_claimed invoker request run_id thread_id owner_token = do
    call (stores.transition run_id RunStatus.running owner_token)
    emit_event (RuntimeEvent.started run_id request.request_id thread_id invoker.descriptor)
    input ← load_input thread_id request.messages
    edited ← call (runtime.hooks Phase.before_model input)
    output ← run_agent invoker (record {
      run_id = run_id;
      thread_id = thread_id;
      user_id = request.user_id;
      messages = edit_all edited 0 input;
      metadata = request.metadata;
    })
    finished ← call (runtime.hooks Phase.after_model output.messages)
    let generated = edit_all finished 0 output.messages
    assistant ← lift (final_assistant generated)
    trace_id ← read_trace
    let response =
        response_for request run_id thread_id invoker.descriptor assistant output trace_id
    call (
        stores.complete run_id owner_token (own_messages edited input request.messages ++ generated)
          response)
    pure response

  abbrev pub fresh : Action S ℕ
  fresh l = let (id, s) = runtime.fresh_id l.store in (ok id, record l { store = s })

  -- The branch in which no run answers: a thread, a claim, and the run or another's answer.
  unfoldable pub execute_new :
      Invoker S → RuntimeRequest → Option String → String → ℕ → Action S RuntimeResponse
  execute_new invoker request key hash owner_token = do
    thread_id ← resolve_thread request
    run_id ← fresh
    set_run (some run_id)
    claimed ← call (
        stores.claim (record {
          run_id = run_id;
          request_id = request.request_id;
          agent = invoker.descriptor;
          thread_id = thread_id;
          idempotency_key = key;
          request_hash = hash;
          owner_token = owner_token;
          lease = runtime.timeout + runtime.cleanup_timeout + 5;
        }))
    if claimed.created
        then run_claimed invoker request run_id thread_id owner_token
        else replay_claimed claimed.run hash

  abbrev pub look_up : String → Option String → Action S (Option RunRecord)
  look_up agent_id none = pure none
  look_up agent_id (some key) = call (stores.get_by_idempotency agent_id key)

  unfoldable pub execute : String → RuntimeRequest → Option String → ℕ → Action S RuntimeResponse
  execute agent_id request key owner_token = do
    invoker ← lift (runtime.agents agent_id)
    let hash = runtime.digest (hash_payload request)
    previous ← look_up agent_id key
    elim previous [
      | some run ↦ replay_previous run hash
      | none ↦ execute_new invoker request key hash owner_token
    ]
