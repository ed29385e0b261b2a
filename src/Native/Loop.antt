-- ===== src/Native/Loop.antt =====
-- `NativeAgentInvoker` of src/agent_runtime/adapters/native.py: the bounded loop of model and tool
-- calls, for `invoke` and for `stream`. The model client, the tool registry and `uuid4` are
-- operations on a state of their own.
use agent_runtime_kit.Canonical.{
  Fields, InvocationOutput, Message, Part, Role, ToolCall, ToolResult, Usage,
}
use agent_runtime_kit.Errors.{Error, Result, err, is_kit_error, ok, ◌>>=◌}
use agent_runtime_kit.Base.{
  Bool, List, Option, String, [], false, if◌then◌else◌, none, some, true, ℕ, ◌++◌, ◌+◌, ◌∷◌,
  is_empty, suc, zero,
}
use agent_runtime_kit.Streams.{Stream, checked_stream, emit, stop}
use agent_runtime_kit.Native.Result.{ModelResult, checked_result}

pub data ModelEvent : Type 0 where
  text_delta : String → ModelEvent
  completed : ModelResult → ModelEvent

pub data AgentEvent : Type 0 where
  text_delta : String → AgentEvent
  tool_result : ToolResult → AgentEvent
  completed : InvocationOutput → AgentEvent

-- What the invoker is built on. `stream` is there when the model client implements it.
pub record Services (S : Type 0) : Type 0 where
  pub generate : List Message → S → Result ModelResult × S
  pub stream : Option (List Message → S → Stream ModelEvent × S)
  pub invoke_tool : ToolCall → S → Result ToolResult × S
  pub fresh_id : S → ℕ × S

-- `_combined_usage`
unfoldable pub combined_usage : Option Usage → Option Usage → Option Usage
combined_usage none _ = none
combined_usage (some a) none = none
combined_usage (some a) (some b) = some (record {
  input_tokens = a.input_tokens + b.input_tokens;
  output_tokens = a.output_tokens + b.output_tokens;
})

pub record Progress : Type 0 where
  pub working : List Message
  pub generated : List Message
  pub tool_results : List ToolResult
  pub usage : Option Usage

abbrev pub begin : List Message → Progress
begin messages = record {
  working = messages;
  generated = [];
  tool_results = [];
  usage = some (record { input_tokens = 0; output_tokens = 0 });
}

-- a message appended to `generated_messages` and `working_messages`
abbrev pub record_message : Message → Progress → Progress
record_message m p = record p { working = p.working ++ m ∷ []; generated = p.generated ++ m ∷ [] }

-- the result of a generation, checked, counted and recorded
abbrev pub record_result : ModelResult → Progress → Progress
record_result r p = record_message r.message (record p { usage = combined_usage p.usage r.usage })

abbrev pub tool_message : ℕ → ToolCall → ToolResult → Message
tool_message id call result = record {
  id = id;
  role = Role.tool;
  content = Part.tool_result call.id result.output ∷ [];
}

abbrev pub record_tool : ℕ → ToolCall → ToolResult → Progress → Progress
record_tool id call result p =
    record_message (tool_message id call result)
      (record p { tool_results = p.tool_results ++ result ∷ [] })

abbrev pub output : Progress → InvocationOutput
output p = record {
  messages = p.generated;
  tool_results = p.tool_results;
  usage = p.usage;
  metadata = Fields.end;
}

-- the `except` clauses around a generation
abbrev pub generation_error : Error → Error
generation_error Error.cancelled = Error.cancelled
generation_error Error.validation_error = Error.provider_failure false
generation_error e = if is_kit_error e then e else Error.provider_failure true

abbrev pub is_model_completed : ModelEvent → Bool
is_model_completed (ModelEvent.text_delta _) = false
is_model_completed (ModelEvent.completed _) = true

-- The deltas that are passed on, and the last completed result among the events.
unfoldable pub deltas : List ModelEvent → List AgentEvent
deltas [] = []
deltas (ModelEvent.text_delta d ∷ es) = AgentEvent.text_delta d ∷ deltas es
deltas (ModelEvent.completed _ ∷ es) = deltas es

unfoldable pub last_result : List ModelEvent → Option ModelResult → Option ModelResult
last_result [] r = r
last_result (ModelEvent.text_delta _ ∷ es) r = last_result es r
last_result (ModelEvent.completed r' ∷ es) r = last_result es (some r')

abbrev pub stream_result : Stream ModelEvent → Result ModelResult
stream_result s = elim s.failure [
  | some e ↦ err (generation_error e)
  | none ↦ elim (last_result s.events none) [
    | none ↦ err (Error.provider_failure true)
    | some r ↦ ok r
  ]
]

abbrev pub generate_result : Result ModelResult → Result ModelResult
generate_result (ok r) = ok r
generate_result (err e) = err (generation_error e)

-- events put in front of a stream
abbrev pub emit_all : List AgentEvent → Stream AgentEvent → Stream AgentEvent
emit_all es s = record { events = es ++ s.events; failure = s.failure }

module _ {S : Type 0} (dumps : Fields → String) (services : Services S) where
  open services use {generate, invoke_tool, fresh_id}

  -- The loop over the tool calls of one result.
  abbrev pub tool_step :
      ToolCall → Progress → Result ToolResult × S → Result (ToolResult × Progress) × S
  tool_step call p (err e, s) = (err e, s)
  tool_step call p (ok result, s) =
      let (id, s') = fresh_id s in (ok (result, record_tool id call result p), s')

  abbrev pub then_tools :
      (Progress → S → Result Progress × S)
      → Result (ToolResult × Progress) × S
      → Result Progress × S
  then_tools rest (err e, s) = (err e, s)
  then_tools rest (ok (result, p), s) = rest p s

  unfoldable pub run_tools : List ToolCall → Progress → S → Result Progress × S
  run_tools [] p s = (ok p, s)
  run_tools (call ∷ calls) p s =
      then_tools (run_tools calls) (tool_step call p (invoke_tool call s))

  -- A generated result: the end without tool calls, and `more` with them.
  abbrev pub answer :
      (List ToolCall → Progress → S → Result InvocationOutput × S)
      → Progress
      → Result ModelResult × S
      → Result InvocationOutput × S
  answer more p (err e, s) = (err e, s)
  answer more p (ok r, s) =
      if is_empty r.tool_calls
      then (ok (output (record_result r p)), s)
      else more r.tool_calls (record_result r p) s

  abbrev pub continue :
      (Progress → S → Result InvocationOutput × S)
      → Result Progress × S
      → Result InvocationOutput × S
  continue k (err e, s) = (err e, s)
  continue k (ok p, s) = k p s

  -- Tool calls in the last round: the loop is left by its `break`.
  abbrev pub exceeded : List ToolCall → Progress → S → Result InvocationOutput × S
  exceeded calls p s = (err Error.max_tool_iterations_exceeded, s)

  -- one checked generation
  unfoldable pub generate_checked : List Message → S → Result ModelResult × S
  generate_checked messages s =
      let (r, s') = generate messages s in (generate_result r >>= checked_result dumps, s')

  -- The loop of `invoke`: `left` is how many rounds of tools may still be made.
  unfoldable pub rounds : ℕ → Progress → S → Result InvocationOutput × S
  rounds zero p s = answer exceeded p (generate_checked p.working s)
  rounds (suc left) p s =
      answer (λ calls p' s'. continue (rounds left) (run_tools calls p' s')) p
        (generate_checked p.working s)

  -- `invoke`
  unfoldable pub invoke : ℕ → List Message → S → Result InvocationOutput × S
  invoke max_tool_iterations messages s = rounds max_tool_iterations (begin messages) s

  abbrev pub then_stream :
      (Progress → S → List AgentEvent × Result Progress × S)
      → Result (ToolResult × Progress) × S
      → List AgentEvent × Result Progress × S
  then_stream rest (err e, s) = ([], err e, s)
  then_stream rest (ok (result, p), s) =
      let (es, r, s') = rest p s in (AgentEvent.tool_result result ∷ es, r, s')

  -- The same loop as a stream: the events that are yielded, how it ends, and the state.
  unfoldable pub stream_tools : List ToolCall → Progress → S → List AgentEvent × Result Progress × S
  stream_tools [] p s = ([], ok p, s)
  stream_tools (call ∷ calls) p s =
      then_stream (stream_tools calls) (tool_step call p (invoke_tool call s))

  -- What one generation yields, and its checked result, by whether the client streams.
  abbrev pub generate_from :
      Option (List Message → S → Stream ModelEvent × S)
      → List Message
      → S
      → List AgentEvent × Result ModelResult × S
  generate_from none messages s = let (r, s') = generate_checked messages s in ([], r, s')
  generate_from (some source) messages s =
      let (st, s') = source messages s in
      let checked = checked_stream is_model_completed (Error.provider_failure false) st in
      (deltas checked.events, stream_result checked >>= checked_result dumps, s')

  unfoldable pub stream_generate : List Message → S → List AgentEvent × Result ModelResult × S
  stream_generate messages s = generate_from services.stream messages s

  abbrev pub stream_continue :
      (Progress → S → Stream AgentEvent × S)
      → List AgentEvent × Result Progress × S
      → Stream AgentEvent × S
  stream_continue k (es, err e, s) = (emit_all es (stop (some e)), s)
  stream_continue k (es, ok p, s) = let (rest, s') = k p s in (emit_all es rest, s')

  abbrev pub stream_answer :
      (List ToolCall → Progress → S → Stream AgentEvent × S)
      → Progress
      → List AgentEvent × Result ModelResult × S
      → Stream AgentEvent × S
  stream_answer more p (es, err e, s) = (emit_all es (stop (some e)), s)
  stream_answer more p (es, ok r, s) =
      let (rest, s') =
        if is_empty r.tool_calls
        then (emit (AgentEvent.completed (output (record_result r p))) (stop none), s)
        else more r.tool_calls (record_result r p) s in
      (emit_all es rest, s')

  abbrev pub stream_exceeded : List ToolCall → Progress → S → Stream AgentEvent × S
  stream_exceeded calls p s = (stop (some Error.max_tool_iterations_exceeded), s)

  unfoldable pub stream_rounds : ℕ → Progress → S → Stream AgentEvent × S
  stream_rounds zero p s = stream_answer stream_exceeded p (stream_generate p.working s)
  stream_rounds (suc left) p s =
      stream_answer (λ calls p' s'. stream_continue (stream_rounds left) (stream_tools calls p' s'))
        p (stream_generate p.working s)

  -- `stream`
  unfoldable pub stream_invoke : ℕ → List Message → S → Stream AgentEvent × S
  stream_invoke max_tool_iterations messages s =
      stream_rounds max_tool_iterations (begin messages) s
