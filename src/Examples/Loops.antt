-- ===== src/Examples/Loops.antt =====
-- A model that always asks for a tool, and streams with and without a completed event.
use agent_runtime_kit.Errors.{ok, Error}
use agent_runtime_kit.Native.Loop.{invoke, ModelEvent, Services, is_model_completed, stream_invoke}
use agent_runtime_kit.Canonical.{Fields, Json, Part, Role, ToolCall, ToolResult, ToolStatus}
use agent_runtime_kit.Base.{String, [], false, none, refl, ℕ, ◌+◌, ◌∷◌, ◌≤◌}
use agent_runtime_kit.Streams.{Stream, checked_stream}
use agent_runtime_kit.Native.Result.{ModelResult}
use agent_runtime_kit.Native.Bound.{counted, invoke_bound}
use agent_runtime_kit.Native.Agreement.{Agree, stream-agrees-invoke}
use agent_runtime_kit.Streams.Terminal.{IsChecked, checked_stream-IsChecked}
use agent_runtime_kit.Examples.Tables.{says}

abbrev call_tool : ToolCall
call_tool = record { id = "c"; name = "search"; arguments = Fields.end }

abbrev asking : ModelResult
asking = record {
  message = record { id = 7; role = Role.assistant; content = Part.tool_call call_tool ∷ [] };
  tool_calls = call_tool ∷ [];
  usage = none;
}

abbrev found : ToolResult
found = record {
  id = 8;
  tool_call_id = "c";
  tool_name = "search";
  status = ToolStatus.succeeded;
  output = Json.null;
  error_code = none;
}

abbrev services : Services ℕ
services = record {
  generate = λ messages s. (ok asking, s);
  stream = none;
  invoke_tool = λ call s. (ok found, s);
  fresh_id = λ s. (s, s + 1);
}

abbrev dumps : Fields → String
dumps fields = "{}"

stream-agrees-invoke_example :
    Agree
      (invoke dumps services 2 (says 5 Role.user "hi" ∷ []) 0)
      (stream_invoke dumps services 2 (says 5 Role.user "hi" ∷ []) 0)
stream-agrees-invoke_example =
    stream-agrees-invoke dumps services 2 (says 5 Role.user "hi" ∷ []) 0 refl

invoke_bound_example :
    (invoke dumps (counted services) 2 (says 5 Role.user "hi" ∷ []) (0, 0)).1.1 ≤ 3
invoke_bound_example = invoke_bound dumps services 2 (says 5 Role.user "hi" ∷ []) 0

abbrev two_events : Stream ModelEvent
two_events = record {
  events = ModelEvent.text_delta "a" ∷ ModelEvent.completed asking ∷ [];
  failure = none;
}

checked_stream-IsChecked_example :
    IsChecked is_model_completed two_events
      (checked_stream is_model_completed (Error.provider_failure false) two_events)
checked_stream-IsChecked_example =
    checked_stream-IsChecked is_model_completed (Error.provider_failure false) two_events
