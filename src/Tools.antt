-- ===== src/Tools.antt =====
-- `ToolRegistry` of src/agent_runtime/tools/registry.py, and `HookManager.run` of
-- src/agent_runtime/hooks/base.py, over handlers and hooks that act on a state of their own.
pub mod Outcomes
use agent_runtime_kit.Errors.{ok, err, Error, Result, ◌>>=◌}
use agent_runtime_kit.Canonical.{Fields, Json, ToolResult, ToolStatus}
use agent_runtime_kit.Base.{
  Bool, List, Option, String, [], if◌then◌else◌, none, some, ℕ, ◌=ˢ◌, ◌∷◌, map, false, true,
}

-- A call of a tool's callable on validated arguments within the timeout: it gives a JSON value, or
-- none for a value that is not JSON, or raises, a TimeoutError where the time is up. What hooks have
-- changed inside the arguments is in the state.
abbrev pub Handler : Type 0 → Type 0
Handler S = S → Result (Option Json) × S

-- A `RegisteredTool`. `validate` is `input_model.model_validate` with the callable behind it: a
-- validator of the input model may raise any exception.
pub record RegisteredTool (S : Type 0) : Type 0 where
  pub name : String
  pub validate : Fields → Result (Handler S)

-- The `ToolResult` that hooks share with the registry and may assign to. A field is none when it holds
-- a value that the validation of a `ToolResult` refuses, such as an output that is not JSON.
pub record SharedResult : Type 0 where
  pub id : Option ℕ
  pub tool_call_id : Option String
  pub tool_name : Option String
  pub status : Option ToolStatus
  pub output : Option Json
  pub error_code : Option (Option String)

-- A `LifecycleHook`, by its phases: it gives the arguments, or the result, as it leaves them.
pub record Hook (S : Type 0) : Type 0 where
  pub before_tool : String → String → Fields → S → Result Fields × S
  pub after_tool : String → String → SharedResult → S → Result SharedResult × S

abbrev pub next_hook : {S E : Type 0} → (E → S → Result E × S) → Result E × S → Result E × S
next_hook rest (ok event, s) = rest event s
next_hook rest (err e, s) = (err e, s)

-- `HookManager.run`: each hook meets the event as those before it have left it.
unfoldable pub run_hooks : {S E : Type 0} → List (E → S → Result E × S) → E → S → Result E × S
run_hooks [] event s = (ok event, s)
run_hooks (hook ∷ hooks) event s = next_hook (run_hooks hooks) (hook event s)

-- `isinstance(error, ValueError)`; a pydantic ValidationError is one.
abbrev pub is_value_error : Error → Bool
is_value_error Error.value_error = true
is_value_error Error.validation_error = true
is_value_error _ = false

-- the `except` clauses around the execution
abbrev pub execution_error : Error → Error
execution_error Error.timeout_error = Error.tool_timeout
execution_error Error.tool_timeout = Error.tool_timeout
execution_error Error.cancelled = Error.cancelled
execution_error _ = Error.tool_execution_failed

abbrev pub tool_result : ℕ → String → String → Json → ToolResult
tool_result id tool_call_id name output = record {
  id = id;
  tool_call_id = tool_call_id;
  tool_name = name;
  status = ToolStatus.succeeded;
  output = output;
  error_code = none;
}

abbrev pub shared : ToolResult → SharedResult
shared r = record {
  id = some r.id;
  tool_call_id = some r.tool_call_id;
  tool_name = some r.tool_name;
  status = some r.status;
  output = some r.output;
  error_code = some r.error_code;
}

abbrev pub valid {ℓ} : {A : Type ℓ} → Option A → Result A
valid none = err Error.tool_execution_failed
valid (some a) = ok a

-- The second validation, and the copy that it returns.
unfoldable pub revalidated : SharedResult → Result ToolResult
revalidated v = do
  output ← valid v.output
  id ← valid v.id
  tool_call_id ← valid v.tool_call_id
  tool_name ← valid v.tool_name
  status ← valid v.status
  error_code ← valid v.error_code
  ok (record {
    id = id;
    tool_call_id = tool_call_id;
    tool_name = tool_name;
    status = status;
    output = output;
    error_code = error_code;
  })

module _ {S : Type 0} where
  unfoldable pub find_tool : String → List (RegisteredTool S) → Option (RegisteredTool S)
  find_tool name [] = none
  find_tool name (t ∷ ts) = if t.name =ˢ name then some t else find_tool name ts

  -- `register`, behind the derivation of the schema; `timeout_ok` is `timeout_seconds > 0`.
  unfoldable pub register :
      RegisteredTool S → Bool → List (RegisteredTool S) → Result (List (RegisteredTool S))
  register tool timeout_ok tools = elim (find_tool tool.name tools) [
    | some _ ↦ err Error.duplicate_registration
    | none ↦ if timeout_ok then ok (tool ∷ tools) else err Error.value_error
  ]

  module _ (fresh_id : S → ℕ × S) (hooks : Option (List (Hook S))) where
    -- `if self._hooks is not None and context is not None`, for each of the phases
    unfoldable pub run_before : String → String → Fields → S → Result Fields × S
    run_before name tool_call_id arguments s = elim hooks [
      | none ↦ (ok arguments, s)
      | some hs ↦ run_hooks (map (λ (h : Hook S). h.before_tool name tool_call_id) hs) arguments s
    ]

    unfoldable pub run_after : String → String → SharedResult → S → Result SharedResult × S
    run_after name tool_call_id result s = elim hooks [
      | none ↦ (ok result, s)
      | some hs ↦ run_hooks (map (λ (h : Hook S). h.after_tool name tool_call_id) hs) result s
    ]

    abbrev pub finished : Result SharedResult × S → Result ToolResult × S
    finished (ok result, s) = (revalidated result, s)
    finished (err e, s) = (err e, s)

    abbrev pub executed : String → String → Result (Option Json) × S → Result ToolResult × S
    executed name tool_call_id (err e, s) = (err (execution_error e), s)
    executed name tool_call_id (ok none, s) = (err Error.tool_execution_failed, s)
    executed name tool_call_id (ok (some output), s) =
        let (id, s') = fresh_id s in
        finished (run_after name tool_call_id (shared (tool_result id tool_call_id name output)) s')

    -- The arguments were validated before the hooks: the handler does not get what they return.
    abbrev pub prepared : Handler S → String → String → Result Fields × S → Result ToolResult × S
    prepared handler name tool_call_id (err e, s) = (err e, s)
    prepared handler name tool_call_id (ok _, s) = executed name tool_call_id (handler s)

    -- Behind the validation, with its `except` clause.
    abbrev pub validated : String → Fields → String → S → Result (Handler S) → Result ToolResult × S
    validated name arguments tool_call_id s (ok handler) =
        prepared handler name tool_call_id (run_before name tool_call_id arguments s)
    validated name arguments tool_call_id s (err e) =
        (err (if is_value_error e then Error.invalid_tool_arguments else e), s)

    -- `invoke`
    unfoldable pub invoke_tool :
        List (RegisteredTool S) → String → Fields → String → S → Result ToolResult × S
    invoke_tool tools name arguments tool_call_id s = elim (find_tool name tools) [
      | none ↦ (err Error.tool_not_found, s)
      | some tool ↦ validated name arguments tool_call_id s (tool.validate arguments)
    ]
