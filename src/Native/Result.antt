-- ===== src/Native/Result.antt =====
-- `ModelResult` of src/agent_runtime/models_clients/base.py and `checked_result` of
-- src/agent_runtime/models_clients/_canonical.py. `json.dumps(..., sort_keys=True)` is a parameter.
use agent_runtime_kit.Canonical.{Fields, Message, Part, ToolCall, Usage}
use agent_runtime_kit.Errors.{Error, Result, err, ok}
use agent_runtime_kit.Base.{
  Bool, List, Option, String, [], false, if◌then◌else◌, not, true, ◌&&◌, ◌=ˢ◌, ◌||◌, ◌∷◌,
}
use agent_runtime_kit.Canonical.Equality.{is_assistant}
use agent_runtime_kit.Canonical.Validity.{valid_tool_content}

pub record ModelResult : Type 0 where
  pub message : Message
  pub tool_calls : List ToolCall
  pub usage : Option Usage

-- the tool calls among the parts of a message
unfoldable pub message_calls : List Part → List ToolCall
message_calls [] = []
message_calls (Part.text _ ∷ ps) = message_calls ps
message_calls (Part.tool_call c ∷ ps) = c ∷ message_calls ps
message_calls (Part.tool_result _ _ ∷ ps) = message_calls ps

unfoldable pub has_call : String → List ToolCall → Bool
has_call id [] = false
has_call id (c ∷ cs) = c.id =ˢ id || has_call id cs

-- `len({call.id for call in calls}) == len(calls)`
unfoldable pub unique_calls : List ToolCall → Bool
unique_calls [] = true
unique_calls (c ∷ cs) = not (has_call c.id cs) && unique_calls cs

module _ (dumps : Fields → String) where
  abbrev pub same_call : ToolCall → ToolCall → Bool
  same_call a b = a.id =ˢ b.id && a.name =ˢ b.name && dumps a.arguments =ˢ dumps b.arguments

  -- the lengths agree, and so does each pair of `zip`
  unfoldable pub same_calls : List ToolCall → List ToolCall → Bool
  same_calls [] [] = true
  same_calls (a ∷ as') (b ∷ bs) = same_call a b && same_calls as' bs
  same_calls _ _ = false

  -- `validate_tool_calls`, with the validation of the message that it holds
  unfoldable pub valid_result : ModelResult → Bool
  valid_result r =
      valid_tool_content r.message
      && is_assistant r.message.role
      && unique_calls r.tool_calls
      && same_calls (message_calls r.message.content) r.tool_calls

  -- Serializing a valid result and validating it again gives an equal one.
  unfoldable pub checked_result : ModelResult → Result ModelResult
  checked_result r = if valid_result r then ok r else err (Error.provider_failure false)
