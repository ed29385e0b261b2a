-- ===== src/Errors.antt =====
-- src/agent_runtime/errors.py: the error taxonomy, with the other exceptions that the modelled code
-- raises or lets pass, and the result of fallible code.
use agent_runtime_kit.Base.{Bool, true, false, String, inl, inr, refl, ◌≡◌, ◌⊎◌}

pub data Error : Type 0 where
  runtime_error duplicate_registration unknown_agent tool_not_found invalid_tool_arguments : Error
  tool_execution_failed tool_timeout : Error
  provider_failure : Bool → Error
  agent_invocation_failed context_selection_failed context_budget_exceeded : Error
  max_tool_iterations_exceeded idempotency_conflict invalid_run_transition run_not_found : Error
  invalid_feedback_target invocation_timeout run_in_progress idempotent_run_unavailable : Error
  thread_not_found thread_busy runtime_closing runtime_shutdown_timeout run_ownership_lost : Error
  guardrail_blocked : Error
  -- exceptions that are no `RuntimeKitError`
  value_error validation_error type_error timeout_error integrity_error : Error
  multiple_results other_error cancelled : Error

-- `isinstance(error, RuntimeKitError)`
abbrev pub is_kit_error : Error → Bool
is_kit_error Error.value_error = false
is_kit_error Error.validation_error = false
is_kit_error Error.type_error = false
is_kit_error Error.timeout_error = false
is_kit_error Error.integrity_error = false
is_kit_error Error.multiple_results = false
is_kit_error Error.other_error = false
is_kit_error Error.cancelled = false
is_kit_error _ = true

-- `error.code`; the exceptions of the last line carry none, and callers write `internal_error`.
abbrev pub code : Error → String
code Error.runtime_error = "runtime_error"
code Error.duplicate_registration = "duplicate_registration"
code Error.unknown_agent = "unknown_agent"
code Error.tool_not_found = "tool_not_found"
code Error.invalid_tool_arguments = "invalid_tool_arguments"
code Error.tool_execution_failed = "tool_execution_failed"
code Error.tool_timeout = "tool_timeout"
code (Error.provider_failure _) = "provider_failure"
code Error.agent_invocation_failed = "agent_invocation_failed"
code Error.context_selection_failed = "context_selection_failed"
code Error.context_budget_exceeded = "context_budget_exceeded"
code Error.max_tool_iterations_exceeded = "max_tool_iterations_exceeded"
code Error.idempotency_conflict = "idempotency_conflict"
code Error.invalid_run_transition = "invalid_run_transition"
code Error.run_not_found = "run_not_found"
code Error.invalid_feedback_target = "invalid_feedback_target"
code Error.invocation_timeout = "invocation_timeout"
code Error.run_in_progress = "run_in_progress"
code Error.idempotent_run_unavailable = "idempotent_run_unavailable"
code Error.thread_not_found = "thread_not_found"
code Error.thread_busy = "thread_busy"
code Error.runtime_closing = "runtime_closing"
code Error.runtime_shutdown_timeout = "runtime_shutdown_timeout"
code Error.run_ownership_lost = "run_ownership_lost"
code Error.guardrail_blocked = "guardrail_blocked"
code _ = "internal_error"

-- `error.retryable`
abbrev pub retryable : Error → Bool
retryable Error.tool_timeout = true
retryable (Error.provider_failure r) = r
retryable Error.invocation_timeout = true
retryable Error.run_in_progress = true
retryable Error.thread_busy = true
retryable Error.runtime_closing = true
retryable _ = false

-- `isinstance(error, asyncio.CancelledError)`, which is no `Exception`
abbrev pub is_cancelled : Error → Bool
is_cancelled Error.cancelled = true
is_cancelled _ = false

-- `isinstance(error, TimeoutError)`
abbrev pub is_timeout : Error → Bool
is_timeout Error.timeout_error = true
is_timeout _ = false

pub data Result {ℓ} (A : Type ℓ) : Type ℓ where
  ok : A → Result A
  err : Error → Result A

infixl 5 ◌>>=◌ ◌>>◌
abbrev pub ◌>>=◌ {ℓ κ} : {A : Type ℓ} {B : Type κ} → Result A → (A → Result B) → Result B
err e >>= f = err e
ok a >>= f = f a

abbrev pub ◌>>◌ {ℓ} : {B : Type ℓ} → Result (Unit {0}) → Result B → Result B
m >> k = m >>= λ _. k

-- `if bad: raise e`
abbrev pub raise_if : Bool → Error → Result (Unit {0})
raise_if true e = err e
raise_if false e = ok tt

-- To split on a result and keep the equation.
pub Result-cases {ℓ} :
    {A : Type ℓ} (r : Result A) → ((e : Error) × (r ≡ err e)) ⊎ ((a : A) × (r ≡ ok a))
Result-cases (ok a) = inr (a, refl)
Result-cases (err e) = inl (e, refl)
