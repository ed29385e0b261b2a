-- ===== src/Runtime/Settlement.antt =====
-- How src/agent_runtime/runtime.py settles an invocation that has raised.
use agent_runtime_kit.Errors.{ok, err, Error, Result, is_cancelled, is_timeout}
use agent_runtime_kit.Canonical.{RuntimeResponse}
use agent_runtime_kit.Base.{Bool, Option, some, ◌≡◌, false, true, if◌then◌else◌, ◌||◌, ◌≢◌, ◌⊎◌}
use agent_runtime_kit.Runtime.Protocol.{Runtime}
use agent_runtime_kit.Runs.Rows.{RunRecord}
use agent_runtime_kit.Database.{RunStatus}

-- The error that a caller gets for an exception, by whether the budget has expired: with the budget
-- expired, a cancellation or a TimeoutError is the invocation's timeout. A cancellation within the
-- budget comes from outside, and is settled apart.
abbrev pub IsErrorFor : Bool → Error → Error → Type 0
IsErrorFor true e x = x ≡ (if is_cancelled e || is_timeout e then Error.invocation_timeout else e)
IsErrorFor false e x = (is_cancelled e ≡ false) × (x ≡ e)

-- The status that a run which ends in an error is to have.
abbrev pub IsStatusFor : Error → RunStatus → Type 0
IsStatusFor x status =
    ((x ≡ Error.guardrail_blocked) × (status ≡ RunStatus.blocked))
    ⊎ ((x ≢ Error.guardrail_blocked) × (status ≡ RunStatus.failed))

-- What the caller gets, by the status and the response of the run that the store has returned.
abbrev pub IsAnswerOf : Error → RunStatus → Option RuntimeResponse → Result RuntimeResponse → Type 0
IsAnswerOf x RunStatus.succeeded (some response) q = q ≡ ok response
IsAnswerOf x _ _ q = q ≡ err x

-- The same by how the settling has ended: an exception of the store hides no error, but a
-- cancellation does.
abbrev pub IsOutcomeOf : Error → Result RunRecord → Result RuntimeResponse → Type 0
IsOutcomeOf x (ok run) q = IsAnswerOf x run.status run.response q
IsOutcomeOf x (err e) q = q ≡ err (if is_cancelled e then e else x)
