-- ===== src/Runtime/Deadline.antt =====
-- `_invoke`, `_invoke_with_deadline`, `_record_failure` and `_settle_failure` of
-- src/agent_runtime/runtime.py.
use agent_runtime_kit.Errors.{ok, err, Error, Result, code, is_cancelled, is_timeout}
use agent_runtime_kit.Canonical.{RuntimeRequest, RuntimeResponse}
use agent_runtime_kit.Base.{Bool, Option, String, if◌then◌else◌, none, some, ℕ, ◌&&◌}
use agent_runtime_kit.Database.{RunStatus}
use agent_runtime_kit.Runs.Settle.{is_succeeded}
use agent_runtime_kit.Runtime.Protocol.{Runtime}
use agent_runtime_kit.Runtime.Action.{◌>>=◌, ◌>>◌, Action, Local, lift, raise}
use agent_runtime_kit.Runtime.Execute.{execute}
use agent_runtime_kit.Runs.Rows.{RunRecord}

module _ {S : Type 0} (runtime : Runtime S) (streaming : Bool) where
  open runtime use {stores}

  -- `_settle_failure`: every exception but a cancellation is logged and dropped.
  abbrev pub settled_record : Result RunRecord → Result (Option RunRecord)
  settled_record (ok r) = ok (some r)
  settled_record (err e) = if is_cancelled e then err e else ok none

  -- `_record_failure`
  unfoldable pub record_failure : ℕ → ℕ → String → RunStatus → Action S (Option RunRecord)
  record_failure run_id owner_token error_code status l =
      let (r, s) = stores.fail_if_running run_id owner_token error_code status l.store in
      (settled_record r, record l { store = s })

  -- What leaves `async with budget`: the cancellation that the timeout delivers is a TimeoutError.
  abbrev pub leave_budget : Result RuntimeResponse × Local S → Result RuntimeResponse × Local S
  leave_budget (ok r, l) = (ok r, l)
  leave_budget (err e, l) =
      (err (if is_cancelled e && runtime.expired l.store then Error.timeout_error else e), l)

  -- The error that the caller gets for an exception.
  abbrev pub translated : Error → S → Error
  translated e s = if is_timeout e && runtime.expired s then Error.invocation_timeout else e

  abbrev pub failure_status : Error → RunStatus
  failure_status Error.guardrail_blocked = RunStatus.blocked
  failure_status _ = RunStatus.failed

  -- A committed success wins over the error.
  abbrev pub reconciled : Error → Option RunRecord → Result RuntimeResponse
  reconciled e none = err e
  reconciled e (some r) =
      if is_succeeded r.status then elim r.response [ none ↦ err e | some x ↦ ok x ] else err e

  abbrev pub settle_cancelled : Option ℕ → ℕ → Action S RuntimeResponse
  settle_cancelled none owner_token = raise Error.cancelled
  settle_cancelled (some run_id) owner_token = do
    record_failure run_id owner_token "invocation_cancelled" RunStatus.failed
    raise Error.cancelled

  abbrev pub settle_failed : Option ℕ → ℕ → Error → Action S RuntimeResponse
  settle_failed none owner_token e = raise e
  settle_failed (some run_id) owner_token e = do
    settled ← record_failure run_id owner_token (code e) (failure_status e)
    lift (reconciled e settled)

  -- The handlers of `_invoke_with_deadline`.
  abbrev pub handled : ℕ → Result RuntimeResponse × Local S → Result RuntimeResponse × Local S
  handled owner_token (ok r, l) = (ok r, l)
  handled owner_token (err e, l) =
      if is_cancelled e
      then settle_cancelled l.run_id owner_token l
      else settle_failed l.run_id owner_token (translated e l.store) l

  unfoldable pub invoke_with_deadline :
      String → RuntimeRequest → Option String → Action S RuntimeResponse
  invoke_with_deadline agent_id request key l =
      let (owner_token, s) = runtime.fresh_id l.store in
      handled owner_token (
        leave_budget (
          execute runtime streaming agent_id request key owner_token
            (record l { store = s; run_id = none })))

  -- `_invoke`
  unfoldable pub invoke : String → RuntimeRequest → Option String → Action S RuntimeResponse
  invoke agent_id request key =
      if runtime.closing
      then raise Error.runtime_closing
      else invoke_with_deadline agent_id request key
