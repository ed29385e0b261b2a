-- ===== src/Runs/Schedule.antt =====
-- Interleavings: the calls that any number of clients make of the run store of
-- src/agent_runtime/runs/postgres.py, in the order in which their transactions commit. A claim holds
-- the calls that commit between its look-up of the key and its insert, and a sweep those that commit
-- before each of its rounds.
use agent_runtime_kit.Canonical.{Message, RuntimeResponse}
use agent_runtime_kit.Base.{Bool, List, Option, String, ℕ}
use agent_runtime_kit.Database.{Db, RunStatus}
use agent_runtime_kit.Runs.Claim
use agent_runtime_kit.Runs.Settle
use agent_runtime_kit.Runs.Recover
use agent_runtime_kit.Runs.History.{here, Reach, Reach-trans}
use agent_runtime_kit.Runs.ClaimSteps.{claim-Reach}
use agent_runtime_kit.Runs.Claim.{Claim}
use agent_runtime_kit.Runs.Invariant.{Distinct, Reach-Distinct}
use agent_runtime_kit.Runs.Steps.{
  complete-Reach, fail_if_running-Reach, recover-Reach, recover_expired-Reach, transition-Reach,
}
use agent_runtime_kit.Runtime.Action.{call}

mutual
  pub data Call : Type 0 where
    claim : Claim → Calls → ℕ → Call
    transition : ℕ → RunStatus → ℕ → Option RuntimeResponse → Option String → ℕ → Call
    complete : ℕ → ℕ → List Message → RuntimeResponse → ℕ → ℕ → Call
    fail_if_running : ℕ → ℕ → String → RunStatus → ℕ → Call
    recover : ℕ → ℕ → Call
    recover_expired : (ℕ → Calls) → (ℕ → ℕ → Bool) → (ℕ → ℕ) → ℕ → ℕ → Call

  pub data Calls : Type 0 where
    done : Calls
    then_call : Call → Calls → Calls

unfoldable mutual
  pub perform : Call → Db → Db
  perform (Call.claim c between now) db = (Claim.claim c (perform_all between) now db).1
  perform (Call.transition run_id status token response error_code now) db =
      (Settle.transition run_id status token response error_code now db).1
  perform (Call.complete run_id token messages response now later) db =
      (Settle.complete run_id token messages response now later db).1
  perform (Call.fail_if_running run_id token error_code status now) db =
      (Settle.fail_if_running run_id token error_code status now db).1
  perform (Call.recover run_id now) db = (Recover.recover run_id now db).1
  perform (Call.recover_expired between held clock limit now) db =
      (Recover.recover_expired
        (λ i. record {
          between = λ before. perform_all (between i) before;
          held = held i;
          now = clock i;
        })
        limit now db).1

  pub perform_all : Calls → Db → Db
  perform_all Calls.done db = db
  perform_all (Calls.then_call call calls) db = perform_all calls (perform call db)

mutual
  unfolding perform perform_all

  perform-Reach : (call : Call) (db : Db) → Distinct db.runs → Reach db.runs (perform call db).runs
  perform-Reach (Call.claim c between now) db d =
      claim-Reach c (perform_all between) now db d (perform_all-Reach between db d)
  perform-Reach (Call.transition run_id status token response error_code now) db d =
      transition-Reach run_id status token response error_code now db
  perform-Reach (Call.complete run_id token messages response now later) db d =
      complete-Reach run_id token messages response now later db
  perform-Reach (Call.fail_if_running run_id token error_code status now) db d =
      fail_if_running-Reach run_id token error_code status now db
  perform-Reach (Call.recover run_id now) db d = recover-Reach run_id now db
  perform-Reach (Call.recover_expired between held clock limit now) db d =
      recover_expired-Reach
        (λ i. record {
          between = λ before. perform_all (between i) before;
          held = held i;
          now = clock i;
        })
        (λ i before u. perform_all-Reach (between i) before u) limit now db d

  perform_all-Reach :
      (calls : Calls) (db : Db) → Distinct db.runs → Reach db.runs (perform_all calls db).runs
  perform_all-Reach Calls.done db d = here
  perform_all-Reach (Calls.then_call call calls) db d =
      let r = perform-Reach call db d in
      Reach-trans r (perform_all-Reach calls (perform call db) (Reach-Distinct r d))

-- From tables in which the unique indexes hold, an interleaving takes the runs along steps.
pub schedule-Reach :
    (calls : Calls) (db : Db) → Distinct db.runs → Reach db.runs (perform_all calls db).runs
schedule-Reach calls db d = perform_all-Reach calls db d
