-- ===== src/Runtime/Replay.antt =====
-- The answers that src/agent_runtime/runtime.py gives without running an agent.
use agent_runtime_kit.Errors.{ok, err, Error}
use agent_runtime_kit.Canonical.{RuntimeRequest, RuntimeResponse}
use agent_runtime_kit.Base.{
  Bool, String, [], arith, false, if◌then◌else◌, some, true, ℕ, ◌++◌, ◌∷◌, ◌≡◌,
}
use agent_runtime_kit.Database.{RunStatus}
use agent_runtime_kit.Runtime.Protocol.{Invoker, Runtime}
use agent_runtime_kit.Runtime.Action.{◌>>=◌, Local}
use agent_runtime_kit.Runtime.Execute.{
  answer_from, execute, hash_payload, replay, replay_previous, require_scoped_thread, started_event,
}
use agent_runtime_kit.Canonical.Equality.{same_text?}
use agent_runtime_kit.Runs.Rows.{RunRecord}

module _ {S : Type 0} (runtime : Runtime S) (streaming : Bool) where
  -- When the agent is registered and the key names a run of the same request that has succeeded,
  -- on a thread of the runtime's namespace, execute returns the response of that run: it calls the
  -- look-ups of the key and of the thread and nothing else, and emits the started event of the old
  -- response exactly if it streams.
  pub execute_replays :
      (agent_id key : String) (request : RuntimeRequest) (owner_token : ℕ) (l : Local S)
      (invoker : Invoker S) (run : RunRecord) (response : RuntimeResponse) (s1 s2 : S) (thread : ℕ)
      → runtime.agents agent_id ≡ ok invoker
      → runtime.stores.get_by_idempotency agent_id key l.store ≡ (ok (some run), s1)
      → runtime.stores.get_thread run.thread_id runtime.namespace s1 ≡ (ok (some thread), s2)
      → same_text? run.request_hash (some (runtime.digest (hash_payload request))) ≡ true
      → run.status ≡ RunStatus.succeeded
      → run.response ≡ some response
      → execute runtime streaming agent_id request (some key) owner_token l ≡ (
        ok response,
        record l {
          store = s2;
          emitted = if streaming then l.emitted ++ started_event response ∷ [] else l.emitted;
        },
      )
  unfolding execute replay_previous require_scoped_thread answer_from replay ◌>>=◌
  execute_replays agent_id key request owner_token l invoker run response s1 s2 thread a b c h st
        rs =
      ground arith

  -- When the agent is registered and the key names a run of another request, on a thread of the
  -- runtime's namespace, execute raises idempotency_conflict: it runs no agent, claims nothing and
  -- recovers nothing.
  pub execute_conflicts :
      (agent_id key : String) (request : RuntimeRequest) (owner_token : ℕ) (l : Local S)
      (invoker : Invoker S) (run : RunRecord) (s1 s2 : S) (thread : ℕ)
      → runtime.agents agent_id ≡ ok invoker
      → runtime.stores.get_by_idempotency agent_id key l.store ≡ (ok (some run), s1)
      → runtime.stores.get_thread run.thread_id runtime.namespace s1 ≡ (ok (some thread), s2)
      → same_text? run.request_hash (some (runtime.digest (hash_payload request))) ≡ false
      → execute runtime streaming agent_id request (some key) owner_token l
        ≡ (err Error.idempotency_conflict, record l { store = s2 })
  unfolding execute replay_previous require_scoped_thread answer_from replay ◌>>=◌
  execute_conflicts agent_id key request owner_token l invoker run s1 s2 thread a b c h =
      ground arith
