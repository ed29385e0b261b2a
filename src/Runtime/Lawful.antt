-- ===== src/Runtime/Lawful.antt =====
-- That what `_execute` of src/agent_runtime/runtime.py returns is stored, branch by branch.
use agent_runtime_kit.Errors.{ok}
use agent_runtime_kit.Canonical.{RuntimeResponse, RuntimeRequest}
use agent_runtime_kit.Database.{Db, is_active}
use agent_runtime_kit.Runtime.Action.{Local, lift, set_run, Action}
use agent_runtime_kit.Runtime.Protocol.{Runtime, Invoker}
use agent_runtime_kit.Runtime.Execute.{
  execute, execute_new, fresh, hash_payload, look_up, recover_if, replay_claimed, replay_previous,
  require_scoped_thread, resolve_thread, run_claimed,
}
use agent_runtime_kit.Runtime.Durable.{>>=-ok, pure-ok, call-ok, run_claimed-IsDurable}
use agent_runtime_kit.Runs.Rows.{RunClaim, RunRecord}
use agent_runtime_kit.Runs.Claim.{claim}
use agent_runtime_kit.Base.{
  Bool, Option, String, some, sym, ℕ, ◌≡◌, arith, false, if◌then◌else◌, none, subst, true, ◌&&◌,
}
use agent_runtime_kit.Canonical.Equality.{same_text?}
use agent_runtime_kit.Runtime.Stored.{
  IsRowOf, IsStored, StoreLaws, answer_from-stored, recovered_or_kept, require_scoped_thread-keeps,
  set_run-store,
}

module _ {S : Type 0} (runtime : Runtime S) (streaming : Bool) (view : S → Db)
    (laws : StoreLaws runtime.stores view) where
  -- A run that is read, and answered from behind the check of its thread.
  replay_previous-IsStored :
      (previous : RunRecord) (hash : String) (r : RuntimeResponse) (l l' : Local S)
      → IsRowOf previous (view l.store)
      → replay_previous runtime streaming previous hash l ≡ (ok r, l')
      → IsStored r (view l'.store)
  unfolding replay_previous
  replay_previous-IsStored previous hash r l l' row h =
      let active = same_text? previous.request_hash (some hash) && is_active previous.status in
      let (_, l1, h1, k1) =
        >>=-ok (require_scoped_thread runtime streaming previous.thread_id) _ l l' r h in
      let (run, l2, h2, k2) = >>=-ok (recover_if runtime streaming active previous) _ l1 l' r k1 in
      let (q, e) = answer_from-stored runtime streaming view laws run hash r l2 l' k2 in
      subst (λ (s : S). IsStored r (view s)) (sym e)
        (recovered_or_kept runtime streaming view laws active previous run hash r l l1 l2 row q
          (λ s.
            require_scoped_thread-keeps runtime streaming view laws previous.thread_id r l l1 h1 s)
          h2)

  replay_claimed-IsStored :
      (run : RunRecord) (hash : String) (r : RuntimeResponse) (l l' : Local S)
      → IsRowOf run (view l.store)
      → replay_claimed runtime streaming run hash l ≡ (ok r, l')
      → IsStored r (view l'.store)
  unfolding replay_claimed
  replay_claimed-IsStored run hash r l l' row h =
      let (_, l0, h0, k0) = >>=-ok (set_run none) _ l l' r h in
      let (_, l1, h1, k1) =
        >>=-ok (require_scoped_thread runtime streaming run.thread_id) _ l0 l' r k0 in
      let (rec, l2, h2, k2) =
        >>=-ok (recover_if runtime streaming (is_active run.status) run) _ l1 l' r k1 in
      let (q, e) = answer_from-stored runtime streaming view laws rec hash r l2 l' k2 in
      let z = set_run-store runtime streaming view laws none l l0 h0 in
      let row' = subst (λ (s : S). IsRowOf run (view s)) (sym z) row in
      subst (λ (s : S). IsStored r (view s)) (sym e)
        (recovered_or_kept runtime streaming view laws (is_active run.status) run rec hash r l0 l1
          l2 row' q
          (λ s. require_scoped_thread-keeps runtime streaming view laws run.thread_id r l0 l1 h1 s)
          h2)

  run_claimed-IsStored :
      (invoker : Invoker S) (request : RuntimeRequest) (run_id thread_id owner_token : ℕ)
      (r : RuntimeResponse) (l l' : Local S)
      → run_claimed runtime streaming invoker request run_id thread_id owner_token l ≡ (ok r, l')
      → IsStored r (view l'.store)
  run_claimed-IsStored invoker request run_id thread_id owner_token r l l' h =
      let d =
        run_claimed-IsDurable runtime streaming invoker request run_id thread_id owner_token l l' r
          h in
      laws.completed run_id owner_token _ r d.before l'.store d.stored d.completed

  claimed_cases :
      (invoker : Invoker S) (request : RuntimeRequest) (run_id thread_id owner_token : ℕ)
      (hash : String) (r : RuntimeResponse) (claim : RunClaim) (l l' : Local S)
      → IsRowOf claim.run (view l.store)
      → (created : Bool)
      → (if created
            then run_claimed runtime streaming invoker request run_id thread_id owner_token
            else replay_claimed runtime streaming claim.run hash)
          l
        ≡ (ok r, l')
      → IsStored r (view l'.store)
  claimed_cases invoker request run_id thread_id owner_token hash r claim l l' row true h =
      run_claimed-IsStored invoker request run_id thread_id owner_token r l l' h
  claimed_cases invoker request run_id thread_id owner_token hash r claim l l' row false h =
      replay_claimed-IsStored claim.run hash r l l' row h

  execute_new-IsStored :
      (invoker : Invoker S) (request : RuntimeRequest) (key : Option String) (hash : String)
      (owner_token : ℕ) (r : RuntimeResponse) (l l' : Local S)
      → execute_new runtime streaming invoker request key hash owner_token l ≡ (ok r, l')
      → IsStored r (view l'.store)
  unfolding execute_new
  execute_new-IsStored invoker request key hash owner_token r l l' h =
      let (thread_id, l1, _, k1) = >>=-ok (resolve_thread runtime streaming request) _ l l' r h in
      let (run_id, l2, _, k2) = >>=-ok (fresh runtime streaming) _ l1 l' r k1 in
      let (_, l3, _, k3) = >>=-ok (set_run (some run_id)) _ l2 l' r k2 in
      let (claim, l4, c, k4) = >>=-ok _ _ l3 l' r k3 in
      let row = laws.claimed _ l3.store l4.store claim (call-ok _ claim l3 l4 c) in
      claimed_cases invoker request run_id thread_id owner_token hash r claim l4 l' row
        claim.created k4

  look_up-row :
      (agent_id : String) (key : Option String) (run : RunRecord) (l l' : Local S)
      → look_up runtime streaming agent_id key l ≡ (ok (some run), l')
      → IsRowOf run (view l'.store)
  look_up-row agent_id none run l l' h =
      absurd (let (z, _) = pure-ok none (some run) l l' h in ground arith)
  look_up-row agent_id (some key) run l l' h =
      laws.keyed agent_id key l.store l'.store run (call-ok _ (some run) l l' h)

  previous_cases :
      (agent_id : String) (invoker : Invoker S) (request : RuntimeRequest) (key : Option String)
      (hash : String) (owner_token : ℕ) (r : RuntimeResponse) (previous : Option RunRecord)
      (l l1 l' : Local S)
      → look_up runtime streaming agent_id key l ≡ (ok previous, l1)
      → (elim previous as (λ _. Action S RuntimeResponse) [
        | some run ↦ replay_previous runtime streaming run hash
        | none ↦ execute_new runtime streaming invoker request key hash owner_token
      ])
          l1
        ≡ (ok r, l')
      → IsStored r (view l'.store)
  previous_cases agent_id invoker request key hash owner_token r none l l1 l' c h =
      execute_new-IsStored invoker request key hash owner_token r l1 l' h
  previous_cases agent_id invoker request key hash owner_token r (some run) l l1 l' c h =
      replay_previous-IsStored run hash r l1 l' (look_up-row agent_id key run l l1 c) h

  pub execute-IsStored_lawful :
      (agent_id : String) (request : RuntimeRequest) (key : Option String) (owner_token : ℕ)
      (r : RuntimeResponse) (l l' : Local S)
      → execute runtime streaming agent_id request key owner_token l ≡ (ok r, l')
      → IsStored r (view l'.store)
  unfolding execute
  execute-IsStored_lawful agent_id request key owner_token r l l' h =
      let hash = runtime.digest (hash_payload request) in
      let (invoker, l1, _, k1) = >>=-ok (lift (runtime.agents agent_id)) _ l l' r h in
      let (previous, l2, c, k2) = >>=-ok (look_up runtime streaming agent_id key) _ l1 l' r k1 in
      previous_cases agent_id invoker request key hash owner_token r previous l1 l2 l' c k2
