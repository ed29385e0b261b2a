-- ===== src/Agents/Lookup.antt =====
-- Look-ups of agents in src/agent_runtime/registry.py behind registrations.
use agent_runtime_kit.Agents.{find_agent, get_agent, register_agent}
use agent_runtime_kit.Runtime.Protocol.{Invoker}
use agent_runtime_kit.Errors.{Error, err, ok, Result}
use agent_runtime_kit.Base.{
  Bool-cases, List, Option, Option-cases, String, [], arith, if◌then◌else◌, inl, inr, none, refl,
  some, ◌++◌, ◌=ˢ◌, ◌∷◌, ◌≡◌, ap, eq_iff, subst, sym, ◌∙◌,
}

module _ {S : Type 0} where
  find_agent-append :
      (id : String) (agents : List (String × Invoker S)) (a : Invoker S)
      → find_agent id (agents ++ (a.descriptor.agent_id, a) ∷ [])
        ≡ elim (find_agent id agents) as (λ _. Option (Invoker S)) [
          | some b ↦ some b
          | none ↦ if a.descriptor.agent_id =ˢ id then some a else none
        ]
  unfolding find_agent
  find_agent-append id [] a = refl
  find_agent-append id ((k, b) ∷ rest) a = elim (Bool-cases (k =ˢ id)) [
    | inl e ↦ rw e refl
    | inr e ↦ rw e (find_agent-append id rest a)
  ]

  abbrev answer : Option (Invoker S) → Result (Invoker S)
  answer none = err Error.unknown_agent
  answer (some a) = ok a

  get_agent-answer :
      (id : String) (agents : List (String × Invoker S))
      → get_agent id agents ≡ answer (find_agent id agents)
  unfolding get_agent
  get_agent-answer id agents = refl

  register_agent-append :
      (a : Invoker S) (agents agents' : List (String × Invoker S))
      → register_agent a agents ≡ ok agents'
      → (find_agent a.descriptor.agent_id agents ≡ none)
        × (agents' ≡ agents ++ (a.descriptor.agent_id, a) ∷ [])
  unfolding register_agent
  register_agent-append a agents agents' h =
      elim (Option-cases (find_agent a.descriptor.agent_id agents)) [
        | inr (b, e) ↦ absurd (let h' = rw (e, register_agent) at h in ground arith)
        | inl e ↦ let h' = rw (e, register_agent) at h in (e, ground arith)
      ]

  find_agent-registered :
      (a : Invoker S) (agents : List (String × Invoker S)) (id : String)
      → find_agent a.descriptor.agent_id agents ≡ none
      → answer (find_agent id (agents ++ (a.descriptor.agent_id, a) ∷ []))
        ≡ (if a.descriptor.agent_id =ˢ id then ok a else answer (find_agent id agents))
  find_agent-registered a agents id n =
      let f = find_agent-append id agents a in
      elim (Bool-cases (a.descriptor.agent_id =ˢ id)) [
        | inl e ↦
            let same : a.descriptor.agent_id ≡ id =
              ground (arith, eq_iff a.descriptor.agent_id id) in
            let m : find_agent id agents ≡ none =
              subst (λ (k : String). find_agent k agents ≡ none) same n in
            rw (f, m, e) refl
        | inr e ↦ elim (Option-cases (find_agent id agents)) [
          | inl m ↦ rw (f, m, e) refl
          | inr (b, m) ↦ rw (f, m, e) refl
        ]
      ]

  -- A registration of an agent that succeeds is of an id that get refused before; get then returns
  -- the agent for that id, and for every other id what it returned before.
  pub get_agent-register_agent :
      (a : Invoker S) (agents agents' : List (String × Invoker S)) (id : String)
      → register_agent a agents ≡ ok agents'
      → (get_agent a.descriptor.agent_id agents ≡ err Error.unknown_agent)
        × (get_agent id agents'
            ≡ (if a.descriptor.agent_id =ˢ id then ok a else get_agent id agents))
  get_agent-register_agent a agents agents' id h =
      let (n, q) = register_agent-append a agents agents' h in
      (
        get_agent-answer a.descriptor.agent_id agents ∙ ap answer n,
        get_agent-answer id agents'
            ∙ ap (λ l. answer (find_agent id l)) q
            ∙ find_agent-registered a agents id n
            ∙ ap (λ (x : Result (Invoker S)). if a.descriptor.agent_id =ˢ id then ok a else x)
                (sym (get_agent-answer id agents)),
      )
