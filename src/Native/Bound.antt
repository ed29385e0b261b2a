-- ===== src/Native/Bound.antt =====
-- How often the loop of src/agent_runtime/adapters/native.py calls the model.
use agent_runtime_kit.Errors.{ok, err, Result}
use agent_runtime_kit.Native.Loop.{
  invoke, generate_checked, Progress, Services, answer, begin, record_result, rounds, run_tools,
  continue, record_tool, then_tools, tool_step,
}
use agent_runtime_kit.Canonical.{Fields, InvocationOutput, Message, ToolCall, ToolResult}
use agent_runtime_kit.Base.{
  Bool-cases, List, String, [], arith, inl, inr, is_empty, none, refl, suc, zero, ℕ, ◌+◌, ◌∷◌, ◌≡◌,
  ◌≤◌, ◌∙◌,
}
use agent_runtime_kit.Native.Result.{ModelResult}
use agent_runtime_kit.Runtime.Action.{call}

-- The same services, with a count of the calls of `generate`.
abbrev pub counted : {S : Type 0} → Services S → Services (S × ℕ)
counted services = record {
  generate = λ messages s. let (r, s') = services.generate messages s.0 in (r, (s', suc s.1));
  stream = none;
  invoke_tool = λ call s. let (r, s') = services.invoke_tool call s.0 in (r, (s', s.1));
  fresh_id = λ s. let (id, s') = services.fresh_id s.0 in (id, (s', s.1));
}

module _ {S : Type 0} (dumps : Fields → String) (services : Services S) where
  step_count :
      (call : ToolCall) (p : Progress) (run : Progress → (S × ℕ) → Result Progress × (S × ℕ))
      (n : ℕ)
      → ((p' : Progress) (s : S × ℕ) → (run p' s).1.1 ≡ s.1)
      → (q : Result ToolResult × (S × ℕ)) → q.1.1 ≡ n
      → (then_tools dumps (counted services) run (tool_step dumps (counted services) call p q)).1.1
        ≡ n
  step_count call p run n ih (err e, s) h = h
  step_count call p run n ih (ok r, s) h =
      ih (record_tool (services.fresh_id s.0).0 call r p) ((services.fresh_id s.0).1, s.1) ∙ h

  run_tools_count :
      (calls : List ToolCall) (p : Progress) (s : S × ℕ)
      → (run_tools dumps (counted services) calls p s).1.1 ≡ s.1
  unfolding run_tools
  run_tools_count [] p s = refl
  run_tools_count (c ∷ calls) p s =
      step_count c p (run_tools dumps (counted services) calls) s.1 (run_tools_count calls)
        ((counted services).invoke_tool c s) refl

  generate_count :
      (messages : List Message) (s : S × ℕ)
      → (generate_checked dumps (counted services) messages s).1.1 ≡ suc s.1
  unfolding generate_checked
  generate_count messages s = refl

  -- what an answer adds to the count
  answer_count :
      (n : ℕ) (more : List ToolCall → Progress → (S × ℕ) → Result InvocationOutput × (S × ℕ))
      (p : Progress) (q : Result ModelResult × (S × ℕ))
      → ((calls : List ToolCall) (p' : Progress) (s : S × ℕ) → (more calls p' s).1.1 ≤ s.1 + n)
      → (answer dumps (counted services) more p q).1.1 ≤ q.1.1 + n
  answer_count n more p (err e, s) h = omega arith
  answer_count n more p (ok r, s) h = elim (Bool-cases (is_empty r.tool_calls)) [
    | inl e ↦ rw e (omega arith)
    | inr e ↦ rw e (h r.tool_calls (record_result r p) s)
  ]

  continue_count :
      (n : ℕ) (k : Progress → (S × ℕ) → Result InvocationOutput × (S × ℕ)) (c : ℕ)
      → ((p : Progress) (s : S × ℕ) → (k p s).1.1 ≤ s.1 + n)
      → (q : Result Progress × (S × ℕ)) → q.1.1 ≡ c
      → (continue dumps (counted services) k q).1.1 ≤ c + n
  continue_count n k c ih (err e, s) h = omega arith
  continue_count n k c ih (ok p, s) h = omega (arith, ih p s)

  rounds_count :
      (left : ℕ) (p : Progress) (s : S × ℕ)
      → (rounds dumps (counted services) left p s).1.1 ≤ s.1 + suc left
  unfolding rounds
  rounds_count zero p s = ground (arith, generate_count p.working s)
  rounds_count (suc left) p s = omega (
    arith,
    answer_count (suc left)
        (λ calls p' s'.
          continue dumps (counted services) (rounds dumps (counted services) left)
            (run_tools dumps (counted services) calls p' s'))
        p (generate_checked dumps (counted services) p.working s)
        (λ calls p' s'.
          continue_count (suc left) (rounds dumps (counted services) left) s'.1 (rounds_count left)
            (run_tools dumps (counted services) calls p' s') (run_tools_count calls p' s')),
    generate_count p.working s,
  )

  -- An invocation calls the model at most once more often than the limit on rounds of tools,
  -- whatever the model and the tools answer.
  pub invoke_bound :
      (max : ℕ) (messages : List Message) (s : S)
      → (invoke dumps (counted services) max messages (s, 0)).1.1 ≤ suc max
  unfolding invoke
  invoke_bound max messages s = omega (arith, rounds_count max (begin messages) (s, 0))
