-- ===== src/Native/Agreement.antt =====
-- `stream` and `invoke` of src/agent_runtime/adapters/native.py over a model client that does not
-- stream.
use agent_runtime_kit.Errors.{ok, err, Error, Result}
use agent_runtime_kit.Canonical.{Fields, InvocationOutput, ToolCall, ToolResult, Message}
use agent_runtime_kit.Base.{
  List, Option, String, [], ap, none, refl, some, ◌++◌, ◌∷◌, ◌≡◌, Bool-cases, inl, inr, is_empty,
  suc, zero, ℕ, ◌∙◌,
}
use agent_runtime_kit.Native.Loop.{
  AgentEvent, Progress, Services, run_tools, stream_tools, tool_step, answer, begin, continue,
  generate_checked, invoke, record_result, record_tool, rounds, stream_answer, stream_continue,
  stream_generate, stream_invoke, stream_rounds, then_stream, then_tools, exceeded, generate_from,
  stream_exceeded,
}
use agent_runtime_kit.Streams.{Stream}
use agent_runtime_kit.Native.Result.{ModelResult}

-- The tool results among events.
abbrev pub tool_results : List AgentEvent → List ToolResult
tool_results [] = []
tool_results (AgentEvent.tool_result r ∷ es) = r ∷ tool_results es
tool_results (AgentEvent.text_delta _ ∷ es) = tool_results es
tool_results (AgentEvent.completed _ ∷ es) = tool_results es

abbrev pub completions : List AgentEvent → List InvocationOutput
completions [] = []
completions (AgentEvent.completed o ∷ es) = o ∷ completions es
completions (AgentEvent.tool_result _ ∷ es) = completions es
completions (AgentEvent.text_delta _ ∷ es) = completions es

abbrev pub outputs : Result InvocationOutput → List InvocationOutput
outputs (ok o) = o ∷ []
outputs (err e) = []

abbrev pub failure_of : Result InvocationOutput → Option Error
failure_of (ok o) = none
failure_of (err e) = some e

completions-append :
    (es fs : List AgentEvent) → completions (es ++ fs) ≡ completions es ++ completions fs
completions-append [] fs = refl
completions-append (AgentEvent.completed o ∷ es) fs = ap (λ l. o ∷ l) (completions-append es fs)
completions-append (AgentEvent.tool_result r ∷ es) fs = completions-append es fs
completions-append (AgentEvent.text_delta d ∷ es) fs = completions-append es fs

-- A run of the tools and its stream give the same result and state, and no completion on the way.
abbrev ToolsAgree :
    {S : Type 0} → Result Progress × S → List AgentEvent × Result Progress × S → Type 0
ToolsAgree (r, s) (es, r', s') = (r' ≡ r) × (s' ≡ s) × (completions es ≡ [])

-- An invocation and its stream: the same state; the stream fails exactly with the error that the
-- invocation raises, and otherwise completes once, with the output.
abbrev pub Agree : {S : Type 0} → Result InvocationOutput × S → Stream AgentEvent × S → Type 0
Agree (r, s) (st, s') = (s' ≡ s) × (st.failure ≡ failure_of r) × (completions st.events ≡ outputs r)

module _ {S : Type 0} (dumps : Fields → String) (services : Services S) where
  step_agree :
      (call : ToolCall) (p : Progress) (run : Progress → S → Result Progress × S)
      (stream : Progress → S → List AgentEvent × Result Progress × S)
      → ((p' : Progress) (s : S) → ToolsAgree (run p' s) (stream p' s))
      → (q : Result ToolResult × S)
      → ToolsAgree
          (then_tools dumps services run (tool_step dumps services call p q))
          (then_stream dumps services stream (tool_step dumps services call p q))
  step_agree call p run stream ih (err e, s) = (refl, refl, refl)
  step_agree call p run stream ih (ok r, s) =
      let (id, s') = services.fresh_id s in ih (record_tool id call r p) s'

  tools_agree :
      (calls : List ToolCall) (p : Progress) (s : S)
      → ToolsAgree (run_tools dumps services calls p s) (stream_tools dumps services calls p s)
  unfolding stream_tools run_tools
  tools_agree [] p s = (refl, refl, refl)
  tools_agree (call ∷ calls) p s =
      step_agree call p (run_tools dumps services calls) (stream_tools dumps services calls)
        (tools_agree calls) (services.invoke_tool call s)

  continue-Agree :
      (run : Progress → S → Result InvocationOutput × S)
      (stream : Progress → S → Stream AgentEvent × S)
      → ((p : Progress) (s : S) → Agree (run p s) (stream p s))
      → (a : Result Progress × S) (b : List AgentEvent × Result Progress × S) → ToolsAgree a b
      → Agree (continue dumps services run a) (stream_continue dumps services stream b)
  continue-Agree run stream ih (ok p, s) (es, r', s') (q, q', c) =
      rw (q, q')
        ((ih p s).0, (ih p s).1, completions-append es (stream p s).0.events ∙ rw c ((ih p s).2))
  continue-Agree run stream ih (err e, s) (es, r', s') (q, q', c) =
      rw (q, q') (refl, refl, completions-append es [] ∙ rw c refl)

  answer-Agree :
      (more : List ToolCall → Progress → S → Result InvocationOutput × S)
      (more' : List ToolCall → Progress → S → Stream AgentEvent × S)
      → ((calls : List ToolCall) (p : Progress) (s : S) → Agree (more calls p s) (more' calls p s))
      → (p : Progress) (q : Result ModelResult × S)
      → Agree (answer dumps services more p q) (stream_answer dumps services more' p ([], q.0, q.1))
  answer-Agree more more' h p (err e, s) = (refl, refl, refl)
  answer-Agree more more' h p (ok r, s) = elim (Bool-cases (is_empty r.tool_calls)) [
    | inl e ↦ rw e (refl, refl, refl)
    | inr e ↦ rw e (h r.tool_calls (record_result r p) s)
  ]

  stream_generate_lem :
      (messages : List Message) (s : S)
      → services.stream ≡ none
      → stream_generate dumps services messages s ≡ (
        [],
        (generate_checked dumps services messages s).0,
        (generate_checked dumps services messages s).1,
      )
  unfolding stream_generate
  stream_generate_lem messages s h = ap (λ o. generate_from dumps services o messages s) h

  rounds-Agree :
      (left : ℕ) (p : Progress) (s : S)
      → services.stream ≡ none
      → Agree (rounds dumps services left p s) (stream_rounds dumps services left p s)
  unfolding rounds stream_rounds
  rounds-Agree zero p s h = rw (stream_generate_lem p.working s h) (
      answer-Agree (exceeded dumps services) (stream_exceeded dumps services)
        (λ calls p' s'. (refl, refl, refl)) p (generate_checked dumps services p.working s))
  rounds-Agree (suc left) p s h = rw (stream_generate_lem p.working s h) (
      answer-Agree
        (λ calls p' s'.
          continue dumps services (rounds dumps services left)
            (run_tools dumps services calls p' s'))
        (λ calls p' s'.
          stream_continue dumps services (stream_rounds dumps services left)
            (stream_tools dumps services calls p' s'))
        (λ calls p' s'.
          continue-Agree (rounds dumps services left) (stream_rounds dumps services left)
            (λ p'' s''. rounds-Agree left p'' s'' h) (run_tools dumps services calls p' s')
            (stream_tools dumps services calls p' s') (tools_agree calls p' s'))
        p (generate_checked dumps services p.working s))

-- Over a model client that does not stream, stream leaves the state that invoke leaves; it fails
-- exactly when invoke raises, with that error and no completed event, and otherwise yields exactly
-- one completed event, whose output is the output that invoke returns.
pub stream-agrees-invoke :
    {S : Type 0} (dumps : Fields → String) (services : Services S) (max : ℕ)
    (messages : List Message) (s : S)
    → services.stream ≡ none
    → Agree (invoke dumps services max messages s) (stream_invoke dumps services max messages s)
unfolding invoke stream_invoke
stream-agrees-invoke dumps services max messages s h =
    rounds-Agree dumps services max (begin messages) s h
