-- ===== src/Tools/Outcomes.antt =====
-- What `ToolRegistry` of src/agent_runtime/tools/registry.py returns and raises.
use agent_runtime_kit.Errors.{ok, err, Error, Result, is_cancelled, is_kit_error, Result-cases}
use agent_runtime_kit.Tools.{
  Handler, Hook, RegisteredTool, SharedResult, executed, find_tool, finished, invoke_tool,
  is_value_error, prepared, register, revalidated, run_after, run_before, shared, tool_result,
}
use agent_runtime_kit.Canonical.{Fields, Json, ToolResult}
use agent_runtime_kit.Base.{
  Bool, Option-cases, inl, inr, refl, List, Option, String, arith, if◌then◌else◌, none, some, true,
  ℕ, ◌=ˢ◌, ◌||◌, ◌≡◌, ◌⊎◌, false, Bool-cases, ap, sym, ◌∙◌,
}

revalidated_ok : (v : SharedResult) (r : ToolResult) → revalidated v ≡ ok r → v ≡ shared r
unfolding revalidated
revalidated_ok v r h = ground arith

module _ {S : Type 0} where
  -- A registration that succeeds is of a new name; the tool is found under it, and every other
  -- look-up is as it was.
  pub find_tool-register :
      (tool : RegisteredTool S) (timeout_ok : Bool) (tools tools' : List (RegisteredTool S))
      (name : String)
      → register tool timeout_ok tools ≡ ok tools'
      → (find_tool tool.name tools ≡ none)
        × (find_tool name tools' ≡ (if tool.name =ˢ name then some tool else find_tool name tools))
  unfolding register find_tool
  find_tool-register tool timeout_ok tools tools' name h = ground arith

  -- The call of a handler that a tool result stands for: by a registered tool of that name, on the
  -- arguments that it has validated, and the fresh id of the result.
  pub record IsRun (fresh_id : S → ℕ × S) (tools : List (RegisteredTool S)) (name : String)
      (arguments : Fields) (output : Json) (id : ℕ) (s : S) : Type 0 where
    pub tool : RegisteredTool S
    pub found : find_tool name tools ≡ some tool
    pub handler : Handler S
    pub accepted : tool.validate arguments ≡ ok handler
    pub before : S
    pub after : S
    pub ran : handler before ≡ (ok (some output), after)
    pub numbered : fresh_id after ≡ (id, s)

  -- What is known of a tool result that is returned: the handler's output has been made a result that
  -- has succeeded, the hooks have left that in some shape, and the shape is valid and returned.
  pub record IsResultOf (fresh_id : S → ℕ × S) (hooks : Option (List (Hook S)))
      (tools : List (RegisteredTool S)) (name : String) (arguments : Fields) (tool_call_id : String)
      (r : ToolResult) (s : S) : Type 0 where
    pub output : Json
    pub id : ℕ
    pub built : S
    pub run : IsRun fresh_id tools name arguments output id built
    pub left :
        run_after fresh_id hooks name tool_call_id
          (shared (tool_result id tool_call_id name output))
          built
        ≡ (ok (shared r), s)

  module _ (fresh_id : S → ℕ × S) (hooks : Option (List (Hook S))) where
    finished_ok :
        (r : ToolResult) (p : Result SharedResult × S) (s' : S)
        → finished fresh_id hooks p ≡ (ok r, s')
        → p ≡ (ok (shared r), s')
    finished_ok r (ok v, s) s' h =
        let e : v ≡ shared r = revalidated_ok v r (ground arith) in
        let q : s ≡ s' = ground arith in rw (e, q) refl
    finished_ok r (err e, s) s' h = absurd (ground arith)

    executed_ok :
        (name tool_call_id : String) (r : ToolResult) (q : Result (Option Json) × S) (s' : S)
        → executed fresh_id hooks name tool_call_id q ≡ (ok r, s')
        → (output : Json) × (q ≡ (ok (some output), q.1))
          × (run_after fresh_id hooks name tool_call_id
                (shared (tool_result (fresh_id q.1).0 tool_call_id name output))
                (fresh_id q.1).1
              ≡ (ok (shared r), s'))
    executed_ok name tool_call_id r (err e, s) s' h = absurd (ground arith)
    executed_ok name tool_call_id r (ok none, s) s' h = absurd (ground arith)
    executed_ok name tool_call_id r (ok (some output), s) s' h =
        (output, refl, finished_ok r _ s' h)

    prepared_ok :
        (handler : Handler S) (name tool_call_id : String) (r : ToolResult) (p : Result Fields × S)
        (s' : S)
        → prepared fresh_id hooks handler name tool_call_id p ≡ (ok r, s')
        → executed fresh_id hooks name tool_call_id (handler p.1) ≡ (ok r, s')
    prepared_ok handler name tool_call_id r (ok _, s) s' h = h
    prepared_ok handler name tool_call_id r (err e, s) s' h = absurd (ground arith)

    -- When invoke returns a result, a registered tool of that name has validated the arguments and
    -- its handler has given a JSON output for them; what the after-tool hooks have left of the
    -- result of that output, which had succeeded under the id of the call and the name, has passed
    -- the validation again in every field and is the result that is returned, over the state that
    -- the hooks left.
    pub invoke_tool-IsResultOf :
        (tools : List (RegisteredTool S)) (name : String) (arguments : Fields)
        (tool_call_id : String) (s s' : S) (r : ToolResult)
        → invoke_tool fresh_id hooks tools name arguments tool_call_id s ≡ (ok r, s')
        → IsResultOf fresh_id hooks tools name arguments tool_call_id r s'
    unfolding invoke_tool
    invoke_tool-IsResultOf tools name arguments tool_call_id s s' r h =
        elim (Option-cases (find_tool name tools)) [
          | inl e ↦ absurd (ground arith)
          | inr (tool, e) ↦ elim (Result-cases (tool.validate arguments)) [
            | inl (x, no_good) ↦ absurd (ground arith)
            | inr (handler, good) ↦
                let p = run_before fresh_id hooks name tool_call_id arguments s in
                let h' : prepared fresh_id hooks handler name tool_call_id p ≡ (ok r, s') =
                  rw (e, good, invoke_tool) at h in
                let (output, ran, left) =
                  executed_ok name tool_call_id r (handler p.1) s'
                    (prepared_ok handler name tool_call_id r p s' h') in
                record {
                  output = output;
                  id = (fresh_id (handler p.1).1).0;
                  built = (fresh_id (handler p.1).1).1;
                  run = record {
                    tool = tool;
                    found = e;
                    handler = handler;
                    accepted = good;
                    before = p.1;
                    after = (handler p.1).1;
                    ran = ran;
                    numbered = refl;
                  };
                  left = left;
                }
          ]
        ]

  executed_contained :
      (fresh_id : S → ℕ × S) (name tool_call_id : String) (q : Result (Option Json) × S) (s' : S)
      (e : Error)
      → executed fresh_id none name tool_call_id q ≡ (err e, s')
      → (is_kit_error e || is_cancelled e) ≡ true
  unfolding run_after revalidated
  executed_contained fresh_id name tool_call_id (err x, s) s' e h = ground arith
  executed_contained fresh_id name tool_call_id (ok none, s) s' e h = ground arith
  executed_contained fresh_id name tool_call_id (ok (some output), s) s' e h = ground arith

  -- What invoke raises without hooks is an error of the kit or the cancellation, whatever the
  -- handler raises, or an exception that is no ValueError and that the input model of the tool of
  -- that name has raised for the arguments.
  pub invoke_tool_contained :
      (fresh_id : S → ℕ × S) (tools : List (RegisteredTool S)) (name : String) (arguments : Fields)
      (tool_call_id : String) (s s' : S) (e : Error)
      → invoke_tool fresh_id none tools name arguments tool_call_id s ≡ (err e, s')
      → ((is_kit_error e || is_cancelled e) ≡ true)
        ⊎ ((tool : RegisteredTool S) × (find_tool name tools ≡ some tool)
            × (tool.validate arguments ≡ err e)
            × (is_value_error e ≡ false))
  unfolding invoke_tool run_before
  invoke_tool_contained fresh_id tools name arguments tool_call_id s s' e h =
      elim (Option-cases (find_tool name tools)) [
        | inl n ↦ inl (ground arith)
        | inr (tool, f) ↦ elim (Result-cases (tool.validate arguments)) [
          | inl (x, no_good) ↦ elim (Bool-cases (is_value_error x)) [
            | inl v ↦ inl (ground arith)
            | inr v ↦
                let q : e ≡ x = ground arith in
                inr (tool, f, no_good ∙ ap (λ y. err y) (sym q), ap is_value_error q ∙ v)
          ]
          | inr (handler, good) ↦
              let q : executed fresh_id none name tool_call_id (handler s) ≡ (err e, s') =
                rw (f, good, invoke_tool, run_before) at h in
              inl (executed_contained fresh_id name tool_call_id (handler s) s' e q)
        ]
      ]
