-- ===== src/Examples/Tooling.antt =====
-- Tools of src/agent_runtime/tools/registry.py: one that echoes and one that times out.
use agent_runtime_kit.Errors.{ok, err, Error, is_cancelled, is_kit_error}
use agent_runtime_kit.Tools.{
  run_hooks, RegisteredTool, find_tool, invoke_tool, register, tool_result, Hook, is_value_error,
  revalidated, run_after, run_before,
}
use agent_runtime_kit.Canonical.{Fields, Json, ToolResult}
use agent_runtime_kit.Base.{[], none, refl, some, true, ℕ, ◌+◌, ◌||◌, ◌∷◌, ◌≡◌, false, ◌⊎◌}
use agent_runtime_kit.Tools.Outcomes.{
  IsResultOf, find_tool-register, invoke_tool-IsResultOf, invoke_tool_contained,
}

abbrev echo : RegisteredTool ℕ
echo = record { name = "echo"; validate = λ arguments. ok (λ s. (ok (some Json.null), s + 1)) }

abbrev slow : RegisteredTool ℕ
slow = record { name = "slow"; validate = λ arguments. ok (λ s. (err Error.timeout_error, s)) }

abbrev count_up : ℕ → ℕ × ℕ
count_up s = (s, s + 1)

-- A tool whose input model has a validator that looks up a missing key.
abbrev fragile : RegisteredTool ℕ
fragile = record { name = "fragile"; validate = λ arguments. err Error.other_error }

-- A hook that hides the output, and one that sets an output which is not JSON.
abbrev hiding : Hook ℕ
hiding = record {
  before_tool = λ name tool_call_id arguments s. (ok arguments, s + 10);
  after_tool = λ name tool_call_id result s.
      (ok (record result { output = some (Json.text "hidden") }), s + 10);
}

abbrev breaking : Hook ℕ
breaking = record hiding {
  after_tool = λ name tool_call_id result s. (ok (record result { output = none }), s);
}

registers : register echo true (slow ∷ []) ≡ ok (echo ∷ slow ∷ [])
unfolding register find_tool
registers = refl

find_tool-register_example :
    (find_tool "echo" (slow ∷ []) ≡ none)
    × (find_tool "slow" (echo ∷ slow ∷ []) ≡ find_tool "slow" (slow ∷ []))
find_tool-register_example =
    find_tool-register echo true (slow ∷ []) (echo ∷ slow ∷ []) "slow" registers

abbrev hidden : ToolResult
hidden = record (tool_result 11 "c" "echo" Json.null) { output = Json.text "hidden" }

echoes :
    invoke_tool count_up (some (hiding ∷ [])) (echo ∷ slow ∷ []) "echo" Fields.end "c" 0
    ≡ (ok hidden, 22)
unfolding invoke_tool find_tool run_hooks run_before run_after revalidated
echoes = refl

-- What a hook makes of the output is validated again.
breaks :
    invoke_tool count_up (some (hiding ∷ breaking ∷ [])) (echo ∷ slow ∷ []) "echo" Fields.end "c" 0
    ≡ (err Error.tool_execution_failed, 32)
unfolding invoke_tool find_tool run_hooks run_before run_after revalidated
breaks = refl

invoke_tool-IsResultOf_example :
    IsResultOf count_up (some (hiding ∷ [])) (echo ∷ slow ∷ []) "echo" Fields.end "c" hidden 22
invoke_tool-IsResultOf_example =
    invoke_tool-IsResultOf count_up (some (hiding ∷ [])) (echo ∷ slow ∷ []) "echo" Fields.end "c" 0
      22 hidden echoes

times_out :
    invoke_tool count_up none (echo ∷ slow ∷ []) "slow" Fields.end "c" 0
    ≡ (err Error.tool_timeout, 0)
unfolding invoke_tool find_tool run_before
times_out = refl

fails_to_validate :
    invoke_tool count_up none (fragile ∷ []) "fragile" Fields.end "c" 0 ≡ (err Error.other_error, 0)
unfolding invoke_tool find_tool
fails_to_validate = refl

invoke_tool_contained_example :
    ((is_kit_error Error.other_error || is_cancelled Error.other_error) ≡ true)
    ⊎ ((tool : RegisteredTool ℕ) × (find_tool "fragile" (fragile ∷ []) ≡ some tool)
        × (tool.validate Fields.end ≡ err Error.other_error)
        × (is_value_error Error.other_error ≡ false))
invoke_tool_contained_example =
    invoke_tool_contained count_up (fragile ∷ []) "fragile" Fields.end "c" 0 0 Error.other_error
      fails_to_validate
