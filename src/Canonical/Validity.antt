-- ===== src/Canonical/Validity.antt =====
-- `Message.validate_tool_content` of src/agent_runtime/models.py: which parts go with which role.
use agent_runtime_kit.Canonical.{Message, Part, Role}
use agent_runtime_kit.Base.{Bool, List, [], false, is_empty, not, true, ◌&&◌, ◌∷◌}

abbrev pub is_result : Part → Bool
is_result (Part.tool_result _ _) = true
is_result _ = false

abbrev pub is_call : Part → Bool
is_call (Part.tool_call _) = true
is_call _ = false

-- The parts that a role may hold: only results for a tool, calls for the assistant alone.
abbrev pub allows : Role → Part → Bool
allows Role.tool p = is_result p
allows Role.assistant p = not (is_result p)
allows _ p = not (is_result p) && not (is_call p)

unfoldable pub all_allowed : Role → List Part → Bool
all_allowed r [] = true
all_allowed r (p ∷ ps) = allows r p && all_allowed r ps

-- A message has a part at least, and its parts fit its role.
unfoldable pub valid_tool_content : Message → Bool
valid_tool_content m = not (is_empty m.content) && all_allowed m.role m.content
