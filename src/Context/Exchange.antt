-- ===== src/Context/Exchange.antt =====
-- What both selections of src/agent_runtime/context.py share: the tool exchanges that are open while
-- messages are scanned, and the result.
use agent_runtime_kit.Canonical.{Message, Part, Role}
use agent_runtime_kit.Base.{
  Bool, List, Option, String, [], false, if◌then◌else◌, none, some, true, ℕ, ◌||◌, ◌∷◌, ◌=ˢ◌,
}

pub record ContextSelection : Type 0 where
  pub messages : List Message
  pub input_bytes : ℕ
  pub selected_bytes : ℕ
  pub history_messages : ℕ
  pub request_messages : ℕ
  pub omitted_history_messages : ℕ
  pub omitted_history_groups : ℕ

unfoldable pub contains : String → List String → Bool
contains id [] = false
contains id (x ∷ xs) = x =ˢ id || contains id xs

unfoldable pub remove : String → List String → List String
remove id [] = []
remove id (x ∷ xs) = if x =ˢ id then xs else x ∷ remove id xs

-- One part against the set of open calls: none where the exchange is ambiguous or unmatched.
unfoldable pub pair_part : Part → List String → Option (List String)
pair_part (Part.text _) pending = some pending
pair_part (Part.tool_call c) pending = if contains c.id pending then none else some (c.id ∷ pending)
pair_part (Part.tool_result id _) pending =
    if contains id pending then some (remove id pending) else none

unfoldable pub pair_parts : List Part → List String → Option (List String)
pair_parts [] pending = some pending
pair_parts (p ∷ ps) pending = elim (pair_part p pending) [
  | none ↦ none
  | some pending' ↦ pair_parts ps pending'
]

abbrev pub is_user : Role → Bool
is_user Role.user = true
is_user _ = false

abbrev pub is_system : Role → Bool
is_system Role.system = true
is_system _ = false
