-- ===== src/Canonical/Equality.antt =====
-- Equality of canonical values, as Python's `==` on the models of src/agent_runtime/models.py.
use agent_runtime_kit.Base.{
  Bool, true, false, Option, none, some, String, List, [], ◌∷◌, ◌=ˢ◌, ℕ, ◌+◌, ◌==◌, ◌&&◌,
  if◌then◌else◌,
}
use agent_runtime_kit.Canonical.{Fields, Framework, Items, Json, Message, Part, Role}

-- The value of a key.
unfoldable pub field_of : String → Fields → Option Json
field_of k Fields.end = none
field_of k (Fields.field l v rest) = if l =ˢ k then some v else field_of k rest

unfoldable pub field_count : Fields → ℕ
field_count Fields.end = 0
field_count (Fields.field k v rest) = field_count rest + 1

-- `a == b` on JSON values: numbers by their value, True and False as 1 and 0, lists in order, and
-- dictionaries, whose keys are distinct, in any order.
unfoldable mutual
  pub same_json : Json → Json → Bool
  same_json Json.null Json.null = true
  same_json Json.bool_false Json.bool_false = true
  same_json Json.bool_true Json.bool_true = true
  same_json Json.bool_false (Json.number _ n) = n =ˢ "0"
  same_json Json.bool_true (Json.number _ n) = n =ˢ "1"
  same_json (Json.number _ n) Json.bool_false = n =ˢ "0"
  same_json (Json.number _ n) Json.bool_true = n =ˢ "1"
  same_json (Json.number _ n) (Json.number _ m) = n =ˢ m
  same_json (Json.text s) (Json.text t) = s =ˢ t
  same_json (Json.array xs) (Json.array ys) = same_items xs ys
  same_json (Json.object xs) (Json.object ys) = field_count xs == field_count ys && fields_in xs ys
  same_json _ _ = false

  pub same_items : Items → Items → Bool
  same_items Items.nil Items.nil = true
  same_items (Items.item x xs) (Items.item y ys) = same_json x y && same_items xs ys
  same_items _ _ = false

  pub fields_in : Fields → Fields → Bool
  fields_in Fields.end ys = true
  fields_in (Fields.field k v rest) ys =
      (elim (field_of k ys) [ none ↦ false | some w ↦ same_json v w ]) && fields_in rest ys

abbrev pub same_part : Part → Part → Bool
same_part (Part.text s) (Part.text t) = s =ˢ t
same_part (Part.tool_call c) (Part.tool_call d) =
    c.id =ˢ d.id
    && c.name =ˢ d.name
    && same_json (Json.object c.arguments) (Json.object d.arguments)
same_part (Part.tool_result k x) (Part.tool_result l y) = k =ˢ l && same_json x y
same_part _ _ = false

unfoldable pub same_parts : List Part → List Part → Bool
same_parts [] [] = true
same_parts (x ∷ xs) (y ∷ ys) = same_part x y && same_parts xs ys
same_parts _ _ = false

abbrev pub same_role : Role → Role → Bool
same_role Role.system Role.system = true
same_role Role.user Role.user = true
same_role Role.assistant Role.assistant = true
same_role Role.tool Role.tool = true
same_role _ _ = false

-- `a == b` on messages.
unfoldable pub same_message : Message → Message → Bool
same_message a b = a.id == b.id && same_role a.role b.role && same_parts a.content b.content

abbrev pub same_framework : Framework → Framework → Bool
same_framework Framework.native Framework.native = true
same_framework Framework.langchain Framework.langchain = true
same_framework Framework.langgraph Framework.langgraph = true
same_framework _ _ = false

-- `a == b` on optional texts.
abbrev pub same_text? : Option String → Option String → Bool
same_text? none none = true
same_text? (some a) (some b) = a =ˢ b
same_text? _ _ = false

abbrev pub is_assistant : Role → Bool
is_assistant Role.assistant = true
is_assistant _ = false

abbrev last_or : Option Message → Message → Option Message
last_or (some x) m = some x
last_or none m = if is_assistant m.role then some m else none

-- `next((m for m in reversed(messages) if m.role == "assistant"), None)`
unfoldable pub last_assistant : List Message → Option Message
last_assistant [] = none
last_assistant (m ∷ ms) = last_or (last_assistant ms) m
