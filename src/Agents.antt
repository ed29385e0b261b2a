-- ===== src/Agents.antt =====
-- `AgentRegistry` of src/agent_runtime/registry.py: the dictionary of invokers by their ids, as an
-- association list. The order of texts is a parameter.
pub mod Lookup
use agent_runtime_kit.Canonical.{AgentDescriptor}
use agent_runtime_kit.Runtime.Protocol.{Invoker}
use agent_runtime_kit.Errors.{Error, Result, err, ok}
use agent_runtime_kit.Base.{
  Bool, List, Option, String, [], if◌then◌else◌, map, none, some, ◌++◌, ◌=ˢ◌, ◌∷◌,
}

module _ {S : Type 0} where
  unfoldable pub find_agent : String → List (String × Invoker S) → Option (Invoker S)
  find_agent id [] = none
  find_agent id ((k, a) ∷ rest) = if k =ˢ id then some a else find_agent id rest

  -- `register`
  unfoldable pub register_agent :
      Invoker S → List (String × Invoker S) → Result (List (String × Invoker S))
  register_agent invoker agents = elim (find_agent invoker.descriptor.agent_id agents) [
    | some _ ↦ err Error.duplicate_registration
    | none ↦ ok (agents ++ (invoker.descriptor.agent_id, invoker) ∷ [])
  ]

  -- `get`
  unfoldable pub get_agent : String → List (String × Invoker S) → Result (Invoker S)
  get_agent id agents = elim (find_agent id agents) [
    | none ↦ err Error.unknown_agent
    | some a ↦ ok a
  ]

  -- `sorted(items, key=...)`, by what `before` says of two ids
  unfoldable pub insert_by_id :
      (String → String → Bool)
      → String × Invoker S
      → List (String × Invoker S)
      → List (String × Invoker S)
  insert_by_id before a [] = a ∷ []
  insert_by_id before a (b ∷ bs) =
      if before b.0 a.0 then b ∷ insert_by_id before a bs else a ∷ b ∷ bs

  unfoldable pub sort_by_id :
      (String → String → Bool) → List (String × Invoker S) → List (String × Invoker S)
  sort_by_id before [] = []
  sort_by_id before (a ∷ agents) = insert_by_id before a (sort_by_id before agents)

  -- `list_descriptors`
  unfoldable pub list_descriptors :
      (String → String → Bool) → List (String × Invoker S) → List AgentDescriptor
  list_descriptors before agents =
      map (λ (a : String × Invoker S). a.1.descriptor) (sort_by_id before agents)
