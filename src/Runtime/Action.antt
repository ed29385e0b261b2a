-- ===== src/Runtime/Action.antt =====
-- Methods of src/agent_runtime/runtime.py that await the stores: they read and write the state of one
-- invocation and may raise. What was written before a raise stays written.
use agent_runtime_kit.Errors.{ok, err, Error, Result}
use agent_runtime_kit.Canonical.{AgentDescriptor, ToolResult}
use agent_runtime_kit.Base.{List, Option, String, ℕ}

-- `StreamStarted`, `StreamTextDelta` and `StreamToolResult` of src/agent_runtime/models.py.
pub data RuntimeEvent : Type 0 where
  started : ℕ → ℕ → ℕ → AgentDescriptor → RuntimeEvent
  text_delta : String → RuntimeEvent
  tool_result : ToolResult → RuntimeEvent

-- The stores' state, `_InvocationState.run_id`, and the events that were emitted.
pub record Local (S : Type 0) : Type 0 where
  pub store : S
  pub run_id : Option ℕ
  pub emitted : List RuntimeEvent

abbrev pub Action : Type 0 → Type 0 → Type 0
Action S A = Local S → Result A × Local S

module _ {S : Type 0} where
  pub pure : {A : Type 0} → A → Action S A
  pure a l = (ok a, l)

  pub raise : {A : Type 0} → Error → Action S A
  raise e l = (err e, l)

  pub lift : {A : Type 0} → Result A → Action S A
  lift r l = (r, l)

  -- a call of a store
  pub call : {A : Type 0} → (S → Result A × S) → Action S A
  call f l = let (r, s) = f l.store in (r, record l { store = s })

  pub set_run : Option ℕ → Action S (Unit {0})
  set_run k l = (ok tt, record l { run_id = k })

  abbrev pub continue_with :
      {A B : Type 0} → (A → Action S B) → Result A × Local S → Result B × Local S
  continue_with f (ok a, l) = f a l
  continue_with f (err e, l) = (err e, l)

  infixl 5 ◌>>=◌ ◌>>◌
  -- opening this opens the other actions too
  unfoldable pub ◌>>=◌ : {A B : Type 0} → Action S A → (A → Action S B) → Action S B
  unfolding pure raise lift call set_run
  ◌>>=◌ m f l = continue_with f (m l)

  abbrev pub ◌>>◌ : {A B : Type 0} → Action S A → Action S B → Action S B
  m >> k = m >>= λ _. k
