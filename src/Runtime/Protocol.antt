-- ===== src/Runtime/Protocol.antt =====
-- What src/agent_runtime/runtime.py is built on: the `RunStore` protocol of
-- src/agent_runtime/runs/base.py, the `MemoryStore` protocols of src/agent_runtime/memory/base.py, the
-- hooks and the invoker, as operations on a state of their own.
use agent_runtime_kit.Canonical.{
  AgentDescriptor, Fields, InvocationOutput, Message, RuntimeRequest, RuntimeResponse,
}
use agent_runtime_kit.Errors.{Result}
use agent_runtime_kit.Base.{Bool, List, Option, String, ℕ}
use agent_runtime_kit.Streams.{Stream}
use agent_runtime_kit.Database.{RunStatus}
use agent_runtime_kit.Native.Loop.{AgentEvent}
use agent_runtime_kit.Runs.Claim.{ClaimRequest}
use agent_runtime_kit.Runs.Rows.{RunClaim, RunRecord}

-- A thread is its id: the runtime reads nothing else of a `ThreadRecord`.
pub record Stores (S : Type 0) : Type 0 where
  pub get_by_idempotency : String → String → S → Result (Option RunRecord) × S
  pub claim : ClaimRequest → S → Result RunClaim × S
  pub transition : ℕ → RunStatus → ℕ → S → Result RunRecord × S
  pub complete : ℕ → ℕ → List Message → RuntimeResponse → S → Result RunRecord × S
  pub fail_if_running : ℕ → ℕ → String → RunStatus → S → Result RunRecord × S
  pub recover : ℕ → S → Result RunRecord × S
  pub create_thread : String → Option String → S → Result ℕ × S
  pub get_thread : ℕ → String → S → Result (Option ℕ) × S
  pub get_messages : ℕ → String → S → Result (List Message) × S
  pub stream_messages : ℕ → String → S → List (Result Message) × S

-- `HookPhase`, the phases that the runtime uses
pub data Phase : Type 0 where
  before_model after_model : Phase

pub record Invocation : Type 0 where
  pub run_id : ℕ
  pub thread_id : ℕ
  pub user_id : Option String
  pub messages : List Message
  pub metadata : Fields

-- An `AgentInvoker`; `stream` is there when it is a `StreamingAgentInvoker`.
pub record Invoker (S : Type 0) : Type 0 where
  pub descriptor : AgentDescriptor
  pub invoke : Invocation → S → Result InvocationOutput × S
  pub stream : Option (Invocation → S → Stream AgentEvent × S)

-- The runtime's own configuration and collaborators. Durations are in the stores' unit of time.
-- `hooks` is `HookManager.run`: it gives what the hooks have made of the messages, which they may
-- change in place, by their places in the list. `digest` is the hash of a request's canonical JSON, `encode` the length of a message's, and
-- `trace_id` what the telemetry gives.
pub record Runtime (S : Type 0) : Type 0 where
  pub stores : Stores S
  pub agents : String → Result (Invoker S)
  pub hooks : Phase → List Message → S → Result (ℕ → Message → Message) × S
  pub namespace : String
  pub timeout : ℕ
  pub cleanup_timeout : ℕ
  pub context_window : Option ℕ
  pub stream_history : Bool
  pub closing : Bool
  pub digest : RuntimeRequest → String
  pub encode : Message → Option ℕ
  pub fresh_id : S → ℕ × S
  pub trace_id : S → Option String
  pub expired : S → Bool
