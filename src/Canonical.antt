-- ===== src/Canonical.antt =====
-- The canonical contracts of src/agent_runtime/models.py, as data. A UUID is a number.
pub mod Equality
pub mod Validity
use agent_runtime_kit.Base.{ℕ, String, List, Option}

-- A JSON value; a number is held by its literal text and by the shortest decimal text of its value, which
-- 1 and 1.0 share.
mutual
  pub data Json : Type 0 where
    null : Json
    bool_false bool_true : Json
    number : String → String → Json
    text : String → Json
    array : Items → Json
    object : Fields → Json

  pub data Items : Type 0 where
    nil : Items
    item : Json → Items → Items

  pub data Fields : Type 0 where
    end : Fields
    field : String → Json → Fields → Fields

pub data Framework : Type 0 where
  native langchain langgraph : Framework

pub record ToolCall : Type 0 where
  pub id : String
  pub name : String
  pub arguments : Fields

-- `ContentPart`, by its discriminator.
pub data Part : Type 0 where
  text : String → Part
  tool_call : ToolCall → Part
  tool_result : String → Json → Part

pub data Role : Type 0 where
  system user assistant tool : Role

pub record Message : Type 0 where
  pub id : ℕ
  pub role : Role
  pub content : List Part

pub record Usage : Type 0 where
  pub input_tokens : ℕ
  pub output_tokens : ℕ

pub data ToolStatus : Type 0 where
  succeeded failed : ToolStatus

pub record ToolResult : Type 0 where
  pub id : ℕ
  pub tool_call_id : String
  pub tool_name : String
  pub status : ToolStatus
  pub output : Json
  pub error_code : Option String

pub record AgentDescriptor : Type 0 where
  pub agent_id : String
  pub version : String
  pub framework : Framework
  pub capabilities : List String

pub record RuntimeRequest : Type 0 where
  pub request_id : ℕ
  pub thread_id : Option ℕ
  pub user_id : Option String
  pub messages : List Message
  pub metadata : Fields

pub record InvocationOutput : Type 0 where
  pub messages : List Message
  pub tool_results : List ToolResult
  pub usage : Option Usage
  pub metadata : Fields

pub record RuntimeResponse : Type 0 where
  pub run_id : ℕ
  pub request_id : ℕ
  pub thread_id : ℕ
  pub agent : AgentDescriptor
  pub message : Message
  pub tool_results : List ToolResult
  pub usage : Option Usage
  pub trace_id : Option String
  pub metadata : Fields
