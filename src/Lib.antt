-- ===== src/Lib.antt =====
-- Agent Runtime Kit.
--
-- The program runs agents: a request names an agent, a conversation thread and perhaps an idempotency
-- key, and the runtime answers it with a response that is stored together with the messages of the
-- turn. This development models its core and what it promises.
--
-- Parts and files:
-- - Canonical, Canonical/Equality, Canonical/Validity: the messages, requests and responses of
--   src/agent_runtime/models.py as data, their equality, and which parts go with which role.
-- - Errors: src/agent_runtime/errors.py, and the results of code that may raise.
-- - Database, Database/Batch: the rows of threads, messages and runs of
--   src/agent_runtime/memory/tables.py, and the append of src/agent_runtime/memory/_message_batch.py.
-- - Runs: src/agent_runtime/runs/postgres.py. Rows has the helpers on rows, Claim `claim`, Settle
--   `transition`, `complete` and `fail_if_running`, Recover `recover`, `recover_expired` and the reads.
--   An operation is a function of the tables to its result and the tables that its transaction leaves.
--   History is the step relation on the table of runs and Invariant what its steps preserve; Commits,
--   Steps and ClaimSteps relate the operations to it; Schedule has the interleavings of calls, and
--   Safety, Fencing, Arbitration, Takeover, Outcomes and Sweep their properties.
-- - Memory: src/agent_runtime/memory/postgres.py. Threads has threads and messages, History what an
--   append does to them; Records is the long-term memory, and Recall what is read back from it.
-- - Feedback: src/agent_runtime/feedback/postgres.py. It has `record`; Replay, Keys and Targets
--   have its properties. Search is `search`, Pages what its pages hold, and Paging the pages of any search.
-- - Agents, Agents/Lookup: src/agent_runtime/registry.py.
-- - Http: src/agent_runtime/models_clients/_http.py. Chunks compares the ways to cut a response,
--   Events has what a server sends, and Body the body of a response.
-- - Tools, Tools/Outcomes: src/agent_runtime/tools/registry.py, with `HookManager.run` of
--   src/agent_runtime/hooks/base.py.
-- - Context: src/agent_runtime/context.py. Select is `ContextWindow.select`, Stream
--   `_StreamingSelection` and `select_stream`, Exchange what they share; Kept and Budget have their
--   properties. Context/Agree compares the two: Reference is the scan with nothing dropped, Concluded
--   the result it comes to, Selects and Finished bring each selection there, and Equal joins them.
-- - Streams, Streams/Terminal: `checked_stream` of src/agent_runtime/_streams.py, and its contract.
-- - Native: src/agent_runtime/adapters/native.py. Result is the check of model results, Loop `invoke`
--   and `stream`; Agreement and Bound have their properties.
-- - Runtime: src/agent_runtime/runtime.py. Protocol has the stores, hooks and agents that it is built
--   on, Action the methods that read and write the state of one invocation, Execute `_execute`,
--   Deadline `_invoke`, `_invoke_with_deadline` and `_settle_failure`; Replay, Durable and Settlement
--   have their properties. Stored has the laws that the runtime relies on of its stores, Lawful what
--   it returns over such stores, Postgres the stores of src/agent_runtime/runs/postgres.py and
--   src/agent_runtime/memory/postgres.py as its stores, Reads the rows that their records are read
--   from, and Composed joins them.
-- - Examples: concrete inputs for the theorems.
--
-- How the parts interact: the runtime calls the run store and the conversation store through the
-- operations of Runtime/Protocol, the context selection and the checked stream as they are modelled
-- here, and an agent through an operation that Native implements. The run store's `complete` calls the
-- append of Database/Batch inside its transaction.
--
-- Conventions. UUIDs and times are numbers. A reading of a clock, the randomness of uuid4, the JSON
-- encoder, the decoder of UTF-8, the hash of a request, the model client, the tools and the hooks
-- are arguments. A transaction that raises leaves the tables as they were. In `claim`, the tables
-- may change between the look-up of the key and the insert, by what other transactions commit
-- meanwhile. `recover_expired` selects its batch and then has a transaction for each run: every
-- round has its own reading of the clock, and other transactions may commit before it. The other
-- operations on runs hold the lock of their run's thread throughout. Hooks may change the objects
-- that they are given: what they leave of the messages and of a tool's result is what goes on; a
-- hook that replaces an object in its event, or makes a message invalid, and an agent that changes
-- its input are not modelled. That a column holds one of the five statuses is a constraint of its
-- table. A call of `record` reads the table at its look-ups and again at its insert; rows of runs
-- and of feedback are never deleted, so that their foreign keys hold. Serializing a canonical value
-- and reading it back gives that value.
--
-- Loops are structural recursion; the rounds of the native agent count down from its own limit, so no
-- fuel is needed.
--
-- Not modelled: the provider clients, the framework adapters, the HTTP service, telemetry, migrations
-- and configuration, which are input and output or calls of third-party code; the guardrails; the
-- schemas of tools; shutdown, the queue behind `stream`, and the attributes of an invocation's context
-- in the runtime; the limits on sizes in the canonical models.
pub mod Base
pub mod Canonical
pub mod Errors
pub mod Context
pub mod Database
pub mod Runs
pub mod Streams
pub mod Native
pub mod Runtime
pub mod Http
pub mod Paging
pub mod Feedback
pub mod Memory
pub mod Tools
pub mod Agents
pub mod Examples
