-- ===== src/Database/Batch.antt =====
-- src/agent_runtime/memory/_message_batch.py: the append of a batch of messages to a thread, inside a
-- transaction of the caller. An error leaves the caller's tables as they were: it rolls back.
use agent_runtime_kit.Base.{
  ℕ, String, List, [], ◌∷◌, Option, none, some, Bool, true, false, ◌==◌, ◌=ˢ◌, ltb, ◌+◌, ◌||◌, ◌&&◌,
  if◌then◌else◌,
}
use agent_runtime_kit.Canonical.{Message}
use agent_runtime_kit.Errors.{Result, ok, err, Error, ◌>>=◌}
use agent_runtime_kit.Database.{ThreadRow, MessageRow, Db}

-- `coalesce(max(sequence), 0)` over the rows of the thread
unfoldable pub last_sequence : ℕ → List MessageRow → ℕ
last_sequence thread_id [] = 0
last_sequence thread_id (m ∷ ms) =
    let rest = last_sequence thread_id ms in
    if m.thread_id == thread_id then (if ltb rest m.sequence then m.sequence else rest) else rest

-- the rows that `enumerate(messages, start=1)` gives, behind `last`
unfoldable pub batch_rows : ℕ → ℕ → List Message → List MessageRow
batch_rows thread_id last [] = []
batch_rows thread_id last (m ∷ ms) =
    record {
      id = m.id;
      thread_id = thread_id;
      sequence = last + 1;
      role = m.role;
      content = m.content;
    }
    ∷ batch_rows thread_id (last + 1) ms

unfoldable pub has_message : ℕ → List MessageRow → Bool
has_message id [] = false
has_message id (m ∷ ms) = m.id == id || has_message id ms

-- The flush: the primary key refuses a message id that is there already.
unfoldable pub insert_messages : List MessageRow → List MessageRow → Result (List MessageRow)
insert_messages [] table = ok table
insert_messages (m ∷ ms) table =
    if has_message m.id table then err Error.integrity_error else insert_messages ms (m ∷ table)

-- `thread.updated_at = now`
unfoldable pub touch_thread : ℕ → ℕ → List ThreadRow → List ThreadRow
touch_thread thread_id now [] = []
touch_thread thread_id now (t ∷ ts) =
    (if t.id == thread_id then record t { updated_at = now } else t) ∷ touch_thread thread_id now ts

-- `query.where(namespace == ...)` when a namespace is given
abbrev pub in_namespace : Option String → ThreadRow → Bool
in_namespace none t = true
in_namespace (some n) t = t.namespace =ˢ n

unfoldable pub find_scoped : ℕ → Option String → List ThreadRow → Option ThreadRow
find_scoped k namespace [] = none
find_scoped k namespace (t ∷ ts) =
    if t.id == k && in_namespace namespace t then some t else find_scoped k namespace ts

abbrev pub require_row {ℓ} : {A : Type ℓ} → Option A → Error → Result A
require_row none e = err e
require_row (some a) e = ok a

abbrev append_rows : ℕ → ℕ → List Message → Db → Result (List MessageRow × Db)
append_rows thread_id now [] db = ok ([], db)
append_rows thread_id now (m ∷ ms) db =
    let rows = batch_rows thread_id (last_sequence thread_id db.messages) (m ∷ ms) in
    insert_messages rows db.messages >>= λ table.
    ok (rows, record db { messages = table; threads = touch_thread thread_id now db.threads })

-- `now` is what `datetime.now` reads.
unfoldable pub append_message_batch :
    ℕ → ℕ → List Message → Option String → Db → Result (List MessageRow × Db)
append_message_batch now thread_id messages namespace db =
    require_row (find_scoped thread_id namespace db.threads) Error.thread_not_found >>= λ _.
    append_rows thread_id now messages db
