-- ===== src/Memory/Threads.antt =====
-- Threads and their messages in src/agent_runtime/memory/postgres.py.
use agent_runtime_kit.Errors.{ok, err, Error, Result}
use agent_runtime_kit.Canonical.{Fields, Message}
use agent_runtime_kit.Base.{
  Bool, List, Option, String, [], if◌then◌else◌, leb, map, none, some, ℕ, ◌&&◌, ◌==◌, ◌=ˢ◌, ◌∷◌,
}
use agent_runtime_kit.Database.{Db, MessageRow, ThreadRow, find_thread}
use agent_runtime_kit.Database.Batch.{append_message_batch, find_scoped}
use agent_runtime_kit.Runs.Claim.{has_key}
use agent_runtime_kit.Runs.Rows.{commit}

-- `external_key == k` within the namespace
abbrev pub names_thread : String → String → ThreadRow → Bool
names_thread namespace key t = t.namespace =ˢ namespace && has_key t.external_key key

unfoldable pub find_external : String → String → List ThreadRow → Option ThreadRow
find_external namespace key [] = none
find_external namespace key (t ∷ ts) =
    if names_thread namespace key t then some t else find_external namespace key ts

abbrev pub new_thread : ℕ → ℕ → String → Option String → Option String → Fields → ThreadRow
new_thread now id namespace external_key user_key metadata = record {
  id = id;
  namespace = namespace;
  external_key = external_key;
  user_key = user_key;
  metadata = metadata;
  created_at = now;
  updated_at = now;
}

-- The insert of a row, refused if its id is taken.
abbrev insert_thread : ThreadRow → Db → Result (ThreadRow × Db)
insert_thread t db = elim (find_thread t.id db.threads) [
  | none ↦ ok (t, record db { threads = t ∷ db.threads })
  | some _ ↦ err Error.integrity_error
]

-- `create_thread`: `id` is the `uuid4`, `now` the server's clock.
unfoldable pub create_thread :
    ℕ → ℕ → String → Option String → Option String → Fields → Db → Result ThreadRow × Db
create_thread now id namespace none user_key metadata db =
    commit db (insert_thread (new_thread now id namespace none user_key metadata) db)
create_thread now id namespace (some key) user_key metadata db =
    elim (find_external namespace key db.threads) [
      | some t ↦ (ok t, db)
      | none ↦
          commit db (insert_thread (new_thread now id namespace (some key) user_key metadata) db)
    ]

-- `get_thread`
unfoldable pub get_thread : ℕ → Option String → Db → Option ThreadRow
get_thread thread_id namespace db = find_scoped thread_id namespace db.threads

-- `where(thread_id == ...)`
unfoldable pub thread_rows : ℕ → List MessageRow → List MessageRow
thread_rows k [] = []
thread_rows k (m ∷ ms) = let rest = thread_rows k ms in if m.thread_id == k then m ∷ rest else rest

-- `order_by(sequence)`
unfoldable pub insert_by_sequence : MessageRow → List MessageRow → List MessageRow
insert_by_sequence m [] = m ∷ []
insert_by_sequence m (x ∷ xs) =
    if leb m.sequence x.sequence then m ∷ x ∷ xs else x ∷ insert_by_sequence m xs

unfoldable pub sort_by_sequence : List MessageRow → List MessageRow
sort_by_sequence [] = []
sort_by_sequence (m ∷ ms) = insert_by_sequence m (sort_by_sequence ms)

-- `_message_model`, the message of a row
abbrev pub message_of : MessageRow → Message
message_of m = record { id = m.id; role = m.role; content = m.content }

-- the messages of a thread in the order of their sequence numbers
unfoldable pub transcript : ℕ → List MessageRow → List Message
transcript k table = map message_of (sort_by_sequence (thread_rows k table))

-- `get_messages`
unfoldable pub get_messages : ℕ → Option String → Db → Result (List Message)
get_messages thread_id none db = ok (transcript thread_id db.messages)
get_messages thread_id (some n) db = elim (find_scoped thread_id (some n) db.threads) [
  | none ↦ err Error.thread_not_found
  | some _ ↦ ok (transcript thread_id db.messages)
]

unfoldable pub yielded : List Message → List (Result Message)
yielded [] = []
yielded (m ∷ ms) = ok m ∷ yielded ms

-- `stream_messages`: the same messages one by one, or the error in their place.
unfoldable pub stream_messages : ℕ → Option String → Db → List (Result Message)
stream_messages thread_id namespace db = elim (get_messages thread_id namespace db) [
  | err e ↦ err e ∷ []
  | ok ms ↦ yielded ms
]

-- `append_messages`
unfoldable pub append_messages :
    ℕ → ℕ → List Message → Option String → Db → Result (List MessageRow) × Db
append_messages now thread_id messages namespace db =
    commit db (append_message_batch now thread_id messages namespace db)
