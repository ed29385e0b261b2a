-- ===== src/Examples/Appended.antt =====
-- An append of src/agent_runtime/memory/_message_batch.py to a thread with one message.
use agent_runtime_kit.Errors.{ok}
use agent_runtime_kit.Canonical.{Part, Role}
use agent_runtime_kit.Base.{Bool-cases, [], inl, inr, none, refl, ◌==◌, ◌∷◌, ◌≡◌}
use agent_runtime_kit.Database.{Db, MessageRow}
use agent_runtime_kit.Database.Batch.{
  append_message_batch, batch_rows, find_scoped, has_message, insert_messages, last_sequence,
  touch_thread,
}
use agent_runtime_kit.Memory.History.{Appends, IsNumbered, append_message_batch-Appends}
use agent_runtime_kit.Memory.Threads.{thread_rows}
use agent_runtime_kit.Examples.Tables.{thread_named, two_threads, stored_response}

abbrev greeting : MessageRow
greeting = record {
  id = 4;
  thread_id = 1;
  sequence = 1;
  role = Role.user;
  content = Part.text "hi" ∷ [];
}

abbrev one_message : Db
one_message = record two_threads { messages = greeting ∷ [] }

abbrev reply : MessageRow
reply = record {
  id = 6;
  thread_id = 1;
  sequence = 2;
  role = Role.assistant;
  content = Part.text "hello" ∷ [];
}

one_message-IsNumbered : IsNumbered one_message.messages
unfolding thread_rows
one_message-IsNumbered k = elim (Bool-cases (1 == k)) [ inl e ↦ rw e (refl, tt) | inr e ↦ rw e tt ]

appends :
    append_message_batch 9 1 (stored_response.message ∷ []) none one_message
    ≡ ok (
      reply ∷ [],
      record one_message {
        messages = reply ∷ greeting ∷ [];
        threads = record (thread_named 1) { updated_at = 9 } ∷ thread_named 2 ∷ [];
      },
    )
unfolding append_message_batch find_scoped batch_rows last_sequence insert_messages has_message
    touch_thread
appends = refl

append_message_batch-Appends_example :
    Appends 1 (stored_response.message ∷ []) one_message.messages (reply ∷ greeting ∷ [])
append_message_batch-Appends_example =
    append_message_batch-Appends 9 1 (stored_response.message ∷ []) none one_message
      (
        reply ∷ [],
        record one_message {
          messages = reply ∷ greeting ∷ [];
          threads = record (thread_named 1) { updated_at = 9 } ∷ thread_named 2 ∷ [];
        },
      )
      one_message-IsNumbered appends
