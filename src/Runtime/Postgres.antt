-- ===== src/Runtime/Postgres.antt =====
-- The runtime of src/agent_runtime/runtime.py over the stores of src/agent_runtime/runs/postgres.py and
-- src/agent_runtime/memory/postgres.py.
use agent_runtime_kit.Errors.{Result, ok, err}
use agent_runtime_kit.Canonical.{Fields}
use agent_runtime_kit.Database.{Db, ThreadRow}
use agent_runtime_kit.Runtime.Protocol.{Stores}
use agent_runtime_kit.Runs.Claim.{begin_claim, claim}
use agent_runtime_kit.Memory.Threads.{create_thread, get_messages, get_thread, stream_messages}
use agent_runtime_kit.Runs.Recover.{get_by_idempotency, recover}
use agent_runtime_kit.Runs.Settle.{complete, fail_if_running, transition}
use agent_runtime_kit.Base.{Option, none, some, ℕ, ◌+◌}

-- The tables, and how many readings of the clock there were.
pub record World : Type 0 where
  pub db : Db
  pub ticks : ℕ

-- A thread as its id.
abbrev pub thread_id_of : Result ThreadRow × Db → Result ℕ × Db
thread_id_of (ok t, db) = (ok t.id, db)
thread_id_of (err e, db) = (err e, db)

abbrev pub found_id : Option ThreadRow → Option ℕ
found_id none = none
found_id (some t) = some t.id

abbrev pub left_in {ℓ} : {A : Type ℓ} → World → Result A × Db → Result A × World
left_in w (r, db) = (r, record { db = db; ticks = w.ticks + 2 })

-- `clock` and `ids` give what the n-th readings are, and `others` what other transactions commit during
-- a claim.
module _ (clock ids : ℕ → ℕ) (others : ℕ → Db → Db) where
  abbrev pub postgres_stores : Stores World
  postgres_stores = record {
    get_by_idempotency = λ agent_id key w. left_in w (get_by_idempotency agent_id key w.db, w.db);
    claim = λ c w.
        left_in w
          (claim (begin_claim (clock w.ticks) c) (others w.ticks) (clock (w.ticks + 1)) w.db);
    transition = λ run_id status token w.
        left_in w (transition run_id status token none none (clock w.ticks) w.db);
    complete = λ run_id token messages response w.
        left_in w
          (complete run_id token messages response (clock w.ticks) (clock (w.ticks + 1)) w.db);
    fail_if_running = λ run_id token code status w.
        left_in w (fail_if_running run_id token code status (clock w.ticks) w.db);
    recover = λ run_id w. left_in w (recover run_id (clock w.ticks) w.db);
    create_thread = λ namespace user_key w. left_in w (
        thread_id_of
          (create_thread (clock w.ticks) (ids w.ticks) namespace none user_key Fields.end w.db));
    get_thread = λ thread_id namespace w.
        left_in w (ok (found_id (get_thread thread_id (some namespace) w.db)), w.db);
    get_messages =
        λ thread_id namespace w. left_in w (get_messages thread_id (some namespace) w.db, w.db);
    stream_messages = λ thread_id namespace w. (stream_messages thread_id (some namespace) w.db, w);
  }
