-- ===== src/Runtime/Composed.antt =====
-- What src/agent_runtime/runtime.py returns over the stores of src/agent_runtime/runs/postgres.py and
-- src/agent_runtime/memory/postgres.py.
use agent_runtime_kit.Runtime.Postgres.{World, postgres_stores, left_in}
use agent_runtime_kit.Runtime.Reads.{
  claim_row_stands, commit_ok, find_run_split, select_keyed_split, result_through,
}
use mathlib.Core.Option.{some-injective}
use agent_runtime_kit.Errors.{Result, ok}
use agent_runtime_kit.Canonical.{Message, RuntimeResponse, RuntimeRequest}
use agent_runtime_kit.Database.{Db, RunRow, find_run, store_run}
use agent_runtime_kit.Runtime.Protocol.{Stores, Runtime}
use agent_runtime_kit.Runtime.Lawful.{execute-IsStored_lawful}
use agent_runtime_kit.Runtime.Stored.{IsRowOf, IsStored, StoreLaws}
use agent_runtime_kit.Runs.Rows.{RunRecord, model, expire, expired_or_same}
use agent_runtime_kit.Runs.Claim.{begin_claim, claim, select_keyed}
use agent_runtime_kit.Runs.Recover.{get_by_idempotency, recover, recover_in}
use agent_runtime_kit.Runs.Settle.{complete, succeeded_row}
use agent_runtime_kit.Base.{
  Bool, List, Option, String, ap, arith, none, refl, some, ℕ, ◌+◌, ◌≡◌, subst, sym, ◌∙◌,
}
use agent_runtime_kit.Runs.Commits.{recover_commits, lock_run-find}
use agent_runtime_kit.Runs.Fencing.{complete_returns, find_stored}
use agent_runtime_kit.Runtime.Action.{Local}
use agent_runtime_kit.Runtime.Execute.{execute}

expired_or_same-id : (row : RunRow) (now : ℕ) → (expired_or_same row now).id ≡ row.id
unfolding expire
expired_or_same-id row now = ground arith

abbrev read_row : Option RunRow → Option RunRecord
read_row none = none
read_row (some row) = some (model row)

ok-some :
    (found : Option RunRow) (rec : RunRecord)
    → ok (read_row found) ≡ ok (some rec)
    → read_row found ≡ some rec
ok-some found rec h = ground arith

keyed_cases :
    (agent_id key : String) (db : Db) (rec : RunRecord) (found : Option RunRow)
    → select_keyed agent_id (some key) db ≡ ok found
    → read_row found ≡ some rec
    → IsRowOf rec db
keyed_cases agent_id key db rec none s h = absurd (ground arith)
keyed_cases agent_id key db rec (some row) s h =
    let z : model row ≡ rec = some-injective (model row) rec h in
    subst (λ (r : RunRecord). IsRowOf r db) z (select_keyed_split agent_id (some key) db row s)

keyed_row :
    (agent_id key : String) (db : Db) (rec : RunRecord)
    → get_by_idempotency agent_id key db ≡ ok (some rec)
    → IsRowOf rec db
unfolding get_by_idempotency
keyed_row agent_id key db rec h =
    let (found, s, h1) = result_through (select_keyed agent_id (some key) db) _ (some rec) h in
    keyed_cases agent_id key db rec found s (ok-some found rec h1)

recovered_row :
    (run_id now : ℕ) (db : Db) (rec : RunRecord) (db' : Db)
    → recover run_id now db ≡ (ok rec, db')
    → IsRowOf rec db'
unfolding recover
recovered_row run_id now db rec db' h =
    let h1 = commit_ok db (recover_in run_id now db) rec db' h in
    let (row, locked, same, e) = recover_commits run_id now db rec db' h1 in
    let (found, i) = lock_run-find run_id db row locked in
    let stored = expired_or_same row now in
    let f = find_stored run_id row stored db.runs found (expired_or_same-id row now) i in
    let (before, after, q) = find_run_split run_id (store_run stored db.runs) stored f in
    record {
      before = before;
      row = stored;
      after = after;
      stands = ap (λ (d : Db). d.runs) e ∙ q;
      read = same;
    }

completed_row :
    (run_id token : ℕ) (messages : List Message) (r : RuntimeResponse) (now later : ℕ) (db : Db)
    (rec : RunRecord) (db' : Db)
    → complete run_id token messages r now later db ≡ (ok rec, db')
    → IsStored r db'
completed_row run_id token messages r now later db rec db' h =
    let (row, _, _, _, _, _, _, _, f) =
      complete_returns run_id token messages r now later db rec (ap (λ p. p.0) h) in
    let stored = succeeded_row row r later in
    let f' : find_run run_id db'.runs ≡ some stored =
      ap (λ (p : Result RunRecord × Db). find_run run_id p.1.runs) (sym h) ∙ f in
    let (before, after, q) = find_run_split run_id db'.runs stored f' in
    record {
      before = before;
      row = stored;
      after = after;
      stands = q;
      succeeded = refl;
      responded = refl;
    }

module _ (clock ids : ℕ → ℕ) (others : ℕ → Db → Db) where
  -- A call that has left the world has left its tables.
  left_in-db :
      {A : Type 0} (w w' : World) (q : Result A × Db) (r : Result A)
      → left_in w q ≡ (r, w')
      → q ≡ (r, w'.db)
  left_in-db w w' (x, d) r h =
      let p : x ≡ r = ap (λ p. p.0) h in
      let e : d ≡ w'.db = ap (λ (p : Result _ × World). p.1.db) h in λ i. (p i, e i)

  postgres-StoreLaws : StoreLaws (postgres_stores clock ids others) (λ w. w.db)
  postgres-StoreLaws = record {
    keyed = λ agent_id key w w' rec h.
        let q = left_in-db w w' (get_by_idempotency agent_id key w.db, w.db) (ok (some rec)) h in
        subst (IsRowOf rec) (ap (λ p. p.1) q) (keyed_row agent_id key w.db rec (ap (λ p. p.0) q));
    claimed = λ c w w' cl h.
        claim_row_stands (begin_claim (clock w.ticks) c) (others w.ticks) (clock (w.ticks + 1)) w.db
          cl w'.db
          (left_in-db w w'
            (claim (begin_claim (clock w.ticks) c) (others w.ticks) (clock (w.ticks + 1)) w.db)
            (ok cl) h);
    completed = λ run_id token messages r w w' rec h.
        completed_row run_id token messages r (clock w.ticks) (clock (w.ticks + 1)) w.db rec w'.db (
          left_in-db w w'
            (complete run_id token messages r (clock w.ticks) (clock (w.ticks + 1)) w.db) (ok rec)
            h);
    recovered = λ run_id w w' rec h.
        recovered_row run_id (clock w.ticks) w.db rec w'.db
          (left_in-db w w' (recover run_id (clock w.ticks) w.db) (ok rec) h);
    scoped = λ thread_id namespace w w' found r h s.
        subst (IsStored r) (ap (λ (p : Result (Option ℕ) × World). p.1.db) h) s;
  }

-- Over the PostgreSQL run store and conversation store, at any readings of the clock, with any
-- commits of others during a claim, and with agents and hooks that may do anything to the tables,
-- when execute returns a response, from a new run or as the replay of an earlier one, the table of
-- runs that it leaves holds a succeeded run with that very response.
pub execute-IsStored :
    (runtime : Runtime World) (clock ids : ℕ → ℕ) (others : ℕ → Db → Db) (streaming : Bool)
    (agent_id : String) (request : RuntimeRequest) (key : Option String) (owner_token : ℕ)
    (r : RuntimeResponse) (l l' : Local World)
    → runtime.stores ≡ postgres_stores clock ids others
    → execute runtime streaming agent_id request key owner_token l ≡ (ok r, l')
    → IsStored r l'.store.db
execute-IsStored runtime clock ids others streaming agent_id request key owner_token r l l' e h =
    let laws =
      subst (λ (s : Stores World). StoreLaws s (λ w. w.db)) (sym e)
        (postgres-StoreLaws clock ids others) in
    execute-IsStored_lawful runtime streaming (λ w. w.db) laws agent_id request key owner_token r l
      l' h
