-- ===== src/Runs/Fencing.antt =====
-- Ownership, arbitration and replay in src/agent_runtime/runs/postgres.py, call by call.
use agent_runtime_kit.Canonical.{Message, RuntimeResponse}
use agent_runtime_kit.Errors.{Result-cases, Error, err, ok}
use agent_runtime_kit.Base.{
  Bool, List, ap, arith, inl, inr, none, not, some, sym, true, ℕ, ◌&&◌, ◌∙◌, ◌≡◌, Option, false,
  refl, ◌⊎◌,
}
use agent_runtime_kit.Database.{Db, RunRow, RunStatus, find_run, is_active, store_run}
use agent_runtime_kit.Canonical.Equality.{last_assistant, same_message, same_message}
use agent_runtime_kit.Runs.History.{find_run-store_run}
use agent_runtime_kit.Runs.Commits.{append-runs, complete_commits, lock_run-find}
use agent_runtime_kit.Runs.Settle.{belongs, complete, complete_in, succeeded_row, is_message}
use agent_runtime_kit.Runs.Rows.{RunRecord, check_owner, lapsed, model, owned_by}

-- Whether the token holds the run at the time: it is the owner's, and the lease of an active run has
-- not lapsed.
abbrev pub holds : RunRow → ℕ → ℕ → Bool
holds row token now =
    owned_by row.owner_token token
    && not (is_active row.status && lapsed true row.lease_expires_at now)

check_owner-holds :
    (row : RunRow) (token now : ℕ) → check_owner row token now ≡ ok tt → holds row token now ≡ true
unfolding check_owner
check_owner-holds row token now h = ground arith

is_message_same :
    (o : Option Message) (m : Message)
    → is_message o m ≡ true
    → (a : Message) × (o ≡ some a) × (same_message a m ≡ true)
is_message_same none m h = cc
is_message_same (some a) m h = (a, refl, h)

-- The look-up behind the write of a row under its own id.
pub find_stored :
    (k : ℕ) (row row' : RunRow) (rs : List RunRow)
    → find_run row.id rs ≡ some row
    → row'.id ≡ row.id
    → row.id ≡ k
    → find_run k (store_run row' rs) ≡ some row'
find_stored k row row' rs f e i =
    let g : find_run row'.id rs ≡ some row = cc (ap (λ (n : ℕ). find_run n rs) e) in
    find_run-store_run k row' rs row g ∙ ground arith

-- When complete returns, the run of that id was running, the token held it at both readings of the
-- clock, the response is the run's and its message is equal, as Python compares messages, to the
-- last assistant message; the record that is returned is the succeeded one, and the table now
-- holds it.
pub complete_returns :
    (run_id token : ℕ) (messages : List Message) (response : RuntimeResponse) (now later : ℕ)
    (db : Db) (rec : RunRecord)
    → (complete run_id token messages response now later db).0 ≡ ok rec
    → (row : RunRow) × (find_run run_id db.runs ≡ some row)
      × (row.status ≡ RunStatus.running)
      × (holds row token now ≡ true)
      × (holds row token later ≡ true)
      × (belongs response row ≡ true)
      × ((a : Message) × (last_assistant messages ≡ some a)
          × (same_message a response.message ≡ true))
      × (rec ≡ model (succeeded_row row response later))
      × (find_run run_id (complete run_id token messages response now later db).1.runs
          ≡ some (succeeded_row row response later))
unfolding complete
complete_returns run_id token messages response now later db rec h =
    elim (Result-cases (complete_in run_id token messages response now later db)) [
      | inl (e, q) ↦ absurd (ground arith)
      | inr ((rec', db'), q) ↦
          let (row, locked, a, appended, runs, own, own', bel, msg, same, e) =
            complete_commits run_id token messages response now later db rec' db' q in
          let (found, i) = lock_run-find run_id db row locked in
          let keep : db'.runs ≡ store_run (succeeded_row row response later) db.runs =
            cc (e, append-runs later row.thread_id messages none db a appended) in
          (
            row,
            ap (λ (n : ℕ). find_run n db.runs) (sym i) ∙ found,
            runs,
            check_owner-holds row token now own,
            check_owner-holds row token later own',
            bel,
            is_message_same (last_assistant messages) response.message msg,
            ground arith,
            rw (q, keep)
                (find_stored run_id row (succeeded_row row response later) db.runs found refl i),
          )
    ]

-- complete by a token that does not hold the run at the first reading of the clock, or that no
-- longer holds it at the second, raises and changes no table.
pub complete_fenced :
    (run_id token : ℕ) (messages : List Message) (response : RuntimeResponse) (now later : ℕ)
    (db : Db) (row : RunRow)
    → find_run run_id db.runs ≡ some row
    → (holds row token now ≡ false) ⊎ (holds row token later ≡ false)
    → (e : Error) × (complete run_id token messages response now later db ≡ (err e, db))
unfolding complete
complete_fenced run_id token messages response now later db row f h =
    elim (Result-cases (complete_in run_id token messages response now later db)) [
      | inl (e, q) ↦ (e, rw q)
      | inr ((rec', db'), q) ↦
          let (row', f', _, a, b, _, _, _, _) =
            complete_returns run_id token messages response now later db rec'
              (unfold complete in (rw q)) in
          absurd (ground arith)
    ]
