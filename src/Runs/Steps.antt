-- ===== src/Runs/Steps.antt =====
-- Every operation of src/agent_runtime/runs/postgres.py takes the table of runs along steps of the
-- relation in `Runs/History`, whether it returns or raises.
use agent_runtime_kit.Base.{
  ℕ, String, List, some, true, ◌≡◌, refl, arith, Option, ap, ◌∙◌, [], none, ◌∷◌, Bool, Option-cases,
  if◌then◌else◌, inl, inr, Bool-cases, false, leb, ◌&&◌, ◌+◌,
}
use agent_runtime_kit.Errors.{Result, ok, err}
use agent_runtime_kit.Database.{RunStatus, RunRow, Db, find_run, store_run}
use agent_runtime_kit.Runs.Rows.{expire, expired_or_same, commit}
use agent_runtime_kit.Runs.Settle.{
  settle_row, is_settled, complete, fail_if_running, succeeded_row, transition,
}
use agent_runtime_kit.Runs.History.{Evolves, change, Reach, here, next, find_run_id, Reach-trans}
use agent_runtime_kit.Canonical.{RuntimeResponse, Message}
use agent_runtime_kit.Runs.Recover.{
  recover, recover_one, recover_each, recover_expired, swept, Round,
}
use agent_runtime_kit.Runs.Commits.{
  append-runs, complete_commits, fail_commits, lock_run-find, recover_commits, transition_commits,
}
use agent_runtime_kit.Runs.Invariant.{Distinct, Reach-Distinct}

-- What a transaction that commits does to the runs.
pub record Leads {A : Type 0} (rs : List RunRow) (m : Result (A × Db)) : Type 0 where
  pub at : (a : A) (db' : Db) → m ≡ ok (a, db') → Reach rs db'.runs

module _ {A : Type 0} where
  pub Leads-commit :
      (db : Db) (m : Result (A × Db)) → Leads db.runs m → Reach db.runs (commit db m).1.runs
  Leads-commit db (ok (a, db')) h = h.at a db' refl
  Leads-commit db (err e) h = here

  Leads-ok : {rs : List RunRow} (a : A) (db' : Db) → Reach rs db'.runs → Leads rs (ok (a, db'))
  Leads-ok {rs} a db' r = record { at = λ b db'' p. let e : db''.runs ≡ db'.runs = cc in rw e r }

-- A flushed row is one step.
pub flush-Reach :
    (row row' : RunRow) (rs rs' : List RunRow)
    → find_run row.id rs ≡ some row
    → Evolves row row'
    → rs' ≡ store_run row' rs
    → Reach rs rs'
flush-Reach row row' rs rs' found ev e =
    next here (change row row' (ap (λ (n : ℕ). find_run n rs) ev.same.id ∙ found) ev e)

expire-Evolves : (r : RunRow) (now : ℕ) → Evolves r (expired_or_same r now)
unfolding expire
expire-Evolves r now = ground arith

pub expired-Evolves : (r r' : RunRow) (now : ℕ) → expire r now ≡ some r' → Evolves r r'
unfolding expire
expired-Evolves r r' now h = ground arith

settle-Evolves :
    (r : RunRow) (status : RunStatus) (error_code : String) (now : ℕ)
    → is_settled status ≡ true
    → Evolves r (settle_row r status error_code now)
unfolding settle_row expire
settle-Evolves r status error_code now h = ground arith

complete-Evolves :
    (row : RunRow) (response : RuntimeResponse) (now : ℕ)
    → row.status ≡ RunStatus.running
    → Evolves row (succeeded_row row response now)
complete-Evolves row response now h = ground arith

pub transition-Reach :
    (run_id : ℕ) (status : RunStatus) (token : ℕ) (response : Option RuntimeResponse)
    (error_code : Option String) (now : ℕ) (db : Db)
    → Reach db.runs (transition run_id status token response error_code now db).1.runs
unfolding transition
transition-Reach run_id status token response error_code now db = Leads-commit db _ (record {
  at = λ rec db' p.
      let (row, locked, ev, e) =
        transition_commits run_id status token response error_code now db rec db' p in
      flush-Reach row _ db.runs db'.runs (lock_run-find run_id db row locked).0 ev e;
})

pub complete-Reach :
    (run_id token : ℕ) (messages : List Message) (response : RuntimeResponse) (now later : ℕ)
    (db : Db)
    → Reach db.runs (complete run_id token messages response now later db).1.runs
unfolding complete
complete-Reach run_id token messages response now later db = Leads-commit db _ (record {
  at = λ rec db' p.
      let (row, locked, a, appended, runs, _, _, _, _, _, e) =
        complete_commits run_id token messages response now later db rec db' p in
      flush-Reach row (succeeded_row row response later) db.runs db'.runs
        (lock_run-find run_id db row locked).0 (complete-Evolves row response later runs)
        (cc (e, append-runs later row.thread_id messages none db a appended));
})

pub fail_if_running-Reach :
    (run_id token : ℕ) (error_code : String) (status : RunStatus) (now : ℕ) (db : Db)
    → Reach db.runs (fail_if_running run_id token error_code status now db).1.runs
unfolding fail_if_running
fail_if_running-Reach run_id token error_code status now db = Leads-commit db _ (record {
  at = λ rec db' p.
      let (row, locked, _, settled, _, e) =
        fail_commits run_id token error_code status now db rec db' p in
      flush-Reach row _ db.runs db'.runs (lock_run-find run_id db row locked).0
        (settle-Evolves row status error_code now settled) (ap (λ (d : Db). d.runs) e);
})

pub recover-Reach : (run_id now : ℕ) (db : Db) → Reach db.runs (recover run_id now db).1.runs
unfolding recover
recover-Reach run_id now db = Leads-commit db _ (record {
  at = λ rec db' p.
      let (row, locked, _, e) = recover_commits run_id now db rec db' p in
      flush-Reach row _ db.runs db'.runs (lock_run-find run_id db row locked).0
        (expire-Evolves row now) (ap (λ (d : Db). d.runs) e);
})

sweep-Reach :
    (skip : Bool) (row : RunRow) (now : ℕ) (db : Db)
    → find_run row.id db.runs ≡ some row
    → Reach db.runs (swept (if skip then none else expire row now) db).1.runs
sweep-Reach true row now db h = here
sweep-Reach false row now db h = elim (Option-cases (expire row now)) [
  | inl e ↦ rw e here
  | inr (r, e) ↦ rw e (flush-Reach row r db.runs _ h (expired-Evolves row r now e) refl)
]

pub recover_one-Reach :
    (held : ℕ → Bool) (now run_id : ℕ) (db : Db)
    → Reach db.runs (recover_one held now run_id db).1.runs
unfolding recover_one
recover_one-Reach held now run_id db = elim (Option-cases (find_run run_id db.runs)) [
  | inl e ↦ rw (e, recover_one) here
  | inr (row, e) ↦
      rw (e, recover_one)
        (sweep-Reach (held row.thread_id) row now db
          (ap (λ (n : ℕ). find_run n db.runs) (find_run_id run_id db.runs row e) ∙ e))
]

-- The rounds of a sweep, where what other transactions commit between them takes such steps.
module _ (rounds : ℕ → Round)
    (between : (i : ℕ) (db : Db)
      → Distinct db.runs
      → Reach db.runs ((rounds i).between db).runs) where
  pub round-Reach :
      (i id : ℕ) (db : Db)
      → Distinct db.runs
      → Reach db.runs (recover_one (rounds i).held (rounds i).now id ((rounds i).between db)).1.runs
  round-Reach i id db d =
      Reach-trans (between i db d)
        (recover_one-Reach (rounds i).held (rounds i).now id ((rounds i).between db))

  pub recover_each-Reach :
      (i : ℕ) (ids : List ℕ) (db : Db)
      → Distinct db.runs
      → Reach db.runs (recover_each rounds i ids db).1.runs
  unfolding recover_each
  recover_each-Reach i [] db d = here
  recover_each-Reach i (id ∷ ids) db d =
      let r = round-Reach i id db d in
      Reach-trans r (recover_each-Reach (i + 1) ids _ (Reach-Distinct r d))

  pub recover_expired-Reach :
      (limit now : ℕ) (db : Db)
      → Distinct db.runs
      → Reach db.runs (recover_expired rounds limit now db).1.runs
  unfolding recover_expired
  recover_expired-Reach limit now db d = elim (Bool-cases (leb 1 limit && leb limit 1000)) [
    | inl e ↦ rw e (recover_each-Reach 0 _ db d)
    | inr e ↦ rw e here
  ]
