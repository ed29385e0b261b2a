-- ===== src/Runs/Recover.antt =====
-- `recover`, `recover_expired`, `get` and `get_by_idempotency` of
-- src/agent_runtime/runs/postgres.py.
use agent_runtime_kit.Base.{
  ℕ, suc, zero, String, List, [], ◌∷◌, Option, none, some, Bool, true, false, ◌==◌, leb, ltb, ◌&&◌,
  ◌||◌, if◌then◌else◌, map, ◌+◌,
}
use agent_runtime_kit.Errors.{Result, ok, err, Error, ◌>>=◌}
use agent_runtime_kit.Database.{RunRow, Db, is_active, find_run, store_run}
use agent_runtime_kit.Runs.Rows.{
  RunRecord, model, lapsed, expire, expired_or_same, lock_run, commit, flush,
}
use agent_runtime_kit.Runs.Claim.{select, select_keyed}
use agent_runtime_kit.Native.Loop.{rounds}

unfoldable pub recover_in : ℕ → ℕ → Db → Result (RunRecord × Db)
recover_in run_id now db = do row ← lock_run run_id db; ok (flush (expired_or_same row now) db)

unfoldable pub recover : ℕ → ℕ → Db → Result RunRecord × Db
recover run_id now db = commit db (recover_in run_id now db)

-- `ORDER BY lease_expires_at, id`
abbrev before : RunRow → RunRow → Bool
before r s = elim r.lease_expires_at [
  | none ↦ false
  | some a ↦ elim s.lease_expires_at [ none ↦ true | some b ↦ ltb a b || (a == b && leb r.id s.id) ]
]

unfoldable pub insert_by_lease : RunRow → List RunRow → List RunRow
insert_by_lease r [] = r ∷ []
insert_by_lease r (s ∷ rs) = if before r s then r ∷ s ∷ rs else s ∷ insert_by_lease r rs

unfoldable pub sort_by_lease : List RunRow → List RunRow
sort_by_lease [] = []
sort_by_lease (r ∷ rs) = insert_by_lease r (sort_by_lease rs)

-- `LIMIT`
abbrev pub limited {ℓ} : {A : Type ℓ} → ℕ → List A → List A
limited zero xs = []
limited (suc n) [] = []
limited (suc n) (x ∷ xs) = x ∷ limited n xs

abbrev pub is_overdue : ℕ → RunRow → Bool
is_overdue now r = is_active r.status && lapsed false r.lease_expires_at now

abbrev pub swept : Option RunRow → Db → Option RunRecord × Db
swept none db = (none, db)
swept (some r) db = (some (model r), record db { runs = store_run r db.runs })

-- One round of the sweep, in a transaction of its own: `held` tells which threads another
-- transaction has locked, and those are skipped.
unfoldable pub recover_one : (ℕ → Bool) → ℕ → ℕ → Db → Option RunRecord × Db
recover_one held now run_id db = elim (find_run run_id db.runs) [
  | none ↦ (none, db)
  | some row ↦ swept (if held row.thread_id then none else expire row now) db
]

abbrev pub collect : Option RunRecord → List RunRecord → List RunRecord
collect none rs = rs
collect (some r) rs = r ∷ rs

-- What one round of the sweep meets: what other transactions commit before it, the threads that they
-- have locked, and its reading of the clock.
pub record Round : Type 0 where
  pub between : Db → Db
  pub held : ℕ → Bool
  pub now : ℕ

-- The rounds from the one that is given on.
unfoldable pub recover_each : (ℕ → Round) → ℕ → List ℕ → Db → List RunRecord × Db
recover_each rounds i [] db = ([], db)
recover_each rounds i (id ∷ ids) db =
    let round = rounds i in
    let (found, db') = recover_one round.held round.now id (round.between db) in
    let (rest, db'') = recover_each rounds (i + 1) ids db' in (collect found rest, db'')

-- The batch is chosen by the clock at `now`.
unfoldable pub recover_expired : (ℕ → Round) → ℕ → ℕ → Db → Result (List RunRecord) × Db
recover_expired rounds limit now db =
    if leb 1 limit && leb limit 1000
    then (let ids =
          map (λ r. r.id) (limited limit (sort_by_lease (select (is_overdue now) db.runs))) in
        let (recovered, db') = recover_each rounds 0 ids db in (ok recovered, db'))
    else (err Error.value_error, db)

unfoldable pub get : ℕ → Db → Option RunRecord
get run_id db = elim (find_run run_id db.runs) [ none ↦ none | some row ↦ some (model row) ]

unfoldable pub get_by_idempotency : String → String → Db → Result (Option RunRecord)
get_by_idempotency agent_id key db = select_keyed agent_id (some key) db >>= λ found.
    ok (elim found [ none ↦ none | some row ↦ some (model row) ])
