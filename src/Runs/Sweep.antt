-- ===== src/Runs/Sweep.antt =====
-- What `recover_expired` of src/agent_runtime/runs/postgres.py returns and leaves in the table.
use agent_runtime_kit.Runs.Claim.{select}
use agent_runtime_kit.Errors.{ok}
use agent_runtime_kit.Runs.Recover.{
  limited, is_overdue, recover_each, recover_expired, recover_one, sort_by_lease, Round, collect,
}
use agent_runtime_kit.Base.{
  All, Bool, List, Option-cases, [], arith, inl, inr, length, map, none, refl, some, suc, zero, ℕ,
  ◌∷◌, ◌≡◌, ◌≤◌, ==_iff, Bool-cases, Option, ap, leb, subst, true, ◌&&◌, ◌+◌, ◌==◌, ◌∙◌,
}
use agent_runtime_kit.Database.{Db, RunRow, RunStatus, find_run}
use agent_runtime_kit.Runs.Rows.{RunRecord, expire, model}
use agent_runtime_kit.Runs.History.{Reach, find_run-store_run, find_run_id}
use agent_runtime_kit.Runs.Invariant.{Distinct, Reach-Distinct}
use agent_runtime_kit.Runs.Safety.{Reach-keeps}
use agent_runtime_kit.Runs.Steps.{recover_each-Reach, round-Reach}
use agent_runtime_kit.Runs.Schedule.{Calls, perform_all, schedule-Reach}

-- A record of a run whose lease had lapsed at the time, and which was failed for that.
pub record IsExpired (now : ℕ) (rec : RunRecord) : Type 0 where
  pub status : rec.status ≡ RunStatus.failed
  pub error_code : rec.error_code ≡ some "owner_lease_expired"
  pub completed_at : rec.completed_at ≡ some now
  pub response : rec.response ≡ none
  pub until : ℕ
  pub lease : rec.lease_expires_at ≡ some until
  pub lapsed : until ≤ now

expire-IsExpired :
    (row row' : RunRow) (now : ℕ) → expire row now ≡ some row' → IsExpired now (model row')
unfolding expire
expire-IsExpired row row' now h = elim (Option-cases row.lease_expires_at) [
  | inl e ↦ absurd (ground arith)
  | inr (until, e) ↦
      let q : row' ≡ record row {
        status = RunStatus.failed;
        error_code = some "owner_lease_expired";
        completed_at = some now;
        response = none;
      } =
        ground arith in
      let l : until ≤ now = ground arith in
      rw q (record {
        status = refl;
        error_code = refl;
        completed_at = refl;
        response = refl;
        until = until;
        lease = e;
        lapsed = l;
      })
]

-- A record that a sweep has returned, against the clock of its rounds and the runs that the sweep
-- leaves: the run is in the table as the record says.
pub record IsSwept (clock : ℕ → ℕ) (rs : List RunRow) (rec : RunRecord) : Type 0 where
  pub round : ℕ
  pub expired : IsExpired (clock round) rec
  pub row : RunRow
  pub found : find_run row.id rs ≡ some row
  pub read : rec ≡ model row

expire-id : (row row' : RunRow) (now : ℕ) → expire row now ≡ some row' → row'.id ≡ row.id
unfolding expire
expire-id row row' now h = ground arith

recover_one-IsExpired :
    (held : ℕ → Bool) (now id : ℕ) (db : Db) (rec : RunRecord)
    → (recover_one held now id db).0 ≡ some rec
    → IsExpired now rec
      × (row : RunRow) × (find_run row.id (recover_one held now id db).1.runs ≡ some row)
      × (rec ≡ model row)
unfolding recover_one
recover_one-IsExpired held now id db rec h = elim (Option-cases (find_run id db.runs)) [
  | inl e ↦ absurd (ground arith)
  | inr (row, e) ↦ elim (Bool-cases (held row.thread_id)) [
    | inl locked ↦ absurd (ground arith)
    | inr free ↦ elim (Option-cases (expire row now)) [
      | inl f ↦ absurd (ground arith)
      | inr (row', f) ↦
          let q : rec ≡ model row' = ground arith in
          let w = find_run-store_run row'.id row' db.runs row (
            ap (λ (n : ℕ). find_run n db.runs)
              (expire-id row row' now f ∙ find_run_id id db.runs row e)
            ∙ e) in
          let t : (row'.id == row'.id) ≡ true = (==_iff row'.id row'.id).1 refl in
          rw (e, recover_one, free, f, q) (expire-IsExpired row row' now f, row', rw t at w, refl)
    ]
  ]
]

-- A settled run stays as it is.
stays :
    {rs rs' : List RunRow} (k now : ℕ) (row : RunRow)
    → IsExpired now (model row)
    → Reach rs rs'
    → find_run k rs ≡ some row
    → find_run k rs' ≡ some row
stays k now row x p f =
    let (row', f', c) = Reach-keeps k row p f in
    elim c.settled [
      | inl a ↦ absurd (let s : row.status ≡ RunStatus.failed = x.status in cc (s, a))
      | inr e ↦ f' ∙ ap (λ y. some y) e
    ]

abbrev pub rounds_of : (ℕ → Calls) → (ℕ → ℕ → Bool) → (ℕ → ℕ) → ℕ → Round
rounds_of between held clock i = record {
  between = perform_all (between i);
  held = held i;
  now = clock i;
}

module _ (between : ℕ → Calls) (held : ℕ → ℕ → Bool) (clock : ℕ → ℕ) where
  between-Reach :
      (i : ℕ) (db : Db)
      → Distinct db.runs
      → Reach db.runs ((rounds_of between held clock i).between db).runs
  between-Reach i db d = schedule-Reach (between i) db d

  collect-IsSwept :
      (i : ℕ) (found : Option RunRecord) (rest : List RunRecord) (rs rs' : List RunRow)
      → Reach rs rs'
      → ((rec : RunRecord)
          → found ≡ some rec
          → IsExpired (clock i) rec
            × (row : RunRow) × (find_run row.id rs ≡ some row)
            × (rec ≡ model row))
      → All (IsSwept clock rs') rest
      → All (IsSwept clock rs') (collect found rest)
        × (length (collect found rest) ≤ suc (length rest))
  collect-IsSwept i none rest rs rs' p x a = (a, omega arith)
  collect-IsSwept i (some rec) rest rs rs' p x a =
      let (ex, row, f, q) = x rec refl in
      (
        (
          record {
            round = i;
            expired = ex;
            row = row;
            found = stays row.id (clock i) row (subst (IsExpired (clock i)) q ex) p f;
            read = q;
          },
          a,
        ),
        omega arith,
      )

  recover_each-IsSwept :
      (i : ℕ) (ids : List ℕ) (db : Db)
      → Distinct db.runs
      → All
          (IsSwept clock (recover_each (rounds_of between held clock) i ids db).1.runs)
          (recover_each (rounds_of between held clock) i ids db).0
        × (length (recover_each (rounds_of between held clock) i ids db).0 ≤ length ids)
  unfolding recover_each
  recover_each-IsSwept i [] db d = (tt, omega arith)
  recover_each-IsSwept i (id ∷ ids) db d =
      let rounds = rounds_of between held clock in
      let r = round-Reach rounds between-Reach i id db d in
      let d' = Reach-Distinct r d in
      let (a, n) = recover_each-IsSwept (i + 1) ids _ d' in
      let (b, m) =
        collect-IsSwept i _ _ _ _ (recover_each-Reach rounds between-Reach (i + 1) ids _ d')
          (λ rec h. recover_one-IsExpired (held i) (clock i) id (perform_all (between i) db) rec h)
          a in
      (b, omega (arith, n, m))

length-limited {ℓ} : {A : Type ℓ} (n : ℕ) (xs : List A) → length (limited n xs) ≤ n
length-limited zero xs = omega arith
length-limited (suc n) [] = omega arith
length-limited (suc n) (x ∷ xs) = omega (arith, length-limited n xs)

length-map {ℓ κ} :
    {A : Type ℓ} {B : Type κ} (f : A → B) (xs : List A) → length (map f xs) ≡ length xs
length-map f [] = refl
length-map f (x ∷ xs) = omega (arith, length-map f xs)

-- From tables in which the unique indexes hold, with any calls of other clients before each round,
-- any threads locked in it and a reading of the clock for each: when recover_expired returns, the
-- limit is at most 1000, the records are no more than the limit, and each is the row of its run in
-- the table that the sweep leaves, failed with owner_lease_expired at the reading of a round by
-- which its lease had lapsed.
pub recover_expired-IsSwept :
    (between : ℕ → Calls) (held : ℕ → ℕ → Bool) (clock : ℕ → ℕ) (limit now : ℕ) (db : Db)
    (recs : List RunRecord)
    → Distinct db.runs
    → (recover_expired (rounds_of between held clock) limit now db).0 ≡ ok recs
    → All (IsSwept clock (recover_expired (rounds_of between held clock) limit now db).1.runs) recs
      × (length recs ≤ limit)
      × (limit ≤ 1000)
unfolding recover_expired
recover_expired-IsSwept between held clock limit now db recs d h =
    let rows = limited limit (sort_by_lease (select (is_overdue now) db.runs)) in
    let ids = map (λ (r : RunRow). r.id) rows in
    let (a, n) = recover_each-IsSwept between held clock 0 ids db d in
    let m : length ids ≤ limit = omega (
      arith,
      length-map (λ (r : RunRow). r.id) rows,
      length-limited limit (sort_by_lease (select (is_overdue now) db.runs)),
    ) in
    let l : (leb 1 limit && leb limit 1000) ≡ true = ground arith in
    let e : recs ≡ (recover_each (rounds_of between held clock) 0 ids db).0 = ground arith in
    rw (e, l) (a, omega (arith, n, m), ground arith)
