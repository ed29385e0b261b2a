-- ===== src/Runs/ClaimSteps.antt =====
-- `claim` of src/agent_runtime/runs/postgres.py as steps of the relation in `Runs/History`.
use agent_runtime_kit.Runs.History.{
  insert, here, next, IsNew, Reach, Reach-trans, Reach-eq, key_taken,
}
use agent_runtime_kit.Errors.{ok, err, Result}
use agent_runtime_kit.Base.{
  Bool, Bool-cases, List, Option, Option-cases, [], arith, false, inl, inr, ltb, none, refl, some,
  true, ℕ, ◌+◌, ◌∷◌, ◌≡◌,
}
use agent_runtime_kit.Database.{Db, RunRow, find_run}
use agent_runtime_kit.Runs.Claim.{
  Claim, any_row, claim, claim_from, claim_lookup, claim_row, claim_slot, claimed, clashes,
  clear_thread, insert_run, live_on, one_or_none, select,
}
use agent_runtime_kit.Runs.Invariant.{All-find, Distinct, Reach-Distinct, apart}
use agent_runtime_kit.Runs.Steps.{Leads-commit, expired-Evolves, flush-Reach}
use agent_runtime_kit.Runs.Rows.{RunClaim, expire}

-- A row that a query selects satisfies it, and where ids are unique it is the row of its id.
pub select_one :
    (p : RunRow → Bool) (rs : List RunRow) (r : RunRow) (rest : List RunRow)
    → select p rs ≡ r ∷ rest
    → Distinct rs
    → (p r ≡ true) × (find_run r.id rs ≡ some r)
unfolding select find_run
select_one p [] r rest h d = cc
select_one p (x ∷ rs) r rest h d = elim (Bool-cases (p x)) [
  | inl e ↦ let q : x ≡ r = ground arith in (rw q at e, ground arith)
  | inr e ↦
      let (pr, f) = select_one p rs r rest (ground arith) d.1 in
      let a : apart x r ≡ true = All-find (λ s. apart x s ≡ true) r.id rs r d.0 f in
      (pr, ground arith)
]

claim_row-IsNew :
    (c : Claim) (now : ℕ) (rs : List RunRow)
    → any_row (clashes (claim_row c now)) rs ≡ false
    → key_taken (claim_row c now) rs ≡ false
    → IsNew (claim_row c now) rs
claim_row-IsNew c now rs h k = record {
  status = refl;
  response = refl;
  owner = (c.owner_token, refl);
  lease = (now + c.lease, refl);
  unique = h;
  key = k;
}

-- What the insert has done.
pub insert_run_inserts :
    (row : RunRow) (db : Db) (r : RunRow) (db' : Db)
    → insert_run row row.idempotency_key db ≡ ok (some r, db')
    → (r ≡ row)
      × (db' ≡ record db { runs = row ∷ db.runs })
      × (any_row (clashes row) db.runs ≡ false)
      × (key_taken row db.runs ≡ false)
unfolding insert_run
insert_run_inserts row db r db' h = ground arith

insert_run_skips :
    (row : RunRow) (db db' : Db) → insert_run row row.idempotency_key db ≡ ok (none, db') → db' ≡ db
unfolding insert_run
insert_run_skips row db db' h = ground arith

-- What a transaction that gets past the look-up has done when it commits.
pub claim_slot_commits :
    (c : Claim) (now : ℕ) (db : Db) (res : RunClaim) (db' : Db)
    → claim_slot c now db ≡ ok (res, db')
    → (active : Option RunRow) × (one_or_none (select (live_on c.thread_id) db.runs) ≡ ok active)
      × (cleared : Db) × (clear_thread active now db ≡ ok cleared)
      × (inserted : Option RunRow × Db) × (insert_run (claim_row c now) c.idempotency_key cleared
          ≡ ok inserted)
      × (claimed c inserted ≡ ok (res, db'))
unfolding claim_slot
claim_slot_commits c now db res db' h = ground arith

clear_thread-Reach :
    (active : Option RunRow) (now : ℕ) (db db' : Db) (p : RunRow → Bool)
    → one_or_none (select p db.runs) ≡ ok active
    → Distinct db.runs
    → clear_thread active now db ≡ ok db'
    → Reach db.runs db'.runs
unfolding clear_thread
clear_thread-Reach none now db db' p h d e = Reach-eq (ground arith)
clear_thread-Reach (some r) now db db' p h d e = elim (Option-cases (expire r now)) [
  | inl x ↦ absurd (ground arith)
  | inr (r', x) ↦
      flush-Reach r r' db.runs db'.runs (select_one p db.runs r [] (ground arith) d).1
        (expired-Evolves r r' now x) (ground arith)
]

claimed-Reach :
    (c : Claim) (now : ℕ) (db : Db) (inserted : Option RunRow × Db) (res : RunClaim) (db' : Db)
    → insert_run (claim_row c now) c.idempotency_key db ≡ ok inserted
    → claimed c inserted ≡ ok (res, db')
    → Reach db.runs db'.runs
claimed-Reach c now db (none, db1) res db' i e =
    let s : db1 ≡ db = insert_run_skips (claim_row c now) db db1 i in Reach-eq (ground arith)
claimed-Reach c now db (some r, db1) res db' i e =
    let (same, s, free, key) = insert_run_inserts (claim_row c now) db r db1 i in
    next here (insert (claim_row c now) (claim_row-IsNew c now db.runs free key) (ground arith))

claim_slot-Reach :
    (c : Claim) (now : ℕ) (db : Db) (res : RunClaim) (db' : Db)
    → Distinct db.runs
    → claim_slot c now db ≡ ok (res, db')
    → Reach db.runs db'.runs
claim_slot-Reach c now db res db' d h =
    let (active, sel, cleared, clr, inserted, ins, fin) = claim_slot_commits c now db res db' h in
    Reach-trans (clear_thread-Reach active now db cleared (live_on c.thread_id) sel d clr)
      (claimed-Reach c now cleared inserted res db' ins fin)

-- From tables in which the unique indexes hold, a claim changes the runs by steps of the relation,
-- if the transactions that commit in between do so too.
pub claim-Reach :
    (c : Claim) (meanwhile : Db → Db) (now : ℕ) (db : Db)
    → Distinct db.runs
    → Reach db.runs (meanwhile db).runs
    → Reach db.runs (claim c meanwhile now db).1.runs
unfolding claim
claim-Reach c meanwhile now db d m = elim (Bool-cases (ltb 0 c.lease)) [
  | inl e ↦ rw e (go (claim_lookup c db))
  | inr e ↦ rw e here
]
  where
    go :
        (found : Result (Option RunRow))
        → Reach db.runs (claim_from c meanwhile now db found).1.runs
    go (err x) = here
    go (ok (some existing)) = Reach-eq (ground arith)
    go (ok none) = Reach-trans m (
        Leads-commit (meanwhile db) _ (record {
          at = λ res db' e. claim_slot-Reach c now (meanwhile db) res db' (Reach-Distinct m d) e;
        }))
