-- ===== src/Runs/Safety.antt =====
-- What holds of the runs after any interleaving of calls of the run store
-- (src/agent_runtime/runs/postgres.py).
use native.Mathlib.Decide.{ℕ_discrete}
use agent_runtime_kit.Runs.History.{
  change, insert, here, next, Evolves, Reach, SameRun, Step, find_run-store_run,
}
use agent_runtime_kit.Base.{
  ==_iff, Bool, Bool-cases, List, String, [], arith, eq_iff, false, if◌then◌else◌, inl, inr, refl,
  some, subst, true, ℕ, ◌==◌, ◌∙◌, ◌∷◌, ◌≡◌, ◌≢◌, ◌⊎◌,
}
use agent_runtime_kit.Database.{Db, RunRow, RunStatus, find_run, is_active}
use agent_runtime_kit.Runs.Claim.{any_row, clashes}
use agent_runtime_kit.Runs.Invariant.{All-find, Distinct, Reach-Distinct, apart}
use agent_runtime_kit.Runs.Schedule.{Calls, perform_all, schedule-Reach}
use agent_runtime_kit.Context.Stream.{new}

-- A status that a run may have once it had the first.
abbrev pub may_reach : RunStatus → RunStatus → Bool
may_reach RunStatus.accepted _ = true
may_reach RunStatus.running RunStatus.accepted = false
may_reach RunStatus.running _ = true
may_reach RunStatus.succeeded RunStatus.succeeded = true
may_reach RunStatus.failed RunStatus.failed = true
may_reach RunStatus.blocked RunStatus.blocked = true
may_reach _ _ = false

-- What becomes of a run: it is there, the same run, further on, and as it was if it was settled.
pub record Continues (r r' : RunRow) : Type 0 where
  pub same : SameRun r r'
  pub status : may_reach r.status r'.status ≡ true
  pub settled : (is_active r.status ≡ true) ⊎ (r' ≡ r)

Continues-refl : (r : RunRow) → Continues r r
Continues-refl r = ground arith

Continues-evolves : (r r' r'' : RunRow) → Continues r r' → Evolves r' r'' → Continues r r''
Continues-evolves r r' r'' c e = ground arith

unique_id :
    (k : ℕ) (row : RunRow) (rs : List RunRow) (r : RunRow)
    → any_row (clashes row) rs ≡ false
    → find_run k rs ≡ some r
    → (row.id == k) ≡ false
unfolding any_row find_run
unique_id k row [] r u f = cc
unique_id k row (x ∷ rs) r u f = ground (arith, unique_id k row rs r)

new_row :
    (k : ℕ) (row : RunRow) (rs : List RunRow) (r : RunRow)
    → any_row (clashes row) rs ≡ false
    → find_run k rs ≡ some r
    → find_run k (row ∷ rs) ≡ some r
unfolding find_run
new_row k row rs r u f = rw (unique_id k row rs r u f) f

-- One step keeps every run that is there.
Step-keeps :
    {rs rs' : List RunRow} (k : ℕ) (r : RunRow)
    → Step rs rs'
    → find_run k rs ≡ some r
    → (r' : RunRow) × (find_run k rs' ≡ some r') × ((r' ≡ r) ⊎ Evolves r r')
Step-keeps {rs} {rs'} k r (change x x' found ev e) f = elim (Bool-cases (x'.id == k)) [
  | inl q ↦
      let w : find_run k rs' ≡ (if x'.id == k then some x' else find_run k rs) =
        rw e (find_run-store_run k x' rs x found) in
      let i : x'.id ≡ k = (==_iff x'.id k).0 q in
      let s : x ≡ r = cc (found, f, i) in (x', rw q at w, inr (subst (λ y. Evolves y x') s ev))
  | inr q ↦
      let w : find_run k rs' ≡ (if x'.id == k then some x' else find_run k rs) =
        rw e (find_run-store_run k x' rs x found) in
      (r, (rw q at w) ∙ f, inl refl)
]
Step-keeps {rs} {rs'} k r (insert row new e) f =
    (r, rw e (new_row k row rs r new.unique f), inl refl)

continue : (r r1 r2 : RunRow) → Continues r r1 → (r2 ≡ r1) ⊎ Evolves r1 r2 → Continues r r2
continue r r1 r2 c (inl e) = rw e c
continue r r1 r2 c (inr e) = Continues-evolves r r1 r2 c e

pub Reach-keeps :
    {rs rs' : List RunRow} (k : ℕ) (r : RunRow)
    → Reach rs rs'
    → find_run k rs ≡ some r
    → (r' : RunRow) × (find_run k rs' ≡ some r') × Continues r r'
Reach-keeps k r here f = (r, f, Continues-refl r)
Reach-keeps k r (next p s) f =
    let (r1, f1, c1) = Reach-keeps k r p f in
    let (r2, f2, e) = Step-keeps k r1 s f1 in (r2, f2, continue r r1 r2 c1 e)

-- From a database in which the unique indexes hold, a run that is in the table stays there through
-- any interleaving of calls: with the same id, request, agent, thread, key, hash, owner and lease,
-- with a status that its own may lead to, and unchanged if it was settled.
pub schedule-Continues :
    (calls : Calls) (db : Db) (k : ℕ) (r : RunRow)
    → Distinct db.runs
    → find_run k db.runs ≡ some r
    → (r' : RunRow) × (find_run k (perform_all calls db).runs ≡ some r') × Continues r r'
schedule-Continues calls db k r d f = Reach-keeps k r (schedule-Reach calls db d) f

find-Distinct :
    (rs : List RunRow) (i j : ℕ) (r s : RunRow)
    → Distinct rs
    → find_run i rs ≡ some r
    → find_run j rs ≡ some s
    → i ≢ j
    → (apart r s ≡ true) ⊎ (apart s r ≡ true)
unfolding find_run
find-Distinct [] i j r s d f g h = cc
find-Distinct (x ∷ rs) i j r s d f g h = elim (Bool-cases (x.id == i)) [
  | inl e ↦
      let q : x ≡ r = ground arith in
      let g' : find_run j rs ≡ some s = ground arith in
      inl (subst (λ y. apart y s ≡ true) q (All-find (λ y. apart x y ≡ true) j rs s d.0 g'))
  | inr e ↦ elim (Bool-cases (x.id == j)) [
    | inl e' ↦
        let q : x ≡ s = ground arith in
        let f' : find_run i rs ≡ some r = ground arith in
        inr (subst (λ y. apart y r ≡ true) q (All-find (λ y. apart x y ≡ true) i rs r d.0 f'))
    | inr e' ↦ find-Distinct rs i j r s d.1 (ground arith) (ground arith) h
  ]
]

-- After any interleaving of calls on a database without runs, two runs of different ids that are
-- both accepted or running stand on different threads.
pub one_live_run :
    (calls : Calls) (db : Db) (i j : ℕ) (r s : RunRow)
    → db.runs ≡ []
    → find_run i (perform_all calls db).runs ≡ some r
    → find_run j (perform_all calls db).runs ≡ some s
    → i ≢ j
    → is_active r.status ≡ true
    → is_active s.status ≡ true
    → r.thread_id ≢ s.thread_id
one_live_run calls db i j r s e f g h p q =
    let d : Distinct db.runs = rw e tt in
    let a = find-Distinct _ i j r s (Reach-Distinct (schedule-Reach calls db d) d) f g h in
    λ same. ground arith

-- After any interleaving of calls on a database without runs, two runs of one agent with the same
-- key are the same run.
pub one_run_of_key :
    (calls : Calls) (db : Db) (i j : ℕ) (r s : RunRow) (key : String)
    → db.runs ≡ []
    → find_run i (perform_all calls db).runs ≡ some r
    → find_run j (perform_all calls db).runs ≡ some s
    → r.agent_id ≡ s.agent_id
    → r.idempotency_key ≡ some key
    → s.idempotency_key ≡ some key
    → i ≡ j
one_run_of_key calls db i j r s key e f g same p q = elim (ℕ_discrete i j) [
  | yes h ↦ h
  | no h ↦
      let d : Distinct db.runs = rw e tt in
      let a = find-Distinct _ i j r s (Reach-Distinct (schedule-Reach calls db d) d) f g h in
      absurd
        (ground (arith, eq_iff s.agent_id r.agent_id, eq_iff r.agent_id s.agent_id, eq_iff key key))
]
