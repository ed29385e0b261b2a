-- ===== src/Runs/Arbitration.antt =====
-- How `claim` of src/agent_runtime/runs/postgres.py arbitrates threads and keys.
use mathlib.Core.Bool.{false≢true}
use agent_runtime_kit.Errors.{Error, err, ok}
use agent_runtime_kit.Base.{
  All, Bool, Bool-cases, List, String, [], ap, arith, eq_iff, false, if◌then◌else◌, inl, inr, none,
  refl, some, sym, true, ℕ, ◌<◌, ◌==◌, ◌∙◌, ◌∷◌, ◌≡◌, Option-cases,
}
use agent_runtime_kit.Database.{Db, RunRow, find_run}
use agent_runtime_kit.Canonical.Equality.{same_text?}
use agent_runtime_kit.Runs.Claim.{
  Claim, claim, claim_lookup, claim_slot, clear_thread, existing_claim, keyed, live_on, select,
  select_keyed,
}
use agent_runtime_kit.Runs.Invariant.{All-find, Distinct, apart}
use agent_runtime_kit.Runs.Rows.{check_hash, expire, lock_thread}

-- Where at most one row can satisfy a query, and one does, the query selects that row.
select_none :
    (p : RunRow → Bool) (r : RunRow) (rs : List RunRow)
    → ((s : RunRow) → apart r s ≡ true → p s ≡ false)
    → All (λ s. apart r s ≡ true) rs
    → select p rs ≡ []
unfolding select
select_none p r [] none_else h = refl
select_none p r (x ∷ rs) none_else h = rw (none_else x h.0) (select_none p r rs none_else h.1)

pub select_only :
    (p : RunRow → Bool) (k : ℕ) (r : RunRow) (rs : List RunRow)
    → ((s t : RunRow) → p s ≡ true → apart s t ≡ true → p t ≡ false)
    → Distinct rs
    → find_run k rs ≡ some r
    → p r ≡ true
    → select p rs ≡ r ∷ []
unfolding select find_run
select_only p k r [] only d f h = cc
select_only p k r (x ∷ rs) only d f h = elim (Bool-cases (p x)) [
  | inl e ↦ elim (Bool-cases (x.id == k)) [
    | inl i ↦
        let q : x ≡ r = ground arith in
        rw (e, select_none p x rs (λ s a. only x s e a) d.0) (ap (λ y. y ∷ []) q)
    | inr i ↦
        let g : find_run k rs ≡ some r = ground arith in
        let a : apart x r ≡ true = All-find (λ s. apart x s ≡ true) k rs r d.0 g in
        absurd (false≢true (sym (only x r e a) ∙ h))
  ]
  | inr e ↦ elim (Bool-cases (x.id == k)) [
    | inl i ↦ absurd (ground arith)
    | inr i ↦ rw e (select_only p k r rs only d.1 (ground arith) h)
  ]
]

pub live_apart :
    (thread_id : ℕ) (s t : RunRow)
    → live_on thread_id s ≡ true
    → apart s t ≡ true
    → live_on thread_id t ≡ false
live_apart thread_id s t p a = ground arith

pub keyed-apart :
    (agent_id key : String) (s t : RunRow)
    → keyed agent_id key s ≡ true
    → apart s t ≡ true
    → keyed agent_id key t ≡ false
keyed-apart agent_id key s t p a = elim (Option-cases s.idempotency_key) [
  | inl e ↦ absurd (ground arith)
  | inr (k, e) ↦ ground (
    arith,
    eq_iff k key,
    eq_iff s.agent_id agent_id,
    eq_iff t.agent_id agent_id,
    eq_iff t.agent_id s.agent_id,
  )
]

-- Where the unique indexes hold, a claim with a positive lease, on a thread that exists, whose
-- agent and key name a run gets that run and creates nothing if the request hash is the run's, and
-- otherwise raises idempotency_conflict; it changes no table.
pub claim_replays :
    (c : Claim) (meanwhile : Db → Db) (now : ℕ) (db : Db) (k : ℕ) (r : RunRow) (key : String)
    → Distinct db.runs
    → 0 < c.lease
    → lock_thread c.thread_id db ≡ ok tt
    → find_run k db.runs ≡ some r
    → c.idempotency_key ≡ some key
    → keyed c.agent.agent_id key r ≡ true
    → claim c meanwhile now db ≡ (
      (if same_text? r.request_hash (some c.request_hash)
          then ok (existing_claim r)
          else err Error.idempotency_conflict),
      db,
    )
unfolding claim claim_lookup select_keyed check_hash
claim_replays c meanwhile now db k r key d lease lock f ck kr =
    let sel : select (keyed c.agent.agent_id key) db.runs ≡ r ∷ [] =
      select_only (keyed c.agent.agent_id key) k r db.runs (keyed-apart c.agent.agent_id key) d f
        kr in
    ground arith

-- Where the unique indexes hold, while the lease of a thread's active run has not lapsed, a claim
-- with a positive lease on the thread that no earlier run answers raises thread_busy and changes
-- no table, if nothing is committed in between.
pub claim_busy :
    (c : Claim) (now : ℕ) (db : Db) (k : ℕ) (r : RunRow) (until : ℕ)
    → Distinct db.runs
    → 0 < c.lease
    → claim_lookup c db ≡ ok none
    → find_run k db.runs ≡ some r
    → live_on c.thread_id r ≡ true
    → r.lease_expires_at ≡ some until
    → now < until
    → claim c (λ d. d) now db ≡ (err Error.thread_busy, db)
unfolding claim claim_slot clear_thread expire
claim_busy c now db k r until d lease none_yet f live l t =
    let sel : select (live_on c.thread_id) db.runs ≡ r ∷ [] =
      select_only (live_on c.thread_id) k r db.runs (live_apart c.thread_id) d f live in
    ground arith
