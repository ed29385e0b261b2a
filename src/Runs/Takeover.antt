-- ===== src/Runs/Takeover.antt =====
-- When `claim` of src/agent_runtime/runs/postgres.py gets a thread.
use agent_runtime_kit.Errors.{ok}
use agent_runtime_kit.Runs.Claim.{
  select, Claim, any_row, claim_lookup, keyed, select_keyed, claim, claim_row, claim_slot, clashes,
  clear_thread, insert_run, live_on,
}
use agent_runtime_kit.Base.{
  ==_iff, All, Bool, Bool-cases, List, String, [], arith, false, inl, inr, none, refl, some, true,
  ℕ, ◌==◌, ◌||◌, ◌∷◌, ◌≡◌, Option-cases, ◌<◌, ◌∙◌, ◌≤◌,
}
use agent_runtime_kit.Database.{Db, RunRow, find_run, store_run}
use agent_runtime_kit.Runs.Rows.{expire, expired_or_same, model}
use agent_runtime_kit.Context.Stream.{new}
use agent_runtime_kit.Runs.Invariant.{Distinct}
use agent_runtime_kit.Runs.Arbitration.{live_apart, select_only}

-- A query whose rows are all the one that is written over finds nothing behind the write, if the new
-- row does not satisfy it.
any_row-store_run :
    (p : RunRow → Bool) (row : RunRow) (rs : List RunRow)
    → p row ≡ false
    → All (λ s. s.id ≡ row.id) (select p rs)
    → any_row p (store_run row rs) ≡ false
unfolding any_row store_run select
any_row-store_run p row [] h a = refl
any_row-store_run p row (x ∷ rs) h a = elim (Bool-cases (p x)) [
  | inl e ↦
      let b : All (λ s. s.id ≡ row.id) (x ∷ select p rs) = rw e at a in
      let i : (x.id == row.id) ≡ true = (==_iff x.id row.id).1 b.0 in
      rw (i, h) (any_row-store_run p row rs h b.1)
  | inr e ↦
      let b : All (λ s. s.id ≡ row.id) (select p rs) = rw e at a in
      elim (Bool-cases (x.id == row.id)) [
        | inl i ↦ rw (i, h) (any_row-store_run p row rs h b)
        | inr i ↦ rw (i, e) (any_row-store_run p row rs h b)
      ]
]

-- Two queries that agree off the rows of a third, which there are none of.
select_agree :
    (p q r : RunRow → Bool) (rs : List RunRow)
    → ((s : RunRow) → r s ≡ false → p s ≡ q s)
    → any_row r rs ≡ false
    → select p rs ≡ select q rs
unfolding any_row select
select_agree p q r [] h a = refl
select_agree p q r (x ∷ rs) h a =
    let e : p x ≡ q x = h x (ground arith) in rw (e, select_agree p q r rs h (ground arith)) refl

any_row-find :
    (p : RunRow → Bool) (k : ℕ) (r : RunRow) (rs : List RunRow)
    → any_row p rs ≡ false
    → find_run k rs ≡ some r
    → p r ≡ false
unfolding any_row find_run
any_row-find p k r [] a f = cc
any_row-find p k r (x ∷ rs) a f = elim (Bool-cases (x.id == k)) [
  | inl e ↦ let q : x ≡ r = ground arith in let n : p x ≡ false = ground arith in rw q at n
  | inr e ↦ any_row-find p k r rs (ground arith) (ground arith)
]

select_nil-find :
    (p : RunRow → Bool) (k : ℕ) (r : RunRow) (rs : List RunRow)
    → select p rs ≡ []
    → find_run k rs ≡ some r
    → p r ≡ false
unfolding select find_run
select_nil-find p k r [] a f = cc
select_nil-find p k r (x ∷ rs) a f = elim (Bool-cases (p x)) [
  | inl e ↦ absurd (ground arith)
  | inr e ↦ elim (Bool-cases (x.id == k)) [
    | inl i ↦ let q : x ≡ r = ground arith in rw q at e
    | inr i ↦ select_nil-find p k r rs (ground arith) (ground arith)
  ]
]

-- A run of the same id or of the same request.
abbrev pub same_request : Claim → RunRow → Bool
same_request c s = s.id == c.run_id || s.request_id == c.request_id

-- The index of the key, behind the expiry, for a claim with a key.
key_free :
    (c : Claim) (key : String) (now : ℕ) (db : Db) (k : ℕ) (r : RunRow)
    → claim_lookup c db ≡ ok none
    → c.idempotency_key ≡ some key
    → find_run k db.runs ≡ some r
    → any_row (keyed c.agent.agent_id key) (store_run (expired_or_same r now) db.runs) ≡ false
unfolding claim_lookup select_keyed expire
key_free c key now db k r h e f =
    let sel : select (keyed c.agent.agent_id key) db.runs ≡ [] = ground arith in
    let free : keyed c.agent.agent_id key r ≡ false =
      select_nil-find (keyed c.agent.agent_id key) k r db.runs sel f in
    any_row-store_run (keyed c.agent.agent_id key) (expired_or_same r now) db.runs (ground arith)
      (rw sel tt)

-- The other indexes, behind the expiry.
slot_free :
    (c : Claim) (now : ℕ) (db : Db) (k : ℕ) (r : RunRow) (until : ℕ)
    → Distinct db.runs
    → any_row (same_request c) db.runs ≡ false
    → find_run k db.runs ≡ some r
    → live_on c.thread_id r ≡ true
    → r.lease_expires_at ≡ some until
    → until ≤ now
    → any_row (clashes (claim_row c now)) (store_run (expired_or_same r now) db.runs) ≡ false
unfolding expire
slot_free c now db k r until d new f live l t =
    let fresh : same_request c r ≡ false = any_row-find (same_request c) k r db.runs new f in
    let sel : select (clashes (claim_row c now)) db.runs ≡ r ∷ [] =
      select_agree (clashes (claim_row c now)) (live_on c.thread_id) (same_request c) db.runs
        (λ s h. ground arith) new
      ∙ select_only (live_on c.thread_id) k r db.runs (live_apart c.thread_id) d f live in
    any_row-store_run (clashes (claim_row c now)) (expired_or_same r now) db.runs (ground arith)
      (rw sel (ground arith))

-- Where the unique indexes hold, on a thread whose active run's lease has lapsed, a claim with a
-- positive lease that no earlier run answers, of a new run and a new request, fails that run and
-- inserts its own, with nothing committed in between: it returns that one, accepted and created.
pub claim_takes_over :
    (c : Claim) (now : ℕ) (db : Db) (k : ℕ) (r : RunRow) (until : ℕ)
    → Distinct db.runs
    → 0 < c.lease
    → claim_lookup c db ≡ ok none
    → any_row (same_request c) db.runs ≡ false
    → find_run k db.runs ≡ some r
    → live_on c.thread_id r ≡ true
    → r.lease_expires_at ≡ some until
    → until ≤ now
    → claim c (λ d. d) now db ≡ (
      ok (record { run = model (claim_row c now); created = true }),
      record db { runs = claim_row c now ∷ store_run (expired_or_same r now) db.runs },
    )
unfolding claim claim_slot clear_thread expire insert_run
claim_takes_over c now db k r until d lease none_yet new f live l t =
    let sel : select (live_on c.thread_id) db.runs ≡ r ∷ [] =
      select_only (live_on c.thread_id) k r db.runs (live_apart c.thread_id) d f live in
    let clear = slot_free c now db k r until d new f live l t in
    elim (Option-cases c.idempotency_key) [
      | inl e ↦ ground arith
      | inr (key, e) ↦ let free = key_free c key now db k r none_yet e f in ground arith
    ]
