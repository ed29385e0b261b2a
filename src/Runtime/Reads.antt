-- ===== src/Runtime/Reads.antt =====
-- The rows that the records of src/agent_runtime/runs/postgres.py are read from.
use mathlib.Core.Option.{some-injective}
use agent_runtime_kit.Errors.{Result, ok, err, ◌>>=◌}
use agent_runtime_kit.Database.{Db, RunRow, find_run}
use agent_runtime_kit.Runtime.Stored.{IsRowOf}
use agent_runtime_kit.Runs.Rows.{RunClaim, RunRecord, model, commit, check_hash, lock_thread}
use agent_runtime_kit.Runs.Claim.{
  Claim, claim, claim_slot, claimed, one_or_none, select, select_keyed, insert_run, claim_from,
  existing_claim, one, keyed, any_row, clashes, claim_lookup, claim_row, clear_thread, live_on,
}
use agent_runtime_kit.Base.{
  Bool, Bool-cases, List, Option, String, [], ap, arith, inl, inr, none, refl, some, ℕ, ◌++◌, ◌==◌,
  ◌∷◌, ◌≡◌, ltb, subst, true, ◌∙◌, ◌⊎◌,
}
use agent_runtime_kit.Memory.Records.{inserted}

-- A row that a look-up finds stands in the table.
pub find_run_split :
    (k : ℕ) (rs : List RunRow) (row : RunRow)
    → find_run k rs ≡ some row
    → (before : List RunRow) × (after : List RunRow) × (rs ≡ before ++ row ∷ after)
unfolding find_run
find_run_split k [] row h = absurd (ground arith)
find_run_split k (r ∷ rs) row h = elim (Bool-cases (r.id == k)) [
  | inl e ↦ let h' = rw e at h in ([], rs, ap (λ x. x ∷ rs) (some-injective r row h'))
  | inr e ↦
      let (before, after, q) = find_run_split k rs row (rw e at h) in
      (r ∷ before, after, ap (λ l. r ∷ l) q)
]

select_split :
    (p : RunRow → Bool) (rs : List RunRow) (row : RunRow) (rest : List RunRow)
    → select p rs ≡ row ∷ rest
    → (before : List RunRow) × (after : List RunRow) × (rs ≡ before ++ row ∷ after)
unfolding select
select_split p [] row rest h = absurd (ground arith)
select_split p (r ∷ rs) row rest h = elim (Bool-cases (p r)) [
  | inl e ↦ let h' = rw e at h in ([], rs, ap (λ x. x ∷ rs) (ground arith))
  | inr e ↦
      let (before, after, q) = select_split p rs row rest (rw e at h) in
      (r ∷ before, after, ap (λ l. r ∷ l) q)
]

one_or_none-some :
    (rs : List RunRow) (row : RunRow) → one_or_none rs ≡ ok (some row) → rs ≡ row ∷ []
one_or_none-some [] row h = absurd (ground arith)
one_or_none-some (r ∷ []) row h = ap (λ x. x ∷ []) (ground arith)
one_or_none-some (r ∷ s ∷ rs) row h = absurd (ground arith)

pub select_keyed_split :
    (agent_id : String) (key : Option String) (db : Db) (row : RunRow)
    → select_keyed agent_id key db ≡ ok (some row)
    → IsRowOf (model row) db
unfolding select_keyed
select_keyed_split agent_id none db row h = absurd (ground arith)
select_keyed_split agent_id (some key) db row h =
    let s = one_or_none-some (select (keyed agent_id key) db.runs) row h in
    let (before, after, q) = select_split (keyed agent_id key) db.runs row [] s in
    record { before = before; row = row; after = after; stands = q; read = refl }

pub result_through {ℓ κ} :
    {A : Type ℓ} {B : Type κ} (m : Result A) (f : A → Result B) (b : B)
    → (m >>= f) ≡ ok b
    → (a : A) × (m ≡ ok a) × (f a ≡ ok b)
result_through (ok a) f b h = (a, refl, h)
result_through (err e) f b h = absurd (ground arith)

pub ok_pair {ℓ κ} :
    {A : Type ℓ} {B : Type κ} (a b : A) (x y : B)
    → ◌≡◌ {A = Result (A × B)} (ok (a, x)) (ok (b, y))
    → (a ≡ b) × (x ≡ y)
ok_pair a b x y h = (ground arith, ground arith)

insert_run-runs :
    (row : RunRow) (key : Option String) (db : Db) (r : RunRow) (db' : Db)
    → insert_run row key db ≡ ok (some r, db')
    → db'.runs ≡ r ∷ db.runs
unfolding insert_run
insert_run-runs row none db r db' h = elim (Bool-cases (any_row (clashes row) db.runs)) [
  | inl e ↦ absurd (ground arith)
  | inr e ↦ ground arith
]
insert_run-runs row (some key) db r db' h =
    elim (Bool-cases (any_row (keyed row.agent_id key) db.runs)) [
      | inl e ↦ absurd (ground arith)
      | inr e ↦ elim (Bool-cases (any_row (clashes row) db.runs)) [
        | inl f ↦ absurd (ground arith)
        | inr f ↦ ground arith
      ]
    ]

inserted_cases :
    (row : RunRow) (key : Option String) (db : Db) (inserted : Option RunRow) (db' : Db)
    → insert_run row key db ≡ ok (inserted, db')
    → (inserted ≡ none) ⊎ ((r : RunRow) × (inserted ≡ some r) × IsRowOf (model r) db')
inserted_cases row key db none db' h = inl refl
inserted_cases row key db (some r) db' h = inr (
  r,
  refl,
  record {
    before = [];
    row = r;
    after = db.runs;
    stands = insert_run-runs row key db r db' h;
    read = refl;
  },
)

one-some : (found : Option RunRow) (row : RunRow) → one found ≡ ok row → found ≡ some row
one-some none row h = absurd (ground arith)
one-some (some r) row h = ap some (ground arith)

claimed_row :
    (c : Claim) (inserted : Option RunRow) (db : Db) (cl : RunClaim) (db' : Db)
    → (inserted ≡ none) ⊎ ((r : RunRow) × (inserted ≡ some r) × IsRowOf (model r) db)
    → claimed c (inserted, db) ≡ ok (cl, db')
    → IsRowOf cl.run db'
claimed_row c (some r) db cl db' (inl e) h = absurd (ground arith)
claimed_row c (some r) db cl db' (inr (x, e, row)) h =
    let (p, q) = ok_pair (record { run = model r; created = true }) cl db db' h in
    let z : x ≡ r = ground arith in
    subst (IsRowOf cl.run) q (
      subst (λ (rec : RunRecord). IsRowOf rec db) (ap model z ∙ ap (λ (x : RunClaim). x.run) p) row)
claimed_row c none db cl db' k h =
    let (found, s, h1) =
      result_through (select_keyed c.agent.agent_id c.idempotency_key db) _ (cl, db') h in
    let (existing, o, h2) = result_through (one found) _ (cl, db') h1 in
    let (_, _, h3) = result_through (check_hash existing c.request_hash) _ (cl, db') h2 in
    let (p, q) = ok_pair (existing_claim existing) cl db db' h3 in
    let row =
      select_keyed_split c.agent.agent_id c.idempotency_key db existing
        (s ∙ ap ok (one-some found existing o)) in
    subst (IsRowOf cl.run) q
      (subst (λ (rec : RunRecord). IsRowOf rec db) (ap (λ (x : RunClaim). x.run) p) row)

claim_slot_row :
    (c : Claim) (now : ℕ) (db : Db) (cl : RunClaim) (db' : Db)
    → claim_slot c now db ≡ ok (cl, db')
    → IsRowOf cl.run db'
unfolding claim_slot
claim_slot_row c now db cl db' h =
    let (active, _, h1) =
      result_through (one_or_none (select (live_on c.thread_id) db.runs)) _ (cl, db') h in
    let (db1, _, h2) = result_through (clear_thread active now db) _ (cl, db') h1 in
    let ((inserted, db2), q, h3) =
      result_through (insert_run (claim_row c now) c.idempotency_key db1) _ (cl, db') h2 in
    claimed_row c inserted db2 cl db'
      (inserted_cases (claim_row c now) c.idempotency_key db1 inserted db2 q) h3

pub commit_ok {ℓ} :
    {A : Type ℓ} (db : Db) (r : Result (A × Db)) (a : A) (db' : Db)
    → commit db r ≡ (ok a, db')
    → r ≡ ok (a, db')
commit_ok db (ok (x, d)) a db' h =
    let p : x ≡ a = ground arith in let q : d ≡ db' = ap (λ p. p.1) h in λ i. ok (p i, q i)
commit_ok db (err e) a db' h = absurd (ground arith)

claim_from_row :
    (c : Claim) (meanwhile : Db → Db) (now : ℕ) (db : Db) (found : Result (Option RunRow))
    (cl : RunClaim) (db' : Db)
    → claim_lookup c db ≡ found
    → claim_from c meanwhile now db found ≡ (ok cl, db')
    → IsRowOf cl.run db'
unfolding claim_lookup
claim_from_row c meanwhile now db (err e) cl db' f h = absurd (ground arith)
claim_from_row c meanwhile now db (ok none) cl db' f h =
    claim_slot_row c now (meanwhile db) cl db'
      (commit_ok (meanwhile db) (claim_slot c now (meanwhile db)) cl db' h)
claim_from_row c meanwhile now db (ok (some existing)) cl db' f h =
    let h1 =
      commit_ok db (check_hash existing c.request_hash >>= λ _. ok (existing_claim existing, db)) cl
        db' h in
    let (_, _, h2) = result_through (check_hash existing c.request_hash) _ (cl, db') h1 in
    let (p, q) = ok_pair (existing_claim existing) cl db db' h2 in
    let (_, _, s) = result_through (lock_thread c.thread_id db) _ (some existing) f in
    let row = select_keyed_split c.agent.agent_id c.idempotency_key db existing s in
    subst (IsRowOf cl.run) q
      (subst (λ (rec : RunRecord). IsRowOf rec db) (ap (λ (x : RunClaim). x.run) p) row)

pub claim_row_stands :
    (c : Claim) (meanwhile : Db → Db) (now : ℕ) (db : Db) (cl : RunClaim) (db' : Db)
    → claim c meanwhile now db ≡ (ok cl, db')
    → IsRowOf cl.run db'
unfolding claim
claim_row_stands c meanwhile now db cl db' h = elim (Bool-cases (ltb 0 c.lease)) [
  | inl e ↦ claim_from_row c meanwhile now db (claim_lookup c db) cl db' refl (rw e at h)
  | inr e ↦ absurd (let h' = rw e at h in ground arith)
]
