-- ===== src/Runs/History.antt =====
-- The changes that the run store makes to the table of runs: a step relation, its closure, and what
-- one step may do to a row. The operations of src/agent_runtime/runs/postgres.py are shown to be such
-- steps in `Runs/Steps`.
use agent_runtime_kit.Base.{
  ℕ, List, [], ◌∷◌, none, some, Bool, true, false, ◌≡◌, ◌≢◌, refl, ◌==◌, arith, Bool-cases, inl,
  inr, if◌then◌else◌,
}
use agent_runtime_kit.Database.{RunStatus, RunRow, is_active, find_run, store_run}
use agent_runtime_kit.Runs.Claim.{clashes, keyed, any_row}

-- One step of a run's status, or none.
abbrev pub may_become : RunStatus → RunStatus → Bool
may_become RunStatus.accepted RunStatus.accepted = true
may_become RunStatus.accepted RunStatus.running = true
may_become RunStatus.accepted RunStatus.failed = true
may_become RunStatus.accepted RunStatus.blocked = true
may_become RunStatus.running RunStatus.running = true
may_become RunStatus.running RunStatus.succeeded = true
may_become RunStatus.running RunStatus.failed = true
may_become RunStatus.running RunStatus.blocked = true
may_become RunStatus.succeeded RunStatus.succeeded = true
may_become RunStatus.failed RunStatus.failed = true
may_become RunStatus.blocked RunStatus.blocked = true
may_become _ _ = false

-- The columns that no operation writes.
pub record SameRun (r r' : RunRow) : Type 0 where
  pub id : r'.id ≡ r.id
  pub request_id : r'.request_id ≡ r.request_id
  pub agent_id : r'.agent_id ≡ r.agent_id
  pub thread_id : r'.thread_id ≡ r.thread_id
  pub idempotency_key : r'.idempotency_key ≡ r.idempotency_key
  pub request_hash : r'.request_hash ≡ r.request_hash
  pub owner_token : r'.owner_token ≡ r.owner_token
  pub lease_expires_at : r'.lease_expires_at ≡ r.lease_expires_at

-- A response stands in a row exactly when the run has succeeded.
abbrev pub response_fits : RunStatus → Bool → Bool
response_fits RunStatus.succeeded has = has
response_fits _ has = if has then false else true

abbrev pub has_response : RunRow → Bool
has_response r = elim r.response [ none ↦ false | some _ ↦ true ]

-- What one operation may do to a row: one that is settled it writes back as it was.
pub record Evolves (r r' : RunRow) : Type 0 where
  pub same : SameRun r r'
  pub settled : is_active r.status ≡ false → r' ≡ r
  pub status : may_become r.status r'.status ≡ true
  pub response :
      response_fits r.status (has_response r) ≡ true
      → response_fits r'.status (has_response r') ≡ true

abbrev pub key_taken : RunRow → List RunRow → Bool
key_taken row rs = elim row.idempotency_key [
  | none ↦ false
  | some key ↦ any_row (keyed row.agent_id key) rs
]

-- A row that `claim` may insert.
pub record IsNew (row : RunRow) (rs : List RunRow) : Type 0 where
  pub status : row.status ≡ RunStatus.accepted
  pub response : row.response ≡ none
  pub owner : (token : ℕ) × (row.owner_token ≡ some token)
  pub lease : (until : ℕ) × (row.lease_expires_at ≡ some until)
  pub unique : any_row (clashes row) rs ≡ false
  pub key : key_taken row rs ≡ false

pub data Step (rs rs' : List RunRow) : Type 0 where
  change :
      (r r' : RunRow)
      → find_run r'.id rs ≡ some r
      → Evolves r r'
      → rs' ≡ store_run r' rs
      → Step rs rs'
  insert : (row : RunRow) → IsNew row rs → rs' ≡ row ∷ rs → Step rs rs'

pub data Reach (rs : List RunRow) : List RunRow → Type 0 where
  here : Reach rs rs
  next : {ss ts : List RunRow} → Reach rs ss → Step ss ts → Reach rs ts

pub Reach-trans : {rs ss ts : List RunRow} → Reach rs ss → Reach ss ts → Reach rs ts
Reach-trans p here = p
Reach-trans p (next q s) = next (Reach-trans p q) s

pub Reach-eq : {rs ss : List RunRow} → ss ≡ rs → Reach rs ss
Reach-eq {rs} e = rw e here

-- The row that is found has the id that is looked for.
pub find_run_id : (k : ℕ) (rs : List RunRow) (r : RunRow) → find_run k rs ≡ some r → r.id ≡ k
unfolding find_run
find_run_id k [] r h = cc
find_run_id k (x ∷ rs) r h = ground (arith, find_run_id k rs r)

find_run-store_other :
    (k : ℕ) (row : RunRow) (rs : List RunRow)
    → row.id ≢ k
    → find_run k (store_run row rs) ≡ find_run k rs
unfolding find_run store_run
find_run-store_other k row [] h = refl
find_run-store_other k row (x ∷ rs) h = elim (Bool-cases (x.id == row.id)) [
  | inl e ↦ rw e (ground (arith, find_run-store_other k row rs h))
  | inr e ↦ rw e (ground (arith, find_run-store_other k row rs h))
]

-- A look-up behind a write.
pub find_run-store_run :
    (k : ℕ) (row : RunRow) (rs : List RunRow) (r : RunRow)
    → find_run row.id rs ≡ some r
    → find_run k (store_run row rs) ≡ (if row.id == k then some row else find_run k rs)
unfolding find_run store_run
find_run-store_run k row [] r h = cc
find_run-store_run k row (x ∷ rs) r h = elim (Bool-cases (x.id == row.id)) [
  | inl e ↦ rw e (ground (arith, find_run-store_other k row rs))
  | inr e ↦ rw e (ground (arith, find_run-store_run k row rs r))
]
