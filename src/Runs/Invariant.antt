-- ===== src/Runs/Invariant.antt =====
-- The uniqueness constraints of the table of runs (src/agent_runtime/memory/tables.py) as an
-- invariant of the steps that the run store takes.
use agent_runtime_kit.Base.{
  All, Bool, Bool-cases, List, [], arith, false, inl, inr, none, not, refl, some, subst, true, ℕ,
  ◌==◌, ◌||◌, ◌∷◌, ◌≡◌,
}
use agent_runtime_kit.Database.{RunRow, find_run, store_run}
use agent_runtime_kit.Runs.History.{change, insert, here, next, Evolves, Reach, Step, key_taken}
use agent_runtime_kit.Runs.Claim.{any_row, clashes, keyed}

-- Whether the key of one row is the key of another, for the same agent.
abbrev pub shares_key : RunRow → RunRow → Bool
shares_key row s = elim row.idempotency_key [ none ↦ false | some key ↦ keyed row.agent_id key s ]

-- Two rows that no unique index holds apart.
abbrev pub apart : RunRow → RunRow → Bool
apart row s = not (clashes row s || shares_key row s)

-- No two rows share an id, a request, an agent's key, or a thread while both are active.
abbrev pub Distinct : List RunRow → Type 0
Distinct [] = Unit
Distinct (r ∷ rs) = All (λ s. apart r s ≡ true) rs × Distinct rs

pub All-find {ℓ} :
    (P : RunRow → Type ℓ) (k : ℕ) (rs : List RunRow) (r : RunRow)
    → All P rs
    → find_run k rs ≡ some r
    → P r
unfolding find_run
All-find P k [] r h e = cc
All-find P k (x ∷ rs) r h e = elim (Bool-cases (x.id == k)) [
  | inl same ↦ let q : x ≡ r = ground arith in rw q at h.0
  | inr other ↦ All-find P k rs r h.1 (ground arith)
]

apart-Evolves_left : (r r' s : RunRow) → Evolves r r' → apart r s ≡ true → apart r' s ≡ true
apart-Evolves_left r r' s ev h = ground arith

apart-Evolves_right : (x r r' : RunRow) → Evolves r r' → apart x r ≡ true → apart x r' ≡ true
apart-Evolves_right x r r' ev h = ground arith

All-Evolves :
    (r r' : RunRow) (rs : List RunRow)
    → Evolves r r'
    → All (λ s. apart r s ≡ true) rs
    → All (λ s. apart r' s ≡ true) rs
All-Evolves r r' [] ev h = tt
All-Evolves r r' (x ∷ rs) ev h = (apart-Evolves_left r r' x ev h.0, All-Evolves r r' rs ev h.1)

-- A write under an id that the rows do not have.
store_run-absent :
    (r r' : RunRow) (rs : List RunRow)
    → r'.id ≡ r.id
    → All (λ s. apart r s ≡ true) rs
    → store_run r' rs ≡ rs
unfolding store_run
store_run-absent r r' [] e h = refl
store_run-absent r r' (x ∷ rs) e h =
    let q : (x.id == r'.id) ≡ false = ground arith in rw (q, store_run-absent r r' rs e h.1)

All-store :
    (x r r' : RunRow) (rs : List RunRow)
    → Evolves r r'
    → apart x r ≡ true
    → All (λ s. apart x s ≡ true) rs
    → All (λ s. apart x s ≡ true) (store_run r' rs)
unfolding store_run
All-store x r r' [] ev p h = tt
All-store x r r' (y ∷ rs) ev p h = elim (Bool-cases (y.id == r'.id)) [
  | inl e ↦ rw e (apart-Evolves_right x r r' ev p, All-store x r r' rs ev p h.1)
  | inr e ↦ rw e (h.0, All-store x r r' rs ev p h.1)
]

store-Distinct :
    (r r' : RunRow) (rs : List RunRow)
    → find_run r'.id rs ≡ some r
    → Evolves r r'
    → Distinct rs
    → Distinct (store_run r' rs)
unfolding store_run find_run
store-Distinct r r' [] f ev d = tt
store-Distinct r r' (x ∷ rs) f ev d = elim (Bool-cases (x.id == r'.id)) [
  | inl e ↦
      let q : x ≡ r = ground arith in
      let h : All (λ s. apart r s ≡ true) rs = subst (λ y. All (λ s. apart y s ≡ true) rs) q d.0 in
      rw (e, store_run-absent r r' rs ev.same.id h) (All-Evolves r r' rs ev h, d.1)
  | inr e ↦
      let g : find_run r'.id rs ≡ some r = ground arith in
      rw e (
        All-store x r r' rs ev (All-find (λ s. apart x s ≡ true) r'.id rs r d.0 g) d.0,
        store-Distinct r r' rs g ev d.1,
      )
]

insert-All :
    (row : RunRow) (rs : List RunRow)
    → any_row (clashes row) rs ≡ false
    → key_taken row rs ≡ false
    → All (λ s. apart row s ≡ true) rs
unfolding any_row
insert-All row [] h k = tt
insert-All row (x ∷ rs) h k = (ground arith, insert-All row rs (ground arith) (ground arith))

pub Step-Distinct : {rs rs' : List RunRow} → Step rs rs' → Distinct rs → Distinct rs'
Step-Distinct (change r r' found ev e) d = rw e (store-Distinct r r' _ found ev d)
Step-Distinct (insert row new e) d = rw e (insert-All row _ new.unique new.key, d)

-- Whatever steps the run store takes, the unique indexes hold.
pub Reach-Distinct : {rs rs' : List RunRow} → Reach rs rs' → Distinct rs → Distinct rs'
Reach-Distinct here d = d
Reach-Distinct (next r s) d = Step-Distinct s (Reach-Distinct r d)
