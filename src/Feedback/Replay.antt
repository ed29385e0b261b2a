-- ===== src/Feedback/Replay.antt =====
-- What calls of `record` in src/agent_runtime/feedback/postgres.py leave in the table, and what a
-- retry of one gets.
use agent_runtime_kit.Feedback.{
  Call, FeedbackRecord, FeedbackSubmission, check_payload, find_key, find_feedback, insert_feedback,
  record_all, record_feedback, check_superseded, check_target, new_feedback,
}
use agent_runtime_kit.Errors.{Error, Result, Result-cases, err, ok, ◌>>◌}
use agent_runtime_kit.Base.{
  Bool-cases, List, Option-cases, String, [], arith, inl, inr, none, some, true, ℕ, ◌=ˢ◌, ◌∷◌, ◌≡◌,
  ap, eq_iff, false, refl, subst, sym, ◌∙◌, ◌≢◌,
}
use agent_runtime_kit.Database.{RunRow, find_run}

pub other_key :
    (k key : String) (table : List FeedbackRecord) (r : FeedbackRecord)
    → find_key k table ≡ none
    → find_key key table ≡ some r
    → (k =ˢ key) ≡ false
other_key k key table r a b = elim (Bool-cases (k =ˢ key)) [
  | inr q ↦ q
  | inl q ↦
      let e : k ≡ key = ground (arith, eq_iff k key) in
      let n : none ≡ some r = sym a ∙ ap (λ x. find_key x table) e ∙ b in absurd (ground arith)
]

pub check_payload_cases :
    (hash : FeedbackSubmission → String) (s : FeedbackSubmission) (e r : FeedbackRecord)
    → check_payload hash s e ≡ ok r
    → (e ≡ r) × ((e.payload_hash =ˢ hash s) ≡ true)
check_payload_cases hash s e r h = elim (Bool-cases (e.payload_hash =ˢ hash s)) [
  | inl q ↦ (ground arith, q)
  | inr q ↦ absurd (ground arith)
]

module _ (str : ℕ → String) (hash : FeedbackSubmission → String) where
  -- What an insert does: nothing, or a row more of a new key and a new id.
  pub data Inserts (now : ℕ) (s : FeedbackSubmission) (table : List FeedbackRecord)
      : Result FeedbackRecord × List FeedbackRecord → Type 0 where
    same : (r : Result FeedbackRecord) → Inserts now s table (r, table)
    added :
        find_key s.idempotency_key table ≡ none
        → find_feedback s.feedback_id table ≡ none
        → Inserts now s table (ok (new_feedback hash now s), new_feedback hash now s ∷ table)

  insert_feedback-Inserts :
      (now : ℕ) (s : FeedbackSubmission) (table : List FeedbackRecord)
      → Inserts now s table (insert_feedback hash now s table)
  unfolding insert_feedback
  insert_feedback-Inserts now s table = elim (Option-cases (find_key s.idempotency_key table)) [
    | inr (e, q) ↦ rw (q, insert_feedback) (same (check_payload hash s e))
    | inl q ↦ elim (Option-cases (find_feedback s.feedback_id table)) [
      | inr (c, f) ↦ rw (q, insert_feedback, f) (same (err Error.integrity_error))
      | inl f ↦ rw (q, insert_feedback, f) (added q f)
    ]
  ]

  pub record_feedback-Inserts :
      (now : ℕ) (runs : List RunRow) (s : FeedbackSubmission) (seen table : List FeedbackRecord)
      → Inserts now s table (record_feedback str hash now runs s seen table)
  unfolding record_feedback
  record_feedback-Inserts now runs s seen table =
      elim (Option-cases (find_key s.idempotency_key seen)) [
        | inr (e, q) ↦ rw (q, record_feedback) (same (check_payload hash s e))
        | inl q ↦
            elim (Result-cases (
              check_target str (find_run s.run_id runs) s
              >> check_superseded s s.supersedes_feedback_id seen)) [
                | inl (x, p) ↦ rw (q, record_feedback, p) (same (err x))
                | inr (u, p) ↦ rw (q, record_feedback, p) (insert_feedback-Inserts now s table)
              ]
      ]

  Inserts-keeps :
      (now : ℕ) (s : FeedbackSubmission) (table : List FeedbackRecord)
      (out : Result FeedbackRecord × List FeedbackRecord) (key : String) (r : FeedbackRecord)
      → Inserts now s table out
      → find_key key table ≡ some r
      → find_key key out.1 ≡ some r
  unfolding find_key
  Inserts-keeps now s table (_, _) key r (same _) h = h
  Inserts-keeps now s table (_, _) key r (added k f) h =
      rw (other_key s.idempotency_key key table r k h) h

  record_all-keeps :
      (cs : List Call) (table : List FeedbackRecord) (key : String) (r : FeedbackRecord)
      → find_key key table ≡ some r
      → find_key key (record_all str hash cs table) ≡ some r
  unfolding record_all
  record_all-keeps [] table key r h = h
  record_all-keeps (c ∷ cs) table key r h =
      let out = record_feedback str hash c.now c.runs c.submission c.seen table in
      record_all-keeps cs out.1 key r (
        Inserts-keeps c.now c.submission table out key r
          (record_feedback-Inserts c.now c.runs c.submission c.seen table) h)

  -- The row that a call returns stands under its key, with the hash of the call.
  abbrev Stands : FeedbackSubmission → List FeedbackRecord → Result FeedbackRecord → Type 0
  Stands s table (err e) = Unit
  Stands s table (ok r) =
      (find_key s.idempotency_key table ≡ some r) × ((r.payload_hash =ˢ hash s) ≡ true)

  check_payload-Stands :
      (s : FeedbackSubmission) (e : FeedbackRecord) (table : List FeedbackRecord)
      → find_key s.idempotency_key table ≡ some e
      → Stands s table (check_payload hash s e)
  check_payload-Stands s e table h = elim (Bool-cases (e.payload_hash =ˢ hash s)) [
    | inl q ↦ rw q (h, q)
    | inr q ↦ rw q tt
  ]

  insert_feedback-Stands :
      (now : ℕ) (s : FeedbackSubmission) (table : List FeedbackRecord)
      → Stands s (insert_feedback hash now s table).1 (insert_feedback hash now s table).0
  unfolding insert_feedback find_key
  insert_feedback-Stands now s table = elim (Option-cases (find_key s.idempotency_key table)) [
    | inr (e, q) ↦ rw (q, insert_feedback) (check_payload-Stands s e table q)
    | inl q ↦
        let own : (s.idempotency_key =ˢ s.idempotency_key) ≡ true =
          ground (arith, eq_iff s.idempotency_key s.idempotency_key) in
        let same_hash : (hash s =ˢ hash s) ≡ true = ground (arith, eq_iff (hash s) (hash s)) in
        elim (Option-cases (find_feedback s.feedback_id table)) [
          | inr (c, f) ↦ rw (q, insert_feedback, f) tt
          | inl f ↦ rw (q, insert_feedback, f) (rw own refl, same_hash)
        ]
  ]

  record_feedback-Stands :
      (now : ℕ) (runs : List RunRow) (s : FeedbackSubmission) (seen : List FeedbackRecord)
      (between : List Call)
      → Stands s
          (record_feedback str hash now runs s seen (record_all str hash between seen)).1
          (record_feedback str hash now runs s seen (record_all str hash between seen)).0
  unfolding record_feedback
  record_feedback-Stands now runs s seen between =
      let table = record_all str hash between seen in
      elim (Option-cases (find_key s.idempotency_key seen)) [
        | inr (e, q) ↦
            rw (q, record_feedback)
              (check_payload-Stands s e table (record_all-keeps between seen s.idempotency_key e q))
        | inl q ↦
            elim (Result-cases (
              check_target str (find_run s.run_id runs) s
              >> check_superseded s s.supersedes_feedback_id seen)) [
                | inl (x, p) ↦ rw (q, record_feedback, p) tt
                | inr (u, p) ↦ rw (q, record_feedback, p) (insert_feedback-Stands now s table)
              ]
      ]

  record_feedback-found :
      (now : ℕ) (runs : List RunRow) (s : FeedbackSubmission) (seen table : List FeedbackRecord)
      (e : FeedbackRecord)
      → find_key s.idempotency_key seen ≡ some e
      → record_feedback str hash now runs s seen table ≡ (check_payload hash s e, table)
  unfolding record_feedback
  record_feedback-found now runs s seen table e h = rw (h, record_feedback) refl

-- When record has returned a row for a submission, while others recorded feedback between its
-- look-ups and its insert, then every later call with the same submission, at any time and
-- whatever else has been recorded since and meanwhile, returns that row and changes nothing.
pub record_feedback_replays :
    (str : ℕ → String) (hash : FeedbackSubmission → String) (now later : ℕ)
    (runs runs' : List RunRow) (s : FeedbackSubmission) (seen : List FeedbackRecord)
    (between since meanwhile : List Call) (r : FeedbackRecord) (table : List FeedbackRecord)
    → record_feedback str hash now runs s seen (record_all str hash between seen) ≡ (ok r, table)
    → record_feedback str hash later runs' s
        (record_all str hash since table)
        (record_all str hash meanwhile (record_all str hash since table))
      ≡ (ok r, record_all str hash meanwhile (record_all str hash since table))
record_feedback_replays str hash now later runs runs' s seen between since meanwhile r table h =
    let st = record_feedback-Stands str hash now runs s seen between in
    let (found, same_hash) = subst (λ out. Stands str hash s out.1 out.0) h st in
    let table' = record_all str hash since table in
    let q = record_all-keeps str hash since table s.idempotency_key r found in
    record_feedback-found str hash later runs' s table' (record_all str hash meanwhile table') r q
    ∙ rw same_hash refl

-- Where a key has a row of another hash, a call of record with that key raises
-- idempotency_conflict and changes nothing, whatever else is recorded before and meanwhile.
pub record_feedback_conflicts :
    (str : ℕ → String) (hash : FeedbackSubmission → String) (now : ℕ) (runs : List RunRow)
    (s : FeedbackSubmission) (table : List FeedbackRecord) (since meanwhile : List Call)
    (r : FeedbackRecord)
    → find_key s.idempotency_key table ≡ some r
    → r.payload_hash ≢ hash s
    → record_feedback str hash now runs s
        (record_all str hash since table)
        (record_all str hash meanwhile (record_all str hash since table))
      ≡ (
        err Error.idempotency_conflict,
        record_all str hash meanwhile (record_all str hash since table),
      )
record_feedback_conflicts str hash now runs s table since meanwhile r h n =
    let table' = record_all str hash since table in
    let q = record_all-keeps str hash since table s.idempotency_key r h in
    let other : (r.payload_hash =ˢ hash s) ≡ false =
      ground (arith, eq_iff r.payload_hash (hash s)) in
    record_feedback-found str hash now runs s table' (record_all str hash meanwhile table') r q
    ∙ rw other refl
