-- ===== src/Feedback/Keys.antt =====
-- How keys tell the rows of the feedback table in src/agent_runtime/feedback/postgres.py apart.
use agent_runtime_kit.Feedback.{
  Call, FeedbackRecord, FeedbackSubmission, find_key, find_feedback, record_all, record_feedback,
  new_feedback,
}
use agent_runtime_kit.Feedback.Replay.{Inserts, added, same, other_key, record_feedback-Inserts}
use agent_runtime_kit.Errors.{Result}
use agent_runtime_kit.Base.{
  Bool-cases, List, String, [], ap, arith, eq_iff, if◌then◌else◌, inl, inr, refl, some, subst, sym,
  true, ℕ, ◌==◌, ◌=ˢ◌, ◌∙◌, ◌∷◌, ◌≡◌,
}
use mathlib.Core.Option.{some-injective}

module _ (str : ℕ → String) (hash : FeedbackSubmission → String) where
  -- A row that is found by its id is found by its key too.
  Indexed : List FeedbackRecord → Type 0
  Indexed table =
      (i : ℕ) (r : FeedbackRecord)
      → find_feedback i table ≡ some r
      → find_key r.submission.idempotency_key table ≡ some r

  Inserts-Indexed :
      (now : ℕ) (s : FeedbackSubmission) (table : List FeedbackRecord)
      (out : Result FeedbackRecord × List FeedbackRecord)
      → Inserts str hash now s table out
      → Indexed table
      → Indexed out.1
  unfolding Indexed find_key find_feedback
  Inserts-Indexed now s table (_, _) (same _) h = h
  Inserts-Indexed now s table (_, _) (added k f) h = λ i r e.
      elim (Bool-cases (s.feedback_id == i)) [
        | inl q ↦
            let z : new_feedback hash now s ≡ r =
              some-injective (new_feedback hash now s) r (rw q at e) in
            let own : (s.idempotency_key =ˢ s.idempotency_key) ≡ true =
              ground (arith, eq_iff s.idempotency_key s.idempotency_key) in
            subst
              (λ r.
                (if s.idempotency_key =ˢ r.submission.idempotency_key
                  then some (new_feedback hash now s)
                  else find_key r.submission.idempotency_key table)
                ≡ some r)
              z (rw own refl)
        | inr q ↦
            let e' : find_feedback i table ≡ some r = rw q at e in
            let o = h i r e' in
            rw (other_key s.idempotency_key r.submission.idempotency_key table r k o) o
      ]

  record_all-Indexed :
      (cs : List Call) (table : List FeedbackRecord)
      → Indexed table
      → Indexed (record_all str hash cs table)
  unfolding record_all
  record_all-Indexed [] table h = h
  record_all-Indexed (c ∷ cs) table h =
      let out = record_feedback str hash c.now c.runs c.submission c.seen table in
      record_all-Indexed cs out.1 (
        Inserts-Indexed c.now c.submission table out
          (record_feedback-Inserts str hash c.now c.runs c.submission c.seen table) h)

-- After any calls of record on an empty table, two rows with the same key are the same row.
pub one_feedback_of_key :
    (str : ℕ → String) (hash : FeedbackSubmission → String) (calls : List Call) (i j : ℕ)
    (r q : FeedbackRecord)
    → find_feedback i (record_all str hash calls []) ≡ some r
    → find_feedback j (record_all str hash calls []) ≡ some q
    → r.submission.idempotency_key ≡ q.submission.idempotency_key
    → r ≡ q
unfolding Indexed find_feedback
one_feedback_of_key str hash calls i j r q e f k =
    let table = record_all str hash calls [] in
    let start : Indexed str hash [] = λ i r e. absurd (ground arith) in
    let h = record_all-Indexed str hash calls [] start in
    some-injective r q (sym (h i r e) ∙ ap (λ key. find_key key table) k ∙ h j q f)
