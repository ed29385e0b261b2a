-- ===== src/Feedback/Targets.antt =====
-- What the rows of the feedback table in src/agent_runtime/feedback/postgres.py are about.
use agent_runtime_kit.Feedback.{
  FeedbackRecord, FeedbackSubmission, FeedbackTarget, find_key, find_feedback, record_feedback,
  new_feedback, among_results, check_response, check_target, has_succeeded, same_target,
  valid_target, check_payload, check_superseded, insert_feedback, same_subject,
}
use agent_runtime_kit.Feedback.Replay.{check_payload_cases}
use agent_runtime_kit.Canonical.{RuntimeResponse, ToolResult}
use agent_runtime_kit.Database.{RunRow, RunStatus, find_run}
use agent_runtime_kit.Errors.{ok, Result-cases}
use agent_runtime_kit.Base.{
  Bool-cases, List, String, [], ap, arith, eq_iff, inl, inr, refl, some, sym, true, ℕ, ◌++◌, ◌=ˢ◌,
  ◌∙◌, ◌∷◌, ◌≡◌, Option-cases, none,
}

-- What a submission may be about: the run, the message of its response, or a result of a tool in it.
pub data IsTarget (str : ℕ → String) (s : FeedbackSubmission) (row : RunRow)
    (response : RuntimeResponse) : Type 0 where
  of_run :
      s.target_type ≡ FeedbackTarget.run → s.target_id ≡ str row.id → IsTarget str s row response
  of_message :
      s.target_type ≡ FeedbackTarget.message
      → s.target_id ≡ str response.message.id
      → IsTarget str s row response
  of_result :
      (before after : List ToolResult) (result : ToolResult)
      → s.target_type ≡ FeedbackTarget.tool_result
      → response.tool_results ≡ before ++ result ∷ after
      → s.target_id ≡ str result.id
      → IsTarget str s row response

-- What a new row is about.
pub record IsAbout (str : ℕ → String) (runs : List RunRow) (seen : List FeedbackRecord)
    (s : FeedbackSubmission) : Type 0 where
  pub row : RunRow
  pub response : RuntimeResponse
  pub found : find_run s.run_id runs ≡ some row
  pub succeeded : row.status ≡ RunStatus.succeeded
  pub responded : row.response ≡ some response
  pub target : IsTarget str s row response

-- What a new row may supersede: nothing, or feedback on the same target.
pub data IsSuperseding (seen : List FeedbackRecord) (s : FeedbackSubmission) : Type 0 where
  first : s.supersedes_feedback_id ≡ none → IsSuperseding seen s
  again :
      (id : ℕ) (old : FeedbackRecord)
      → s.supersedes_feedback_id ≡ some id
      → find_feedback id seen ≡ some old
      → old.submission.run_id ≡ s.run_id
      → old.submission.target_type ≡ s.target_type
      → old.submission.target_id ≡ s.target_id
      → IsSuperseding seen s

-- How a call returns: a row that stood there, or a new one.
pub data IsRecorded (str : ℕ → String) (hash : FeedbackSubmission → String) (now : ℕ)
    (runs : List RunRow) (s : FeedbackSubmission) (seen table : List FeedbackRecord)
    (r : FeedbackRecord) (left : List FeedbackRecord) : Type 0 where
  replayed :
      left ≡ table → r.payload_hash ≡ hash s → IsRecorded str hash now runs s seen table r left
  recorded :
      left ≡ r ∷ table
      → r ≡ new_feedback hash now s
      → find_key s.idempotency_key table ≡ none
      → IsAbout str runs seen s
      → IsSuperseding seen s
      → IsRecorded str hash now runs s seen table r left

same_target_eq : (a b : FeedbackTarget) → same_target a b ≡ true → a ≡ b
same_target_eq a b h = ground arith

among_results_split :
    (str : ℕ → String) (id : String) (ts : List ToolResult)
    → among_results str id ts ≡ true
    → (before : List ToolResult) × (result : ToolResult) × (after : List ToolResult) × (ts
        ≡ before ++ result ∷ after)
      × (id ≡ str result.id)
unfolding among_results
among_results_split str id [] h = absurd (ground arith)
among_results_split str id (t ∷ ts) h = elim (Bool-cases (str t.id =ˢ id)) [
  | inl q ↦ ([], t, ts, refl, ground (arith, eq_iff (str t.id) id))
  | inr q ↦
      let (before, result, after, e, f) = among_results_split str id ts (rw q at h) in
      (t ∷ before, result, after, ap (λ l. t ∷ l) e, f)
]

valid_target-IsTarget :
    (str : ℕ → String) (s : FeedbackSubmission) (row : RunRow) (response : RuntimeResponse)
    (kind : FeedbackTarget)
    → s.target_type ≡ kind
    → valid_target str kind s.target_id row response ≡ true
    → IsTarget str s row response
unfolding valid_target
valid_target-IsTarget str s row response FeedbackTarget.run e h =
    of_run e (ground (arith, eq_iff s.target_id (str row.id)))
valid_target-IsTarget str s row response FeedbackTarget.message e h =
    of_message e (ground (arith, eq_iff s.target_id (str response.message.id)))
valid_target-IsTarget str s row response FeedbackTarget.tool_result e h =
    let (before, result, after, p, q) =
      among_results_split str s.target_id response.tool_results h in
    of_result before after result e p q

has_succeeded_eq :
    (str : ℕ → String) (status : RunStatus)
    → has_succeeded str status ≡ true
    → status ≡ RunStatus.succeeded
has_succeeded_eq str status h = ground arith

check_target-IsAbout :
    (str : ℕ → String) (runs : List RunRow) (seen : List FeedbackRecord) (s : FeedbackSubmission)
    (u : Unit {0})
    → check_target str (find_run s.run_id runs) s ≡ ok u
    → IsAbout str runs seen s
unfolding check_target
check_target-IsAbout str runs seen s u h = elim (Option-cases (find_run s.run_id runs)) [
  | inl q ↦ absurd (let h' = rw (q, check_target) at h in ground arith)
  | inr (row, q) ↦
      let h1 : check_response str row s row.response ≡ ok u = rw (q, check_target) at h in
      elim (Option-cases row.response) [
        | inl z ↦ absurd (let h2 = ap (check_response str row s) (sym z) ∙ h1 in ground arith)
        | inr (response, z) ↦
            let h2 : check_response str row s (some response) ≡ ok u =
              ap (check_response str row s) (sym z) ∙ h1 in
            let a : has_succeeded str row.status ≡ true = ground arith in
            let c : valid_target str s.target_type s.target_id row response ≡ true = ground arith in
            record {
              row = row;
              response = response;
              found = q;
              succeeded = has_succeeded_eq str row.status a;
              responded = z;
              target = valid_target-IsTarget str s row response s.target_type refl c;
            }
      ]
]

check_superseded-IsSuperseding :
    (s : FeedbackSubmission) (seen : List FeedbackRecord) (u : Unit {0})
    → check_superseded s s.supersedes_feedback_id seen ≡ ok u
    → IsSuperseding seen s
unfolding check_superseded
check_superseded-IsSuperseding s seen u h = elim (Option-cases s.supersedes_feedback_id) [
  | inl q ↦ first q
  | inr (id, q) ↦
      let h1 : check_superseded s (some id) seen ≡ ok u =
        ap (λ o. check_superseded s o seen) (sym q) ∙ h in
      elim (Option-cases (find_feedback id seen)) [
        | inl z ↦ absurd (let h2 = rw (z, check_superseded) at h1 in ground arith)
        | inr (old, z) ↦
            let h2 = rw (z, check_superseded) at h1 in
            let a : same_subject s old.submission ≡ true = ground arith in
            again id old q z (ground arith)
              (same_target_eq old.submission.target_type s.target_type (ground arith))
              (ground (arith, eq_iff old.submission.target_id s.target_id))
      ]
]

ok-injective : (a b : FeedbackRecord) → ok a ≡ ok b → a ≡ b
ok-injective a b h = ground arith

check_payload-IsRecorded :
    (str : ℕ → String) (hash : FeedbackSubmission → String) (now : ℕ) (runs : List RunRow)
    (s : FeedbackSubmission) (seen table : List FeedbackRecord) (r : FeedbackRecord)
    (left : List FeedbackRecord) (e : FeedbackRecord)
    → check_payload hash s e ≡ ok r
    → table ≡ left
    → IsRecorded str hash now runs s seen table r left
check_payload-IsRecorded str hash now runs s seen table r left e h l =
    let (z, q) = check_payload_cases hash s e r h in
    replayed (sym l) (
      ap (λ (r : FeedbackRecord). r.payload_hash) (sym z)
      ∙ ground (arith, eq_iff e.payload_hash (hash s)))

insert_feedback-IsRecorded :
    (str : ℕ → String) (hash : FeedbackSubmission → String) (now : ℕ) (runs : List RunRow)
    (s : FeedbackSubmission) (seen table : List FeedbackRecord) (r : FeedbackRecord)
    (left : List FeedbackRecord)
    → IsAbout str runs seen s
    → IsSuperseding seen s
    → insert_feedback hash now s table ≡ (ok r, left)
    → IsRecorded str hash now runs s seen table r left
unfolding insert_feedback
insert_feedback-IsRecorded str hash now runs s seen table r left a c h =
    elim (Option-cases (find_key s.idempotency_key table)) [
      | inr (e, q) ↦
          let h1 = rw (q, insert_feedback) at h in
          check_payload-IsRecorded str hash now runs s seen table r left e (ap (λ p. p.0) h1)
            (ap (λ p. p.1) h1)
      | inl q ↦ elim (Option-cases (find_feedback s.feedback_id table)) [
        | inr (clash, f) ↦ absurd (let h2 = rw (q, insert_feedback, f) at h in ground arith)
        | inl f ↦
            let h2 = rw (q, insert_feedback, f) at h in
            let e : new_feedback hash now s ≡ r =
              ok-injective (new_feedback hash now s) r (ap (λ p. p.0) h2) in
            let l : new_feedback hash now s ∷ table ≡ left = ap (λ p. p.1) h2 in
            recorded (sym l ∙ ap (λ x. x ∷ table) e) (sym e) q a c
      ]
    ]

-- When record returns, either the table is as it was and the row that is returned has the hash of
-- the submission; or a new row of the submission stands in front, under a key that was free, its
-- run has succeeded with a response that the target is part of, and it supersedes nothing or
-- feedback on the same target.
pub record_feedback-IsRecorded :
    (str : ℕ → String) (hash : FeedbackSubmission → String) (now : ℕ) (runs : List RunRow)
    (s : FeedbackSubmission) (seen table : List FeedbackRecord) (r : FeedbackRecord)
    (left : List FeedbackRecord)
    → record_feedback str hash now runs s seen table ≡ (ok r, left)
    → IsRecorded str hash now runs s seen table r left
unfolding record_feedback
record_feedback-IsRecorded str hash now runs s seen table r left h =
    elim (Option-cases (find_key s.idempotency_key seen)) [
      | inr (e, q) ↦
          let h1 = rw (q, record_feedback) at h in
          check_payload-IsRecorded str hash now runs s seen table r left e (ap (λ p. p.0) h1)
            (ap (λ p. p.1) h1)
      | inl q ↦ elim (Result-cases (check_target str (find_run s.run_id runs) s)) [
        | inl (x, p) ↦ absurd (let h1 = rw (q, record_feedback, p) at h in ground arith)
        | inr (u, p) ↦ elim (Result-cases (check_superseded s s.supersedes_feedback_id seen)) [
          | inl (x, z) ↦ absurd (let h1 = rw (q, record_feedback, p, z) at h in ground arith)
          | inr (v, z) ↦
              let h1 : insert_feedback hash now s table ≡ (ok r, left) =
                rw (q, record_feedback, p, z) at h in
              insert_feedback-IsRecorded str hash now runs s seen table r left
                (check_target-IsAbout str runs seen s u p)
                (check_superseded-IsSuperseding s seen v z) h1
        ]
      ]
    ]
