-- ===== src/Feedback/Search.antt =====
-- `search` of src/agent_runtime/feedback/postgres.py.
use agent_runtime_kit.Feedback.{
  FeedbackRecord, FeedbackSource, FeedbackTarget, FeedbackType, same_target,
}
use agent_runtime_kit.Memory.Records.{dropped}
use agent_runtime_kit.Runs.Recover.{limited}
use agent_runtime_kit.Errors.{Error, Result, err, ok}
use agent_runtime_kit.Base.{
  Bool, List, Option, String, [], false, if◌then◌else◌, leb, length, ltb, none, some, true, ℕ, ◌&&◌,
  ◌+◌, ◌==◌, ◌=ˢ◌, ◌||◌, ◌∷◌,
}

abbrev pub same_source : FeedbackSource → FeedbackSource → Bool
same_source FeedbackSource.user FeedbackSource.user = true
same_source FeedbackSource.reviewer FeedbackSource.reviewer = true
same_source FeedbackSource.system FeedbackSource.system = true
same_source _ _ = false

abbrev pub same_type : FeedbackType → FeedbackType → Bool
same_type FeedbackType.thumb FeedbackType.thumb = true
same_type FeedbackType.rating FeedbackType.rating = true
same_type FeedbackType.correction FeedbackType.correction = true
same_type FeedbackType.comment FeedbackType.comment = true
same_type FeedbackType.label FeedbackType.label = true
same_type _ _ = false

-- The keyword arguments besides the page.
pub record Filters : Type 0 where
  pub run_id : Option ℕ
  pub target_type : Option FeedbackTarget
  pub target_id : Option String
  pub source : Option FeedbackSource
  pub feedback_type : Option FeedbackType
  pub created_from : Option ℕ
  pub created_to : Option ℕ

-- `if x is not None: conditions.append(...)`
abbrev pub given {ℓ} : {A : Type ℓ} → (A → Bool) → Option A → Bool
given p none = true
given p (some a) = p a

unfoldable pub satisfies : Filters → FeedbackRecord → Bool
satisfies q r =
    given (λ id. r.submission.run_id == id) q.run_id
    && given (same_target r.submission.target_type) q.target_type
    && given (λ id. r.submission.target_id =ˢ id) q.target_id
    && given (same_source r.submission.source) q.source
    && given (same_type r.submission.feedback_type) q.feedback_type
    && given (λ t. leb t r.created_at) q.created_from
    && given (λ t. ltb r.created_at t) q.created_to

unfoldable pub where_all : Filters → List FeedbackRecord → List FeedbackRecord
where_all q [] = []
where_all q (r ∷ rs) = let rest = where_all q rs in if satisfies q r then r ∷ rest else rest

-- `order_by(created_at, id)`
abbrev pub precedes : FeedbackRecord → FeedbackRecord → Bool
precedes a b =
    ltb a.created_at b.created_at
    || (a.created_at == b.created_at && ltb a.submission.feedback_id b.submission.feedback_id)

unfoldable pub insert_by_time : FeedbackRecord → List FeedbackRecord → List FeedbackRecord
insert_by_time r [] = r ∷ []
insert_by_time r (x ∷ xs) = if precedes x r then x ∷ insert_by_time r xs else r ∷ x ∷ xs

unfoldable pub sort_by_time : List FeedbackRecord → List FeedbackRecord
sort_by_time [] = []
sort_by_time (r ∷ rs) = insert_by_time r (sort_by_time rs)

pub record FeedbackPage : Type 0 where
  pub items : List FeedbackRecord
  pub next_offset : Option ℕ

abbrev pub feedback_page : ℕ → ℕ → List FeedbackRecord → FeedbackPage
feedback_page limit offset rows = record {
  items = limited limit rows;
  next_offset = if ltb limit (length rows) then some (offset + limit) else none;
}

-- `search`; an offset is a natural number.
unfoldable pub search_feedback : Filters → ℕ → ℕ → List FeedbackRecord → Result FeedbackPage
search_feedback q limit offset table =
    if leb 1 limit && leb limit 100
    then ok (
        feedback_page limit offset
          (limited (limit + 1) (dropped offset (sort_by_time (where_all q table)))))
    else err Error.value_error
