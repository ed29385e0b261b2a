-- ===== src/Feedback/Pages.antt =====
-- The pages of `search` in src/agent_runtime/feedback/postgres.py.
use agent_runtime_kit.Feedback.{FeedbackRecord}
use agent_runtime_kit.Feedback.Search.{
  FeedbackPage, Filters, satisfies, search_feedback, where_all, sort_by_time, insert_by_time,
  precedes,
}
use agent_runtime_kit.Paging.{page_of, follow, follow-page_of}
use agent_runtime_kit.Errors.{Result, ok, ◌>>=◌}
use agent_runtime_kit.Base.{
  All, Bool, Bool-cases, List, Option, [], arith, false, if◌then◌else◌, inl, inr, leb, refl, true,
  ℕ, ◌&&◌, ◌+◌, ◌<◌, ◌∷◌, ◌≡◌, ◌≤◌, length, some, ◌∙◌,
}
use agent_runtime_kit.Memory.Records.{dropped}

-- A search as a caller reads it.
abbrev pub paged : Result FeedbackPage → Result (List FeedbackRecord × Option ℕ)
paged r = r >>= λ p. ok (p.items, p.next_offset)

search_feedback-page :
    (q : Filters) (limit offset : ℕ) (table : List FeedbackRecord)
    → 0 < limit
    → limit ≤ 100
    → paged (search_feedback q limit offset table)
      ≡ ok (page_of limit offset (sort_by_time (where_all q table)))
unfolding search_feedback
search_feedback-page q limit offset table h l =
    let e : (leb 1 limit && leb limit 100) ≡ true = ground arith in rw e refl

-- How often a record stands in a list, by a test of it.
abbrev pub count_of : (FeedbackRecord → Bool) → List FeedbackRecord → ℕ
count_of p [] = 0
count_of p (r ∷ rs) = (if p r then 1 else 0) + count_of p rs

count_of-insert :
    (p : FeedbackRecord → Bool) (r : FeedbackRecord) (rs : List FeedbackRecord)
    → count_of p (insert_by_time r rs) ≡ (if p r then 1 else 0) + count_of p rs
unfolding insert_by_time
count_of-insert p r [] = refl
count_of-insert p r (x ∷ xs) = elim (Bool-cases (precedes x r)) [
  | inl e ↦ rw e (omega (arith, count_of-insert p r xs))
  | inr e ↦ rw e refl
]

count_of-sort :
    (p : FeedbackRecord → Bool) (rs : List FeedbackRecord)
    → count_of p (sort_by_time rs) ≡ count_of p rs
unfolding sort_by_time
count_of-sort p [] = refl
count_of-sort p (r ∷ rs) = omega (arith, count_of-insert p r (sort_by_time rs), count_of-sort p rs)

count_of-where :
    (p : FeedbackRecord → Bool) (q : Filters) (rs : List FeedbackRecord)
    → count_of p (where_all q rs) ≡ count_of (λ r. satisfies q r && p r) rs
unfolding where_all
count_of-where p q [] = refl
count_of-where p q (r ∷ rs) = elim (Bool-cases (satisfies q r)) [
  | inl e ↦ rw e (omega (arith, count_of-where p q rs))
  | inr e ↦ rw e (omega (arith, count_of-where p q rs))
]

-- No record is followed by one that precedes it.
abbrev pub IsChronological : List FeedbackRecord → Type 0
IsChronological [] = Unit
IsChronological (r ∷ rs) = All (λ x. precedes x r ≡ false) rs × IsChronological rs

precedes_asym : (a b : FeedbackRecord) → precedes a b ≡ true → precedes b a ≡ false
precedes_asym a b h = ground arith

not_precedes_trans :
    (a b c : FeedbackRecord) → precedes a b ≡ false → precedes b c ≡ false → precedes a c ≡ false
not_precedes_trans a b c h k = ground arith

All-insert {κ} :
    (P : FeedbackRecord → Type κ) (r : FeedbackRecord) (xs : List FeedbackRecord)
    → P r
    → All P xs
    → All P (insert_by_time r xs)
unfolding insert_by_time
All-insert P r [] p a = (p, tt)
All-insert P r (x ∷ xs) p a = elim (Bool-cases (precedes x r)) [
  | inl e ↦ rw e (a.0, All-insert P r xs p a.1)
  | inr e ↦ rw e (p, a)
]

not_before-All :
    (r x : FeedbackRecord) (xs : List FeedbackRecord)
    → precedes x r ≡ false
    → All (λ y. precedes y x ≡ false) xs
    → All (λ y. precedes y r ≡ false) xs
not_before-All r x [] h a = tt
not_before-All r x (y ∷ ys) h a = (not_precedes_trans y x r a.0 h, not_before-All r x ys h a.1)

insert-IsChronological :
    (r : FeedbackRecord) (xs : List FeedbackRecord)
    → IsChronological xs
    → IsChronological (insert_by_time r xs)
unfolding insert_by_time
insert-IsChronological r [] h = (tt, tt)
insert-IsChronological r (x ∷ xs) h = elim (Bool-cases (precedes x r)) [
  | inl e ↦ rw e (
    All-insert (λ y. precedes y x ≡ false) r xs (precedes_asym x r e) h.0,
    insert-IsChronological r xs h.1,
  )
  | inr e ↦ rw e ((e, not_before-All r x xs e h.0), h)
]

sort-IsChronological : (rs : List FeedbackRecord) → IsChronological (sort_by_time rs)
unfolding sort_by_time
sort-IsChronological [] = tt
sort-IsChronological (r ∷ rs) = insert-IsChronological r (sort_by_time rs) (sort-IsChronological rs)

-- The matching records of a table, each as often as it stands there, in the order of their times.
pub record IsExport (q : Filters) (table records : List FeedbackRecord) : Type 0 where
  pub counts :
      (p : FeedbackRecord → Bool) → count_of p records ≡ count_of (λ r. satisfies q r && p r) table
  pub chronological : IsChronological records

length-count : (rs : List FeedbackRecord) → length rs ≡ count_of (λ _. true) rs
length-count [] = refl
length-count (r ∷ rs) = omega (arith, length-count rs)

count_of_bound : (p : FeedbackRecord → Bool) (rs : List FeedbackRecord) → count_of p rs ≤ length rs
count_of_bound p [] = omega arith
count_of_bound p (r ∷ rs) = ground (arith, count_of_bound p rs)

follow_eq {ℓ} :
    {A : Type ℓ} (n : ℕ) (f g : ℕ → Result (List A × Option ℕ)) (o : ℕ)
    → ((k : ℕ) → f k ≡ g k)
    → follow n f o ≡ follow n g o
follow_eq n f g o h = λ i. follow n (λ k. h k i) o

-- With a limit from 1 to 100, over one table that does not change meanwhile, a caller that starts
-- at the first page and follows the next offsets ends after no more pages than one more than the
-- table has rows; what the pages hold together is every matching record as often as it stands in
-- the table, and no record stands behind one that it precedes by time and id.
pub search_feedback-IsExport :
    (q : Filters) (limit n : ℕ) (table : List FeedbackRecord)
    → 0 < limit
    → limit ≤ 100
    → length table < n
    → (records : List FeedbackRecord) × (follow n (λ o. paged (search_feedback q limit o table)) 0
        ≡ some records)
      × IsExport q table records
unfolding dropped
search_feedback-IsExport q limit n table h l m =
    let sorted = sort_by_time (where_all q table) in
    let counts = λ (p : FeedbackRecord → Bool).
      count_of-sort p (where_all q table) ∙ count_of-where p q table in
    let short : length sorted < n + 0 = omega (
      arith,
      length-count sorted,
      counts (λ _. true),
      count_of_bound (λ r. satisfies q r && true) table,
    ) in
    (
      sorted,
      follow_eq n (λ o. paged (search_feedback q limit o table)) (λ o. ok (page_of limit o sorted))
            0 (λ o. search_feedback-page q limit o table h l)
          ∙ follow-page_of n limit 0 sorted h short (omega arith),
      record { counts = counts; chronological = sort-IsChronological (where_all q table) },
    )
