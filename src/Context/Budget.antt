-- ===== src/Context/Budget.antt =====
-- The byte budget in the streaming selection of src/agent_runtime/context.py.
use agent_runtime_kit.Context.Stream.{
  close_group, HistoryGroup, Selection, empty_group, file_group, fits, require, trim, trimmed, add,
  add_current, add_encoded, add_source, array_bytes, bit, finish, new, select_stream, track,
}
use agent_runtime_kit.Canonical.{Message}
use agent_runtime_kit.Base.{
  Bool-cases, List, [], arith, false, inl, inr, refl, true, ℕ, ◌++◌, ◌+◌, ◌-◌, ◌==◌, ◌∷◌, ◌≡◌, Bool,
  Option, Option-cases, if◌then◌else◌, is_empty, none, not, ◌&&◌, ◌||◌, ◌≤◌, some,
}
use agent_runtime_kit.Errors.{Result, Result-cases, err, ok, Error}
use agent_runtime_kit.Context.Exchange.{ContextSelection, is_system, is_user, pair_parts}

abbrev pub total_cost : List HistoryGroup → ℕ
total_cost [] = 0
total_cost (g ∷ gs) = g.cost + total_cost gs

-- What is kept between messages: the running total is the sum of the optional groups' costs, and what
-- is selected fits as long as the mandatory part does.
pub record IsWithin (budget : ℕ) (s : Selection) : Type 0 where
  pub budget_eq : s.budget ≡ budget
  pub total : s.optional_cost ≡ total_cost s.optional
  pub bounded : s.required_overflow ≡ false → fits budget (s.required_cost + s.optional_cost) ≡ true

-- The same before `_trim`: only the mandatory part is known to fit.
pub record IsTrimmable (budget : ℕ) (s : Selection) : Type 0 where
  pub budget_eq : s.budget ≡ budget
  pub total : s.optional_cost ≡ total_cost s.optional
  pub bounded : s.required_overflow ≡ false → fits budget s.required_cost ≡ true

trim_total :
    (budget required : ℕ) (gs : List HistoryGroup) (cost : ℕ)
    → cost ≡ total_cost gs
    → (trim budget required gs cost).1 ≡ total_cost (trim budget required gs cost).0
unfolding trim
trim_total budget required [] cost h = h
trim_total budget required (g ∷ gs) cost h = elim (Bool-cases (fits budget (required + cost))) [
  | inl e ↦ rw e h
  | inr e ↦ rw e (trim_total budget required gs (cost - g.cost) (omega arith))
]

trim-fits :
    (budget required : ℕ) (gs : List HistoryGroup) (cost : ℕ)
    → cost ≡ total_cost gs
    → fits budget required ≡ true
    → fits budget (required + (trim budget required gs cost).1) ≡ true
unfolding trim
trim-fits budget required [] cost h f = ground arith
trim-fits budget required (g ∷ gs) cost h f = elim (Bool-cases (fits budget (required + cost))) [
  | inl e ↦ rw e e
  | inr e ↦ rw e (trim-fits budget required gs (cost - g.cost) (omega arith) f)
]

trimmed-IsWithin : (budget : ℕ) (s : Selection) → IsTrimmable budget s → IsWithin budget (trimmed s)
unfolding trimmed
trimmed-IsWithin budget s h = record {
  budget_eq = h.budget_eq;
  total = trim_total s.budget s.required_cost s.optional s.optional_cost h.total;
  bounded = λ o.
      rw h.budget_eq
        (trim-fits budget s.required_cost s.optional s.optional_cost h.total (h.bounded o));
}

require-IsTrimmable :
    (budget : ℕ) (entries : List (ℕ × Message)) (cost history : ℕ) (s : Selection)
    → IsWithin budget s
    → IsTrimmable budget (require entries cost history s)
unfolding require
require-IsTrimmable budget entries cost history s h =
    elim (Bool-cases (fits s.budget (s.required_cost + cost))) [
      | inl e ↦
          rw e (record {
            budget_eq = h.budget_eq;
            total = h.total;
            bounded = λ o. rw h.budget_eq at e;
          })
      | inr e ↦ rw e (record {
        budget_eq = h.budget_eq;
        total = h.total;
        bounded = λ o. absurd (ground arith);
      })
    ]

total_cost-append :
    (gs : List HistoryGroup) (g : HistoryGroup) → total_cost (gs ++ g ∷ []) ≡ total_cost gs + g.cost
total_cost-append [] g = omega arith
total_cost-append (x ∷ gs) g = omega (arith, total_cost-append gs g)

either-IsWithin :
    (budget : ℕ) (b : Bool) (s t : Selection)
    → IsWithin budget s
    → IsWithin budget t
    → IsWithin budget (if b then s else t)
either-IsWithin budget true s t h k = h
either-IsWithin budget false s t h k = k

file_group-IsWithin :
    (budget : ℕ) (g : HistoryGroup) (s : Selection)
    → IsWithin budget s
    → IsWithin budget (file_group g s)
unfolding file_group
file_group-IsWithin budget g s h =
    let s1 : Selection = record s { mandatory_groups = s.mandatory_groups + 1 } in
    let w : IsWithin budget s1 = record {
      budget_eq = h.budget_eq;
      total = h.total;
      bounded = h.bounded;
    } in
    let s2 : Selection = record s {
      optional = s.optional ++ g ∷ [];
      optional_cost = s.optional_cost + g.cost;
    } in
    either-IsWithin budget g.mandatory _ _
      (trimmed-IsWithin budget (require g.entries g.cost g.history_count s1)
        (require-IsTrimmable budget g.entries g.cost g.history_count s1 w))
      (either-IsWithin budget (fits s.budget (s.required_cost + g.cost)) _ _
        (trimmed-IsWithin budget s2 (record {
          budget_eq = h.budget_eq;
          total = omega (arith, h.total, total_cost-append s.optional g);
          bounded = λ o. let b = h.bounded o in ground arith;
        }))
        (record {
          budget_eq = h.budget_eq;
          total = refl;
          bounded = λ o. let b = h.bounded o in ground arith;
        }))

close_group-IsWithin :
    (budget : ℕ) (s : Selection) → IsWithin budget s → IsWithin budget (close_group s)
unfolding close_group
close_group-IsWithin budget s h = elim (Bool-cases (s.group.count == 0)) [
  | inl e ↦ rw e h
  | inr e ↦ rw e (
      file_group-IsWithin budget s.group (record s { groups = s.groups + 1; group = empty_group })
        (record { budget_eq = h.budget_eq; total = h.total; bounded = h.bounded }))
]

track-IsWithin :
    (budget : ℕ) (message : Message) (s : Selection)
    → IsWithin budget s
    → IsWithin budget (track message s)
unfolding track
track-IsWithin budget message s h = elim (Option-cases (pair_parts message.content s.pending)) [
  | inl e ↦ rw (e, track) (record { budget_eq = h.budget_eq; total = h.total; bounded = h.bounded })
  | inr (pending, e) ↦
      rw (e, track) (record { budget_eq = h.budget_eq; total = h.total; bounded = h.bounded })
]

add_encoded-IsWithin :
    (budget : ℕ) (message : Message) (current : Bool) (size : ℕ) (s : Selection)
    → IsWithin budget s
    → IsWithin budget (add_encoded message current size s)
unfolding add_encoded
add_encoded-IsWithin budget message current size s h =
    let index = s.history_count + s.current_count in
    let boundary = current && (s.current_count == 0) in
    let w =
      either-IsWithin budget ((is_user message.role || boundary) && is_empty s.pending) _ _
        (close_group-IsWithin budget s h) h in
    either-IsWithin budget (is_system message.role) _ _
      (trimmed-IsWithin budget _ (
        require-IsTrimmable budget ((index, message) ∷ []) (1 + size) (bit (not current)) _
          (record { budget_eq = w.budget_eq; total = w.total; bounded = w.bounded })))
      (track-IsWithin budget message _
        (record { budget_eq = w.budget_eq; total = w.total; bounded = w.bounded }))

add-IsWithin :
    (encode : Message → Option ℕ) (budget : ℕ) (message : Message) (current : Bool) (s : Selection)
    → IsWithin budget s
    → IsWithin budget (add encode message current s)
unfolding add
add-IsWithin encode budget message current s h =
    elim s.failure
      as (λ f. IsWithin budget (elim f [
        | some _ ↦ s
        | none ↦ elim (encode message) [
          | none ↦ record s { failure = some Error.value_error }
          | some size ↦ add_encoded message current size s
        ]
      ])) [
        | some e ↦ h
        | none ↦
            elim (encode message)
              as (λ o. IsWithin budget (elim o [
                | none ↦ record s { failure = some Error.value_error }
                | some size ↦ add_encoded message current size s
              ])) [
                | none ↦ record { budget_eq = h.budget_eq; total = h.total; bounded = h.bounded }
                | some size ↦ add_encoded-IsWithin budget message current size s h
              ]
      ]

add_current-IsWithin :
    (encode : Message → Option ℕ) (budget : ℕ) (ms : List Message) (s : Selection)
    → IsWithin budget s
    → IsWithin budget (add_current encode ms s)
unfolding add_current
add_current-IsWithin encode budget [] s h = h
add_current-IsWithin encode budget (m ∷ ms) s h =
    add_current-IsWithin encode budget ms (add encode m true s)
      (add-IsWithin encode budget m true s h)

add_source-IsWithin :
    (encode : Message → Option ℕ) (budget : ℕ) (ms : List (Result Message)) (s s' : Selection)
    → IsWithin budget s
    → add_source encode ms s ≡ ok s'
    → IsWithin budget s'
unfolding add_source
add_source-IsWithin encode budget [] s s' h e = let q : s' ≡ s = ground arith in rw q h
add_source-IsWithin encode budget (ok m ∷ ms) s s' h e =
    add_source-IsWithin encode budget ms (add encode m false s) s'
      (add-IsWithin encode budget m false s h) e
add_source-IsWithin encode budget (err x ∷ ms) s s' h e = absurd (ground arith)

finish_bound :
    (budget : ℕ) (s : Selection) (r : ContextSelection)
    → IsWithin budget s
    → finish s ≡ ok r
    → r.selected_bytes ≤ budget
unfolding finish
finish_bound budget s r h e =
    let w = close_group-IsWithin budget s h in
    let f : s.failure ≡ none = ground arith in
    let o : (close_group s).required_overflow ≡ false = ground arith in
    let b = w.bounded o in
    let q : r.selected_bytes
        ≡ array_bytes ((close_group s).required_cost + (close_group s).optional_cost) =
      ground arith in
    ground arith

-- Under a budget of two bytes or more, what a streaming selection returns is reported to be within
-- the budget.
pub select_stream_bound :
    (encode : Message → Option ℕ) (max_bytes : ℕ) (source : List (Result Message))
    (current : List Message) (r : ContextSelection)
    → 2 ≤ max_bytes
    → select_stream encode max_bytes source current ≡ ok r
    → r.selected_bytes ≤ max_bytes
unfolding select_stream
select_stream_bound encode max_bytes source current r m h =
    elim (Result-cases (add_source encode source (new max_bytes))) [
      | inl (e, q) ↦ absurd (ground arith)
      | inr (s, q) ↦
          let z : IsWithin max_bytes (new max_bytes) = record {
            budget_eq = refl;
            total = refl;
            bounded = λ o. ground arith;
          } in
          finish_bound max_bytes (add_current encode current s) r
            (add_current-IsWithin encode max_bytes current s
              (add_source-IsWithin encode max_bytes source (new max_bytes) s z q))
            (rw q at h)
    ]
