-- ===== src/Context/Agree/Streamed.antt =====
-- `_StreamingSelection` of src/agent_runtime/context.py follows the reference.
use agent_runtime_kit.Canonical.{Message}
use agent_runtime_kit.Context.Agree.Entries.{Entry, cost, group_of, is_mandatory}
use agent_runtime_kit.Context.Agree.Greedy.{kept}
use agent_runtime_kit.Context.Agree.Reference.{Full, close}
use agent_runtime_kit.Context.Agree.Shape.{
  mandatory_of, optional_of, optional_of-append, mandatory_of-append,
}
use agent_runtime_kit.Context.Stream.{Selection, close_group, empty_group, fits}
use agent_runtime_kit.Base.{
  Bool-cases, List, Option, [], append-nil, arith, if◌then◌else◌, inl, inr, is_empty, length,
  length-append, refl, true, ℕ, ◌++◌, ◌+◌, ◌-◌, ◌==◌, ◌∙◌, ◌∷◌, ◌≡◌,
}
use agent_runtime_kit.Context.Agree.Sums.{weigh}
use agent_runtime_kit.Context.Agree.Shown.{
  Counts, file_group-mandatory, file_group-optional, held_with, shown, as_kept,
}

pub weigh_last :
    (i : ℕ) (sizes : List ℕ) (size : ℕ)
    → weigh (λ _. true) i (sizes ++ size ∷ []) ≡ weigh (λ _. true) i sizes + (1 + size)
weigh_last i [] size = omega arith
weigh_last i (x ∷ xs) size = omega (arith, weigh_last (i + 1) xs size)

length_empty : (es : List Entry) → (length es == 0) ≡ is_empty es
length_empty [] = refl
length_empty (e ∷ es) = ground arith

pub Counts_eq :
    (c c' : Counts)
    → c.mandatory_groups ≡ c'.mandatory_groups
    → c.groups ≡ c'.groups
    → c.history_count ≡ c'.history_count
    → c.current_count ≡ c'.current_count
    → c.total_cost ≡ c'.total_cost
    → c ≡ c'
Counts_eq c c' p q r s t = λ i. record {
  mandatory_groups = p i;
  groups = q i;
  history_count = r i;
  current_count = s i;
  total_cost = t i;
}

module _ (encode : Message → Option ℕ) (b hist : ℕ) where
  abbrev pub counts : Full → Counts
  counts f = record {
    mandatory_groups = length (mandatory_of hist f.closed);
    groups = length f.closed;
    history_count = length f.sizes - (length f.sizes - hist);
    current_count = length f.sizes - hist;
    total_cost = weigh (λ _. true) 0 f.sizes;
  }

  abbrev pub streamed : Full → List Entry → Selection
  streamed f held =
      shown encode b hist (as_kept b (group_of encode hist f.group)) f.pending (counts f)
        (kept encode b (cost encode f.required) (optional_of hist f.closed)) f.required held

  as_kept-empty : as_kept b (group_of encode hist []) ≡ empty_group
  as_kept-empty = elim (Bool-cases (fits b 0)) [ inl e ↦ rw e refl | inr e ↦ rw e refl ]

  abbrev pub held_closed : Full → List Entry → List Entry
  held_closed f held =
      if is_empty f.group
      then held
      else if is_mandatory hist f.group
      then held_with encode b hist f.required held f.group
      else held

  -- A group leaves no trace but what is filed.
  pub close_group-streamed :
      (f : Full) (held : List Entry)
      → close_group (streamed f held) ≡ streamed (close hist f) (held_closed f held)
  unfolding close_group close
  close_group-streamed f held =
      let g = f.group in
      let os = optional_of hist f.closed in
      let more = length-append f.closed (g ∷ []) in
      elim (Bool-cases (is_empty f.group)) [
        | inl e ↦ rw (length_empty f.group, e) refl
        | inr e ↦ elim (Bool-cases (is_mandatory hist f.group)) [
          | inl m ↦
              let o : optional_of hist (f.closed ++ g ∷ []) ≡ os =
                optional_of-append hist f.closed (g ∷ []) ∙ rw m (append-nil os) in
              let a : mandatory_of hist (f.closed ++ g ∷ [])
                  ≡ mandatory_of hist f.closed ++ g ∷ [] =
                mandatory_of-append hist f.closed (g ∷ []) ∙ rw m refl in
              let n : length (mandatory_of hist f.closed ++ g ∷ [])
                  ≡ length (mandatory_of hist f.closed) + 1 =
                omega (arith, length-append (mandatory_of hist f.closed) (g ∷ [])) in
              let c : Counts = record (counts f) { groups = length f.closed + 1 } in
              let k : length (f.closed ++ g ∷ []) ≡ length f.closed + 1 = omega (arith, more) in
              let filed = rw m at (
                file_group-mandatory encode b hist empty_group f.pending c os f.required held g
                  m) in
              rw (length_empty f.group, e, m, o, a, n, k, as_kept-empty) filed
          | inr m ↦
              let o : optional_of hist (f.closed ++ g ∷ []) ≡ os ++ g ∷ [] =
                optional_of-append hist f.closed (g ∷ []) ∙ rw m refl in
              let a : mandatory_of hist (f.closed ++ g ∷ []) ≡ mandatory_of hist f.closed =
                mandatory_of-append hist f.closed (g ∷ [])
                ∙ rw m (append-nil (mandatory_of hist f.closed)) in
              let c : Counts = record (counts f) { groups = length f.closed + 1 } in
              let k : length (f.closed ++ g ∷ []) ≡ length f.closed + 1 = omega (arith, more) in
              let filed = rw m at (
                file_group-optional encode b hist empty_group f.pending c os f.required held g m) in
              rw (length_empty f.group, e, m, o, a, k, as_kept-empty, append-nil f.required) filed
        ]
      ]
