-- ===== src/Context/Agree/Shown.antt =====
-- The state of `_StreamingSelection` in src/agent_runtime/context.py, as what it shows of the groups
-- so far, and what its operations make of it.
use agent_runtime_kit.Canonical.{Message}
use agent_runtime_kit.Context.Agree.Entries.{
  Entry, cost, costs, group_of, is_mandatory, history_in, cost-append, history_in-append,
  is_mandatory-append, size_of,
}
use agent_runtime_kit.Context.Agree.Greedy.{
  kept, costs-append, fits_mono, kept-kept, kept_barrier, kept_more,
}
use agent_runtime_kit.Context.Stream.{
  HistoryGroup, Selection, file_group, fits, grow, require, trim, trimmed, with_optional,
}
use agent_runtime_kit.Base.{
  Bool-cases, List, Option, String, [], ap, arith, false, if◌then◌else◌, inl, inr, leb, map,
  map-append, none, not, refl, sym, true, ℕ, ◌++◌, ◌+◌, ◌-◌, ◌∙◌, ◌∷◌, ◌≡◌, ◌≤◌, length-append,
}

-- A group as it is kept: its entries are dropped once they cannot fit.
abbrev pub as_kept : ℕ → HistoryGroup → HistoryGroup
as_kept b g = record g { entries = if fits b g.cost then g.entries else [] }

pub record Counts : Type 0 where
  pub mandatory_groups : ℕ
  pub groups : ℕ
  pub history_count : ℕ
  pub current_count : ℕ
  pub total_cost : ℕ

module _ (encode : Message → Option ℕ) (b hist : ℕ) where
  abbrev pub all_of : List (List Entry) → List HistoryGroup
  all_of gs = map (group_of encode hist) gs

  -- `held` are the required entries that the state holds.
  abbrev pub shown :
      HistoryGroup → List String → Counts → List (List Entry) → List Entry → List Entry → Selection
  shown group pending c optional required held = record {
    budget = b;
    group = group;
    optional = all_of optional;
    optional_cost = costs encode optional;
    required = held;
    required_cost = cost encode required;
    required_history = history_in hist required;
    required_overflow = not (fits b (cost encode required));
    mandatory_groups = c.mandatory_groups;
    groups = c.groups;
    pending = pending;
    history_count = c.history_count;
    current_count = c.current_count;
    total_cost = c.total_cost;
    failure = none;
  }

  trim-kept :
      (used : ℕ) (gs : List (List Entry))
      → trim b used (all_of gs) (costs encode gs)
        ≡ (all_of (kept encode b used gs), costs encode (kept encode b used gs))
  unfolding trim kept
  trim-kept used [] = refl
  trim-kept used (g ∷ gs) =
      let z : costs encode (g ∷ gs) - cost encode g ≡ costs encode gs = omega arith in
      let ih = trim-kept used gs in
      elim (Bool-cases (fits b (used + costs encode (g ∷ gs)))) [
        | inl e ↦ rw e refl
        | inr e ↦ rw (e, z) ih
      ]

  -- The required entries that are held after more of them.
  abbrev pub held_with : List Entry → List Entry → List Entry → List Entry
  held_with required held es =
      if fits b (cost encode required + cost encode es) then held ++ es else held

  trimmed-shown :
      (group : HistoryGroup) (pending : List String) (c : Counts) (os : List (List Entry))
      (required held : List Entry)
      → trimmed (shown group pending c os required held)
        ≡ shown group pending c (kept encode b (cost encode required) os) required held
  unfolding trimmed
  trimmed-shown group pending c os required held =
      ap (with_optional (shown group pending c os required held))
        (trim-kept (cost encode required) os)

  require-shown :
      (group : HistoryGroup) (pending : List String) (c : Counts) (os : List (List Entry))
      (required held es es' : List Entry) (n h : ℕ)
      → n ≡ cost encode es
      → h ≡ history_in hist es
      → (fits b (cost encode required + cost encode es) ≡ true → es' ≡ es)
      → require es' n h (shown group pending c os required held)
        ≡ shown group pending c os (required ++ es) (held_with required held es)
  unfolding require
  require-shown group pending c os required held es es' n h p q r =
      let a = cost-append encode required es in
      let d = history_in-append hist required es in
      elim (Bool-cases (fits b (cost encode required + cost encode es))) [
        | inl e ↦
            let old : fits b (cost encode required) ≡ true =
              fits_mono b (cost encode required) (cost encode required + cost encode es)
                (omega arith) e in
            rw (p, q, a, d, e, r e, old) refl
        | inr e ↦ rw (p, q, a, d, e) refl
      ]

  -- `_require` and `_trim` in turn.
  pub require-trimmed :
      (group : HistoryGroup) (pending : List String) (c : Counts) (os : List (List Entry))
      (required held es es' : List Entry) (n h : ℕ)
      → n ≡ cost encode es
      → h ≡ history_in hist es
      → (fits b (cost encode required + cost encode es) ≡ true → es' ≡ es)
      → trimmed (
          require es' n h
            (shown group pending c (kept encode b (cost encode required) os) required held))
        ≡ shown group pending c
            (kept encode b (cost encode (required ++ es)) os)
            (required ++ es)
            (held_with required held es)
  require-trimmed group pending c os required held es es' n h p q r =
      let ks = kept encode b (cost encode required) os in
      let l : cost encode required ≤ cost encode (required ++ es) =
        omega (arith, cost-append encode required es) in
      ap trimmed (require-shown group pending c ks required held es es' n h p q r)
      ∙ trimmed-shown group pending c ks (required ++ es) (held_with required held es)
      ∙ ap (λ gs. shown group pending c gs (required ++ es) (held_with required held es))
          (kept-kept encode b (cost encode required) (cost encode (required ++ es)) os l)

  costs-last :
      (gs : List (List Entry)) (g : List Entry)
      → costs encode (gs ++ g ∷ []) ≡ costs encode gs + cost encode g
  costs-last gs g = omega (arith, costs-append encode gs (g ∷ []))

  all_of-last :
      (gs : List (List Entry)) (g : List Entry)
      → all_of (gs ++ g ∷ []) ≡ all_of gs ++ group_of encode hist g ∷ []
  all_of-last gs g = map-append (group_of encode hist) gs (g ∷ [])

  -- The closed group is counted and filed with the others.
  pub file_group-optional :
      (group : HistoryGroup) (pending : List String) (c : Counts) (os : List (List Entry))
      (required held g : List Entry)
      → is_mandatory hist g ≡ false
      → file_group
          (as_kept b (group_of encode hist g))
          (shown group pending c (kept encode b (cost encode required) os) required held)
        ≡ shown group pending c (kept encode b (cost encode required) (os ++ g ∷ [])) required held
  unfolding file_group
  file_group-optional group pending c os required held g m =
      let ks = kept encode b (cost encode required) os in
      elim (Bool-cases (fits b (cost encode required + cost encode g))) [
        | inl e ↦
            let own : fits b (cost encode g) ≡ true =
              fits_mono b (cost encode g) (cost encode required + cost encode g) (omega arith) e in
            let pushed = λ (gs : List HistoryGroup) (n : ℕ).
              trimmed (with_optional (shown group pending c ks required held) (gs, n)) in
            let filed : file_group (as_kept b (group_of encode hist g))
                  (shown group pending c ks required held)
                ≡ pushed (all_of ks ++ group_of encode hist g ∷ [])
                    (costs encode ks + cost encode g) =
              rw (m, e, own) refl in
            filed
            ∙ ap (λ gs. pushed gs (costs encode ks + cost encode g)) (sym (all_of-last ks g))
            ∙ ap (λ n. pushed (all_of (ks ++ g ∷ [])) n) (sym (costs-last ks g))
            ∙ trimmed-shown group pending c (ks ++ g ∷ []) required held
            ∙ ap (λ gs. shown group pending c gs required held)
                (kept_more encode b (cost encode required) os g)
        | inr e ↦ rw (m, e, kept_barrier encode b (cost encode required) os g e) refl
      ]

  pub file_group-mandatory :
      (group : HistoryGroup) (pending : List String) (c : Counts) (os : List (List Entry))
      (required held g : List Entry)
      → is_mandatory hist g ≡ true
      → file_group
          (as_kept b (group_of encode hist g))
          (shown group pending c (kept encode b (cost encode required) os) required held)
        ≡ shown group pending
            (record c { mandatory_groups = c.mandatory_groups + 1 })
            (kept encode b (cost encode (required ++ g)) os)
            (required ++ g)
            (held_with required held g)
  unfolding file_group
  file_group-mandatory group pending c os required held g m =
      let c' : Counts = record c { mandatory_groups = c.mandatory_groups + 1 } in
      let es = if fits b (cost encode g) then g else [] in
      rw m (
        require-trimmed group pending c' os required held g es (cost encode g) (history_in hist g)
          refl refl
          (λ e.
            rw (fits_mono b (cost encode g) (cost encode required + cost encode g) (omega arith) e)
              refl))

  HistoryGroup_eq :
      (g g' : HistoryGroup)
      → g.entries ≡ g'.entries
      → g.cost ≡ g'.cost
      → g.count ≡ g'.count
      → g.history_count ≡ g'.history_count
      → g.mandatory ≡ g'.mandatory
      → g ≡ g'
  HistoryGroup_eq g g' p q r s t =
      λ i. record { entries = p i; cost = q i; count = r i; history_count = s i; mandatory = t i }

  -- The open group with one entry more.
  pub grow-as_kept :
      (g : List Entry) (index size : ℕ) (m : Message)
      → size ≡ 1 + size_of encode m
      → grow b (index, m) size (leb hist index) (as_kept b (group_of encode hist g))
        ≡ as_kept b (group_of encode hist (g ++ (index, m) ∷ []))
  unfolding grow
  grow-as_kept g index size m s =
      let a : cost encode (g ++ (index, m) ∷ []) ≡ cost encode g + size =
        omega (arith, cost-append encode g ((index, m) ∷ []), s) in
      let entries : (if fits b (cost encode g + size)
            then (if fits b (cost encode g) then g else []) ++ (index, m) ∷ []
            else [])
          ≡ (if fits b (cost encode g + size) then g ++ (index, m) ∷ [] else []) =
        elim (Bool-cases (fits b (cost encode g + size))) [
          | inl f ↦
              let own : fits b (cost encode g) ≡ true =
                fits_mono b (cost encode g) (cost encode g + size) (omega arith) f in
              rw (f, own) refl
          | inr f ↦ rw f refl
        ] in
      HistoryGroup_eq (grow b (index, m) size (leb hist index) (as_kept b (group_of encode hist g)))
        (as_kept b (group_of encode hist (g ++ (index, m) ∷ [])))
        (entries ∙ ap (λ n. if fits b n then g ++ (index, m) ∷ [] else []) (sym a)) (sym a)
        (omega (arith, length-append g ((index, m) ∷ [])))
        (ground (arith, history_in-append hist g ((index, m) ∷ [])))
        (ground (arith, is_mandatory-append hist g ((index, m) ∷ [])))
