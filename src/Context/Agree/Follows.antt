-- ===== src/Context/Agree/Follows.antt =====
-- `_StreamingSelection.add` of src/agent_runtime/context.py, message by message, along the reference.
use agent_runtime_kit.Canonical.{Message}
use agent_runtime_kit.Context.Agree.Entries.{
  Entry, cost, group_of, is_mandatory, cost-append, size_of,
}
use agent_runtime_kit.Context.Agree.Reference.{Full, close, opened}
use agent_runtime_kit.Context.Agree.Shape.{with_system, with_member, optional_of}
use agent_runtime_kit.Context.Agree.Streamed.{
  counts, streamed, Counts_eq, close_group-streamed, held_closed, weigh_last,
}
use agent_runtime_kit.Context.Stream.{
  Selection, add_encoded, close_group, bit, track, fits, grow, require, trimmed, HistoryGroup,
}
use agent_runtime_kit.Base.{
  Bool, Bool-cases, List, Option, [], ap, arith, if◌then◌else◌, inl, inr, is_empty, leb, length,
  not, refl, true, ℕ, ◌&&◌, ◌++◌, ◌+◌, ◌==◌, ◌||◌, ◌∙◌, ◌∷◌, ◌≡◌, String, append-nil, false,
  length-append, some, sym, ◌-◌, Option-cases, none,
}
use agent_runtime_kit.Context.Exchange.{is_system, is_user, pair_parts}
use agent_runtime_kit.Context.Agree.Shown.{
  Counts, held_with, as_kept, grow-as_kept, require-trimmed, shown,
}
use agent_runtime_kit.Context.Agree.Greedy.{fits_mono, kept}
use agent_runtime_kit.Context.Agree.Sums.{weigh}
use agent_runtime_kit.Errors.{Error}

-- `add_encoded` in its two halves.
abbrev pub opened_stream : Message → Bool → Selection → Selection
opened_stream m boundary s =
    if (is_user m.role || boundary) && is_empty s.pending then close_group s else s

abbrev pub join_stream : Message → Bool → ℕ → ℕ → Selection → Selection
join_stream m current size index s1 =
    let s2 = record s1 {
      total_cost = s1.total_cost + (1 + size);
      current_count = s1.current_count + bit current;
      history_count = s1.history_count + bit (not current);
    } in
    if is_system m.role
    then trimmed (require ((index, m) ∷ []) (1 + size) (bit (not current)) s2)
    else track m (record s2 { group = grow s2.budget (index, m) (1 + size) current s2.group })

pub add_encoded-halves :
    (m : Message) (current : Bool) (size : ℕ) (s : Selection)
    → add_encoded m current size s
      ≡ join_stream m current size
          (s.history_count + s.current_count)
          (opened_stream m (current && (s.current_count == 0)) s)
unfolding add_encoded
add_encoded-halves m current size s = refl

track-some :
    (m : Message) (s : Selection) (pending : List String)
    → pair_parts m.content s.pending ≡ some pending
    → track m s ≡ record s { pending = pending }
unfolding track
track-some m s pending q = elim (Option-cases (pair_parts m.content s.pending)) [
  | inl e ↦ absurd (ground arith)
  | inr (p, e) ↦ let z : p ≡ pending = ground arith in rw (e, track, z) refl
]

track-none :
    (m : Message) (s : Selection)
    → pair_parts m.content s.pending ≡ none
    → (track m s).failure ≡ some Error.context_selection_failed
unfolding track
track-none m s q = rw (q, track) refl

module _ (encode : Message → Option ℕ) (b hist : ℕ) where
  -- The state shows what the reference has; where the required messages fit, it holds them all.
  pub record Follows (f : Full) (s : Selection) : Type 0 where
    pub held : List Entry
    pub state : s ≡ streamed encode b hist f held
    pub complete : fits b (cost encode f.required) ≡ true → held ≡ f.required

  pub held_with_complete :
      (required held es : List Entry)
      → (fits b (cost encode required) ≡ true → held ≡ required)
      → fits b (cost encode (required ++ es)) ≡ true
      → held_with encode b hist required held es ≡ required ++ es
  held_with_complete required held es h e =
      let a = cost-append encode required es in
      let f : fits b (cost encode required + cost encode es) ≡ true = rw a at e in
      let own =
        fits_mono b (cost encode required) (cost encode required + cost encode es) (omega arith)
          f in
      rw (f, h own) refl

  held_closed_complete :
      (f : Full) (held : List Entry)
      → (fits b (cost encode f.required) ≡ true → held ≡ f.required)
      → fits b (cost encode (close hist f).required) ≡ true
      → held_closed encode b hist f held ≡ (close hist f).required
  unfolding close
  held_closed_complete f held h e = elim (Bool-cases (is_empty f.group)) [
    | inl g ↦ rw g (h (rw g at e))
    | inr g ↦ elim (Bool-cases (is_mandatory hist f.group)) [
      | inl m ↦ rw (g, m) (held_with_complete f.required held f.group h (rw (g, m) at e))
      | inr m ↦ rw (g, m, append-nil f.required) (h (rw (g, m, append-nil f.required) at e))
    ]
  ]

  pub close-Follows :
      (f : Full) (s : Selection) → Follows f s → Follows (close hist f) (close_group s)
  unfolding close
  close-Follows f s h = record {
    held = held_closed encode b hist f h.held;
    state = ap close_group h.state ∙ close_group-streamed encode b hist f h.held;
    complete = held_closed_complete f h.held h.complete;
  }

  pub opened-Follows :
      (m : Message) (f : Full) (s : Selection) (boundary : Bool)
      → boundary ≡ (length f.sizes == hist)
      → Follows f s
      → Follows (opened hist m f) (opened_stream m boundary s)
  opened-Follows m f s boundary q h =
      let p : s.pending ≡ f.pending = ap (λ (s : Selection). s.pending) h.state in
      let t : ((is_user m.role || boundary) && is_empty s.pending)
          ≡ ((is_user m.role || (length f.sizes == hist)) && is_empty f.pending) =
        ap (λ (x : Bool). (is_user m.role || x) && is_empty s.pending) q
        ∙ ap (λ (l : List String). (is_user m.role || (length f.sizes == hist)) && is_empty l) p in
      elim (Bool-cases ((is_user m.role || (length f.sizes == hist)) && is_empty f.pending)) [
        | inl e ↦ rw (t ∙ e, e) (close-Follows f s h)
        | inr e ↦ rw (t ∙ e, e) h
      ]

  abbrev next_counts : (f : Full) (size : ℕ) → Counts
  next_counts f size = record (counts encode b hist f) {
    total_cost = (counts encode b hist f).total_cost + (1 + size);
    current_count = (counts encode b hist f).current_count + bit (leb hist (length f.sizes));
    history_count = (counts encode b hist f).history_count + bit (not (leb hist (length f.sizes)));
  }

  next_counts-eq :
      (f : Full) (sizes : List ℕ) (size : ℕ)
      → sizes ≡ f.sizes ++ size ∷ []
      → next_counts f size ≡ record (counts encode b hist f) {
        history_count = length sizes - (length sizes - hist);
        current_count = length sizes - hist;
        total_cost = weigh (λ _. true) 0 sizes;
      }
  next_counts-eq f sizes size q =
      let n : length sizes ≡ length f.sizes + 1 =
        omega (arith, ap (λ (l : List ℕ). length l) q, length-append f.sizes (size ∷ [])) in
      let w : weigh (λ _. true) 0 sizes ≡ weigh (λ _. true) 0 f.sizes + (1 + size) =
        ap (weigh (λ _. true) 0) q ∙ weigh_last 0 f.sizes size in
      Counts_eq (next_counts f size)
        (record (counts encode b hist f) {
          history_count = length sizes - (length sizes - hist);
          current_count = length sizes - hist;
          total_cost = weigh (λ _. true) 0 sizes;
        })
        refl refl (ground (arith, n)) (ground (arith, n)) (sym w)

  pub join_stream-system :
      (m : Message) (size : ℕ) (f : Full) (held : List Entry)
      → size_of encode m ≡ size
      → is_system m.role ≡ true
      → join_stream m
          (leb hist (length f.sizes))
          size
          (length f.sizes)
          (streamed encode b hist f held)
        ≡ streamed encode b hist
            (with_system m size f)
            (held_with encode b hist f.required held ((length f.sizes, m) ∷ []))
  join_stream-system m size f held z e =
      let es : List Entry = (length f.sizes, m) ∷ [] in
      let grown =
        require-trimmed encode b hist (as_kept b (group_of encode hist f.group)) f.pending
          (next_counts f size) (optional_of hist f.closed) f.required held es es (1 + size)
          (bit (not (leb hist (length f.sizes)))) (omega (arith, z)) (ground arith) (λ _. refl) in
      rw e (
        grown
        ∙ ap
            (λ (c : Counts).
              shown encode b hist (as_kept b (group_of encode hist f.group)) f.pending c
                (kept encode b (cost encode (f.required ++ es)) (optional_of hist f.closed))
                (f.required ++ es) (held_with encode b hist f.required held es))
            (next_counts-eq f (f.sizes ++ size ∷ []) size refl))

  pub join_stream-member :
      (m : Message) (size : ℕ) (f : Full) (held : List Entry) (pending : List String)
      → size_of encode m ≡ size
      → is_system m.role ≡ false
      → pair_parts m.content f.pending ≡ some pending
      → join_stream m
          (leb hist (length f.sizes))
          size
          (length f.sizes)
          (streamed encode b hist f held)
        ≡ streamed encode b hist (with_member m size pending f) held
  join_stream-member m size f held pending z e q =
      let grown =
        grow-as_kept encode b hist f.group (length f.sizes) (1 + size) m (omega (arith, z)) in
      let to = λ (c : Counts) (g : HistoryGroup).
        shown encode b hist g pending c
          (kept encode b (cost encode f.required) (optional_of hist f.closed)) f.required held in
      let s2 =
        shown encode b hist
          (grow b (length f.sizes, m) (1 + size) (leb hist (length f.sizes))
            (as_kept b (group_of encode hist f.group)))
          f.pending (next_counts f size)
          (kept encode b (cost encode f.required) (optional_of hist f.closed)) f.required held in
      rw e (
        track-some m s2 pending q
        ∙ ap (to (next_counts f size)) grown
        ∙ ap (λ c. to c (as_kept b (group_of encode hist (f.group ++ (length f.sizes, m) ∷ []))))
            (next_counts-eq f (f.sizes ++ size ∷ []) size refl))

  pub join_stream-refused :
      (m : Message) (size : ℕ) (f : Full) (held : List Entry)
      → is_system m.role ≡ false
      → pair_parts m.content f.pending ≡ none
      → (join_stream m
          (leb hist (length f.sizes))
          size
          (length f.sizes)
          (streamed encode b hist f held)).failure
        ≡ some Error.context_selection_failed
  join_stream-refused m size f held e q =
      let s2 =
        shown encode b hist
          (grow b (length f.sizes, m) (1 + size) (leb hist (length f.sizes))
            (as_kept b (group_of encode hist f.group)))
          f.pending (next_counts f size)
          (kept encode b (cost encode f.required) (optional_of hist f.closed)) f.required held in
      rw e (track-none m s2 q)
