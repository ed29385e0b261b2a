-- ===== src/Context/Agree/Streams.antt =====
-- All messages that are added to `_StreamingSelection` of src/agent_runtime/context.py, along the
-- reference.
use agent_runtime_kit.Canonical.{Message}
use agent_runtime_kit.Context.Agree.Entries.{Entry, cost, size_of}
use agent_runtime_kit.Context.Agree.Reference.{Full, join, opened, reference}
use agent_runtime_kit.Context.Agree.Streamed.{streamed}
use agent_runtime_kit.Context.Agree.Follows.{
  Follows, join_stream, add_encoded-halves, held_with_complete, join_stream-member,
  join_stream-refused, join_stream-system, opened-Follows, opened_stream,
}
use agent_runtime_kit.Context.Agree.Shape.{joins_member, joins_system, join-Joins}
use agent_runtime_kit.Context.Stream.{Selection, add_encoded, fits, add, add_current, add_source}
use agent_runtime_kit.Errors.{Error, err, ok, Result, Result-cases}
use agent_runtime_kit.Base.{
  Bool-cases, List, Option, Option-cases, [], ap, arith, false, inl, inr, leb, length, none, refl,
  some, subst, sym, true, ℕ, ◌&&◌, ◌+◌, ◌==◌, ◌∙◌, ◌∷◌, ◌≡◌, Bool, length-append, le→leb, map, ◌++◌,
  ◌≤◌,
}
use agent_runtime_kit.Context.Exchange.{is_system, pair_parts}
use agent_runtime_kit.Runs.Settle.{complete}
use agent_runtime_kit.Context.Agree.Scanned.{opened-sizes, join-sizes}
use agent_runtime_kit.Context.Agree.Shown.{held_with}

-- A message that the reference refuses.
pub record Refused (m : Message) (f : Full) (x : Error) : Type 0 where
  pub other : is_system m.role ≡ false
  pub unpaired : pair_parts m.content f.pending ≡ none
  pub error : x ≡ Error.context_selection_failed

join-Refused :
    (m : Message) (size : ℕ) (f : Full) (x : Error) → join m size f ≡ err x → Refused m f x
unfolding join
join-Refused m size f x h = elim (Bool-cases (is_system m.role)) [
  | inl e ↦ absurd (ground arith)
  | inr e ↦ elim (Option-cases (pair_parts m.content f.pending)) [
    | inl q ↦ record { other = e; unpaired = q; error = ground arith }
    | inr (p, q) ↦ absurd (ground arith)
  ]
]

module _ (encode : Message → Option ℕ) (b hist : ℕ) where
  -- `add_encoded` on a state that follows the reference.
  abbrev next : Message → ℕ → Full → Selection → Selection
  next m size f s = add_encoded m (leb hist (length f.sizes)) size s

  next-opened :
      (m : Message) (size : ℕ) (f : Full) (s : Selection)
      → Follows encode b hist f s
      → (held : List Entry) × (fits b (cost encode (opened hist m f).required) ≡ true
          → held ≡ (opened hist m f).required)
        × (next m size f s
            ≡ join_stream m
                (leb hist (length (opened hist m f).sizes))
                size
                (length (opened hist m f).sizes)
                (streamed encode b hist (opened hist m f) held))
  next-opened m size f s h =
      let n = length f.sizes in
      let current = leb hist n in
      let index : s.history_count + s.current_count ≡ n = omega (
        arith,
        ap (λ (s : Selection). s.history_count) h.state,
        ap (λ (s : Selection). s.current_count) h.state,
      ) in
      let q : (current && (s.current_count == 0)) ≡ (n == hist) =
        ground (arith, ap (λ (s : Selection). s.current_count) h.state) in
      let g = opened-Follows encode b hist m f s (current && (s.current_count == 0)) q h in
      let z = ap (λ (l : List ℕ). length l) (sym (opened-sizes hist m f)) in
      (
        g.held,
        g.complete,
        add_encoded-halves m current size s
            ∙ ap
                (λ k.
                  join_stream m current size k
                    (opened_stream m (current && (s.current_count == 0)) s))
                index
            ∙ ap (join_stream m current size n) g.state
            ∙ ap
                (λ k.
                  join_stream m (leb hist k) size k
                    (streamed encode b hist (opened hist m f) g.held))
                z,
      )

  size_of-encode : (m : Message) (size : ℕ) → encode m ≡ some size → size_of encode m ≡ size
  size_of-encode m size e = rw (e, size_of) refl

  next-Follows :
      (m : Message) (size : ℕ) (f f' : Full) (s : Selection)
      → Follows encode b hist f s
      → encode m ≡ some size
      → join m size (opened hist m f) ≡ ok f'
      → Follows encode b hist f' (next m size f s)
  next-Follows m size f f' s h e j =
      let (held, complete, q) = next-opened m size f s h in
      let g = opened hist m f in
      let z = size_of-encode m size e in
      elim (join-Joins m size g f' j) [
        | joins_system y r ↦
            subst (λ f'. Follows encode b hist f' (next m size f s)) (sym r)
              (record {
                held = held_with encode b hist g.required held ((length g.sizes, m) ∷ []);
                state = q ∙ join_stream-system encode b hist m size g held z y;
                complete =
                    held_with_complete encode b hist g.required held ((length g.sizes, m) ∷ [])
                      complete;
              })
        | joins_member pending y p r ↦
            subst (λ f'. Follows encode b hist f' (next m size f s)) (sym r)
              (record {
                held = held;
                state = q ∙ join_stream-member encode b hist m size g held pending z y p;
                complete = complete;
              })
      ]

  next-failure :
      (m : Message) (size : ℕ) (f : Full) (s : Selection) (x : Error)
      → Follows encode b hist f s
      → join m size (opened hist m f) ≡ err x
      → (next m size f s).failure ≡ some x
  next-failure m size f s x h j =
      let (held, complete, q) = next-opened m size f s h in
      let g = opened hist m f in
      let r = join-Refused m size g x j in
      ap (λ (s : Selection). s.failure) q
      ∙ join_stream-refused encode b hist m size g held r.other r.unpaired
      ∙ ap some (sym r.error)

  -- The messages from the index `n` on: those from `hist` on are current.
  abbrev pub adds : ℕ → List Message → Selection → Selection
  adds n [] s = s
  adds n (m ∷ ms) s = adds (n + 1) ms (add encode m (leb hist n) s)

  pub adds-append :
      (n : ℕ) (ms rest : List Message) (s : Selection)
      → adds n (ms ++ rest) s ≡ adds (n + length ms) rest (adds n ms s)
  adds-append n [] rest s = ap (λ k. adds k rest s) (omega arith)
  adds-append n (m ∷ ms) rest s =
      let s' = add encode m (leb hist n) s in
      adds-append (n + 1) ms rest s' ∙ ap (λ k. adds k rest (adds (n + 1) ms s')) (omega arith)

  pub add_source-adds :
      (n : ℕ) (ms : List Message) (s : Selection)
      → n + length ms ≤ hist
      → add_source encode (map ok ms) s ≡ ok (adds n ms s)
  unfolding add_source
  add_source-adds n [] s h = refl
  add_source-adds n (m ∷ ms) s h =
      let e : leb hist n ≡ false = ground arith in
      rw e (add_source-adds (n + 1) ms (add encode m false s) (omega arith))

  pub add_current-adds :
      (n : ℕ) (ms : List Message) (s : Selection) → hist ≤ n → add_current encode ms s ≡ adds n ms s
  unfolding add_current
  add_current-adds n [] s h = refl
  add_current-adds n (m ∷ ms) s h =
      rw (le→leb hist n h) (add_current-adds (n + 1) ms (add encode m true s) (omega arith))

  -- `add` by whether it has failed, and by the bytes of the message.
  abbrev add_by : Message → Bool → Selection → Option Error → Option ℕ → Selection
  add_by m current s (some _) size = s
  add_by m current s none none = record s { failure = some Error.value_error }
  add_by m current s none (some size) = add_encoded m current size s

  add-add_by :
      (m : Message) (current : Bool) (s : Selection)
      → add encode m current s ≡ add_by m current s s.failure (encode m)
  unfolding add
  add-add_by m current s = ground arith

  add-failed :
      (m : Message) (current : Bool) (s : Selection) (x : Error)
      → s.failure ≡ some x
      → add encode m current s ≡ s
  add-failed m current s x h = add-add_by m current s ∙ ap (λ f. add_by m current s f (encode m)) h

  adds-failed :
      (n : ℕ) (ms : List Message) (s : Selection) (x : Error)
      → s.failure ≡ some x
      → (adds n ms s).failure ≡ some x
  adds-failed n [] s x h = h
  adds-failed n (m ∷ ms) s x h =
      ap (λ s. (adds (n + 1) ms s).failure) (add-failed m (leb hist n) s x h)
      ∙ adds-failed (n + 1) ms s x h

  -- What adding messages does, by what the reference does with them.
  abbrev Along : ℕ → Selection → Result Full → Type 0
  Along n s (ok f) = Follows encode b hist f s
  Along n s (err x) = s.failure ≡ some x

  add-encoded :
      (m : Message) (size : ℕ) (f : Full) (s : Selection)
      → Follows encode b hist f s
      → encode m ≡ some size
      → add encode m (leb hist (length f.sizes)) s ≡ next m size f s
  add-encoded m size f s h e =
      add-add_by m (leb hist (length f.sizes)) s
      ∙ ap (λ x. add_by m (leb hist (length f.sizes)) s x (encode m))
          (ap (λ (s : Selection). s.failure) h.state)
      ∙ ap (add_by m (leb hist (length f.sizes)) s none) e

  add-unencoded :
      (m : Message) (f : Full) (s : Selection)
      → Follows encode b hist f s
      → encode m ≡ none
      → (add encode m (leb hist (length f.sizes)) s).failure ≡ some Error.value_error
  add-unencoded m f s h e =
      let current = leb hist (length f.sizes) in
      ap (λ (s : Selection). s.failure)
        (add-add_by m current s
          ∙ ap (λ x. add_by m current s x (encode m)) (ap (λ (s : Selection). s.failure) h.state)
          ∙ ap (add_by m current s none) e)

  pub adds-Along :
      (n : ℕ) (ms : List Message) (f : Full) (s : Selection)
      → n ≡ length f.sizes
      → Follows encode b hist f s
      → Along n (adds n ms s) (reference encode hist ms f)
  unfolding reference
  adds-Along n [] f s i h = h
  adds-Along n (m ∷ ms) f s i h = elim (Option-cases (encode m)) [
    | inl e ↦
        let u = add-unencoded m f s h e in
        rw (e, reference)
          (adds-failed (n + 1) ms (add encode m (leb hist n) s) Error.value_error
            (subst (λ k. (add encode m (leb hist k) s).failure ≡ some Error.value_error) (sym i) u))
    | inr (size, e) ↦
        let a : add encode m (leb hist n) s ≡ next m size f s =
          ap (λ k. add encode m (leb hist k) s) i ∙ add-encoded m size f s h e in
        elim (Result-cases (join m size (opened hist m f))) [
          | inl (x, q) ↦
              let u = next-failure m size f s x h q in
              rw (a, e, reference, q) (adds-failed (n + 1) ms (next m size f s) x u)
          | inr (f1, q) ↦
              let z = ap (λ (l : List ℕ). length l) (join-sizes m size (opened hist m f) f1 q) in
              let i' : n + 1 ≡ length f1.sizes = omega (
                arith,
                i,
                z,
                length-append (opened hist m f).sizes (size ∷ []),
                ap (λ (l : List ℕ). length l) (opened-sizes hist m f),
              ) in
              rw (a, e, reference, q)
                (adds-Along (n + 1) ms f1 (next m size f s) i' (next-Follows m size f f1 s h e q))
        ]
  ]
