-- ===== src/Context/Agree/Selected.antt =====
-- `ContextWindow.select` of src/agent_runtime/context.py comes to the outcome.
use agent_runtime_kit.Canonical.{Message}
use agent_runtime_kit.Context.Agree.Entries.{
  Entry, has, indices, occ, elem-indices, concat, cost, cost-append, cost-concat, occ-append,
}
use agent_runtime_kit.Context.Agree.Shape.{occ-split, occ-concat-append, optional_of}
use agent_runtime_kit.Context.Agree.Reference.{Full}
use agent_runtime_kit.Context.Agree.Scanned.{groups_of, scanned}
use agent_runtime_kit.Context.Select.{
  Scan, choose, byte_count, count_marked, elem, mark, pick, update_mandatory, Choice,
}
use agent_runtime_kit.Context.Agree.Concluded.{
  report, IsWhole, occ-closed, Once-entries, Once-required, entries_of, kept_of, outcome,
  ContextSelection_eq, guarded, report_of,
}
use agent_runtime_kit.Errors.{Result}
use agent_runtime_kit.Base.{
  Bool, Bool-cases, List, Option, [], arith, false, inl, inr, is_empty, leb, leb→le, length, ltb,
  not, refl, reverse, true, ℕ, ◌++◌, ◌+◌, ◌-◌, ◌<◌, ◌||◌, ◌∙◌, ◌∷◌, ◌≡◌, All, ap, length-append,
  map, reverse-cons, subst, sym,
}
use agent_runtime_kit.Context.Exchange.{ContextSelection}
use agent_runtime_kit.Context.Agree.Marks.{
  mark-marks, marks, occ-optional_of, update_mandatory-has, count_marked-marks, marks-reverse,
  optional_of-reverse,
}
use agent_runtime_kit.Context.Stream.{array_bytes, fits}
use agent_runtime_kit.Context.Agree.Sums.{Once, Sound, byte_count_eq, weigh_agree, weigh-has}
use agent_runtime_kit.Context.Agree.Held.{All-append}
use agent_runtime_kit.Context.Agree.Chosen.{Chose, Once-left, choose-Gains, ltb-fits}
use agent_runtime_kit.Context.Agree.Slots.{length-pick-has, pick-slots, slots_agree}
use agent_runtime_kit.Context.Agree.Greedy.{greedy, greedy-kept, costs-reverse}

abbrev pub marked_report :
    List Message
    → List Message
    → Scan
    → List (List ℕ)
    → List (Bool × List ℕ)
    → Choice
    → ContextSelection
marked_report history current s groups marked choice =
    report (length history) (length current) (pick choice.selected 0 (history ++ current))
      (byte_count (λ _. true) s.sizes) choice.bytes
      (length history - length (pick choice.selected 0 history))
      (length groups - (count_marked marked + choice.chosen))

-- `conclude` with its groups marked.
abbrev pub conclude_marked :
    ℕ
    → List Message
    → List Message
    → (ℕ → Bool)
    → Scan
    → List (List ℕ)
    → List (Bool × List ℕ)
    → Result ContextSelection
conclude_marked b history current first s groups marked =
    let mandatory = update_mandatory marked first in
    let bytes = byte_count mandatory s.sizes in
    let choice =
      choose b s.sizes (reverse marked)
        (record { selected = mandatory; bytes = bytes; chosen = 0 }) in
    guarded (not (is_empty s.pending)) (ltb b bytes)
      (marked_report history current s groups marked choice)

length-groups_of : (gs : List (List Entry)) → length (groups_of gs) ≡ length gs
length-groups_of [] = refl
length-groups_of (g ∷ gs) = omega (arith, length-groups_of gs)

All-reverse {κ} : (P : List Entry → Type κ) (gs : List (List Entry)) → All P gs → All P (reverse gs)
All-reverse P [] a = tt
All-reverse P (g ∷ gs) a =
    rw (reverse-cons g gs) (All-append P (reverse gs) (g ∷ []) (All-reverse P gs a.1) (a.0, tt))

occ-concat-reverse :
    (j : ℕ) (gs : List (List Entry)) → occ j (concat (reverse gs)) ≡ occ j (concat gs)
occ-concat-reverse j [] = refl
occ-concat-reverse j (g ∷ gs) = rw (reverse-cons g gs) (
    omega (
      arith,
      occ-concat-append j (reverse gs) (g ∷ []),
      occ-append j g [],
      occ-append j g (concat gs),
      occ-concat-reverse j gs,
    ))

length-reverse : (gs : List (List Entry)) → length (reverse gs) ≡ length gs
length-reverse [] = refl
length-reverse (g ∷ gs) =
    rw (reverse-cons g gs) (omega (arith, length-append (reverse gs) (g ∷ []), length-reverse gs))

module _ (encode : Message → Option ℕ) (b : ℕ) (history current : List Message) where
  abbrev pub first_of : Full → ℕ → Bool
  first_of f j = elem j (indices f.systems) || leb (length history) j

  pub marks_whole :
      (f : Full)
      → IsWhole encode b (length history) (history ++ current) f
      → mark (first_of f) (groups_of f.closed) ≡ marks (length history) f.closed
  marks_whole f w = mark-marks (length history) (first_of f) f.closed (λ j l.
      let o = occ-closed encode b (length history) (history ++ current) f j w in
      let z : occ j f.systems ≡ 0 = ground arith in
      let e : elem j (indices f.systems) ≡ false = elem-indices j f.systems ∙ (rw z refl) in
      rw e refl)

  mandatory_whole :
      (f : Full) (j : ℕ)
      → IsWhole encode b (length history) (history ++ current) f
      → j < length f.sizes
      → update_mandatory (marks (length history) f.closed) (first_of f) j ≡ has j f.required
  mandatory_whole f j w l =
      let o = occ-closed encode b (length history) (history ++ current) f j w in
      let r = w.placed.required j in
      let u = update_mandatory-has (length history) f.closed (first_of f) j in
      let e = elem-indices j f.systems in
      let p = occ-split (length history) j f.closed in
      elim (Bool-cases (leb (length history) j)) [
        | inl h ↦
            let z = occ-optional_of (length history) j f.closed (leb→le (length history) j h) in
            let q : has j f.required ≡ true = ground arith in u ∙ ground arith
        | inr h ↦ u ∙ ground arith
      ]

  chosen_whole :
      (f : Full) (c : Choice)
      → IsWhole encode b (length history) (history ++ current) f
      → Chose encode (length f.sizes) f.required 0 c
      → Chose encode
          (length f.sizes)
          (entries_of encode b (length history) f)
          (length (kept_of encode b (length history) f))
          (choose b f.sizes (marks (length history) (reverse f.closed)) c)
  chosen_whole f c w h =
      let hist = length history in
      let ms = history ++ current in
      let opt = optional_of-reverse hist f.closed in
      let o : Once (f.required ++ concat (optional_of hist (reverse f.closed))) = λ j. rw opt (
        let a = Once-required encode b hist ms f w j in
        omega (
          arith,
          a,
          occ-append j f.required (concat (optional_of hist f.closed)),
          occ-append j f.required (concat (reverse (optional_of hist f.closed))),
          occ-concat-reverse j (optional_of hist f.closed),
        )) in
      let g =
        choose-Gains encode ms f.sizes b hist (reverse f.closed) f.required 0 c h w.held.required
          (All-reverse (Sound encode ms f.sizes) f.closed w.held.closed)
          (All-reverse (λ g. 0 < length g) f.closed w.held.nonempty) o in
      let same =
        ap (greedy encode b (cost encode f.required)) opt
        ∙ greedy-kept encode b (cost encode f.required) (optional_of hist f.closed) in
      let g' =
        subst
          (λ taken.
            Chose encode (length f.sizes) (f.required ++ concat taken) (0 + length taken)
              (choose b f.sizes (marks hist (reverse f.closed)) c))
          same g in
      let k = kept_of encode b hist f in
      record {
        selected = λ j l.
            g'.selected j l
            ∙ (ap (ltb 0) (
                omega (
                  arith,
                  occ-append j f.required (concat k),
                  occ-append j f.required (concat (reverse k)),
                  occ-concat-reverse j k,
                )));
        bytes =
            g'.bytes
            ∙ ap array_bytes (
                omega (
                  arith,
                  cost-append encode f.required (concat k),
                  cost-append encode f.required (concat (reverse k)),
                  cost-concat encode k,
                  cost-concat encode (reverse k),
                  costs-reverse encode k,
                ));
        chosen = omega (arith, g'.chosen, length-reverse k);
      }

  abbrev mandatory_choice : Full → Choice
  mandatory_choice f =
      let mandatory = update_mandatory (marks (length history) f.closed) (first_of f) in
      record { selected = mandatory; bytes = byte_count mandatory f.sizes; chosen = 0 }

  mandatory_choice-Chose :
      (f : Full)
      → IsWhole encode b (length history) (history ++ current) f
      → Chose encode (length f.sizes) f.required 0 (mandatory_choice f)
  mandatory_choice-Chose f w =
      let hist = length history in
      let ms = history ++ current in
      let mandatory = (mandatory_choice f).selected in
      let once =
        Once-left f.required (concat (optional_of hist f.closed))
          (Once-required encode b hist ms f w) in
      record {
        selected = λ j l. mandatory_whole f j w l;
        bytes =
            byte_count_eq mandatory f.sizes
            ∙ ap array_bytes (
                weigh_agree mandatory (λ j. has j f.required) 0 f.sizes
                  (λ j l m. mandatory_whole f j w (omega arith))
                ∙ weigh-has encode ms f.sizes f.required w.held.required once);
        chosen = refl;
      }

  marked_report-report_of :
      (f : Full) (choice : Choice)
      → IsWhole encode b (length history) (history ++ current) f
      → Chose encode
          (length f.sizes)
          (entries_of encode b (length history) f)
          (length (kept_of encode b (length history) f))
          choice
      → marked_report history current
          (scanned f)
          (groups_of f.closed)
          (marks (length history) f.closed)
          choice
        ≡ report_of encode b (length history) (length current) (history ++ current) f
  marked_report-report_of f choice w t =
      let hist = length history in
      let ms = history ++ current in
      let es = entries_of encode b hist f in
      let picked =
        pick-slots choice.selected 0 ms
        ∙ ap (map (λ (e : Entry). e.1)) (
            slots_agree choice.selected (λ j. has j es) 0 ms
              (λ j l m. t.selected j (omega (arith, w.all)))) in
      let of_history =
        ap (λ (l : List Message). length l)
          (pick-slots choice.selected 0 history
            ∙ ap (map (λ (e : Entry). e.1)) (
                slots_agree choice.selected (λ j. has j es) 0 history
                  (λ j l m. t.selected j (omega (arith, w.all, length-append history current))))
            ∙ sym (pick-slots (λ j. has j es) 0 history))
        ∙ length-pick-has es history (Once-entries encode b hist ms f w) in
      ContextSelection_eq
        (marked_report history current (scanned f) (groups_of f.closed) (marks hist f.closed)
          choice)
        (report_of encode b hist (length current) ms f) picked (byte_count_eq (λ _. true) f.sizes)
        t.bytes refl refl (ap (λ n. hist - n) of_history)
        (omega (arith, length-groups_of f.closed, count_marked-marks hist f.closed, t.chosen))

  -- `select` behind its scan.
  pub conclude_marked-outcome :
      (f : Full)
      → IsWhole encode b (length history) (history ++ current) f
      → conclude_marked b history current
          (first_of f)
          (scanned f)
          (groups_of f.closed)
          (marks (length history) f.closed)
        ≡ outcome encode b (length history) (length current) (history ++ current) f
  conclude_marked-outcome f w =
      let hist = length history in
      let h = mandatory_choice-Chose f w in
      let choice = choose b f.sizes (reverse (marks hist f.closed)) (mandatory_choice f) in
      let t =
        subst
          (λ l.
            Chose encode (length f.sizes) (entries_of encode b hist f)
              (length (kept_of encode b hist f)) (choose b f.sizes l (mandatory_choice f)))
          (sym (marks-reverse hist f.closed)) (chosen_whole f (mandatory_choice f) w h) in
      let unpaired = not (is_empty f.pending) in
      let report =
        marked_report history current (scanned f) (groups_of f.closed) (marks hist f.closed)
          choice in
      ap (λ (g : Bool). guarded unpaired g report)
        (ap (ltb b) h.bytes ∙ ltb-fits b (cost encode f.required))
      ∙ ap (guarded unpaired (not (fits b (cost encode f.required))))
          (marked_report-report_of f choice w t)
