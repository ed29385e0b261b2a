-- ===== src/Context/Agree/Finished.antt =====
-- `_StreamingSelection.finish` of src/agent_runtime/context.py comes to the outcome.
use agent_runtime_kit.Canonical.{Message}
use agent_runtime_kit.Context.Agree.Entries.{
  Entry, concat, history_in, history_in-append, cost, cost-append, cost-concat, has,
}
use agent_runtime_kit.Context.Agree.Concluded.{
  report, IsWhole, Once-entries, Sound-entries, entries_of, kept_of, outcome, ContextSelection_eq,
  guarded, report_of,
}
use agent_runtime_kit.Context.Stream.{
  Selection, close_group, finish, kept_history, HistoryGroup, array_bytes, sort_entries, fits,
}
use agent_runtime_kit.Base.{
  flat_map, List, Option, [], ap, arith, length, refl, ℕ, ◌++◌, ◌∷◌, ◌≡◌, Bool, String, false,
  is_empty, map, none, not, some, true, ◌+◌, ◌-◌, sym, ◌∙◌,
}
use agent_runtime_kit.Context.Agree.Shown.{all_of}
use agent_runtime_kit.Errors.{Error, Result, err, ok}
use agent_runtime_kit.Context.Exchange.{ContextSelection}
use agent_runtime_kit.Context.Agree.Streamed.{streamed}
use agent_runtime_kit.Context.Agree.Reference.{Full, close}
use agent_runtime_kit.Context.Agree.Follows.{Follows, close-Follows}
use agent_runtime_kit.Context.Agree.Slots.{slots, sort_entries-slots}

close-pending : (hist : ℕ) (f : Full) → (close hist f).pending ≡ f.pending
unfolding close
close-pending hist f = ground arith

module _ (encode : Message → Option ℕ) (b hist : ℕ) where
  entries-all_of :
      (gs : List (List Entry))
      → flat_map (λ (g : HistoryGroup). g.entries) (all_of encode b hist gs) ≡ concat gs
  unfolding flat_map
  entries-all_of [] = refl
  entries-all_of (g ∷ gs) = ap (λ l. g ++ l) (entries-all_of gs)

  kept_history-all_of :
      (gs : List (List Entry))
      → kept_history (all_of encode b hist gs) ≡ history_in hist (concat gs)
  unfolding kept_history
  kept_history-all_of [] = refl
  kept_history-all_of (g ∷ gs) =
      omega (arith, kept_history-all_of gs, history_in-append hist g (concat gs))

  length-all_of : (gs : List (List Entry)) → length (all_of encode b hist gs) ≡ length gs
  length-all_of [] = refl
  length-all_of (g ∷ gs) = omega (arith, length-all_of gs)

  reported :
      (unpaired overflow : Bool) (r r' : ContextSelection)
      → (overflow ≡ false → r ≡ r')
      → guarded unpaired overflow r ≡ guarded unpaired overflow r'
  reported true overflow r r' h = refl
  reported false true r r' h = refl
  reported false false r r' h = ap ok (h refl)

  abbrev finished_report : Selection → ContextSelection
  finished_report closed =
      report closed.history_count closed.current_count
        (map (λ (e : Entry). e.1)
          (sort_entries
            (closed.required ++ flat_map (λ (g : HistoryGroup). g.entries) closed.optional)))
        (array_bytes closed.total_cost) (array_bytes (closed.required_cost + closed.optional_cost))
        (closed.history_count - closed.required_history - kept_history closed.optional)
        (closed.groups - closed.mandatory_groups - length closed.optional)

  -- What `finish` reports of a closed state.
  abbrev finished : List String → Selection → Result ContextSelection
  finished pending closed =
      guarded (not (is_empty pending)) closed.required_overflow (finished_report closed)

  finish-finished :
      (s : Selection) → s.failure ≡ none → finish s ≡ finished s.pending (close_group s)
  unfolding finish
  finish-finished s h =
      ap
        (λ (f : Option Error). elim f [
          | some e ↦ err e
          | none ↦ finished s.pending (close_group s)
        ])
        h

  sorted_entries :
      (ms : List Message) (f : Full) (held : List Entry)
      → IsWhole encode b hist ms f
      → held ≡ f.required
      → map
          (λ (e : Entry). e.1)
          (sort_entries (
            held
            ++ flat_map
                (λ (g : HistoryGroup). g.entries)
                (all_of encode b hist (kept_of encode b hist f))))
        ≡ map (λ (e : Entry). e.1) (slots (λ j. has j (entries_of encode b hist f)) 0 ms)
  sorted_entries ms f held w h =
      let es = entries-all_of (kept_of encode b hist f) in
      ap (map (λ (e : Entry). e.1)) (
        ap
          (λ (l : List Entry). sort_entries (
            l
            ++ flat_map (λ (g : HistoryGroup). g.entries)
                (all_of encode b hist (kept_of encode b hist f))))
          h
        ∙ ap (λ (l : List Entry). sort_entries (f.required ++ l)) es
        ∙ sort_entries-slots encode ms f.sizes (entries_of encode b hist f)
            (Sound-entries encode b hist ms f w) (Once-entries encode b hist ms f w))

  finished_report-report_of :
      (request : ℕ) (ms : List Message) (f : Full) (held : List Entry)
      → IsWhole encode b hist ms f
      → length ms ≡ hist + request
      → held ≡ f.required
      → finished_report (streamed encode b hist f held) ≡ report_of encode b hist request ms f
  finished_report-report_of request ms f held w l h =
      let s = streamed encode b hist f held in
      let ks = kept_of encode b hist f in
      let n : length f.sizes - hist ≡ request = omega (arith, w.all, l) in
      let k : length f.sizes - (length f.sizes - hist) ≡ hist = omega (arith, w.all, l) in
      let a = cost-append encode f.required (concat ks) in
      let d = history_in-append hist f.required (concat ks) in
      ContextSelection_eq (finished_report s) (report_of encode b hist request ms f)
        (sorted_entries ms f held w h) refl
        (ap array_bytes (omega (arith, a, cost-concat encode ks))) k n
        (omega (arith, k, d, kept_history-all_of ks)) (omega (arith, length-all_of ks))

  finished-outcome :
      (request : ℕ) (ms : List Message) (f : Full) (held : List Entry)
      → IsWhole encode b hist ms f
      → length ms ≡ hist + request
      → (fits b (cost encode f.required) ≡ true → held ≡ f.required)
      → finished f.pending (streamed encode b hist f held) ≡ outcome encode b hist request ms f
  finished-outcome request ms f held w l h =
      reported (not (is_empty f.pending)) (not (fits b (cost encode f.required)))
        (finished_report (streamed encode b hist f held)) (report_of encode b hist request ms f)
        (λ o. finished_report-report_of request ms f held w l (h (ground arith)))

  pub finish-outcome :
      (request : ℕ) (ms : List Message) (f : Full) (s : Selection)
      → Follows encode b hist f s
      → IsWhole encode b hist ms (close hist f)
      → length ms ≡ hist + request
      → finish s ≡ outcome encode b hist request ms (close hist f)
  finish-outcome request ms f s h w l =
      let c = close-Follows encode b hist f s h in
      let p : s.pending ≡ f.pending = ap (λ (s : Selection). s.pending) h.state in
      finish-finished s (ap (λ (s : Selection). s.failure) h.state)
      ∙ ap (λ (ps : List String). finished ps (close_group s)) (p ∙ sym (close-pending hist f))
      ∙ ap (finished (close hist f).pending) c.state
      ∙ finished-outcome request ms (close hist f) c.held w l c.complete
