-- ===== src/Context/Agree/Concluded.antt =====
-- What both selections of src/agent_runtime/context.py come to once all messages are scanned, and that
-- `ContextWindow.select` comes to it.
use agent_runtime_kit.Canonical.{Message}
use agent_runtime_kit.Context.Agree.Entries.{
  Entry, concat, cost, has, occ, costs, history_in, occ-append,
}
use agent_runtime_kit.Context.Agree.Shape.{mandatory_of, optional_of, IsPlaced, occ-split}
use agent_runtime_kit.Context.Agree.Held.{IsHeld, All-append, All-optional, Sound-concat}
use agent_runtime_kit.Context.Agree.Reference.{Full}
use agent_runtime_kit.Context.Agree.Greedy.{kept}
use agent_runtime_kit.Errors.{Error, Result, ok, raise_if, ◌>>◌}
use agent_runtime_kit.Base.{
  All, Bool-cases, List, Option, [], ap, arith, if◌then◌else◌, inl, inr, is_empty, length, ltb, map,
  not, true, ℕ, ◌++◌, ◌+◌, ◌-◌, ◌∷◌, ◌≡◌, ◌≤◌, Bool,
}
use agent_runtime_kit.Context.Exchange.{ContextSelection}
use agent_runtime_kit.Context.Stream.{array_bytes, fits}
use agent_runtime_kit.Context.Agree.Sums.{IsEntry, Once, Sound, weigh}
use agent_runtime_kit.Context.Agree.Slots.{slots}

abbrev pub report : ℕ → ℕ → List Message → ℕ → ℕ → ℕ → ℕ → ContextSelection
report hist request messages total bytes omitted groups = record {
  messages = messages;
  input_bytes = total;
  selected_bytes = bytes;
  history_messages = hist;
  request_messages = request;
  omitted_history_messages = omitted;
  omitted_history_groups = groups;
}

pub ContextSelection_eq :
    (r r' : ContextSelection)
    → r.messages ≡ r'.messages
    → r.input_bytes ≡ r'.input_bytes
    → r.selected_bytes ≡ r'.selected_bytes
    → r.history_messages ≡ r'.history_messages
    → r.request_messages ≡ r'.request_messages
    → r.omitted_history_messages ≡ r'.omitted_history_messages
    → r.omitted_history_groups ≡ r'.omitted_history_groups
    → r ≡ r'
ContextSelection_eq r r' a b c d e f g = λ i. record {
  messages = a i;
  input_bytes = b i;
  selected_bytes = c i;
  history_messages = d i;
  request_messages = e i;
  omitted_history_messages = f i;
  omitted_history_groups = g i;
}

-- A report behind the two checks of a selection: calls that are not paired, and the budget.
abbrev pub guarded : Bool → Bool → ContextSelection → Result ContextSelection
guarded unpaired overflow r =
    raise_if unpaired Error.context_selection_failed
    >> raise_if overflow Error.context_budget_exceeded
    >> ok r

module _ (encode : Message → Option ℕ) (b hist : ℕ) where
  -- The optional groups that stay.
  abbrev pub kept_of : Full → List (List Entry)
  kept_of f = kept encode b (cost encode f.required) (optional_of hist f.closed)

  abbrev pub entries_of : Full → List Entry
  entries_of f = f.required ++ concat (kept_of f)

  abbrev pub report_of : ℕ → List Message → Full → ContextSelection
  report_of request ms f =
      report hist request (map (λ (e : Entry). e.1) (slots (λ j. has j (entries_of f)) 0 ms))
        (array_bytes (weigh (λ _. true) 0 f.sizes)) (array_bytes (cost encode (entries_of f)))
        (hist - history_in hist (entries_of f))
        (length f.closed - (length (mandatory_of hist f.closed) + length (kept_of f)))

  -- The result, where the last group is closed.
  abbrev pub outcome : ℕ → List Message → Full → Result ContextSelection
  outcome request ms f =
      guarded (not (is_empty f.pending)) (not (fits b (cost encode f.required)))
        (report_of request ms f)

  occ-kept :
      (used j : ℕ) (gs : List (List Entry))
      → occ j (concat (kept encode b used gs)) ≤ occ j (concat gs)
  unfolding kept
  occ-kept used j [] = omega arith
  occ-kept used j (g ∷ gs) = elim (Bool-cases (fits b (used + costs encode (g ∷ gs)))) [
    | inl e ↦ rw e (omega arith)
    | inr e ↦ rw e (omega (arith, occ-kept used j gs, occ-append j g (concat gs)))
  ]

  All-kept {κ} :
      (P : List Entry → Type κ) (used : ℕ) (gs : List (List Entry))
      → All P gs
      → All P (kept encode b used gs)
  unfolding kept
  All-kept P used [] a = tt
  All-kept P used (g ∷ gs) a = elim (Bool-cases (fits b (used + costs encode (g ∷ gs)))) [
    | inl e ↦ rw e a
    | inr e ↦ rw e (All-kept P used gs a.1)
  ]

  -- A whole scan whose last group is closed.
  pub record IsWhole (ms : List Message) (f : Full) : Type 0 where
    pub placed : IsPlaced hist f
    pub held : IsHeld encode ms f
    pub all : length f.sizes ≡ length ms
    pub empty : f.group ≡ []

  pub occ-closed :
      (ms : List Message) (f : Full) (j : ℕ)
      → IsWhole ms f
      → occ j f.systems + occ j (concat f.closed) ≡ (if ltb j (length f.sizes) then 1 else 0)
  occ-closed ms f j w = let p = w.placed.placed j in omega (arith, p, ap (λ es. occ j es) w.empty)

  pub Once-required :
      (ms : List Message) (f : Full)
      → IsWhole ms f
      → Once (f.required ++ concat (optional_of hist f.closed))
  Once-required ms f w j =
      let r = w.placed.required j in
      ground (
        arith,
        r,
        occ-closed ms f j w,
        occ-split hist j f.closed,
        occ-append j f.required (concat (optional_of hist f.closed)),
      )

  pub Once-entries : (ms : List Message) (f : Full) → IsWhole ms f → Once (entries_of f)
  Once-entries ms f w j =
      let o = Once-required ms f w j in
      omega (
        arith,
        o,
        occ-append j f.required (concat (optional_of hist f.closed)),
        occ-append j f.required (concat (kept_of f)),
        occ-kept (cost encode f.required) j (optional_of hist f.closed),
      )

  pub Sound-entries :
      (ms : List Message) (f : Full) → IsWhole ms f → Sound encode ms f.sizes (entries_of f)
  Sound-entries ms f w =
      All-append (IsEntry encode ms f.sizes) f.required (concat (kept_of f)) w.held.required (
        Sound-concat encode ms f.sizes (kept_of f) (
          All-kept (Sound encode ms f.sizes) (cost encode f.required) (optional_of hist f.closed)
            (All-optional (Sound encode ms f.sizes) hist f.closed w.held.closed)))
