-- ===== src/Context/Agree/Equal.antt =====
-- `ContextWindow.select_stream` against `ContextWindow.select` of src/agent_runtime/context.py.
use agent_runtime_kit.Canonical.{Message}
use agent_runtime_kit.Context.Agree.Reference.{close, reference, empty_full}
use agent_runtime_kit.Context.Agree.Follows.{Follows}
use agent_runtime_kit.Context.Stream.{Selection, finish, new, select_stream, add_current, fits}
use agent_runtime_kit.Context.Select.{select}
use agent_runtime_kit.Errors.{Error, Result-cases, err, ok, ◌>>=◌}
use agent_runtime_kit.Base.{
  List, Option, [], ap, arith, inl, inr, length, length-append, map, refl, some, sym, true, ℕ, ◌++◌,
  ◌+◌, ◌∙◌, ◌≡◌, ◌≤◌, ◌-◌,
}
use agent_runtime_kit.Context.Agree.Finished.{finish-outcome}
use agent_runtime_kit.Context.Agree.Concluded.{outcome}
use agent_runtime_kit.Context.Agree.Selects.{reference-IsWhole, select-reference}
use agent_runtime_kit.Context.Agree.Streams.{
  add_current-adds, add_source-adds, adds, adds-Along, adds-append,
}
use agent_runtime_kit.Context.Agree.Greedy.{kept}

module _ (encode : Message → Option ℕ) (b : ℕ) (history current : List Message) where
  new-Follows : 2 ≤ b → Follows encode b (length history) empty_full (new b)
  unfolding kept
  new-Follows h =
      let e : fits b 0 ≡ true = ground arith in
      let z : 0 - length history ≡ 0 = omega arith in
      record { held = []; state = rw (e, z) refl; complete = λ _. refl }

  select_stream-adds :
      select_stream encode b (map ok history) current
      ≡ finish (adds encode b (length history) 0 (history ++ current) (new b))
  unfolding select_stream
  select_stream-adds =
      let hist = length history in
      let s1 = adds encode b hist 0 history (new b) in
      ap (λ r. r >>= λ s. finish (add_current encode current s))
        (add_source-adds encode b hist 0 history (new b) (omega arith))
      ∙ ap finish (
          add_current-adds encode b hist (0 + hist) current s1 (omega arith)
          ∙ sym (adds-append encode b hist 0 history current (new b)))

  finish-failed : (s : Selection) (x : Error) → s.failure ≡ some x → finish s ≡ err x
  unfolding finish
  finish-failed s x h = rw (h, finish) refl

  select_stream-reference :
      2 ≤ b
      → select_stream encode b (map ok history) current ≡ (
          reference encode (length history) (history ++ current) empty_full >>= λ f.
          outcome encode b
            (length history)
            (length current)
            (history ++ current)
            (close (length history) f))
  select_stream-reference h =
      let hist = length history in
      let ms = history ++ current in
      let along = adds-Along encode b hist 0 ms empty_full (new b) refl (new-Follows h) in
      elim (Result-cases (reference encode hist ms empty_full)) [
        | inl (x, q) ↦
            let a = rw q at along in
            select_stream-adds ∙ rw q (finish-failed (adds encode b hist 0 ms (new b)) x a)
        | inr (f, q) ↦
            let a = rw q at along in
            select_stream-adds
            ∙ rw q (
                finish-outcome encode b hist (length current) ms f (adds encode b hist 0 ms (new b))
                  a (reference-IsWhole encode hist b ms f q) (length-append history current))
      ]

-- Under a budget of two bytes or more, the streaming selection over a history that is read without
-- an error gives what the selection of the complete history gives: the same messages and numbers,
-- or the same error.
pub select_stream-select :
    (encode : Message → Option ℕ) (max_bytes : ℕ) (history current : List Message)
    → 2 ≤ max_bytes
    → select_stream encode max_bytes (map ok history) current
      ≡ select max_bytes history current encode
select_stream-select encode max_bytes history current h =
    select_stream-reference encode max_bytes history current h
    ∙ sym (select-reference encode max_bytes history current)
