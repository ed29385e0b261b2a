-- ===== src/Context/Stream.antt =====
-- `_HistoryGroup`, `_StreamingSelection` and `ContextWindow.select_stream` of
-- src/agent_runtime/context.py. The JSON encoder is a parameter: the bytes of a message, or none where
-- it raises a ValueError or a TypeError.
use agent_runtime_kit.Canonical.{Message}
use agent_runtime_kit.Errors.{Error, Result, err, ok, raise_if, ◌>>=◌, ◌>>◌}
use agent_runtime_kit.Base.{
  Bool, List, Option, String, [], false, flat_map, if◌then◌else◌, is_empty, leb, length, ltb, map,
  none, not, some, true, ℕ, ◌&&◌, ◌++◌, ◌+◌, ◌-◌, ◌==◌, ◌||◌, ◌∷◌,
}
use agent_runtime_kit.Context.Exchange.{ContextSelection, is_system, is_user, pair_parts}

pub record HistoryGroup : Type 0 where
  pub entries : List (ℕ × Message)
  pub cost : ℕ
  pub count : ℕ
  pub history_count : ℕ
  pub mandatory : Bool

abbrev pub empty_group : HistoryGroup
empty_group = record { entries = []; cost = 0; count = 0; history_count = 0; mandatory = false }

pub record Selection : Type 0 where
  pub budget : ℕ
  pub group : HistoryGroup
  pub optional : List HistoryGroup
  pub optional_cost : ℕ
  pub required : List (ℕ × Message)
  pub required_cost : ℕ
  pub required_history : ℕ
  pub required_overflow : Bool
  pub mandatory_groups : ℕ
  pub groups : ℕ
  pub pending : List String
  pub history_count : ℕ
  pub current_count : ℕ
  pub total_cost : ℕ
  pub failure : Option Error

-- `__init__`
abbrev pub new : ℕ → Selection
new budget = record {
  budget = budget;
  group = empty_group;
  optional = [];
  optional_cost = 0;
  required = [];
  required_cost = 0;
  required_history = 0;
  required_overflow = false;
  mandatory_groups = 0;
  groups = 0;
  pending = [];
  history_count = 0;
  current_count = 0;
  total_cost = 0;
  failure = none;
}

-- the bytes of a JSON array whose elements, each with its comma, take `cost`
abbrev pub array_bytes : ℕ → ℕ
array_bytes cost = if ltb 0 cost then cost + 1 else 2

abbrev pub fits : ℕ → ℕ → Bool
fits budget cost = leb (array_bytes cost) budget

-- The loop of `_trim` over `optional` and `optional_cost`.
unfoldable pub trim : ℕ → ℕ → List HistoryGroup → ℕ → List HistoryGroup × ℕ
trim budget required [] cost = ([], cost)
trim budget required (g ∷ gs) cost =
    let rest = trim budget required gs (cost - g.cost) in
    if fits budget (required + cost) then (g ∷ gs, cost) else rest

abbrev pub with_optional : Selection → List HistoryGroup × ℕ → Selection
with_optional s (optional, cost) = record s { optional = optional; optional_cost = cost }

-- `_trim`
unfoldable pub trimmed : Selection → Selection
trimmed s = with_optional s (trim s.budget s.required_cost s.optional s.optional_cost)

-- `required_cost += cost; required_history += n`, and the entries or the overflow
unfoldable pub require : List (ℕ × Message) → ℕ → ℕ → Selection → Selection
require entries cost history s =
    let total = s.required_cost + cost in
    if fits s.budget total
    then record s {
      required_cost = total;
      required_history = s.required_history + history;
      required = s.required ++ entries;
    }
    else record s {
      required_cost = total;
      required_history = s.required_history + history;
      required_overflow = true;
    }

-- `_close_group` behind its test of `count`; `s` has the group taken out and counted.
unfoldable pub file_group : HistoryGroup → Selection → Selection
file_group g s =
    if g.mandatory
    then trimmed (
        require g.entries g.cost g.history_count
          (record s { mandatory_groups = s.mandatory_groups + 1 }))
    else if fits s.budget (s.required_cost + g.cost)
    then trimmed
        (record s { optional = s.optional ++ g ∷ []; optional_cost = s.optional_cost + g.cost })
    else record s { optional = []; optional_cost = 0 }

unfoldable pub close_group : Selection → Selection
close_group s =
    if s.group.count == 0
    then s
    else file_group s.group (record s { groups = s.groups + 1; group = empty_group })

abbrev pub bit : Bool → ℕ
bit b = if b then 1 else 0

-- The group with one more message, whose payload is dropped once the group cannot fit.
unfoldable pub grow : ℕ → (ℕ × Message) → ℕ → Bool → HistoryGroup → HistoryGroup
grow budget entry cost current g =
    let total = g.cost + cost in
    record {
      entries = if fits budget total then g.entries ++ entry ∷ [] else [];
      cost = total;
      count = g.count + 1;
      history_count = g.history_count + bit (not current);
      mandatory = g.mandatory || current;
    }

-- The loop over the parts. Where it fails, `pending` is left as it was; it is not read again then.
unfoldable pub track : Message → Selection → Selection
track message s = elim (pair_parts message.content s.pending) [
  | none ↦ record s { failure = some Error.context_selection_failed }
  | some pending ↦ record s { pending = pending }
]

-- `add` behind the encoding
unfoldable pub add_encoded : Message → Bool → ℕ → Selection → Selection
add_encoded message current size s =
    let cost = 1 + size in
    let index = s.history_count + s.current_count in
    let boundary = current && (s.current_count == 0) in
    let s1 =
      if (is_user message.role || boundary) && is_empty s.pending then close_group s else s in
    let s2 = record s1 {
      total_cost = s1.total_cost + cost;
      current_count = s1.current_count + bit current;
      history_count = s1.history_count + bit (not current);
    } in
    if is_system message.role
    then trimmed (require ((index, message) ∷ []) cost (bit (not current)) s2)
    else track message (record s2 { group = grow s2.budget (index, message) cost current s2.group })

-- `entries.sort(key=lambda entry: entry[0])`
unfoldable pub insert_entry : ℕ × Message → List (ℕ × Message) → List (ℕ × Message)
insert_entry e [] = e ∷ []
insert_entry e (x ∷ xs) = if leb e.0 x.0 then e ∷ x ∷ xs else x ∷ insert_entry e xs

unfoldable pub sort_entries : List (ℕ × Message) → List (ℕ × Message)
sort_entries [] = []
sort_entries (e ∷ es) = insert_entry e (sort_entries es)

unfoldable pub kept_history : List HistoryGroup → ℕ
kept_history [] = 0
kept_history (g ∷ gs) = g.history_count + kept_history gs

unfoldable pub finish : Selection → Result ContextSelection
finish s = elim s.failure [
  | some e ↦ err e
  | none ↦
      let closed = close_group s in
      let kept = flat_map (λ g. g.entries) closed.optional in
      let cost = closed.required_cost + closed.optional_cost in
      raise_if (not (is_empty s.pending)) Error.context_selection_failed
      >> raise_if closed.required_overflow Error.context_budget_exceeded
      >> ok (record {
        messages = map (λ e. e.1) (sort_entries (closed.required ++ kept));
        input_bytes = array_bytes closed.total_cost;
        selected_bytes = array_bytes cost;
        history_messages = closed.history_count;
        request_messages = closed.current_count;
        omitted_history_messages =
            closed.history_count - closed.required_history - kept_history closed.optional;
        omitted_history_groups = closed.groups - closed.mandatory_groups - length closed.optional;
      })
]

module _ (encode : Message → Option ℕ) where
  unfoldable pub add : Message → Bool → Selection → Selection
  add message current s = elim s.failure [
    | some _ ↦ s
    | none ↦ elim (encode message) [
      | none ↦ record s { failure = some Error.value_error }
      | some size ↦ add_encoded message current size s
    ]
  ]

  -- `async for message in source`: the store yields messages until it ends or raises.
  unfoldable pub add_source : List (Result Message) → Selection → Result Selection
  add_source [] s = ok s
  add_source (ok m ∷ ms) s = add_source ms (add m false s)
  add_source (err e ∷ ms) s = err e

  unfoldable pub add_current : List Message → Selection → Selection
  add_current [] s = s
  add_current (m ∷ ms) s = add_current ms (add m true s)

  unfoldable pub select_stream : ℕ → List (Result Message) → List Message → Result ContextSelection
  select_stream max_bytes source current =
      add_source source (new max_bytes) >>= λ s. finish (add_current current s)
