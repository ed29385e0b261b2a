-- ===== src/Context/Select.antt =====
-- `ContextWindow.select` of src/agent_runtime/context.py. A set of message indices is its test. The
-- JSON encoder is a parameter: the bytes of a message, or none where it raises.
use agent_runtime_kit.Canonical.{Message}
use agent_runtime_kit.Errors.{Error, Result, err, ok, raise_if, ◌>>=◌, ◌>>◌}
use agent_runtime_kit.Base.{
  Bool, List, Option, String, [], false, if◌then◌else◌, is_empty, leb, length, ltb, none, not,
  reverse, some, suc, true, zero, ℕ, ◌&&◌, ◌++◌, ◌+◌, ◌-◌, ◌==◌, ◌||◌, ◌∷◌,
}
use agent_runtime_kit.Context.Exchange.{ContextSelection, is_system, is_user, pair_parts}

pub record Scan : Type 0 where
  pub groups : List (List ℕ)
  pub group : List ℕ
  pub pending : List String
  pub protected : List ℕ
  pub sizes : List ℕ

abbrev pub start : Scan
start = record { groups = []; group = []; pending = []; protected = []; sizes = [] }

-- `if ... and group: groups.append(group); group = []`
abbrev pub close_group : Scan → Scan
close_group s =
    if is_empty s.group then s else record s { groups = s.groups ++ s.group ∷ []; group = [] }

abbrev pub join_group : ℕ → Message → Scan → Result Scan
join_group index message s = elim (pair_parts message.content s.pending) [
  | none ↦ err Error.context_selection_failed
  | some pending ↦ ok (record s { group = s.group ++ index ∷ []; pending = pending })
]

-- The loop's body behind the encoding: `boundary` is `index == len(history)`.
unfoldable pub scan_message : ℕ → Bool → Message → ℕ → Scan → Result Scan
scan_message index boundary message size s =
    let s1 = record s { sizes = s.sizes ++ size ∷ [] } in
    let s2 =
      if (is_user message.role || boundary) && is_empty s1.pending then close_group s1 else s1 in
    if is_system message.role
    then ok (record s2 { protected = s2.protected ++ index ∷ [] })
    else join_group index message s2

module _ (encode : Message → Option ℕ) where
  unfoldable pub scan : ℕ → ℕ → List Message → Scan → Result Scan
  scan history index [] s = ok s
  scan history index (m ∷ ms) s = elim (encode m) [
    | none ↦ err Error.value_error
    | some size ↦ scan_message index (index == history) m size s >>= scan history (index + 1) ms
  ]

unfoldable pub elem : ℕ → List ℕ → Bool
elem i [] = false
elem i (x ∷ xs) = x == i || elem i xs

-- `selected.intersection(group)`, as a truth value
unfoldable pub touches : (ℕ → Bool) → List ℕ → Bool
touches selected [] = false
touches selected (x ∷ xs) = selected x || touches selected xs

-- `selected.update(group)`
abbrev pub update : (ℕ → Bool) → List ℕ → ℕ → Bool
update selected group i = selected i || elem i group

-- The groups, each with whether its index is in `mandatory`.
unfoldable pub mark : (ℕ → Bool) → List (List ℕ) → List (Bool × List ℕ)
mark selected [] = []
mark selected (g ∷ gs) = (touches selected g, g) ∷ mark selected gs

unfoldable pub update_mandatory : List (Bool × List ℕ) → (ℕ → Bool) → ℕ → Bool
update_mandatory [] selected = selected
update_mandatory ((m, g) ∷ gs) selected =
    update_mandatory gs (if m then update selected g else selected)

-- the sum of the sizes, and the number, of the selected indices from `i` on
unfoldable pub sum_selected : (ℕ → Bool) → ℕ → List ℕ → ℕ
sum_selected selected i [] = 0
sum_selected selected i (size ∷ sizes) =
    (if selected i then size else 0) + sum_selected selected (i + 1) sizes

unfoldable pub count_selected : (ℕ → Bool) → ℕ → List ℕ → ℕ
count_selected selected i [] = 0
count_selected selected i (size ∷ sizes) =
    (if selected i then 1 else 0) + count_selected selected (i + 1) sizes

-- `byte_count`
unfoldable pub byte_count : (ℕ → Bool) → List ℕ → ℕ
byte_count selected sizes =
    2 + sum_selected selected 0 sizes + (count_selected selected 0 sizes - 1)

unfoldable pub size_at : List ℕ → ℕ → ℕ
size_at [] i = 0
size_at (size ∷ sizes) zero = size
size_at (size ∷ sizes) (suc i) = size_at sizes i

unfoldable pub group_bytes : List ℕ → List ℕ → ℕ
group_bytes sizes [] = 0
group_bytes sizes (i ∷ is) = size_at sizes i + group_bytes sizes is

-- What the loop over the groups, newest first, changes: `selected`, `selected_bytes` and the number of
-- groups that it has added to `chosen`.
pub record Choice : Type 0 where
  pub selected : ℕ → Bool
  pub bytes : ℕ
  pub chosen : ℕ

unfoldable pub choose : ℕ → List ℕ → List (Bool × List ℕ) → Choice → Choice
choose max_bytes sizes [] c = c
choose max_bytes sizes ((true, g) ∷ gs) c = choose max_bytes sizes gs c
choose max_bytes sizes ((false, g) ∷ gs) c =
    let candidate =
      c.bytes
      + group_bytes sizes g
      + length g
      - (if ltb 0 (count_selected c.selected 0 sizes) then 0 else 1) in
    let rest =
      choose max_bytes sizes gs
        (record { selected = update c.selected g; bytes = candidate; chosen = c.chosen + 1 }) in
    if ltb max_bytes candidate then c else rest

-- `messages[index]` for the selected indices in ascending order
unfoldable pub pick {ℓ} : {A : Type ℓ} → (ℕ → Bool) → ℕ → List A → List A
pick selected i [] = []
pick selected i (m ∷ ms) =
    let rest = pick selected (i + 1) ms in if selected i then m ∷ rest else rest

unfoldable pub count_marked : List (Bool × List ℕ) → ℕ
count_marked [] = 0
count_marked ((m, g) ∷ gs) = (if m then 1 else 0) + count_marked gs

module _ (max_bytes : ℕ) (history current : List Message) where
  -- Everything behind the scan.
  unfoldable pub conclude : Scan → Result ContextSelection
  conclude s =
      let groups = (close_group s).groups in
      let first = λ (i : ℕ). elem i s.protected || leb (length history) i in
      let marked = mark first groups in
      let mandatory = update_mandatory marked first in
      let bytes = byte_count mandatory s.sizes in
      let choice =
        choose max_bytes s.sizes (reverse marked)
          (record { selected = mandatory; bytes = bytes; chosen = 0 }) in
      raise_if (not (is_empty s.pending)) Error.context_selection_failed
      >> raise_if (ltb max_bytes bytes) Error.context_budget_exceeded
      >> ok (record {
        messages = pick choice.selected 0 (history ++ current);
        input_bytes = byte_count (λ _. true) s.sizes;
        selected_bytes = choice.bytes;
        history_messages = length history;
        request_messages = length current;
        omitted_history_messages = length history - length (pick choice.selected 0 history);
        omitted_history_groups = length groups - (count_marked marked + choice.chosen);
      })

  unfoldable pub select : (Message → Option ℕ) → Result ContextSelection
  select encode = scan encode (length history) 0 (history ++ current) start >>= conclude
