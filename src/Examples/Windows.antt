-- ===== src/Examples/Windows.antt =====
-- Selections of src/agent_runtime/context.py under a budget that leaves out a first exchange.
use agent_runtime_kit.Errors.{ok}
use agent_runtime_kit.Context.Select.{
  select, byte_count, choose, conclude, count_marked, count_selected, elem, group_bytes, mark, pick,
  scan, scan_message, size_at, sum_selected, touches, update_mandatory,
}
use agent_runtime_kit.Context.Stream
use agent_runtime_kit.Canonical.{Message, Role}
use agent_runtime_kit.Base.{List, Option, [], arith, refl, some, ℕ, ◌∷◌, ◌≡◌, ◌≤◌, flat_map, map}
use agent_runtime_kit.Context.Exchange.{ContextSelection, pair_part, pair_parts}
use agent_runtime_kit.Context.Kept.{IsSelection, select-IsSelection}
use agent_runtime_kit.Context.Budget.{select_stream_bound}
use agent_runtime_kit.Context.Stream.{
  add, add_current, add_encoded, add_source, file_group, finish, grow, insert_entry, kept_history,
  require, select_stream, sort_entries, track, trim, trimmed,
}
use agent_runtime_kit.Examples.Tables.{says}
use agent_runtime_kit.Context.Agree.Equal.{select_stream-select}

abbrev history : List Message
history =
    says 1 Role.system "rules"
    ∷ says 2 Role.user "old"
    ∷ says 3 Role.user "new"
    ∷ says 4 Role.assistant "fine"
    ∷ []

abbrev current : List Message
current = says 5 Role.user "hi" ∷ []

abbrev encode : Message → Option ℕ
encode m = some 10

abbrev selection : ContextSelection
selection = record {
  messages =
      says 1 Role.system "rules"
      ∷ says 3 Role.user "new"
      ∷ says 4 Role.assistant "fine"
      ∷ says 5 Role.user "hi"
      ∷ [];
  input_bytes = 56;
  selected_bytes = 45;
  history_messages = 4;
  request_messages = 1;
  omitted_history_messages = 1;
  omitted_history_groups = 1;
}

selects : select 50 history current encode ≡ ok selection
unfolding select scan scan_message pair_parts pair_part elem touches mark update_mandatory
    sum_selected count_selected byte_count size_at group_bytes choose pick count_marked conclude
selects = refl

select-IsSelection_example : IsSelection 50 history current selection
select-IsSelection_example = select-IsSelection 50 history current encode selection selects

selects_stream :
    select_stream encode 50
      (ok (says 1 Role.system "rules")
        ∷ ok (says 2 Role.user "old")
        ∷ ok (says 3 Role.user "new")
        ∷ ok (says 4 Role.assistant "fine")
        ∷ [])
      current
    ≡ ok selection
unfolding select_stream add_source add add_current add_encoded Stream.close_group file_group trimmed
    trim require grow track pair_parts pair_part finish insert_entry sort_entries kept_history
    flat_map
selects_stream = refl

select_stream_bound_example : selection.selected_bytes ≤ 50
select_stream_bound_example =
    select_stream_bound encode 50
      (ok (says 1 Role.system "rules")
        ∷ ok (says 2 Role.user "old")
        ∷ ok (says 3 Role.user "new")
        ∷ ok (says 4 Role.assistant "fine")
        ∷ [])
      current selection (omega arith) selects_stream

select_stream-select_example :
    select_stream encode 50 (map ok history) current ≡ select 50 history current encode
select_stream-select_example = select_stream-select encode 50 history current (omega arith)
