-- ===== src/Context/Agree/Reference.antt =====
-- The scan of src/agent_runtime/context.py as one reference: all groups of messages, with nothing
-- dropped and nothing selected yet.
use agent_runtime_kit.Errors.{ok, err, Error, Result, ◌>>=◌}
use agent_runtime_kit.Canonical.{Message}
use agent_runtime_kit.Base.{
  List, Option, String, [], if◌then◌else◌, is_empty, length, none, some, ℕ, ◌&&◌, ◌++◌, ◌==◌, ◌||◌,
  ◌∷◌,
}
use agent_runtime_kit.Context.Exchange.{is_system, is_user, pair_parts}
use agent_runtime_kit.Context.Agree.Entries.{Entry, is_mandatory}

pub record Full : Type 0 where
  pub closed : List (List Entry)
  pub group : List Entry
  pub systems : List Entry
  pub required : List Entry
  pub pending : List String
  pub sizes : List ℕ

abbrev pub empty_full : Full
empty_full = record {
  closed = [];
  group = [];
  systems = [];
  required = [];
  pending = [];
  sizes = [];
}

unfoldable pub close : ℕ → Full → Full
close hist f = if is_empty f.group then f else record f {
  closed = f.closed ++ f.group ∷ [];
  group = [];
  required = f.required ++ (if is_mandatory hist f.group then f.group else []);
}

abbrev pub opened : ℕ → Message → Full → Full
opened hist m f =
    if (is_user m.role || (length f.sizes == hist)) && is_empty f.pending then close hist f else f

-- One message behind that: a system message, or one of the open group.
unfoldable pub join : Message → ℕ → Full → Result Full
join m size f =
    let entry : Entry = (length f.sizes, m) in
    if is_system m.role
    then ok (record f {
      systems = f.systems ++ entry ∷ [];
      required = f.required ++ entry ∷ [];
      sizes = f.sizes ++ size ∷ [];
    })
    else elim (pair_parts m.content f.pending) [
      | none ↦ err Error.context_selection_failed
      | some pending ↦ ok (record f {
        group = f.group ++ entry ∷ [];
        pending = pending;
        sizes = f.sizes ++ size ∷ [];
      })
    ]

unfoldable pub reference : (Message → Option ℕ) → ℕ → List Message → Full → Result Full
reference encode hist [] f = ok f
reference encode hist (m ∷ ms) f = elim (encode m) [
  | none ↦ err Error.value_error
  | some size ↦ join m size (opened hist m f) >>= reference encode hist ms
]
