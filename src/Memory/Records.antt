-- ===== src/Memory/Records.antt =====
-- Long-term memory in src/agent_runtime/memory/postgres.py: the table of records as a list of rows.
-- `now` is what the operation reads from the clock. PostgreSQL's order of texts and its containment of
-- JSON objects are parameters.
use agent_runtime_kit.Errors.{ok, err, Error, Result}
use agent_runtime_kit.Canonical.{Fields, Json}
use agent_runtime_kit.Base.{
  Bool, List, Option, String, [], false, if◌then◌else◌, leb, length, ltb, none, not, some, suc,
  true, zero, ℕ, ◌&&◌, ◌+◌, ◌=ˢ◌, ◌∷◌,
}
use agent_runtime_kit.Context.Stream.{new}
use agent_runtime_kit.Runs.Recover.{limited}

-- `uq_memory_records_identity`
pub record Identity : Type 0 where
  pub namespace : String
  pub user_key : String
  pub memory_key : String

-- A row, and the `MemoryRecord` that is returned for it.
pub record MemoryRecord : Type 0 where
  pub id : ℕ
  pub identity : Identity
  pub value : Json
  pub tags : Fields
  pub expires_at : Option ℕ
  pub created_at : ℕ
  pub updated_at : ℕ

abbrev pub same_identity : Identity → Identity → Bool
same_identity a b =
    a.namespace =ˢ b.namespace && a.user_key =ˢ b.user_key && a.memory_key =ˢ b.memory_key

-- `expires_at IS NULL OR expires_at > now`
abbrev pub unexpired : ℕ → Option ℕ → Bool
unexpired now none = true
unexpired now (some t) = ltb now t

-- The arguments of `put` that are written.
pub record Written : Type 0 where
  pub value : Json
  pub tags : Fields
  pub expires_at : Option ℕ

-- `on_conflict_do_update`: the row of the identity with the columns of `set_`, if there is one.
abbrev pub overwrite : ℕ → Written → MemoryRecord → MemoryRecord
overwrite now w r = record r {
  value = w.value;
  tags = w.tags;
  expires_at = w.expires_at;
  updated_at = now;
}

-- The row that is inserted; `server` is the server's clock.
abbrev pub new_record : ℕ → ℕ → Identity → Written → MemoryRecord
new_record server id identity w = record {
  id = id;
  identity = identity;
  value = w.value;
  tags = w.tags;
  expires_at = w.expires_at;
  created_at = server;
  updated_at = server;
}

-- The row that the statement returns, and the table behind it.
unfoldable pub upsert :
    ℕ → Identity → Written → List MemoryRecord → Option MemoryRecord × List MemoryRecord
upsert now identity w [] = (none, [])
upsert now identity w (r ∷ rs) =
    let (found, rest) = upsert now identity w rs in
    if same_identity r.identity identity
    then (some (overwrite now w r), overwrite now w r ∷ rs)
    else (found, r ∷ rest)

abbrev pub inserted :
    MemoryRecord
    → List MemoryRecord
    → Option MemoryRecord × List MemoryRecord
    → MemoryRecord × List MemoryRecord
inserted new table (some r, table') = (r, table')
inserted new table (none, table') = (new, new ∷ table)

-- `put`: `id` is the `uuid4`.
unfoldable pub put :
    ℕ → ℕ → ℕ → Identity → Written → List MemoryRecord → MemoryRecord × List MemoryRecord
put now server id identity w table =
    inserted (new_record server id identity w) table (upsert now identity w table)

-- `get`
unfoldable pub get : ℕ → Identity → List MemoryRecord → Option MemoryRecord
get now identity [] = none
get now identity (r ∷ rs) =
    if same_identity r.identity identity && unexpired now r.expires_at
    then some r
    else get now identity rs

-- Rows that a DELETE leaves, and whether it has found one.
unfoldable pub delete_rows : (MemoryRecord → Bool) → List MemoryRecord → ℕ × List MemoryRecord
delete_rows p [] = (0, [])
delete_rows p (r ∷ rs) =
    let (n, rest) = delete_rows p rs in if p r then (n + 1, rest) else (n, r ∷ rest)

-- `delete`
unfoldable pub delete : Identity → List MemoryRecord → Bool × List MemoryRecord
delete identity table =
    let (n, rest) = delete_rows (λ r. same_identity r.identity identity) table in (ltb 0 n, rest)

abbrev pub expired_in : ℕ → Option String → MemoryRecord → Bool
expired_in cutoff none r = not (unexpired cutoff r.expires_at)
expired_in cutoff (some n) r = not (unexpired cutoff r.expires_at) && r.identity.namespace =ˢ n

-- `cleanup_expired`, with the cutoff that is given or read from the clock
unfoldable pub cleanup_expired : ℕ → Option String → List MemoryRecord → ℕ × List MemoryRecord
cleanup_expired cutoff namespace table = delete_rows (expired_in cutoff namespace) table

pub record MemoryPage : Type 0 where
  pub items : List MemoryRecord
  pub next_offset : Option ℕ

unfoldable pub dropped {ℓ} : {A : Type ℓ} → ℕ → List A → List A
dropped zero xs = xs
dropped (suc n) [] = []
dropped (suc n) (x ∷ xs) = dropped n xs

abbrev pub has_tags : Fields → Bool
has_tags Fields.end = false
has_tags (Fields.field _ _ _) = true

module _ (before : String → String → Bool) (contains_tags : Fields → Fields → Bool) where
  -- `if tags: conditions.append(...)`
  abbrev pub tagged : Option Fields → MemoryRecord → Bool
  tagged none r = true
  tagged (some tags) r = if has_tags tags then contains_tags r.tags tags else true

  unfoldable pub matching :
      ℕ → String → String → Option Fields → List MemoryRecord → List MemoryRecord
  matching now namespace user_key tags [] = []
  matching now namespace user_key tags (r ∷ rs) =
      let rest = matching now namespace user_key tags rs in
      if r.identity.namespace =ˢ namespace
        && r.identity.user_key =ˢ user_key
        && unexpired now r.expires_at
        && tagged tags r
      then r ∷ rest
      else rest

  -- `order_by(memory_key)`
  unfoldable pub insert_by_key : MemoryRecord → List MemoryRecord → List MemoryRecord
  insert_by_key r [] = r ∷ []
  insert_by_key r (s ∷ rs) =
      if before s.identity.memory_key r.identity.memory_key
      then s ∷ insert_by_key r rs
      else r ∷ s ∷ rs

  unfoldable pub sort_by_key : List MemoryRecord → List MemoryRecord
  sort_by_key [] = []
  sort_by_key (r ∷ rs) = insert_by_key r (sort_by_key rs)

  abbrev pub page : ℕ → ℕ → List MemoryRecord → MemoryPage
  page limit offset rows = record {
    items = limited limit rows;
    next_offset = if ltb limit (length rows) then some (offset + limit) else none;
  }

  -- `search`; an offset is a natural number.
  unfoldable pub search :
      ℕ → String → String → Option Fields → ℕ → ℕ → List MemoryRecord → Result MemoryPage
  search now namespace user_key tags limit offset table =
      if leb 1 limit && leb limit 100
      then ok (
          page limit offset (
            limited (limit + 1)
              (dropped offset (sort_by_key (matching now namespace user_key tags table)))))
      else err Error.value_error
