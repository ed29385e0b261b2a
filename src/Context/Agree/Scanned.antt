-- ===== src/Context/Agree/Scanned.antt =====
-- The scan of `ContextWindow.select` in src/agent_runtime/context.py follows the reference.
use agent_runtime_kit.Context.Select.{close_group, Scan, scan, scan_message, join_group}
use agent_runtime_kit.Base.{
  Bool-cases, List, [], ap, inl, inr, is_empty, refl, ℕ, ◌++◌, ◌∷◌, ◌≡◌, Option, ◌==◌, length,
  Option-cases, arith, if◌then◌else◌, length-append, subst, sym, ◌&&◌, ◌+◌, ◌||◌, ◌∙◌,
}
use agent_runtime_kit.Context.Agree.Reference.{Full, close, join, opened, reference}
use agent_runtime_kit.Context.Agree.Entries.{Entry, indices, indices-append}
use agent_runtime_kit.Canonical.{Message}
use agent_runtime_kit.Errors.{Result, ok, ◌>>=◌, Result-cases}
use agent_runtime_kit.Context.Exchange.{is_system, is_user, pair_parts}

abbrev pub groups_of : List (List Entry) → List (List ℕ)
groups_of [] = []
groups_of (g ∷ gs) = indices g ∷ groups_of gs

-- What `select` keeps of the scanned messages.
abbrev pub scanned : Full → Scan
scanned f = record {
  groups = groups_of f.closed;
  group = indices f.group;
  pending = f.pending;
  protected = indices f.systems;
  sizes = f.sizes;
}

groups_of-append : (gs hs : List (List Entry)) → groups_of (gs ++ hs) ≡ groups_of gs ++ groups_of hs
groups_of-append [] hs = refl
groups_of-append (g ∷ gs) hs = ap (λ l. indices g ∷ l) (groups_of-append gs hs)

is_empty-indices : (xs : List Entry) → is_empty (indices xs) ≡ is_empty xs
is_empty-indices [] = refl
is_empty-indices (x ∷ xs) = refl

pub close_group-scanned :
    (hist : ℕ) (f : Full) (sizes : List ℕ)
    → close_group (record (scanned f) { sizes = sizes })
      ≡ record (scanned (close hist f)) { sizes = sizes }
unfolding close
close_group-scanned hist f sizes = elim (Bool-cases (is_empty f.group)) [
  | inl e ↦ rw (is_empty-indices f.group, e) refl
  | inr e ↦ rw (is_empty-indices f.group, e, groups_of-append f.closed (f.group ∷ [])) refl
]

-- One message of the scan, behind the closing of the group.
abbrev join_scan : ℕ → Message → Scan → Result Scan
join_scan index m s =
    if is_system m.role
    then ok (record s { protected = s.protected ++ index ∷ [] })
    else join_group index m s

join_scan-scanned :
    (index : ℕ) (m : Message) (size : ℕ) (f : Full)
    → index ≡ length f.sizes
    → join_scan index m (record (scanned f) { sizes = f.sizes ++ size ∷ [] })
      ≡ (join m size f >>= λ f'. ok (scanned f'))
unfolding join
join_scan-scanned index m size f i = elim (Bool-cases (is_system m.role)) [
  | inl e ↦ rw (e, indices-append f.systems ((length f.sizes, m) ∷ []), i) refl
  | inr e ↦ elim (Option-cases (pair_parts m.content f.pending)) [
    | inl q ↦ rw (e, q, join) (rw (q, join_group) refl)
    | inr (pending, q) ↦
        rw (e, q, join, indices-append f.group ((length f.sizes, m) ∷ []), i)
          (rw (q, join_group) refl)
  ]
]

abbrev opened_scan : ℕ → ℕ → Message → Scan → Scan
opened_scan hist index m s =
    if (is_user m.role || (index == hist)) && is_empty s.pending then close_group s else s

opened-scanned :
    (hist index : ℕ) (m : Message) (sizes : List ℕ) (f : Full)
    → index ≡ length f.sizes
    → opened_scan hist index m (record (scanned f) { sizes = sizes })
      ≡ record (scanned (opened hist m f)) { sizes = sizes }
opened-scanned hist index m sizes f i =
    elim (Bool-cases ((is_user m.role || (length f.sizes == hist)) && is_empty f.pending)) [
      | inl e ↦ rw (i, e) (close_group-scanned hist f sizes)
      | inr e ↦ rw (i, e) refl
    ]

pub opened-sizes : (hist : ℕ) (m : Message) (f : Full) → (opened hist m f).sizes ≡ f.sizes
unfolding close
opened-sizes hist m f = ground arith

pub join-sizes :
    (m : Message) (size : ℕ) (f f' : Full) → join m size f ≡ ok f' → f'.sizes ≡ f.sizes ++ size ∷ []
unfolding join
join-sizes m size f f' h = ground arith

scan_message-scanned :
    (hist index : ℕ) (m : Message) (size : ℕ) (f : Full)
    → index ≡ length f.sizes
    → scan_message index (index == hist) m size (scanned f)
      ≡ (join m size (opened hist m f) >>= λ f'. ok (scanned f'))
unfolding scan_message
scan_message-scanned hist index m size f i =
    let sizes = f.sizes ++ size ∷ [] in
    let o = opened-scanned hist index m sizes f i in
    let z = opened-sizes hist m f in
    ap (join_scan index m) o
    ∙ subst
        (λ ss.
          join_scan index m (record (scanned (opened hist m f)) { sizes = ss ++ size ∷ [] })
          ≡ (join m size (opened hist m f) >>= λ f'. ok (scanned f')))
        z
        (join_scan-scanned index m size (opened hist m f)
          (i ∙ ap (λ (l : List ℕ). length l) (sym z)))

-- The scan is the reference, seen through `scanned`.
pub scan-scanned :
    (encode : Message → Option ℕ) (hist index : ℕ) (ms : List Message) (f : Full)
    → index ≡ length f.sizes
    → scan encode hist index ms (scanned f) ≡ (reference encode hist ms f >>= λ f'. ok (scanned f'))
unfolding scan reference
scan-scanned encode hist index [] f i = refl
scan-scanned encode hist index (m ∷ ms) f i = elim (Option-cases (encode m)) [
  | inl e ↦ rw (e, scan, reference) refl
  | inr (size, e) ↦ elim (Result-cases (join m size (opened hist m f))) [
    | inl (x, q) ↦ rw (e, scan, reference, scan_message-scanned hist index m size f i, q) refl
    | inr (f1, q) ↦
        let z = join-sizes m size (opened hist m f) f1 q in
        let i' : index + 1 ≡ length f1.sizes = omega (
          arith,
          ap (λ (l : List ℕ). length l) z,
          length-append f.sizes (size ∷ []),
          ap (λ (l : List ℕ). length l) (opened-sizes hist m f),
          length-append (opened hist m f).sizes (size ∷ []),
        ) in
        rw (e, scan, reference, scan_message-scanned hist index m size f i, q)
          (scan-scanned encode hist (index + 1) ms f1 i')
  ]
]
