-- ===== src/Context/Agree/Shape.antt =====
-- The reference's groups of src/agent_runtime/context.py hold each message once.
use agent_runtime_kit.Canonical.{Message}
use agent_runtime_kit.Context.Agree.Entries.{Entry, concat, occ, is_mandatory, occ-append}
use agent_runtime_kit.Context.Agree.Reference.{Full, close, join, opened}
use agent_runtime_kit.Errors.{ok}
use agent_runtime_kit.Base.{
  Bool-cases, List, [], ap, arith, if◌then◌else◌, inl, inr, is_empty, length, ltb, refl, ℕ, ◌++◌,
  ◌+◌, ◌==◌, ◌∙◌, ◌∷◌, ◌≡◌, Option-cases, String, false, length-append, some, subst, sym, true,
  ◌&&◌, ◌||◌,
}
use agent_runtime_kit.Context.Exchange.{is_system, is_user, pair_parts}

-- The closed groups with a current message, and those without.
abbrev pub mandatory_of : ℕ → List (List Entry) → List (List Entry)
mandatory_of hist [] = []
mandatory_of hist (g ∷ gs) =
    if is_mandatory hist g then g ∷ mandatory_of hist gs else mandatory_of hist gs

abbrev pub optional_of : ℕ → List (List Entry) → List (List Entry)
optional_of hist [] = []
optional_of hist (g ∷ gs) =
    if is_mandatory hist g then optional_of hist gs else g ∷ optional_of hist gs

pub mandatory_of-append :
    (hist : ℕ) (gs hs : List (List Entry))
    → mandatory_of hist (gs ++ hs) ≡ mandatory_of hist gs ++ mandatory_of hist hs
mandatory_of-append hist [] hs = refl
mandatory_of-append hist (g ∷ gs) hs = elim (Bool-cases (is_mandatory hist g)) [
  | inl e ↦ rw e (ap (λ l. g ∷ l) (mandatory_of-append hist gs hs))
  | inr e ↦ rw e (mandatory_of-append hist gs hs)
]

pub optional_of-append :
    (hist : ℕ) (gs hs : List (List Entry))
    → optional_of hist (gs ++ hs) ≡ optional_of hist gs ++ optional_of hist hs
optional_of-append hist [] hs = refl
optional_of-append hist (g ∷ gs) hs = elim (Bool-cases (is_mandatory hist g)) [
  | inl e ↦ rw e (optional_of-append hist gs hs)
  | inr e ↦ rw e (ap (λ l. g ∷ l) (optional_of-append hist gs hs))
]

pub occ-split :
    (hist j : ℕ) (gs : List (List Entry))
    → occ j (concat gs)
      ≡ occ j (concat (mandatory_of hist gs)) + occ j (concat (optional_of hist gs))
occ-split hist j [] = omega arith
occ-split hist j (g ∷ gs) = elim (Bool-cases (is_mandatory hist g)) [
  | inl e ↦ rw e (
      omega (
        arith,
        occ-split hist j gs,
        occ-append j g (concat gs),
        occ-append j g (concat (mandatory_of hist gs)),
      ))
  | inr e ↦ rw e (
      omega (
        arith,
        occ-split hist j gs,
        occ-append j g (concat gs),
        occ-append j g (concat (optional_of hist gs)),
      ))
]

pub occ-concat-append :
    (j : ℕ) (gs hs : List (List Entry))
    → occ j (concat (gs ++ hs)) ≡ occ j (concat gs) + occ j (concat hs)
occ-concat-append j [] hs = omega arith
occ-concat-append j (g ∷ gs) hs = omega (
  arith,
  occ-concat-append j gs hs,
  occ-append j g (concat (gs ++ hs)),
  occ-append j g (concat gs),
)

-- What the groups are once `length f.sizes` messages are placed.
pub record IsPlaced (hist : ℕ) (f : Full) : Type 0 where
  pub placed :
      (j : ℕ)
      → occ j f.systems + occ j (concat f.closed) + occ j f.group
        ≡ (if ltb j (length f.sizes) then 1 else 0)
  pub required :
      (j : ℕ) → occ j f.required ≡ occ j f.systems + occ j (concat (mandatory_of hist f.closed))

occ-last :
    (j : ℕ) (es : List Entry) (i : ℕ) (m : Message)
    → occ j (es ++ (i, m) ∷ []) ≡ occ j es + (if i == j then 1 else 0)
occ-last j es i m = omega (arith, occ-append j es ((i, m) ∷ []))

required_more :
    (hist j : ℕ) (f : Full)
    → occ j f.required ≡ occ j f.systems + occ j (concat (mandatory_of hist f.closed))
    → occ j (concat (mandatory_of hist (f.closed ++ f.group ∷ [])))
      ≡ occ j (concat (mandatory_of hist f.closed))
        + occ j (concat (mandatory_of hist (f.group ∷ [])))
    → occ j (f.required ++ (if is_mandatory hist f.group then f.group else []))
      ≡ occ j f.systems + occ j (concat (mandatory_of hist (f.closed ++ f.group ∷ [])))
required_more hist j f o a = elim (Bool-cases (is_mandatory hist f.group)) [
  | inl e ↦
      let a' = rw e at a in
      rw e (omega (arith, o, a', occ-append j f.required f.group, occ-append j f.group []))
  | inr e ↦ let a' = rw e at a in rw e (omega (arith, o, a', occ-append j f.required []))
]

pub close-IsPlaced : (hist : ℕ) (f : Full) → IsPlaced hist f → IsPlaced hist (close hist f)
unfolding close
close-IsPlaced hist f p = elim (Bool-cases (is_empty f.group)) [
  | inl e ↦ rw e p
  | inr e ↦ rw e (record {
    placed = λ j.
        let o = p.placed j in
        omega (arith, o, occ-concat-append j f.closed (f.group ∷ []), occ-append j f.group []);
    required = λ j.
        let o = p.required j in
        let a = ap (λ l. occ j (concat l)) (mandatory_of-append hist f.closed (f.group ∷ [])) in
        let b =
          occ-concat-append j (mandatory_of hist f.closed) (mandatory_of hist (f.group ∷ [])) in
        required_more hist j f o (a ∙ b);
  })
]

abbrev pub with_system : Message → ℕ → Full → Full
with_system m size f = record f {
  systems = f.systems ++ (length f.sizes, m) ∷ [];
  required = f.required ++ (length f.sizes, m) ∷ [];
  sizes = f.sizes ++ size ∷ [];
}

abbrev pub with_member : Message → ℕ → List String → Full → Full
with_member m size pending f = record f {
  group = f.group ++ (length f.sizes, m) ∷ [];
  pending = pending;
  sizes = f.sizes ++ size ∷ [];
}

-- What a message changes.
pub data Joins (m : Message) (size : ℕ) (f f' : Full) : Type 0 where
  joins_system : is_system m.role ≡ true → f' ≡ with_system m size f → Joins m size f f'
  joins_member :
      (pending : List String)
      → is_system m.role ≡ false
      → pair_parts m.content f.pending ≡ some pending
      → f' ≡ with_member m size pending f
      → Joins m size f f'

pub join-Joins : (m : Message) (size : ℕ) (f f' : Full) → join m size f ≡ ok f' → Joins m size f f'
unfolding join
join-Joins m size f f' h = elim (Bool-cases (is_system m.role)) [
  | inl e ↦ joins_system e (ground arith)
  | inr e ↦ elim (Option-cases (pair_parts m.content f.pending)) [
    | inl q ↦ absurd (ground arith)
    | inr (pending, q) ↦ joins_member pending e q (ground arith)
  ]
]

next_index :
    (j : ℕ) (sizes : List ℕ) (size : ℕ)
    → (if ltb j (length (sizes ++ size ∷ [])) then 1 else 0)
      ≡ (if ltb j (length sizes) then 1 else 0) + (if length sizes == j then 1 else 0)
next_index j sizes size = ground (arith, length-append sizes (size ∷ []))

pub join-IsPlaced :
    (hist : ℕ) (m : Message) (size : ℕ) (f f' : Full)
    → IsPlaced hist f
    → join m size f ≡ ok f'
    → IsPlaced hist f'
join-IsPlaced hist m size f f' p h = elim (join-Joins m size f f' h) [
  | joins_system e q ↦ subst (IsPlaced hist) (sym q) (record {
    placed = λ j.
        let o = p.placed j in
        omega (arith, o, occ-last j f.systems (length f.sizes) m, next_index j f.sizes size);
    required = λ j.
        let o = p.required j in
        omega (
          arith,
          o,
          occ-last j f.systems (length f.sizes) m,
          occ-last j f.required (length f.sizes) m,
        );
  })
  | joins_member pending e g q ↦ subst (IsPlaced hist) (sym q) (record {
    placed = λ j.
        let o = p.placed j in
        omega (arith, o, occ-last j f.group (length f.sizes) m, next_index j f.sizes size);
    required = λ j. p.required j;
  })
]

pub opened-IsPlaced :
    (hist : ℕ) (m : Message) (f : Full) → IsPlaced hist f → IsPlaced hist (opened hist m f)
opened-IsPlaced hist m f p =
    elim (Bool-cases ((is_user m.role || (length f.sizes == hist)) && is_empty f.pending)) [
      | inl e ↦ rw e (close-IsPlaced hist f p)
      | inr e ↦ rw e p
    ]
