-- ===== src/Context/Agree/Marks.antt =====
-- The marks and the mandatory indices of `ContextWindow.select` in src/agent_runtime/context.py, over
-- groups of entries.
use agent_runtime_kit.Context.Agree.Entries.{
  Entry, concat, has, indices, is_mandatory, occ, elem-indices, occ-append,
}
use agent_runtime_kit.Context.Agree.Shape.{mandatory_of, optional_of, optional_of-append}
use agent_runtime_kit.Context.Agree.Scanned.{groups_of}
use agent_runtime_kit.Context.Select.{count_marked, mark, touches, update_mandatory, update}
use agent_runtime_kit.Base.{
  Bool, Bool-cases, List, [], ap, append-nil, arith, inl, inr, leb, length, refl, reverse,
  reverse-cons, ℕ, ◌++◌, ◌<◌, ◌||◌, ◌∷◌, ◌≡◌, false, ◌≤◌,
}

abbrev pub marks : ℕ → List (List Entry) → List (Bool × List ℕ)
marks hist [] = []
marks hist (g ∷ gs) = (is_mandatory hist g, indices g) ∷ marks hist gs

touches-is_mandatory :
    (hist : ℕ) (first : ℕ → Bool) (g : List Entry)
    → ((j : ℕ) → 0 < occ j g → first j ≡ leb hist j)
    → touches first (indices g) ≡ is_mandatory hist g
unfolding touches
touches-is_mandatory hist first [] h = refl
touches-is_mandatory hist first (e ∷ es) h =
    let a = h e.0 (ground arith) in
    rw (a, touches-is_mandatory hist first es (λ j b. h j (omega arith))) refl

pub mark-marks :
    (hist : ℕ) (first : ℕ → Bool) (gs : List (List Entry))
    → ((j : ℕ) → 0 < occ j (concat gs) → first j ≡ leb hist j)
    → mark first (groups_of gs) ≡ marks hist gs
unfolding mark
mark-marks hist first [] h = refl
mark-marks hist first (g ∷ gs) h =
    let a =
      touches-is_mandatory hist first g
        (λ j b. h j (omega (arith, b, occ-append j g (concat gs)))) in
    rw (a, mark-marks hist first gs (λ j b. h j (omega (arith, b, occ-append j g (concat gs)))))
      refl

has-append : (j : ℕ) (xs ys : List Entry) → has j (xs ++ ys) ≡ (has j xs || has j ys)
has-append j xs ys = ground (arith, occ-append j xs ys)

pub update-has :
    (p : ℕ → Bool) (es g : List Entry) (j : ℕ)
    → p j ≡ has j es
    → update p (indices g) j ≡ has j (es ++ g)
update-has p es g j h = ground (arith, h, elem-indices j g, has-append j es g)

pub update_mandatory-has :
    (hist : ℕ) (gs : List (List Entry)) (p : ℕ → Bool) (j : ℕ)
    → update_mandatory (marks hist gs) p j ≡ (p j || has j (concat (mandatory_of hist gs)))
unfolding update_mandatory
update_mandatory-has hist [] p j = ground arith
update_mandatory-has hist (g ∷ gs) p j = elim (Bool-cases (is_mandatory hist g)) [
  | inl e ↦
      let u : update p (indices g) j ≡ (p j || has j g) =
        ap (λ (x : Bool). p j || x) (elem-indices j g) in
      let ih = update_mandatory-has hist gs (update p (indices g)) j in
      rw (e, has-append j g (concat (mandatory_of hist gs))) (ground (arith, ih, u))
  | inr e ↦ rw e (update_mandatory-has hist gs p j)
]

-- An optional group has no current message.
occ-optional_group :
    (hist j : ℕ) (g : List Entry) → hist ≤ j → is_mandatory hist g ≡ false → occ j g ≡ 0
occ-optional_group hist j [] h e = refl
occ-optional_group hist j (x ∷ xs) h e =
    let a : is_mandatory hist xs ≡ false = ground arith in
    let b : leb hist x.0 ≡ false = ground arith in ground (arith, occ-optional_group hist j xs h a)

pub occ-optional_of :
    (hist j : ℕ) (gs : List (List Entry)) → hist ≤ j → occ j (concat (optional_of hist gs)) ≡ 0
occ-optional_of hist j [] h = refl
occ-optional_of hist j (g ∷ gs) h = elim (Bool-cases (is_mandatory hist g)) [
  | inl e ↦ rw e (occ-optional_of hist j gs h)
  | inr e ↦ rw e (
      omega (
        arith,
        occ-append j g (concat (optional_of hist gs)),
        occ-optional_of hist j gs h,
        occ-optional_group hist j g h e,
      ))
]

pub count_marked-marks :
    (hist : ℕ) (gs : List (List Entry))
    → count_marked (marks hist gs) ≡ length (mandatory_of hist gs)
unfolding count_marked
count_marked-marks hist [] = refl
count_marked-marks hist (g ∷ gs) = ground (arith, count_marked-marks hist gs)

marks-append :
    (hist : ℕ) (gs hs : List (List Entry)) → marks hist (gs ++ hs) ≡ marks hist gs ++ marks hist hs
marks-append hist [] hs = refl
marks-append hist (g ∷ gs) hs =
    ap (λ l. (is_mandatory hist g, indices g) ∷ l) (marks-append hist gs hs)

pub marks-reverse :
    (hist : ℕ) (gs : List (List Entry)) → reverse (marks hist gs) ≡ marks hist (reverse gs)
marks-reverse hist [] = refl
marks-reverse hist (g ∷ gs) =
    rw
      (
        reverse-cons g gs,
        reverse-cons (is_mandatory hist g, indices g) (marks hist gs),
        marks-append hist (reverse gs) (g ∷ []),
        marks-reverse hist gs,
      )
      refl

pub optional_of-reverse :
    (hist : ℕ) (gs : List (List Entry))
    → optional_of hist (reverse gs) ≡ reverse (optional_of hist gs)
optional_of-reverse hist [] = refl
optional_of-reverse hist (g ∷ gs) = elim (Bool-cases (is_mandatory hist g)) [
  | inl e ↦
      rw
        (
          reverse-cons g gs,
          optional_of-append hist (reverse gs) (g ∷ []),
          e,
          append-nil (optional_of hist (reverse gs)),
        )
        (optional_of-reverse hist gs)
  | inr e ↦
      rw
        (
          reverse-cons g gs,
          optional_of-append hist (reverse gs) (g ∷ []),
          e,
          reverse-cons g (optional_of hist gs),
          optional_of-reverse hist gs,
        )
        refl
]
