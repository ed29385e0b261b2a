-- ===== src/Context/Agree/Greedy.antt =====
-- The optional groups of src/agent_runtime/context.py that are kept: `select` takes them from the
-- newest on while they fit, `select_stream` drops the oldest until they fit.
use agent_runtime_kit.Canonical.{Message}
use agent_runtime_kit.Context.Agree.Entries.{Entry, cost, costs}
use agent_runtime_kit.Context.Stream.{fits}
use agent_runtime_kit.Base.{
  Bool-cases, List, Option, [], ap, arith, false, if◌then◌else◌, inl, inr, refl, reverse, true, ℕ,
  ◌++◌, ◌+◌, ◌∙◌, ◌∷◌, ◌≡◌, ◌≤◌, reverse-cons,
}

module _ (encode : Message → Option ℕ) (budget : ℕ) where
  -- From the first on, as long as they fit.
  unfoldable pub greedy : ℕ → List (List Entry) → List (List Entry)
  greedy used [] = []
  greedy used (g ∷ gs) =
      let rest = greedy (used + cost encode g) gs in
      if fits budget (used + cost encode g) then g ∷ rest else []

  -- The longest end of the list that fits.
  unfoldable pub kept : ℕ → List (List Entry) → List (List Entry)
  kept used [] = []
  kept used (g ∷ gs) =
      let rest = kept used gs in if fits budget (used + costs encode (g ∷ gs)) then g ∷ gs else rest

pub fits_mono : (b x y : ℕ) → x ≤ y → fits b y ≡ true → fits b x ≡ true
fits_mono b x y h = ground arith

pub unfit_mono : (b x y : ℕ) → x ≤ y → fits b x ≡ false → fits b y ≡ false
unfit_mono b x y h = ground arith

pub costs-append :
    (encode : Message → Option ℕ) (xs ys : List (List Entry))
    → costs encode (xs ++ ys) ≡ costs encode xs + costs encode ys
costs-append encode [] ys = omega arith
costs-append encode (x ∷ xs) ys = omega (arith, costs-append encode xs ys)

greedy_unfit :
    (encode : Message → Option ℕ) (b used : ℕ) (gs : List (List Entry)) (g : List Entry)
    → fits b (used + costs encode gs + cost encode g) ≡ false
    → greedy encode b used (gs ++ g ∷ []) ≡ greedy encode b used gs
unfolding greedy
greedy_unfit encode b used [] g h =
    let e : fits b (used + cost encode g) ≡ false =
      unfit_mono b (used + 0 + cost encode g) (used + cost encode g) (omega arith) h in
    rw e refl
greedy_unfit encode b used (x ∷ xs) g h =
    let i : fits b (used + cost encode x + costs encode xs + cost encode g) ≡ false =
      unfit_mono b (used + (cost encode x + costs encode xs) + cost encode g)
        (used + cost encode x + costs encode xs + cost encode g) (omega arith) h in
    let ih = greedy_unfit encode b (used + cost encode x) xs g i in
    ap (λ (l : List (List Entry)). if fits b (used + cost encode x) then x ∷ l else []) ih

greedy-fits :
    (encode : Message → Option ℕ) (b used : ℕ) (gs : List (List Entry))
    → fits b (used + costs encode gs) ≡ true
    → greedy encode b used gs ≡ gs
unfolding greedy
greedy-fits encode b used [] h = refl
greedy-fits encode b used (x ∷ xs) h =
    let e = fits_mono b (used + cost encode x) (used + costs encode (x ∷ xs)) (omega arith) h in
    let i =
      fits_mono b (used + cost encode x + costs encode xs) (used + costs encode (x ∷ xs))
        (omega arith) h in
    rw (e, greedy-fits encode b (used + cost encode x) xs i) refl

pub costs-reverse :
    (encode : Message → Option ℕ) (gs : List (List Entry))
    → costs encode (reverse gs) ≡ costs encode gs
costs-reverse encode [] = refl
costs-reverse encode (g ∷ gs) =
    rw (reverse-cons g gs)
      (omega (arith, costs-append encode (reverse gs) (g ∷ []), costs-reverse encode gs))

-- Both ways keep the same groups.
pub greedy-kept :
    (encode : Message → Option ℕ) (b used : ℕ) (gs : List (List Entry))
    → greedy encode b used (reverse gs) ≡ reverse (kept encode b used gs)
unfolding kept greedy
greedy-kept encode b used [] = refl
greedy-kept encode b used (g ∷ gs) = elim (Bool-cases (fits b (used + costs encode (g ∷ gs)))) [
  | inl e ↦
      let all : fits b (used + costs encode (reverse (g ∷ gs))) ≡ true =
        rw (costs-reverse encode (g ∷ gs)) e in
      rw e (greedy-fits encode b used (reverse (g ∷ gs)) all)
  | inr e ↦
      let i =
        unfit_mono b (used + costs encode (g ∷ gs))
          (used + costs encode (reverse gs) + cost encode g)
          (omega (arith, costs-reverse encode gs)) e in
      rw (e, reverse-cons g gs)
        (greedy_unfit encode b used (reverse gs) g i ∙ greedy-kept encode b used gs)
]

-- More used, and fewer are kept.
pub kept-kept :
    (encode : Message → Option ℕ) (b x y : ℕ) (gs : List (List Entry))
    → x ≤ y
    → kept encode b y (kept encode b x gs) ≡ kept encode b y gs
unfolding kept
kept-kept encode b x y [] h = refl
kept-kept encode b x y (g ∷ gs) h = elim (Bool-cases (fits b (x + costs encode (g ∷ gs)))) [
  | inl e ↦ rw e refl
  | inr e ↦
      let i =
        unfit_mono b (x + costs encode (g ∷ gs)) (y + costs encode (g ∷ gs)) (omega arith) e in
      rw (e, i) (kept-kept encode b x y gs h)
]

-- One group more, once the others are cut down.
pub kept_more :
    (encode : Message → Option ℕ) (b x : ℕ) (gs : List (List Entry)) (g : List Entry)
    → kept encode b x (kept encode b x gs ++ g ∷ []) ≡ kept encode b x (gs ++ g ∷ [])
unfolding kept
kept_more encode b x [] g = refl
kept_more encode b x (y ∷ ys) g = elim (Bool-cases (fits b (x + costs encode (y ∷ ys)))) [
  | inl e ↦ rw e refl
  | inr e ↦
      let i =
        unfit_mono b (x + costs encode (y ∷ ys)) (x + costs encode (y ∷ ys ++ g ∷ []))
          (omega (arith, costs-append encode ys (g ∷ []))) e in
      rw (e, i) (kept_more encode b x ys g)
]

-- A group that does not fit is a barrier.
pub kept_barrier :
    (encode : Message → Option ℕ) (b x : ℕ) (gs : List (List Entry)) (g : List Entry)
    → fits b (x + cost encode g) ≡ false
    → kept encode b x (gs ++ g ∷ []) ≡ []
unfolding kept
kept_barrier encode b x [] g h =
    let i = unfit_mono b (x + cost encode g) (x + costs encode (g ∷ [])) (omega arith) h in
    rw i refl
kept_barrier encode b x (y ∷ ys) g h =
    let i =
      unfit_mono b (x + cost encode g) (x + costs encode (y ∷ ys ++ g ∷ []))
        (omega (arith, costs-append encode ys (g ∷ []))) h in
    rw i (kept_barrier encode b x ys g h)
