-- ===== src/Context/Agree/Sums.antt =====
-- The byte counts of `ContextWindow.select` in src/agent_runtime/context.py over sets of entries.
use native.Mathlib.Decide.{ℕ_discrete}
use agent_runtime_kit.Canonical.{Message}
use agent_runtime_kit.Base.{
  All, Bool, List, Option, [], arith, false, if◌then◌else◌, length, ltb, none, refl, some, suc,
  true, zero, ℕ, ◌+◌, ◌-◌, ◌<◌, ◌∷◌, ◌≡◌, ◌≢◌, ◌≤◌,
}
use agent_runtime_kit.Context.Select.{byte_count, count_selected, size_at, sum_selected}
use agent_runtime_kit.Context.Agree.Entries.{Entry, cost, has, occ, size_of}
use agent_runtime_kit.Context.Stream.{array_bytes}

-- Both sums of `byte_count` in one: the selected messages with a comma each.
abbrev pub weigh : (ℕ → Bool) → ℕ → List ℕ → ℕ
weigh p i [] = 0
weigh p i (size ∷ sizes) = (if p i then 1 + size else 0) + weigh p (i + 1) sizes

weigh_sums :
    (p : ℕ → Bool) (i : ℕ) (sizes : List ℕ)
    → weigh p i sizes ≡ sum_selected p i sizes + count_selected p i sizes
unfolding sum_selected count_selected
weigh_sums p i [] = omega arith
weigh_sums p i (size ∷ sizes) = ground (arith, weigh_sums p (i + 1) sizes)

sum_zero :
    (p : ℕ → Bool) (i : ℕ) (sizes : List ℕ)
    → count_selected p i sizes ≡ 0
    → sum_selected p i sizes ≡ 0
unfolding sum_selected count_selected
sum_zero p i [] h = refl
sum_zero p i (size ∷ sizes) h = ground (arith, sum_zero p (i + 1) sizes)

pub byte_count_eq :
    (p : ℕ → Bool) (sizes : List ℕ) → byte_count p sizes ≡ array_bytes (weigh p 0 sizes)
unfolding byte_count
byte_count_eq p sizes = ground (arith, weigh_sums p 0 sizes, sum_zero p 0 sizes)

pub count_weigh :
    (p : ℕ → Bool) (sizes : List ℕ) → ltb 0 (count_selected p 0 sizes) ≡ ltb 0 (weigh p 0 sizes)
count_weigh p sizes = ground (arith, weigh_sums p 0 sizes, sum_zero p 0 sizes)

-- A predicate matters only below the bound.
pub weigh_agree :
    (p q : ℕ → Bool) (i : ℕ) (sizes : List ℕ)
    → ((j : ℕ) → i ≤ j → j < i + length sizes → p j ≡ q j)
    → weigh p i sizes ≡ weigh q i sizes
weigh_agree p q i [] h = refl
weigh_agree p q i (size ∷ sizes) h =
    let e : p i ≡ q i = h i (omega arith) (omega arith) in
    rw (e, weigh_agree p q (i + 1) sizes (λ j a b. h j (omega arith) (omega arith))) refl

-- One index more.
pub record Adds (p q : ℕ → Bool) (k : ℕ) : Type 0 where
  pub fresh : p k ≡ false
  pub added : q k ≡ true
  pub others : (j : ℕ) → j ≢ k → q j ≡ p j

weigh-Adds :
    (p q : ℕ → Bool) (k i : ℕ) (sizes : List ℕ)
    → Adds p q k
    → i ≤ k
    → k < i + length sizes
    → weigh q i sizes ≡ weigh p i sizes + 1 + size_at sizes (k - i)
unfolding size_at
weigh-Adds p q k i [] a l h = absurd (omega arith)
weigh-Adds p q k i (size ∷ sizes) a l h = elim (ℕ_discrete i k) [
  | yes e ↦
      let z : k - i ≡ 0 = omega arith in
      let pi : p i ≡ false = rw e a.fresh in
      let qi : q i ≡ true = rw e a.added in
      let same = weigh_agree q p (i + 1) sizes (λ j b c. a.others j (λ f. omega arith)) in
      rw (z, pi, qi) (omega (arith, same))
  | no n ↦
      let z : k - i ≡ suc (k - (i + 1)) = omega arith in
      let same : q i ≡ p i = a.others i n in
      let ih = weigh-Adds p q k (i + 1) sizes a (omega arith) (omega arith) in
      rw (z, same) (omega (arith, ih))
]

abbrev pub nth : List Message → ℕ → Option Message
nth [] k = none
nth (m ∷ ms) zero = some m
nth (m ∷ ms) (suc k) = nth ms k

-- What an entry says of the messages and of their sizes.
pub record IsEntry (encode : Message → Option ℕ) (ms : List Message) (sizes : List ℕ) (e : Entry)
    : Type 0 where
  pub below : e.0 < length sizes
  pub size : size_at sizes e.0 ≡ size_of encode e.1
  pub message : nth ms e.0 ≡ some e.1

abbrev pub Sound : (Message → Option ℕ) → List Message → List ℕ → List Entry → Type 0
Sound encode ms sizes es = All (IsEntry encode ms sizes) es

abbrev pub Once : List Entry → Type 0
Once es = (j : ℕ) → occ j es ≤ 1

pub Once-tail : (e : Entry) (es : List Entry) → Once (e ∷ es) → Once es
Once-tail e es h j = let n = h j in omega arith

pub has-Adds :
    (e : Entry) (es : List Entry) → Once (e ∷ es) → Adds (λ j. has j es) (λ j. has j (e ∷ es)) e.0
has-Adds e es h = record {
  fresh = let n = h e.0 in ground arith;
  added = ground arith;
  others = λ j n. ground arith;
}

weigh_none : (i : ℕ) (sizes : List ℕ) → weigh (λ j. has j []) i sizes ≡ 0
weigh_none i [] = refl
weigh_none i (x ∷ xs) = omega (arith, weigh_none (i + 1) xs)

pub weigh-has :
    (encode : Message → Option ℕ) (ms : List Message) (sizes : List ℕ) (es : List Entry)
    → Sound encode ms sizes es
    → Once es
    → weigh (λ j. has j es) 0 sizes ≡ cost encode es
weigh-has encode ms sizes [] v h = weigh_none 0 sizes
weigh-has encode ms sizes (e ∷ es) v h =
    let ih = weigh-has encode ms sizes es v.1 (Once-tail e es h) in
    let w =
      weigh-Adds (λ j. has j es) (λ j. has j (e ∷ es)) e.0 0 sizes (has-Adds e es h) (omega arith)
        (omega (arith, v.0.below)) in
    let z : e.0 - 0 ≡ e.0 = omega arith in
    let w' : weigh (λ j. has j (e ∷ es)) 0 sizes
        ≡ weigh (λ j. has j es) 0 sizes + 1 + size_at sizes e.0 =
      rw z at w in
    omega (arith, w', ih, v.0.size)
