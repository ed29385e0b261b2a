-- ===== src/Context/Agree/Slots.antt =====
-- The order of the selected messages in src/agent_runtime/context.py: `select` picks them by their
-- indices, `finish` sorts them.
use native.Mathlib.Decide.{ℕ_discrete}
use agent_runtime_kit.Canonical.{Message}
use agent_runtime_kit.Base.{
  Bool, Bool-cases, List, Option, [], ap, arith, false, if◌then◌else◌, inl, inr, leb, length,
  le→leb, map, refl, some, suc, sym, true, ℕ, ◌+◌, ◌-◌, ◌<◌, ◌∙◌, ◌∷◌, ◌≡◌, ◌≤◌,
}
use agent_runtime_kit.Context.Select.{pick}
use agent_runtime_kit.Context.Stream.{insert_entry, sort_entries}
use agent_runtime_kit.Context.Agree.Sums.{Adds, Once, Once-tail, Sound, has-Adds, nth}
use agent_runtime_kit.Context.Agree.Entries.{Entry, has, history_in}

-- The selected messages with their indices, from the index `i` on.
abbrev pub slots : (ℕ → Bool) → ℕ → List Message → List Entry
slots p i [] = []
slots p i (m ∷ ms) = if p i then (i, m) ∷ slots p (i + 1) ms else slots p (i + 1) ms

pub pick-slots :
    (p : ℕ → Bool) (i : ℕ) (ms : List Message)
    → pick p i ms ≡ map (λ (e : Entry). e.1) (slots p i ms)
unfolding pick
pick-slots p i [] = refl
pick-slots p i (m ∷ ms) = elim (Bool-cases (p i)) [
  | inl e ↦ rw e (ap (λ l. m ∷ l) (pick-slots p (i + 1) ms))
  | inr e ↦ rw e (pick-slots p (i + 1) ms)
]

pub slots_agree :
    (p q : ℕ → Bool) (i : ℕ) (ms : List Message)
    → ((j : ℕ) → i ≤ j → j < i + length ms → p j ≡ q j)
    → slots p i ms ≡ slots q i ms
slots_agree p q i [] h = refl
slots_agree p q i (m ∷ ms) h =
    let e : p i ≡ q i = h i (omega arith) (omega arith) in
    rw (e, slots_agree p q (i + 1) ms (λ j a b. h j (omega arith) (omega arith))) refl

-- An entry of a smaller index goes to the front.
insert-first :
    (p : ℕ → Bool) (k i : ℕ) (m : Message) (ms : List Message)
    → k ≤ i
    → insert_entry (k, m) (slots p i ms) ≡ (k, m) ∷ slots p i ms
unfolding insert_entry
insert-first p k i m [] h = refl
insert-first p k i m (x ∷ xs) h = elim (Bool-cases (p i)) [
  | inl e ↦ rw (e, le→leb k i h) refl
  | inr e ↦ rw e (insert-first p k (i + 1) m xs (omega arith))
]

insert-slots :
    (p q : ℕ → Bool) (k i : ℕ) (m : Message) (ms : List Message)
    → Adds p q k
    → i ≤ k
    → nth ms (k - i) ≡ some m
    → insert_entry (k, m) (slots p i ms) ≡ slots q i ms
unfolding insert_entry
insert-slots p q k i m [] a l h = cc
insert-slots p q k i m (x ∷ xs) a l h = elim (ℕ_discrete i k) [
  | yes e ↦
      let z : k - i ≡ 0 = omega arith in
      let pi : p i ≡ false = rw e a.fresh in
      let qi : q i ≡ true = rw e a.added in
      let f : (x ≡ m) = ground arith in
      rw (pi, qi, sym e, f)
        (insert-first p i (i + 1) m xs (omega arith)
          ∙ ap (λ l. (i, m) ∷ l)
              (slots_agree p q (i + 1) xs (λ j b c. sym (a.others j (λ g. omega arith)))))
  | no n ↦
      let z : k - i ≡ suc (k - (i + 1)) = omega arith in
      let same : q i ≡ p i = a.others i n in
      let h' : nth xs (k - (i + 1)) ≡ some m = rw z at h in
      let ih = insert-slots p q k (i + 1) m xs a (omega arith) h' in
      elim (Bool-cases (p i)) [
        | inl e ↦ let g : leb k i ≡ false = ground arith in rw (same, e, g, ih) refl
        | inr e ↦ rw (same, e) ih
      ]
]

slots_none : (i : ℕ) (ms : List Message) → slots (λ j. has j []) i ms ≡ []
slots_none i [] = refl
slots_none i (m ∷ ms) = slots_none (i + 1) ms

-- Sorting entries of distinct indices puts them in the order of the messages.
pub sort_entries-slots :
    (encode : Message → Option ℕ) (ms : List Message) (sizes : List ℕ) (es : List Entry)
    → Sound encode ms sizes es
    → Once es
    → sort_entries es ≡ slots (λ j. has j es) 0 ms
unfolding sort_entries
sort_entries-slots encode ms sizes [] v h = sym (slots_none 0 ms)
sort_entries-slots encode ms sizes (e ∷ es) v h =
    let z : e.0 - 0 ≡ e.0 = omega arith in
    rw (sort_entries-slots encode ms sizes es v.1 (Once-tail e es h)) (
      insert-slots (λ j. has j es) (λ j. has j (e ∷ es)) e.0 0 e.1 ms (has-Adds e es h)
        (omega arith) (rw z v.0.message))

length-map : (es : List Entry) → length (map (λ (e : Entry). e.1) es) ≡ length es
length-map [] = refl
length-map (e ∷ es) = omega (arith, length-map es)

length-map-slots :
    (p : ℕ → Bool) (i : ℕ) (ms : List Message) → length (pick p i ms) ≡ length (slots p i ms)
length-map-slots p i ms =
    ap (λ (l : List Message). length l) (pick-slots p i ms) ∙ length-map (slots p i ms)

-- How many messages of a history are picked.
length-pick-Adds :
    (p q : ℕ → Bool) (k i : ℕ) (ms : List Message)
    → Adds p q k
    → i ≤ k
    → length (pick q i ms) ≡ (if leb (i + length ms) k then 0 else 1) + length (pick p i ms)
unfolding pick
length-pick-Adds p q k i [] a l = ground arith
length-pick-Adds p q k i (m ∷ ms) a l = elim (ℕ_discrete i k) [
  | yes e ↦
      let pi : p i ≡ false = rw e a.fresh in
      let qi : q i ≡ true = rw e a.added in
      let g : leb (i + suc (length ms)) k ≡ false = ground arith in
      rw (pi, qi, g)
        (omega (
          arith,
          ap (λ (xs : List Entry). length xs)
              (slots_agree p q (i + 1) ms (λ j b c. sym (a.others j (λ g. omega arith)))),
          length-map-slots p (i + 1) ms,
          length-map-slots q (i + 1) ms,
        ))
  | no n ↦
      let same : q i ≡ p i = a.others i n in
      let ih = length-pick-Adds p q k (i + 1) ms a (omega arith) in
      let g : leb (i + 1 + length ms) k ≡ leb (i + suc (length ms)) k =
        ap (λ n. leb n k) (omega arith) in
      elim (Bool-cases (p i)) [
        | inl e ↦ rw (same, e) (ground (arith))
        | inr e ↦ rw (same, e, sym g) ih
      ]
]

pub length-pick-has :
    (es : List Entry) (ms : List Message)
    → Once es
    → length (pick (λ j. has j es) 0 ms) ≡ history_in (length ms) es
length-pick-has [] ms h =
    ap (λ (l : List Message). length l)
      (pick-slots (λ j. has j []) 0 ms ∙ ap (map (λ (e : Entry). e.1)) (slots_none 0 ms))
length-pick-has (e ∷ es) ms h =
    let ih = length-pick-has es ms (Once-tail e es h) in
    let w =
      length-pick-Adds (λ j. has j es) (λ j. has j (e ∷ es)) e.0 0 ms (has-Adds e es h)
        (omega arith) in
    let z : 0 + length ms ≡ length ms = omega arith in let w' = rw z at w in omega (arith, w', ih)
