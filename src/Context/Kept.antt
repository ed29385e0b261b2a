-- ===== src/Context/Kept.antt =====
-- What `ContextWindow.select` of src/agent_runtime/context.py keeps, and its budget.
use agent_runtime_kit.Errors.{ok, Result-cases}
use agent_runtime_kit.Context.Select.{
  close_group, select, conclude, Choice, Scan, choose, count_selected, group_bytes, pick, update,
  update_mandatory, byte_count, elem, mark, scan, start,
}
use agent_runtime_kit.Canonical.{Message}
use agent_runtime_kit.Base.{
  Bool, Bool-cases, List, [], ap, arith, false, if◌then◌else◌, inl, inr, length, ltb, refl, suc,
  true, ℕ, ◌++◌, ◌+◌, ◌-◌, ◌∙◌, ◌∷◌, ◌≡◌, ◌≤◌, Option, leb, le→leb, reverse, ◌||◌,
}
use agent_runtime_kit.Context.Exchange.{ContextSelection}

module _ {ℓ} {A : Type ℓ} where
  -- The selected elements of a list come in its order.
  pub data Sublist : List A → List A → Type ℓ where
    nil : Sublist [] []
    keep : {xs ys : List A} (x : A) → Sublist xs ys → Sublist (x ∷ xs) (x ∷ ys)
    drop : {xs ys : List A} (y : A) → Sublist xs ys → Sublist xs (y ∷ ys)

  pick-Sublist : (p : ℕ → Bool) (i : ℕ) (xs : List A) → Sublist (pick p i xs) xs
  unfolding pick
  pick-Sublist p i [] = nil
  pick-Sublist p i (x ∷ xs) = elim (Bool-cases (p i)) [
    | inl e ↦ rw e (keep x (pick-Sublist p (i + 1) xs))
    | inr e ↦ rw e (drop x (pick-Sublist p (i + 1) xs))
  ]

  pick-append :
      (p : ℕ → Bool) (i : ℕ) (xs ys : List A)
      → pick p i (xs ++ ys) ≡ pick p i xs ++ pick p (i + length xs) ys
  unfolding pick
  pick-append p i [] ys = ap (λ n. pick p n ys) (omega arith)
  pick-append p i (x ∷ xs) ys =
      let e : i + 1 + length xs ≡ i + suc (length xs) = omega arith in
      let ih = pick-append p (i + 1) xs ys ∙ ap (λ n. pick p (i + 1) xs ++ pick p n ys) e in
      elim (Bool-cases (p i)) [ inl h ↦ rw h (ap (λ l. x ∷ l) ih) | inr h ↦ rw h ih ]

  pick_all :
      (p : ℕ → Bool) (i : ℕ) (xs : List A) → ((j : ℕ) → i ≤ j → p j ≡ true) → pick p i xs ≡ xs
  unfolding pick
  pick_all p i [] h = refl
  pick_all p i (x ∷ xs) h =
      rw (h i (omega arith)) (ap (λ l. x ∷ l) (pick_all p (i + 1) xs (λ j q. h j (omega arith))))

-- Neither loop over groups takes an index out of a selection.
update_mandatory-keeps :
    (gs : List (Bool × List ℕ)) (p : ℕ → Bool) (j : ℕ) → p j ≡ true → update_mandatory gs p j ≡ true
unfolding update_mandatory
update_mandatory-keeps [] p j h = h
update_mandatory-keeps ((true, g) ∷ gs) p j h = update_mandatory-keeps gs (update p g) j (rw h refl)
update_mandatory-keeps ((false, g) ∷ gs) p j h = update_mandatory-keeps gs p j h

-- A choice that grows within the budget.
pub record Grows (max_bytes : ℕ) (c c' : Choice) : Type 0 where
  pub selected : (j : ℕ) → c.selected j ≡ true → c'.selected j ≡ true
  pub bytes : c.bytes ≤ max_bytes → c'.bytes ≤ max_bytes

choose-Grows :
    (max_bytes : ℕ) (sizes : List ℕ) (gs : List (Bool × List ℕ)) (c : Choice)
    → Grows max_bytes c (choose max_bytes sizes gs c)
unfolding choose
choose-Grows max_bytes sizes [] c = record { selected = λ j h. h; bytes = λ h. h }
choose-Grows max_bytes sizes ((true, g) ∷ gs) c = choose-Grows max_bytes sizes gs c
choose-Grows max_bytes sizes ((false, g) ∷ gs) c =
    let candidate =
      c.bytes
      + group_bytes sizes g
      + length g
      - (if ltb 0 (count_selected c.selected 0 sizes) then 0 else 1) in
    elim (Bool-cases (ltb max_bytes candidate)) [
      | inl e ↦ rw e (record { selected = λ j h. h; bytes = λ h. h })
      | inr e ↦
          let c' : Choice = record {
            selected = update c.selected g;
            bytes = candidate;
            chosen = c.chosen + 1;
          } in
          let ih = choose-Grows max_bytes sizes gs c' in
          rw e (record {
            selected = λ j h. ih.selected j (rw h refl);
            bytes = λ h. ih.bytes (ground arith);
          })
    ]

-- What a selection promises.
pub record IsSelection (max_bytes : ℕ) (history current : List Message) (r : ContextSelection)
    : Type 0 where
  pub request : (kept : List Message) × (r.messages ≡ kept ++ current) × Sublist kept history
  pub budget : r.selected_bytes ≤ max_bytes

-- The choice at the end of `select`, from the scan.
abbrev first_selected : List Message → Scan → ℕ → Bool
first_selected history s i = elem i s.protected || leb (length history) i

abbrev first_marked : List Message → Scan → List (Bool × List ℕ)
first_marked history s = mark (first_selected history s) (close_group s).groups

abbrev mandatory : List Message → Scan → ℕ → Bool
mandatory history s = update_mandatory (first_marked history s) (first_selected history s)

abbrev first_choice : List Message → Scan → Choice
first_choice history s = record {
  selected = mandatory history s;
  bytes = byte_count (mandatory history s) s.sizes;
  chosen = 0;
}

abbrev final_choice : ℕ → List Message → Scan → Choice
final_choice max_bytes history s =
    choose max_bytes s.sizes (reverse (first_marked history s)) (first_choice history s)

request_selected :
    (max_bytes : ℕ) (history : List Message) (s : Scan) (j : ℕ)
    → length history ≤ j
    → (final_choice max_bytes history s).selected j ≡ true
request_selected max_bytes history s j h =
    let e : leb (length history) j ≡ true = le→leb (length history) j h in
    let m : first_selected history s j ≡ true = ground arith in
    (choose-Grows max_bytes s.sizes (reverse (first_marked history s))
        (first_choice history s)).selected
      j (update_mandatory-keeps (first_marked history s) (first_selected history s) j m)

conclude_eq :
    (max_bytes : ℕ) (history current : List Message) (s : Scan) (r : ContextSelection)
    → conclude max_bytes history current s ≡ ok r
    → (byte_count (mandatory history s) s.sizes ≤ max_bytes)
      × (r.messages ≡ pick (final_choice max_bytes history s).selected 0 (history ++ current))
      × (r.selected_bytes ≡ (final_choice max_bytes history s).bytes)
unfolding conclude
conclude_eq max_bytes history current s r h = ground arith

conclude-IsSelection :
    (max_bytes : ℕ) (history current : List Message) (s : Scan) (r : ContextSelection)
    → conclude max_bytes history current s ≡ ok r
    → IsSelection max_bytes history current r
conclude-IsSelection max_bytes history current s r h =
    let c = final_choice max_bytes history s in
    let (b, m, e) = conclude_eq max_bytes history current s r h in
    record {
      request = (
        pick c.selected 0 history,
        m
            ∙ pick-append c.selected 0 history current
            ∙ ap (λ l. pick c.selected 0 history ++ l)
                (pick_all c.selected (0 + length history) current
                  (λ j q. request_selected max_bytes history s j (omega arith))),
        pick-Sublist c.selected 0 history,
      );
      budget = rw e (
          (choose-Grows max_bytes s.sizes (reverse (first_marked history s))
              (first_choice history s)).bytes
            b);
    }

-- When select returns, the whole request stands, in its order, at the end of the selected
-- messages, what stands before it are messages of the history in the order of the history, and the
-- size that is reported is within the budget.
pub select-IsSelection :
    (max_bytes : ℕ) (history current : List Message) (encode : Message → Option ℕ)
    (r : ContextSelection)
    → select max_bytes history current encode ≡ ok r
    → IsSelection max_bytes history current r
unfolding select
select-IsSelection max_bytes history current encode r h =
    elim (Result-cases (scan encode (length history) 0 (history ++ current) start)) [
      | inl (e, q) ↦ absurd (ground arith)
      | inr (s, q) ↦ conclude-IsSelection max_bytes history current s r (rw q at h)
    ]
