-- ===== src/Context/Agree/Entries.antt =====
-- Messages with their indices, and what is counted of them in src/agent_runtime/context.py.
use agent_runtime_kit.Context.Stream.{HistoryGroup}
use agent_runtime_kit.Canonical.{Message}
use agent_runtime_kit.Base.{
  Bool, List, Option, [], ap, arith, false, if◌then◌else◌, inl, inr, leb, length, ltb, none, refl,
  some, ℕ, ◌++◌, ◌+◌, ◌<◌, ◌==◌, ◌||◌, ◌∷◌, ◌≡◌, ◌⊎◌,
}
use agent_runtime_kit.Context.Select.{elem}

abbrev pub Entry : Type 0
Entry = ℕ × Message

-- How often an index stands in a list.
abbrev pub occ : ℕ → List Entry → ℕ
occ j [] = 0
occ j (e ∷ es) = (if e.0 == j then 1 else 0) + occ j es

abbrev pub has : ℕ → List Entry → Bool
has j es = ltb 0 (occ j es)

abbrev pub indices : List Entry → List ℕ
indices [] = []
indices (e ∷ es) = e.0 ∷ indices es

-- Those of an index below the history's length.
abbrev pub history_in : ℕ → List Entry → ℕ
history_in hist [] = 0
history_in hist (e ∷ es) = (if leb hist e.0 then 0 else 1) + history_in hist es

-- Whether a current message is among them.
abbrev pub is_mandatory : ℕ → List Entry → Bool
is_mandatory hist [] = false
is_mandatory hist (e ∷ es) = leb hist e.0 || is_mandatory hist es

abbrev pub size_of : (Message → Option ℕ) → Message → ℕ
size_of encode m = elim (encode m) [ none ↦ 0 | some size ↦ size ]

-- The bytes of the messages, each with a comma.
abbrev pub cost : (Message → Option ℕ) → List Entry → ℕ
cost encode [] = 0
cost encode (e ∷ es) = 1 + size_of encode e.1 + cost encode es

abbrev pub concat : List (List Entry) → List Entry
concat [] = []
concat (g ∷ gs) = g ++ concat gs

abbrev pub costs : (Message → Option ℕ) → List (List Entry) → ℕ
costs encode [] = 0
costs encode (g ∷ gs) = cost encode g + costs encode gs

-- The group that a list of entries is, with all of its entries.
abbrev pub group_of : (Message → Option ℕ) → ℕ → List Entry → HistoryGroup
group_of encode hist g = record {
  entries = g;
  cost = cost encode g;
  count = length g;
  history_count = history_in hist g;
  mandatory = is_mandatory hist g;
}

pub occ-append : (j : ℕ) (xs ys : List Entry) → occ j (xs ++ ys) ≡ occ j xs + occ j ys
occ-append j [] ys = omega arith
occ-append j (x ∷ xs) ys = omega (arith, occ-append j xs ys)

pub cost-append :
    (encode : Message → Option ℕ) (xs ys : List Entry)
    → cost encode (xs ++ ys) ≡ cost encode xs + cost encode ys
cost-append encode [] ys = omega arith
cost-append encode (x ∷ xs) ys = omega (arith, cost-append encode xs ys)

pub history_in-append :
    (hist : ℕ) (xs ys : List Entry)
    → history_in hist (xs ++ ys) ≡ history_in hist xs + history_in hist ys
history_in-append hist [] ys = omega arith
history_in-append hist (x ∷ xs) ys = omega (arith, history_in-append hist xs ys)

pub is_mandatory-append :
    (hist : ℕ) (xs ys : List Entry)
    → is_mandatory hist (xs ++ ys) ≡ (is_mandatory hist xs || is_mandatory hist ys)
is_mandatory-append hist [] ys = refl
is_mandatory-append hist (x ∷ xs) ys = ground (arith, is_mandatory-append hist xs ys)

pub indices-append : (xs ys : List Entry) → indices (xs ++ ys) ≡ indices xs ++ indices ys
indices-append [] ys = refl
indices-append (x ∷ xs) ys = ap (λ l. x.0 ∷ l) (indices-append xs ys)

pub elem-indices : (j : ℕ) (xs : List Entry) → elem j (indices xs) ≡ has j xs
unfolding elem
elem-indices j [] = refl
elem-indices j (x ∷ xs) = ground (arith, elem-indices j xs)

pub cost-concat :
    (encode : Message → Option ℕ) (gs : List (List Entry))
    → cost encode (concat gs) ≡ costs encode gs
cost-concat encode [] = refl
cost-concat encode (g ∷ gs) = omega (arith, cost-append encode g (concat gs), cost-concat encode gs)

pub cost_positive :
    (encode : Message → Option ℕ) (xs : List Entry) → (length xs ≡ 0) ⊎ (0 < cost encode xs)
cost_positive encode [] = inl refl
cost_positive encode (x ∷ xs) = inr (omega arith)
