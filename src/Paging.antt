-- ===== src/Paging.antt =====
-- Pages of the searches in src/agent_runtime/memory/postgres.py and
-- src/agent_runtime/feedback/postgres.py: `limit + 1` rows are read from an offset on, and the next
-- offset is given if there is one row more than the limit.
use agent_runtime_kit.Memory.Records.{dropped}
use agent_runtime_kit.Runs.Recover.{limited}
use agent_runtime_kit.Base.{
  List, Option, [], ap, arith, if◌then◌else◌, length, ltb, none, refl, some, suc, zero, ℕ, ◌++◌,
  ◌+◌, ◌∷◌, ◌≡◌, Bool-cases, inl, inr, sym, ◌-◌, ◌<◌, ◌∙◌, ◌≤◌, Bool,
}
use agent_runtime_kit.Errors.{Result, err, ok}

module _ {ℓ} {A : Type ℓ} where
  -- A page of rows: its items and the next offset.
  abbrev pub page_of : ℕ → ℕ → List A → List A × Option ℕ
  page_of limit offset rows = (
    limited limit (limited (limit + 1) (dropped offset rows)),
    if ltb limit (length (limited (limit + 1) (dropped offset rows)))
        then some (offset + limit)
        else none,
  )

  -- A caller that reads pages until one has no next offset, `n` of them at most.
  abbrev pub behind : List A → Option (List A) → Option (List A)
  behind items none = none
  behind items (some rest) = some (items ++ rest)

  abbrev pub turn : Result (List A × Option ℕ) → (ℕ → Option (List A)) → Option (List A)
  turn (err _) read = none
  turn (ok (items, none)) read = some items
  turn (ok (items, some next)) read = behind items (read next)

  abbrev pub follow : ℕ → (ℕ → Result (List A × Option ℕ)) → ℕ → Option (List A)
  follow zero fetch offset = none
  follow (suc n) fetch offset = turn (fetch offset) (follow n fetch)

  limited-dropped : (n : ℕ) (xs : List A) → limited n xs ++ dropped n xs ≡ xs
  unfolding dropped
  limited-dropped zero xs = refl
  limited-dropped (suc n) [] = refl
  limited-dropped (suc n) (x ∷ xs) = ap (λ l. x ∷ l) (limited-dropped n xs)

  dropped_nil : (n : ℕ) → dropped {A = A} n [] ≡ []
  unfolding dropped
  dropped_nil zero = refl
  dropped_nil (suc n) = refl

  dropped_add : (m n : ℕ) (xs : List A) → dropped (m + n) xs ≡ dropped n (dropped m xs)
  unfolding dropped
  dropped_add zero n xs = let z : 0 + n ≡ n = omega arith in rw z refl
  dropped_add (suc m) n [] = dropped_nil (suc m + n) ∙ sym (dropped_nil n)
  dropped_add (suc m) n (x ∷ xs) =
      let z : suc m + n ≡ suc (m + n) = omega arith in rw z (dropped_add m n xs)

  limited-limited : (n : ℕ) (xs : List A) → limited n (limited (n + 1) xs) ≡ limited n xs
  limited-limited zero xs = refl
  limited-limited (suc n) [] = let z : suc n + 1 ≡ suc (n + 1) = omega arith in rw z refl
  limited-limited (suc n) (x ∷ xs) =
      let z : suc n + 1 ≡ suc (n + 1) = omega arith in rw z (ap (λ l. x ∷ l) (limited-limited n xs))

  more-limited : (n : ℕ) (xs : List A) → ltb n (length (limited (n + 1) xs)) ≡ ltb n (length xs)
  more-limited zero [] = refl
  more-limited zero (x ∷ xs) = ground arith
  more-limited (suc n) [] = let z : suc n + 1 ≡ suc (n + 1) = omega arith in rw z refl
  more-limited (suc n) (x ∷ xs) =
      let z : suc n + 1 ≡ suc (n + 1) = omega arith in rw z (ground (arith, more-limited n xs))

  limited_short : (n : ℕ) (xs : List A) → length xs ≤ n → limited n xs ≡ xs
  limited_short zero [] h = refl
  limited_short zero (x ∷ xs) h = absurd (omega arith)
  limited_short (suc n) [] h = refl
  limited_short (suc n) (x ∷ xs) h = ap (λ l. x ∷ l) (limited_short n xs (omega arith))

  length-dropped : (n : ℕ) (xs : List A) → length (dropped n xs) ≡ length xs - n
  unfolding dropped
  length-dropped zero xs = omega arith
  length-dropped (suc n) [] = omega arith
  length-dropped (suc n) (x ∷ xs) = omega (arith, length-dropped n xs)

  -- Following the next offsets gives all rows from the first offset on.
  pub follow-page_of :
      (n limit offset : ℕ) (rows : List A)
      → 0 < limit
      → length rows < n + offset
      → 0 < n
      → follow n (λ o. ok (page_of limit o rows)) offset ≡ some (dropped offset rows)
  follow-page_of zero limit offset rows l h p = absurd (omega arith)
  follow-page_of (suc n) limit offset rows l h p =
      let rest = dropped offset rows in
      let q = length-dropped offset rows in
      let read = follow n (λ o. ok (page_of limit o rows)) in
      let next = λ (b : Bool). if b then some (offset + limit) else none in
      let page : turn (ok (page_of limit offset rows)) read
          ≡ turn (ok (limited limit rest, next (ltb limit (length rest)))) read =
        ap
          (λ (items : List A).
            turn (ok (items, next (ltb limit (length (limited (limit + 1) rest))))) read)
          (limited-limited limit rest)
        ∙ ap (λ (b : Bool). turn (ok (limited limit rest, next b)) read)
            (more-limited limit rest) in
      elim (Bool-cases (ltb limit (length rest))) [
        | inl e ↦
            let ih = follow-page_of n limit (offset + limit) rows l (omega arith) (ground arith) in
            page
            ∙ ap (λ (b : Bool). turn (ok (limited limit rest, next b)) read) e
            ∙ ap (behind (limited limit rest)) (ih ∙ ap some (dropped_add offset limit rows))
            ∙ ap some (limited-dropped limit rest)
        | inr e ↦
            page
            ∙ ap (λ (b : Bool). turn (ok (limited limit rest, next b)) read) e
            ∙ ap some (limited_short limit rest (ground arith))
      ]
