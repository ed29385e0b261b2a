-- ===== src/Http/Chunks.antt =====
-- The chunks of src/agent_runtime/models_clients/_http.py: where they are cut does not matter.
use agent_runtime_kit.Http.{
  Bytes, Progress, Reading, check_rest, cut, going, max_event_bytes, max_response_bytes, raised,
  sse_data, take_chunk, take_chunks, take_lines, then_go, push, take_line, ended,
}
use agent_runtime_kit.Base.{
  Bool-cases, List, [], inl, inr, refl, ◌++◌, ◌==◌, ◌∷◌, ◌≡◌, All, ap, arith, false, length, ltb,
  sym, true, ℕ, ◌+◌, ◌∙◌, append-nil, append_assoc, length-append, subst, ◌≤◌,
}
use agent_runtime_kit.Errors.{Error, Result}

abbrev pub joined_bytes : List Bytes → Bytes
joined_bytes [] = []
joined_bytes (c ∷ cs) = c ++ joined_bytes cs

-- The lines of a longer buffer.
abbrev cut_more : List Bytes × Bytes → List Bytes × Bytes → List Bytes × Bytes
cut_more (lines, rest) (more, last) = (lines ++ more, last)

push_more :
    (x : ℕ) (p : List Bytes × Bytes) (ys : Bytes)
    → (x == 10) ≡ false
    → push x (cut_more p (cut (p.1 ++ ys))) ≡ cut_more (push x p) (cut ((push x p).1 ++ ys))
unfolding cut
push_more x ([], rest) ys e = rw e refl
push_more x (line ∷ lines, rest) ys e = refl

-- A buffer that is cut goes on with what is left of it.
cut-append : (xs ys : Bytes) → cut (xs ++ ys) ≡ cut_more (cut xs) (cut ((cut xs).1 ++ ys))
unfolding cut
cut-append [] ys = refl
cut-append (x ∷ xs) ys = elim (Bool-cases (x == 10)) [
  | inl e ↦ rw e (ap (λ (p : List Bytes × Bytes). ([] ∷ p.0, p.1)) (cut-append xs ys))
  | inr e ↦ rw e (ap (push x) (cut-append xs ys) ∙ push_more x (cut xs) ys e)
]

-- Bytes without an end of line.
abbrev pub IsFree : Bytes → Type 0
IsFree xs = All (λ b. (b == 10) ≡ false) xs

push-IsFree :
    (x : ℕ) (p : List Bytes × Bytes) → (x == 10) ≡ false → IsFree p.1 → IsFree (push x p).1
push-IsFree x ([], rest) e h = (e, h)
push-IsFree x (line ∷ lines, rest) e h = h

cut-IsFree : (xs : Bytes) → IsFree (cut xs).1
unfolding cut
cut-IsFree [] = tt
cut-IsFree (x ∷ xs) = elim (Bool-cases (x == 10)) [
  | inl e ↦ rw e (cut-IsFree xs)
  | inr e ↦ rw e (push-IsFree x (cut xs) e (cut-IsFree xs))
]

pub cut_free : (xs : Bytes) → IsFree xs → cut xs ≡ ([], xs)
unfolding cut
cut_free [] h = refl
cut_free (x ∷ xs) h = rw h.0 (ap (push x) (cut_free xs h.1))

-- The length of the first line, or of what is left where no line is complete.
abbrev first_length : List Bytes × Bytes → ℕ
first_length ([], rest) = length rest
first_length (line ∷ lines, rest) = length line

first_length-push : (x : ℕ) (p : List Bytes × Bytes) → first_length (push x p) ≡ 1 + first_length p
first_length-push x ([], rest) = omega arith
first_length-push x (line ∷ lines, rest) = omega arith

first_length-cut :
    (xs ys : Bytes) → IsFree xs → first_length (cut (xs ++ ys)) ≡ length xs + first_length (cut ys)
unfolding cut
first_length-cut [] ys h = omega arith
first_length-cut (x ∷ xs) ys h =
    rw h.0 (omega (arith, first_length-push x (cut (xs ++ ys)), first_length-cut xs ys h.1))

then_go_assoc {ℓ κ μ} :
    {A : Type ℓ} {B : Type κ} {C : Type μ} (p : Progress A) (f : A → Progress B)
    (g : B → Progress C)
    → then_go (then_go p f) g ≡ then_go p (λ a. then_go (f a) g)
then_go_assoc (going a) f g = refl
then_go_assoc (raised events e) f g = refl

module _ (decode : Bytes → Result Bytes) where
  take_lines-append :
      (ls ms : List Bytes) (r : Reading)
      → take_lines decode (ls ++ ms) r ≡ then_go (take_lines decode ls r) (take_lines decode ms)
  unfolding take_lines
  take_lines-append [] ms r = refl
  take_lines-append (l ∷ ls) ms r =
      ap (then_go (take_line decode l r)) (λ i r'. take_lines-append ls ms r' i)
      ∙ sym (then_go_assoc (take_line decode l r) (take_lines decode ls) (take_lines decode ms))

  abbrev pub lines_and_rest : Reading → List Bytes × Bytes → Progress (Reading × Bytes)
  lines_and_rest r (lines, rest) = then_go (take_lines decode lines r) (check_rest decode rest)

  overlong :
      (r : Reading) (p : List Bytes × Bytes)
      → ltb max_event_bytes (r.event_bytes + first_length p) ≡ true
      → lines_and_rest r p ≡ raised r.events (Error.provider_failure false)
  unfolding take_lines take_line
  overlong r ([], rest) h = rw h refl
  overlong r (line ∷ lines, rest) h =
      let e : ltb max_event_bytes (r.event_bytes + (length line + 1)) ≡ true = ground arith in
      rw e refl

  next_chunk :
      (r : Reading) (rest d : Bytes)
      → IsFree rest
      → then_go (check_rest decode rest r) (λ p. take_chunk decode d p.0 p.1)
        ≡ lines_and_rest r (cut (rest ++ d))
  unfolding take_chunk
  next_chunk r rest d f = elim (Bool-cases (ltb max_event_bytes (r.event_bytes + length rest))) [
    | inl e ↦
        let l = first_length-cut rest d f in
        rw e (sym (overlong r (cut (rest ++ d)) (ground arith)))
    | inr e ↦ rw e refl
  ]

  pub take_chunk-lines :
      (c : Bytes) (r : Reading) (buffer : Bytes)
      → take_chunk decode c r buffer ≡ lines_and_rest r (cut (buffer ++ c))
  unfolding take_chunk
  take_chunk-lines c r buffer = refl

  lines_and_rest-more :
      (r : Reading) (p : List Bytes × Bytes) (d : Bytes)
      → IsFree p.1
      → then_go (lines_and_rest r p) (λ q. take_chunk decode d q.0 q.1)
        ≡ lines_and_rest r (cut_more p (cut (p.1 ++ d)))
  lines_and_rest-more r (lines, rest) d f =
      let more = (cut (rest ++ d)).0 in
      let last = (cut (rest ++ d)).1 in
      then_go_assoc (take_lines decode lines r) (check_rest decode rest)
        (λ q. take_chunk decode d q.0 q.1)
      ∙ ap (then_go (take_lines decode lines r)) (λ i r'. next_chunk r' rest d f i)
      ∙ sym (
          then_go_assoc (take_lines decode lines r) (take_lines decode more)
            (check_rest decode last))
      ∙ ap (λ p. then_go p (check_rest decode last)) (sym (take_lines-append lines more r))

  -- Two chunks in turn are as one.
  take_chunk-append :
      (c d : Bytes) (r : Reading) (buffer : Bytes)
      → then_go (take_chunk decode c r buffer) (λ q. take_chunk decode d q.0 q.1)
        ≡ take_chunk decode (c ++ d) r buffer
  take_chunk-append c d r buffer =
      ap (λ p. then_go p (λ q. take_chunk decode d q.0 q.1)) (take_chunk-lines c r buffer)
      ∙ lines_and_rest-more r (cut (buffer ++ c)) d (cut-IsFree (buffer ++ c))
      ∙ ap (lines_and_rest r) (sym (cut-append (buffer ++ c) d) ∙ ap cut (append_assoc buffer c d))
      ∙ sym (take_chunk-lines (c ++ d) r buffer)

  -- A state between two chunks.
  abbrev Settled : Progress (Reading × Bytes) → Type 0
  Settled (going (r, buffer)) =
      IsFree buffer × (ltb max_event_bytes (r.event_bytes + length buffer) ≡ false)
  Settled (raised events e) = Unit

  check_rest-Settled :
      (r : Reading) (rest : Bytes) → IsFree rest → Settled (check_rest decode rest r)
  check_rest-Settled r rest f =
      elim (Bool-cases (ltb max_event_bytes (r.event_bytes + length rest))) [
        | inl e ↦ rw e tt
        | inr e ↦ rw e (f, e)
      ]

  then_go-Settled :
      (p : Progress Reading) (rest : Bytes)
      → IsFree rest
      → Settled (then_go p (check_rest decode rest))
  then_go-Settled (going r) rest f = check_rest-Settled r rest f
  then_go-Settled (raised events e) rest f = tt

  take_chunk-Settled :
      (c : Bytes) (r : Reading) (buffer : Bytes) → Settled (take_chunk decode c r buffer)
  unfolding take_chunk
  take_chunk-Settled c r buffer =
      then_go-Settled (take_lines decode (cut (buffer ++ c)).0 r) (cut (buffer ++ c)).1
        (cut-IsFree (buffer ++ c))

  take_nothing :
      (r : Reading) (buffer : Bytes)
      → Settled (going (r, buffer))
      → take_chunk decode [] r buffer ≡ going (r, buffer)
  unfolding take_lines
  take_nothing r buffer (f, e) =
      take_chunk-lines [] r buffer
      ∙ ap (lines_and_rest r) (ap cut (append-nil buffer) ∙ cut_free buffer f)
      ∙ rw e refl

  take_chunks_go :
      (total : ℕ) (cs : List Bytes) (p : Progress (Reading × Bytes))
      → Settled p
      → ((r : Reading) (b : Bytes)
          → Settled (going (r, b))
          → take_chunks decode total cs (r, b) ≡ take_chunk decode (joined_bytes cs) r b)
      → then_go p (take_chunks decode total cs)
        ≡ then_go p (λ q. take_chunk decode (joined_bytes cs) q.0 q.1)
  take_chunks_go total cs (going (r, b)) s h = h r b s
  take_chunks_go total cs (raised events e) s h = refl

  take_chunks-joined :
      (total : ℕ) (cs : List Bytes) (r : Reading) (buffer : Bytes)
      → total + length (joined_bytes cs) ≤ max_response_bytes
      → Settled (going (r, buffer))
      → take_chunks decode total cs (r, buffer) ≡ take_chunk decode (joined_bytes cs) r buffer
  unfolding take_chunks
  take_chunks-joined total [] r buffer h s = sym (take_nothing r buffer s)
  take_chunks-joined total (c ∷ cs) r buffer h s =
      let l = length-append c (joined_bytes cs) in
      let e : ltb max_response_bytes (total + length c) ≡ false = ground arith in
      let ih = λ (r' : Reading) (b' : Bytes) (s' : Settled (going (r', b'))).
        take_chunks-joined (total + length c) cs r' b' (omega arith) s' in
      rw e (
        take_chunks_go (total + length c) cs (take_chunk decode c r buffer)
          (take_chunk-Settled c r buffer) ih
        ∙ take_chunk-append c (joined_bytes cs) r buffer)

  pub sse_data-one :
      (cs : List Bytes)
      → length (joined_bytes cs) ≤ max_response_bytes
      → sse_data decode cs
        ≡ ended decode (
            take_chunk decode
              (joined_bytes cs)
              (record { fields = []; event_bytes = 0; events = [] })
              [])
  unfolding sse_data
  sse_data-one cs h = ap (ended decode) (
      take_chunks-joined 0 cs (record { fields = []; event_bytes = 0; events = [] }) []
        (omega arith) (tt, ground arith))

-- Two responses of the same bytes, of no more bytes than the limit on responses, give the same
-- events and the same end or error, however their bytes are cut into chunks.
pub sse_data_rechunked :
    (decode : Bytes → Result Bytes) (cs ds : List Bytes)
    → joined_bytes cs ≡ joined_bytes ds
    → length (joined_bytes cs) ≤ max_response_bytes
    → sse_data decode cs ≡ sse_data decode ds
sse_data_rechunked decode cs ds e h =
    sse_data-one decode cs h
    ∙ ap
        (λ (bs : Bytes).
          ended decode
            (take_chunk decode bs (record { fields = []; event_bytes = 0; events = [] }) []))
        e
    ∙ sym (sse_data-one decode ds (subst (λ (bs : Bytes). length bs ≤ max_response_bytes) e h))
