-- ===== src/Streams/Terminal.antt =====
-- The contract of `checked_stream` in src/agent_runtime/_streams.py.
use agent_runtime_kit.Base.{
  All, Bool-cases, inl, inr, Bool, List, Option, [], ap, false, none, refl, some, true, ◌++◌, ◌∷◌,
  ◌≡◌, ◌⊎◌,
}
use agent_runtime_kit.Streams.{check_from, Stream, checked_stream, emit}
use agent_runtime_kit.Errors.{Error}

-- An event that is not the completed one.
abbrev pub IsPlain {ℓ} : {E : Type ℓ} → (E → Bool) → E → Type 0
IsPlain is_completed e = is_completed e ≡ false

-- The stream is its source, which has ended normally, and its only completed event is its last one.
pub record IsComplete {ℓ} {E : Type ℓ} (is_completed : E → Bool) (source checked : Stream E)
    : Type ℓ where
  pub ended : checked.failure ≡ none
  pub source_ended : source.failure ≡ none
  pub events : checked.events ≡ source.events
  pub before : List E
  pub last : E
  pub shape : checked.events ≡ before ++ last ∷ []
  pub completed : is_completed last ≡ true
  pub plain : All (IsPlain is_completed) before

-- The stream fails, and no completed event is among its events.
pub record IsBroken {ℓ} {E : Type ℓ} (is_completed : E → Bool) (checked : Stream E) : Type ℓ where
  pub error : Error
  pub failed : checked.failure ≡ some error
  pub plain : All (IsPlain is_completed) checked.events

abbrev pub IsChecked {ℓ} : {E : Type ℓ} → (E → Bool) → Stream E → Stream E → Type ℓ
IsChecked is_completed source checked =
    IsComplete is_completed source checked ⊎ IsBroken is_completed checked

module _ {ℓ} {E : Type ℓ} (is_completed : E → Bool) (failure : Error) where
  withheld :
      (t : E) (xs : List E) (end : Option Error)
      → is_completed t ≡ true
      → IsChecked is_completed
          (record { events = t ∷ xs; failure = end })
          (check_from is_completed failure (some t) xs end)
  unfolding check_from
  withheld t [] none h = inl (record {
    ended = refl;
    source_ended = refl;
    events = refl;
    before = [];
    last = t;
    shape = refl;
    completed = h;
    plain = tt;
  })
  withheld t [] (some e) h = inr (record { error = e; failed = refl; plain = tt })
  withheld t (x ∷ xs) none h = inr (record { error = failure; failed = refl; plain = tt })
  withheld t (x ∷ xs) (some e) h = inr (record { error = failure; failed = refl; plain = tt })

  passed_on :
      (x : E) (source checked : Stream E)
      → is_completed x ≡ false
      → IsChecked is_completed source checked
      → IsChecked is_completed (emit x source) (emit x checked)
  passed_on x source checked p (inl c) = inl (record {
    ended = c.ended;
    source_ended = c.source_ended;
    events = ap (λ l. x ∷ l) c.events;
    before = x ∷ c.before;
    last = c.last;
    shape = ap (λ l. x ∷ l) c.shape;
    completed = c.completed;
    plain = (p, c.plain);
  })
  passed_on x source checked p (inr c) =
      inr (record { error = c.error; failed = c.failed; plain = (p, c.plain) })

  check_from-IsChecked :
      (xs : List E) (end : Option Error)
      → IsChecked is_completed
          (record { events = xs; failure = end })
          (check_from is_completed failure none xs end)
  unfolding check_from
  check_from-IsChecked [] none = inr (record { error = failure; failed = refl; plain = tt })
  check_from-IsChecked [] (some e) = inr (record { error = e; failed = refl; plain = tt })
  check_from-IsChecked (x ∷ xs) none = elim (Bool-cases (is_completed x)) [
    | inl h ↦ rw (h, check_from) (withheld x xs none h)
    | inr h ↦
        rw (h, check_from)
          (passed_on x (record { events = xs; failure = none })
            (check_from is_completed failure none xs none) h (check_from-IsChecked xs none))
  ]
  check_from-IsChecked (x ∷ xs) (some f) = elim (Bool-cases (is_completed x)) [
    | inl h ↦ rw (h, check_from) (withheld x xs (some f) h)
    | inr h ↦
        rw (h, check_from)
          (passed_on x (record { events = xs; failure = (some f) })
            (check_from is_completed failure none xs (some f)) h (check_from-IsChecked xs (some f)))
  ]

  -- A checked stream either ends normally, and then its source has ended normally with exactly one
  -- completed event, behind all others, and it yields just the events of the source; or it fails,
  -- and then it has yielded no completed event.
  pub checked_stream-IsChecked :
      (source : Stream E)
      → IsChecked is_completed source (checked_stream is_completed failure source)
  unfolding checked_stream
  checked_stream-IsChecked source = check_from-IsChecked source.events source.failure
