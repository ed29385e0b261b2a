-- ===== src/Streams.antt =====
-- src/agent_runtime/_streams.py: `checked_stream`, with what a consumer sees of it: the events that it
-- yields, and whether it ends normally. A source is the list of its events and how it ends.
pub mod Terminal
use agent_runtime_kit.Errors.{Error}
use agent_runtime_kit.Base.{Bool, List, Option, [], false, none, some, true, ◌∷◌}

-- What an asynchronous iterator gives its consumer: events, and then the end or an error.
pub record Stream {ℓ} (E : Type ℓ) : Type ℓ where
  pub events : List E
  pub failure : Option Error

abbrev pub emit {ℓ} : {E : Type ℓ} → E → Stream E → Stream E
emit e s = record { events = e ∷ s.events; failure = s.failure }

abbrev pub stop {ℓ} : {E : Type ℓ} → Option Error → Stream E
stop e = record { events = []; failure = e }

module _ {ℓ} {E : Type ℓ} (is_completed : E → Bool) (failure : Error) where
  -- Behind the loop: the withheld event, if there is one.
  abbrev release : Option E → Stream E
  release none = stop (some failure)
  release (some e) = record { events = e ∷ []; failure = none }

  -- The loop; `terminal` is the completed event that is withheld.
  unfoldable pub check_from : Option E → List E → Option Error → Stream E
  check_from terminal [] none = release terminal
  check_from terminal [] (some e) = stop (some e)
  check_from none (x ∷ xs) end = elim (is_completed x) [
    | true ↦ check_from (some x) xs end
    | false ↦ emit x (check_from none xs end)
  ]
  check_from (some t) (x ∷ xs) end = stop (some failure)

  unfoldable pub checked_stream : Stream E → Stream E
  unfolding check_from
  checked_stream source = check_from none source.events source.failure
