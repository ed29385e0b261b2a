-- ===== src/Http/Events.antt =====
-- Events that a server sends, as src/agent_runtime/models_clients/_http.py reads them. `encode` gives
-- the bytes of a text.
use agent_runtime_kit.Http.{
  Bytes, Progress, Reading, cut, going, max_event_bytes, sse_data, take_lines, take_line,
  data_field, joined, rstrip, dispatched, push, without_space, check_rest, ended,
  max_response_bytes, then_go,
}
use agent_runtime_kit.Http.Chunks.{
  IsFree, joined_bytes, lines_and_rest, sse_data-one, take_chunk-lines,
}
use agent_runtime_kit.Errors.{Result, ok}
use agent_runtime_kit.Base.{
  All, List, [], ap, arith, false, length, ltb, refl, ℕ, ◌++◌, ◌+◌, ◌<◌, ◌∙◌, ◌∷◌, ◌≡◌, ◌≤◌, Bool,
  append-nil, append_assoc, if◌then◌else◌, is_empty, length-append, none, sym,
}

-- The lines, each with its end.
abbrev pub with_ends : List Bytes → Bytes
with_ends [] = []
with_ends (line ∷ lines) = line ++ 10 ∷ with_ends lines

module _ (encode : Bytes → Bytes) where
  -- `data: ` and the text.
  abbrev pub data_line : Bytes → Bytes
  data_line f = 100 ∷ 97 ∷ 116 ∷ 97 ∷ 58 ∷ 32 ∷ encode f

  -- An event is sent as a line for each of its fields and an empty line.
  abbrev pub event_lines : List Bytes → List Bytes
  event_lines [] = [] ∷ []
  event_lines (f ∷ fs) = data_line f ∷ event_lines fs

  abbrev pub stream_lines : List (List Bytes) → List Bytes
  stream_lines [] = []
  stream_lines (e ∷ es) = event_lines e ++ stream_lines es

  abbrev pub event_size : List Bytes → ℕ
  event_size [] = 1
  event_size (f ∷ fs) = length (data_line f) + 1 + event_size fs

abbrev pub texts : List (List Bytes) → List Bytes
texts [] = []
texts (e ∷ es) = joined e ∷ texts es

-- A field that fits on a line: without an end of line in it or a return at its end, and decoded as it
-- was encoded.
pub record IsField (encode : Bytes → Bytes) (decode : Bytes → Result Bytes) (f : Bytes)
    : Type 0 where
  pub free : IsFree (encode f)
  pub stripped : rstrip (data_line encode f) ≡ data_line encode f
  pub decoded : decode (data_line encode f) ≡ ok (100 ∷ 97 ∷ 116 ∷ 97 ∷ 58 ∷ 32 ∷ f)

pub record IsEvent (encode : Bytes → Bytes) (decode : Bytes → Result Bytes) (e : List Bytes)
    : Type 0 where
  pub fields : All (IsField encode decode) e
  pub some_field : 0 < length e
  pub small : event_size encode e ≤ max_event_bytes

not_empty : (fs : List Bytes) → 0 < length fs → is_empty fs ≡ false
not_empty [] h = absurd (omega arith)
not_empty (f ∷ fs) h = refl

cut-line :
    (line rest : Bytes)
    → IsFree line
    → cut (line ++ 10 ∷ rest) ≡ (line ∷ (cut rest).0, (cut rest).1)
unfolding cut
cut-line [] rest h = refl
cut-line (b ∷ bs) rest h = rw h.0 (ap (push b) (cut-line bs rest h.1))

cut-with_ends : (lines : List Bytes) → All IsFree lines → cut (with_ends lines) ≡ (lines, [])
unfolding cut
cut-with_ends [] h = refl
cut-with_ends (line ∷ lines) h =
    cut-line line (with_ends lines) h.0
    ∙ ap (λ (p : List Bytes × Bytes). (line ∷ p.0, p.1)) (cut-with_ends lines h.1)

module _ (encode : Bytes → Bytes) (decode : Bytes → Result Bytes) where
  event_lines-IsFree :
      (e : List Bytes) (rest : List Bytes)
      → All (IsField encode decode) e
      → All IsFree rest
      → All IsFree (event_lines encode e ++ rest)
  event_lines-IsFree [] rest h k = (tt, k)
  event_lines-IsFree (f ∷ fs) rest h k =
      ((refl, (refl, (refl, (refl, (refl, (refl, h.0.free)))))), event_lines-IsFree fs rest h.1 k)

  stream_lines-IsFree :
      (es : List (List Bytes))
      → All (IsEvent encode decode) es
      → All IsFree (stream_lines encode es)
  stream_lines-IsFree [] h = tt
  stream_lines-IsFree (e ∷ es) h =
      event_lines-IsFree e (stream_lines encode es) h.0.fields (stream_lines-IsFree es h.1)

  take_field :
      (f : Bytes) (r : Reading)
      → IsField encode decode f
      → r.event_bytes + (length (data_line encode f) + 1) ≤ max_event_bytes
      → take_line decode (data_line encode f) r
        ≡ going (record r {
          fields = r.fields ++ f ∷ [];
          event_bytes = r.event_bytes + (length (data_line encode f) + 1);
        })
  unfolding take_line data_field without_space
  take_field f r h l =
      let e : ltb max_event_bytes (r.event_bytes + (length (data_line encode f) + 1)) ≡ false =
        ground arith in
      rw (e, h.stripped, h.decoded) refl

  take_blank :
      (r : Reading)
      → decode [] ≡ ok []
      → r.event_bytes + 1 ≤ max_event_bytes
      → take_line decode [] r ≡ going (dispatched (record r { event_bytes = r.event_bytes + 1 }))
  unfolding take_line rstrip
  take_blank r d l =
      let e : ltb max_event_bytes (r.event_bytes + (0 + 1)) ≡ false = ground arith in rw (e, d) refl

  take_event :
      (e rest : List Bytes) (r : Reading)
      → decode [] ≡ ok []
      → All (IsField encode decode) e
      → r.event_bytes + event_size encode e ≤ max_event_bytes
      → 0 < length (r.fields ++ e)
      → take_lines decode (event_lines encode e ++ rest) r
        ≡ take_lines decode rest (record {
          fields = [];
          event_bytes = 0;
          events = r.events ++ joined (r.fields ++ e) ∷ [];
        })
  unfolding take_lines
  take_event [] rest r d h l p =
      let e : is_empty r.fields ≡ false =
        not_empty r.fields (omega (arith, p, length-append r.fields [])) in
      ap (λ (q : Progress Reading). then_go q (take_lines decode rest)) (take_blank r d l)
      ∙ ap
          (λ (b : Bool). take_lines decode rest (record {
            fields = [];
            event_bytes = 0;
            events = if b then r.events else r.events ++ joined r.fields ∷ [];
          }))
          e
      ∙ ap
          (λ (fs : List Bytes).
            take_lines decode rest
              (record { fields = []; event_bytes = 0; events = r.events ++ joined fs ∷ [] }))
          (sym (append-nil r.fields))
  take_event (f ∷ fs) rest r d h l p =
      let r' : Reading = record r {
        fields = r.fields ++ f ∷ [];
        event_bytes = r.event_bytes + (length (data_line encode f) + 1);
      } in
      let a = append_assoc r.fields (f ∷ []) fs in
      let p' : 0 < length ((r.fields ++ f ∷ []) ++ fs) =
        omega (arith, length-append (r.fields ++ f ∷ []) fs, length-append r.fields (f ∷ [])) in
      ap (λ (q : Progress Reading). then_go q (take_lines decode (event_lines encode fs ++ rest)))
        (take_field f r h.0 (omega arith))
      ∙ take_event fs rest r' d h.1 (omega arith) p'
      ∙ ap
          (λ (gs : List Bytes).
            take_lines decode rest
              (record { fields = []; event_bytes = 0; events = r.events ++ joined gs ∷ [] }))
          a

  take_events :
      (es : List (List Bytes)) (events : List Bytes)
      → decode [] ≡ ok []
      → All (IsEvent encode decode) es
      → take_lines decode
          (stream_lines encode es)
          (record { fields = []; event_bytes = 0; events = events })
        ≡ going (record { fields = []; event_bytes = 0; events = events ++ texts es })
  unfolding take_lines
  take_events [] events d h =
      ap (λ (l : List Bytes). going (record { fields = []; event_bytes = 0; events = l }))
        (sym (append-nil events))
  take_events (e ∷ es) events d h =
      take_event e (stream_lines encode es)
        (record { fields = []; event_bytes = 0; events = events }) d h.0.fields
        (omega (arith, h.0.small)) h.0.some_field
      ∙ take_events es (events ++ joined e ∷ []) d h.1
      ∙ ap (λ (l : List Bytes). going (record { fields = []; event_bytes = 0; events = l }))
          (append_assoc events (joined e ∷ []) (texts es))

-- When the decoder takes back the lines that are sent, a stream of events that are within the
-- limit on events, and each of at least one field whose bytes hold no end of line and do not end
-- in a return, is read, in whatever chunks it comes and within the limit on responses, as the
-- events that were sent, in order, and ends without an error.
pub sse_data_sent :
    (encode : Bytes → Bytes) (decode : Bytes → Result Bytes) (es : List (List Bytes))
    (chunks : List Bytes)
    → decode [] ≡ ok []
    → All (IsEvent encode decode) es
    → joined_bytes chunks ≡ with_ends (stream_lines encode es)
    → length (joined_bytes chunks) ≤ max_response_bytes
    → sse_data decode chunks ≡ (texts es, none)
sse_data_sent encode decode es chunks d h e l =
    let start : Reading = record { fields = []; event_bytes = 0; events = [] } in
    let c =
      ap cut e ∙ cut-with_ends (stream_lines encode es) (stream_lines-IsFree encode decode es h) in
    sse_data-one decode chunks l
    ∙ ap (ended decode) (
        take_chunk-lines decode (joined_bytes chunks) start []
        ∙ ap (lines_and_rest decode start) c
        ∙ ap (λ (q : Progress Reading). then_go q (check_rest decode []))
            (take_events encode decode es [] d h))
