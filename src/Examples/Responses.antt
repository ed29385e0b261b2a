-- ===== src/Examples/Responses.antt =====
-- Responses of src/agent_runtime/models_clients/_http.py whose texts are their own bytes.
use agent_runtime_kit.Http
use agent_runtime_kit.Http.{
  Bytes, read_body, sse_data, cut, data_field, joined, rstrip, take_chunk, take_chunks, take_line,
  take_lines, without_space,
}
use agent_runtime_kit.Http.Chunks.{joined_bytes, sse_data_rechunked}
use agent_runtime_kit.Http.Events.{IsEvent, sse_data_sent, texts}
use agent_runtime_kit.Http.Body.{read_body_bound}
use agent_runtime_kit.Errors.{Result, ok}
use agent_runtime_kit.Base.{List, [], arith, none, refl, ◌∷◌, ◌≡◌}

abbrev plain : Bytes → Result Bytes
plain bs = ok bs

abbrev same_bytes : Bytes → Bytes
same_bytes bs = bs

-- `data: hi`, with an empty line behind it, in three chunks and in one.
abbrev pieces : List Bytes
pieces = (100 ∷ 97 ∷ 116 ∷ []) ∷ (97 ∷ 58 ∷ 32 ∷ 104 ∷ 105 ∷ 10 ∷ []) ∷ (10 ∷ []) ∷ []

abbrev whole : List Bytes
whole = joined_bytes pieces ∷ []

reads_pieces : sse_data plain pieces ≡ ((104 ∷ 105 ∷ []) ∷ [], none)
unfolding sse_data Http.take_chunks Http.take_chunk Http.take_lines Http.take_line Http.cut
    Http.rstrip Http.joined Http.data_field Http.without_space
reads_pieces = refl

sse_data_rechunked_example : sse_data plain pieces ≡ sse_data plain whole
sse_data_rechunked_example = sse_data_rechunked plain pieces whole refl (omega arith)

abbrev hi : List Bytes
hi = (104 ∷ 105 ∷ []) ∷ []

hi-IsEvent : IsEvent same_bytes plain hi
unfolding Http.rstrip
hi-IsEvent = record {
  fields = (record { free = (refl, (refl, tt)); stripped = refl; decoded = refl }, tt);
  some_field = omega arith;
  small = omega arith;
}

sse_data_sent_example : sse_data plain pieces ≡ (texts (hi ∷ []), none)
unfolding Http.joined
sse_data_sent_example =
    sse_data_sent same_bytes plain (hi ∷ []) pieces refl (hi-IsEvent, tt) refl (omega arith)

read_body_bound_example : read_body [] pieces ≡ ok (joined_bytes pieces)
read_body_bound_example = read_body_bound pieces
