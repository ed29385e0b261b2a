-- ===== src/Http.antt =====
-- src/agent_runtime/models_clients/_http.py: the bounded body of a response and the decoding of
-- server-sent events. Bytes and characters are numbers; the decoding of UTF-8 and the parsing of JSON
-- are parameters.
pub mod Chunks
pub mod Events
pub mod Body
use agent_runtime_kit.Errors.{Error, Result, err, ok, ◌>>=◌}
use agent_runtime_kit.Base.{
  List, Option, [], false, if◌then◌else◌, is_empty, leb, length, ltb, none, some, true, ℕ, ◌&&◌,
  ◌++◌, ◌+◌, ◌==◌, ◌||◌, ◌∷◌,
}

abbrev pub Bytes : Type 0
Bytes = List ℕ

abbrev pub max_response_bytes : ℕ
max_response_bytes = 8388608

abbrev pub max_event_bytes : ℕ
max_event_bytes = 262144

-- `request_failure`: the kinds of its exception, with the status of a response.
pub data Failure : Type 0 where
  transport other : Failure
  status : ℕ → Failure

unfoldable pub request_failure : Failure → Error
request_failure Failure.transport = Error.provider_failure true
request_failure Failure.other = Error.provider_failure false
request_failure (Failure.status n) =
    Error.provider_failure (n == 408 || n == 409 || n == 429 || (leb 500 n && ltb n 600))

-- The loop of `response_json` over the chunks.
unfoldable pub read_body : Bytes → List Bytes → Result Bytes
read_body body [] = ok body
read_body body (chunk ∷ chunks) =
    let rest = read_body (body ++ chunk) chunks in
    if ltb max_response_bytes (length body + length chunk)
    then err (Error.provider_failure false)
    else rest

-- `response_json` behind the status
unfoldable pub response_json {ℓ} : {A : Type ℓ} → (Bytes → Result A) → List Bytes → Result A
response_json loads chunks = read_body [] chunks >>= loads

-- The loop `while b"\n" in buffer`: the lines that are complete, and what is left.
abbrev pub push : ℕ → List Bytes × Bytes → List Bytes × Bytes
push b ([], rest) = ([], b ∷ rest)
push b (line ∷ lines, rest) = ((b ∷ line) ∷ lines, rest)

unfoldable pub cut : Bytes → List Bytes × Bytes
cut [] = ([], [])
cut (b ∷ bs) =
    let (lines, rest) = cut bs in if b == 10 then ([] ∷ lines, rest) else push b (lines, rest)

-- `rstrip(b"\r")`
unfoldable pub rstrip : Bytes → Bytes
rstrip [] = []
rstrip (b ∷ bs) = let rest = rstrip bs in if is_empty rest && b == 13 then [] else b ∷ rest

-- `"\n".join(fields)`
unfoldable pub joined : List Bytes → Bytes
joined [] = []
joined (f ∷ []) = f
joined (f ∷ g ∷ fs) = f ++ 10 ∷ joined (g ∷ fs)

-- `value[1:] if value.startswith(" ") else value`
unfoldable pub without_space : Bytes → Bytes
without_space [] = []
without_space (b ∷ bs) = if b == 32 then bs else b ∷ bs

-- `line[5:]` where `line.startswith("data:")`
unfoldable pub data_field : Bytes → Option Bytes
data_field (a ∷ b ∷ c ∷ d ∷ e ∷ value) =
    if a == 100 && b == 97 && c == 116 && d == 97 && e == 58 then some value else none
data_field _ = none

-- `fields` and `event_bytes`, and what has been yielded so far.
pub record Reading : Type 0 where
  pub fields : List Bytes
  pub event_bytes : ℕ
  pub events : List Bytes

-- A stream that goes on, or has yielded events and raised.
pub data Progress {ℓ} (A : Type ℓ) : Type ℓ where
  going : A → Progress A
  raised : List Bytes → Error → Progress A

abbrev pub then_go {ℓ κ} : {A : Type ℓ} {B : Type κ} → Progress A → (A → Progress B) → Progress B
then_go (going a) f = f a
then_go (raised events e) f = raised events e

abbrev pub dispatched : Reading → Reading
dispatched r = record {
  fields = [];
  event_bytes = 0;
  events = if is_empty r.fields then r.events else r.events ++ joined r.fields ∷ [];
}

abbrev pub with_field : Option Bytes → Reading → Reading
with_field none r = r
with_field (some value) r = record r { fields = r.fields ++ without_space value ∷ [] }

module _ (decode : Bytes → Result Bytes) where
  abbrev pub take_decoded : Result Bytes → Reading → Progress Reading
  take_decoded (err e) r = raised r.events e
  take_decoded (ok line) r =
      going (if is_empty line then dispatched r else with_field (data_field line) r)

  -- The loop's body, for one complete line.
  unfoldable pub take_line : Bytes → Reading → Progress Reading
  take_line raw_line r =
      let r1 = record r { event_bytes = r.event_bytes + (length raw_line + 1) } in
      if ltb max_event_bytes r1.event_bytes
      then raised r.events (Error.provider_failure false)
      else take_decoded (decode (rstrip raw_line)) r1

  unfoldable pub take_lines : List Bytes → Reading → Progress Reading
  take_lines [] r = going r
  take_lines (line ∷ lines) r = then_go (take_line line r) (take_lines lines)

  -- The check behind the loop over lines; the buffer that is left stands beside the reading.
  abbrev pub check_rest : Bytes → Reading → Progress (Reading × Bytes)
  check_rest rest r =
      if ltb max_event_bytes (r.event_bytes + length rest)
      then raised r.events (Error.provider_failure false)
      else going (r, rest)

  unfoldable pub take_chunk : Bytes → Reading → Bytes → Progress (Reading × Bytes)
  take_chunk chunk r buffer =
      let (lines, rest) = cut (buffer ++ chunk) in then_go (take_lines lines r) (check_rest rest)

  -- The loop over the chunks.
  unfoldable pub take_chunks : ℕ → List Bytes → Reading × Bytes → Progress (Reading × Bytes)
  take_chunks total [] (r, buffer) = going (r, buffer)
  take_chunks total (chunk ∷ chunks) (r, buffer) =
      if ltb max_response_bytes (total + length chunk)
      then raised r.events (Error.provider_failure false)
      else then_go (take_chunk chunk r buffer) (take_chunks (total + length chunk) chunks)

  -- `sse_data`: the events that it yields, and whether it ends or raises.
  abbrev pub ended : Progress (Reading × Bytes) → List Bytes × Option Error
  ended (going (r, rest)) = (r.events, none)
  ended (raised events e) = (events, some e)

  unfoldable pub sse_data : List Bytes → List Bytes × Option Error
  sse_data chunks =
      ended (take_chunks 0 chunks (record { fields = []; event_bytes = 0; events = [] }, []))
