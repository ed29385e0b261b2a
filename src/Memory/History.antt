-- ===== src/Memory/History.antt =====
-- The order of a thread's history under the appends of src/agent_runtime/memory/_message_batch.py.
use agent_runtime_kit.Errors.{ok}
use agent_runtime_kit.Canonical.{Message}
use agent_runtime_kit.Base.{
  ==_iff, All, Bool-cases, List, Option, String, [], ap, append-nil, append_assoc, arith, false,
  inl, inr, leb, length, map-append, refl, suc, sym, true, ℕ, ◌++◌, ◌+◌, ◌<◌, ◌==◌, ◌∙◌, ◌∷◌, ◌≡◌,
  ◌≢◌, if◌then◌else◌,
}
use agent_runtime_kit.Database.{Db, MessageRow}
use agent_runtime_kit.Database.Batch.{
  append_message_batch, batch_rows, has_message, insert_messages, last_sequence,
}
use agent_runtime_kit.Memory.Threads.{
  insert_by_sequence, message_of, sort_by_sequence, thread_rows, transcript,
}

-- The rows of a thread, newest first, are numbered from their count down to 1.
abbrev pub Dense : List MessageRow → Type 0
Dense [] = Unit
Dense (m ∷ ms) = (m.sequence ≡ suc (length ms)) × Dense ms

-- Every thread's rows are numbered without a gap.
abbrev pub IsNumbered : List MessageRow → Type 0
IsNumbered table = (k : ℕ) → Dense (thread_rows k table)

last_sequence-length :
    (k : ℕ) (table : List MessageRow)
    → Dense (thread_rows k table)
    → last_sequence k table ≡ length (thread_rows k table)
unfolding last_sequence thread_rows
last_sequence-length k [] d = refl
last_sequence-length k (m ∷ ms) d = elim (Bool-cases (m.thread_id == k)) [
  | inl e ↦
      let d' : Dense (m ∷ thread_rows k ms) = rw e at d in
      let ih = last_sequence-length k ms d'.1 in rw e (ground arith)
  | inr e ↦ let d' : Dense (thread_rows k ms) = rw e at d in rw e (last_sequence-length k ms d')
]

abbrev Below : ℕ → List MessageRow → Type 0
Below n = All (λ (x : MessageRow). x.sequence < n)

Dense-Below : (n : ℕ) (rows : List MessageRow) → Dense rows → length rows < n → Below n rows
Dense-Below n [] d h = tt
Dense-Below n (m ∷ ms) d h = (omega arith, Dense-Below n ms d.1 (omega arith))

insert-Below :
    (n : ℕ) (m : MessageRow) (xs : List MessageRow)
    → m.sequence < n
    → Below n xs
    → Below n (insert_by_sequence m xs)
unfolding insert_by_sequence
insert-Below n m [] h b = (h, tt)
insert-Below n m (x ∷ xs) h b = elim (Bool-cases (leb m.sequence x.sequence)) [
  | inl e ↦ rw e (h, b)
  | inr e ↦ rw e (b.0, insert-Below n m xs h b.1)
]

sort-Below : (n : ℕ) (xs : List MessageRow) → Below n xs → Below n (sort_by_sequence xs)
unfolding sort_by_sequence
sort-Below n [] b = tt
sort-Below n (x ∷ xs) b = insert-Below n x (sort_by_sequence xs) b.0 (sort-Below n xs b.1)

-- A row behind all others goes to the end.
insert_last :
    (m : MessageRow) (xs : List MessageRow)
    → Below m.sequence xs
    → insert_by_sequence m xs ≡ xs ++ m ∷ []
unfolding insert_by_sequence
insert_last m [] b = refl
insert_last m (x ∷ xs) b =
    let e : leb m.sequence x.sequence ≡ false = ground (arith, b.0) in rw (e, insert_last m xs b.1)

-- One appended row: the transcript of its thread grows by its message, and others stay.
transcript-push :
    (k : ℕ) (m : MessageRow) (table : List MessageRow)
    → Dense (thread_rows k table)
    → m.thread_id ≡ k
    → m.sequence ≡ suc (length (thread_rows k table))
    → transcript k (m ∷ table) ≡ transcript k table ++ message_of m ∷ []
unfolding transcript thread_rows sort_by_sequence
transcript-push k m table d e s =
    let t : (m.thread_id == k) ≡ true = ground arith in
    let b : Below m.sequence (sort_by_sequence (thread_rows k table)) =
      sort-Below m.sequence (thread_rows k table)
        (Dense-Below m.sequence (thread_rows k table) d (omega arith)) in
    rw (t, insert_last m (sort_by_sequence (thread_rows k table)) b, map-append) refl

transcript-other :
    (k : ℕ) (m : MessageRow) (table : List MessageRow)
    → m.thread_id ≢ k
    → transcript k (m ∷ table) ≡ transcript k table
unfolding transcript thread_rows
transcript-other k m table n = let t : (m.thread_id == k) ≡ false = ground arith in rw t

push-IsNumbered :
    (m : MessageRow) (table : List MessageRow)
    → IsNumbered table
    → m.sequence ≡ suc (length (thread_rows m.thread_id table))
    → IsNumbered (m ∷ table)
unfolding thread_rows
push-IsNumbered m table d s k = elim (Bool-cases (m.thread_id == k)) [
  | inl e ↦
      let i : m.thread_id ≡ k = (==_iff m.thread_id k).0 e in
      rw e (s ∙ ap (λ (n : ℕ). suc (length (thread_rows n table))) i, d k)
  | inr e ↦ rw e (d k)
]

length-push :
    (k : ℕ) (m : MessageRow) (table : List MessageRow)
    → m.thread_id ≡ k
    → length (thread_rows k (m ∷ table)) ≡ suc (length (thread_rows k table))
unfolding thread_rows
length-push k m table e = let t : (m.thread_id == k) ≡ true = ground arith in rw t

-- What an append does to a numbered table.
pub record Appends (k : ℕ) (ms : List Message) (table table' : List MessageRow) : Type 0 where
  pub numbered : IsNumbered table'
  pub transcripts :
      (j : ℕ) → transcript j table' ≡ transcript j table ++ (if j == k then ms else [])

Appends-refl : (k : ℕ) (table : List MessageRow) → IsNumbered table → Appends k [] table table
Appends-refl k table d = record {
  numbered = d;
  transcripts = λ j. elim (Bool-cases (j == k)) [
    | inl e ↦ rw e (sym (append-nil (transcript j table)))
    | inr e ↦ rw e (sym (append-nil (transcript j table)))
  ];
}

Appends-push :
    (k : ℕ) (row : MessageRow) (ms : List Message) (table table' : List MessageRow)
    → IsNumbered table
    → row.thread_id ≡ k
    → row.sequence ≡ suc (length (thread_rows k table))
    → Appends k ms (row ∷ table) table'
    → Appends k (message_of row ∷ ms) table table'
Appends-push k row ms table table' d t s ih = record {
  numbered = ih.numbered;
  transcripts = λ j. elim (Bool-cases (j == k)) [
    | inl e ↦
        let i : row.thread_id ≡ j = t ∙ sym ((==_iff j k).0 e) in
        let n : row.sequence ≡ suc (length (thread_rows j table)) =
          s ∙ ap (λ (x : ℕ). suc (length (thread_rows x table))) (sym ((==_iff j k).0 e)) in
        let own : transcript j table' ≡ transcript j (row ∷ table) ++ ms =
          rw e at (ih.transcripts j) in
        rw e (
          own
          ∙ ap (λ l. l ++ ms) (transcript-push j row table (d j) i n)
          ∙ append_assoc (transcript j table) (message_of row ∷ []) ms)
    | inr e ↦
        let other : transcript j table' ≡ transcript j (row ∷ table) ++ [] =
          rw e at (ih.transcripts j) in
        rw e (other ∙ ap (λ l. l ++ []) (transcript-other j row table (ground arith)))
  ];
}

insert-Appends :
    (k last : ℕ) (ms : List Message) (table table' : List MessageRow)
    → IsNumbered table
    → last ≡ length (thread_rows k table)
    → insert_messages (batch_rows k last ms) table ≡ ok table'
    → Appends k ms table table'
unfolding insert_messages batch_rows
insert-Appends k last [] table table' d l h =
    let e : table' ≡ table = ground arith in rw e (Appends-refl k table d)
insert-Appends k last (m ∷ ms) table table' d l h = elim (Bool-cases (has_message m.id table)) [
  | inl e ↦ absurd (ground arith)
  | inr e ↦
      let row : MessageRow = record {
        id = m.id;
        thread_id = k;
        sequence = last + 1;
        role = m.role;
        content = m.content;
      } in
      let s : row.sequence ≡ suc (length (thread_rows k table)) = omega arith in
      let n : IsNumbered (row ∷ table) = push-IsNumbered row table d s in
      let l' : last + 1 ≡ length (thread_rows k (row ∷ table)) =
        omega (arith, length-push k row table refl) in
      Appends-push k row ms table table' d refl s
        (insert-Appends k (last + 1) ms (row ∷ table) table' n l' (rw e at h))
]

-- An append that succeeds on tables whose threads are numbered from 1 without a gap keeps them so,
-- puts the batch behind the transcript of its thread in the order given, and leaves the transcript
-- of every other thread as it was.
pub append_message_batch-Appends :
    (now k : ℕ) (ms : List Message) (namespace : Option String) (db : Db) (a : List MessageRow × Db)
    → IsNumbered db.messages
    → append_message_batch now k ms namespace db ≡ ok a
    → Appends k ms db.messages a.1.messages
unfolding append_message_batch
append_message_batch-Appends now k [] namespace db a d h =
    let e : a.1.messages ≡ db.messages = ground arith in rw e (Appends-refl k db.messages d)
append_message_batch-Appends now k (m ∷ ms) namespace db a d h =
    insert-Appends k (last_sequence k db.messages) (m ∷ ms) db.messages a.1.messages d
      (last_sequence-length k db.messages (d k)) (ground arith)
