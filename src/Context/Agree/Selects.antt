-- ===== src/Context/Agree/Selects.antt =====
-- `ContextWindow.select` of src/agent_runtime/context.py is the reference and its outcome.
use agent_runtime_kit.Canonical.{Message}
use agent_runtime_kit.Context.Agree.Entries.{Entry}
use agent_runtime_kit.Context.Agree.Shape.{IsPlaced, close-IsPlaced, join-IsPlaced, opened-IsPlaced}
use agent_runtime_kit.Context.Agree.Reference.{Full, close, reference, empty_full, join, opened}
use agent_runtime_kit.Context.Agree.Scanned.{
  scanned, groups_of, close_group-scanned, join-sizes, opened-sizes, scan-scanned,
}
use agent_runtime_kit.Context.Select.{Scan, conclude, close_group, select, elem, mark}
use agent_runtime_kit.Context.Agree.Selected.{
  conclude_marked, conclude_marked-outcome, first_of, marks_whole,
}
use agent_runtime_kit.Errors.{Result-cases, ok, ◌>>=◌}
use agent_runtime_kit.Base.{
  Bool-cases, List, Option, Option-cases, [], ap, append-nil, append_assoc, arith, inl, inr,
  is_empty, leb, length, length-append, refl, some, subst, sym, ℕ, ◌++◌, ◌||◌, ◌∙◌, ◌∷◌, ◌≡◌, true,
}
use agent_runtime_kit.Context.Agree.Sums.{nth}
use agent_runtime_kit.Context.Agree.Held.{
  IsHeld, close-IsHeld, join-IsHeld, nth-append, opened-IsHeld,
}
use agent_runtime_kit.Context.Agree.Concluded.{IsWhole, outcome}

conclude-close_group :
    (b : ℕ) (history current : List Message) (s : Scan)
    → conclude b history current s
      ≡ conclude_marked b history current
          (λ j. elem j (close_group s).protected || leb (length history) j)
          (close_group s)
          (close_group s).groups
          (mark
            (λ j. elem j (close_group s).protected || leb (length history) j)
            (close_group s).groups)
unfolding conclude
conclude-close_group b history current s = elim (Bool-cases (is_empty s.group)) [
  | inl e ↦ rw e refl
  | inr e ↦ rw e refl
]

pub close-sizes : (hist : ℕ) (f : Full) → (close hist f).sizes ≡ f.sizes
unfolding close
close-sizes hist f = ground arith

is_empty-nil : (es : List Entry) → is_empty es ≡ true → es ≡ []
is_empty-nil [] h = refl
is_empty-nil (e ∷ es) h = absurd (ground arith)

close-group : (hist : ℕ) (f : Full) → (close hist f).group ≡ []
unfolding close
close-group hist f = elim (Bool-cases (is_empty f.group)) [
  | inl e ↦ rw e (is_empty-nil f.group e)
  | inr e ↦ rw e refl
]

close_group-scanned_all : (hist : ℕ) (f : Full) → close_group (scanned f) ≡ scanned (close hist f)
close_group-scanned_all hist f =
    subst (λ sizes. close_group (scanned f) ≡ record (scanned (close hist f)) { sizes = sizes })
      (sym (close-sizes hist f)) (close_group-scanned hist f f.sizes)

module _ (encode : Message → Option ℕ) (b : ℕ) (history current : List Message) where
  conclude-outcome :
      (f : Full)
      → IsWhole encode b (length history) (history ++ current) (close (length history) f)
      → conclude b history current (scanned f)
        ≡ outcome encode b
            (length history)
            (length current)
            (history ++ current)
            (close (length history) f)
  conclude-outcome f w =
      let on = λ (s : Scan).
        conclude_marked b history current (λ j. elem j s.protected || leb (length history) j) s
          s.groups (mark (λ j. elem j s.protected || leb (length history) j) s.groups) in
      let g = close (length history) f in
      conclude-close_group b history current (scanned f)
      ∙ ap on (close_group-scanned_all (length history) f)
      ∙ ap
          (conclude_marked b history current (first_of encode b history current g) (scanned g)
            (groups_of g.closed))
          (marks_whole encode b history current g w)
      ∙ conclude_marked-outcome encode b history current g w

-- All that the reference keeps true of what it has scanned.
pub record IsScanned (encode : Message → Option ℕ) (hist : ℕ) (ms done : List Message) (f : Full)
    : Type 0 where
  pub placed : IsPlaced hist f
  pub held : IsHeld encode ms f
  pub all : length f.sizes ≡ length done

module _ (encode : Message → Option ℕ) (hist : ℕ) where
  join-IsScanned :
      (done rest : List Message) (m : Message) (size : ℕ) (f f' : Full)
      → encode m ≡ some size
      → IsScanned encode hist (done ++ m ∷ rest) done f
      → join m size (opened hist m f) ≡ ok f'
      → IsScanned encode hist (done ++ m ∷ rest) (done ++ m ∷ []) f'
  join-IsScanned done rest m size f f' h s j =
      let ms = done ++ m ∷ rest in
      let z = opened-sizes hist m f in
      let l : length (opened hist m f).sizes ≡ length done =
        ap (λ (l : List ℕ). length l) z ∙ s.all in
      let n : nth ms (length (opened hist m f).sizes) ≡ some m = rw l (nth-append done m rest) in
      let y = ap (λ (l : List ℕ). length l) (join-sizes m size (opened hist m f) f' j) in
      record {
        placed =
            join-IsPlaced hist m size (opened hist m f) f' (opened-IsPlaced hist m f s.placed) j;
        held =
            join-IsHeld encode ms m size (opened hist m f) f' h n
              (opened-IsHeld encode ms hist m f s.held) j;
        all = omega (
          arith,
          y,
          l,
          length-append (opened hist m f).sizes (size ∷ []),
          length-append done (m ∷ []),
        );
      }

  reference-IsScanned :
      (done rest : List Message) (f f' : Full)
      → IsScanned encode hist (done ++ rest) done f
      → reference encode hist rest f ≡ ok f'
      → IsScanned encode hist (done ++ rest) (done ++ rest) f'
  unfolding reference
  reference-IsScanned done [] f f' s h =
      let e : f ≡ f' = ground arith in
      subst (IsScanned encode hist (done ++ []) (done ++ [])) e
        (subst (λ d. IsScanned encode hist (done ++ []) d f) (sym (append-nil done)) s)
  reference-IsScanned done (m ∷ ms) f f' s h = elim (Option-cases (encode m)) [
    | inl e ↦ absurd (ground arith)
    | inr (size, e) ↦
        let h' : (join m size (opened hist m f) >>= reference encode hist ms) ≡ ok f' =
          rw (e, reference) at h in
        elim (Result-cases (join m size (opened hist m f))) [
          | inl (x, q) ↦ let h2 = rw q at h' in absurd (ground arith)
          | inr (f1, q) ↦
              let h2 : reference encode hist ms f1 ≡ ok f' = rw q at h' in
              let a = append_assoc done (m ∷ []) ms in
              let s1 = join-IsScanned done ms m size f f1 e s q in
              subst (λ l. IsScanned encode hist l l f') a
                (reference-IsScanned (done ++ m ∷ []) ms f1 f'
                  (subst (λ l. IsScanned encode hist l (done ++ m ∷ []) f1) (sym a) s1) h2)
        ]
  ]

  pub reference-IsWhole :
      (b : ℕ) (ms : List Message) (f : Full)
      → reference encode hist ms empty_full ≡ ok f
      → IsWhole encode b hist ms (close hist f)
  reference-IsWhole b ms f h =
      let s =
        reference-IsScanned [] ms empty_full f
          (record {
            placed = record { placed = λ j. ground arith; required = λ j. omega arith };
            held = record { systems = tt; required = tt; group = tt; closed = tt; nonempty = tt };
            all = refl;
          })
          h in
      record {
        placed = close-IsPlaced hist f s.placed;
        held = close-IsHeld encode ms hist f s.held;
        all = ap (λ (l : List ℕ). length l) (close-sizes hist f) ∙ s.all;
        empty = close-group hist f;
      }

pub select-reference :
    (encode : Message → Option ℕ) (b : ℕ) (history current : List Message)
    → select b history current encode ≡ (
        reference encode (length history) (history ++ current) empty_full >>= λ f.
        outcome encode b
          (length history)
          (length current)
          (history ++ current)
          (close (length history) f))
unfolding select
select-reference encode b history current =
    let ms = history ++ current in
    let s = scan-scanned encode (length history) 0 ms empty_full refl in
    elim (Result-cases (reference encode (length history) ms empty_full)) [
      | inl (x, q) ↦ let s' = rw q at s in rw (s', q) refl
      | inr (f, q) ↦
          let s' = rw q at s in
          rw (s', q)
            (conclude-outcome encode b history current f
              (reference-IsWhole encode (length history) b ms f q))
    ]
